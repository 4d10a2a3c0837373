-- ===== src/Repository/Frame.antt =====
-- The frame that every repository function puts round its `…_once` body: begin, run, commit on
-- success, retry, and turn the outcome into a result.
pub mod Atomic
pub mod Succeeds
pub mod Quiet
use cbsa_rust.Prelude.{String, Result, ok, err, if◌then◌else◌}
use cbsa_rust.Text.{Text}
use cbsa_rust.Crates.{Crates}
use cbsa_rust.Error.{CbsaError, retry_exhausted_abend_code}
use cbsa_rust.Db.Tables.{Tables}
use cbsa_rust.Db.Session.{Session, Stmt, branch, pure, execute}
use cbsa_rust.Db.Retry.{is_serialization_failure, with_retry}

-- The `…OnceOutcome` of the repository modules: an `abend` is a hard failure.
pub data OnceOutcome (A : Type 0) : Type 0 where
  success : A → OnceOutcome A
  failure : String → Text → OnceOutcome A
  abend : String → Text → OnceOutcome A

-- The `…Outcome` that the repository modules return.
pub data Outcome (A : Type 0) : Type 0 where
  success : A → Outcome A
  failure : String → Text → Outcome A

module _ ⦃c : Crates⦄ where
  -- A transaction that is dropped without `commit`: the tables are those of `begin` again, but
  -- numbers drawn from the sequence stay drawn.
  abbrev pub roll_back : Tables → Session → Session
  roll_back before s = record s { tables = before }

  -- Commit on success, drop the transaction on any other outcome.
  unfoldable pub settle :
      {A : Type 0}
      → Tables
      → Result c.SqlxError (OnceOutcome A) × Session
      → Result c.SqlxError (OnceOutcome A) × Session
  settle before (ok (success a), s) =
      branch (execute (pure tt) s) (λ _ s'. (ok (success a), s'))
        (λ e s'. (err e, roll_back before s'))
  settle before (ok (failure code message), s) = (ok (failure code message), roll_back before s)
  settle before (ok (abend code message), s) = (ok (abend code message), roll_back before s)
  settle before (err e, s) = (err e, roll_back before s)

  -- The closure that is retried.
  unfoldable pub transaction : {A : Type 0} → Stmt (OnceOutcome A) → Stmt (OnceOutcome A)
  transaction once s =
      branch (execute (pure tt) s) (λ _ s'. settle s'.tables (once s')) (λ e s'. (err e, s'))

  -- The `map_err` and the final `match`.
  unfoldable pub conclude :
      {A : Type 0} → Text → Result c.SqlxError (OnceOutcome A) → Result CbsaError (Outcome A)
  conclude exhausted (ok (success a)) = ok (success a)
  conclude exhausted (ok (failure code message)) = ok (failure code message)
  conclude exhausted (ok (abend code message)) = err (CbsaError.abend code message)
  conclude exhausted (err e) = err (
      if is_serialization_failure e
      then CbsaError.abend retry_exhausted_abend_code exhausted
      else CbsaError.database e)

  unfoldable pub run_transaction :
      {A : Type 0} → Text → Stmt (OnceOutcome A) → Session → Result CbsaError (Outcome A) × Session
  run_transaction exhausted once s =
      let (r, s') = with_retry (transaction once) s in (conclude exhausted r, s')
