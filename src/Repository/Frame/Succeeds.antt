-- ===== src/Repository/Frame/Succeeds.antt =====
-- What holds when a repository body succeeds, step by step, and when the whole function does.
use cbsa_rust.Prelude.{subst, sym, ◌≡◌, Result, ok, err, Bool-cases, inl, inr}
use cbsa_rust.Text.{Text}
use cbsa_rust.Crates.{Crates}
use cbsa_rust.Error.{CbsaError}
use cbsa_rust.Db.Tables.{Tables}
use cbsa_rust.Db.Session.{Session, Stmt, branch_cases}
use cbsa_rust.Db.Retry.{is_serialization_failure, on_error}
use cbsa_rust.Repository.Frame.{OnceOutcome, Outcome, run_transaction}
use cbsa_rust.Repository.Frame.Atomic.{Ran, Atomic, run_transaction-Atomic}

module _ ⦃c : Crates⦄ {A : Type 0} where
  abbrev pub Succeeds :
      Result c.SqlxError (OnceOutcome A) × Session → (A → Session → Type 0) → Type 0
  Succeeds (ok (OnceOutcome.success a), s) Q = Q a s
  Succeeds (ok (OnceOutcome.failure code message), s) Q = Unit
  Succeeds (ok (OnceOutcome.abend code message), s) Q = Unit
  Succeeds (err e, s) Q = Unit

  pub Succeeds_mono :
      (x : Result c.SqlxError (OnceOutcome A) × Session) (P Q : A → Session → Type 0)
      → ((a : A) (s : Session) → P a s → Q a s)
      → Succeeds x P
      → Succeeds x Q
  Succeeds_mono (ok (OnceOutcome.success a), s) P Q f h = f a s h
  Succeeds_mono (ok (OnceOutcome.failure code message), s) P Q f h = tt
  Succeeds_mono (ok (OnceOutcome.abend code message), s) P Q f h = tt
  Succeeds_mono (err e, s) P Q f h = tt

  -- The same for what the whole function returns.
  abbrev pub Returns : Result CbsaError (Outcome A) × Session → (A → Session → Type 0) → Type 0
  Returns (ok (Outcome.success a), s) Q = Q a s
  Returns (ok (Outcome.failure code message), s) Q = Unit
  Returns (err e, s) Q = Unit

  pub Returns_mono :
      (x : Result CbsaError (Outcome A) × Session) (P Q : A → Session → Type 0)
      → ((a : A) (s : Session) → P a s → Q a s)
      → Returns x P
      → Returns x Q
  Returns_mono (ok (Outcome.success a), s) P Q f h = f a s h
  Returns_mono (ok (Outcome.failure code message), s) P Q f h = tt
  Returns_mono (err e, s) P Q f h = tt

module _ ⦃c : Crates⦄ {A B : Type 0} where
  -- A step whose recovery is no success.
  pub on_error-Succeeds :
      (m : Stmt A) (recover : c.SqlxError → OnceOutcome B) (next : A → Stmt (OnceOutcome B))
      (s : Session) (Q : B → Session → Type 0)
      → ((e : c.SqlxError) (s' : Session) → Succeeds (ok (recover e), s') Q)
      → ((a : A) (s' : Session) → m s ≡ (ok a, s') → Succeeds (next a s') Q)
      → Succeeds (on_error m recover next s) Q
  unfolding on_error
  on_error-Succeeds m recover next s Q bad good =
      branch_cases (m s) next _ (λ x. Succeeds x Q) good
        λ e s' failed. elim (Bool-cases (is_serialization_failure e)) [
          | inl again ↦ rw again tt
          | inr other ↦ rw other (bad e s')
        ]

module _ ⦃c : Crates⦄ {A : Type 0} (once : Stmt (OnceOutcome A)) where
  Ran-elim :
      (Q : Tables → A → Tables → Type 0)
      → ((s : Session) → Succeeds (once s) (λ a s'. Q s.tables a s'.tables))
      → (before : Tables) (a : A) (after : Tables) → Ran once before a after
      → Q before a after
  Ran-elim Q body before a after ran =
      let held : Q ran.begun.tables a ran.ended.tables =
        subst (λ x. Succeeds x (λ b s'. Q ran.begun.tables b s'.tables)) ran.run (body ran.begun) in
      rw ran.ended_tables (subst (λ t. Q t a ran.ended.tables) ran.begun_tables held)

  -- A relation that each successful run of the body sets up between the tables before and after it
  -- is set up by the whole function when it succeeds.
  pub run_transaction-Returns :
      (Q : Tables → A → Tables → Type 0)
      → ((s : Session) → Succeeds (once s) (λ a s'. Q s.tables a s'.tables))
      → (exhausted : Text) (s : Session)
      → Returns (run_transaction exhausted once s) (λ a s'. Q s.tables a s'.tables)
  run_transaction-Returns Q body exhausted s =
      go (run_transaction exhausted once s) (run_transaction-Atomic once exhausted s)
    where
      go :
          (x : Result CbsaError (Outcome A) × Session)
          → Atomic once s.tables x
          → Returns x (λ a s'. Q s.tables a s'.tables)
      go (ok (Outcome.success a), s') ran = Ran-elim Q body s.tables a s'.tables ran
      go (ok (Outcome.failure code message), s') same = tt
      go (err e, s') same = tt

module _ ⦃c : Crates⦄ {A : Type 0} (once : Stmt (OnceOutcome A)) where
  -- What holds of the tables as they were, and follows when the function succeeds, holds of the
  -- tables that it leaves.
  pub Returns_keeps :
      (P : Tables → Type 0) (before : Tables) (x : Result CbsaError (Outcome A) × Session)
      → P before
      → Atomic once before x
      → Returns x (λ a s. P s.tables)
      → P x.1.tables
  Returns_keeps P before (ok (Outcome.success a), s) p atomic q = q
  Returns_keeps P before (ok (Outcome.failure code message), s) p same q = subst P (sym same) p
  Returns_keeps P before (err e, s) p same q = subst P (sym same) p
