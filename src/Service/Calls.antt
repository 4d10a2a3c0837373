-- ===== src/Service/Calls.antt =====
-- What the service modules have in common: the `?` after the checks of a request, the `match` on the
-- outcome of the repository, and what a call reports of the tables.
use cbsa_rust.Prelude.{◌≡◌, refl, String, Option, none, some, Result, ok, err, arith, ◌>>◌}
use cbsa_rust.Text.{Text}
use cbsa_rust.Crates.{Crates}
use cbsa_rust.Error.{CbsaError}
use cbsa_rust.Db.Tables.{Tables}
use cbsa_rust.Db.Session.{Session, Stmt}
use cbsa_rust.Repository.Frame.{OnceOutcome, Outcome, run_transaction}
use cbsa_rust.Repository.Frame.Atomic.{Atomic, run_transaction-Atomic}
use cbsa_rust.Repository.Frame.Succeeds.{Returns}

-- The second of two checks that pass.
pub second_passes :
    {E : Type 0} (first second : Result E (Unit {0})) → (first >> second) ≡ ok tt → second ≡ ok tt
second_passes (ok _) second h = h
second_passes (err e) second h = ground arith

module _ ⦃c : Crates⦄ {R : Type 0} where
  -- The body of a service, behind its checks.
  abbrev pub when_valid :
      Result CbsaError (Unit {0})
      → (Session → Result CbsaError R × Session)
      → Session
      → Result CbsaError R × Session
  when_valid (ok _) body s = body s
  when_valid (err e) body s = (err e, s)

  -- What holds of a call that its checks refuse, and of the body when they pass.
  pub when_valid-cases :
      (P : Result CbsaError R × Session → Type 0) (checks : Result CbsaError (Unit {0}))
      (body : Session → Result CbsaError R × Session) (s : Session)
      → ((e : CbsaError) → P (err e, s))
      → (checks ≡ ok tt → P (body s))
      → P (when_valid checks body s)
  when_valid-cases P (err e) body s refused passed = refused e
  when_valid-cases P (ok tt) body s refused passed = passed refl

module _ ⦃c : Crates⦄ {A R : Type 0} where
  -- The final `match` of a service.
  abbrev pub reported :
      (A → R) → (String → Text → R) → Result CbsaError (Outcome A) → Result CbsaError R
  reported succeeded failed (ok (Outcome.success a)) = ok (succeeded a)
  reported succeeded failed (ok (Outcome.failure fail_code message)) = ok (failed fail_code message)
  reported succeeded failed (err e) = err e

-- A result that reports a value has changed the tables in a certain way; any other result or error
-- has changed nothing.
module _ ⦃c : Crates⦄ {A R : Type 0} (value : R → Option A) (before : Tables)
    (Q : A → Tables → Type 0) where
  abbrev pub Changes : Option A → Tables → Type 0
  Changes (some a) after = Q a after
  Changes none after = after ≡ before

  abbrev pub Reports : Result CbsaError R × Session → Type 0
  Reports (ok r, s) = Changes (value r) s.tables
  Reports (err e, s) = s.tables ≡ before

  pub when_valid-Reports :
      (checks : Result CbsaError (Unit {0})) (body : Session → Result CbsaError R × Session)
      (s : Session)
      → s.tables ≡ before
      → (checks ≡ ok tt → Reports (body s))
      → Reports (when_valid checks body s)
  when_valid-Reports checks body s same passed =
      when_valid-cases Reports checks body s (λ e. same) passed

  reported-Reports :
      (succeeded : A → R) (failed : String → Text → R) (once : Stmt (OnceOutcome A))
      (x : Result CbsaError (Outcome A) × Session)
      → ((a : A) → value (succeeded a) ≡ some a)
      → ((fail_code : String) (message : Text) → value (failed fail_code message) ≡ none)
      → Atomic once before x
      → Returns x (λ a s. Q a s.tables)
      → Reports (reported succeeded failed x.0, x.1)
  reported-Reports succeeded failed once (ok (Outcome.success a), s) p q ran h = rw (p a) h
  reported-Reports succeeded failed once (ok (Outcome.failure code message), s) p q kept _ =
      rw (q code message) kept
  reported-Reports succeeded failed once (err e, s) p q kept _ = kept

module _ ⦃c : Crates⦄ {A R : Type 0} (value : R → Option A) (succeeded : A → R)
    (failed : String → Text → R) where
  -- The call of a repository function reports what its successes are known to do.
  pub run_transaction-Reports :
      (once : Stmt (OnceOutcome A)) (exhausted : Text) (s : Session) (Q : A → Tables → Type 0)
      → ((a : A) → value (succeeded a) ≡ some a)
      → ((fail_code : String) (message : Text) → value (failed fail_code message) ≡ none)
      → Returns (run_transaction exhausted once s) (λ a s'. Q a s'.tables)
      → let (r, s') = run_transaction exhausted once s in
        Reports value s.tables Q (reported succeeded failed r, s')
  run_transaction-Reports once exhausted s Q p q h =
      reported-Reports value s.tables Q succeeded failed once (run_transaction exhausted once s) p q
        (run_transaction-Atomic once exhausted s) h
