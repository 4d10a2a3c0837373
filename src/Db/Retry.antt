-- ===== src/Db/Retry.antt =====
-- `db.rs`: the test for a serialization failure and the retry loop.
pub mod Bound
pub mod Reads
use text.Mathlib.Text.{◌==◌ as str_eq}
use cbsa_rust.Prelude.{
  ◌≡◌, refl, ℕ, zero, suc, ◌-◌, Bool, false, String, Option, none, some, Result, ok, err,
  if◌then◌else◌,
}
use cbsa_rust.Crates.{Crates}
use cbsa_rust.Db.Session.{Session, Stmt, branch}

abbrev pub default_retry_attempts : ℕ
default_retry_attempts = 5

module _ ⦃c : Crates⦄ where
  unfoldable pub is_serialization_failure : c.SqlxError → Bool
  is_serialization_failure e = elim (c.sqlstate e) [
    | none ↦ false
    | some code ↦ str_eq code "40001"
  ]

  -- The loop of `with_retry` with `left` more attempts after this one: the source counts `attempts`
  -- up and tests `attempts < DEFAULT_RETRY_ATTEMPTS`, and `left` is the difference.
  unfoldable pub retry : {A : Type 0} → ℕ → Stmt A → Stmt A
  retry zero f s = f s
  retry (suc left) f s =
      branch (f s) (λ a s'. (ok a, s'))
        (λ e s'.
          let again = retry left f s' in if is_serialization_failure e then again else (err e, s'))

  unfoldable pub with_retry : {A : Type 0} → Stmt A → Stmt A
  with_retry f = retry (default_retry_attempts - 1) f

  -- `Ok(v) => …`, `Err(err) if is_serialization_failure(&err) => return Err(err)` and
  -- `Err(err) => return Ok(…)` after a statement.
  unfoldable pub on_error : {A B : Type 0} → Stmt A → (c.SqlxError → B) → (A → Stmt B) → Stmt B
  on_error m recover next s =
      branch (m s) next (λ e s'. (if is_serialization_failure e then err e else ok (recover e), s'))

  pub on_error_ok :
      {A B : Type 0} (m : Stmt A) (recover : c.SqlxError → B) (next : A → Stmt B) (s s' : Session)
      (a : A)
      → m s ≡ (ok a, s')
      → on_error m recover next s ≡ next a s'
  unfolding on_error
  on_error_ok m recover next s s' a run = rw (run, branch)
