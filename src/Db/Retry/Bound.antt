-- ===== src/Db/Retry/Bound.antt =====
-- How often `with_retry` runs its closure, and what it returns.
use cbsa_rust.Prelude.{
  ℕ, zero, suc, ◌+◌, ◌-◌, ◌<◌, ◌≡◌, refl, true, false, Result, ok, err, arith, ap, ◌∙◌,
}
use cbsa_rust.Crates.{Crates}
use cbsa_rust.Db.Session.{Session, Stmt, branch}
use cbsa_rust.Db.Retry.{is_serialization_failure, retry, with_retry, default_retry_attempts}

module _ ⦃c : Crates⦄ {A : Type 0} (f : Stmt A) where
  -- `k` runs in a row, from `s` to `t`, that each end in a serialization failure.
  abbrev pub Fails : ℕ → Session → Session → Type 0
  Fails zero s t = s ≡ t
  Fails (suc k) s t =
      (e : c.SqlxError) × (s' : Session) × (f s ≡ (err e, s'))
      × (is_serialization_failure e ≡ true)
      × Fails k s' t

  -- A run that `with_retry` does not repeat.
  abbrev pub Final : Result c.SqlxError A × Session → Type 0
  Final (ok a, s) = Unit
  Final (err e, s) = is_serialization_failure e ≡ false

  retry_step :
      (left : ℕ) (s s' : Session) (e : c.SqlxError)
      → f s ≡ (err e, s')
      → is_serialization_failure e ≡ true
      → retry (suc left) f s ≡ retry left f s'
  unfolding retry
  retry_step left s s' e run again = rw (run, again)

  retry-Fails : (k left : ℕ) (s t : Session) → Fails k s t → retry (k + left) f s ≡ retry left f t
  retry-Fails zero left s t h = rw h (ap (λ n. retry n f t) (omega arith))
  retry-Fails (suc k) left s t (e, s', run, again, rest) =
      let size : suc k + left ≡ suc (k + left) = omega arith in
      rw size (retry_step (k + left) s s' e run again ∙ retry-Fails k left s' t rest)

  retry-Final : (left : ℕ) (s : Session) → Final (f s) → retry left f s ≡ f s
  unfolding retry
  retry-Final zero s h = refl
  retry-Final (suc left) s h = go (f s) refl h
    where
      go : (x : Result c.SqlxError A × Session) → f s ≡ x → Final x → retry (suc left) f s ≡ x
      go (ok a, t) run h = rw (run, branch)
      go (err e, t) run h = rw (run, branch, h)

  -- `with_retry` runs its closure again after each of up to four serialization failures, and returns
  -- the result of the first run that ends otherwise, unchanged.
  pub with_retry_recovers :
      (k : ℕ) (s t : Session) → k < 5 → Fails k s t → Final (f t) → with_retry f s ≡ f t
  unfolding with_retry
  with_retry_recovers k s t h fails final =
      let size : default_retry_attempts - 1 ≡ k + (4 - k) = omega arith in
      rw size (retry-Fails k (4 - k) s t fails ∙ retry-Final (4 - k) t final)

  -- After four serialization failures the fifth run is the last one: its result is returned whatever
  -- it is, a fifth serialization failure included.
  pub with_retry_exhausts : (s t : Session) → Fails 4 s t → with_retry f s ≡ f t
  unfolding with_retry retry
  with_retry_exhausts s t fails = retry-Fails 4 0 s t fails
