-- ===== src/Repository/Frame/Atomic.antt =====
-- The frame is atomic: what a repository function leaves in the tables is what its body wrote in one
-- successful run, or nothing.
use cbsa_rust.Prelude.{subst, ℕ, zero, suc, ◌≡◌, refl, Result, ok, err, arith, Bool-cases, inl, inr}
use cbsa_rust.Text.{Text}
use cbsa_rust.Crates.{Crates}
use cbsa_rust.Error.{CbsaError}
use cbsa_rust.Db.Tables.{Tables}
use cbsa_rust.Db.Session.{Session, Stmt, branch_cases, pure, execute}
use cbsa_rust.Db.Retry.{is_serialization_failure, retry, with_retry}
use cbsa_rust.Repository.Frame.{
  OnceOutcome, Outcome, settle, transaction, conclude, run_transaction,
}

module _ ⦃c : Crates⦄ where
  pub execute-pure_tables : (s : Session) → (execute (pure tt) s).1.tables ≡ s.tables
  unfolding execute
  execute-pure_tables s = ground arith

  kept :
      (s s' : Session) (r : Result c.SqlxError (Unit {0}))
      → execute (pure tt) s ≡ (r, s')
      → s'.tables ≡ s.tables
  kept s s' r e = rw e at (execute-pure_tables s)

module _ ⦃c : Crates⦄ {A : Type 0} (once : Stmt (OnceOutcome A)) where
  -- A successful run of the body on the tables `before`, and the tables that it left.
  pub record Ran (before : Tables) (a : A) (after : Tables) : Type 0 where
    pub begun : Session
    pub ended : Session
    pub begun_tables : begun.tables ≡ before
    pub run : once begun ≡ (ok (OnceOutcome.success a), ended)
    pub ended_tables : after ≡ ended.tables

  abbrev Settled : Tables → Result c.SqlxError (OnceOutcome A) × Session → Type 0
  Settled before (ok (OnceOutcome.success a), s) = Ran before a s.tables
  Settled before (ok (OnceOutcome.failure code message), s) = s.tables ≡ before
  Settled before (ok (OnceOutcome.abend code message), s) = s.tables ≡ before
  Settled before (err e, s) = s.tables ≡ before

  settle-Settled :
      (begun : Session) (x : Result c.SqlxError (OnceOutcome A) × Session)
      → once begun ≡ x
      → Settled begun.tables (settle begun.tables x)
  unfolding settle
  settle-Settled begun (ok (OnceOutcome.success a), s) run =
      branch_cases (execute (pure tt) s) _ _ (Settled begun.tables)
        (λ _ s' committed. record {
          begun = begun;
          ended = s;
          begun_tables = refl;
          run = run;
          ended_tables = kept s s' (ok tt) committed;
        })
        (λ e s' failed. refl)
  settle-Settled begun (ok (OnceOutcome.failure code message), s) run = refl
  settle-Settled begun (ok (OnceOutcome.abend code message), s) run = refl
  settle-Settled begun (err e, s) run = refl

  Settled-trans :
      (before middle : Tables) (x : Result c.SqlxError (OnceOutcome A) × Session)
      → middle ≡ before
      → Settled middle x
      → Settled before x
  Settled-trans before middle x e h = subst (λ t. Settled t x) e h

  transaction-Settled : (s : Session) → Settled s.tables (transaction once s)
  unfolding transaction
  transaction-Settled s =
      branch_cases (execute (pure tt) s) _ _ (Settled s.tables)
        (λ _ s' begun.
          Settled-trans s.tables s'.tables (settle s'.tables (once s')) (kept s s' (ok tt) begun)
            (settle-Settled s' (once s') refl))
        (λ e s' failed. kept s s' (err e) failed)

  retry-Settled : (left : ℕ) (s : Session) → Settled s.tables (retry left (transaction once) s)
  unfolding retry
  retry-Settled zero s = transaction-Settled s
  retry-Settled (suc left) s =
      branch_cases (transaction once s) _ _ (Settled s.tables)
        (λ a s' done. subst (Settled s.tables) done (transaction-Settled s))
        (λ e s' failed.
          let same : s'.tables ≡ s.tables =
            subst (Settled s.tables) failed (transaction-Settled s) in
          elim (Bool-cases (is_serialization_failure e)) [
            | inl again ↦ rw again (
                Settled-trans s.tables s'.tables (retry left (transaction once) s') same
                  (retry-Settled left s'))
            | inr other ↦ rw other same
          ])

  -- What a repository function returned, and the tables that it left.
  abbrev pub Atomic : Tables → Result CbsaError (Outcome A) × Session → Type 0
  Atomic before (ok (Outcome.success a), s) = Ran before a s.tables
  Atomic before (ok (Outcome.failure code message), s) = s.tables ≡ before
  Atomic before (err e, s) = s.tables ≡ before

  conclude-Atomic :
      (exhausted : Text) (before : Tables) (r : Result c.SqlxError (OnceOutcome A)) (s : Session)
      → Settled before (r, s)
      → Atomic before (conclude exhausted r, s)
  unfolding conclude
  conclude-Atomic exhausted before (ok (OnceOutcome.success a)) s h = h
  conclude-Atomic exhausted before (ok (OnceOutcome.failure code message)) s h = h
  conclude-Atomic exhausted before (ok (OnceOutcome.abend code message)) s h = h
  conclude-Atomic exhausted before (err e) s h = h

  -- A repository function that succeeds leaves exactly what one successful run of its body wrote
  -- on the tables as they were; with any other result the tables are as they were.
  pub run_transaction-Atomic :
      (exhausted : Text) (s : Session) → Atomic s.tables (run_transaction exhausted once s)
  unfolding run_transaction with_retry
  run_transaction-Atomic exhausted s =
      let (r, s') = with_retry (transaction once) s in
      conclude-Atomic exhausted s.tables r s' (retry-Settled 4 s)
