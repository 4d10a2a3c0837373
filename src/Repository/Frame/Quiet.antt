-- ===== src/Repository/Frame/Quiet.antt =====
-- The frame when the environment injects no failure: the schedule is empty.
use cbsa_rust.Prelude.{◌≡◌, refl, [], ok, String, ap, Result}
use cbsa_rust.Text.{Text}
use cbsa_rust.Crates.{Crates}
use cbsa_rust.Db.Session.{execute_quiet, Session, Stmt, pure}
use cbsa_rust.Db.Retry.{retry, with_retry}
use cbsa_rust.Repository.Frame.{
  OnceOutcome, Outcome, roll_back, settle, transaction, conclude, run_transaction,
}

module _ ⦃c : Crates⦄ {A : Type 0} (exhausted : Text) (once : Stmt (OnceOutcome A)) (s s' : Session)
    (quiet : s.schedule ≡ []) where
  transaction_quiet :
      (r : Result c.SqlxError (OnceOutcome A))
      → once s ≡ (r, s')
      → transaction once s ≡ settle s.tables (r, s')
  unfolding transaction
  transaction_quiet r run = rw (execute_quiet (pure tt) s quiet) (ap (settle s.tables) run)

  -- A body that succeeds is committed.
  pub run_transaction_success :
      (a : A)
      → once s ≡ (ok (OnceOutcome.success a), s')
      → s'.schedule ≡ []
      → run_transaction exhausted once s ≡ (ok (Outcome.success a), s')
  unfolding run_transaction with_retry retry settle conclude
  run_transaction_success a run quiet' =
      rw (transaction_quiet (ok (OnceOutcome.success a)) run, execute_quiet (pure tt) s' quiet')
        refl

  -- A failure is passed on, and the transaction is dropped.
  pub run_transaction_failure :
      (code : String) (message : Text)
      → once s ≡ (ok (OnceOutcome.failure code message), s')
      → run_transaction exhausted once s
        ≡ (ok (Outcome.failure code message), roll_back s.tables s')
  unfolding run_transaction with_retry retry settle conclude
  run_transaction_failure code message run =
      rw (transaction_quiet (ok (OnceOutcome.failure code message)) run) refl
