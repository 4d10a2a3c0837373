-- ===== src/Repository/Xfrfun/Effect.antt =====
-- What a successful transfer has written.
use cbsa_rust.Prelude.{◌≡◌, refl, false, ok, Bool-cases, inl, inr, ◌∙◌, ap, sym, subst}
use cbsa_rust.Crates.{Crates}
use cbsa_rust.Domain.Account
use cbsa_rust.Domain.Account.{AccountDetails}
use cbsa_rust.Db.Tables.{Tables}
use cbsa_rust.Db.Session.{Session}
use cbsa_rust.Db.Sql.Effects.{Inserted, insert_proctran_row_effect}
use cbsa_rust.Repository.Frame.Atomic.{Atomic, run_transaction-Atomic}
use cbsa_rust.Repository.Frame.Succeeds.{
  Succeeds, Succeeds_mono, on_error-Succeeds, Returns, run_transaction-Returns,
}
use cbsa_rust.Repository.Xfrfun.{
  from, to, XfrfunCommand, SuccessfulTransfer, debited, credited, is_overdrawn, insert_proctran,
  audit_row, write_transfer, move_funds, transfer_funds_once, transfer_funds,
}
use cbsa_rust.Repository.Xfrfun.Steps.{
  Loaded, Updates, lock_accounts-Succeeds, update_one-Succeeds, rebuilt-Succeeds,
}

module _ ⦃c : Crates⦄ where
  -- The two updates and the audit row, in this order.
  pub record Written (command : XfrfunCommand) (before : Tables) (t : SuccessfulTransfer)
      (after : Tables) : Type 0 where
    pub between : Tables
    pub updated : Tables
    pub from_updated : Updates t.from_account before between
    pub to_updated : Updates t.to_account between updated
    pub audited : Inserted (audit_row command) updated after

  write_transfer-Written :
      (command : XfrfunCommand) (t : SuccessfulTransfer) (s : Session)
      → Succeeds
          (write_transfer command t s)
          (λ a s'. (a ≡ t) × Written command s.tables t s'.tables)
  unfolding write_transfer insert_proctran
  write_transfer-Written command t s =
      update_one-Succeeds command _ from t.from_account _ s λ s1 first.
        update_one-Succeeds command _ to t.to_account _ s1 λ s2 second.
          on_error-Succeeds _ _ _ s2 _ (λ e s'. tt)
            λ _ s3 run. (
              refl,
              record {
                between = s1.tables;
                updated = s2.tables;
                from_updated = first;
                to_updated = second;
                audited = insert_proctran_row_effect (audit_row command) s2 s3 run;
              },
            )

  -- A transfer that went through: the accounts as they were read, the test for funds, the accounts
  -- that were returned, and what was written.
  pub record Transferred (command : XfrfunCommand) (before : Tables) (t : SuccessfulTransfer)
      (after : Tables) : Type 0 where
    pub from_account : AccountDetails
    pub to_account : AccountDetails
    pub from_loaded : Loaded command from before from_account
    pub to_loaded : Loaded command to before to_account
    pub funded : is_overdrawn (debited command from_account) ≡ false
    pub from_rebuilt : Account.new (debited command from_account) ≡ ok t.from_account
    pub to_rebuilt : Account.new (credited command to_account) ≡ ok t.to_account
    pub written : Written command before t after

  start :
      {command : XfrfunCommand} {before before' after : Tables} {t a : SuccessfulTransfer}
      → before' ≡ before
      → a ≡ t
      → Written command before' t after
      → Written command before a after
  start {command} {after} {t} same e w = rw e (subst (λ u. Written command u t after) same w)

  transfer_funds_once-Transferred :
      (command : XfrfunCommand) (s : Session)
      → Succeeds (transfer_funds_once command s) (λ t s'. Transferred command s.tables t s'.tables)
  unfolding transfer_funds_once move_funds
  transfer_funds_once-Transferred command s =
      lock_accounts-Succeeds command _ (move_funds command) s λ f t s' same f_loaded t_loaded.
        elim (Bool-cases (is_overdrawn (debited command f))) [
          | inl short ↦ rw short tt
          | inr funded ↦ rw funded (
              rebuilt-Succeeds command _ from (Account.new (debited command f)) _ s' λ f' f_new.
                rebuilt-Succeeds command _ to (Account.new (credited command t)) _ s' λ t' t_new.
                  let done : SuccessfulTransfer = record { from_account = f'; to_account = t' } in
                  Succeeds_mono (write_transfer command done s') _ _
                    (λ a s'' (e, w). record {
                      from_account = f;
                      to_account = t;
                      from_loaded = f_loaded;
                      to_loaded = t_loaded;
                      funded = funded;
                      from_rebuilt = f_new ∙ ap (λ x. ok x.from_account) (sym e);
                      to_rebuilt = t_new ∙ ap (λ x. ok x.to_account) (sym e);
                      written = start same e w;
                    })
                    (write_transfer-Written command done s'))
        ]

  -- A transfer that succeeds has read both accounts from the tables as they were, passed the test
  -- for funds, and written the two accounts that it returns and one audit row; nothing else.
  pub transfer_funds-Transferred :
      (command : XfrfunCommand) (s : Session)
      → Returns (transfer_funds command s) (λ t s'. Transferred command s.tables t s'.tables)
  unfolding transfer_funds
  transfer_funds-Transferred command s =
      run_transaction-Returns (transfer_funds_once command) (Transferred command)
        (transfer_funds_once-Transferred command) _ s

  pub transfer_funds-Atomic :
      (command : XfrfunCommand) (s : Session)
      → Atomic (transfer_funds_once command) s.tables (transfer_funds command s)
  unfolding transfer_funds
  transfer_funds-Atomic command s = run_transaction-Atomic (transfer_funds_once command) _ s
