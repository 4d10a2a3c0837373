-- ===== src/Repository/Creacc/Effect.antt =====
-- What a successful creation has read and written.
use cbsa_rust.Prelude.{
  ◌≡◌, refl, true, false, Option, none, some, Result, ok, err, Bool-cases, inl, inr, [], ◌∷◌, ◌++◌,
}
use cbsa_rust.Prelude.Int.{ℤ, ltb_ℤ}
use cbsa_rust.Text.{Text}
use cbsa_rust.Crates.{Crates}
use cbsa_rust.Domain.Account
use cbsa_rust.Domain.Account.{AccountDetails, max_account_number}
use cbsa_rust.Db.Tables.{Tables}
use cbsa_rust.Db.Session.{Session}
use cbsa_rust.Db.Sql.Effects.{Inserted, insert_proctran_row_effect}
use cbsa_rust.Db.Sql.Opening.{
  accepts_account, Counted, next_account, next_account_effect, insert_account_row_effect,
}
use cbsa_rust.Repository.Frame.Atomic.{Atomic, run_transaction-Atomic}
use cbsa_rust.Repository.Frame.Succeeds.{
  Succeeds, Succeeds_mono, on_error-Succeeds, Returns, run_transaction-Returns,
}
use cbsa_rust.Repository.Creacc.{
  global_control_id, CreateAccountCommand, opened_account, account_row, audit_row, insert_account,
  insert_proctran, reserve_next_account_number, write_account, built, numbered, create_account_once,
  create_account,
}

module _ ⦃c : Crates⦄ where
  -- The insert of the account and of the audit row, in this order.
  pub record Written (command : CreateAccountCommand) (before : Tables) (account : AccountDetails)
      (after : Tables) : Type 0 where
    pub between : Tables
    pub accepted : accepts_account before (account_row account) ≡ true
    pub inserted :
        between ≡ record before { account = before.account ++ (account_row account ∷ []) }
    pub audited : Inserted (audit_row command account) between after

  write_account-Written :
      (command : CreateAccountCommand) (account : AccountDetails) (s : Session)
      → Succeeds
          (write_account command account s)
          (λ a s'. (a ≡ account) × Written command s.tables account s'.tables)
  unfolding write_account insert_account insert_proctran
  write_account-Written command account s =
      on_error-Succeeds _ _ _ s _ (λ e s'. tt)
        λ _ s1 run.
          on_error-Succeeds _ _ _ s1 _ (λ e s'. tt)
            λ _ s2 run'.
              let (inserted, accepted) = insert_account_row_effect (account_row account) s s1 run in
              (
                refl,
                record {
                  between = s1.tables;
                  accepted = accepted;
                  inserted = inserted;
                  audited = insert_proctran_row_effect (audit_row command account) s1 s2 run';
                },
              )

  -- A creation that went through.
  pub record Created (command : CreateAccountCommand) (before : Tables) (account : AccountDetails)
      (after : Tables) : Type 0 where
    pub number : ℤ
    pub counted_tables : Tables
    pub counted : Counted global_control_id number before counted_tables
    pub in_range : ltb_ℤ max_account_number number ≡ false
    pub built_from : Account.new (opened_account command number) ≡ ok account
    pub written : Written command counted_tables account after

  create_account_once-Created :
      (command : CreateAccountCommand) (s : Session)
      → Succeeds (create_account_once command s) (λ a s'. Created command s.tables a s'.tables)
  unfolding create_account_once reserve_next_account_number
  create_account_once-Created command s =
      on_error-Succeeds _ _ _ s _ (λ e s'. tt) λ number s1 run. go number s1 run
    where
      make :
          (n : ℤ) (s1 : Session)
          → next_account global_control_id s ≡ (ok (some n), s1)
          → ltb_ℤ max_account_number n ≡ false
          → (r : Result Text AccountDetails) → Account.new (opened_account command n) ≡ r
          → Succeeds (built command r s1) (λ a s'. Created command s.tables a s'.tables)
      make n s1 run small (err message) e = tt
      make n s1 run small (ok account) e =
          Succeeds_mono (write_account command account s1) _ _
            (λ a s' (same, w). rw same (record {
              number = n;
              counted_tables = s1.tables;
              counted = next_account_effect global_control_id s s1 n run;
              in_range = small;
              built_from = e;
              written = w;
            }))
            (write_account-Written command account s1)

      go :
          (number : Option ℤ) (s1 : Session)
          → next_account global_control_id s ≡ (ok number, s1)
          → Succeeds (numbered command number s1) (λ a s'. Created command s.tables a s'.tables)
      go none s1 run = tt
      go (some n) s1 run = elim (Bool-cases (ltb_ℤ max_account_number n)) [
        | inl over ↦ rw over tt
        | inr small ↦ rw small (make n s1 run small (Account.new (opened_account command n)) refl)
      ]

  -- A creation that succeeds has taken the next number of the counter, which is at most 99999999,
  -- passed the checks of the domain type and of the schema, and written the counter, the account that
  -- it returns and one audit row; nothing else.
  pub create_account-Created :
      (command : CreateAccountCommand) (s : Session)
      → Returns (create_account command s) (λ a s'. Created command s.tables a s'.tables)
  unfolding create_account
  create_account-Created command s =
      run_transaction-Returns (create_account_once command) (Created command)
        (create_account_once-Created command) _ s

  pub create_account-Atomic :
      (command : CreateAccountCommand) (s : Session)
      → Atomic (create_account_once command) s.tables (create_account command s)
  unfolding create_account
  create_account-Atomic command s = run_transaction-Atomic (create_account_once command) _ s
