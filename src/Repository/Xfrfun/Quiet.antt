-- ===== src/Repository/Xfrfun/Quiet.antt =====
-- The steps of `transfer_funds_once` when no statement fails.
pub mod Writes
pub mod Bounds
use cbsa_rust.Prelude.{
  ℕ, ◌≤◌, ◌≡◌, refl, true, false, some, none, Option, [], ◌∷◌, ◌++◌, Result, ok, ◌∙◌, ap, Bool,
  Bool-cases, inl, inr, if◌then◌else◌, ◌==◌,
}
use cbsa_rust.Prelude.Int.{ltb_ℤ}
use cbsa_rust.Text.{Text, codes}
use cbsa_rust.Text.Decimal.{show_int}
use cbsa_rust.Crates.{Crates}
use cbsa_rust.Domain.Account
use cbsa_rust.Domain.Account.{AccountDetails, round_money}
use cbsa_rust.Domain.Laws.{AccountChecked, AccountChecked-new}
use cbsa_rust.Db.Tables.{AccountRow}
use cbsa_rust.Db.Session.{Session, Stmt}
use cbsa_rust.Db.Retry.{on_error_ok}
use cbsa_rust.Db.Sql.{find_account, select_account}
use cbsa_rust.Db.Sql.Quiet.{select_account_quiet}
use cbsa_rust.Repository.Frame.{OnceOutcome}
use cbsa_rust.Repository.Account.{stored, loaded, row_fields, into_account}
use cbsa_rust.Repository.Xfrfun.{
  insufficient_funds_code, not_found_code, role_title, AccountRole, from, to, XfrfunCommand,
  SuccessfulTransfer, account_number_for, ordered_roles, found_row, checked_row, lock_account,
  lock_accounts_in_cobol_order, lock_in_order, update_account_row, update_one, rebuilt, debited,
  credited, is_overdrawn, move_funds, write_transfer,
}

abbrev pub other : AccountRole → AccountRole
other from = to
other to = from

module _ ⦃c : Crates⦄ where
  -- The message of a transfer without funds.
  abbrev pub short_of_funds : XfrfunCommand → Text
  short_of_funds command =
      codes "From account number "
      ++ (show_int command.from_account_number
          ++ codes " does not have sufficient funds for this transfer.")

  -- The message of an account that is not there.
  abbrev pub not_there : XfrfunCommand → AccountRole → Text
  not_there command role =
      role_title role
      ++ (codes " account number "
          ++ (show_int (account_number_for role command) ++ codes " was not found."))

  -- The account of a role is there, and its row passes the checks.
  pub record Available (command : XfrfunCommand) (role : AccountRole) (s : Session)
      (row : AccountRow) : Type 0 where
    pub found :
        find_account command.sortcode (account_number_for role command) s.tables.account ≡ some row
    pub valid : AccountChecked (row_fields row)

module _ ⦃c : Crates⦄ {B : Type 0} (command : XfrfunCommand) (s : Session)
    (quiet : s.schedule ≡ []) where
  lock_account_quiet :
      (role : AccountRole) (next : AccountDetails → Stmt (OnceOutcome B)) (row : AccountRow)
      → Available command role s row
      → lock_account command role next s ≡ next (loaded row) s
  unfolding lock_account into_account
  lock_account_quiet role next row h =
      on_error_ok (select_account command.sortcode (account_number_for role command)) _ _ s s
        (some row)
        (select_account_quiet command.sortcode (account_number_for role command) s quiet
          ∙ ap (λ r. (ok r, s)) h.found)
      ∙ ap (λ r. checked_row role r next s) (AccountChecked-new (row_fields row) h.valid)

  -- An account that is not there ends the loop, and so the transaction.
  lock_account_missing :
      (role : AccountRole) (next : AccountDetails → Stmt (OnceOutcome B))
      → find_account command.sortcode (account_number_for role command) s.tables.account ≡ none
      → lock_account command role next s
        ≡ (ok (OnceOutcome.failure (not_found_code role) (not_there command role)), s)
  unfolding lock_account
  lock_account_missing role next missing =
      on_error_ok (select_account command.sortcode (account_number_for role command)) _ _ s s none (
        select_account_quiet command.sortcode (account_number_for role command) s quiet
        ∙ ap (λ r. (ok r, s)) missing)

  missing_in_order :
      (next : AccountDetails → AccountDetails → Stmt (OnceOutcome B)) (role : AccountRole)
      (row : AccountRow)
      → find_account command.sortcode (account_number_for role command) s.tables.account ≡ none
      → Available command (other role) s row
      → (ascending : Bool)
      → lock_in_order command (if ascending then (from, to) else (to, from)) next s
        ≡ (ok (OnceOutcome.failure (not_found_code role) (not_there command role)), s)
  missing_in_order next from row missing there true = lock_account_missing from _ missing
  missing_in_order next from row missing there false =
      lock_account_quiet to _ row there ∙ lock_account_missing from _ missing
  missing_in_order next to row missing there true =
      lock_account_quiet from _ row there ∙ lock_account_missing to _ missing
  missing_in_order next to row missing there false = lock_account_missing to _ missing

  pub lock_accounts_missing :
      (next : AccountDetails → AccountDetails → Stmt (OnceOutcome B)) (role : AccountRole)
      (row : AccountRow)
      → find_account command.sortcode (account_number_for role command) s.tables.account ≡ none
      → Available command (other role) s row
      → lock_accounts_in_cobol_order command next s
        ≡ (ok (OnceOutcome.failure (not_found_code role) (not_there command role)), s)
  unfolding lock_accounts_in_cobol_order ordered_roles
  lock_accounts_missing next role row missing there =
      missing_in_order next role row missing there
        (ltb_ℤ command.from_account_number command.to_account_number)

  both_orders_quiet :
      (next : AccountDetails → AccountDetails → Stmt (OnceOutcome B)) (f t : AccountRow)
      → Available command from s f
      → Available command to s t
      → (ascending : Bool)
      → lock_in_order command (if ascending then (from, to) else (to, from)) next s
        ≡ next (loaded f) (loaded t) s
  both_orders_quiet next f t p q true = lock_account_quiet from _ f p ∙ lock_account_quiet to _ t q
  both_orders_quiet next f t p q false = lock_account_quiet to _ t q ∙ lock_account_quiet from _ f p

  pub lock_accounts_quiet :
      (next : AccountDetails → AccountDetails → Stmt (OnceOutcome B)) (f t : AccountRow)
      → Available command from s f
      → Available command to s t
      → lock_accounts_in_cobol_order command next s ≡ next (loaded f) (loaded t) s
  unfolding lock_accounts_in_cobol_order ordered_roles
  lock_accounts_quiet next f t p q =
      both_orders_quiet next f t p q (ltb_ℤ command.from_account_number command.to_account_number)

  pub update_one_quiet :
      (role : AccountRole) (account : AccountDetails) (next : Stmt (OnceOutcome B)) (s' : Session)
      → update_account_row account s ≡ (ok 1, s')
      → update_one command role account next s ≡ next s'
  unfolding update_one
  update_one_quiet role account next s' run =
      on_error_ok (update_account_row account) _ _ s s' 1 run

module _ ⦃c : Crates⦄ (command : XfrfunCommand) (a b : AccountDetails) (s : Session) where
  -- Enough funds: on to the writes.
  pub move_funds_quiet :
      is_overdrawn (debited command a) ≡ false
      → AccountChecked (debited command a)
      → AccountChecked (credited command b)
      → move_funds command a b s
        ≡ write_transfer command
            (record {
              from_account = stored (debited command a);
              to_account = stored (credited command b);
            })
            s
  unfolding move_funds
  move_funds_quiet funded p q = rw (funded) (
      ap
        (λ r.
          rebuilt from r
            (λ f.
              rebuilt to (Account.new (credited command b))
                λ t. write_transfer command (record { from_account = f; to_account = t }))
            s)
        (AccountChecked-new (debited command a) p)
      ∙ ap
          (λ r.
            rebuilt to r
              (λ t.
                write_transfer command
                  (record { from_account = stored (debited command a); to_account = t }))
              s)
          (AccountChecked-new (credited command b) q))

  -- Not enough funds: no write.
  pub move_funds_short :
      is_overdrawn (debited command a) ≡ true
      → move_funds command a b s
        ≡ (ok (OnceOutcome.failure insufficient_funds_code (short_of_funds command)), s)
  unfolding move_funds
  move_funds_short over = rw over refl
