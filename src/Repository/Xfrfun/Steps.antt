-- ===== src/Repository/Xfrfun/Steps.antt =====
-- The steps of `transfer_funds_once`, each with what it has done when it succeeds.
use cbsa_rust.Prelude.{
  ◌≡◌, refl, true, false, Option, none, some, Result, ok, err, ◌==◌, Bool-cases, inl, inr, arith,
  ◌∙◌, subst, Bool, if◌then◌else◌,
}
use cbsa_rust.Prelude.Int.{ltb_ℤ}
use cbsa_rust.Text.{Text}
use cbsa_rust.Crates.{Crates}
use cbsa_rust.Domain.Account.{AccountDetails}
use cbsa_rust.Db.Tables.{AccountRow, Tables}
use cbsa_rust.Db.Session.{Session, Stmt}
use cbsa_rust.Db.Sql.{find_account}
use cbsa_rust.Db.Sql.Effects.{select_account_effect, Updated, update_balances_effect}
use cbsa_rust.Repository.Frame.{OnceOutcome}
use cbsa_rust.Repository.Frame.Succeeds.{Succeeds, on_error-Succeeds}
use cbsa_rust.Repository.Account.{into_account}
use cbsa_rust.Repository.Xfrfun.{
  AccountRole, from, to, XfrfunCommand, account_number_for, ordered_roles, found_row, checked_row,
  lock_account, lock_accounts_in_cobol_order, lock_in_order, update_account_row, update_one,
  rebuilt,
}

module _ ⦃c : Crates⦄ where
  -- The account of a role as it was read from the tables.
  pub record Loaded (command : XfrfunCommand) (role : AccountRole) (t : Tables)
      (account : AccountDetails) : Type 0 where
    pub row : AccountRow
    pub found : find_account command.sortcode (account_number_for role command) t.account ≡ some row
    pub loaded : into_account row ≡ ok account

  abbrev pub Updates : AccountDetails → Tables → Tables → Type 0
  Updates account =
      Updated account.sortcode account.account_number account.available_balance
        account.actual_balance

module _ ⦃c : Crates⦄ {B : Type 0} (command : XfrfunCommand) (Q : B → Session → Type 0) where
  found_row-Succeeds :
      (role : AccountRole) (next : AccountDetails → Stmt (OnceOutcome B)) (s : Session) (t : Tables)
      (row : Option AccountRow)
      → find_account command.sortcode (account_number_for role command) t.account ≡ row
      → ((account : AccountDetails) → Loaded command role t account → Succeeds (next account s) Q)
      → Succeeds (found_row command role row next s) Q
  found_row-Succeeds role next s t none e h = tt
  found_row-Succeeds role next s t (some row) e h = go (into_account row) refl
    where
      go :
          (r : Result Text AccountDetails)
          → into_account row ≡ r
          → Succeeds (checked_row role r next s) Q
      go (ok account) loaded = h account (record { row = row; found = e; loaded = loaded })
      go (err message) loaded = tt

  pub lock_account-Succeeds :
      (role : AccountRole) (next : AccountDetails → Stmt (OnceOutcome B)) (s : Session)
      → ((account : AccountDetails) (s' : Session)
          → s'.tables ≡ s.tables
          → Loaded command role s.tables account
          → Succeeds (next account s') Q)
      → Succeeds (lock_account command role next s) Q
  unfolding lock_account
  lock_account-Succeeds role next s h =
      on_error-Succeeds _ _ _ s Q (λ e s'. tt)
        λ row s' run.
          let (same, found) =
            select_account_effect command.sortcode (account_number_for role command) s s' row run in
          found_row-Succeeds role next s' s.tables row found λ account. h account s' same

  both_orders :
      (next : AccountDetails → AccountDetails → Stmt (OnceOutcome B)) (s : Session)
      (ascending : Bool)
      → ((f t : AccountDetails) (s' : Session)
          → s'.tables ≡ s.tables
          → Loaded command from s.tables f
          → Loaded command to s.tables t
          → Succeeds (next f t s') Q)
      → Succeeds (lock_in_order command (if ascending then (from, to) else (to, from)) next s) Q
  both_orders next s true h = lock_account-Succeeds from _ s λ f s' same loaded.
      lock_account-Succeeds to _ s' λ t s'' same' loaded'.
        h f t s'' (same' ∙ same) loaded (subst (λ u. Loaded command to u t) same loaded')
  both_orders next s false h = lock_account-Succeeds to _ s λ t s' same loaded.
      lock_account-Succeeds from _ s' λ f s'' same' loaded'.
        h f t s'' (same' ∙ same) (subst (λ u. Loaded command from u f) same loaded') loaded

  -- Both accounts are read from the same tables, whichever is locked first.
  pub lock_accounts-Succeeds :
      (next : AccountDetails → AccountDetails → Stmt (OnceOutcome B)) (s : Session)
      → ((f t : AccountDetails) (s' : Session)
          → s'.tables ≡ s.tables
          → Loaded command from s.tables f
          → Loaded command to s.tables t
          → Succeeds (next f t s') Q)
      → Succeeds (lock_accounts_in_cobol_order command next s) Q
  unfolding lock_accounts_in_cobol_order ordered_roles
  lock_accounts-Succeeds next s =
      both_orders next s (ltb_ℤ command.from_account_number command.to_account_number)

  pub update_one-Succeeds :
      (role : AccountRole) (account : AccountDetails) (next : Stmt (OnceOutcome B)) (s : Session)
      → ((s' : Session) → Updates account s.tables s'.tables → Succeeds (next s') Q)
      → Succeeds (update_one command role account next s) Q
  unfolding update_one update_account_row
  update_one-Succeeds role account next s h =
      on_error-Succeeds _ _ _ s Q (λ e s'. tt)
        λ rows s' run. elim (Bool-cases (rows == 1)) [
          | inl one ↦ rw one (
              h s' (
                update_balances_effect account.sortcode account.account_number
                  account.available_balance account.actual_balance s s' rows run (ground arith)))
          | inr other ↦ rw other tt
        ]

  pub rebuilt-Succeeds :
      (role : AccountRole) (r : Result Text AccountDetails)
      (next : AccountDetails → Stmt (OnceOutcome B)) (s : Session)
      → ((account : AccountDetails) → r ≡ ok account → Succeeds (next account s) Q)
      → Succeeds (rebuilt role r next s) Q
  rebuilt-Succeeds role (ok account) next s h = h account refl
  rebuilt-Succeeds role (err message) next s h = tt
