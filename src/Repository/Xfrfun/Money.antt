-- ===== src/Repository/Xfrfun/Money.antt =====
-- A transfer in cents: what the two accounts hold afterwards, and that no money is made or lost.
use cbsa_rust.Prelude.{◌≡◌, ◌≢◌, some, ap, sym, ◌∙◌}
use cbsa_rust.Prelude.Int.{ℤ, ◌+ℤ◌, ◌-ℤ◌}
use cbsa_rust.Crates.{Crates, IsLawful}
use cbsa_rust.Domain.Account.{AccountDetails}
use cbsa_rust.Db.Tables.{AccountRow, Tables}
use cbsa_rust.Db.Sql.{find_account, set_balances}
use cbsa_rust.Db.Schema.{InRange, IsStored, IsWellFormed, fits_numeric-InRange}
use cbsa_rust.Db.Schema.Balances.{
  find_account_key, find_account-set_balances, find_account-set_balances_ne, find_account-IsStored,
}
use cbsa_rust.Repository.Account.Money.{into_account-LoadedFrom, Shifted, new-Shifted}
use cbsa_rust.Repository.Xfrfun.{XfrfunCommand, SuccessfulTransfer}
use cbsa_rust.Repository.Xfrfun.Steps.{Updates}
use cbsa_rust.Repository.Xfrfun.Effect.{Transferred}

module _ ⦃c : Crates⦄ (laws : IsLawful) (command : XfrfunCommand) where
  open laws use {cents}

  -- The update of one account, at the key of the command.
  pub record Rewrites (n : ℤ) (b : AccountDetails) (before after : Tables) : Type 0 where
    pub accounts :
        after.account
        ≡ set_balances command.sortcode n b.available_balance b.actual_balance before.account
    pub available : InRange laws b.available_balance
    pub actual : InRange laws b.actual_balance

  Updates-Rewrites :
      (op : ℤ → ℤ → ℤ) (n : ℤ) (row : AccountRow) (b : AccountDetails) (before after : Tables)
      → Shifted laws op row command.amount b
      → row.sortcode ≡ command.sortcode
      → row.account_number ≡ n
      → Updates b before after
      → Rewrites n b before after
  Updates-Rewrites op n row b before after shifted same_s same_n u = record {
    accounts =
        ap (λ t. t.account) u.tables
        ∙ ap
            (λ s.
              set_balances s b.account_number b.available_balance b.actual_balance before.account)
            (shifted.sortcode ∙ same_s)
        ∙ ap
            (λ m.
              set_balances command.sortcode m b.available_balance b.actual_balance before.account)
            (shifted.account_number ∙ same_n);
    available =
        fits_numeric-InRange laws b.available_balance shifted.available_scale u.available_fits;
    actual = fits_numeric-InRange laws b.actual_balance shifted.actual_scale u.actual_fits;
  }

  -- Both sides, with the table `account` before, between and after the two updates.
  pub record Moved (before : Tables) (t : SuccessfulTransfer) (after : Tables) : Type 0 where
    pub from_row : AccountRow
    pub to_row : AccountRow
    pub from_found :
        find_account command.sortcode command.from_account_number before.account ≡ some from_row
    pub to_found :
        find_account command.sortcode command.to_account_number before.account ≡ some to_row
    pub from_stored : IsStored laws from_row
    pub from_shifted : Shifted laws ◌-ℤ◌ from_row command.amount t.from_account
    pub to_shifted : Shifted laws ◌+ℤ◌ to_row command.amount t.to_account
    pub between : Tables
    pub updated : Tables
    pub from_rewrites : Rewrites command.from_account_number t.from_account before between
    pub to_rewrites : Rewrites command.to_account_number t.to_account between updated
    pub accounts_after : after.account ≡ updated.account

  pub Transferred-Moved :
      (before : Tables) (t : SuccessfulTransfer) (after : Tables)
      → IsWellFormed laws before
      → InRange laws command.amount
      → Transferred command before t after
      → Moved before t after
  Transferred-Moved before t after wf amount h =
      let fr = h.from_loaded.row in
      let tr = h.to_loaded.row in
      let (fs, fn) = find_account_key _ _ before.account fr h.from_loaded.found in
      let (ts, tn) = find_account_key _ _ before.account tr h.to_loaded.found in
      let f_stored =
        find_account-IsStored laws _ _ before.account fr wf.stored h.from_loaded.found in
      let t_stored = find_account-IsStored laws _ _ before.account tr wf.stored h.to_loaded.found in
      let f_shifted =
        new-Shifted laws c.sub ◌-ℤ◌ laws.sub_lem fr h.from_account t.from_account command.amount
          f_stored (into_account-LoadedFrom laws fr h.from_account h.from_loaded.loaded f_stored)
          amount h.from_rebuilt in
      let t_shifted =
        new-Shifted laws c.add ◌+ℤ◌ laws.add_lem tr h.to_account t.to_account command.amount
          t_stored (into_account-LoadedFrom laws tr h.to_account h.to_loaded.loaded t_stored) amount
          h.to_rebuilt in
      let w = h.written in
      record {
        from_row = fr;
        to_row = tr;
        from_found = h.from_loaded.found;
        to_found = h.to_loaded.found;
        from_stored = f_stored;
        from_shifted = f_shifted;
        to_shifted = t_shifted;
        between = w.between;
        updated = w.updated;
        from_rewrites =
            Updates-Rewrites ◌-ℤ◌ command.from_account_number fr t.from_account before w.between
              f_shifted fs fn w.from_updated;
        to_rewrites =
            Updates-Rewrites ◌+ℤ◌ command.to_account_number tr t.to_account w.between w.updated
              t_shifted ts tn w.to_updated;
        accounts_after = ap (λ u. u.account) w.audited.tables;
      }

  -- The two accounts after a transfer, as they stand in the table and in cents.
  pub record TransferMoves (before : Tables) (t : SuccessfulTransfer) (after : Tables)
      : Type 0 where
    pub from_row : AccountRow
    pub to_row : AccountRow
    pub from_before :
        find_account command.sortcode command.from_account_number before.account ≡ some from_row
    pub to_before :
        find_account command.sortcode command.to_account_number before.account ≡ some to_row
    pub from_after :
        find_account command.sortcode command.from_account_number after.account
        ≡ some (record from_row {
          available_balance = t.from_account.available_balance;
          actual_balance = t.from_account.actual_balance;
        })
    pub to_after :
        find_account command.sortcode command.to_account_number after.account
        ≡ some (record to_row {
          available_balance = t.to_account.available_balance;
          actual_balance = t.to_account.actual_balance;
        })
    pub from_available :
        cents t.from_account.available_balance
        ≡ cents from_row.available_balance -ℤ cents command.amount
    pub from_actual :
        cents t.from_account.actual_balance ≡ cents from_row.actual_balance -ℤ cents command.amount
    pub to_available :
        cents t.to_account.available_balance
        ≡ cents to_row.available_balance +ℤ cents command.amount
    pub to_actual :
        cents t.to_account.actual_balance ≡ cents to_row.actual_balance +ℤ cents command.amount

  module _ (apart : command.from_account_number ≢ command.to_account_number) (before : Tables)
      (t : SuccessfulTransfer) (after : Tables) (m : Moved before t after) where
    pub accounts_chain :
        after.account
        ≡ set_balances command.sortcode command.to_account_number t.to_account.available_balance
            t.to_account.actual_balance
            (set_balances command.sortcode command.from_account_number
              t.from_account.available_balance t.from_account.actual_balance before.account)
    accounts_chain =
        m.accounts_after
        ∙ m.to_rewrites.accounts
        ∙ ap
            (set_balances command.sortcode command.to_account_number t.to_account.available_balance
              t.to_account.actual_balance)
            m.from_rewrites.accounts

    pub to_between :
        find_account command.sortcode command.to_account_number (
          set_balances command.sortcode command.from_account_number t.from_account.available_balance
            t.from_account.actual_balance before.account)
        ≡ some m.to_row
    to_between =
        find_account-set_balances_ne command.sortcode command.to_account_number
          command.from_account_number _ _ before.account (λ e. apart (sym e))
        ∙ m.to_found

    pub Moved-TransferMoves : TransferMoves before t after
    Moved-TransferMoves = record {
      from_row = m.from_row;
      to_row = m.to_row;
      from_before = m.from_found;
      to_before = m.to_found;
      from_after = rw accounts_chain (
          find_account-set_balances_ne command.sortcode command.from_account_number
            command.to_account_number _ _ _ apart
          ∙ find_account-set_balances command.sortcode command.from_account_number _ _
              before.account m.from_row m.from_found);
      to_after = rw accounts_chain (
          find_account-set_balances command.sortcode command.to_account_number _ _ _ m.to_row
            to_between);
      from_available = m.from_shifted.available;
      from_actual = m.from_shifted.actual;
      to_available = m.to_shifted.available;
      to_actual = m.to_shifted.actual;
    }
