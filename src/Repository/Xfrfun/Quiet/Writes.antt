-- ===== src/Repository/Xfrfun/Quiet/Writes.antt =====
-- The three writes of a transfer when no statement fails.
use cbsa_rust.Prelude.{◌≤◌, ◌≡◌, ◌≢◌, true, some, [], ok, ◌∙◌, sym, length}
use cbsa_rust.Prelude.Int.{ℤ}
use cbsa_rust.Crates.{Crates}
use cbsa_rust.Domain.Account.{AccountDetails}
use cbsa_rust.Db.Tables.{AccountRow}
use cbsa_rust.Db.Session.{Session}
use cbsa_rust.Db.Retry.{on_error_ok}
use cbsa_rust.Db.Schema.{IsKeyed}
use cbsa_rust.Db.Schema.Balances.{find_account-set_balances_ne, set_balances-IsKeyed}
use cbsa_rust.Db.Sql.{fits_numeric, find_account}
use cbsa_rust.Db.Sql.Effects.{with_balances}
use cbsa_rust.Db.Sql.Quiet.{update_balances_quiet, insert_proctran_row_quiet}
use cbsa_rust.Repository.Frame.{OnceOutcome}
use cbsa_rust.Repository.Xfrfun.{
  from, to, XfrfunCommand, SuccessfulTransfer, update_account_row, insert_proctran, audit_row,
  write_transfer,
}
use cbsa_rust.Repository.Xfrfun.Quiet.{update_one_quiet}

module _ ⦃c : Crates⦄ where
  -- An account that is to be written at a key of the table, with balances that fit.
  pub record Writable (command : XfrfunCommand) (n : ℤ) (a : AccountDetails) : Type 0 where
    pub sortcode : a.sortcode ≡ command.sortcode
    pub account_number : a.account_number ≡ n
    pub available : fits_numeric a.available_balance ≡ true
    pub actual : fits_numeric a.actual_balance ≡ true

  update_quiet :
      (command : XfrfunCommand) (n : ℤ) (a : AccountDetails) (s : Session) (row : AccountRow)
      → Writable command n a
      → s.schedule ≡ []
      → IsKeyed s.tables.account
      → find_account command.sortcode n s.tables.account ≡ some row
      → update_account_row a s ≡ (
        ok 1,
        record s {
          tables = with_balances command.sortcode n a.available_balance a.actual_balance s.tables;
        },
      )
  unfolding update_account_row
  update_quiet command n a s row w quiet keyed found =
      rw (w.sortcode, w.account_number)
        (update_balances_quiet command.sortcode n a.available_balance a.actual_balance s row quiet
          keyed found w.available w.actual)

  pub write_transfer_quiet :
      (command : XfrfunCommand) (t : SuccessfulTransfer) (s : Session) (f_row t_row : AccountRow)
      → s.schedule ≡ []
      → IsKeyed s.tables.account
      → command.from_account_number ≢ command.to_account_number
      → find_account command.sortcode command.from_account_number s.tables.account ≡ some f_row
      → find_account command.sortcode command.to_account_number s.tables.account ≡ some t_row
      → Writable command command.from_account_number t.from_account
      → Writable command command.to_account_number t.to_account
      → length (audit_row command).description ≤ 40
      → fits_numeric command.amount ≡ true
      → (s' : Session) × (write_transfer command t s ≡ (ok (OnceOutcome.success t), s'))
        × (s'.schedule ≡ [])
  unfolding write_transfer insert_proctran
  write_transfer_quiet command t s f_row t_row quiet keyed apart f_found t_found f_w t_w short
        fits =
      let sc = command.sortcode in
      let n = command.from_account_number in
      let m = command.to_account_number in
      let f = t.from_account in
      let g = t.to_account in
      let s1 : Session = record s {
        tables = with_balances sc n f.available_balance f.actual_balance s.tables;
      } in
      let s2 : Session = record s1 {
        tables = with_balances sc m g.available_balance g.actual_balance s1.tables;
      } in
      let still =
        find_account-set_balances_ne sc m n f.available_balance f.actual_balance s.tables.account
          (λ e. apart (sym e))
        ∙ t_found in
      let keyed1 = set_balances-IsKeyed sc n f.available_balance f.actual_balance _ keyed in
      (
        _,
        update_one_quiet command s quiet from f _ s1
              (update_quiet command n f s f_row f_w quiet keyed f_found)
            ∙ update_one_quiet command s1 quiet to g _ s2
                (update_quiet command m g s1 t_row t_w quiet keyed1 still)
            ∙ on_error_ok (insert_proctran command) _ _ s2 _ tt
                (insert_proctran_row_quiet (audit_row command) s2 quiet short fits),
        quiet,
      )
