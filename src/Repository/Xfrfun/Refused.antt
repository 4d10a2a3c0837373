-- ===== src/Repository/Xfrfun/Refused.antt =====
-- A transfer that is refused because an account is not there.
use cbsa_rust.Prelude.{String, ◌≡◌, none, some, [], ok, ◌++◌}
use cbsa_rust.Prelude.Int.{ℤ}
use cbsa_rust.Text.{Text, codes}
use cbsa_rust.Text.Decimal.{show_int}
use cbsa_rust.Crates.{Crates}
use cbsa_rust.Domain.Laws.{AccountChecked}
use cbsa_rust.Db.Session.{Session}
use cbsa_rust.Db.Tables.{AccountRow}
use cbsa_rust.Db.Sql.{find_account}
use cbsa_rust.Repository.Account.{row_fields}
use cbsa_rust.Repository.Frame.{Outcome}
use cbsa_rust.Repository.Frame.Quiet.{run_transaction_failure}
use cbsa_rust.Repository.Xfrfun.{
  AccountRole, from, to, XfrfunCommand, account_number_for, not_found_code, role_title, move_funds,
  transfer_funds_once, transfer_funds,
}
use cbsa_rust.Repository.Xfrfun.Quiet.{other, Available, not_there, lock_accounts_missing}

-- The answer that the callers of the bank rely on: 1 for the FROM account, 2 for the TO account.
abbrev refusal_code : AccountRole → String
refusal_code from = "1"
refusal_code to = "2"

module _ ⦃c : Crates⦄ where
  -- The number of the account that is missing, and of the one that is there.
  abbrev missing_number : AccountRole → XfrfunCommand → ℤ
  missing_number from command = command.from_account_number
  missing_number to command = command.to_account_number

  abbrev present_number : AccountRole → XfrfunCommand → ℤ
  present_number from command = command.to_account_number
  present_number to command = command.from_account_number

  abbrev pub refusal_message : XfrfunCommand → AccountRole → Text
  refusal_message command from =
      codes "From"
      ++ (codes " account number "
          ++ (show_int command.from_account_number ++ codes " was not found."))
  refusal_message command to =
      codes "To"
      ++ (codes " account number "
          ++ (show_int command.to_account_number ++ codes " was not found."))

  refused :
      (command : XfrfunCommand) (s : Session) (role : AccountRole) (row : AccountRow)
      → s.schedule ≡ []
      → find_account command.sortcode (account_number_for role command) s.tables.account ≡ none
      → Available command (other role) s row
      → transfer_funds command s
        ≡ (ok (Outcome.failure (not_found_code role) (not_there command role)), s)
  unfolding transfer_funds transfer_funds_once
  refused command s role row quiet missing there =
      run_transaction_failure _ (transfer_funds_once command) s s quiet (not_found_code role)
        (not_there command role)
        (lock_accounts_missing command s quiet (move_funds command) role row missing there)

  -- When no statement fails and one of the two accounts is not there while the other is there and
  -- valid, the transfer is refused with the code of the missing account, 1 for FROM and 2 for TO, and a
  -- message that names it, whichever of the two is locked first; nothing is changed.
  pub transfer_funds-not_found :
      (command : XfrfunCommand) (s : Session) (role : AccountRole) (row : AccountRow)
      → s.schedule ≡ []
      → find_account command.sortcode (missing_number role command) s.tables.account ≡ none
      → find_account command.sortcode (present_number role command) s.tables.account ≡ some row
      → AccountChecked (row_fields row)
      → transfer_funds command s
        ≡ (ok (Outcome.failure (refusal_code role) (refusal_message command role)), s)
  unfolding role_title
  transfer_funds-not_found command s from row quiet missing found valid =
      refused command s from row quiet missing (record { found = found; valid = valid })
  transfer_funds-not_found command s to row quiet missing found valid =
      refused command s to row quiet missing (record { found = found; valid = valid })
