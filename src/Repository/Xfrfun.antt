-- ===== src/Repository/Xfrfun.antt =====
-- `repository/xfrfun.rs`: a transfer between two accounts, in one transaction.
pub mod Steps
pub mod Description
pub mod Quiet
pub mod Complete
pub mod Refused
pub mod Effect
pub mod Money
pub mod Funds
pub mod Conservation
use cbsa_rust.Prelude.{
  ℕ, Bool, true, false, not, ◌||◌, String, Option, none, some, List, [], ◌∷◌, ◌++◌, Result, ok, err,
  ◌==◌, if◌then◌else◌,
}
use cbsa_rust.Prelude.Int.{ℤ, ltb_ℤ}
use cbsa_rust.Text.{Text, codes, pad_or_truncate}
use cbsa_rust.Text.Decimal.{show_int, format_int, digits}
use cbsa_rust.Crates.{Crates}
use cbsa_rust.Domain.TranType.{as_str}
use cbsa_rust.Domain.TranType
use cbsa_rust.Domain.Account
use cbsa_rust.Domain.Account.{AccountDetails, round_money}
use cbsa_rust.Error.{CbsaError, proctran_abend_code}
use cbsa_rust.Db.Tables.{AccountRow, ProctranRow}
use cbsa_rust.Db.Session.{Session, Stmt, pure, branch}
use cbsa_rust.Db.Retry.{on_error}
use cbsa_rust.Db.Sql.{select_account, update_balances, insert_proctran_row}
use cbsa_rust.Repository.Frame.{OnceOutcome, success, failure, abend, Outcome, run_transaction}
use cbsa_rust.Repository.Account.{into_account}

abbrev pub from_not_found_code : String
from_not_found_code = "1"

abbrev pub to_not_found_code : String
to_not_found_code = "2"

abbrev pub insufficient_funds_code : String
insufficient_funds_code = "3"

abbrev pub from_account_abend_code : String
from_account_abend_code = "FROM"

abbrev pub to_account_abend_code : String
to_account_abend_code = "TO  "

abbrev retry_exhausted_message : Text
retry_exhausted_message = codes "XFRFUN aborted after exhausting Cockroach serialization retries."

pub data AccountRole : Type 0 where
  from to : AccountRole

abbrev pub not_found_code : AccountRole → String
not_found_code from = from_not_found_code
not_found_code to = to_not_found_code

abbrev pub abend_code : AccountRole → String
abend_code from = from_account_abend_code
abend_code to = to_account_abend_code

unfoldable pub role_title : AccountRole → Text
role_title from = codes "From"
role_title to = codes "To"

unfoldable pub role_upper : AccountRole → Text
role_upper from = codes "FROM"
role_upper to = codes "TO"

unfoldable pub transfer_description : Text → ℤ → Text
transfer_description sortcode number =
    pad_or_truncate (codes "TRANSFER") 26 ++ (sortcode ++ format_int 8 number)

module _ ⦃c : Crates⦄ where
  pub record XfrfunCommand : Type 0 where
    pub sortcode : Text
    pub from_account_number : ℤ
    pub to_account_number : ℤ
    pub amount : c.Decimal
    pub transaction_reference : ℤ
    pub transaction_date : c.Date
    pub transaction_time : c.Time

  pub record SuccessfulTransfer : Type 0 where
    pub from_account : AccountDetails
    pub to_account : AccountDetails

  abbrev pub account_number_for : AccountRole → XfrfunCommand → ℤ
  account_number_for from command = command.from_account_number
  account_number_for to command = command.to_account_number

  -- The lower account number is locked first.
  unfoldable pub ordered_roles : XfrfunCommand → AccountRole × AccountRole
  ordered_roles command =
      if ltb_ℤ command.from_account_number command.to_account_number then (from, to) else (to, from)

  -- One round of the locking loop: read the row, and make it an account.
  abbrev pub checked_row :
      {B : Type 0}
      → AccountRole
      → Result Text AccountDetails
      → (AccountDetails → Stmt (OnceOutcome B))
      → Stmt (OnceOutcome B)
  checked_row role (ok account) next = next account
  checked_row role (err message) next = pure (
      abend (abend_code role) (
        codes "XFRFUN loaded invalid "
        ++ (role_upper role ++ (codes " account data: " ++ message))))

  abbrev pub found_row :
      {B : Type 0}
      → XfrfunCommand
      → AccountRole
      → Option AccountRow
      → (AccountDetails → Stmt (OnceOutcome B))
      → Stmt (OnceOutcome B)
  found_row command role none next = pure (
      failure (not_found_code role) (
        role_title role
        ++ (codes " account number "
            ++ (show_int (account_number_for role command) ++ codes " was not found."))))
  found_row command role (some row) next = checked_row role (into_account row) next

  unfoldable pub lock_account :
      {B : Type 0}
      → XfrfunCommand
      → AccountRole
      → (AccountDetails → Stmt (OnceOutcome B))
      → Stmt (OnceOutcome B)
  lock_account command role next =
      on_error (select_account command.sortcode (account_number_for role command))
        (λ e. abend (abend_code role) (
          codes "XFRFUN failed to read the "
          ++ (role_upper role
              ++ (codes " account "
                  ++ (show_int (account_number_for role command) ++ (codes ": " ++ c.display e))))))
        (λ row. found_row command role row next)

  -- The account that was read first goes to the slot of its role.
  abbrev pub place :
      {B : Type 0}
      → AccountRole
      → AccountDetails
      → AccountDetails
      → (AccountDetails → AccountDetails → Stmt (OnceOutcome B))
      → Stmt (OnceOutcome B)
  place from first second next = next first second
  place to first second next = next second first

  -- The two rounds of the loop; `next` gets the FROM and the TO account.
  abbrev pub lock_in_order :
      {B : Type 0}
      → XfrfunCommand
      → AccountRole × AccountRole
      → (AccountDetails → AccountDetails → Stmt (OnceOutcome B))
      → Stmt (OnceOutcome B)
  lock_in_order command (role, other) next =
      lock_account command role λ a. lock_account command other λ b. place role a b next

  unfoldable pub lock_accounts_in_cobol_order :
      {B : Type 0}
      → XfrfunCommand
      → (AccountDetails → AccountDetails → Stmt (OnceOutcome B))
      → Stmt (OnceOutcome B)
  lock_accounts_in_cobol_order command next = lock_in_order command (ordered_roles command) next

  unfoldable pub update_account_row : AccountDetails → Stmt ℕ
  update_account_row account =
      update_balances account.sortcode account.account_number account.available_balance
        account.actual_balance

  -- The values that are bound to the insert; the database fills in the counter.
  abbrev pub audit_row : XfrfunCommand → ProctranRow
  audit_row command = record {
    sortcode = command.sortcode;
    counter = 0;
    logical_delete = false;
    tran_date = command.transaction_date;
    tran_time = command.transaction_time;
    tran_ref = command.transaction_reference;
    tran_type = codes (as_str TranType.transfer);
    description = transfer_description command.sortcode command.to_account_number;
    amount = command.amount;
  }

  unfoldable pub insert_proctran : XfrfunCommand → Stmt (Unit {0})
  insert_proctran command = insert_proctran_row (audit_row command)

  -- `match update_account_row(…)`: exactly one row must have been updated.
  unfoldable pub update_one :
      {B : Type 0}
      → XfrfunCommand
      → AccountRole
      → AccountDetails
      → Stmt (OnceOutcome B)
      → Stmt (OnceOutcome B)
  update_one command role account next =
      on_error (update_account_row account)
        (λ e. abend (abend_code role) (
          codes "XFRFUN failed to update the "
          ++ (role_upper role
              ++ (codes " account "
                  ++ (show_int (account_number_for role command) ++ (codes ": " ++ c.display e))))))
        (λ rows.
          if rows == 1
          then next
          else pure (
              abend (abend_code role) (
                codes "XFRFUN updated "
                ++ (digits rows
                    ++ (codes " " ++ (role_upper role ++ codes " account rows instead of 1."))))))

  -- The three writes.
  unfoldable pub write_transfer :
      XfrfunCommand → SuccessfulTransfer → Stmt (OnceOutcome SuccessfulTransfer)
  write_transfer command t = update_one command from t.from_account (
      update_one command to t.to_account (
        on_error (insert_proctran command)
          (λ e.
            abend proctran_abend_code
              (codes "XFRFUN failed to write the audit trail: " ++ c.display e))
          (λ _. pure (success t))))

  -- The account with its balances after the transfer, as `AccountDetails::new` checks it.
  abbrev pub rebuilt :
      {B : Type 0}
      → AccountRole
      → Result Text AccountDetails
      → (AccountDetails → Stmt (OnceOutcome B))
      → Stmt (OnceOutcome B)
  rebuilt role (ok account) next = next account
  rebuilt role (err message) next = pure (
      abend (abend_code role) (
        codes "XFRFUN built invalid updated "
        ++ (role_upper role ++ (codes " account data: " ++ message))))

  abbrev pub debited : XfrfunCommand → AccountDetails → AccountDetails
  debited command account = record account {
    available_balance = round_money (c.sub account.available_balance command.amount);
    actual_balance = round_money (c.sub account.actual_balance command.amount);
  }

  abbrev pub credited : XfrfunCommand → AccountDetails → AccountDetails
  credited command account = record account {
    available_balance = round_money (c.add account.available_balance command.amount);
    actual_balance = round_money (c.add account.actual_balance command.amount);
  }

  -- The test for sufficient funds, on the account after the debit.
  abbrev pub is_overdrawn : AccountDetails → Bool
  is_overdrawn account =
      c.lt account.available_balance c.decimal_zero
      || c.lt account.actual_balance (c.neg account.overdraft_limit)

  unfoldable pub move_funds :
      XfrfunCommand → AccountDetails → AccountDetails → Stmt (OnceOutcome SuccessfulTransfer)
  move_funds command from_account to_account =
      if is_overdrawn (debited command from_account)
      then pure (
          failure insufficient_funds_code (
            codes "From account number "
            ++ (show_int command.from_account_number
                ++ codes " does not have sufficient funds for this transfer.")))
      else rebuilt from (Account.new (debited command from_account)) λ f.
        rebuilt to (Account.new (credited command to_account))
          λ t. write_transfer command (record { from_account = f; to_account = t })

  unfoldable pub transfer_funds_once : XfrfunCommand → Stmt (OnceOutcome SuccessfulTransfer)
  transfer_funds_once command = lock_accounts_in_cobol_order command (move_funds command)

  unfoldable pub transfer_funds :
      XfrfunCommand → Session → Result CbsaError (Outcome SuccessfulTransfer) × Session
  transfer_funds command = run_transaction retry_exhausted_message (transfer_funds_once command)
