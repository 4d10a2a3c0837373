-- ===== src/Repository/Creacc.antt =====
-- `repository/creacc.rs`: the creation of an account, in one transaction. The hook is the one that
-- does nothing.
pub mod Effect
pub mod Numbers
pub mod Description
use cbsa_rust.Prelude.{
  ℕ, Bool, true, false, String, Option, none, some, ◌++◌, Result, ok, err, if◌then◌else◌,
}
use cbsa_rust.Prelude.Int.{ℤ, pos, ltb_ℤ}
use cbsa_rust.Text.{Text, codes, pad_or_truncate}
use cbsa_rust.Text.Decimal.{format_int}
use cbsa_rust.Crates.{Crates}
use cbsa_rust.Domain.TranType.{as_str}
use cbsa_rust.Domain.TranType
use cbsa_rust.Domain.Account
use cbsa_rust.Domain.Account.{AccountDetails, max_account_number}
use cbsa_rust.Error.{CbsaError, proctran_abend_code}
use cbsa_rust.Db.Tables.{AccountRow, ProctranRow}
use cbsa_rust.Db.Session.{Session, Stmt, pure}
use cbsa_rust.Db.Retry.{on_error}
use cbsa_rust.Db.Sql.{insert_proctran_row}
use cbsa_rust.Db.Sql.Opening.{next_account, insert_account_row}
use cbsa_rust.Repository.Frame.{OnceOutcome, success, failure, abend, Outcome, run_transaction}

abbrev pub global_control_id : Text
global_control_id = codes "GLOBAL"

abbrev pub counter_abend_code : String
counter_abend_code = "HNCS"

abbrev pub account_write_fail_code : String
account_write_fail_code = "7"

abbrev retry_exhausted_message : Text
retry_exhausted_message = codes "CREACC aborted after exhausting Cockroach serialization retries."

abbrev account_write_message : Text
account_write_message = codes "Unable to create the account record."

module _ ⦃c : Crates⦄ where
  pub record CreateAccountCommand : Type 0 where
    pub sortcode : Text
    pub customer_number : ℤ
    pub account_type : Text
    pub interest_rate : c.Decimal
    pub overdraft_limit : c.Decimal
    pub available_balance : c.Decimal
    pub actual_balance : c.Decimal
    pub opened : c.Date
    pub last_statement_date : c.Date
    pub next_statement_date : c.Date
    pub transaction_reference : ℤ
    pub transaction_date : c.Date
    pub transaction_time : c.Time

  unfoldable pub reserve_next_account_number : Stmt (Option ℤ)
  reserve_next_account_number = next_account global_control_id

  -- What `AccountDetails::new` is given.
  abbrev pub opened_account : CreateAccountCommand → ℤ → AccountDetails
  opened_account command number = record {
    sortcode = command.sortcode;
    customer_number = command.customer_number;
    account_number = number;
    account_type = command.account_type;
    interest_rate = command.interest_rate;
    opened = command.opened;
    overdraft_limit = command.overdraft_limit;
    last_statement_date = some command.last_statement_date;
    next_statement_date = some command.next_statement_date;
    available_balance = command.available_balance;
    actual_balance = command.actual_balance;
  }

  -- The values that are bound to the insert.
  abbrev pub account_row : AccountDetails → AccountRow
  account_row a = record {
    sortcode = a.sortcode;
    customer_number = a.customer_number;
    account_number = a.account_number;
    account_type = a.account_type;
    interest_rate = a.interest_rate;
    opened = a.opened;
    overdraft_limit = a.overdraft_limit;
    last_stmt_date = a.last_statement_date;
    next_stmt_date = a.next_statement_date;
    available_balance = a.available_balance;
    actual_balance = a.actual_balance;
  }

  unfoldable pub insert_account : AccountDetails → Stmt (Unit {0})
  insert_account account = insert_account_row (account_row account)

  -- The source expects a date here; `opened_account` gives one.
  abbrev pub date_text : Option c.Date → Text
  date_text none = codes ""
  date_text (some d) = c.format_ddmmyyyy d

  unfoldable pub proctran_description : AccountDetails → Text
  proctran_description account =
      format_int 10 account.customer_number
      ++ (pad_or_truncate account.account_type 8
          ++ (date_text account.last_statement_date
              ++ (date_text account.next_statement_date ++ codes "      ")))

  abbrev pub audit_row : CreateAccountCommand → AccountDetails → ProctranRow
  audit_row command account = record {
    sortcode = account.sortcode;
    counter = 0;
    logical_delete = false;
    tran_date = command.transaction_date;
    tran_time = command.transaction_time;
    tran_ref = command.transaction_reference;
    tran_type = codes (as_str TranType.account_create);
    description = proctran_description account;
    amount = c.decimal_zero;
  }

  unfoldable pub insert_proctran : CreateAccountCommand → AccountDetails → Stmt (Unit {0})
  insert_proctran command account = insert_proctran_row (audit_row command account)

  -- The two inserts.
  unfoldable pub write_account :
      CreateAccountCommand → AccountDetails → Stmt (OnceOutcome AccountDetails)
  write_account command account =
      on_error (insert_account account) (λ e. failure account_write_fail_code account_write_message)
        (λ _.
          on_error (insert_proctran command account)
            (λ e.
              abend proctran_abend_code
                (codes "CREACC failed to write the audit trail: " ++ c.display e))
            (λ _. pure (success account)))

  abbrev pub built :
      CreateAccountCommand → Result Text AccountDetails → Stmt (OnceOutcome AccountDetails)
  built command (ok account) = write_account command account
  built command (err message) = pure (failure account_write_fail_code account_write_message)

  -- The `match` on the number that was reserved.
  abbrev pub numbered : CreateAccountCommand → Option ℤ → Stmt (OnceOutcome AccountDetails)
  numbered command none =
      pure (abend counter_abend_code (codes "CREACC account control record is missing."))
  numbered command (some number) =
      if ltb_ℤ max_account_number number
      then pure (
          abend counter_abend_code
            (codes "CREACC account numbering has reached its maximum value."))
      else built command (Account.new (opened_account command number))

  unfoldable pub create_account_once : CreateAccountCommand → Stmt (OnceOutcome AccountDetails)
  create_account_once command =
      on_error reserve_next_account_number
        (λ e.
          abend counter_abend_code
            (codes "CREACC failed to reserve the next account number: " ++ c.display e))
        (numbered command)

  unfoldable pub create_account :
      CreateAccountCommand → Session → Result CbsaError (Outcome AccountDetails) × Session
  create_account command = run_transaction retry_exhausted_message (create_account_once command)
