-- ===== src/Repository/Delcus.antt =====
-- `repository/delcus.rs`: the deletion of a customer with its accounts, in one transaction.
pub mod Effect
pub mod Loop
pub mod Closing
pub mod Closes
use cbsa_rust.Prelude.{
  ℕ, Bool, true, false, String, Option, none, some, List, [], ◌∷◌, ◌++◌, ◌==◌, Result, ok, err,
  map_err, if◌then◌else◌,
}
use cbsa_rust.Prelude.Int.{ℤ}
use cbsa_rust.Text.{Text, codes, pad_or_truncate}
use cbsa_rust.Text.Decimal.{digits, show_int, format_int}
use cbsa_rust.Crates.{Crates}
use cbsa_rust.Domain.TranType.{as_str}
use cbsa_rust.Domain.TranType
use cbsa_rust.Domain.Account.{AccountDetails}
use cbsa_rust.Domain.Customer.{CustomerDetails}
use cbsa_rust.Error.{CbsaError, validation, show_error, proctran_abend_code}
use cbsa_rust.Db.Tables.{CustomerRow, AccountRow, ProctranRow}
use cbsa_rust.Db.Session.{Session, Stmt, pure}
use cbsa_rust.Db.Retry.{on_error}
use cbsa_rust.Db.Sql.{insert_proctran_row}
use cbsa_rust.Db.Sql.Removal.{delete_row}
use cbsa_rust.Db.Sql.Customers.{select_customer, select_accounts_of, delete_customer}
use cbsa_rust.Repository.Frame.{OnceOutcome, success, failure, abend, Outcome, run_transaction}
use cbsa_rust.Repository.Account.{into_account}
use cbsa_rust.Repository.Customer.{into_customer, customer_description}
use cbsa_rust.Repository.Read.{transpose, collect, load, on_load}

abbrev pub not_found_code : String
not_found_code = "1"

abbrev pub read_abend_code : String
read_abend_code = "WPV6"

abbrev pub delete_abend_code : String
delete_abend_code = "WPV7"

abbrev retry_exhausted_message : Text
retry_exhausted_message = codes "DELCUS aborted after exhausting Cockroach serialization retries."

module _ ⦃c : Crates⦄ where
  pub record DeleteCustomerCommand : Type 0 where
    pub sortcode : Text
    pub customer_number : ℤ
    pub transaction_reference : ℤ
    pub transaction_date : c.Date
    pub transaction_time : c.Time

  -- `TryFrom<AccountRow> for AccountDetails`.
  unfoldable pub try_from : AccountRow → Result CbsaError AccountDetails
  try_from row = map_err validation (into_account row)

  unfoldable pub load_customer_for_update :
      Text → ℤ → Session → Result CbsaError (Option CustomerDetails) × Session
  load_customer_for_update sortcode number =
      load (select_customer sortcode number) (transpose into_customer)

  unfoldable pub load_accounts_for_customer :
      Text → ℤ → Session → Result CbsaError (List AccountDetails) × Session
  load_accounts_for_customer sortcode number =
      load (select_accounts_of sortcode number) (collect try_from)

  unfoldable pub delete_account_row : Text → ℤ → Stmt ℕ
  delete_account_row sortcode number = delete_row sortcode number

  unfoldable pub delete_customer_row : Text → ℤ → Stmt ℕ
  delete_customer_row sortcode number = delete_customer sortcode number

  unfoldable pub optional_cobol_date : Option c.Date → Text
  optional_cobol_date none = codes "00000000"
  optional_cobol_date (some date) = c.format_ddmmyyyy date

  unfoldable pub account_proctran_description : AccountDetails → Text
  account_proctran_description account =
      format_int 10 account.customer_number
      ++ (pad_or_truncate account.account_type 8
          ++ (optional_cobol_date account.last_statement_date
              ++ (optional_cobol_date account.next_statement_date ++ codes "DELETE")))

  abbrev pub account_audit_row : DeleteCustomerCommand → AccountDetails → ProctranRow
  account_audit_row command account = record {
    sortcode = account.sortcode;
    counter = 0;
    logical_delete = false;
    tran_date = command.transaction_date;
    tran_time = command.transaction_time;
    tran_ref = command.transaction_reference;
    tran_type = codes (as_str TranType.account_delete);
    description = account_proctran_description account;
    amount = account.actual_balance;
  }

  abbrev pub customer_audit_row : DeleteCustomerCommand → CustomerDetails → ProctranRow
  customer_audit_row command customer = record {
    sortcode = customer.sortcode;
    counter = 0;
    logical_delete = false;
    tran_date = command.transaction_date;
    tran_time = command.transaction_time;
    tran_ref = command.transaction_reference;
    tran_type = codes (as_str TranType.customer_delete);
    description = customer_description customer;
    amount = c.decimal_zero;
  }

  unfoldable pub insert_account_proctran : DeleteCustomerCommand → AccountDetails → Stmt (Unit {0})
  insert_account_proctran command account = insert_proctran_row (account_audit_row command account)

  unfoldable pub insert_customer_proctran :
      DeleteCustomerCommand → CustomerDetails → Stmt (Unit {0})
  insert_customer_proctran command customer =
      insert_proctran_row (customer_audit_row command customer)

  -- The audit row of one account that was deleted, then the rest of the loop.
  abbrev pub audit_account :
      DeleteCustomerCommand
      → AccountDetails
      → Stmt (OnceOutcome CustomerDetails)
      → Stmt (OnceOutcome CustomerDetails)
  audit_account command account rest =
      on_error (insert_account_proctran command account)
        (λ e.
          abend proctran_abend_code
            (codes "DELCUS failed to write the account deletion audit trail: " ++ c.display e))
        (λ _. rest)

  -- The loop over the accounts, and what follows it.
  unfoldable pub delete_accounts :
      DeleteCustomerCommand
      → List AccountDetails
      → Stmt (OnceOutcome CustomerDetails)
      → Stmt (OnceOutcome CustomerDetails)
  delete_accounts command [] next = next
  delete_accounts command (account ∷ accounts) next =
      let rest = delete_accounts command accounts next in
      on_error (delete_account_row command.sortcode account.account_number)
        (λ e. abend delete_abend_code (
          codes "DELCUS failed to delete account "
          ++ (show_int account.account_number ++ (codes ": " ++ c.display e))))
        (λ rows.
          if rows == 0
          then rest
          else if rows == 1
          then audit_account command account rest
          else pure (
              abend delete_abend_code (
                codes "DELCUS deleted an unexpected number of rows for account "
                ++ (show_int account.account_number
                    ++ (codes ": " ++ (digits rows ++ codes "."))))))

  -- The row of the customer and its audit row.
  unfoldable pub remove_customer_and_audit :
      DeleteCustomerCommand → CustomerDetails → Stmt (OnceOutcome CustomerDetails)
  remove_customer_and_audit command customer =
      on_error (delete_customer_row command.sortcode command.customer_number)
        (λ e. abend delete_abend_code (
          codes "DELCUS failed to delete customer "
          ++ (show_int command.customer_number ++ (codes ": " ++ c.display e))))
        (λ rows.
          if rows == 1
          then on_error (insert_customer_proctran command customer)
              (λ e.
                abend proctran_abend_code (
                  codes "DELCUS failed to write the customer deletion audit trail: "
                  ++ c.display e))
              (λ _. pure (success customer))
          else if rows == 0
          then pure (
              abend delete_abend_code (
                codes "DELCUS could not delete customer "
                ++ (show_int command.customer_number ++ codes " (concurrently removed).")))
          else pure (
              abend delete_abend_code (
                codes "DELCUS deleted an unexpected number of rows for customer "
                ++ (show_int command.customer_number
                    ++ (codes ": " ++ (digits rows ++ codes "."))))))

  -- The `match` on the customer that was read.
  abbrev pub with_customer :
      DeleteCustomerCommand → Option CustomerDetails → Stmt (OnceOutcome CustomerDetails)
  with_customer command none = pure (
      failure not_found_code
        (codes "Customer number " ++ (show_int command.customer_number ++ codes " was not found.")))
  with_customer command (some customer) =
      on_load (load_accounts_for_customer command.sortcode command.customer_number)
        (λ e.
          abend read_abend_code (codes "DELCUS failed to read the account data: " ++ show_error e))
        (λ accounts. delete_accounts command accounts (remove_customer_and_audit command customer))

  unfoldable pub delete_customer_once : DeleteCustomerCommand → Stmt (OnceOutcome CustomerDetails)
  delete_customer_once command =
      on_load (load_customer_for_update command.sortcode command.customer_number)
        (λ e.
          abend read_abend_code (codes "DELCUS failed to read the customer data: " ++ show_error e))
        (with_customer command)

  unfoldable pub delete_customer_with_accounts :
      DeleteCustomerCommand → Session → Result CbsaError (Outcome CustomerDetails) × Session
  delete_customer_with_accounts command =
      run_transaction retry_exhausted_message (delete_customer_once command)
