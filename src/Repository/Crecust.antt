-- ===== src/Repository/Crecust.antt =====
-- `repository/crecust.rs`: the creation of a customer, in one transaction. The hook is the one that
-- does nothing.
pub mod Effect
pub mod Registered
use cbsa_rust.Prelude.{
  ℕ, Bool, true, false, String, Option, none, some, ◌++◌, Result, ok, err, if◌then◌else◌,
}
use cbsa_rust.Prelude.Int.{ℤ, pos, ltb_ℤ}
use cbsa_rust.Text.{Text, codes}
use cbsa_rust.Crates.{Crates}
use cbsa_rust.Domain.TranType.{as_str}
use cbsa_rust.Domain.TranType
use cbsa_rust.Domain.Customer
use cbsa_rust.Domain.Customer.{CustomerDetails, max_customer_number}
use cbsa_rust.Error.{CbsaError, proctran_abend_code}
use cbsa_rust.Db.Tables.{CustomerRow, ProctranRow}
use cbsa_rust.Db.Session.{Session, Stmt, pure}
use cbsa_rust.Db.Retry.{on_error}
use cbsa_rust.Db.Sql.{insert_proctran_row}
use cbsa_rust.Db.Sql.Customers.{insert_customer_row}
use cbsa_rust.Db.Sql.Registration.{next_customer}
use cbsa_rust.Repository.Frame.{OnceOutcome, success, failure, abend, Outcome, run_transaction}
use cbsa_rust.Repository.Customer.{customer_description}

abbrev pub global_control_id : Text
global_control_id = codes "GLOBAL"

abbrev pub customer_write_fail_code : String
customer_write_fail_code = "1"

abbrev pub counter_reserve_fail_code : String
counter_reserve_fail_code = "3"

abbrev pub counter_update_fail_code : String
counter_update_fail_code = "4"

abbrev retry_exhausted_message : Text
retry_exhausted_message = codes "CRECUST aborted after exhausting Cockroach serialization retries."

module _ ⦃c : Crates⦄ where
  pub record CreateCustomerCommand : Type 0 where
    pub sortcode : Text
    pub name : Text
    pub address : Text
    pub date_of_birth : c.Date
    pub credit_score : ℕ
    pub credit_score_review_date : c.Date
    pub transaction_reference : ℤ
    pub transaction_date : c.Date
    pub transaction_time : c.Time

  unfoldable pub reserve_next_customer_number : Stmt (Option ℤ)
  reserve_next_customer_number = next_customer global_control_id

  -- The values that are bound to the insert.
  abbrev pub customer_row : CustomerDetails → CustomerRow
  customer_row d = record {
    sortcode = d.sortcode;
    customer_number = d.customer_number;
    name = d.name;
    address = d.address;
    date_of_birth = d.date_of_birth;
    credit_score = pos d.credit_score;
    cs_review_date = d.credit_score_review_date;
  }

  unfoldable pub insert_customer : CustomerDetails → Stmt (Unit {0})
  insert_customer customer = insert_customer_row (customer_row customer)

  abbrev pub audit_row : CreateCustomerCommand → CustomerDetails → ProctranRow
  audit_row command customer = record {
    sortcode = customer.sortcode;
    counter = 0;
    logical_delete = false;
    tran_date = command.transaction_date;
    tran_time = command.transaction_time;
    tran_ref = command.transaction_reference;
    tran_type = codes (as_str TranType.customer_create);
    description = customer_description customer;
    amount = c.decimal_zero;
  }

  unfoldable pub insert_proctran : CreateCustomerCommand → CustomerDetails → Stmt (Unit {0})
  insert_proctran command customer = insert_proctran_row (audit_row command customer)

  abbrev pub not_created : OnceOutcome CustomerDetails
  not_created = failure customer_write_fail_code (codes "Unable to create the customer record.")

  -- The two inserts.
  unfoldable pub write_customer :
      CreateCustomerCommand → CustomerDetails → Stmt (OnceOutcome CustomerDetails)
  write_customer command customer =
      on_error (insert_customer customer) (λ e. not_created)
        (λ _.
          on_error (insert_proctran command customer)
            (λ e.
              abend proctran_abend_code
                (codes "CRECUST failed to write the audit trail: " ++ c.display e))
            (λ _. pure (success customer)))

  abbrev pub built :
      CreateCustomerCommand → Result Text CustomerDetails → Stmt (OnceOutcome CustomerDetails)
  built command (ok customer) = write_customer command customer
  built command (err message) = pure not_created

  -- What `CustomerDetails::new` is given.
  abbrev pub new_customer : CreateCustomerCommand → ℤ → Result Text CustomerDetails
  new_customer command number =
      Customer.new command.sortcode number command.name command.address command.date_of_birth
        command.credit_score (some command.credit_score_review_date)

  -- The `match` on the number that was reserved.
  abbrev pub numbered : CreateCustomerCommand → Option ℤ → Stmt (OnceOutcome CustomerDetails)
  numbered command none =
      pure (failure counter_update_fail_code (codes "Customer control record is missing."))
  numbered command (some number) =
      if ltb_ℤ max_customer_number number
      then pure (
          failure counter_update_fail_code
            (codes "Customer numbering has reached its maximum value."))
      else built command (new_customer command number)

  unfoldable pub create_customer_once : CreateCustomerCommand → Stmt (OnceOutcome CustomerDetails)
  create_customer_once command =
      on_error reserve_next_customer_number
        (λ e.
          failure counter_reserve_fail_code (codes "Unable to reserve the next customer number."))
        (numbered command)

  unfoldable pub create_customer :
      CreateCustomerCommand → Session → Result CbsaError (Outcome CustomerDetails) × Session
  create_customer command = run_transaction retry_exhausted_message (create_customer_once command)
