-- ===== src/Repository/Updcust.antt =====
-- `repository/updcust.rs`: the update of a customer's name and address, in one transaction.
pub mod Complete
pub mod Effect
pub mod Fields
use cbsa_rust.Prelude.{
  ℕ, Bool, true, false, not, ◌&&◌, ◌||◌, String, Option, none, some, List, [], ◌∷◌, ◌++◌, ◌==◌,
  Result, ok, err, if◌then◌else◌,
}
use cbsa_rust.Prelude.Int.{ℤ}
use cbsa_rust.Text.{Text, codes, is_empty}
use cbsa_rust.Text.Decimal.{show_int}
use cbsa_rust.Crates.{Crates}
use cbsa_rust.Domain.TranType.{as_str}
use cbsa_rust.Domain.TranType
use cbsa_rust.Domain.Customer
use cbsa_rust.Domain.Customer.{CustomerDetails}
use cbsa_rust.Error.{CbsaError, proctran_abend_code}
use cbsa_rust.Db.Tables.{ProctranRow}
use cbsa_rust.Db.Session.{Session, Stmt, pure}
use cbsa_rust.Db.Retry.{on_error}
use cbsa_rust.Db.Sql.{insert_proctran_row}
use cbsa_rust.Db.Sql.Customers.{select_customer, update_profile}
use cbsa_rust.Repository.Frame.{OnceOutcome, success, failure, abend, Outcome, run_transaction}
use cbsa_rust.Repository.Customer.{into_customer, customer_description}
use cbsa_rust.Repository.Read.{transpose, load, on_load}

abbrev pub not_found_code : String
not_found_code = "1"

abbrev pub read_fail_code : String
read_fail_code = "2"

abbrev pub update_fail_code : String
update_fail_code = "3"

abbrev pub blank_update_fail_code : String
blank_update_fail_code = "4"

abbrev retry_exhausted_message : Text
retry_exhausted_message = codes "UPDCUST aborted after exhausting Cockroach serialization retries."

-- `starts_with(' ')`.
abbrev pub starts_with_space : Text → Bool
starts_with_space [] = false
starts_with_space (c ∷ cs) = c == b' '

-- `chars().all(|ch| ch == ' ')`.
abbrev pub all_spaces : Text → Bool
all_spaces [] = true
all_spaces (c ∷ cs) = c == b' ' && all_spaces cs

unfoldable pub is_blankish : Text → Bool
is_blankish value = is_empty value || all_spaces value || starts_with_space value

abbrev pub is_provided_for_single_field_update : Text → Bool
is_provided_for_single_field_update value = not (is_blankish value)

unfoldable pub starts_with_non_space : Text → Bool
starts_with_non_space value = not (is_empty value) && not (starts_with_space value)

module _ ⦃c : Crates⦄ where
  pub record UpdateCustomerCommand : Type 0 where
    pub sortcode : Text
    pub customer_number : ℤ
    pub name : Text
    pub address : Text
    pub transaction_reference : ℤ
    pub transaction_date : c.Date
    pub transaction_time : c.Time

  -- The three assignments, each to the name and the address so far.
  abbrev pub address_only : UpdateCustomerCommand → Text × Text → Text × Text
  address_only command (name, address) =
      if is_blankish command.name && is_provided_for_single_field_update command.address
      then (name, command.address)
      else (name, address)

  abbrev pub name_only : UpdateCustomerCommand → Text × Text → Text × Text
  name_only command (name, address) =
      if is_blankish command.address && is_provided_for_single_field_update command.name
      then (command.name, address)
      else (name, address)

  abbrev pub both_fields : UpdateCustomerCommand → Text × Text → Text × Text
  both_fields command (name, address) =
      if starts_with_non_space command.name && starts_with_non_space command.address
      then (command.name, command.address)
      else (name, address)

  unfoldable pub resolved_fields : CustomerDetails → UpdateCustomerCommand → Text × Text
  resolved_fields existing command =
      both_fields command
        (name_only command (address_only command (existing.name, existing.address)))

  unfoldable pub load_customer_for_update :
      Text → ℤ → Session → Result CbsaError (Option CustomerDetails) × Session
  load_customer_for_update sortcode number =
      load (select_customer sortcode number) (transpose into_customer)

  unfoldable pub update_customer_row : Text → ℤ → Text → Text → Stmt ℕ
  update_customer_row sortcode number name address = update_profile sortcode number name address

  abbrev pub audit_row : UpdateCustomerCommand → CustomerDetails → ProctranRow
  audit_row command customer = record {
    sortcode = customer.sortcode;
    counter = 0;
    logical_delete = false;
    tran_date = command.transaction_date;
    tran_time = command.transaction_time;
    tran_ref = command.transaction_reference;
    tran_type = codes (as_str TranType.customer_update);
    description = customer_description customer;
    amount = c.decimal_zero;
  }

  unfoldable pub insert_proctran : UpdateCustomerCommand → CustomerDetails → Stmt (Unit {0})
  insert_proctran command customer = insert_proctran_row (audit_row command customer)

  abbrev pub not_updated : OnceOutcome CustomerDetails
  not_updated = failure update_fail_code (codes "Unable to update the customer record.")

  -- The customer with the new fields, and the audit row.
  unfoldable pub audit :
      UpdateCustomerCommand → Result Text CustomerDetails → Stmt (OnceOutcome CustomerDetails)
  audit command (err message) = pure not_updated
  audit command (ok customer) =
      on_error (insert_proctran command customer)
        (λ e.
          abend proctran_abend_code
            (codes "UPDCUST failed to write the audit trail: " ++ c.display e))
        (λ _. pure (success customer))

  -- What `CustomerDetails::new` is given.
  abbrev pub rebuilt :
      UpdateCustomerCommand → CustomerDetails → Text × Text → Result Text CustomerDetails
  rebuilt command existing (name, address) =
      Customer.new command.sortcode command.customer_number name address existing.date_of_birth
        existing.credit_score existing.credit_score_review_date

  unfoldable pub update_fields :
      UpdateCustomerCommand → CustomerDetails → Text × Text → Stmt (OnceOutcome CustomerDetails)
  update_fields command existing (name, address) =
      on_error (update_customer_row command.sortcode command.customer_number name address)
        (λ e. not_updated)
        (λ rows.
          if rows == 1
          then audit command (rebuilt command existing (name, address))
          else pure not_updated)

  -- The `match` on the customer that was read.
  abbrev pub with_customer :
      UpdateCustomerCommand → Option CustomerDetails → Stmt (OnceOutcome CustomerDetails)
  with_customer command none = pure (
      failure not_found_code
        (codes "Customer number " ++ (show_int command.customer_number ++ codes " was not found.")))
  with_customer command (some existing) =
      if is_blankish command.name && is_blankish command.address
      then pure (
          failure blank_update_fail_code
            (codes "Customer name and address must not both be blank."))
      else update_fields command existing (resolved_fields existing command)

  unfoldable pub update_customer_once : UpdateCustomerCommand → Stmt (OnceOutcome CustomerDetails)
  update_customer_once command =
      on_load (load_customer_for_update command.sortcode command.customer_number)
        (λ e. failure read_fail_code (codes "Unable to read the customer record."))
        (with_customer command)

  unfoldable pub update_customer :
      UpdateCustomerCommand → Session → Result CbsaError (Outcome CustomerDetails) × Session
  update_customer command = run_transaction retry_exhausted_message (update_customer_once command)
