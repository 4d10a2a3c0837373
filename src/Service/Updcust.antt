-- ===== src/Service/Updcust.antt =====
-- `service/updcust.rs`.
pub mod Renames
use cbsa_rust.Prelude.{
  ℕ, Bool, true, false, not, ◌&&◌, ◌||◌, ◌++◌, String, Option, none, some, Result, ok, err, ◌>>◌,
  if◌then◌else◌, ltb, length,
}
use cbsa_rust.Prelude.Int.{ℤ, pos, contains}
use text.Mathlib.Text.{◌==◌ as str_eq}
use cbsa_rust.Text.{Text, codes}
use cbsa_rust.Text.Decimal.{digits}
use cbsa_rust.Crates.{Crates}
use cbsa_rust.Domain.Customer.{CustomerDetails}
use cbsa_rust.Error.{CbsaError, validation}
use cbsa_rust.Db.Session.{Session}
use cbsa_rust.Repository.Frame.{Outcome}
use cbsa_rust.Repository.Updcust.{UpdateCustomerCommand, update_customer}
use cbsa_rust.Service.Calls.{when_valid, reported}
use cbsa_rust.Service.Checks.{validate_sortcode, transaction_reference}
use cbsa_rust.Service.Titles.{updated_title}

abbrev pub invalid_title_code : String
invalid_title_code = "T"

abbrev pub max_customer_number : ℤ
max_customer_number = pos 9_999_999_999

abbrev pub max_name_chars : ℕ
max_name_chars = 60

abbrev pub max_address_chars : ℕ
max_address_chars = 160

pub record UpdcustRequest : Type 0 where
  pub customer_number : ℤ
  pub name : Text
  pub address : Text

module _ ⦃c : Crates⦄ where
  pub record UpdcustResult : Type 0 where
    pub customer : Option CustomerDetails
    pub fail_code : String
    pub message : Option Text

  -- `UpdcustResult::success`.
  abbrev pub succeeded : CustomerDetails → UpdcustResult
  succeeded customer = record { customer = some customer; fail_code = "0"; message = none }

  -- `UpdcustResult::failure`.
  abbrev pub failed : String → Text → UpdcustResult
  failed fail_code message = record {
    customer = none;
    fail_code = fail_code;
    message = some message;
  }

  unfoldable pub update_success : UpdcustResult → Bool
  update_success r = elim r.customer [ none ↦ false | some _ ↦ true ]

  unfoldable pub is_not_found_failure : UpdcustResult → Bool
  is_not_found_failure r = not (update_success r) && str_eq r.fail_code "1"

  unfoldable pub is_validation_failure : UpdcustResult → Bool
  is_validation_failure r =
      not (update_success r) && (str_eq r.fail_code "4" || str_eq r.fail_code invalid_title_code)

  unfoldable pub validate_request : UpdcustRequest → Result CbsaError (Unit {0})
  validate_request request =
      if not (contains (pos 0) max_customer_number request.customer_number)
      then err (validation (codes "customer_number must be between 0 and 9999999999"))
      else if ltb max_name_chars (length request.name)
      then err (
          validation
            (codes "name must be at most " ++ (digits max_name_chars ++ codes " characters")))
      else if ltb max_address_chars (length request.address)
      then err (
          validation
            (codes "address must be at most " ++ (digits max_address_chars ++ codes " characters")))
      else ok tt

  abbrev pub command_of : Text → UpdcustRequest → c.DateTime → UpdateCustomerCommand
  command_of sortcode request now = record {
    sortcode = sortcode;
    customer_number = request.customer_number;
    name = request.name;
    address = request.address;
    transaction_reference = transaction_reference now;
    transaction_date = c.date_naive now;
    transaction_time = c.wall_clock now;
  }

  -- The final `match`.
  abbrev pub result_of : Result CbsaError (Outcome CustomerDetails) → Result CbsaError UpdcustResult
  result_of = reported succeeded failed

  -- `update_with_dependencies` once the request has passed its checks.
  unfoldable pub update_valid :
      Text → UpdcustRequest → c.DateTime → Session → Result CbsaError UpdcustResult × Session
  update_valid sortcode request now s =
      if not (updated_title request.name)
      then (ok (failed invalid_title_code (codes "The customer title is invalid.")), s)
      else (let (r, s') = update_customer (command_of sortcode request now) s in (result_of r, s'))

  -- `update_with_dependencies`.
  unfoldable pub update :
      Text → UpdcustRequest → c.DateTime → Session → Result CbsaError UpdcustResult × Session
  update sortcode request now =
      when_valid (validate_sortcode sortcode >> validate_request request)
        (update_valid sortcode request now)
