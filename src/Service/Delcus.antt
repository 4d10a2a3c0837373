-- ===== src/Service/Delcus.antt =====
-- `service/delcus.rs`.
pub mod Closes
use cbsa_rust.Prelude.{
  Bool, true, false, not, ◌&&◌, String, Option, none, some, Result, ok, err, ◌>>◌, if◌then◌else◌,
}
use cbsa_rust.Prelude.Int.{ℤ, pos, contains}
use text.Mathlib.Text.{◌==◌ as str_eq}
use cbsa_rust.Text.{Text, codes}
use cbsa_rust.Crates.{Crates}
use cbsa_rust.Domain.Customer.{CustomerDetails}
use cbsa_rust.Error.{CbsaError, validation}
use cbsa_rust.Db.Session.{Session}
use cbsa_rust.Repository.Frame.{Outcome}
use cbsa_rust.Repository.Delcus.{DeleteCustomerCommand, delete_customer_with_accounts}
use cbsa_rust.Service.Calls.{when_valid, reported}
use cbsa_rust.Service.Checks.{validate_sortcode, transaction_reference}

abbrev pub max_customer_number : ℤ
max_customer_number = pos 9_999_999_999

pub record DelcusRequest : Type 0 where
  pub customer_number : ℤ

module _ ⦃c : Crates⦄ where
  pub record DelcusResult : Type 0 where
    pub customer : Option CustomerDetails
    pub fail_code : String
    pub message : Option Text

  -- `DelcusResult::success`.
  abbrev pub succeeded : CustomerDetails → DelcusResult
  succeeded customer = record { customer = some customer; fail_code = " "; message = none }

  -- `DelcusResult::failure`.
  abbrev pub failed : String → Text → DelcusResult
  failed fail_code message = record {
    customer = none;
    fail_code = fail_code;
    message = some message;
  }

  unfoldable pub delete_success : DelcusResult → Bool
  delete_success r = elim r.customer [ none ↦ false | some _ ↦ true ]

  unfoldable pub is_not_found_failure : DelcusResult → Bool
  is_not_found_failure r = not (delete_success r) && str_eq r.fail_code "1"

  unfoldable pub validate_request : DelcusRequest → Result CbsaError (Unit {0})
  validate_request request =
      if contains (pos 1) max_customer_number request.customer_number
      then ok tt
      else err (validation (codes "customer_number must be between 1 and 9999999999"))

  abbrev pub command_of : Text → DelcusRequest → c.DateTime → DeleteCustomerCommand
  command_of sortcode request now = record {
    sortcode = sortcode;
    customer_number = request.customer_number;
    transaction_reference = transaction_reference now;
    transaction_date = c.date_naive now;
    transaction_time = c.wall_clock now;
  }

  -- The final `match`.
  abbrev pub result_of : Result CbsaError (Outcome CustomerDetails) → Result CbsaError DelcusResult
  result_of = reported succeeded failed

  -- `delete_with_dependencies` once the request has passed its checks.
  unfoldable pub delete_valid :
      Text → DelcusRequest → c.DateTime → Session → Result CbsaError DelcusResult × Session
  delete_valid sortcode request now s =
      let (r, s') = delete_customer_with_accounts (command_of sortcode request now) s in
      (result_of r, s')

  -- `delete_with_dependencies`.
  unfoldable pub delete :
      Text → DelcusRequest → c.DateTime → Session → Result CbsaError DelcusResult × Session
  delete sortcode request now =
      when_valid (validate_sortcode sortcode >> validate_request request)
        (delete_valid sortcode request now)
