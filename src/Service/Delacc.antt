-- ===== src/Service/Delacc.antt =====
-- `service/delacc.rs`.
pub mod Closes
use cbsa_rust.Prelude.{
  Bool, true, false, not, ◌&&◌, String, Option, none, some, Result, ok, err, ◌>>=◌, ◌>>◌,
  if◌then◌else◌,
}
use cbsa_rust.Prelude.Int.{ℤ, pos, contains}
use text.Mathlib.Text.{◌==◌ as str_eq}
use cbsa_rust.Text.{Text, codes}
use cbsa_rust.Crates.{Crates}
use cbsa_rust.Domain.Account.{AccountDetails, max_account_number}
use cbsa_rust.Error.{CbsaError, validation}
use cbsa_rust.Db.Session.{Session}
use cbsa_rust.Repository.Frame.{Outcome}
use cbsa_rust.Repository.Delacc.{DeleteAccountCommand, delete_account}
use cbsa_rust.Service.Calls.{when_valid, reported}
use cbsa_rust.Service.Checks.{validate_sortcode, transaction_reference}

pub record DelaccRequest : Type 0 where
  pub account_number : ℤ

module _ ⦃c : Crates⦄ where
  pub record DelaccResult : Type 0 where
    pub account : Option AccountDetails
    pub fail_code : String
    pub message : Option Text

  -- `DelaccResult::success`.
  abbrev pub succeeded : AccountDetails → DelaccResult
  succeeded account = record { account = some account; fail_code = " "; message = none }

  -- `DelaccResult::failure`.
  abbrev pub failed : String → Text → DelaccResult
  failed fail_code message = record {
    account = none;
    fail_code = fail_code;
    message = some message;
  }

  unfoldable pub delete_success : DelaccResult → Bool
  delete_success r = elim r.account [ none ↦ false | some _ ↦ true ]

  unfoldable pub is_not_found_failure : DelaccResult → Bool
  is_not_found_failure r = not (delete_success r) && str_eq r.fail_code "1"

  unfoldable pub validate_request : DelaccRequest → Result CbsaError (Unit {0})
  validate_request request =
      if contains (pos 0) max_account_number request.account_number
      then ok tt
      else err (validation (codes "account_number must be between 0 and 99999999"))

  abbrev pub command_of : Text → DelaccRequest → c.DateTime → DeleteAccountCommand
  command_of sortcode request now = record {
    sortcode = sortcode;
    account_number = request.account_number;
    transaction_reference = transaction_reference now;
    transaction_date = c.date_naive now;
    transaction_time = c.wall_clock now;
  }

  -- The final `match`.
  abbrev pub result_of : Result CbsaError (Outcome AccountDetails) → Result CbsaError DelaccResult
  result_of = reported succeeded failed

  -- `delete_with_dependencies` once the request has passed its checks.
  unfoldable pub delete_valid :
      Text → DelaccRequest → c.DateTime → Session → Result CbsaError DelaccResult × Session
  delete_valid sortcode request now s =
      let (r, s') = delete_account (command_of sortcode request now) s in (result_of r, s')

  -- `delete_with_dependencies`.
  unfoldable pub delete :
      Text → DelaccRequest → c.DateTime → Session → Result CbsaError DelaccResult × Session
  delete sortcode request now =
      when_valid (validate_sortcode sortcode >> validate_request request)
        (delete_valid sortcode request now)
