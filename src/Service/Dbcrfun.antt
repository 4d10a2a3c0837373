-- ===== src/Service/Dbcrfun.antt =====
-- `service/dbcrfun.rs`.
pub mod Books
use cbsa_rust.Prelude.{
  Bool, true, false, not, ◌&&◌, ◌++◌, String, Option, none, some, Result, ok, err, ◌>>◌,
  if◌then◌else◌, take,
}
use cbsa_rust.Prelude.Int.{ℤ, pos, negsuc, contains}
use text.Mathlib.Text.{◌==◌ as str_eq}
use cbsa_rust.Text.{Text, codes, pad_or_truncate}
use cbsa_rust.Crates.{Crates}
use cbsa_rust.Domain.Account.{AccountDetails, round_money, max_account_number}
use cbsa_rust.Error.{CbsaError, validation}
use cbsa_rust.Db.Session.{Session}
use cbsa_rust.Repository.Frame.{Outcome}
use cbsa_rust.Repository.Dbcrfun.{DbcrfunCommand, post_transaction}
use cbsa_rust.Service.Calls.{when_valid, reported}
use cbsa_rust.Service.Checks.{
  validate_sortcode, validate_amount, validate_length, transaction_reference,
}

pub record DbcrfunOrigin : Type 0 where
  pub applid : Text
  pub userid : Text
  pub facility_name : Text
  pub netwrk_id : Text
  pub facility_type : ℤ
  pub fill0 : Text

unfoldable pub payment_description : DbcrfunOrigin → Text
payment_description origin =
    take 14 (pad_or_truncate origin.applid 8 ++ pad_or_truncate origin.userid 8)

module _ ⦃c : Crates⦄ where
  pub record DbcrfunRequest : Type 0 where
    pub account_number : ℤ
    pub amount : c.Decimal
    pub origin : DbcrfunOrigin

  pub record DbcrfunResult : Type 0 where
    pub account : Option AccountDetails
    pub fail_code : String
    pub message : Option Text

  -- `DbcrfunResult::success`.
  abbrev pub succeeded : AccountDetails → DbcrfunResult
  succeeded account = record { account = some account; fail_code = "0"; message = none }

  -- `DbcrfunResult::failure`.
  abbrev pub failed : String → Text → DbcrfunResult
  failed fail_code message = record {
    account = none;
    fail_code = fail_code;
    message = some message;
  }

  unfoldable pub payment_success : DbcrfunResult → Bool
  payment_success r = elim r.account [ none ↦ false | some _ ↦ true ]

  unfoldable pub is_not_found_failure : DbcrfunResult → Bool
  is_not_found_failure r = not (payment_success r) && str_eq r.fail_code "1"

  unfoldable pub is_insufficient_funds_failure : DbcrfunResult → Bool
  is_insufficient_funds_failure r = not (payment_success r) && str_eq r.fail_code "3"

  unfoldable pub is_disallowed_account_type_failure : DbcrfunResult → Bool
  is_disallowed_account_type_failure r = not (payment_success r) && str_eq r.fail_code "4"

  unfoldable pub validate_origin : DbcrfunOrigin → Result CbsaError (Unit {0})
  validate_origin origin = do
    validate_length origin.applid 8 (codes "applid")
    validate_length origin.userid 8 (codes "userid")
    validate_length origin.facility_name 8 (codes "facility_name")
    validate_length origin.netwrk_id 8 (codes "netwrk_id")
    validate_length origin.fill0 4 (codes "fill0")
    if contains (negsuc 99_999_998) (pos 99_999_999) origin.facility_type
        then ok tt
        else err (validation (codes "facility_type must be between -99999999 and 99999999"))

  abbrev pub check_account_number : ℤ → Result CbsaError (Unit {0})
  check_account_number n =
      if contains (pos 0) max_account_number n
      then ok tt
      else err (validation (codes "account_number must be between 0 and 99999999"))

  unfoldable pub validate_request : DbcrfunRequest → Result CbsaError (Unit {0})
  validate_request request =
      check_account_number request.account_number
      >> validate_amount request.amount
      >> validate_origin request.origin

  abbrev pub command_of : Text → DbcrfunRequest → c.DateTime → DbcrfunCommand
  command_of sortcode request now = record {
    sortcode = sortcode;
    account_number = request.account_number;
    amount = round_money request.amount;
    facility_type = request.origin.facility_type;
    payment_origin_description = payment_description request.origin;
    transaction_reference = transaction_reference now;
    transaction_date = c.date_naive now;
    transaction_time = c.wall_clock now;
  }

  -- The final `match`.
  abbrev pub result_of : Result CbsaError (Outcome AccountDetails) → Result CbsaError DbcrfunResult
  result_of = reported succeeded failed

  -- `process_with_dependencies` once the request has passed its checks.
  unfoldable pub process_valid :
      Text → DbcrfunRequest → c.DateTime → Session → Result CbsaError DbcrfunResult × Session
  process_valid sortcode request now s =
      let (r, s') = post_transaction (command_of sortcode request now) s in (result_of r, s')

  -- `process_with_dependencies`.
  unfoldable pub process :
      Text → DbcrfunRequest → c.DateTime → Session → Result CbsaError DbcrfunResult × Session
  process sortcode request now =
      when_valid (validate_sortcode sortcode >> validate_request request)
        (process_valid sortcode request now)
