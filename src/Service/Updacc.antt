-- ===== src/Service/Updacc.antt =====
-- `service/updacc.rs`.
pub mod Keeps
use cbsa_rust.Prelude.{
  ℕ, Bool, true, false, not, ◌&&◌, ◌||◌, String, Option, none, some, Result, ok, err, map_err, ◌>>◌,
  if◌then◌else◌, ltb, length,
}
use cbsa_rust.Prelude.Int.{ℤ, pos, contains}
use text.Mathlib.Text.{◌==◌ as str_eq}
use cbsa_rust.Text.{Text, codes, trim, is_empty}
use cbsa_rust.Crates.{Crates}
use cbsa_rust.Domain.Account.{AccountDetails, round_money}
use cbsa_rust.Error.{CbsaError, validation}
use cbsa_rust.Db.Session.{Session}
use cbsa_rust.Repository.Frame.{Outcome}
use cbsa_rust.Repository.Updcust.{starts_with_space}
use cbsa_rust.Repository.Updacc.{UpdateAccountCommand, update_account}
use cbsa_rust.Service.Calls.{when_valid, reported}
use cbsa_rust.Service.Checks.{validate_sortcode, transaction_reference}
use cbsa_rust.Service.Checks.Money.{validate_money_range}

abbrev pub invalid_account_type_code : String
invalid_account_type_code = "2"

abbrev pub max_account_number : ℤ
max_account_number = pos 99_999_999

unfoldable pub invalid_account_type : Text → Bool
invalid_account_type account_type = is_empty (trim account_type) || starts_with_space account_type

module _ ⦃c : Crates⦄ where
  pub record UpdaccRequest : Type 0 where
    pub account_number : ℤ
    pub account_type : Text
    pub interest_rate : c.Decimal
    pub overdraft_limit : c.Decimal

  pub record UpdaccResult : Type 0 where
    pub account : Option AccountDetails
    pub fail_code : String
    pub message : Option Text

  -- `UpdaccResult::success`.
  abbrev pub succeeded : AccountDetails → UpdaccResult
  succeeded account = record { account = some account; fail_code = "0"; message = none }

  -- `UpdaccResult::failure`.
  abbrev pub failed : String → Text → UpdaccResult
  failed fail_code message = record {
    account = none;
    fail_code = fail_code;
    message = some message;
  }

  unfoldable pub update_success : UpdaccResult → Bool
  update_success r = elim r.account [ none ↦ false | some _ ↦ true ]

  unfoldable pub is_not_found_failure : UpdaccResult → Bool
  is_not_found_failure r = not (update_success r) && str_eq r.fail_code "1"

  unfoldable pub is_validation_failure : UpdaccResult → Bool
  is_validation_failure r = not (update_success r) && str_eq r.fail_code invalid_account_type_code

  -- The checks of the two amounts.
  abbrev pub check_rate : UpdaccRequest → Result CbsaError (Unit {0})
  check_rate request = map_err validation (
      validate_money_range request.interest_rate c.decimal_zero (c.decimal_new (pos 999_999) 2)
        (codes "interest_rate must be between 0.00 and 9999.99"))

  abbrev pub check_limit : UpdaccRequest → Result CbsaError (Unit {0})
  check_limit request = map_err validation (
      validate_money_range request.overdraft_limit c.decimal_zero (c.decimal_new (pos 99_999_999) 0)
        (codes "overdraft_limit must be between 0 and 99999999"))

  unfoldable pub validate_request : UpdaccRequest → Result CbsaError (Unit {0})
  validate_request request =
      if not (contains (pos 0) max_account_number request.account_number)
      then err (validation (codes "account_number must be between 0 and 99999999"))
      else if ltb 8 (length request.account_type)
      then err (validation (codes "account_type must be at most 8 characters"))
      else check_rate request
        >> (check_limit request
            >> (if not (c.fract_is_zero request.overdraft_limit)
                then err (
                    validation
                      (codes "overdraft_limit must not include non-zero fractional digits"))
                else ok tt))

  abbrev pub command_of : Text → UpdaccRequest → c.DateTime → UpdateAccountCommand
  command_of sortcode request now = record {
    sortcode = sortcode;
    account_number = request.account_number;
    account_type = request.account_type;
    interest_rate = round_money request.interest_rate;
    overdraft_limit = round_money request.overdraft_limit;
    transaction_reference = transaction_reference now;
    transaction_date = c.date_naive now;
    transaction_time = c.wall_clock now;
  }

  -- The final `match`.
  abbrev pub result_of : Result CbsaError (Outcome AccountDetails) → Result CbsaError UpdaccResult
  result_of = reported succeeded failed

  -- `update_with_dependencies` once the request has passed its checks.
  unfoldable pub update_valid :
      Text → UpdaccRequest → c.DateTime → Session → Result CbsaError UpdaccResult × Session
  update_valid sortcode request now s =
      if invalid_account_type request.account_type
      then (
        ok (
            failed invalid_account_type_code
              (codes "Account type must not be blank or start with a space.")),
        s,
      )
      else (let (r, s') = update_account (command_of sortcode request now) s in (result_of r, s'))

  -- `update_with_dependencies`.
  unfoldable pub update :
      Text → UpdaccRequest → c.DateTime → Session → Result CbsaError UpdaccResult × Session
  update sortcode request now =
      when_valid (validate_sortcode sortcode >> validate_request request)
        (update_valid sortcode request now)
