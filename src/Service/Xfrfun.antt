-- ===== src/Service/Xfrfun.antt =====
-- `service/xfrfun.rs`.
pub mod Conservation
use cbsa_rust.Prelude.{
  Bool, true, false, not, ◌&&◌, String, Option, none, some, Result, ok, err, ◌>>=◌, ◌>>◌,
  if◌then◌else◌,
}
use cbsa_rust.Prelude.Int.{ℤ, pos, contains, int_eq}
use text.Mathlib.Text.{◌==◌ as str_eq}
use cbsa_rust.Text.{Text, codes}
use cbsa_rust.Crates.{Crates}
use cbsa_rust.Domain.Account.{round_money, max_account_number}
use cbsa_rust.Error.{CbsaError, validation, abend}
use cbsa_rust.Db.Session.{Session}
use cbsa_rust.Repository.Frame.{Outcome}
use cbsa_rust.Repository.Xfrfun.{XfrfunCommand, SuccessfulTransfer, transfer_funds}
use cbsa_rust.Service.Calls.{when_valid}
use cbsa_rust.Service.Checks.{validate_sortcode, validate_amount, transaction_reference}

abbrev pub invalid_amount_code : String
invalid_amount_code = "4"

abbrev pub same_account_abend_code : String
same_account_abend_code = "SAME"

module _ ⦃c : Crates⦄ where
  pub record XfrfunRequest : Type 0 where
    pub from_account_number : ℤ
    pub to_account_number : ℤ
    pub amount : c.Decimal

  pub record XfrfunResult : Type 0 where
    pub from_available_balance : Option c.Decimal
    pub from_actual_balance : Option c.Decimal
    pub to_available_balance : Option c.Decimal
    pub to_actual_balance : Option c.Decimal
    pub fail_code : String
    pub message : Option Text

  -- `XfrfunResult::success`.
  abbrev pub succeeded : c.Decimal → c.Decimal → c.Decimal → c.Decimal → XfrfunResult
  succeeded from_available from_actual to_available to_actual = record {
    from_available_balance = some from_available;
    from_actual_balance = some from_actual;
    to_available_balance = some to_available;
    to_actual_balance = some to_actual;
    fail_code = "0";
    message = none;
  }

  -- `XfrfunResult::failure`.
  abbrev pub failed : String → Text → XfrfunResult
  failed fail_code message = record {
    from_available_balance = none;
    from_actual_balance = none;
    to_available_balance = none;
    to_actual_balance = none;
    fail_code = fail_code;
    message = some message;
  }

  unfoldable pub transfer_success : XfrfunResult → Bool
  transfer_success r = elim r.from_available_balance [ none ↦ false | some _ ↦ true ]

  unfoldable pub is_from_account_not_found_failure : XfrfunResult → Bool
  is_from_account_not_found_failure r = not (transfer_success r) && str_eq r.fail_code "1"

  unfoldable pub is_to_account_not_found_failure : XfrfunResult → Bool
  is_to_account_not_found_failure r = not (transfer_success r) && str_eq r.fail_code "2"

  unfoldable pub is_insufficient_funds_failure : XfrfunResult → Bool
  is_insufficient_funds_failure r = not (transfer_success r) && str_eq r.fail_code "3"

  unfoldable pub is_invalid_amount_failure : XfrfunResult → Bool
  is_invalid_amount_failure r = not (transfer_success r) && str_eq r.fail_code invalid_amount_code

  abbrev pub check_account_number : ℤ → Result CbsaError (Unit {0})
  check_account_number n =
      if contains (pos 0) max_account_number n
      then ok tt
      else err (validation (codes "account_number must be between 0 and 99999999"))

  unfoldable pub validate_request : XfrfunRequest → Result CbsaError (Unit {0})
  validate_request request =
      check_account_number request.from_account_number
      >> check_account_number request.to_account_number
      >> validate_amount request.amount

  abbrev pub command_of : Text → XfrfunRequest → c.DateTime → XfrfunCommand
  command_of sortcode request now = record {
    sortcode = sortcode;
    from_account_number = request.from_account_number;
    to_account_number = request.to_account_number;
    amount = round_money request.amount;
    transaction_reference = transaction_reference now;
    transaction_date = c.date_naive now;
    transaction_time = c.wall_clock now;
  }

  -- The final `match`.
  abbrev pub result_of :
      Result CbsaError (Outcome SuccessfulTransfer) → Result CbsaError XfrfunResult
  result_of (ok (Outcome.success t)) = ok (
      succeeded t.from_account.available_balance t.from_account.actual_balance
        t.to_account.available_balance t.to_account.actual_balance)
  result_of (ok (Outcome.failure fail_code message)) = ok (failed fail_code message)
  result_of (err e) = err e

  -- The part behind the validation. `amount <= ZERO` is that zero is not below the amount.
  unfoldable pub transfer_validated :
      Text → XfrfunRequest → c.DateTime → Session → Result CbsaError XfrfunResult × Session
  transfer_validated sortcode request now s =
      if not (c.lt c.decimal_zero request.amount)
      then (ok (failed invalid_amount_code (codes "Please supply an amount greater than zero.")), s)
      else if int_eq request.from_account_number request.to_account_number
      then (
        err (
            abend same_account_abend_code
              (codes "XFRFUN cannot transfer funds to the same account.")),
        s,
      )
      else let (r, s') = transfer_funds (command_of sortcode request now) s in (result_of r, s')

  -- `transfer_with_dependencies`.
  unfoldable pub transfer :
      Text → XfrfunRequest → c.DateTime → Session → Result CbsaError XfrfunResult × Session
  transfer sortcode request now =
      when_valid (validate_sortcode sortcode >> validate_request request)
        (transfer_validated sortcode request now)
