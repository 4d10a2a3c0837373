-- ===== src/Web/Inqacc.antt =====
-- `web/inqacc.rs`: the handler of the inquiry of an account.
pub mod Parsed
pub mod Responds
use cbsa_rust.Prelude.{String, Option, none, some, Result, ok, err, ◌>>=◌, if◌then◌else◌}
use cbsa_rust.Prelude.Int.{ℤ, pos}
use cbsa_rust.Text.{Text, codes}
use cbsa_rust.Crates.{Crates}
use cbsa_rust.Domain.Account.{AccountDetails}
use cbsa_rust.Error.{CbsaError, Response, ProblemDetail}
use cbsa_rust.Db.Session.{Session}
use cbsa_rust.Service.Inqacc as Service
use cbsa_rust.Service.Inqacc.{InqaccRequest, InqaccResult, inquiry_success, is_not_found_failure}
use cbsa_rust.Web.Http.{
  HttpReply, json, problem, message_or, to_reply, parse_number, DateDto, from_date, date_or_zero,
}

abbrev pub eye_catcher : String
eye_catcher = "ACCT"

module _ ⦃c : Crates⦄ where
  -- `InqaccRequestDto::try_from`, and its conversion.
  unfoldable pub try_from : Text → Result CbsaError InqaccRequest
  try_from account_number =
      parse_number "account_number" (pos 0) (pos 99_999_999)
        (codes "account_number must be a base-10 integer between 0 and 99999999")
        (codes "account_number must be between 0 and 99999999") account_number
      >>= λ n. ok (record { account_number = n })

  pub record InqaccResponseDto : Type 0 where
    pub eye : String
    pub customer_number : ℤ
    pub sortcode : Text
    pub account_number : ℤ
    pub account_type : Text
    pub interest_rate : Text
    pub opened : DateDto
    pub overdraft : Text
    pub last_statement_date : DateDto
    pub next_statement_date : DateDto
    pub available_balance : Text
    pub actual_balance : Text
    pub inquiry_success : String
    pub pcb1_pointer : String

  abbrev pub decimal_value : c.Decimal → Text
  decimal_value value = c.to_string value

  unfoldable pub from_account : AccountDetails → InqaccResponseDto
  from_account a = record {
    eye = eye_catcher;
    customer_number = a.customer_number;
    sortcode = a.sortcode;
    account_number = a.account_number;
    account_type = a.account_type;
    interest_rate = decimal_value a.interest_rate;
    opened = from_date a.opened;
    overdraft = decimal_value a.overdraft_limit;
    last_statement_date = date_or_zero a.last_statement_date;
    next_statement_date = date_or_zero a.next_statement_date;
    available_balance = decimal_value a.available_balance;
    actual_balance = decimal_value a.actual_balance;
    inquiry_success = "Y";
    pcb1_pointer = "";
  }

  -- `from_result`, which expects an account.
  abbrev pub from_result : Option AccountDetails → HttpReply InqaccResponseDto
  from_result none = HttpReply.panicked
  from_result (some account) = HttpReply.sent (json (from_account account))

  unfoldable pub failure_response : InqaccResult → Response ProblemDetail
  failure_response r =
      let detail = message_or (codes "Account inquiry failed.") r.message in
      if is_not_found_failure r
      then problem 404 (codes "Account not found") detail r.fail_code
      else problem 500 (codes "Account inquiry failed") detail r.fail_code

  unfoldable pub respond : InqaccResult → HttpReply InqaccResponseDto
  respond r =
      if inquiry_success r then from_result r.account else HttpReply.refused (failure_response r)

  -- The handler, with the configured sortcode and the path parameter.
  unfoldable pub inquire : Text → Text → Session → HttpReply InqaccResponseDto × Session
  inquire sortcode account_number s = elim (try_from account_number) [
    | err e ↦ (to_reply (err e), s)
    | ok request ↦
        let (r, s') = Service.inquire sortcode request s in
        (to_reply (r >>= λ a. ok (respond a)), s')
  ]
