-- ===== src/Web/Inqacccu.antt =====
-- `web/inqacccu.rs`: the handler of the inquiry of the accounts of a customer.
use cbsa_rust.Prelude.{String, Option, none, some, List, map, Result, ok, err, ◌>>=◌, if◌then◌else◌}
use cbsa_rust.Prelude.Int.{ℤ, pos}
use cbsa_rust.Text.{Text, codes}
use cbsa_rust.Crates.{Crates}
use cbsa_rust.Domain.Account.{AccountDetails}
use cbsa_rust.Error.{CbsaError, Response, ProblemDetail}
use cbsa_rust.Db.Session.{Session}
use cbsa_rust.Service.Inqacccu as Service
use cbsa_rust.Service.Inqacccu.{InqacccuRequest, InqacccuResult, is_not_found_failure}
use cbsa_rust.Web.Http.{
  HttpReply, json, problem, message_or, to_reply, parse_number, DateDto, from_date, date_or_zero,
}

abbrev pub eye_catcher : String
eye_catcher = "ACCT"

module _ ⦃c : Crates⦄ where
  -- `InqacccuRequestDto::try_from`, and its conversion.
  unfoldable pub try_from : Text → Result CbsaError InqacccuRequest
  try_from customer_number =
      parse_number "customer_number" (pos 0) (pos 9_999_999_999)
        (codes "customer_number must be a base-10 integer between 0 and 9999999999")
        (codes "customer_number must be between 0 and 9999999999") customer_number
      >>= λ n. ok (record { customer_number = n })

  pub record InqacccuAccountDto : Type 0 where
    pub eye : String
    pub customer_number : ℤ
    pub sortcode : Text
    pub account_number : ℤ
    pub account_type : Text
    pub interest_rate : Text
    pub opened : DateDto
    pub overdraft : Text
    pub last_statement_date : DateDto
    pub next_statement_date : DateDto
    pub available_balance : Text
    pub actual_balance : Text

  pub record InqacccuResponseDto : Type 0 where
    pub customer_number : ℤ
    pub inquiry_success : String
    pub fail_code : String
    pub customer_found : String
    pub pcb_pointer : String
    pub account_details : List InqacccuAccountDto

  abbrev pub decimal_value : c.Decimal → Text
  decimal_value value = c.to_string value

  abbrev pub account_dto : AccountDetails → InqacccuAccountDto
  account_dto a = record {
    eye = eye_catcher;
    customer_number = a.customer_number;
    sortcode = a.sortcode;
    account_number = a.account_number;
    account_type = a.account_type;
    interest_rate = decimal_value a.interest_rate;
    opened = from_date a.opened;
    overdraft = decimal_value a.overdraft_limit;
    last_statement_date = date_or_zero a.last_statement_date;
    next_statement_date = date_or_zero a.next_statement_date;
    available_balance = decimal_value a.available_balance;
    actual_balance = decimal_value a.actual_balance;
  }

  unfoldable pub from_result : InqacccuResult → InqacccuResponseDto
  from_result r = record {
    customer_number = r.customer_number;
    inquiry_success = "Y";
    fail_code = r.fail_code;
    customer_found = if r.customer_found then "Y" else "N";
    pcb_pointer = "";
    account_details = map account_dto r.accounts;
  }

  unfoldable pub failure_response : InqacccuResult → Response ProblemDetail
  failure_response r =
      let detail = message_or (codes "Customer account inquiry failed.") r.message in
      if is_not_found_failure r
      then problem 404 (codes "Customer not found") detail r.fail_code
      else problem 500 (codes "Customer account inquiry failed") detail r.fail_code

  -- A service that panicked leaves no result.
  unfoldable pub respond : Option InqacccuResult → HttpReply InqacccuResponseDto
  respond none = HttpReply.panicked
  respond (some r) =
      if r.inquiry_success
      then HttpReply.sent (json (from_result r))
      else HttpReply.refused (failure_response r)

  -- The handler, with the configured sortcode and the path parameter.
  unfoldable pub inquire : Text → Text → Session → HttpReply InqacccuResponseDto × Session
  inquire sortcode customer_number s = elim (try_from customer_number) [
    | err e ↦ (to_reply (err e), s)
    | ok request ↦
        let (r, s') = Service.inquire sortcode request s in
        (to_reply (r >>= λ a. ok (respond a)), s')
  ]
