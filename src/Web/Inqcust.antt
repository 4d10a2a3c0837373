-- ===== src/Web/Inqcust.antt =====
-- `web/inqcust.rs`: the handler of the inquiry of a customer. The seed of the generator is an argument.
use cbsa_rust.Prelude.{ℕ, String, Option, none, some, Result, ok, err, ◌>>=◌, if◌then◌else◌}
use cbsa_rust.Prelude.Int.{ℤ, pos}
use cbsa_rust.Text.{Text, codes}
use cbsa_rust.Crates.{Crates}
use cbsa_rust.Domain.Customer.{CustomerDetails}
use cbsa_rust.Error.{CbsaError, Response, ProblemDetail}
use cbsa_rust.Db.Session.{Session}
use cbsa_rust.Service.Inqcust as Service
use cbsa_rust.Service.Inqcust.{
  InqcustRequest, InqcustResult, inquiry_success, is_not_found_failure,
  is_random_retry_exhausted_failure, system_generator,
}
use cbsa_rust.Web.Http.{
  HttpReply, json, problem, message_or, to_reply, parse_number, DateDto, from_date, date_or_zero,
}

abbrev pub eye_catcher : String
eye_catcher = "CUST"

module _ ⦃c : Crates⦄ where
  -- `InqcustRequestDto::try_from`, and its conversion.
  unfoldable pub try_from : Text → Result CbsaError InqcustRequest
  try_from customer_number =
      parse_number "customer_number" (pos 0) (pos 9_999_999_999)
        (codes "customer_number must be a base-10 integer between 0 and 9999999999")
        (codes "customer_number must be between 0 and 9999999999") customer_number
      >>= λ n. ok (record { customer_number = n })

  pub record InqcustResponseDto : Type 0 where
    pub eye : String
    pub sortcode : Text
    pub customer_number : ℤ
    pub name : Text
    pub address : Text
    pub date_of_birth : DateDto
    pub credit_score : ℕ
    pub credit_score_review_date : DateDto
    pub inquiry_success : String
    pub fail_code : String
    pub pcb_pointer : String

  unfoldable pub from_customer : CustomerDetails → InqcustResponseDto
  from_customer d = record {
    eye = eye_catcher;
    sortcode = d.sortcode;
    customer_number = d.customer_number;
    name = d.name;
    address = d.address;
    date_of_birth = from_date d.date_of_birth;
    credit_score = d.credit_score;
    credit_score_review_date = date_or_zero d.credit_score_review_date;
    inquiry_success = "Y";
    fail_code = "0";
    pcb_pointer = "";
  }

  -- `from_result`, which expects a customer.
  abbrev pub from_result : Option CustomerDetails → HttpReply InqcustResponseDto
  from_result none = HttpReply.panicked
  from_result (some customer) = HttpReply.sent (json (from_customer customer))

  unfoldable pub failure_response : InqcustResult → Response ProblemDetail
  failure_response r =
      let detail = message_or (codes "Customer inquiry failed.") r.message in
      if is_not_found_failure r
      then problem 404 (codes "Customer not found") detail r.fail_code
      else if is_random_retry_exhausted_failure r
      then problem 503 (codes "Customer inquiry retry exhausted") detail r.fail_code
      else problem 500 (codes "Customer inquiry failed") detail r.fail_code

  unfoldable pub respond : InqcustResult → HttpReply InqcustResponseDto
  respond r =
      if inquiry_success r then from_result r.customer else HttpReply.refused (failure_response r)

  -- The handler, with the configured sortcode, the path parameter and the seed.
  unfoldable pub inquire : Text → Text → ℕ → Session → HttpReply InqcustResponseDto × Session
  inquire sortcode customer_number seed s = elim (try_from customer_number) [
    | err e ↦ (to_reply (err e), s)
    | ok request ↦
        let (r, s') = Service.inquire system_generator sortcode request seed s in
        (to_reply (r >>= λ a. ok (respond a)), s')
  ]
