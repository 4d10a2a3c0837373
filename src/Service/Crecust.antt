-- ===== src/Service/Crecust.antt =====
-- `service/crecust.rs`: the creation of a customer, with the check of the date of birth and the credit
-- check. The clock, the replies of the credit agencies and the offset of the review date are arguments.
pub mod Credit
pub mod Registers
use cbsa_rust.Prelude.{
  ℕ, ◌%◌, Bool, true, false, not, ◌||◌, String, Option, none, some, List, Result, ok, err, map_err,
  ◌>>=◌, ◌>>◌, if◌then◌else◌, ltb,
}
use cbsa_rust.Prelude.Int.{ℤ, pos, ltb_ℤ, ◌-ℤ◌}
use text.Mathlib.Text.{◌==◌ as str_eq}
use cbsa_rust.Text.{Text, codes}
use cbsa_rust.Text.Decimal.{zero_padded}
use cbsa_rust.Crates.{Crates}
use cbsa_rust.Domain.Customer.{CustomerDetails, CustomerProfile, new_profile}
use cbsa_rust.Error.{CbsaError, validation}
use cbsa_rust.Db.Session.{Session}
use cbsa_rust.Repository.Frame.{Outcome}
use cbsa_rust.Repository.Crecust.{CreateCustomerCommand, create_customer}
use cbsa_rust.Service.Calls.{when_valid, reported}
use cbsa_rust.Service.Checks.{validate_sortcode, transaction_reference}
use cbsa_rust.Service.Titles.{created_title}
use Credit.{Reply, CreditDecision, evaluate_credit}

abbrev pub invalid_title_code : String
invalid_title_code = "T"

abbrev pub date_too_old_code : String
date_too_old_code = "O"

abbrev pub future_date_code : String
future_date_code = "Y"

abbrev pub invalid_date_code : String
invalid_date_code = "Z"

abbrev pub credit_failure_code : String
credit_failure_code = "G"

pub data DateOfBirthParseFailure : Type 0 where
  too_old invalid : DateOfBirthParseFailure

-- `date_of_birth` is a u32.
pub record CrecustRequest : Type 0 where
  pub name : Text
  pub address : Text
  pub date_of_birth : ℕ

module _ ⦃c : Crates⦄ where
  pub record CrecustResult : Type 0 where
    pub customer : Option CustomerDetails
    pub fail_code : String
    pub message : Option Text

  -- `CrecustResult::success`.
  abbrev pub succeeded : CustomerDetails → CrecustResult
  succeeded customer = record { customer = some customer; fail_code = "0"; message = none }

  -- `CrecustResult::failure`.
  abbrev pub failed : String → Text → CrecustResult
  failed fail_code message = record {
    customer = none;
    fail_code = fail_code;
    message = some message;
  }

  unfoldable pub creation_success : CrecustResult → Bool
  creation_success r = elim r.customer [ none ↦ false | some _ ↦ true ]

  unfoldable pub is_validation_failure : CrecustResult → Bool
  is_validation_failure r =
      str_eq r.fail_code invalid_title_code
      || str_eq r.fail_code date_too_old_code
      || str_eq r.fail_code future_date_code
      || str_eq r.fail_code invalid_date_code

  unfoldable pub is_credit_failure : CrecustResult → Bool
  is_credit_failure r = str_eq r.fail_code credit_failure_code

  -- The date that the eight digits stand for, or why there is none.
  abbrev pub parsed : ℕ → Option c.Date → Result DateOfBirthParseFailure c.Date
  parsed raw (some date) = ok date
  parsed raw none = err (if ltb (raw % 10_000) 1601 then too_old else invalid)

  unfoldable pub parse_date_of_birth : ℕ → Result DateOfBirthParseFailure c.Date
  parse_date_of_birth raw = parsed raw (c.parse_ddmmyyyy (zero_padded 8 raw))

  -- The failure that a date of birth leads to, if any.
  unfoldable pub validate_date_of_birth : c.Date → c.Date → Option CrecustResult
  validate_date_of_birth today date_of_birth =
      if ltb_ℤ (c.year date_of_birth) (pos 1601)
      then some (failed date_too_old_code (codes "Date of birth must not be earlier than 1601."))
      else if ltb_ℤ (pos 150) (c.year today -ℤ c.year date_of_birth)
      then some
          (failed date_too_old_code (codes "Date of birth must not be more than 150 years ago."))
      else if c.date_lt today date_of_birth
      then some (failed future_date_code (codes "Date of birth must not be in the future."))
      else none

  abbrev pub command_of :
      Text → CustomerProfile → c.Date → CreditDecision → c.DateTime → CreateCustomerCommand
  command_of sortcode profile date_of_birth decision now = record {
    sortcode = sortcode;
    name = profile.name;
    address = profile.address;
    date_of_birth = date_of_birth;
    credit_score = decision.credit_score;
    credit_score_review_date = decision.review_date;
    transaction_reference = transaction_reference now;
    transaction_date = c.date_naive now;
    transaction_time = c.wall_clock now;
  }

  -- The final `match`.
  abbrev pub result_of : Result CbsaError (Outcome CustomerDetails) → Result CbsaError CrecustResult
  result_of = reported succeeded failed

  -- What the checks before the call of the repository lead to: a result, or a command.
  pub data Checked : Type 0 where
    ends : Result CbsaError CrecustResult → Checked
    goes_on : CreateCustomerCommand → Checked

  abbrev pub check_credit :
      Text → CustomerProfile → c.Date → Option CreditDecision → c.DateTime → Checked
  check_credit sortcode profile date_of_birth none now =
      ends (ok (failed credit_failure_code (codes "Credit check could not be completed.")))
  check_credit sortcode profile date_of_birth (some decision) now =
      goes_on (command_of sortcode profile date_of_birth decision now)

  -- `today` and the failure of `validate_date_of_birth`, if any.
  abbrev pub check_birth :
      Text
      → CustomerProfile
      → c.Date
      → Option CrecustResult
      → Option CreditDecision
      → c.DateTime
      → Checked
  check_birth sortcode profile date_of_birth (some failure) decision now = ends (ok failure)
  check_birth sortcode profile date_of_birth none decision now =
      check_credit sortcode profile date_of_birth decision now

  abbrev pub check_parsed :
      Text
      → CustomerProfile
      → Result DateOfBirthParseFailure c.Date
      → List Reply
      → ℕ
      → c.DateTime
      → Checked
  check_parsed sortcode profile (err too_old) replies offset now =
      ends (ok (failed date_too_old_code (codes "Date of birth must not be earlier than 1601.")))
  check_parsed sortcode profile (err invalid) replies offset now =
      ends (ok (failed invalid_date_code (codes "Date of birth is invalid.")))
  check_parsed sortcode profile (ok date_of_birth) replies offset now =
      let today = c.date_naive now in
      check_birth sortcode profile date_of_birth (validate_date_of_birth today date_of_birth)
        (evaluate_credit replies today offset) now

  unfoldable pub check_profile : Text → CustomerProfile → ℕ → List Reply → ℕ → c.DateTime → Checked
  check_profile sortcode profile raw replies offset now =
      if not (created_title profile.name)
      then ends (ok (failed invalid_title_code (codes "The customer title is invalid.")))
      else check_parsed sortcode profile (parse_date_of_birth raw) replies offset now

  -- Everything that stands before the call of the repository; it touches no table.
  unfoldable pub check : Text → CrecustRequest → List Reply → ℕ → c.DateTime → Checked
  check sortcode request replies offset now =
      elim (validate_sortcode sortcode
        >> map_err validation (new_profile request.name request.address)) [
          | ok profile ↦ check_profile sortcode profile request.date_of_birth replies offset now
          | err e ↦ ends (err e)
        ]

  -- `create_with_dependencies`.
  unfoldable pub create :
      Text
      → CrecustRequest
      → List Reply
      → ℕ
      → c.DateTime
      → Session
      → Result CbsaError CrecustResult × Session
  create sortcode request replies offset now s = elim (check sortcode request replies offset now) [
    | ends r ↦ (r, s)
    | goes_on command ↦ let (r, s') = create_customer command s in (result_of r, s')
  ]
