-- ===== src/Service/Inqcust.antt =====
-- `service/inqcust.rs`: the inquiry of a customer, by number, the last one, or one at random. The
-- generator of random numbers is a state with a step; the clock that seeds it is an argument.
pub mod Answers
pub mod Reports
pub mod Random
use cbsa_rust.Prelude.{
  ℕ, zero, suc, ◌+◌, ◌*◌, ◌%◌, ◌^◌, Bool, true, false, not, ◌&&◌, ◌++◌, String, Option, none, some,
  Result, ok, err, map_err, ◌>>◌, if◌then◌else◌, ◌==◌, ltb,
}
use cbsa_rust.Prelude.Int.{ℤ, pos, negsuc, contains, int_eq, ltb_ℤ}
use text.Mathlib.Text.{◌==◌ as str_eq}
use cbsa_rust.Text.{Text, codes}
use cbsa_rust.Text.Decimal.{show_int}
use cbsa_rust.Crates.{Crates}
use cbsa_rust.Domain.Customer.{CustomerDetails}
use cbsa_rust.Error.{CbsaError, validation, show_error}
use cbsa_rust.Db.Session.{Session, branch, pure, execute}
use cbsa_rust.Repository.Inqcust.{find_by_sortcode_and_customer_number, find_last_by_sortcode}
use cbsa_rust.Service.Calls.{when_valid}
use cbsa_rust.Service.Checks.{validate_sortcode}

abbrev pub abend_code : String
abend_code = "CVR1"

abbrev pub not_found_code : String
not_found_code = "1"

abbrev pub random_retry_exhausted_code : String
random_retry_exhausted_code = "R"

abbrev pub random_customer_number : ℤ
random_customer_number = pos 0

abbrev pub last_customer_number : ℤ
last_customer_number = pos 9_999_999_999

abbrev pub random_retry_limit : ℕ
random_retry_limit = 1000

pub record InqcustRequest : Type 0 where
  pub customer_number : ℤ

-- `RandomCustomerNumberGenerator`: the state of a generator and `next_customer_number`.
pub record Generator : Type 1 where
  pub State : Type 0
  pub next_customer_number : ℤ → State → ℤ × State

-- The new state of `SystemRandomCustomerNumberGenerator`, in 64 bits.
unfoldable pub next_state : ℕ → ℕ
next_state state = (state * 6_364_136_223_846_793_005 % 2 ^ 64 + 1) % 2 ^ 64

-- `u64::try_from(highest).unwrap_or(1)`
abbrev pub highest_of : ℤ → ℕ
highest_of (pos n) = n
highest_of (negsuc n) = 1

-- `i64::try_from(candidate).unwrap_or(1)`
abbrev pub candidate_of : ℕ → ℤ
candidate_of n = if ltb n (2 ^ 63) then pos n else pos 1

unfoldable pub system_next : ℤ → ℕ → ℤ × ℕ
system_next highest state =
    let state' = next_state state in (candidate_of (state' % highest_of highest + 1), state')

abbrev pub system_generator : Generator
system_generator = record { State = ℕ; next_customer_number = system_next }

module _ ⦃c : Crates⦄ where
  pub record InqcustResult : Type 0 where
    pub customer : Option CustomerDetails
    pub fail_code : String
    pub message : Option Text

  -- `InqcustResult::success`.
  abbrev pub succeeded : CustomerDetails → InqcustResult
  succeeded customer = record { customer = some customer; fail_code = "0"; message = none }

  -- `InqcustResult::failure`.
  abbrev pub failed : String → Text → InqcustResult
  failed fail_code message = record {
    customer = none;
    fail_code = fail_code;
    message = some message;
  }

  unfoldable pub inquiry_success : InqcustResult → Bool
  inquiry_success r = elim r.customer [ none ↦ false | some _ ↦ true ]

  unfoldable pub is_not_found_failure : InqcustResult → Bool
  is_not_found_failure r = not (inquiry_success r) && str_eq r.fail_code not_found_code

  unfoldable pub is_random_retry_exhausted_failure : InqcustResult → Bool
  is_random_retry_exhausted_failure r =
      not (inquiry_success r) && str_eq r.fail_code random_retry_exhausted_code

  unfoldable pub read_failure : CbsaError → CbsaError
  read_failure e =
      CbsaError.abend abend_code
        (codes "INQCUST failed to read the customer data: " ++ show_error e)

  unfoldable pub validate_customer_number : ℤ → Result CbsaError (Unit {0})
  validate_customer_number customer_number =
      if contains (pos 0) last_customer_number customer_number
      then ok tt
      else err (validation (codes "customer_number must be between 0 and 9999999999"))

  unfoldable pub load_customer :
      Text → ℤ → Session → Result CbsaError (Option CustomerDetails) × Session
  load_customer sortcode number s =
      let (r, s') = find_by_sortcode_and_customer_number sortcode number s in
      (map_err read_failure r, s')

  unfoldable pub load_last_customer :
      Text → Session → Result CbsaError (Option CustomerDetails) × Session
  load_last_customer sortcode s =
      let (r, s') = find_last_by_sortcode sortcode s in (map_err read_failure r, s')

  -- The `match` on what was loaded, with the message of a failure.
  abbrev pub answer :
      Text → Result CbsaError (Option CustomerDetails) → Result CbsaError InqcustResult
  answer missing (ok (some customer)) = ok (succeeded customer)
  answer missing (ok none) = ok (failed not_found_code missing)
  answer missing (err e) = err e

  abbrev pub no_customers_exist : Text
  no_customers_exist = codes "No customers exist."

  unfoldable pub find_last_customer : Text → Session → Result CbsaError InqcustResult × Session
  find_last_customer sortcode s =
      let (r, s') = load_last_customer sortcode s in (answer no_customers_exist r, s')

module _ ⦃c : Crates⦄ (gen : Generator) where
  -- The loop with `left` rounds to go.
  unfoldable pub draw :
      ℕ → Text → ℤ → gen.State → Session → Result CbsaError InqcustResult × Session
  draw zero sortcode highest state s = (
    ok (
        failed random_retry_exhausted_code
          (codes "Unable to find a random customer after exhausting retry attempts.")),
    s,
  )
  draw (suc left) sortcode highest state s =
      let (candidate, state') = gen.next_customer_number highest state in
      let (r, s') = load_customer sortcode candidate s in
      elim r [
        | ok (some customer) ↦ (ok (succeeded customer), s')
        | ok none ↦ draw left sortcode highest state' s'
        | err e ↦ (err e, s')
      ]

  -- The `let … else` on the last customer, and the guard.
  abbrev pub from_highest :
      Text
      → gen.State
      → Result CbsaError (Option CustomerDetails)
      → Session
      → Result CbsaError InqcustResult × Session
  from_highest sortcode state (ok (some customer)) s =
      if ltb_ℤ customer.customer_number (pos 1)
      then (ok (failed not_found_code no_customers_exist), s)
      else draw random_retry_limit sortcode customer.customer_number state s
  from_highest sortcode state (ok none) s = (ok (failed not_found_code no_customers_exist), s)
  from_highest sortcode state (err e) s = (err e, s)

  unfoldable pub find_random_customer :
      Text → gen.State → Session → Result CbsaError InqcustResult × Session
  find_random_customer sortcode state s =
      let (r, s') = load_last_customer sortcode s in from_highest sortcode state r s'

  -- `inquire` with a connection.
  unfoldable pub inquire_with :
      Text → ℤ → gen.State → Session → Result CbsaError InqcustResult × Session
  inquire_with sortcode number state s =
      if int_eq number random_customer_number
      then find_random_customer sortcode state s
      else if int_eq number last_customer_number
      then find_last_customer sortcode s
      else (let (r, s') = load_customer sortcode number s in
          (answer (codes "Customer number " ++ (show_int number ++ codes " was not found.")) r, s'))

  -- `acquire`, which may fail, and the rest.
  unfoldable pub inquire_valid :
      Text → ℤ → gen.State → Session → Result CbsaError InqcustResult × Session
  inquire_valid sortcode number state s =
      branch (execute (pure tt) s) (λ _ s'. inquire_with sortcode number state s')
        (λ e s'. (err (read_failure (CbsaError.database e)), s'))

  unfoldable pub inquire :
      Text → InqcustRequest → gen.State → Session → Result CbsaError InqcustResult × Session
  inquire sortcode request state =
      when_valid (validate_sortcode sortcode >> validate_customer_number request.customer_number)
        (inquire_valid sortcode request.customer_number state)
