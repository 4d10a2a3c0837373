-- ===== src/Service/Inqacccu.antt =====
-- `service/inqacccu.rs`: the inquiry of the accounts of a customer.
pub mod Answers
pub mod Reports
use cbsa_rust.Prelude.{
  ℕ, Bool, true, false, not, ◌&&◌, ◌||◌, ◌++◌, String, Option, none, some, List, [], ◌∷◌, Result,
  ok, err, map_err, ◌>>=◌, ◌>>◌, if◌then◌else◌,
}
use cbsa_rust.Prelude.Int.{ℤ, pos, contains, int_eq}
use text.Mathlib.Text.{◌==◌ as str_eq}
use cbsa_rust.Text.{Text, codes, trim, is_empty}
use cbsa_rust.Text.Decimal.{show_int}
use cbsa_rust.Crates.{Crates}
use cbsa_rust.Domain.Account
use cbsa_rust.Domain.Account.{AccountDetails}
use cbsa_rust.Error.{CbsaError, validation, retry_exhausted_abend_code}
use cbsa_rust.Db.Tables.{AccountRow}
use cbsa_rust.Db.Session.{Session, Stmt, branch, pure, execute}
use cbsa_rust.Db.Retry.{is_serialization_failure, with_retry}
use cbsa_rust.Repository.Read.{collect}
use cbsa_rust.Repository.Inqacccu.{customer_exists, find_by_sortcode_and_customer_number}
use cbsa_rust.Service.Calls.{when_valid}
use cbsa_rust.Service.Checks.{validate_sortcode}
use cbsa_rust.Service.Inqacc.{plain_fields}

abbrev pub read_failure_abend_code : String
read_failure_abend_code = "HACU"

abbrev pub not_found_code : String
not_found_code = "1"

abbrev pub random_customer_number : ℤ
random_customer_number = pos 0

abbrev pub last_customer_number : ℤ
last_customer_number = pos 9_999_999_999

pub record InqacccuRequest : Type 0 where
  pub customer_number : ℤ

abbrev pub has_none {ℓ} : {A : Type ℓ} → List A → Bool
has_none [] = true
has_none (_ ∷ _) = false

abbrev pub is_given : Option Text → Bool
is_given none = false
is_given (some _) = true

-- `message.as_deref().is_none_or(|message| message.trim().is_empty())`
abbrev pub is_blank : Option Text → Bool
is_blank none = true
is_blank (some message) = is_empty (trim message)

module _ ⦃c : Crates⦄ where
  pub record InqacccuResult : Type 0 where
    pub inquiry_success : Bool
    pub customer_number : ℤ
    pub customer_found : Bool
    pub accounts : List AccountDetails
    pub fail_code : String
    pub message : Option Text

  -- `InqacccuResult::new`: the fields are given as the record that is to be checked.
  unfoldable pub new : InqacccuResult → Result Text InqacccuResult
  new r =
      if r.inquiry_success && not (str_eq r.fail_code "0")
      then err (codes "Successful results must use fail code 0")
      else if r.inquiry_success && not r.customer_found
      then err (codes "Successful results must mark the customer as found")
      else if r.inquiry_success && is_given r.message
      then err (codes "Successful results must not include a failure message")
      else if not r.inquiry_success && not (has_none r.accounts)
      then err (codes "Failure results must not include account data")
      else if not r.inquiry_success && is_blank r.message
      then err (codes "Failure results must include a non-blank message")
      else ok r

  -- What `InqacccuResult::success` hands to `new`.
  abbrev pub success_fields : ℤ → List AccountDetails → InqacccuResult
  success_fields number accounts = record {
    inquiry_success = true;
    customer_number = number;
    customer_found = true;
    accounts = accounts;
    fail_code = "0";
    message = none;
  }

  -- What `InqacccuResult::failure` hands to `new`.
  abbrev pub failure_fields : String → ℤ → Bool → Text → InqacccuResult
  failure_fields fail_code number customer_found message = record {
    inquiry_success = false;
    customer_number = number;
    customer_found = customer_found;
    accounts = [];
    fail_code = fail_code;
    message = some message;
  }

  unfoldable pub is_not_found_failure : InqacccuResult → Bool
  is_not_found_failure r = not r.inquiry_success && str_eq r.fail_code not_found_code

  pub record LoadedCustomerAccounts : Type 0 where
    pub customer_exists : Bool
    pub account_rows : List AccountRow

  abbrev pub customer_not_found_rows : LoadedCustomerAccounts
  customer_not_found_rows = record { customer_exists = false; account_rows = [] }

  abbrev pub customer_found_rows : List AccountRow → LoadedCustomerAccounts
  customer_found_rows rows = record { customer_exists = true; account_rows = rows }

  unfoldable pub map_account_row : AccountRow → Result CbsaError AccountDetails
  map_account_row row =
      map_err
        (λ message.
          CbsaError.abend read_failure_abend_code
            (codes "INQACCCU loaded invalid account data: " ++ message))
        (Account.new (plain_fields row))

  unfoldable pub read_failure : c.SqlxError → CbsaError
  read_failure e =
      if is_serialization_failure e
      then CbsaError.abend retry_exhausted_abend_code (
          codes "INQACCCU exhausted serialization retries while reading customer accounts: "
          ++ c.display e)
      else CbsaError.abend read_failure_abend_code
          (codes "INQACCCU failed to read the customer accounts: " ++ c.display e)

  unfoldable pub validate_customer_number : ℤ → Result CbsaError (Unit {0})
  validate_customer_number customer_number =
      if contains (pos 0) last_customer_number customer_number
      then ok tt
      else err (validation (codes "customer_number must be between 0 and 9999999999"))

  unfoldable pub is_reserved_customer_number : ℤ → Bool
  is_reserved_customer_number number =
      int_eq number random_customer_number || int_eq number last_customer_number

  -- `commit`, and the value of the block.
  abbrev pub committed : LoadedCustomerAccounts → Stmt LoadedCustomerAccounts
  committed loaded s = branch (execute (pure tt) s) (λ _ s'. (ok loaded, s')) (λ e s'. (err e, s'))

  -- The closure that is retried; it writes nothing, so a dropped transaction leaves the same tables.
  unfoldable pub load_once : Text → ℤ → Stmt LoadedCustomerAccounts
  load_once sortcode number s =
      branch (execute (pure tt) s)
        (λ _ s1.
          branch (customer_exists sortcode number s1)
            (λ exists s2.
              if exists
              then branch (find_by_sortcode_and_customer_number sortcode number s2)
                  (λ rows s3. committed (customer_found_rows rows) s3) (λ e s3. (err e, s3))
              else committed customer_not_found_rows s2)
            (λ e s2. (err e, s2)))
        (λ e s1. (err e, s1))

  abbrev pub not_found_message : ℤ → Text
  not_found_message number =
      codes "Customer number " ++ (show_int number ++ codes " was not found.")

  -- `expect` on what `InqacccuResult::new` returned.
  abbrev pub expected : Result Text InqacccuResult → Option InqacccuResult
  expected (ok r) = some r
  expected (err message) = none

  unfoldable pub customer_not_found : ℤ → Option InqacccuResult
  customer_not_found number =
      expected (new (failure_fields not_found_code number false (not_found_message number)))

  unfoldable pub customer_accounts : ℤ → List AccountDetails → Option InqacccuResult
  customer_accounts number accounts = expected (new (success_fields number accounts))

  -- The rest of `inquire` after the load; `none` is a panic of `expect`.
  unfoldable pub answer_loaded :
      ℤ → LoadedCustomerAccounts → Result CbsaError (Option InqacccuResult)
  answer_loaded number loaded =
      if loaded.customer_exists
      then (collect map_account_row loaded.account_rows >>= λ accounts.
          ok (customer_accounts number accounts))
      else ok (customer_not_found number)

  unfoldable pub inquire_valid :
      Text → ℤ → Session → Result CbsaError (Option InqacccuResult) × Session
  inquire_valid sortcode number s =
      if is_reserved_customer_number number
      then (ok (customer_not_found number), s)
      else (let (r, s') = with_retry (load_once sortcode number) s in
          (map_err read_failure r >>= answer_loaded number, s'))

  unfoldable pub inquire :
      Text → InqacccuRequest → Session → Result CbsaError (Option InqacccuResult) × Session
  inquire sortcode request =
      when_valid (validate_sortcode sortcode >> validate_customer_number request.customer_number)
        (inquire_valid sortcode request.customer_number)
