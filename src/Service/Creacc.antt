-- ===== src/Service/Creacc.antt =====
-- `service/creacc.rs`: the creation of an account, behind the inquiries of the customer and of the
-- customer's accounts. The clock and the seed of the generator are arguments.
pub mod Capacity
use cbsa_rust.Prelude.{
  ℕ, Bool, true, false, not, ◌||◌, ◌++◌, String, Option, none, some, List, [], ◌∷◌, Result, ok, err,
  ◌>>=◌, ◌>>◌, if◌then◌else◌, ltb, length,
}
use cbsa_rust.Prelude.Int.{ℤ, pos, neg_ℤ, contains, int_eq}
use text.Mathlib.Text.{◌==◌ as str_eq}
use cbsa_rust.Text.{Text, codes, trim, is_empty}
use cbsa_rust.Text.Decimal.{show_int}
use cbsa_rust.Crates.{Crates}
use cbsa_rust.Domain.Account.{AccountDetails, round_money}
use cbsa_rust.Error.{CbsaError}
use cbsa_rust.Db.Session.{Session}
use cbsa_rust.Repository.Frame.{Outcome}
use cbsa_rust.Repository.Creacc.{CreateAccountCommand, create_account}
use cbsa_rust.Service.Checks.{validate_sortcode, transaction_reference}
use cbsa_rust.Service.Checks.Money.{validate_money_range}
use cbsa_rust.Service.Titles.{is_one_of}
use cbsa_rust.Service.Inqcust.{InqcustResult, system_generator}
use cbsa_rust.Service.Inqcust
use cbsa_rust.Service.Inqacccu.{InqacccuResult}
use cbsa_rust.Service.Inqacccu

abbrev pub invalid_account_type_code : String
invalid_account_type_code = "A"

abbrev pub not_found_code : String
not_found_code = "1"

abbrev pub capacity_fail_code : String
capacity_fail_code = "8"

abbrev pub max_accounts_per_customer : ℕ
max_accounts_per_customer = 9

abbrev pub random_customer_number : ℤ
random_customer_number = pos 0

abbrev pub last_customer_number : ℤ
last_customer_number = pos 9_999_999_999

unfoldable pub is_supported_account_type : Text → Bool
is_supported_account_type account_type =
    is_one_of account_type ("ISA" ∷ "MORTGAGE" ∷ "SAVING" ∷ "CURRENT" ∷ "LOAN" ∷ [])

unfoldable pub is_reserved_customer_number : ℤ → Bool
is_reserved_customer_number number =
    int_eq number random_customer_number || int_eq number last_customer_number

module _ ⦃c : Crates⦄ where
  pub record CreaccRequest : Type 0 where
    pub customer_number : ℤ
    pub account_type : Text
    pub interest_rate : c.Decimal
    pub overdraft_limit : c.Decimal
    pub available_balance : c.Decimal
    pub actual_balance : c.Decimal

  abbrev pub min_balance : c.Decimal
  min_balance = c.decimal_new (neg_ℤ (pos 999_999_999_999)) 2

  abbrev pub max_balance : c.Decimal
  max_balance = c.decimal_new (pos 999_999_999_999) 2

  abbrev pub check_balance : c.Decimal → Result Text (Unit {0})
  check_balance balance =
      validate_money_range balance min_balance max_balance
        (codes "balances must be between -9999999999.99 and 9999999999.99")

  -- The four amounts.
  abbrev pub check_amounts : CreaccRequest → Result Text (Unit {0})
  check_amounts r =
      validate_money_range r.interest_rate c.decimal_zero (c.decimal_new (pos 999_999) 2)
        (codes "interest_rate must be between 0.00 and 9999.99")
      >> (validate_money_range r.overdraft_limit c.decimal_zero (c.decimal_new (pos 99_999_999) 0)
            (codes "overdraft_limit must be between 0 and 99999999")
          >> ((if not (c.fract_is_zero r.overdraft_limit)
                then err (codes "overdraft_limit must not include non-zero fractional digits")
                else ok tt)
              >> (check_balance r.available_balance >> check_balance r.actual_balance)))

  -- `CreaccRequest::new`: the fields are given as the record that is to be checked.
  unfoldable pub new : CreaccRequest → Result Text CreaccRequest
  new r =
      let account_type = trim r.account_type in
      if not (contains (pos 0) last_customer_number r.customer_number)
      then err (codes "customer_number must be between 0 and 9999999999")
      else if ltb 8 (length r.account_type)
      then err (codes "account_type must be at most 8 characters")
      else if is_empty account_type
      then err (codes "account_type must not be blank")
      else check_amounts r
        >> ok (record {
          customer_number = r.customer_number;
          account_type = account_type;
          interest_rate = round_money r.interest_rate;
          overdraft_limit = round_money r.overdraft_limit;
          available_balance = round_money r.available_balance;
          actual_balance = round_money r.actual_balance;
        })

  pub record CreaccResult : Type 0 where
    pub account : Option AccountDetails
    pub fail_code : String
    pub message : Option Text

  -- `CreaccResult::success`.
  abbrev pub succeeded : AccountDetails → CreaccResult
  succeeded account = record { account = some account; fail_code = "0"; message = none }

  -- `CreaccResult::failure`.
  abbrev pub failed : String → Text → CreaccResult
  failed fail_code message = record {
    account = none;
    fail_code = fail_code;
    message = some message;
  }

  unfoldable pub creation_success : CreaccResult → Bool
  creation_success r = elim r.account [ none ↦ false | some _ ↦ true ]

  unfoldable pub is_validation_failure : CreaccResult → Bool
  is_validation_failure r = str_eq r.fail_code invalid_account_type_code

  unfoldable pub is_not_found_failure : CreaccResult → Bool
  is_not_found_failure r = str_eq r.fail_code not_found_code

  unfoldable pub is_capacity_failure : CreaccResult → Bool
  is_capacity_failure r = str_eq r.fail_code capacity_fail_code

  unfoldable pub customer_not_found : ℤ → CreaccResult
  customer_not_found number =
      failed not_found_code
        (codes "Customer number " ++ (show_int number ++ codes " was not found."))

  -- The command, with the date 30 days from today, which the source expects to be representable.
  abbrev pub command_of : Text → CreaccRequest → c.Date → c.DateTime → CreateAccountCommand
  command_of sortcode request next_statement_date now = record {
    sortcode = sortcode;
    customer_number = request.customer_number;
    account_type = request.account_type;
    interest_rate = request.interest_rate;
    overdraft_limit = request.overdraft_limit;
    available_balance = request.available_balance;
    actual_balance = request.actual_balance;
    opened = c.date_naive now;
    last_statement_date = c.date_naive now;
    next_statement_date = next_statement_date;
    transaction_reference = transaction_reference now;
    transaction_date = c.date_naive now;
    transaction_time = c.wall_clock now;
  }

  -- A call returns a result or an error, or it panics in an `expect`.
  pub data Ending : Type 0 where
    returned : Result CbsaError CreaccResult → Ending
    panicked : Ending

  -- The final `match`.
  abbrev pub result_of : Result CbsaError (Outcome AccountDetails) → Ending
  result_of (ok (Outcome.success account)) = Ending.returned (ok (succeeded account))
  result_of (ok (Outcome.failure fail_code message)) =
      Ending.returned (ok (failed fail_code message))
  result_of (err e) = Ending.returned (err e)

  abbrev pub open_account :
      Text → CreaccRequest → Option c.Date → c.DateTime → Session → Ending × Session
  open_account sortcode request none now s = (Ending.panicked, s)
  open_account sortcode request (some date) now s =
      let (r, s') = create_account (command_of sortcode request date now) s in (result_of r, s')

  -- What follows the inquiry of the accounts.
  unfoldable pub with_count :
      Text → CreaccRequest → c.DateTime → InqacccuResult → Session → Ending × Session
  with_count sortcode request now counted s =
      if not counted.inquiry_success
      then (Ending.returned (ok (customer_not_found request.customer_number)), s)
      else if ltb max_accounts_per_customer (length counted.accounts)
      then (
        Ending.returned (
            ok (
              failed capacity_fail_code (
                codes "Customer number "
                ++ (show_int request.customer_number
                    ++ codes " already has the maximum number of accounts.")))),
        s,
      )
      else open_account sortcode request (c.add_days (c.date_naive now) 30) now s

  abbrev pub after_count :
      Text
      → CreaccRequest
      → c.DateTime
      → Result CbsaError (Option InqacccuResult)
      → Session
      → Ending × Session
  after_count sortcode request now (ok (some counted)) s = with_count sortcode request now counted s
  after_count sortcode request now (ok none) s = (Ending.panicked, s)
  after_count sortcode request now (err e) s = (Ending.returned (err e), s)

  -- `message().unwrap_or("Customer was not found.")`
  abbrev pub message_or : Option Text → Text
  message_or none = codes "Customer was not found."
  message_or (some message) = message

  -- What follows the inquiry of the customer.
  unfoldable pub after_customer :
      Text
      → CreaccRequest
      → c.DateTime
      → Result CbsaError InqcustResult
      → Session
      → Ending × Session
  after_customer sortcode request now (err e) s = (Ending.returned (err e), s)
  after_customer sortcode request now (ok found) s =
      if not (Inqcust.inquiry_success found)
      then (Ending.returned (ok (failed not_found_code (message_or found.message))), s)
      else (let (r, s') =
            Inqacccu.inquire sortcode (record { customer_number = request.customer_number }) s in
          after_count sortcode request now r s')

  -- `create_with_clock` after the check of the sortcode.
  unfoldable pub create_checked : Text → CreaccRequest → c.DateTime → ℕ → Session → Ending × Session
  create_checked sortcode request now seed s =
      if not (is_supported_account_type request.account_type)
      then (
        Ending.returned (
            ok (
              failed invalid_account_type_code
                (codes "Account type must be ISA, MORTGAGE, SAVING, CURRENT, or LOAN."))),
        s,
      )
      else if is_reserved_customer_number request.customer_number
      then (Ending.returned (ok (customer_not_found request.customer_number)), s)
      else (let (r, s') =
            Inqcust.inquire system_generator sortcode
              (record { customer_number = request.customer_number }) seed s in
          after_customer sortcode request now r s')

  -- `create_with_clock`.
  unfoldable pub create : Text → CreaccRequest → c.DateTime → ℕ → Session → Ending × Session
  create sortcode request now seed s = elim (validate_sortcode sortcode) [
    | ok _ ↦ create_checked sortcode request now seed s
    | err e ↦ (Ending.returned (err e), s)
  ]
