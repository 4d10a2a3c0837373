-- ===== src/Service/Inqacc.antt =====
-- `service/inqacc.rs`: the inquiry of an account.
pub mod Finds
pub mod Reports
use cbsa_rust.Prelude.{
  ℕ, Bool, true, false, not, ◌&&◌, ◌++◌, String, Option, none, some, Result, ok, err, map_err,
  ◌>>=◌, ◌>>◌, if◌then◌else◌,
}
use cbsa_rust.Prelude.Int.{ℤ, pos, contains, int_eq}
use text.Mathlib.Text.{◌==◌ as str_eq}
use cbsa_rust.Text.{Text, codes}
use cbsa_rust.Text.Decimal.{show_int}
use cbsa_rust.Crates.{Crates}
use cbsa_rust.Domain.Account
use cbsa_rust.Domain.Account.{AccountDetails}
use cbsa_rust.Error.{CbsaError, validation, retry_exhausted_abend_code}
use cbsa_rust.Db.Tables.{AccountRow}
use cbsa_rust.Db.Session.{Session, Stmt}
use cbsa_rust.Db.Retry.{is_serialization_failure, with_retry}
use cbsa_rust.Repository.Read.{transpose}
use cbsa_rust.Repository.Inqacc.{find_by_sortcode_and_account_number, find_last_by_sortcode}
use cbsa_rust.Service.Calls.{when_valid}
use cbsa_rust.Service.Checks.{validate_sortcode}

abbrev pub exact_lookup_abend_code : String
exact_lookup_abend_code = "HRAC"

abbrev pub last_lookup_abend_code : String
last_lookup_abend_code = "HNCS"

abbrev pub not_found_code : String
not_found_code = "1"

abbrev pub last_account_number : ℤ
last_account_number = pos 99_999_999

pub record InqaccRequest : Type 0 where
  pub account_number : ℤ

module _ ⦃c : Crates⦄ where
  pub record InqaccResult : Type 0 where
    pub account : Option AccountDetails
    pub fail_code : String
    pub message : Option Text

  -- `InqaccResult::success`.
  abbrev pub succeeded : AccountDetails → InqaccResult
  succeeded account = record { account = some account; fail_code = "0"; message = none }

  -- `InqaccResult::failure`.
  abbrev pub failed : String → Text → InqaccResult
  failed fail_code message = record {
    account = none;
    fail_code = fail_code;
    message = some message;
  }

  unfoldable pub inquiry_success : InqaccResult → Bool
  inquiry_success r = elim r.account [ none ↦ false | some _ ↦ true ]

  unfoldable pub is_not_found_failure : InqaccResult → Bool
  is_not_found_failure r = not (inquiry_success r) && str_eq r.fail_code not_found_code

  -- The fields that `map_account_row` hands to `AccountDetails::new`: the type with the spaces at its
  -- end.
  abbrev pub plain_fields : AccountRow → AccountDetails
  plain_fields row = record {
    sortcode = row.sortcode;
    customer_number = row.customer_number;
    account_number = row.account_number;
    account_type = row.account_type;
    interest_rate = row.interest_rate;
    opened = row.opened;
    overdraft_limit = row.overdraft_limit;
    last_statement_date = row.last_stmt_date;
    next_statement_date = row.next_stmt_date;
    available_balance = row.available_balance;
    actual_balance = row.actual_balance;
  }

  unfoldable pub map_account_row : String → AccountRow → Result CbsaError AccountDetails
  map_account_row abend_code row =
      map_err
        (λ message.
          CbsaError.abend abend_code (codes "INQACC loaded invalid account data: " ++ message))
        (Account.new (plain_fields row))

  unfoldable pub read_failure : String → c.SqlxError → CbsaError
  read_failure abend_code e =
      if is_serialization_failure e
      then CbsaError.abend retry_exhausted_abend_code (
          codes "INQACC exhausted serialization retries while reading account data: "
          ++ c.display e)
      else CbsaError.abend abend_code
          (codes "INQACC failed to read the account data: " ++ c.display e)

  unfoldable pub validate_account_number : ℤ → Result CbsaError (Unit {0})
  validate_account_number account_number =
      if contains (pos 0) last_account_number account_number
      then ok tt
      else err (validation (codes "account_number must be between 0 and 99999999"))

  -- What the two loads do with their query.
  abbrev pub load_with :
      Stmt (Option AccountRow)
      → String
      → Session
      → Result CbsaError (Option AccountDetails) × Session
  load_with find abend_code s =
      let (r, s') = with_retry find s in
      (map_err (read_failure abend_code) r >>= transpose (map_account_row abend_code), s')

  unfoldable pub load_account :
      Text → ℤ → Session → Result CbsaError (Option AccountDetails) × Session
  load_account sortcode number =
      load_with (find_by_sortcode_and_account_number sortcode number) exact_lookup_abend_code

  unfoldable pub load_last_account :
      Text → Session → Result CbsaError (Option AccountDetails) × Session
  load_last_account sortcode = load_with (find_last_by_sortcode sortcode) last_lookup_abend_code

  -- The `match` on what was loaded, with the message of a failure.
  abbrev pub answer :
      Text → Result CbsaError (Option AccountDetails) → Result CbsaError InqaccResult
  answer missing (ok (some account)) = ok (succeeded account)
  answer missing (ok none) = ok (failed not_found_code missing)
  answer missing (err e) = err e

  unfoldable pub find_last_account : Text → Session → Result CbsaError InqaccResult × Session
  find_last_account sortcode s =
      let (r, s') = load_last_account sortcode s in (answer (codes "No accounts exist.") r, s')

  -- `inquire` once the request has passed its checks.
  unfoldable pub inquire_valid : Text → ℤ → Session → Result CbsaError InqaccResult × Session
  inquire_valid sortcode number s =
      if int_eq number last_account_number
      then find_last_account sortcode s
      else (let (r, s') = load_account sortcode number s in
          (answer (codes "Account number " ++ (show_int number ++ codes " was not found.")) r, s'))

  unfoldable pub inquire : Text → InqaccRequest → Session → Result CbsaError InqaccResult × Session
  inquire sortcode request =
      when_valid (validate_sortcode sortcode >> validate_account_number request.account_number)
        (inquire_valid sortcode request.account_number)
