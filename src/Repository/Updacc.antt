-- ===== src/Repository/Updacc.antt =====
-- `repository/updacc.rs`: the update of an account's type, interest rate and overdraft limit, in one
-- transaction.
pub mod Effect
use cbsa_rust.Prelude.{
  ℕ, Bool, true, false, String, Option, none, some, ◌++◌, ◌==◌, Result, ok, err, map_err,
  if◌then◌else◌,
}
use cbsa_rust.Prelude.Int.{ℤ, pos}
use cbsa_rust.Text.{Text, codes, pad_or_truncate}
use cbsa_rust.Text.Decimal.{digits, show_int, format_int}
use cbsa_rust.Crates.{Crates}
use cbsa_rust.Domain.TranType.{as_str}
use cbsa_rust.Domain.TranType
use cbsa_rust.Domain.Account
use cbsa_rust.Domain.Account.{AccountDetails}
use cbsa_rust.Error.{CbsaError, show_error, proctran_abend_code}
use cbsa_rust.Db.Tables.{AccountRow, ProctranRow}
use cbsa_rust.Db.Session.{Session, Stmt, pure}
use cbsa_rust.Db.Retry.{on_error, is_serialization_failure}
use cbsa_rust.Db.Sql.{find_account, insert_proctran_row}
use cbsa_rust.Db.Sql.Query.{query}
use cbsa_rust.Db.Sql.Terms.{update_terms}
use cbsa_rust.Repository.Frame.{OnceOutcome, success, failure, abend, Outcome, run_transaction}
use cbsa_rust.Repository.Account.{into_account}
use cbsa_rust.Repository.Read.{transpose, load, on_load}

abbrev pub not_found_code : String
not_found_code = "1"

abbrev pub read_abend_code : String
read_abend_code = "HRAC"

abbrev pub update_abend_code : String
update_abend_code = "HUAC"

abbrev retry_exhausted_message : Text
retry_exhausted_message = codes "UPDACC aborted after exhausting Cockroach serialization retries."

module _ ⦃c : Crates⦄ where
  pub record UpdateAccountCommand : Type 0 where
    pub sortcode : Text
    pub account_number : ℤ
    pub account_type : Text
    pub interest_rate : c.Decimal
    pub overdraft_limit : c.Decimal
    pub transaction_reference : ℤ
    pub transaction_date : c.Date
    pub transaction_time : c.Time

  -- `TryFrom<AccountRow> for AccountDetails`.
  unfoldable pub try_from : AccountRow → Result CbsaError AccountDetails
  try_from row =
      map_err
        (λ message.
          CbsaError.abend read_abend_code (codes "UPDACC loaded invalid account data: " ++ message))
        (into_account row)

  unfoldable pub load_account_for_update :
      Text → ℤ → Session → Result CbsaError (Option AccountDetails) × Session
  load_account_for_update sortcode number =
      load (query λ t. find_account sortcode number t.account) (transpose try_from)

  unfoldable pub update_account_row : AccountDetails → Stmt ℕ
  update_account_row account =
      update_terms account.sortcode account.account_number account.account_type
        account.interest_rate account.overdraft_limit

  -- `{:0width$}` of an integer; the source expects one here, and every decimal has one.
  abbrev pub padded : ℕ → Option ℤ → Text
  padded width none = codes ""
  padded width (some n) = format_int width n

  unfoldable pub unsigned_decimal_digits : c.Decimal → ℕ → Text
  unsigned_decimal_digits value width =
      padded width (c.to_i128 (c.mul (c.round_dp 2 value) (c.decimal_new (pos 100) 0)))

  unfoldable pub unsigned_integer_digits : c.Decimal → ℕ → Text
  unsigned_integer_digits value width = padded width (c.to_i128 (c.trunc value))

  unfoldable pub proctran_description : AccountDetails → Text
  proctran_description account =
      format_int 8 account.account_number
      ++ (pad_or_truncate account.account_type 8
          ++ (unsigned_decimal_digits account.interest_rate 6
              ++ (unsigned_integer_digits account.overdraft_limit 8 ++ codes "          ")))

  abbrev pub audit_row : UpdateAccountCommand → AccountDetails → ProctranRow
  audit_row command account = record {
    sortcode = account.sortcode;
    counter = 0;
    logical_delete = false;
    tran_date = command.transaction_date;
    tran_time = command.transaction_time;
    tran_ref = command.transaction_reference;
    tran_type = codes (as_str TranType.account_update);
    description = proctran_description account;
    amount = c.decimal_zero;
  }

  unfoldable pub insert_proctran : UpdateAccountCommand → AccountDetails → Stmt (Unit {0})
  insert_proctran command account = insert_proctran_row (audit_row command account)

  -- What `AccountDetails::new` is given.
  abbrev pub updated_fields : UpdateAccountCommand → AccountDetails → AccountDetails
  updated_fields command existing = record existing {
    account_type = command.account_type;
    interest_rate = command.interest_rate;
    overdraft_limit = command.overdraft_limit;
  }

  -- The update and the audit row.
  unfoldable pub write_update :
      UpdateAccountCommand → Result Text AccountDetails → Stmt (OnceOutcome AccountDetails)
  write_update command (err message) =
      pure
        (abend update_abend_code (codes "UPDACC built invalid updated account data: " ++ message))
  write_update command (ok account) =
      on_error (update_account_row account)
        (λ e.
          abend update_abend_code
            (codes "UPDACC failed to update the account data: " ++ c.display e))
        (λ rows.
          if rows == 1
          then on_error (insert_proctran command account)
              (λ e.
                abend proctran_abend_code
                  (codes "UPDACC failed to write the audit trail: " ++ c.display e))
              (λ _. pure (success account))
          else pure (
              abend update_abend_code
                (codes "UPDACC updated " ++ (digits rows ++ codes " rows instead of 1."))))

  -- The `match` on the account that was read.
  abbrev pub with_account :
      UpdateAccountCommand → Option AccountDetails → Stmt (OnceOutcome AccountDetails)
  with_account command none = pure (
      failure not_found_code
        (codes "Account number " ++ (show_int command.account_number ++ codes " was not found.")))
  with_account command (some existing) =
      write_update command (Account.new (updated_fields command existing))

  -- An abend of the conversion is passed on; any other error is a failed read.
  abbrev pub read_abend : CbsaError → OnceOutcome AccountDetails
  read_abend (CbsaError.abend code message) = abend code message
  read_abend (CbsaError.validation message) = abend read_abend_code (
      codes "UPDACC failed to read the account data: " ++ show_error (CbsaError.validation message))
  read_abend (CbsaError.database e) =
      abend read_abend_code
        (codes "UPDACC failed to read the account data: " ++ show_error (CbsaError.database e))

  unfoldable pub update_account_once : UpdateAccountCommand → Stmt (OnceOutcome AccountDetails)
  update_account_once command =
      on_load (load_account_for_update command.sortcode command.account_number) read_abend
        (with_account command)

  unfoldable pub update_account :
      UpdateAccountCommand → Session → Result CbsaError (Outcome AccountDetails) × Session
  update_account command = run_transaction retry_exhausted_message (update_account_once command)
