-- ===== src/Repository/Delacc.antt =====
-- `repository/delacc.rs`: the deletion of an account, in one transaction.
pub mod Effect
pub mod Again
use cbsa_rust.Prelude.{
  ℕ, Bool, true, false, String, Option, none, some, ◌++◌, ◌==◌, Result, ok, err, map_err, map_ok,
  if◌then◌else◌,
}
use cbsa_rust.Prelude.Int.{ℤ}
use cbsa_rust.Text.{Text, codes, pad_or_truncate}
use cbsa_rust.Text.Decimal.{show_int, format_int}
use cbsa_rust.Crates.{Crates}
use cbsa_rust.Domain.TranType.{as_str}
use cbsa_rust.Domain.TranType
use cbsa_rust.Domain.Account.{AccountDetails}
use cbsa_rust.Error.{CbsaError, show_error, proctran_abend_code}
use cbsa_rust.Db.Tables.{AccountRow, ProctranRow}
use cbsa_rust.Db.Session.{Session, Stmt, pure, branch}
use cbsa_rust.Db.Retry.{is_serialization_failure, on_error}
use cbsa_rust.Db.Sql.{select_account, insert_proctran_row}
use cbsa_rust.Db.Sql.Removal.{delete_row}
use cbsa_rust.Repository.Frame.{OnceOutcome, success, failure, abend, Outcome, run_transaction}
use cbsa_rust.Repository.Account.{into_account}

abbrev pub not_found_code : String
not_found_code = "1"

abbrev pub delete_failure_code : String
delete_failure_code = "3"

abbrev pub read_abend_code : String
read_abend_code = "HRAC"

abbrev retry_exhausted_message : Text
retry_exhausted_message = codes "DELACC aborted after exhausting Cockroach serialization retries."

module _ ⦃c : Crates⦄ where
  pub record DeleteAccountCommand : Type 0 where
    pub sortcode : Text
    pub account_number : ℤ
    pub transaction_reference : ℤ
    pub transaction_date : c.Date
    pub transaction_time : c.Time

  -- `TryFrom<AccountRow> for AccountDetails`.
  unfoldable pub try_from : AccountRow → Result CbsaError AccountDetails
  try_from row =
      map_err
        (λ message.
          CbsaError.abend read_abend_code (codes "DELACC loaded invalid account data: " ++ message))
        (into_account row)

  -- `row.map(TryInto::try_into).transpose()`.
  abbrev pub transpose : Option AccountRow → Result CbsaError (Option AccountDetails)
  transpose none = ok none
  transpose (some row) = map_ok some (try_from row)

  unfoldable pub load_account_for_update :
      Text → ℤ → Session → Result CbsaError (Option AccountDetails) × Session
  load_account_for_update sortcode number s =
      branch (select_account sortcode number s) (λ row s'. (transpose row, s'))
        (λ e s'. (err (CbsaError.database e), s'))

  unfoldable pub delete_account_row : Text → ℤ → Stmt ℕ
  delete_account_row sortcode number = delete_row sortcode number

  unfoldable pub optional_cobol_date : Option c.Date → Text
  optional_cobol_date none = codes "00000000"
  optional_cobol_date (some date) = c.format_ddmmyyyy date

  unfoldable pub proctran_description : AccountDetails → Text
  proctran_description account =
      format_int 10 account.customer_number
      ++ (pad_or_truncate account.account_type 8
          ++ (optional_cobol_date account.last_statement_date
              ++ (optional_cobol_date account.next_statement_date ++ codes "DELETE")))

  abbrev pub audit_row : DeleteAccountCommand → AccountDetails → ProctranRow
  audit_row command account = record {
    sortcode = account.sortcode;
    counter = 0;
    logical_delete = false;
    tran_date = command.transaction_date;
    tran_time = command.transaction_time;
    tran_ref = command.transaction_reference;
    tran_type = codes (as_str TranType.account_delete);
    description = proctran_description account;
    amount = account.actual_balance;
  }

  unfoldable pub insert_proctran : DeleteAccountCommand → AccountDetails → Stmt (Unit {0})
  insert_proctran command account = insert_proctran_row (audit_row command account)

  abbrev pub not_deleted : DeleteAccountCommand → OnceOutcome AccountDetails
  not_deleted command = failure delete_failure_code (
      codes "Account number "
      ++ (show_int command.account_number ++ codes " could not be deleted."))

  -- The delete and the audit row.
  unfoldable pub remove_and_audit :
      DeleteAccountCommand → AccountDetails → Stmt (OnceOutcome AccountDetails)
  remove_and_audit command account =
      on_error (delete_account_row command.sortcode command.account_number)
        (λ e. not_deleted command)
        (λ rows.
          if rows == 1
          then on_error (insert_proctran command account)
              (λ e.
                abend proctran_abend_code
                  (codes "DELACC failed to write the audit trail: " ++ c.display e))
              (λ _. pure (success account))
          else pure (not_deleted command))

  -- The `match` on what `load_account_for_update` returned.
  abbrev pub after_read :
      DeleteAccountCommand
      → Result CbsaError (Option AccountDetails)
      → Stmt (OnceOutcome AccountDetails)
  after_read command (ok (some account)) = remove_and_audit command account
  after_read command (ok none) = pure (
      failure not_found_code
        (codes "Account number " ++ (show_int command.account_number ++ codes " was not found.")))
  after_read command (err (CbsaError.database e)) = λ s. (
    if is_serialization_failure e
        then err e
        else ok (
            abend read_abend_code (
              codes "DELACC failed to read the account data: "
              ++ show_error (CbsaError.database e))),
    s,
  )
  after_read command (err (CbsaError.abend code message)) = pure (abend code message)
  after_read command (err (CbsaError.validation message)) = pure (
      abend read_abend_code (
        codes "DELACC failed to read the account data: "
        ++ show_error (CbsaError.validation message)))

  unfoldable pub delete_account_once : DeleteAccountCommand → Stmt (OnceOutcome AccountDetails)
  delete_account_once command s =
      let (r, s') = load_account_for_update command.sortcode command.account_number s in
      after_read command r s'

  unfoldable pub delete_account :
      DeleteAccountCommand → Session → Result CbsaError (Outcome AccountDetails) × Session
  delete_account command = run_transaction retry_exhausted_message (delete_account_once command)
