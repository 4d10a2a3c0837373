-- ===== src/Repository/Dbcrfun.antt =====
-- `repository/dbcrfun.rs`: a debit or credit of one account, in one transaction.
pub mod Effect
pub mod Money
pub mod Payments
pub mod Complete
use cbsa_rust.Prelude.{
  ℕ, ◌-◌, Bool, true, false, ◌&&◌, ◌||◌, String, Option, none, some, ◌++◌, Result, ok, err, map_err,
  map_ok, ◌==◌, if◌then◌else◌, length, replicate,
}
use cbsa_rust.Prelude.Int.{ℤ, pos, int_eq}
use cbsa_rust.Text.{Text, codes, pad_or_truncate, trim_end, text_eq}
use cbsa_rust.Text.Decimal.{show_int}
use cbsa_rust.Crates.{Crates}
use cbsa_rust.Domain.TranType.{ProcTranType, as_str}
use cbsa_rust.Domain.TranType
use cbsa_rust.Domain.Account
use cbsa_rust.Domain.Account.{AccountDetails, round_money}
use cbsa_rust.Error.{CbsaError, show_error, proctran_abend_code}
use cbsa_rust.Error
use cbsa_rust.Db.Tables.{AccountRow, ProctranRow}
use cbsa_rust.Db.Session.{Session, Stmt, pure, branch}
use cbsa_rust.Db.Retry.{is_serialization_failure, on_error}
use cbsa_rust.Db.Sql.{select_account, update_balances, insert_proctran_row}
use cbsa_rust.Repository.Frame.{OnceOutcome, success, failure, abend, Outcome, run_transaction}
use cbsa_rust.Repository.Account.{into_account}

abbrev pub not_found_code : String
not_found_code = "1"

abbrev pub update_failure_code : String
update_failure_code = "2"

abbrev pub insufficient_funds_code : String
insufficient_funds_code = "3"

abbrev pub disallowed_account_type_code : String
disallowed_account_type_code = "4"

abbrev pub read_abend_code : String
read_abend_code = "HRAC"

abbrev pub update_abend_code : String
update_abend_code = "HUAC"

abbrev pub payment_facility_type : ℤ
payment_facility_type = pos 496

abbrev retry_exhausted_message : Text
retry_exhausted_message = codes "DBCRFUN aborted after exhausting Cockroach serialization retries."

unfoldable pub is_payment_facility : ℤ → Bool
is_payment_facility facility_type = int_eq facility_type payment_facility_type

unfoldable pub is_restricted_account_type : Text → Bool
is_restricted_account_type account_type =
    text_eq (trim_end account_type) (codes "MORTGAGE")
    || text_eq (trim_end account_type) (codes "LOAN")

module _ ⦃c : Crates⦄ where
  pub record DbcrfunCommand : Type 0 where
    pub sortcode : Text
    pub account_number : ℤ
    pub amount : c.Decimal
    pub facility_type : ℤ
    pub payment_origin_description : Text
    pub transaction_reference : ℤ
    pub transaction_date : c.Date
    pub transaction_time : c.Time

  unfoldable pub proctran_type : DbcrfunCommand → ProcTranType
  proctran_type command =
      if c.lt command.amount c.decimal_zero
      then (if is_payment_facility command.facility_type
          then TranType.payment_debit
          else TranType.debit)
      else if is_payment_facility command.facility_type
      then TranType.payment_credit
      else TranType.credit

  unfoldable pub short_description : DbcrfunCommand → Text
  short_description command =
      if is_payment_facility command.facility_type
      then pad_or_truncate command.payment_origin_description 14
      else if c.lt command.amount c.decimal_zero
      then codes "COUNTER WTHDRW"
      else codes "COUNTER RECVED"

  -- `40 - description.chars().count()` does not underflow: the short form has 14 characters.
  unfoldable pub proctran_description : DbcrfunCommand → Text
  proctran_description command =
      let description = short_description command in
      description ++ replicate (40 - length description) b' '

  -- `TryFrom<AccountRow> for AccountDetails`.
  unfoldable pub try_from : AccountRow → Result CbsaError AccountDetails
  try_from row =
      map_err
        (λ message.
          CbsaError.abend read_abend_code
            (codes "DBCRFUN loaded invalid account data: " ++ message))
        (into_account row)

  -- `row.map(TryInto::try_into).transpose()`.
  abbrev pub transpose : Option AccountRow → Result CbsaError (Option AccountDetails)
  transpose none = ok none
  transpose (some row) = map_ok some (try_from row)

  unfoldable pub load_account_for_update :
      Text → ℤ → Session → Result CbsaError (Option AccountDetails) × Session
  load_account_for_update sortcode number s =
      branch (select_account sortcode number s) (λ row s'. (transpose row, s'))
        (λ e s'. (err (CbsaError.database e), s'))

  unfoldable pub update_account_row : AccountDetails → Stmt ℕ
  update_account_row account =
      update_balances account.sortcode account.account_number account.available_balance
        account.actual_balance

  -- The values that are bound to the insert; the database fills in the counter.
  abbrev pub audit_row : DbcrfunCommand → AccountDetails → ProctranRow
  audit_row command account = record {
    sortcode = account.sortcode;
    counter = 0;
    logical_delete = false;
    tran_date = command.transaction_date;
    tran_time = command.transaction_time;
    tran_ref = command.transaction_reference;
    tran_type = codes (as_str (proctran_type command));
    description = proctran_description command;
    amount = command.amount;
  }

  unfoldable pub insert_proctran : DbcrfunCommand → AccountDetails → Stmt (Unit {0})
  insert_proctran command account = insert_proctran_row (audit_row command account)

  -- The account with the amount added to both balances.
  abbrev pub posted : DbcrfunCommand → AccountDetails → AccountDetails
  posted command account = record account {
    available_balance = round_money (c.add account.available_balance command.amount);
    actual_balance = round_money (c.add account.actual_balance command.amount);
  }

  unfoldable pub write_transaction :
      DbcrfunCommand → AccountDetails → Stmt (OnceOutcome AccountDetails)
  write_transaction command account =
      on_error (update_account_row account)
        (λ e.
          abend update_abend_code
            (codes "DBCRFUN failed to update the account data: " ++ c.display e))
        (λ rows.
          if rows == 1
          then on_error (insert_proctran command account)
              (λ e.
                abend proctran_abend_code
                  (codes "DBCRFUN failed to write the audit trail: " ++ c.display e))
              (λ _. pure (success account))
          else pure
              (failure update_failure_code (codes "DBCRFUN failed to update the account record.")))

  abbrev pub rebuilt :
      DbcrfunCommand → Result Text AccountDetails → Stmt (OnceOutcome AccountDetails)
  rebuilt command (ok account) = write_transaction command account
  rebuilt command (err message) =
      pure
        (abend update_abend_code (codes "DBCRFUN built invalid updated account data: " ++ message))

  abbrev pub is_refused_type : DbcrfunCommand → AccountDetails → Bool
  is_refused_type command account =
      is_payment_facility command.facility_type && is_restricted_account_type account.account_type

  abbrev pub is_short : DbcrfunCommand → AccountDetails → Bool
  is_short command account =
      c.lt command.amount c.decimal_zero
      && (is_payment_facility command.facility_type
          && c.lt (posted command account).available_balance c.decimal_zero)

  -- The checks and the writes, on the account that was read.
  unfoldable pub post_to_account :
      DbcrfunCommand → AccountDetails → Stmt (OnceOutcome AccountDetails)
  post_to_account command account =
      if is_refused_type command account
      then pure (
          failure disallowed_account_type_code (
            codes "Payments are not supported for account type "
            ++ (account.account_type ++ codes ".")))
      else if is_short command account
      then pure (
          failure insufficient_funds_code (
            codes "Account number "
            ++ (show_int command.account_number
                ++ codes " does not have sufficient available funds.")))
      else rebuilt command (Account.new (posted command account))

  -- The `match` on what `load_account_for_update` returned.
  abbrev pub after_read :
      DbcrfunCommand → Result CbsaError (Option AccountDetails) → Stmt (OnceOutcome AccountDetails)
  after_read command (ok (some account)) = post_to_account command account
  after_read command (ok none) = pure (
      failure not_found_code
        (codes "Account number " ++ (show_int command.account_number ++ codes " was not found.")))
  after_read command (err (CbsaError.database e)) = λ s. (
    if is_serialization_failure e
        then err e
        else ok (
            abend read_abend_code (
              codes "DBCRFUN failed to read the account data: "
              ++ show_error (CbsaError.database e))),
    s,
  )
  after_read command (err (CbsaError.abend code message)) = pure (abend code message)
  after_read command (err (CbsaError.validation message)) = pure (
      abend read_abend_code (
        codes "DBCRFUN failed to read the account data: "
        ++ show_error (CbsaError.validation message)))

  unfoldable pub post_transaction_once : DbcrfunCommand → Stmt (OnceOutcome AccountDetails)
  post_transaction_once command s =
      let (r, s') = load_account_for_update command.sortcode command.account_number s in
      after_read command r s'

  unfoldable pub post_transaction :
      DbcrfunCommand → Session → Result CbsaError (Outcome AccountDetails) × Session
  post_transaction command = run_transaction retry_exhausted_message (post_transaction_once command)
