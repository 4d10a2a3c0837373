-- ===== src/Tests/Deletion.antt =====
-- The deletion of account 2 on concrete tables.
use cbsa_rust.Prelude.{refl, ok, ◌≡◌, none, some, [], arith, ◌∷◌}
use cbsa_rust.Prelude.Int.{ℤ, pos, ◌+ℤ◌, negsuc, ◌-ℤ◌}
use cbsa_rust.Crates.Cents.{cents_crates, Cents-IsLawful, cents_at_two}
use cbsa_rust.Db.Tables.{AccountRow}
use cbsa_rust.Db.Sql.{
  find_account, select_account, is_account, count_accounts, fits_numeric, insert_proctran_row,
}
use cbsa_rust.Db.Schema.Balances.{total_available, total_actual}
use cbsa_rust.Repository.Frame.Succeeds.{Returns}
use cbsa_rust.Repository.Delacc.{
  DeleteAccountCommand, delete_account, audit_row, delete_account_once, load_account_for_update,
  try_from, delete_account_row, insert_proctran, remove_and_audit, proctran_description,
  optional_cobol_date,
}
use cbsa_rust.Repository.Delacc.Effect.{delete_account-removes}
use cbsa_rust.Repository.Frame.{Outcome, run_transaction, conclude, transaction, settle}
use cbsa_rust.Repository.Delacc.Again.{absent_message, delete_account-again}
use cbsa_rust.Db.Session.{Session, execute}
use cbsa_rust.Domain.Account.{AccountDetails, round_money}
use cbsa_rust.Text.{codes, text_eq, all_digits, is_whitespace, pad_or_truncate, trim_end, utf8}
use cbsa_rust.Text.Decimal.{format_int, zero_padded, digits, digits_from}
use cbsa_rust.Config.{is_six_ascii_digits}
use cbsa_rust.Domain.TranType.{as_str}
use cbsa_rust.Domain.Account
use cbsa_rust.Db.Retry.{with_retry, retry, is_serialization_failure, on_error}
use cbsa_rust.Db.Sql.Removal.{delete_row, remove_account}
use cbsa_rust.Repository.Account.{into_account}
use cbsa_rust.Service.Delacc.{delete}
use cbsa_rust.Service.Delacc.Closes.{IsClosed, delete-IsClosed}
use cbsa_rust.Tests.Data.{noon, row_of, account_of, tables, accounts, quiet, branch_code}
use cbsa_rust.Tests.Facts.{tables-IsWellFormed}

abbrev closing : DeleteAccountCommand
closing = record {
  sortcode = branch_code;
  account_number = pos 2;
  transaction_reference = pos 1_700_000_000_000;
  transaction_date = 200;
  transaction_time = 43_200;
}

abbrev sum_left : ℤ
sum_left = total_available Cents-IsLawful (delete_account closing quiet).1.tables.account

delete_account-removes_example : Returns (delete_account closing quiet) (λ a s'.
    (find_account branch_code (pos 2) s'.tables.account ≡ none)
    × (find_account branch_code (pos 1) s'.tables.account
        ≡ find_account branch_code (pos 1) accounts)
    × (s'.tables.customer ≡ [])
    × ((row : AccountRow) × (find_account branch_code (pos 2) accounts ≡ some row)
        × (total_available Cents-IsLawful accounts
            ≡ row.available_balance.amount +ℤ total_available Cents-IsLawful s'.tables.account)
        × (total_actual Cents-IsLawful accounts
            ≡ row.actual_balance.amount +ℤ total_actual Cents-IsLawful s'.tables.account)))
delete_account-removes_example =
    delete_account-removes Cents-IsLawful closing quiet tables-IsWellFormed (pos 1)
      (λ e. ground arith)

-- The account that the first deletion returns, and what it leaves.
abbrev closed : AccountDetails
closed = record (account_of (negsuc 699)) {
  account_number = pos 2;
  account_type = codes "LOAN";
  overdraft_limit = cents_at_two (pos 0);
}

abbrev left_over : Session
left_over = record quiet {
  tables = record tables {
    account =
        row_of (pos 1) (codes "CURRENT ") (pos 1000) (pos 5000)
        ∷ row_of (pos 3) (codes "SAVING  ") (pos 0) (pos 0)
        ∷ [];
    proctran = record (audit_row closing closed) { counter = 11 } ∷ [];
  };
  sequence = 12;
}

first_deletion : delete_account closing quiet ≡ (ok (Outcome.success closed), left_over)
unfolding delete_account run_transaction conclude with_retry retry transaction execute settle
    delete_account_once load_account_for_update select_account find_account is_account text_eq codes
    try_from into_account is_six_ascii_digits is_serialization_failure on_error delete_row
    remove_account count_accounts fits_numeric insert_proctran_row Account.new round_money
    delete_account_row insert_proctran remove_and_audit proctran_description optional_cobol_date
    format_int zero_padded digits digits_from all_digits is_whitespace pad_or_truncate trim_end utf8
    as_str ◌-ℤ◌
first_deletion = refl

delete_account-again_example :
    delete_account closing left_over
    ≡ (ok (Outcome.failure "1" (absent_message closing)), left_over)
delete_account-again_example =
    delete_account-again closing quiet left_over closed first_deletion refl

delete-IsClosed_example :
    IsClosed branch_code
      (pos 2)
      tables
      (delete branch_code (record { account_number = pos 2 }) noon quiet)
delete-IsClosed_example = delete-IsClosed branch_code (record { account_number = pos 2 }) noon quiet
