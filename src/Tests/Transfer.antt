-- ===== src/Tests/Transfer.antt =====
-- Transfers on concrete tables: 30.00 from account 1 to account 2.
use cbsa_rust.Prelude.{
  ◌≡◌, ◌≢◌, refl, ok, err, none, some, [], ◌∷◌, ◌++◌, arith, ℕ, length, drop, All, false,
}
use cbsa_rust.Prelude.Int.{ℤ, pos, ◌≤ℤ◌, ◌+ℤ◌, neg_ℤ, ◌-ℤ◌}
use cbsa_rust.Text.{codes, text_eq, all_digits, is_whitespace, pad_or_truncate, trim_end, utf8}
use cbsa_rust.Text.Decimal.{format_int, zero_padded, digits, digits_from}
use cbsa_rust.Config.{is_six_ascii_digits}
use cbsa_rust.Domain.TranType.{as_str}
use cbsa_rust.Domain.Account
use cbsa_rust.Domain.Account.{round_money}
use cbsa_rust.Db.Session.{execute, Session}
use cbsa_rust.Db.Retry.{with_retry, retry, is_serialization_failure, on_error}
use cbsa_rust.Db.Sql.{
  select_account, is_account, count_accounts, fits_numeric, insert_proctran_row, update_balances,
  set_balances, find_account,
}
use cbsa_rust.Repository.Account.{into_account}
use cbsa_rust.Repository.Frame.{run_transaction, conclude, transaction, settle, Outcome}
use cbsa_rust.Repository.Xfrfun.{
  lock_accounts_in_cobol_order, ordered_roles, lock_account, update_one, update_account_row,
  insert_proctran, move_funds, write_transfer, transfer_funds_once, transfer_funds, XfrfunCommand,
  transfer_description,
}
use cbsa_rust.Crates.Cents.{cents_crates, Cents-IsLawful, contention}
use cbsa_rust.Db.Tables.{AccountRow}
use cbsa_rust.Repository.Frame.Succeeds.{Returns}
use cbsa_rust.Repository.Xfrfun.Money.{TransferMoves}
use cbsa_rust.Repository.Xfrfun.Conservation.{transfer_funds-TransferMoves, transfer_funds-others}
use cbsa_rust.Repository.Xfrfun.Funds.{transfer_funds-funded}
use cbsa_rust.Repository.Xfrfun.Description.{transfer_description_lem}
use cbsa_rust.Text.Laws.{read_from}
use cbsa_rust.Text.Digits.{IsDigit}
use cbsa_rust.Service.Xfrfun.{transfer}
use cbsa_rust.Service.Xfrfun.Conservation.{Keeps, transfer-Keeps}
use cbsa_rust.Tests.Data.{
  tables, accounts, transfer_of, session_with, request_of, noon, branch_code,
}
use cbsa_rust.Tests.Facts.{in_range, tables-IsWellFormed}

abbrev thirty : XfrfunCommand
thirty = transfer_of (pos 1) (pos 2) (pos 3000)

-- The first attempt fails at its first statement, the second goes through.
abbrev contended : Session
contended = session_with (none ∷ some contention ∷ [])

abbrev balance_left : ℤ
balance_left = elim (transfer_funds thirty contended).0 [
  | ok (Outcome.success t) ↦ t.from_account.available_balance.amount
  | ok (Outcome.failure code message) ↦ pos 0
  | err e ↦ pos 1
]

apart : pos 1 ≢ pos 2
apart e = ground arith

transfer_funds-TransferMoves_example :
    Returns
      (transfer_funds thirty contended)
      (λ t s'. TransferMoves Cents-IsLawful thirty tables t s'.tables)
transfer_funds-TransferMoves_example =
    transfer_funds-TransferMoves Cents-IsLawful thirty contended tables-IsWellFormed
      (in_range (pos 3000) (omega arith) (omega arith)) apart

transfer_funds-others_example : Returns (transfer_funds thirty contended) (λ t s'.
    (find_account branch_code (pos 3) s'.tables.account ≡ find_account branch_code (pos 3) accounts)
    × (s'.tables.customer ≡ [])
    × (s'.tables.control ≡ [])
    × ((counter : ℕ) × (s'.tables.proctran
          ≡ []
            ++ (record {
              sortcode = branch_code;
              counter = counter;
              logical_delete = false;
              tran_date = thirty.transaction_date;
              tran_time = thirty.transaction_time;
              tran_ref = thirty.transaction_reference;
              tran_type = codes "TFR";
              description =
                  pad_or_truncate (codes "TRANSFER") 26 ++ (branch_code ++ format_int 8 (pos 2));
              amount = thirty.amount;
            }
                ∷ []))))
transfer_funds-others_example =
    transfer_funds-others Cents-IsLawful thirty contended tables-IsWellFormed
      (in_range (pos 3000) (omega arith) (omega arith)) apart (pos 3) (λ e. ground arith)
      (λ e. ground arith)

transfer_funds-funded_example : Returns (transfer_funds thirty contended) (λ t s'.
    (row : AccountRow) × (find_account branch_code (pos 1) accounts ≡ some row)
    × (pos 0 ≤ℤ t.from_account.available_balance.amount)
    × (neg_ℤ row.overdraft_limit.amount ≤ℤ t.from_account.actual_balance.amount))
transfer_funds-funded_example =
    transfer_funds-funded Cents-IsLawful thirty contended tables-IsWellFormed

transfer-Keeps_example :
    Keeps Cents-IsLawful tables
      (transfer branch_code (request_of (pos 1) (pos 2) (pos 3000)) noon contended).1.tables
transfer-Keeps_example =
    transfer-Keeps Cents-IsLawful branch_code (request_of (pos 1) (pos 2) (pos 3000)) noon contended
      tables-IsWellFormed

transfer_description_lem_example :
    (length (transfer_description branch_code (pos 2)) ≡ 40)
    × All IsDigit (drop 32 (transfer_description branch_code (pos 2)))
    × (read_from 0 (drop 32 (transfer_description branch_code (pos 2))) ≡ 2)
unfolding codes
transfer_description_lem_example = transfer_description_lem branch_code 2 refl (omega arith)

-- With one retry, account 1 is left with 20.00.
balance_left_lem : balance_left ≡ pos 2000
unfolding transfer_funds run_transaction conclude with_retry retry transaction execute settle
    transfer_funds_once lock_accounts_in_cobol_order ordered_roles lock_account select_account
    find_account is_account text_eq codes into_account is_six_ascii_digits is_serialization_failure
    on_error update_one update_account_row update_balances count_accounts set_balances fits_numeric
    insert_proctran insert_proctran_row Account.new round_money move_funds write_transfer
    transfer_description format_int zero_padded digits digits_from all_digits is_whitespace
    pad_or_truncate trim_end utf8 as_str ◌+ℤ◌ ◌-ℤ◌
balance_left_lem = refl
