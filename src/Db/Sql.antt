-- ===== src/Db/Sql.antt =====
-- The SQL statements that the repository modules share, on the tables: the reads and the update of
-- one account, and the insert into `proctran`. A row that breaks a limit of the schema
-- (NUMERIC(12,2), VARCHAR(40)) makes the statement fail with `constraint_violation`.
pub mod Effects
pub mod Quiet
pub mod Opening
pub mod Removal
pub mod Query
pub mod Customers
pub mod Registration
pub mod Terms
use cbsa_rust.Prelude.{
  ℕ, suc, ◌+◌, Bool, true, false, not, ◌&&◌, Option, none, some, List, [], ◌∷◌, ◌++◌, ok, err, leb,
  ◌==◌, if◌then◌else◌, length,
}
use cbsa_rust.Prelude.Int.{ℤ, pos, neg_ℤ, int_eq}
use cbsa_rust.Text.{Text, text_eq}
use cbsa_rust.Crates.{Crates}
use cbsa_rust.Db.Tables.{AccountRow, ProctranRow, Tables}
use cbsa_rust.Db.Session.{Session, Stmt, execute}

module _ ⦃c : Crates⦄ where
  -- NUMERIC(12,2) holds -9999999999.99 to 9999999999.99.
  unfoldable pub fits_numeric : c.Decimal → Bool
  fits_numeric d =
      not (c.lt d (c.decimal_new (neg_ℤ (pos 999_999_999_999)) 2))
      && not (c.lt (c.decimal_new (pos 999_999_999_999) 2) d)

  -- `WHERE sortcode = $1 AND account_number = $2`
  unfoldable pub is_account : Text → ℤ → AccountRow → Bool
  is_account sortcode number row = text_eq row.sortcode sortcode && int_eq row.account_number number

  unfoldable pub find_account : Text → ℤ → List AccountRow → Option AccountRow
  find_account sortcode number [] = none
  find_account sortcode number (row ∷ rows) =
      if is_account sortcode number row then some row else find_account sortcode number rows

  unfoldable pub count_accounts : Text → ℤ → List AccountRow → ℕ
  count_accounts sortcode number [] = 0
  count_accounts sortcode number (row ∷ rows) =
      (if is_account sortcode number row then 1 else 0) + count_accounts sortcode number rows

  -- `SET available_balance = $1, actual_balance = $2`
  unfoldable pub set_balances : Text → ℤ → c.Decimal → c.Decimal → List AccountRow → List AccountRow
  set_balances sortcode number available actual [] = []
  set_balances sortcode number available actual (row ∷ rows) =
      (if is_account sortcode number row
        then record row { available_balance = available; actual_balance = actual }
        else row)
      ∷ set_balances sortcode number available actual rows

  -- `SELECT … FROM account WHERE sortcode = $1 AND account_number = $2 FOR UPDATE`
  unfoldable pub select_account : Text → ℤ → Stmt (Option AccountRow)
  select_account sortcode number =
      execute λ s. (ok (find_account sortcode number s.tables.account), s)

  -- `UPDATE account SET … WHERE …`, with `rows_affected`
  unfoldable pub update_balances : Text → ℤ → c.Decimal → c.Decimal → Stmt ℕ
  update_balances sortcode number available actual = execute λ s.
      let n = count_accounts sortcode number s.tables.account in
      if n == 0
      then (ok 0, s)
      else if fits_numeric available && fits_numeric actual
      then (
        ok n,
        record s {
          tables = record (s.tables) {
            account = set_balances sortcode number available actual s.tables.account;
          };
        },
      )
      else (err c.constraint_violation, s)

  -- `INSERT INTO proctran`: the counter is the next number of the sequence, which stays drawn also
  -- when the row is refused.
  unfoldable pub insert_proctran_row : ProctranRow → Stmt (Unit {0})
  insert_proctran_row row = execute λ s.
      if leb (length row.description) 40 && fits_numeric row.amount
      then (
        ok tt,
        record s {
          tables = record (s.tables) {
            proctran = s.tables.proctran ++ (record row { counter = s.sequence } ∷ []);
          };
          sequence = suc s.sequence;
        },
      )
      else (err c.constraint_violation, record s { sequence = suc s.sequence })
