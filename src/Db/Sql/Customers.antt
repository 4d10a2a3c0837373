-- ===== src/Db/Sql/Customers.antt =====
-- The SQL statements on the table `customer`, and the reads of the accounts of one customer.
pub mod Effects
pub mod Listing
pub mod Found
use cbsa_rust.Prelude.{
  ℕ, ◌+◌, Bool, true, false, not, ◌&&◌, Option, none, some, List, [], ◌∷◌, ◌++◌, ok, err, leb, ◌==◌,
  if◌then◌else◌, length, take,
}
use cbsa_rust.Prelude.Int.{ℤ, pos, leb_ℤ, int_eq}
use cbsa_rust.Prelude.Search.{find_by, keep_by, drop_by, sort_by, last_by}
use cbsa_rust.Text.{Text, text_eq}
use cbsa_rust.Crates.{Crates}
use cbsa_rust.Db.Tables.{CustomerRow, AccountRow, Tables}
use cbsa_rust.Db.Session.{Session, Stmt, execute}
use cbsa_rust.Db.Sql.Query.{query}

abbrev pub listing_limit : ℕ
listing_limit = 20

module _ ⦃c : Crates⦄ where
  -- `WHERE sortcode = $1 AND customer_number = $2`
  unfoldable pub is_customer : Text → ℤ → CustomerRow → Bool
  is_customer sortcode number row =
      text_eq row.sortcode sortcode && int_eq row.customer_number number

  unfoldable pub find_customer : Text → ℤ → List CustomerRow → Option CustomerRow
  find_customer sortcode number rows = find_by (is_customer sortcode number) rows

  unfoldable pub count_customers : Text → ℤ → List CustomerRow → ℕ
  count_customers sortcode number [] = 0
  count_customers sortcode number (row ∷ rows) =
      (if is_customer sortcode number row then 1 else 0) + count_customers sortcode number rows

  -- `SELECT … FROM customer WHERE sortcode = $1 AND customer_number = $2`
  unfoldable pub select_customer : Text → ℤ → Stmt (Option CustomerRow)
  select_customer sortcode number = query λ t. find_customer sortcode number t.customer

  -- `… WHERE sortcode = $1 ORDER BY customer_number DESC LIMIT 1`
  unfoldable pub last_customer : Text → List CustomerRow → Option CustomerRow
  last_customer sortcode rows =
      last_by (λ row. text_eq row.sortcode sortcode) (λ row. row.customer_number) rows

  unfoldable pub select_last_customer : Text → Stmt (Option CustomerRow)
  select_last_customer sortcode = query λ t. last_customer sortcode t.customer

  -- `SELECT EXISTS(SELECT 1 FROM customer WHERE sortcode = $1 AND customer_number = $2)`
  abbrev pub is_found : Option CustomerRow → Bool
  is_found none = false
  is_found (some row) = true

  unfoldable pub select_customer_exists : Text → ℤ → Stmt Bool
  select_customer_exists sortcode number =
      query λ t. is_found (find_customer sortcode number t.customer)

  -- `WHERE sortcode = $1 AND customer_number = $2` on the table `account`
  unfoldable pub is_held_by : Text → ℤ → AccountRow → Bool
  is_held_by sortcode number row =
      text_eq row.sortcode sortcode && int_eq row.customer_number number

  -- `… ORDER BY account_number ASC LIMIT 20`
  unfoldable pub accounts_of : Text → ℤ → List AccountRow → List AccountRow
  accounts_of sortcode number rows =
      take listing_limit
        (sort_by (λ row. row.account_number) (keep_by (is_held_by sortcode number) rows))

  unfoldable pub select_accounts_of : Text → ℤ → Stmt (List AccountRow)
  select_accounts_of sortcode number = query λ t. accounts_of sortcode number t.account

  -- `… WHERE sortcode = $1 ORDER BY account_number DESC LIMIT 1`
  unfoldable pub last_account : Text → List AccountRow → Option AccountRow
  last_account sortcode rows =
      last_by (λ row. text_eq row.sortcode sortcode) (λ row. row.account_number) rows

  unfoldable pub select_last_account : Text → Stmt (Option AccountRow)
  select_last_account sortcode = query λ t. last_account sortcode t.account

  -- VARCHAR(60) and VARCHAR(160)
  abbrev pub fits_profile : Text → Text → Bool
  fits_profile name address = leb (length name) 60 && leb (length address) 160

  -- The primary key, the sizes of the columns and the range of the credit score.
  unfoldable pub accepts_customer : Tables → CustomerRow → Bool
  accepts_customer t row =
      not (is_found (find_customer row.sortcode row.customer_number t.customer))
      && (leb (length row.sortcode) 6
          && (fits_profile row.name row.address
              && (leb_ℤ (pos 0) row.credit_score && leb_ℤ row.credit_score (pos 999))))

  -- `INSERT INTO customer`
  unfoldable pub insert_customer_row : CustomerRow → Stmt (Unit {0})
  insert_customer_row row = execute λ s.
      if accepts_customer s.tables row
      then (
        ok tt,
        record s { tables = record (s.tables) { customer = s.tables.customer ++ (row ∷ []) } },
      )
      else (err c.constraint_violation, s)

  -- `SET name = $1, address = $2`
  unfoldable pub set_profile : Text → ℤ → Text → Text → List CustomerRow → List CustomerRow
  set_profile sortcode number name address [] = []
  set_profile sortcode number name address (row ∷ rows) =
      (if is_customer sortcode number row
        then record row { name = name; address = address }
        else row)
      ∷ set_profile sortcode number name address rows

  -- `UPDATE customer SET … WHERE …`, with `rows_affected`
  unfoldable pub update_profile : Text → ℤ → Text → Text → Stmt ℕ
  update_profile sortcode number name address = execute λ s.
      let n = count_customers sortcode number s.tables.customer in
      if n == 0
      then (ok 0, s)
      else if fits_profile name address
      then (
        ok n,
        record s {
          tables = record (s.tables) {
            customer = set_profile sortcode number name address s.tables.customer;
          };
        },
      )
      else (err c.constraint_violation, s)

  abbrev pub remove_customer : Text → ℤ → List CustomerRow → List CustomerRow
  remove_customer sortcode number rows = drop_by (is_customer sortcode number) rows

  abbrev pub holds_none : List AccountRow → Bool
  holds_none [] = true
  holds_none (row ∷ rows) = false

  -- `DELETE FROM customer WHERE …`: the foreign key of `account` refuses to delete a customer who
  -- still holds one.
  unfoldable pub delete_customer : Text → ℤ → Stmt ℕ
  delete_customer sortcode number = execute λ s.
      let n = count_customers sortcode number s.tables.customer in
      if n == 0
      then (ok 0, s)
      else if holds_none (keep_by (is_held_by sortcode number) s.tables.account)
      then (
        ok n,
        record s {
          tables = record (s.tables) {
            customer = remove_customer sortcode number s.tables.customer;
          };
        },
      )
      else (err c.constraint_violation, s)
