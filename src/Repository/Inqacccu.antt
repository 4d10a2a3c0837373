-- ===== src/Repository/Inqacccu.antt =====
-- `repository/inqacccu.rs`: the reads of the accounts of one customer.
use cbsa_rust.Prelude.{Bool, List}
use cbsa_rust.Prelude.Int.{ℤ}
use cbsa_rust.Text.{Text}
use cbsa_rust.Crates.{Crates}
use cbsa_rust.Db.Tables.{AccountRow}
use cbsa_rust.Db.Session.{Stmt}
use cbsa_rust.Db.Sql.Customers.{select_customer_exists, select_accounts_of}

module _ ⦃c : Crates⦄ where
  unfoldable pub customer_exists : Text → ℤ → Stmt Bool
  customer_exists sortcode number = select_customer_exists sortcode number

  unfoldable pub find_by_sortcode_and_customer_number : Text → ℤ → Stmt (List AccountRow)
  find_by_sortcode_and_customer_number sortcode number = select_accounts_of sortcode number
