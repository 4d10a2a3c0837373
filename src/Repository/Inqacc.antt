-- ===== src/Repository/Inqacc.antt =====
-- `repository/inqacc.rs`: the reads of one account.
use cbsa_rust.Prelude.{Option}
use cbsa_rust.Prelude.Int.{ℤ}
use cbsa_rust.Text.{Text}
use cbsa_rust.Crates.{Crates}
use cbsa_rust.Db.Tables.{AccountRow}
use cbsa_rust.Db.Session.{Stmt}
use cbsa_rust.Db.Sql.{find_account}
use cbsa_rust.Db.Sql.Query.{query}
use cbsa_rust.Db.Sql.Customers.{last_account}

module _ ⦃c : Crates⦄ where
  unfoldable pub find_by_sortcode_and_account_number : Text → ℤ → Stmt (Option AccountRow)
  find_by_sortcode_and_account_number sortcode number =
      query λ t. find_account sortcode number t.account

  unfoldable pub find_last_by_sortcode : Text → Stmt (Option AccountRow)
  find_last_by_sortcode sortcode = query λ t. last_account sortcode t.account
