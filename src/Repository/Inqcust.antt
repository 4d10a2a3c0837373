-- ===== src/Repository/Inqcust.antt =====
-- `repository/inqcust.rs`: the reads of one customer. The conversion of a row is
-- `Repository.Customer.into_customer`.
use cbsa_rust.Prelude.{Option, Result}
use cbsa_rust.Prelude.Int.{ℤ}
use cbsa_rust.Text.{Text}
use cbsa_rust.Crates.{Crates}
use cbsa_rust.Domain.Customer.{CustomerDetails}
use cbsa_rust.Error.{CbsaError}
use cbsa_rust.Db.Session.{Session}
use cbsa_rust.Db.Sql.Customers.{select_customer, select_last_customer}
use cbsa_rust.Repository.Customer.{into_customer}
use cbsa_rust.Repository.Read.{transpose, load}

module _ ⦃c : Crates⦄ where
  unfoldable pub find_by_sortcode_and_customer_number :
      Text → ℤ → Session → Result CbsaError (Option CustomerDetails) × Session
  find_by_sortcode_and_customer_number sortcode number =
      load (select_customer sortcode number) (transpose into_customer)

  unfoldable pub find_last_by_sortcode :
      Text → Session → Result CbsaError (Option CustomerDetails) × Session
  find_last_by_sortcode sortcode = load (select_last_customer sortcode) (transpose into_customer)
