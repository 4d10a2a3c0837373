-- ===== src/Service/Checks/Amount.antt =====
-- An amount that passes the checks is a value of the money columns, also after rounding.
use cbsa_rust.Prelude.{◌≡◌, ok, arith}
use cbsa_rust.Crates.{Crates, IsLawful}
use cbsa_rust.Domain.Account.{round_money}
use cbsa_rust.Db.Sql.{fits_numeric}
use cbsa_rust.Db.Schema.{InRange, fits_numeric-InRange, round_money_lem}
use cbsa_rust.Service.Checks.{validate_amount}

module _ ⦃c : Crates⦄ (laws : IsLawful) where
  pub validate_amount-InRange :
      (amount : c.Decimal) → validate_amount amount ≡ ok tt → InRange laws amount
  unfolding validate_amount fits_numeric
  validate_amount-InRange amount h = fits_numeric-InRange laws amount (ground arith) (ground arith)

  pub round_money-InRange : (d : c.Decimal) → InRange laws d → InRange laws (round_money d)
  round_money-InRange d h = let (small, same) = round_money_lem laws d h.scale_le in ground arith
