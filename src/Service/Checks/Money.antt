-- ===== src/Service/Checks/Money.antt =====
-- `validate_money_range`, which `service/creacc.rs` and `service/updacc.rs` repeat.
use cbsa_rust.Prelude.{◌≤◌, ◌≡◌, ◌||◌, ltb, Result, ok, err, if◌then◌else◌, arith}
use cbsa_rust.Prelude.Int.{◌≤ℤ◌}
use cbsa_rust.Text.{Text}
use cbsa_rust.Crates.{Crates, IsLawful}

module _ ⦃c : Crates⦄ where
  unfoldable pub validate_money_range :
      c.Decimal → c.Decimal → c.Decimal → Text → Result Text (Unit {0})
  validate_money_range value min max message =
      if ltb 2 (c.scale value) || (c.lt value min || c.lt max value) then err message else ok tt

module _ ⦃c : Crates⦄ (laws : IsLawful) where
  open laws use {cents}

  -- A value that passes has at most two places and lies between the bounds, counted in cents.
  pub validate_money_range_lem :
      (value min max : c.Decimal) (message : Text)
      → c.scale min ≤ 2
      → c.scale max ≤ 2
      → validate_money_range value min max message ≡ ok tt
      → (c.scale value ≤ 2) × (cents min ≤ℤ cents value) × (cents value ≤ℤ cents max)
  unfolding validate_money_range
  validate_money_range_lem value min max message p q h =
      ground (arith, laws.lt-eq-ltb value min, laws.lt-eq-ltb max value)
