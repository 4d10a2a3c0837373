-- ===== src/Service/Checks.antt =====
-- The checks that the service modules repeat: sortcode, amount range and length of a text.
pub mod Amount
pub mod Money
use cbsa_rust.Prelude.{ℕ, not, ◌||◌, ◌++◌, leb, ltb, Result, ok, err, if◌then◌else◌, length}
use cbsa_rust.Prelude.Int.{ℤ, pos, neg_ℤ, max_ℤ}
use cbsa_rust.Text.{Text, codes}
use cbsa_rust.Text.Decimal.{digits}
use cbsa_rust.Config.{is_six_ascii_digits}
use cbsa_rust.Crates.{Crates}
use cbsa_rust.Error.{CbsaError, validation}

abbrev pub max_amount_mantissa : ℤ
max_amount_mantissa = pos 999_999_999_999

module _ ⦃c : Crates⦄ where
  unfoldable pub validate_sortcode : Text → Result CbsaError (Unit {0})
  validate_sortcode sortcode =
      if is_six_ascii_digits sortcode
      then ok tt
      else err (validation (codes "sortcode must be exactly 6 ASCII digits"))

  abbrev pub min_amount : c.Decimal
  min_amount = c.decimal_new (neg_ℤ max_amount_mantissa) 2

  abbrev pub max_amount : c.Decimal
  max_amount = c.decimal_new max_amount_mantissa 2

  -- The two tests of an amount: its scale, then its range.
  unfoldable pub validate_amount : c.Decimal → Result CbsaError (Unit {0})
  validate_amount amount =
      if ltb 2 (c.scale amount)
      then err (validation (codes "amount must have at most 2 fractional digits"))
      else if c.lt amount min_amount || c.lt max_amount amount
      then err (validation (codes "amount must be between -9999999999.99 and 9999999999.99"))
      else ok tt

  unfoldable pub validate_length : Text → ℕ → Text → Result CbsaError (Unit {0})
  validate_length value max_chars field_name =
      if leb (length value) max_chars
      then ok tt
      else err (
          validation (
            field_name ++ (codes " must be at most " ++ (digits max_chars ++ codes " characters"))))

  -- `now.timestamp_millis().max(0)`.
  abbrev pub transaction_reference : c.DateTime → ℤ
  transaction_reference now = max_ℤ (c.timestamp_millis now) (pos 0)
