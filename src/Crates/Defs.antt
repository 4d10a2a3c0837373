-- ===== src/Crates/Defs.antt =====
-- The interface of the crates, and the documented laws.
use cbsa_rust.Prelude.{ℕ, ◌≤◌, ◌^◌, ◌≡◌, Bool, Option, String}
use cbsa_rust.Prelude.Int.{ℤ, pos, pos_part, neg_part, ◌+ℤ◌, ◌-ℤ◌, ltb_ℤ, neg_ℤ}
use cbsa_rust.Text.{Text}

pub record Crates : Type 1 where
  -- rust_decimal: `Decimal::new(m, s)` and `from_i128_with_scale(m, s)` are m / 10 ^ s; `lt` is `<`;
  -- `round_dp` is `round_dp_with_strategy` with `MidpointNearestEven`, which `round_dp` means too;
  -- `fract_is_zero` is `fract().is_zero()`.
  pub Decimal : Type 0
  pub decimal_new : ℤ → ℕ → Decimal
  pub decimal_zero : Decimal
  pub add : Decimal → Decimal → Decimal
  pub sub : Decimal → Decimal → Decimal
  pub neg : Decimal → Decimal
  pub lt : Decimal → Decimal → Bool
  pub scale : Decimal → ℕ
  pub round_dp : ℕ → Decimal → Decimal
  pub mul : Decimal → Decimal → Decimal
  pub trunc : Decimal → Decimal
  pub fract_is_zero : Decimal → Bool
  pub to_i128 : Decimal → Option ℤ
  pub to_string : Decimal → Text
  -- chrono: `format_ddmmyyyy` is `format("%d%m%Y")`, `parse_ddmmyyyy` is `parse_from_str` with the same
  -- format, `format_dd_mm_yyyy` is `format("%d/%m/%Y")`, `date_lt` is `<` and `add_days` is
  -- `checked_add_days`; `wall_clock` is `NaiveTime::from_hms_opt` of the hour, minute and second of an
  -- instant, which is always there.
  pub Date : Type 0
  pub Time : Type 0
  pub DateTime : Type 0
  pub format_ddmmyyyy : Date → Text
  pub format_dd_mm_yyyy : Date → Text
  pub parse_ddmmyyyy : Text → Option Date
  pub year : Date → ℤ
  pub month : Date → ℕ
  pub day : Date → ℕ
  pub date_lt : Date → Date → Bool
  pub add_days : Date → ℕ → Option Date
  pub timestamp_millis : DateTime → ℤ
  pub date_naive : DateTime → Date
  pub wall_clock : DateTime → Time
  -- sqlx: `sqlstate` is `as_database_error().and_then(|d| d.code())`, `display` is `Display`, and
  -- `constraint_violation` the error of a row that breaks the schema.
  pub SqlxError : Type 0
  pub sqlstate : SqlxError → Option String
  pub display : SqlxError → Text
  pub constraint_violation : SqlxError
  -- validator: the `Display` of the error of one field that breaks its rule, with the message of the
  -- rule.
  pub invalid_field : String → Text → Text

-- At most two fractional digits, and far from the ends of the 96-bit mantissa, where sums are exact.
abbrev pub money_limit : ℕ
money_limit = 10 ^ 20

module _ ⦃c : Crates⦄ where
  -- `cents d` is 100 times the value of `d`, for a `d` of at most two fractional digits.
  pub record IsMoney (cents : c.Decimal → ℤ) (d : c.Decimal) : Type 0 where
    pub scale_le : c.scale d ≤ 2
    pub pos_le : pos_part (cents d) ≤ money_limit
    pub neg_le : neg_part (cents d) ≤ money_limit

  -- The documented behaviour of the crates, on amounts of money.
  pub record IsLawful : Type 0 where
    pub cents : c.Decimal → ℤ
    pub scale-decimal_new : (m : ℤ) (s : ℕ) → c.scale (c.decimal_new m s) ≡ s
    pub cents-decimal_new : (m : ℤ) → cents (c.decimal_new m 2) ≡ m
    pub scale-decimal_zero : c.scale c.decimal_zero ≡ 0
    pub cents-decimal_zero : cents c.decimal_zero ≡ pos 0
    pub lt-eq-ltb :
        (a b : c.Decimal) → c.scale a ≤ 2 → c.scale b ≤ 2 → c.lt a b ≡ ltb_ℤ (cents a) (cents b)
    pub scale-round_dp : (a : c.Decimal) → c.scale (c.round_dp 2 a) ≤ 2
    pub cents-round_dp : (a : c.Decimal) → c.scale a ≤ 2 → cents (c.round_dp 2 a) ≡ cents a
    pub add_lem :
        (a b : c.Decimal)
        → IsMoney cents a
        → IsMoney cents b
        → (c.scale (c.add a b) ≤ 2) × (cents (c.add a b) ≡ cents a +ℤ cents b)
    pub sub_lem :
        (a b : c.Decimal)
        → IsMoney cents a
        → IsMoney cents b
        → (c.scale (c.sub a b) ≤ 2) × (cents (c.sub a b) ≡ cents a -ℤ cents b)
    pub neg_lem :
        (a : c.Decimal)
        → IsMoney cents a
        → (c.scale (c.neg a) ≤ 2) × (cents (c.neg a) ≡ neg_ℤ (cents a))
