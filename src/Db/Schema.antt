-- ===== src/Db/Schema.antt =====
-- What the schema of `migrations/0001_baseline.sql` keeps true of the table `account`: money columns
-- are NUMERIC(12,2), and (sortcode, account_number) is the primary key.
pub mod Balances
use cbsa_rust.Prelude.{
  ℕ, ◌≤◌, ◌≡◌, ◌∙◌, sym, true, false, not, ◌&&◌, List, arith, All, none, Option, [], ◌∷◌,
}
use cbsa_rust.Prelude.Int.{ℤ, pos_part, neg_part, ltb_ℤ, pos, neg_ℤ, ◌-ℤ◌, ◌≤ℤ◌}
use cbsa_rust.Crates.{Crates, IsLawful, IsMoney}
use cbsa_rust.Db.Tables.{AccountRow, Tables}
use cbsa_rust.Db.Sql.{fits_numeric, find_account}
use cbsa_rust.Domain.Account.{round_money}

abbrev pub numeric_limit : ℕ
numeric_limit = 999_999_999_999

-- At most one row for each key.
module _ ⦃c : Crates⦄ where
  abbrev pub IsKeyed : List AccountRow → Type 0
  IsKeyed [] = Unit
  IsKeyed (row ∷ rows) = (find_account row.sortcode row.account_number rows ≡ none) × IsKeyed rows

module _ ⦃c : Crates⦄ (laws : IsLawful) where
  open laws use {cents}

  -- A value that a NUMERIC(12,2) column holds, counted in cents.
  pub record InRange (d : c.Decimal) : Type 0 where
    pub scale_le : c.scale d ≤ 2
    pub pos_le : pos_part (cents d) ≤ numeric_limit
    pub neg_le : neg_part (cents d) ≤ numeric_limit

  pub record IsStored (row : AccountRow) : Type 0 where
    pub available : InRange row.available_balance
    pub actual : InRange row.actual_balance
    pub overdraft : InRange row.overdraft_limit

  pub record IsWellFormed (t : Tables) : Type 0 where
    pub stored : All IsStored t.account
    pub keyed : IsKeyed t.account

  pub InRange-IsMoney : (d : c.Decimal) → InRange d → IsMoney cents d
  InRange-IsMoney d h = omega arith

  -- The range check of the database, in cents.
  pub fits_numeric-InRange : (d : c.Decimal) → c.scale d ≤ 2 → fits_numeric d ≡ true → InRange d
  unfolding fits_numeric ◌-ℤ◌
  fits_numeric-InRange d h fits =
      let low = c.decimal_new (neg_ℤ (pos numeric_limit)) 2 in
      let top = c.decimal_new (pos numeric_limit) 2 in
      ground (
        arith,
        laws.scale-decimal_new (neg_ℤ (pos numeric_limit)) 2,
        laws.scale-decimal_new (pos numeric_limit) 2,
        laws.cents-decimal_new (neg_ℤ (pos numeric_limit)),
        laws.cents-decimal_new (pos numeric_limit),
        laws.lt-eq-ltb d low h,
        laws.lt-eq-ltb top d,
      )

  pub round_money_lem :
      (d : c.Decimal)
      → c.scale d ≤ 2
      → (c.scale (round_money d) ≤ 2) × (cents (round_money d) ≡ cents d)
  unfolding round_money
  round_money_lem d h = (laws.scale-round_dp d, laws.cents-round_dp d h)

  pub scale-round_money : (d : c.Decimal) → c.scale (round_money d) ≤ 2
  unfolding round_money
  scale-round_money d = laws.scale-round_dp d

  -- A value of at most two places that is not below another is at least as many cents.
  pub not_lt :
      (a b : c.Decimal) → c.scale a ≤ 2 → c.scale b ≤ 2 → c.lt a b ≡ false → cents b ≤ℤ cents a
  not_lt a b p q h =
      let e : ltb_ℤ (cents a) (cents b) ≡ false = sym (laws.lt-eq-ltb a b p q) ∙ h in ground arith
