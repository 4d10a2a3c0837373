-- ===== src/Tests/Facts.antt =====
-- The concrete tables are within their schema.
use cbsa_rust.Prelude.{◌≤◌, refl, arith}
use cbsa_rust.Prelude.Int.{ℤ, pos_part, neg_part}
use cbsa_rust.Text.{Text, codes, text_eq}
use cbsa_rust.Crates.Cents.{cents_at_two, cents_crates, Cents-IsLawful}
use cbsa_rust.Db.Schema.{IsStored, IsWellFormed, IsKeyed, InRange, numeric_limit}
use cbsa_rust.Db.Sql.{find_account, is_account}
use cbsa_rust.Tests.Data.{tables, accounts, row_of}

pub in_range :
    (n : ℤ)
    → pos_part n ≤ numeric_limit
    → neg_part n ≤ numeric_limit
    → InRange Cents-IsLawful (cents_at_two n)
in_range n p q = record { scale_le = omega arith; pos_le = p; neg_le = q }

row_of-IsStored :
    (number : ℤ) (overdraft balance : ℤ)
    → pos_part overdraft ≤ numeric_limit
    → neg_part overdraft ≤ numeric_limit
    → pos_part balance ≤ numeric_limit
    → neg_part balance ≤ numeric_limit
    → (kind : Text) → IsStored Cents-IsLawful (row_of number kind overdraft balance)
row_of-IsStored number overdraft balance p q p' q' kind = record {
  available = in_range balance p' q';
  actual = in_range balance p' q';
  overdraft = in_range overdraft p q;
}

tables-IsKeyed : IsKeyed accounts
unfolding find_account is_account text_eq codes
tables-IsKeyed = (refl, (refl, (refl, tt)))

pub tables-IsWellFormed : IsWellFormed Cents-IsLawful tables
tables-IsWellFormed = record {
  stored = (
    row_of-IsStored _ _ _ (omega arith) (omega arith) (omega arith) (omega arith) _,
    (
      row_of-IsStored _ _ _ (omega arith) (omega arith) (omega arith) (omega arith) _,
      (row_of-IsStored _ _ _ (omega arith) (omega arith) (omega arith) (omega arith) _, tt),
    ),
  );
  keyed = tables-IsKeyed;
}
