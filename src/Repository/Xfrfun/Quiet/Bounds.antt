-- ===== src/Repository/Xfrfun/Quiet/Bounds.antt =====
-- Bounds on the balances and on the description of a transfer, on integers.
use cbsa_rust.Prelude.{ℕ, Bool, ◌⊎◌, inl, inr, ◌≤◌, ◌<◌, ◌^◌, ◌≡◌, true, ap, arith, length, ◌||◌}
use cbsa_rust.Prelude.Int.{
  bounded, ◌<ℤ◌, ℤ, pos, negsuc, neg_ℤ, pos_part, neg_part, int_laws, ◌+ℤ◌, ◌-ℤ◌, ◌≤ℤ◌, ltb_ℤ,
}
use cbsa_rust.Config.{is_six_ascii_digits}
use cbsa_rust.Config.Laws.{is_six_ascii_digits_iff}
use cbsa_rust.Text.{Text}
use cbsa_rust.Domain.Account.{max_account_number}
use cbsa_rust.Repository.Xfrfun.{transfer_description}
use cbsa_rust.Repository.Xfrfun.Description.{transfer_description_lem}

-- One of the two tests for funds fails.
pub over_either :
    {p q : Bool} (a m b l : ℤ)
    → p ≡ ltb_ℤ (a -ℤ m) (pos 0)
    → q ≡ ltb_ℤ (b -ℤ m) l
    → (a <ℤ m) ⊎ (b -ℤ m <ℤ l)
    → (p || q) ≡ true
over_either {p} {q} a m b l e e' (inl h) =
    let below : pos_part (a -ℤ m) < neg_part (a -ℤ m) = omega int_laws in ground arith
over_either {p} {q} a m b l e e' (inr h) = ground arith

-- A balance after a debit or a credit stays within the limit.
pub after_debit :
    (x a m low : ℤ) (k : ℕ)
    → x ≡ a -ℤ m
    → pos_part a ≤ k
    → pos 1 ≤ℤ m
    → neg_ℤ (pos k) ≤ℤ low
    → low ≤ℤ a -ℤ m
    → (pos_part x ≤ k) × (neg_part x ≤ k)
after_debit x a m low k e p q r t =
    bounded x k (omega (int_laws, ap pos_part e, ap neg_part e))
      (omega (int_laws, ap pos_part e, ap neg_part e))

pub after_credit :
    (x a m : ℤ) (k : ℕ)
    → x ≡ a +ℤ m
    → neg_part a ≤ k
    → pos 1 ≤ℤ m
    → a +ℤ m ≤ℤ pos k
    → (pos_part x ≤ k) × (neg_part x ≤ k)
after_credit x a m k e p q r =
    bounded x k (omega (int_laws, ap pos_part e, ap neg_part e))
      (omega (int_laws, ap pos_part e, ap neg_part e))

pub description_le :
    (sortcode : Text) (n : ℤ)
    → is_six_ascii_digits sortcode ≡ true
    → pos 0 ≤ℤ n
    → n ≤ℤ max_account_number
    → length (transfer_description sortcode n) ≤ 40
description_le sortcode (pos n) six p q =
    let (length_six, _) = (is_six_ascii_digits_iff sortcode).0 six in
    let small : n < 10 ^ 8 = omega arith in
    let (size, _, _) = transfer_description_lem sortcode n length_six small in omega arith
description_le sortcode (negsuc n) six p q = omega arith
