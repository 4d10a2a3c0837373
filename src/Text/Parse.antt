-- ===== src/Text/Parse.antt =====
-- `str::parse::<i64>` of the Rust library: an optional sign and at least one ASCII digit, within the
-- 64 bits of the type.
use cbsa_rust.Prelude.{
  ℕ, zero, suc, ◌+◌, ◌/◌, ◌%◌, ◌<◌, ◌^◌, ◌≡◌, refl, true, false, ◌&&◌, not, Option, none, some, [],
  ◌∷◌, ltb, leb, ◌==◌, if◌then◌else◌, arith, Bool-cases, inl, inr,
}
use cbsa_rust.Prelude.Int.{ℤ, pos, neg_ℤ}
use cbsa_rust.Text.{Text, all_digits, is_empty}
use cbsa_rust.Text.Decimal.{digits, digits_from, show_int}
use cbsa_rust.Text.Laws.{read_from, read_from-digits}

-- The number of the digits after a sign.
abbrev pub parse_digits : Text → Option ℕ
parse_digits t = if not (is_empty t) && all_digits t then some (read_from 0 t) else none

abbrev pub positive : Option ℕ → Option ℤ
positive none = none
positive (some n) = if ltb n (2 ^ 63) then some (pos n) else none

abbrev pub negative : Option ℕ → Option ℤ
negative none = none
negative (some n) = if leb n (2 ^ 63) then some (neg_ℤ (pos n)) else none

unfoldable pub parse_i64 : Text → Option ℤ
parse_i64 [] = none
parse_i64 (c ∷ cs) =
    if c == b'-'
    then negative (parse_digits cs)
    else if c == b'+'
    then positive (parse_digits cs)
    else positive (parse_digits (c ∷ cs))

all_digits-digits_from :
    (fuel n : ℕ) (acc : Text) → all_digits acc ≡ true → all_digits (digits_from fuel n acc) ≡ true
unfolding digits_from all_digits
all_digits-digits_from zero n acc h = h
all_digits-digits_from (suc fuel) n acc h =
    let digit = b'0' + n % 10 in
    let more : all_digits (digit ∷ acc) ≡ true = ground arith in
    elim (Bool-cases (ltb n 10)) [
      | inl last ↦ rw last more
      | inr rest ↦ rw rest (all_digits-digits_from fuel (n / 10) (digit ∷ acc) more)
    ]

is_empty-digits_from :
    (fuel n : ℕ) (acc : Text) → is_empty acc ≡ false → is_empty (digits_from fuel n acc) ≡ false
unfolding digits_from
is_empty-digits_from zero n acc h = h
is_empty-digits_from (suc fuel) n acc h = elim (Bool-cases (ltb n 10)) [
  | inl last ↦ rw last refl
  | inr rest ↦ rw rest (is_empty-digits_from fuel (n / 10) ((b'0' + n % 10) ∷ acc) refl)
]

is_empty-digits : (n : ℕ) → is_empty (digits n) ≡ false
unfolding digits digits_from
is_empty-digits n = elim (Bool-cases (ltb n 10)) [
  | inl last ↦ rw last refl
  | inr rest ↦ rw rest (is_empty-digits_from n (n / 10) ((b'0' + n % 10) ∷ []) refl)
]

all_digits-digits : (n : ℕ) → all_digits (digits n) ≡ true
unfolding digits all_digits
all_digits-digits n = all_digits-digits_from (suc n) n [] refl

parse_numeral :
    (t : Text) (n : ℕ)
    → is_empty t ≡ false
    → all_digits t ≡ true
    → read_from 0 t ≡ n
    → n < 2 ^ 63
    → parse_i64 t ≡ some (pos n)
unfolding parse_i64 all_digits
parse_numeral [] n e h r small = cc
parse_numeral (c ∷ cs) n e h r small = ground arith

-- A number of a path that was written in decimal is read back.
pub parse_i64-show_int : (n : ℕ) → n < 2 ^ 63 → parse_i64 (show_int (pos n)) ≡ some (pos n)
unfolding show_int
parse_i64-show_int n small =
    parse_numeral (digits n) n (is_empty-digits n) (all_digits-digits n) (read_from-digits n) small
