-- ===== src/Text/Digits.antt =====
-- The characters that the formatted numbers are made of.
use cbsa_rust.Prelude.{
  ℕ, zero, suc, ◌+◌, ◌-◌, ◌/◌, ◌%◌, ◌≤◌, [], ◌∷◌, ◌++◌, All, arith, ltb, length, replicate,
  Bool-cases, inl, inr,
}
use cbsa_rust.Prelude.Int.{pos}
use cbsa_rust.Text.Defs.{Text}
use cbsa_rust.Text.Decimal.{digits_from, digits, zero_padded, format_int}

-- A character from `0` to `9`.
abbrev pub IsDigit : ℕ → Type 0
IsDigit c = (48 ≤ c) × (c ≤ 57)

digits_from_lem : (fuel n : ℕ) (acc : Text) → All IsDigit acc → All IsDigit (digits_from fuel n acc)
unfolding digits_from
digits_from_lem zero n acc h = h
digits_from_lem (suc fuel) n acc h =
    let digit : IsDigit (b'0' + n % 10) = (omega arith, omega arith) in
    elim (Bool-cases (ltb n 10)) [
      | inl last ↦ rw last (digit, h)
      | inr more ↦ rw more (digits_from_lem fuel (n / 10) ((b'0' + n % 10) ∷ acc) (digit, h))
    ]

zeros_lem : (k : ℕ) (ds : Text) → All IsDigit ds → All IsDigit (replicate k b'0' ++ ds)
zeros_lem zero ds h = h
zeros_lem (suc k) ds h = ((omega arith, omega arith), zeros_lem k ds h)

-- A number that is not negative is written with digits only, the padding included.
pub format_int_digits : (width n : ℕ) → All IsDigit (format_int width (pos n))
unfolding format_int zero_padded digits
format_int_digits width n =
    zeros_lem (width - length (digits n)) (digits n) (digits_from_lem (suc n) n [] tt)
