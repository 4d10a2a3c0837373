-- ===== src/Text/Decimal.antt =====
-- `format!` of integers: `{}` and the zero-padded `{:08}` and `{:010}`.
use cbsa_rust.Prelude.{
  ℕ, zero, suc, ◌+◌, ◌-◌, ◌/◌, ◌%◌, [], ◌∷◌, ◌++◌, ltb, if◌then◌else◌, length, replicate,
}
use cbsa_rust.Prelude.Int.{ℤ, pos, negsuc}
use cbsa_rust.Text.Defs.{Text}

-- The digits of `n` before `acc`. Each round drops one digit, so `n + 1` rounds are enough.
unfoldable pub digits_from : ℕ → ℕ → Text → Text
digits_from zero n acc = acc
digits_from (suc fuel) n acc =
    let digit = b'0' + n % 10 in
    let rest = digits_from fuel (n / 10) (digit ∷ acc) in if ltb n 10 then digit ∷ acc else rest

unfoldable pub digits : ℕ → Text
unfolding digits_from
digits n = digits_from (suc n) n []

unfoldable pub zero_padded : ℕ → ℕ → Text
zero_padded width n = replicate (width - length (digits n)) b'0' ++ digits n

-- `{}` of an `i64`.
unfoldable pub show_int : ℤ → Text
show_int (pos n) = digits n
show_int (negsuc n) = b'-' ∷ digits (suc n)

-- `{:0width}` of an `i64`: the sign counts in the width and stands before the zeros.
unfoldable pub format_int : ℕ → ℤ → Text
format_int width (pos n) = zero_padded width n
format_int width (negsuc n) = b'-' ∷ zero_padded (width - 1) (suc n)
