-- ===== src/Text/Laws.antt =====
-- Laws of the text helpers.
use native.Mathlib.Nat.{pow-suc}
use cbsa_rust.Prelude.{
  ℕ, zero, suc, ◌+◌, ◌-◌, ◌*◌, ◌/◌, ◌%◌, ◌^◌, ◌≤◌, ◌<◌, ◌≡◌, refl, ap, ◌∙◌, true, List, [], ◌∷◌,
  ◌++◌, arith, ltb, length, take, replicate, length-append, length-take, length-replicate,
  Bool-cases, inl, inr,
}
use cbsa_rust.Prelude.Int.{pos}
use cbsa_rust.Text.Defs.{Text, text_eq, pad_or_truncate}
use cbsa_rust.Text.Decimal.{digits_from, digits, zero_padded, format_int}

pub text_eq_refl : (s : Text) → text_eq s s ≡ true
unfolding text_eq
text_eq_refl [] = refl
text_eq_refl (c ∷ cs) = ground (arith, text_eq_refl cs)

pub text_eq_sound : (s t : Text) → text_eq s t ≡ true → s ≡ t
unfolding text_eq
text_eq_sound [] [] h = refl
text_eq_sound [] (d ∷ ds) h = ground arith
text_eq_sound (c ∷ cs) [] h = ground arith
text_eq_sound (c ∷ cs) (d ∷ ds) h = ground (arith, text_eq_sound cs ds)

pub length-pad_or_truncate :
    (value : Text) (width : ℕ) → length (pad_or_truncate value width) ≡ width
unfolding pad_or_truncate
length-pad_or_truncate value width =
    let kept = take width value in
    let spaces : List ℕ = replicate (width - length kept) b' ' in
    omega (
      arith,
      length-append kept spaces,
      length-replicate {A = ℕ} (width - length kept) b' ',
      length-take width value,
    )

-- A number below 10 ^ (k + 1) has at most k + 1 digits.
length-digits_from :
    (k fuel n : ℕ) (acc : Text)
    → n < 10 ^ suc k
    → n < fuel
    → length (digits_from fuel n acc) ≤ suc k + length acc
unfolding digits_from
length-digits_from k zero n acc h f = omega arith
length-digits_from zero (suc fuel) n acc h f = ground arith
length-digits_from (suc k) (suc fuel) n acc h f = elim (Bool-cases (ltb n 10)) [
  | inl last ↦ rw last (omega arith)
  | inr more ↦
      let shorter : n / 10 < 10 ^ suc k = omega (arith, pow-suc 10 (suc k)) in
      let fewer : n / 10 < fuel = ground arith in
      let digit = b'0' + n % 10 in
      rw more (omega (arith, length-digits_from k fuel (n / 10) (digit ∷ acc) shorter fewer))
]

length-digits : (k n : ℕ) → n < 10 ^ suc k → length (digits n) ≤ suc k
unfolding digits
length-digits k n h = omega (arith, length-digits_from k (suc n) n [] h (omega arith))

pub length-zero_padded : (k n : ℕ) → n < 10 ^ suc k → length (zero_padded (suc k) n) ≡ suc k
unfolding zero_padded
length-zero_padded k n h =
    let zeros : List ℕ = replicate (suc k - length (digits n)) b'0' in
    omega (
      arith,
      length-append zeros (digits n),
      length-replicate {A = ℕ} (suc k - length (digits n)) b'0',
      length-digits k n h,
    )

-- The number that a text of digits stands for, read from the left.
abbrev pub read_from : ℕ → Text → ℕ
read_from value [] = value
read_from value (c ∷ cs) = read_from (value * 10 + (c - b'0')) cs

read_from-digits_from :
    (fuel n : ℕ) (acc : Text) → n < fuel → read_from 0 (digits_from fuel n acc) ≡ read_from n acc
unfolding digits_from
read_from-digits_from zero n acc h = absurd (omega arith)
read_from-digits_from (suc fuel) n acc h = elim (Bool-cases (ltb n 10)) [
  | inl last ↦
      let value : 0 * 10 + (b'0' + n % 10 - b'0') ≡ n = ground arith in
      rw last (ap (λ v. read_from v acc) value)
  | inr more ↦
      let value : n / 10 * 10 + (b'0' + n % 10 - b'0') ≡ n = omega arith in
      rw more (
        read_from-digits_from fuel (n / 10) ((b'0' + n % 10) ∷ acc) (ground arith)
        ∙ ap (λ v. read_from v acc) value)
]

read_from-zeros : (k : ℕ) (ds : Text) → read_from 0 (replicate k b'0' ++ ds) ≡ read_from 0 ds
read_from-zeros zero ds = refl
read_from-zeros (suc k) ds = read_from-zeros k ds

pub read_from-digits : (n : ℕ) → read_from 0 (digits n) ≡ n
unfolding digits
read_from-digits n = read_from-digits_from (suc n) n [] (omega arith)

-- Reading a zero-padded number gives it back.
pub read_from-zero_padded : (width n : ℕ) → read_from 0 (zero_padded width n) ≡ n
unfolding zero_padded digits
read_from-zero_padded width n =
    read_from-zeros (width - length (digits n)) (digits n)
    ∙ read_from-digits_from (suc n) n [] (omega arith)

-- The zero-padded form of a number below 10 ^ width is exactly `width` characters long and reads
-- back as that number, so two different numbers never share it.
pub format_int_lem :
    (k n : ℕ)
    → n < 10 ^ suc k
    → (length (format_int (suc k) (pos n)) ≡ suc k) × (read_from 0 (format_int (suc k) (pos n)) ≡ n)
unfolding format_int
format_int_lem k n h = (length-zero_padded k n h, read_from-zero_padded (suc k) n)
