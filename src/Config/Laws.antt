-- ===== src/Config/Laws.antt =====
-- What the sortcode check accepts.
use cbsa_rust.Prelude.{◌≡◌, refl, ◌↔◌, true, [], ◌∷◌, arith, length}
use cbsa_rust.Text.{Text, utf8, all_digits}
use cbsa_rust.Config.{is_six_ascii_digits}

-- Only an ASCII digit is written with digit bytes, and then with one.
all_digits-utf8 :
    (s : Text)
    → (all_digits (utf8 s) ≡ all_digits s) × (all_digits s ≡ true → length (utf8 s) ≡ length s)
unfolding all_digits utf8
all_digits-utf8 [] = (refl, λ _. refl)
all_digits-utf8 (c ∷ cs) = ground (arith, all_digits-utf8 cs)

-- The sortcode check passes exactly the texts of six characters that are all ASCII digits, although
-- it measures and tests the bytes of the UTF-8 form.
pub is_six_ascii_digits_iff :
    (s : Text) → (is_six_ascii_digits s ≡ true) ↔ ((length s ≡ 6) × (all_digits s ≡ true))
unfolding is_six_ascii_digits
is_six_ascii_digits_iff s =
    let (same, size) = all_digits-utf8 s in (λ h. ground (arith), λ h. ground (arith))
