-- ===== src/Repository/Xfrfun/Description.antt =====
-- The description of the audit row of a transfer.
use cbsa_rust.Prelude.{
  ℕ, suc, ◌+◌, ◌^◌, ◌<◌, ◌≡◌, ◌∙◌, ap, arith, length, length-append, drop, drop-append, ◌++◌, List,
  [], ◌∷◌, All,
}
use cbsa_rust.Prelude.Int.{pos}
use cbsa_rust.Text.{Text, codes, pad_or_truncate}
use cbsa_rust.Text.Decimal.{format_int}
use cbsa_rust.Text.Laws.{length-pad_or_truncate, read_from, format_int_lem}
use cbsa_rust.Text.Digits.{IsDigit, format_int_digits}
use cbsa_rust.Repository.Xfrfun.{transfer_description}

drop-append_two :
    {A : Type 0} (xs ys zs : List A) → drop (length xs + length ys) (xs ++ (ys ++ zs)) ≡ zs
drop-append_two [] ys zs =
    let size : 0 + length ys ≡ length ys = omega arith in rw size (drop-append ys zs)
drop-append_two (x ∷ xs) ys zs =
    let size : suc (length xs) + length ys ≡ suc (length xs + length ys) = omega arith in
    rw size (drop-append_two xs ys zs)

-- For a sortcode of six characters and an account number of at most eight digits, the description of
-- a transfer has exactly the 40 characters of its column, and its last eight characters are digits
-- that read as the account number.
pub transfer_description_lem :
    (sortcode : Text) (n : ℕ)
    → length sortcode ≡ 6
    → n < 10 ^ 8
    → (length (transfer_description sortcode (pos n)) ≡ 40)
      × All IsDigit (drop 32 (transfer_description sortcode (pos n)))
      × (read_from 0 (drop 32 (transfer_description sortcode (pos n))) ≡ n)
unfolding transfer_description
transfer_description_lem sortcode n six small =
    let title = pad_or_truncate (codes "TRANSFER") 26 in
    let number = format_int 8 (pos n) in
    let (size, value) = format_int_lem 7 n small in
    let title_size = length-pad_or_truncate (codes "TRANSFER") 26 in
    let tail : drop 32 (title ++ (sortcode ++ number)) ≡ number =
      rw (title_size, six) at (drop-append_two title sortcode number) in
    (
      omega (
        arith,
        title_size,
        size,
        six,
        length-append title (sortcode ++ number),
        length-append sortcode number,
      ),
      rw tail (format_int_digits 8 n),
      ap (read_from 0) tail ∙ value,
    )
