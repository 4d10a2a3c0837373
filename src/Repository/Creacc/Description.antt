-- ===== src/Repository/Creacc/Description.antt =====
-- The description of the audit row of a creation.
use cbsa_rust.Prelude.{
  ℕ, ◌^◌, ◌<◌, ◌≡◌, ◌∙◌, ap, refl, arith, length, length-append, take, take-append, ◌++◌, All,
}
use cbsa_rust.Prelude.Int.{ℤ, pos}
use cbsa_rust.Text.{Text, codes, pad_or_truncate}
use cbsa_rust.Text.Decimal.{format_int}
use cbsa_rust.Text.Laws.{length-pad_or_truncate, read_from, format_int_lem}
use cbsa_rust.Text.Digits.{IsDigit, format_int_digits}
use cbsa_rust.Crates.{Crates}
use cbsa_rust.Repository.Creacc.{CreateAccountCommand, opened_account, proctran_description}

module _ ⦃c : Crates⦄ where
  spaces_six : length (codes "      ") ≡ 6
  unfolding codes
  spaces_six = refl

  -- For a customer number of at most ten digits, and statement dates that are written with eight
  -- characters, the description of a creation has exactly the 40 characters of its column, and its
  -- first ten characters are digits that read as the customer number.
  pub proctran_description_lem :
      (command : CreateAccountCommand) (customer : ℕ)
      → customer < 10 ^ 10
      → command.customer_number ≡ pos customer
      → length (c.format_ddmmyyyy command.last_statement_date) ≡ 8
      → length (c.format_ddmmyyyy command.next_statement_date) ≡ 8
      → (number : ℤ)
      → (length (proctran_description (opened_account command number)) ≡ 40)
        × All IsDigit (take 10 (proctran_description (opened_account command number)))
        × (read_from 0 (take 10 (proctran_description (opened_account command number))) ≡ customer)
  unfolding proctran_description
  proctran_description_lem command customer small same last next number =
      let digits = format_int 10 (pos customer) in
      let kind = pad_or_truncate command.account_type 8 in
      let first = c.format_ddmmyyyy command.last_statement_date in
      let second = c.format_ddmmyyyy command.next_statement_date in
      let tail : Text = kind ++ (first ++ (second ++ codes "      ")) in
      let (size, value) = format_int_lem 9 customer small in
      let head : take 10 (digits ++ tail) ≡ digits = rw size at (take-append digits tail) in
      rw same (
        omega (
          arith,
          size,
          last,
          next,
          spaces_six,
          length-pad_or_truncate command.account_type 8,
          length-append digits tail,
          length-append kind (first ++ (second ++ codes "      ")),
          length-append first (second ++ codes "      "),
          length-append second (codes "      "),
        ),
        rw head (format_int_digits 10 customer),
        ap (read_from 0) head ∙ value,
      )
