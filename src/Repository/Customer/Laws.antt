-- ===== src/Repository/Customer/Laws.antt =====
-- What a customer that was read holds, and the length of the description.
use cbsa_rust.Prelude.{ℕ, ◌^◌, ◌<◌, ◌≡◌, refl, ok, arith, length, length-append, ◌++◌}
use cbsa_rust.Prelude.Int.{ℤ, pos, negsuc}
use cbsa_rust.Text.{trim_end, pad_or_truncate}
use cbsa_rust.Text.Decimal.{format_int}
use cbsa_rust.Text.Laws.{length-pad_or_truncate, format_int_lem}
use cbsa_rust.Crates.{Crates}
use cbsa_rust.Domain.Customer
use cbsa_rust.Domain.Customer.{CustomerDetails}
use cbsa_rust.Db.Tables.{CustomerRow}
use cbsa_rust.Repository.Customer.{into_customer, from_score, customer_description}

module _ ⦃c : Crates⦄ where
  -- The customer that a row stands for.
  pub record IsCustomerOf (row : CustomerRow) (d : CustomerDetails) : Type 0 where
    pub sortcode : d.sortcode ≡ row.sortcode
    pub customer_number : d.customer_number ≡ row.customer_number
    pub name : d.name ≡ trim_end row.name
    pub address : d.address ≡ trim_end row.address
    pub date_of_birth : d.date_of_birth ≡ row.date_of_birth
    pub credit_score : pos d.credit_score ≡ row.credit_score
    pub review_date : d.credit_score_review_date ≡ row.cs_review_date

  from_score-IsCustomerOf :
      (row : CustomerRow) (score : ℤ) (d : CustomerDetails)
      → row.credit_score ≡ score
      → from_score row score ≡ ok d
      → IsCustomerOf row d
  unfolding Customer.new
  from_score-IsCustomerOf row (pos score) d same e = ground arith
  from_score-IsCustomerOf row (negsuc n) d same e = cc

  pub into_customer-IsCustomerOf :
      (row : CustomerRow) (d : CustomerDetails) → into_customer row ≡ ok d → IsCustomerOf row d
  unfolding into_customer
  into_customer-IsCustomerOf row d e = from_score-IsCustomerOf row row.credit_score d refl e

  -- The description of a customer of a six character sortcode with a number of at most ten digits has
  -- exactly the 40 characters of its column, when dates are written with ten.
  pub length-customer_description :
      (d : CustomerDetails) (n : ℕ)
      → length d.sortcode ≡ 6
      → d.customer_number ≡ pos n
      → n < 10 ^ 10
      → length (c.format_dd_mm_yyyy d.date_of_birth) ≡ 10
      → length (customer_description d) ≡ 40
  unfolding customer_description
  length-customer_description d n six same small ten =
      let digits = format_int 10 (pos n) in
      let name = pad_or_truncate d.name 14 in
      let date = c.format_dd_mm_yyyy d.date_of_birth in
      rw same (
        omega (
          arith,
          six,
          ten,
          (format_int_lem 9 n small).0,
          length-pad_or_truncate d.name 14,
          length-append d.sortcode (digits ++ (name ++ date)),
          length-append digits (name ++ date),
          length-append name date,
        ))
