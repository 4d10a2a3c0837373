-- ===== src/Repository/Customer.antt =====
-- `CustomerRow` as the repository modules read it, and the description that they write to the audit
-- rows of customers: the conversion and the description stand in several of them with the same text.
pub mod Laws
use cbsa_rust.Prelude.{ℕ, ◌++◌, Option, some, Result, ok, err, map_err, false}
use cbsa_rust.Prelude.Int.{ℤ, pos, negsuc}
use cbsa_rust.Text.{Text, codes, pad_or_truncate, trim_end}
use cbsa_rust.Text.Decimal.{format_int}
use cbsa_rust.Crates.{Crates}
use cbsa_rust.Domain.Customer
use cbsa_rust.Domain.Customer.{CustomerDetails}
use cbsa_rust.Error.{CbsaError, validation}
use cbsa_rust.Db.Tables.{CustomerRow, ProctranRow}

module _ ⦃c : Crates⦄ where
  abbrev pub checked_score : CustomerRow → ℕ → Result CbsaError CustomerDetails
  checked_score row score = map_err validation (
      Customer.new row.sortcode row.customer_number (trim_end row.name) (trim_end row.address)
        row.date_of_birth score row.cs_review_date)

  -- `u16::try_from` of the score, then `CustomerDetails::new`.
  abbrev pub from_score : CustomerRow → ℤ → Result CbsaError CustomerDetails
  from_score row (pos score) = checked_score row score
  from_score row (negsuc n) = err (validation (codes "credit_score must be between 0 and 999"))

  unfoldable pub into_customer : CustomerRow → Result CbsaError CustomerDetails
  into_customer row = from_score row row.credit_score

  unfoldable pub customer_description : CustomerDetails → Text
  customer_description customer =
      customer.sortcode
      ++ (format_int 10 customer.customer_number
          ++ (pad_or_truncate customer.name 14 ++ c.format_dd_mm_yyyy customer.date_of_birth))
