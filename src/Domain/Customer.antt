-- ===== src/Domain/Customer.antt =====
-- `CustomerProfile` and `CustomerDetails` of `domain.rs`.
use cbsa_rust.Prelude.{ℕ, Option, not, if◌then◌else◌, ltb, Result, ok, err, length}
use cbsa_rust.Prelude.Int.{ℤ, pos, contains}
use cbsa_rust.Text.{Text, codes, trim, is_empty}
use cbsa_rust.Config.{is_six_ascii_digits}
use cbsa_rust.Crates.{Crates}

abbrev pub max_customer_number : ℤ
max_customer_number = pos 9_999_999_999

abbrev pub max_customer_name_chars : ℕ
max_customer_name_chars = 60

abbrev pub max_customer_address_chars : ℕ
max_customer_address_chars = 160

pub record CustomerProfile : Type 0 where
  pub name : Text
  pub address : Text

-- `CustomerProfile::new`.
unfoldable pub new_profile : Text → Text → Result Text CustomerProfile
new_profile name address =
    if is_empty (trim name)
    then err (codes "name must not be blank")
    else if ltb max_customer_name_chars (length name)
    then err (codes "name must be at most 60 characters")
    else if ltb max_customer_address_chars (length address)
    then err (codes "address must be at most 160 characters")
    else ok (record { name = name; address = address })

module _ ⦃c : Crates⦄ where
  pub record CustomerDetails : Type 0 where
    pub sortcode : Text
    pub customer_number : ℤ
    pub name : Text
    pub address : Text
    pub date_of_birth : c.Date
    pub credit_score : ℕ
    pub credit_score_review_date : Option c.Date

  -- `CustomerDetails::new`.
  unfoldable pub new :
      Text → ℤ → Text → Text → c.Date → ℕ → Option c.Date → Result Text CustomerDetails
  new sortcode customer_number name address date_of_birth credit_score review_date =
      if not (is_six_ascii_digits sortcode)
      then err (codes "sortcode must be exactly 6 ASCII digits")
      else if not (contains (pos 0) max_customer_number customer_number)
      then err (codes "customer_number must be between 0 and 9999999999")
      else if ltb 999 credit_score
      then err (codes "credit_score must be between 0 and 999")
      else ok (record {
        sortcode = sortcode;
        customer_number = customer_number;
        name = name;
        address = address;
        date_of_birth = date_of_birth;
        credit_score = credit_score;
        credit_score_review_date = review_date;
      })
