-- ===== src/Domain/Laws.antt =====
-- What the constructors of the domain types guarantee.
use cbsa_rust.Prelude.{◌≤◌, ◌≡◌, ◌↔◌, true, false, arith, length, ok}
use cbsa_rust.Prelude.Int.{pos, ◌≤ℤ◌}
use cbsa_rust.Text.{Text, trim, is_empty}
use cbsa_rust.Config.{is_six_ascii_digits}
use cbsa_rust.Crates.{Crates}
use cbsa_rust.Domain.Customer.{CustomerProfile, CustomerDetails, new_profile, max_customer_number}
use cbsa_rust.Domain.Customer
use cbsa_rust.Domain.Account.{AccountDetails, max_account_number, round_money}
use cbsa_rust.Domain.Account

-- A profile is made exactly when the name is not blank and neither text is too long, and then it
-- holds the two texts as they were given.
pub new_profile_iff :
    (name address : Text) (p : CustomerProfile)
    → (new_profile name address ≡ ok p) ↔ (
        (is_empty (trim name) ≡ false)
        × (length name ≤ 60)
        × (length address ≤ 160)
        × (p.name ≡ name)
        × (p.address ≡ address))
unfolding new_profile
new_profile_iff name address p = (λ h. ground arith, λ h. ground arith)

module _ ⦃c : Crates⦄ where
  -- What `Customer.new` checks.
  pub record CustomerChecked (d : CustomerDetails) : Type 0 where
    pub sortcode_ok : is_six_ascii_digits d.sortcode ≡ true
    pub number_ge : pos 0 ≤ℤ d.customer_number
    pub number_le : d.customer_number ≤ℤ max_customer_number
    pub score_le : d.credit_score ≤ 999

  -- `CustomerDetails::new` succeeds exactly on details that pass the checks, and returns them.
  pub new-CustomerChecked :
      (d : CustomerDetails)
      → (Customer.new d.sortcode d.customer_number d.name d.address d.date_of_birth d.credit_score
            d.credit_score_review_date
          ≡ ok d)
        ↔ CustomerChecked d
  unfolding Customer.new
  new-CustomerChecked d = (λ h. ground arith, λ h. ground arith)

  -- What `Account.new` checks and establishes.
  pub record AccountChecked (a : AccountDetails) : Type 0 where
    pub sortcode_ok : is_six_ascii_digits a.sortcode ≡ true
    pub customer_ge : pos 0 ≤ℤ a.customer_number
    pub customer_le : a.customer_number ≤ℤ max_customer_number
    pub number_ge : pos 0 ≤ℤ a.account_number
    pub number_le : a.account_number ≤ℤ max_account_number
    pub type_le : length a.account_type ≤ 8

  pub new-AccountChecked :
      (a : AccountDetails) {b : AccountDetails}
      → Account.new a ≡ ok b
      → AccountChecked a
        × (b ≡ record a {
          interest_rate = round_money a.interest_rate;
          overdraft_limit = round_money a.overdraft_limit;
          available_balance = round_money a.available_balance;
          actual_balance = round_money a.actual_balance;
        })
  unfolding Account.new
  new-AccountChecked a h = ground arith

  -- The converse: what passes the checks is accepted, with its money rounded.
  pub AccountChecked-new :
      (a : AccountDetails)
      → AccountChecked a
      → Account.new a
        ≡ ok (record a {
          interest_rate = round_money a.interest_rate;
          overdraft_limit = round_money a.overdraft_limit;
          available_balance = round_money a.available_balance;
          actual_balance = round_money a.actual_balance;
        })
  unfolding Account.new
  AccountChecked-new a h = ground arith

  -- The checks do not look at the money.
  pub with_money-AccountChecked :
      (a : AccountDetails) (rate limit available actual : c.Decimal)
      → AccountChecked a
      → AccountChecked (record a {
        interest_rate = rate;
        overdraft_limit = limit;
        available_balance = available;
        actual_balance = actual;
      })
  with_money-AccountChecked a rate limit available actual h = record {
    sortcode_ok = h.sortcode_ok;
    customer_ge = h.customer_ge;
    customer_le = h.customer_le;
    number_ge = h.number_ge;
    number_le = h.number_le;
    type_le = h.type_le;
  }
