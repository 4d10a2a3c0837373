-- ===== src/Domain/Account.antt =====
-- `AccountDetails` of `domain.rs`.
use cbsa_rust.Prelude.{Option, not, if◌then◌else◌, ltb, Result, ok, err, length}
use cbsa_rust.Prelude.Int.{ℤ, pos, contains}
use cbsa_rust.Text.{Text, codes}
use cbsa_rust.Config.{is_six_ascii_digits}
use cbsa_rust.Crates.{Crates}
use cbsa_rust.Domain.Customer.{max_customer_number}

abbrev pub max_account_number : ℤ
max_account_number = pos 99_999_999

module _ ⦃c : Crates⦄ where
  pub record AccountDetails : Type 0 where
    pub sortcode : Text
    pub customer_number : ℤ
    pub account_number : ℤ
    pub account_type : Text
    pub interest_rate : c.Decimal
    pub opened : c.Date
    pub overdraft_limit : c.Decimal
    pub last_statement_date : Option c.Date
    pub next_statement_date : Option c.Date
    pub available_balance : c.Decimal
    pub actual_balance : c.Decimal

  unfoldable pub round_money : c.Decimal → c.Decimal
  round_money value = c.round_dp 2 value

  -- `AccountDetails::new`: the fields are given as the record that is to be checked.
  unfoldable pub new : AccountDetails → Result Text AccountDetails
  new a =
      if not (is_six_ascii_digits a.sortcode)
      then err (codes "sortcode must be exactly 6 ASCII digits")
      else if not (contains (pos 0) max_customer_number a.customer_number)
      then err (codes "customer_number must be between 0 and 9999999999")
      else if not (contains (pos 0) max_account_number a.account_number)
      then err (codes "account_number must be between 0 and 99999999")
      else if ltb 8 (length a.account_type)
      then err (codes "account_type must be at most 8 characters")
      else ok (record a {
        interest_rate = round_money a.interest_rate;
        overdraft_limit = round_money a.overdraft_limit;
        available_balance = round_money a.available_balance;
        actual_balance = round_money a.actual_balance;
      })
