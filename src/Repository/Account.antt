-- ===== src/Repository/Account.antt =====
-- `AccountRow` as the repository modules read it: the conversion to `AccountDetails`, which each of
-- them repeats.
pub mod Money
use cbsa_rust.Prelude.{Result}
use cbsa_rust.Text.{Text, trim_end}
use cbsa_rust.Crates.{Crates}
use cbsa_rust.Domain.Account
use cbsa_rust.Domain.Account.{AccountDetails, round_money}
use cbsa_rust.Db.Tables.{AccountRow}

module _ ⦃c : Crates⦄ where
  -- The fields that `into_account` hands to `AccountDetails::new`.
  abbrev pub row_fields : AccountRow → AccountDetails
  row_fields row = record {
    sortcode = row.sortcode;
    customer_number = row.customer_number;
    account_number = row.account_number;
    account_type = trim_end row.account_type;
    interest_rate = row.interest_rate;
    opened = row.opened;
    overdraft_limit = row.overdraft_limit;
    last_statement_date = row.last_stmt_date;
    next_statement_date = row.next_stmt_date;
    available_balance = row.available_balance;
    actual_balance = row.actual_balance;
  }

  unfoldable pub into_account : AccountRow → Result Text AccountDetails
  into_account row = Account.new (row_fields row)

  -- The fields as `Account.new` stores them.
  abbrev pub stored : AccountDetails → AccountDetails
  stored a = record a {
    interest_rate = round_money a.interest_rate;
    overdraft_limit = round_money a.overdraft_limit;
    available_balance = round_money a.available_balance;
    actual_balance = round_money a.actual_balance;
  }

  abbrev pub loaded : AccountRow → AccountDetails
  loaded row = stored (row_fields row)
