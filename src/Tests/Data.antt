-- ===== src/Tests/Data.antt =====
-- Concrete tables, requests and commands for the tests and the examples.
use cbsa_rust.Prelude.{ℕ, Option, none, some, List, [], ◌∷◌}
use cbsa_rust.Prelude.Int.{ℤ, pos, negsuc}
use cbsa_rust.Text.{Text, codes}
use cbsa_rust.Crates.Cents.{cents_at_two, Instant, DbFault, cents_crates}
use cbsa_rust.Domain.Account.{AccountDetails}
use cbsa_rust.Domain.Customer.{CustomerDetails}
use cbsa_rust.Db.Tables.{AccountRow, Tables}
use cbsa_rust.Db.Session.{Session}
use cbsa_rust.Repository.Xfrfun.{XfrfunCommand}
use cbsa_rust.Repository.Dbcrfun.{DbcrfunCommand}
use cbsa_rust.Service.Xfrfun.{XfrfunRequest}
use cbsa_rust.Service.Dbcrfun.{DbcrfunOrigin, DbcrfunRequest}

abbrev pub branch_code : Text
branch_code = codes "987654"

abbrev pub row_of : ℤ → Text → ℤ → ℤ → AccountRow
row_of number kind overdraft balance = record {
  sortcode = branch_code;
  customer_number = pos 42;
  account_number = number;
  account_type = kind;
  interest_rate = cents_at_two (pos 150);
  opened = 100;
  overdraft_limit = cents_at_two overdraft;
  last_stmt_date = none;
  next_stmt_date = none;
  available_balance = cents_at_two balance;
  actual_balance = cents_at_two balance;
}

-- An account with 50.00 and an overdraft limit of 10.00, a loan with -7.00, an empty account.
abbrev pub accounts : List AccountRow
accounts =
    row_of (pos 1) (codes "CURRENT ") (pos 1000) (pos 5000)
    ∷ row_of (pos 2) (codes "LOAN    ") (pos 0) (negsuc 699)
    ∷ row_of (pos 3) (codes "SAVING  ") (pos 0) (pos 0)
    ∷ []

abbrev pub tables : Tables
tables = record { customer = []; account = accounts; proctran = []; control = [] }

-- Nothing fails.
abbrev pub quiet : Session
quiet = record { tables = tables; sequence = 11; schedule = [] }

abbrev pub session_with : List (Option DbFault) → Session
session_with schedule = record quiet { schedule = schedule }

abbrev pub noon : Instant
noon = record { day = 200; millis = pos 1_700_000_000_000; clock = 43_200 }

abbrev pub transfer_of : ℤ → ℤ → ℤ → XfrfunCommand
transfer_of source target amount = record {
  sortcode = branch_code;
  from_account_number = source;
  to_account_number = target;
  amount = cents_at_two amount;
  transaction_reference = pos 1_700_000_000_000;
  transaction_date = 200;
  transaction_time = 43_200;
}

abbrev pub request_of : ℤ → ℤ → ℤ → XfrfunRequest
request_of source target amount = record {
  from_account_number = source;
  to_account_number = target;
  amount = cents_at_two amount;
}

abbrev pub origin_of : ℤ → DbcrfunOrigin
origin_of facility = record {
  applid = codes "CBSA";
  userid = codes "USER1";
  facility_name = codes "F1";
  netwrk_id = codes "N1";
  facility_type = facility;
  fill0 = [];
}

abbrev pub posting_of : ℤ → ℤ → ℤ → DbcrfunRequest
posting_of number amount facility = record {
  account_number = number;
  amount = cents_at_two amount;
  origin = origin_of facility;
}

abbrev pub post_of : ℤ → ℤ → ℤ → DbcrfunCommand
post_of number amount facility = record {
  sortcode = branch_code;
  account_number = number;
  amount = cents_at_two amount;
  facility_type = facility;
  payment_origin_description = codes "CBSA    USER1 ";
  transaction_reference = pos 1_700_000_000_000;
  transaction_date = 200;
  transaction_time = 43_200;
}

abbrev pub account_of : ℤ → AccountDetails
account_of balance = record {
  sortcode = branch_code;
  customer_number = pos 42;
  account_number = pos 1;
  account_type = codes "CURRENT ";
  interest_rate = cents_at_two (pos 150);
  opened = 100;
  overdraft_limit = cents_at_two (pos 1000);
  last_statement_date = none;
  next_statement_date = none;
  available_balance = cents_at_two balance;
  actual_balance = cents_at_two balance;
}

abbrev pub customer_of : ℕ → CustomerDetails
customer_of score = record {
  sortcode = branch_code;
  customer_number = pos 42;
  name = codes "Mrs A Smith";
  address = codes "1 High Street";
  date_of_birth = 30;
  credit_score = score;
  credit_score_review_date = some 210;
}
