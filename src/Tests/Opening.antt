-- ===== src/Tests/Opening.antt =====
-- Creations of accounts on concrete tables.
use cbsa_rust.Prelude.{◌≡◌, refl, none, some, [], ◌∷◌, arith, List, length, take, ℕ, All}
use cbsa_rust.Prelude.Int.{ℤ, pos}
use cbsa_rust.Text.{codes, text_eq}
use cbsa_rust.Text.Laws.{read_from}
use cbsa_rust.Text.Digits.{IsDigit}
use cbsa_rust.Text.Decimal.{format_int, zero_padded, digits}
use cbsa_rust.Crates.Cents.{cents_at_two, cents_crates, contention}
use cbsa_rust.Db.Session.{Session}
use cbsa_rust.Db.Tables.{CustomerRow, ControlRow}
use cbsa_rust.Db.Sql.Opening.{find_control}
use cbsa_rust.Repository.Frame.Succeeds.{Returns}
use cbsa_rust.Repository.Creacc.{
  CreateAccountCommand, create_account, opened_account, proctran_description,
}
use cbsa_rust.Repository.Creacc.Effect.{Created, create_account-Created}
use cbsa_rust.Repository.Creacc.Description.{proctran_description_lem}
use cbsa_rust.Repository.Creacc.Numbers.{
  Opened, create_account-Opened, create_all, IsConsecutive, create_all-IsConsecutive,
}
use cbsa_rust.Tests.Data.{tables, branch_code}

abbrev pub customer_row : CustomerRow
customer_row = record {
  sortcode = branch_code;
  customer_number = pos 42;
  name = codes "Mrs A Smith";
  address = codes "1 High Street";
  date_of_birth = 30;
  credit_score = pos 700;
  cs_review_date = some 210;
}

abbrev pub control_row : ControlRow
control_row = record {
  id = codes "GLOBAL";
  customer_count = pos 1;
  customer_last = pos 42;
  account_count = pos 3;
  account_last = pos 3;
}

abbrev pub opening_session : Session
opening_session = record {
  tables = record tables { customer = customer_row ∷ []; control = control_row ∷ [] };
  sequence = 11;
  schedule = none ∷ some contention ∷ [];
}

abbrev creation_of : ℤ → CreateAccountCommand
creation_of customer = record {
  sortcode = branch_code;
  customer_number = customer;
  account_type = codes "ISA";
  interest_rate = cents_at_two (pos 210);
  overdraft_limit = cents_at_two (pos 0);
  available_balance = cents_at_two (pos 0);
  actual_balance = cents_at_two (pos 0);
  opened = 200;
  last_statement_date = 200;
  next_statement_date = 230;
  transaction_reference = pos 1_700_000_000_000;
  transaction_date = 200;
  transaction_time = 43_200;
}

-- The second customer is not there.
abbrev commands : List CreateAccountCommand
commands = creation_of (pos 42) ∷ creation_of (pos 77) ∷ creation_of (pos 42) ∷ []

abbrev created_count : ℕ
created_count = length (create_all commands opening_session).0

create_account-Created_example :
    Returns
      (create_account (creation_of (pos 42)) opening_session)
      (λ a s'. Created (creation_of (pos 42)) opening_session.tables a s'.tables)
create_account-Created_example = create_account-Created (creation_of (pos 42)) opening_session

create_account-Opened_example :
    Returns
      (create_account (creation_of (pos 42)) opening_session)
      (λ a s'. Opened (creation_of (pos 42)) opening_session.tables a s'.tables)
create_account-Opened_example = create_account-Opened (creation_of (pos 42)) opening_session

create_all-IsConsecutive_example : IsConsecutive (pos 3) (create_all commands opening_session).0
unfolding find_control text_eq codes
create_all-IsConsecutive_example =
    create_all-IsConsecutive commands opening_session control_row refl

proctran_description_lem_example :
    (length (proctran_description (opened_account (creation_of (pos 42)) (pos 4))) ≡ 40)
    × All IsDigit (take 10 (proctran_description (opened_account (creation_of (pos 42)) (pos 4))))
    × (read_from 0 (take 10 (proctran_description (opened_account (creation_of (pos 42)) (pos 4))))
        ≡ 42)
unfolding format_int zero_padded digits
proctran_description_lem_example =
    proctran_description_lem (creation_of (pos 42)) 42 (omega arith) refl refl refl (pos 4)
