-- ===== src/Tests/Customer.antt =====
-- Creations and deletions of customers, and the accounts of a customer, on concrete tables.
use cbsa_rust.Prelude.{◌≡◌, ◌≤◌, refl, List, [], ◌∷◌, ok, arith}
use mathlib.Core.List.Perm
use cbsa_rust.Prelude.Int.{pos}
use cbsa_rust.Text.{codes}
use cbsa_rust.Crates.Cents.{cents_crates, cents_at_two}
use cbsa_rust.Service.Creacc
use cbsa_rust.Service.Creacc.{CreaccRequest}
use cbsa_rust.Service.Creacc.Capacity.{IsOpened, create-IsOpened}
use cbsa_rust.Service.Crecust
use cbsa_rust.Service.Crecust.{CrecustRequest}
use cbsa_rust.Service.Crecust.Credit.{Reply, CreditDecision, evaluate_credit, gather}
use cbsa_rust.Service.Crecust.Credit.Mean.{evaluate_credit-between}
use cbsa_rust.Service.Crecust.Credit.Order.{evaluate_credit-order}
use cbsa_rust.Service.Crecust.Registers.{IsRegistered, create-IsRegistered}
use cbsa_rust.Service.Delcus
use cbsa_rust.Service.Delcus.{DelcusRequest}
use cbsa_rust.Service.Delcus.Closes.{IsCleared, delete-IsCleared}
use cbsa_rust.Tests.Data.{branch_code, noon}
use cbsa_rust.Tests.Facts.{tables-IsWellFormed}
use cbsa_rust.Tests.Opening.{opening_session}

abbrev new_account : CreaccRequest
new_account = record {
  customer_number = pos 42;
  account_type = codes "ISA";
  interest_rate = cents_at_two (pos 210);
  overdraft_limit = cents_at_two (pos 0);
  available_balance = cents_at_two (pos 0);
  actual_balance = cents_at_two (pos 0);
}

abbrev new_customer : CrecustRequest
new_customer = record {
  name = codes "Mr B Jones";
  address = codes "3 Long Lane";
  date_of_birth = 120;
}

abbrev departure : DelcusRequest
departure = record { customer_number = pos 42 }

abbrev first_replies : List Reply
first_replies = Reply.scored (ok 500) ∷ Reply.lost ∷ []

abbrev second_replies : List Reply
second_replies = Reply.lost ∷ Reply.scored (ok 500) ∷ []

abbrev decision : CreditDecision
decision = record { credit_score = 500; review_date = 207 }

create-IsOpened_example :
    IsOpened branch_code new_account noon opening_session.tables
      (Creacc.create branch_code new_account noon 7 opening_session)
create-IsOpened_example = create-IsOpened branch_code new_account noon 7 opening_session

create-IsRegistered_example :
    IsRegistered branch_code new_customer noon opening_session.tables
      (Crecust.create branch_code new_customer first_replies 7 noon opening_session)
create-IsRegistered_example =
    create-IsRegistered branch_code new_customer first_replies 7 noon opening_session

delete-IsCleared_example :
    IsCleared
      (Delcus.command_of branch_code departure noon)
      opening_session.tables
      (Delcus.delete branch_code departure noon opening_session)
delete-IsCleared_example =
    delete-IsCleared branch_code departure noon opening_session tables-IsWellFormed.keyed

evaluate_credit-between_example : (500 ≤ 500) × (500 ≤ 500) × (500 ≤ 998)
unfolding evaluate_credit gather
evaluate_credit-between_example =
    evaluate_credit-between 500 500 first_replies 200 7 decision
      ((λ _. (omega arith, omega arith)), (tt, tt)) refl

evaluate_credit-order_example :
    evaluate_credit first_replies 200 7 ≡ evaluate_credit second_replies 200 7
evaluate_credit-order_example =
    evaluate_credit-order first_replies second_replies 200 7 (Perm.swap _ _ []) (tt, (tt, tt))
      (omega arith)
