-- ===== src/Tests/Update.antt =====
-- Updates of an account and of a customer on concrete tables.
use cbsa_rust.Prelude.{refl, ok, [], ◌≡◌}
use cbsa_rust.Prelude.Int.{pos}
use cbsa_rust.Text.{codes, text_eq, trim_end, is_whitespace, utf8, all_digits}
use cbsa_rust.Text.Decimal.{format_int, zero_padded, digits, digits_from}
use cbsa_rust.Config.{is_six_ascii_digits}
use cbsa_rust.Domain.Customer
use cbsa_rust.Db.Session.{Session}
use cbsa_rust.Db.Sql.Customers.{find_customer, is_customer, count_customers}
use cbsa_rust.Repository.Frame.{Outcome}
use cbsa_rust.Repository.Customer.{into_customer}
use cbsa_rust.Repository.Updcust.Complete.{update_customer-completes}
use cbsa_rust.Crates.Cents.{cents_crates, Cents-IsLawful, cents_at_two}
use cbsa_rust.Repository.Updcust.{
  UpdateCustomerCommand, resolved_fields, update_customer, is_blankish, all_spaces,
  starts_with_non_space, starts_with_space,
}
use cbsa_rust.Repository.Updcust.Fields.{replaced, resolved_fields_lem}
use cbsa_rust.Service.Updacc
use cbsa_rust.Service.Updacc.{UpdaccRequest}
use cbsa_rust.Service.Updacc.Keeps.{Keeps}
use cbsa_rust.Service.Updcust
use cbsa_rust.Service.Updcust.{UpdcustRequest}
use cbsa_rust.Service.Updcust.Renames.{Reported, update-Reported}
use cbsa_rust.Tests.Data.{branch_code, noon, customer_of}
use cbsa_rust.Tests.Opening.{opening_session, customer_row}

abbrev terms : UpdaccRequest
terms = record {
  account_number = pos 2;
  account_type = codes "SAVING";
  interest_rate = cents_at_two (pos 175);
  overdraft_limit = cents_at_two (pos 2000);
}

abbrev renaming : UpdcustRequest
renaming = record { customer_number = pos 42; name = codes "Dr A Smith"; address = codes " " }

abbrev renaming_command : UpdateCustomerCommand
renaming_command = record {
  sortcode = branch_code;
  customer_number = pos 42;
  name = codes "Dr A Smith";
  address = codes " 2 Low Street";
  transaction_reference = pos 1_700_000_000_000;
  transaction_date = 200;
  transaction_time = 43_200;
}

update-Reported_example :
    Reported
      (Updcust.command_of branch_code renaming noon)
      opening_session.tables
      (Updcust.update branch_code renaming noon opening_session)
update-Reported_example = update-Reported branch_code renaming noon opening_session

resolved_fields_lem_example : resolved_fields (customer_of 700) renaming_command ≡ (
  replaced (codes "Mrs A Smith") (codes "Dr A Smith"),
  replaced (codes "1 High Street") (codes " 2 Low Street"),
)
resolved_fields_lem_example = resolved_fields_lem (customer_of 700) renaming_command

abbrev calm : Session
calm = record opening_session { schedule = [] }

update_customer-completes_example :
    (s' : Session) × (update_customer renaming_command calm
      ≡ (ok (Outcome.success (record (customer_of 700) { name = codes "Dr A Smith" })), s'))
unfolding into_customer Customer.new find_customer is_customer text_eq codes count_customers
    is_blankish all_spaces starts_with_non_space starts_with_space trim_end is_whitespace format_int
    zero_padded digits digits_from is_six_ascii_digits utf8 all_digits
update_customer-completes_example =
    update_customer-completes Cents-IsLawful renaming_command calm customer_row (customer_of 700)
      refl refl refl refl refl refl refl
