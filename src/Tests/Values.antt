-- ===== src/Tests/Values.antt =====
-- The checks of values, on concrete ones.
use cbsa_rust.Prelude.{◌≡◌, refl, ◌↔◌, true, arith, length}
use cbsa_rust.Prelude.Int.{pos}
use cbsa_rust.Text.{codes, utf8, all_digits}
use cbsa_rust.Text.Decimal.{format_int}
use cbsa_rust.Text.Laws.{read_from, format_int_lem}
use cbsa_rust.Crates.Cents.{cents_crates}
use cbsa_rust.Config.{is_six_ascii_digits}
use cbsa_rust.Config.Laws.{is_six_ascii_digits_iff}
use cbsa_rust.Domain.Customer.{CustomerProfile}
use cbsa_rust.Domain.Account
use cbsa_rust.Domain.Account.{round_money}
use cbsa_rust.Domain.Laws.{AccountChecked, new-AccountChecked}
use cbsa_rust.Tests.Data.{account_of, branch_code}

abbrev smith : CustomerProfile
smith = record { name = codes "Mrs A Smith"; address = codes "1 High Street" }

format_int_lem_example :
    (length (format_int 8 (pos 42)) ≡ 8) × (read_from 0 (format_int 8 (pos 42)) ≡ 42)
format_int_lem_example = format_int_lem 7 42 (omega arith)

is_six_ascii_digits_iff_example :
    (is_six_ascii_digits branch_code ≡ true)
    ↔ ((length branch_code ≡ 6) × (all_digits branch_code ≡ true))
is_six_ascii_digits_iff_example = is_six_ascii_digits_iff branch_code

new-AccountChecked_example :
    AccountChecked (account_of (pos 5000))
    × (account_of (pos 5000) ≡ record (account_of (pos 5000)) {
      interest_rate = round_money (account_of (pos 5000)).interest_rate;
      overdraft_limit = round_money (account_of (pos 5000)).overdraft_limit;
      available_balance = round_money (account_of (pos 5000)).available_balance;
      actual_balance = round_money (account_of (pos 5000)).actual_balance;
    })
unfolding Account.new is_six_ascii_digits utf8 codes all_digits round_money
new-AccountChecked_example = new-AccountChecked (account_of (pos 5000)) refl
