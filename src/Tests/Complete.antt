-- ===== src/Tests/Complete.antt =====
-- A transfer that goes through: 30.00 from account 1 to account 2.
use cbsa_rust.Prelude.{◌≡◌, refl, ok, arith, inr}
use cbsa_rust.Prelude.Int.{pos, negsuc, ◌+ℤ◌, ◌-ℤ◌}
use cbsa_rust.Text.{codes, text_eq, utf8, all_digits, trim_end}
use cbsa_rust.Config.{is_six_ascii_digits}
use cbsa_rust.Crates.Cents.{cents_crates, Cents-IsLawful}
use cbsa_rust.Db.Session.{Session}
use cbsa_rust.Db.Sql.{find_account, is_account}
use cbsa_rust.Db.Tables.{AccountRow}
use cbsa_rust.Repository.Frame.{Outcome}
use cbsa_rust.Repository.Xfrfun.{from, to, XfrfunCommand, SuccessfulTransfer, transfer_funds}
use cbsa_rust.Repository.Xfrfun.Quiet.{Available, short_of_funds}
use cbsa_rust.Repository.Xfrfun.Complete.{
  Payable, transfer_funds-completes, transfer_funds-overdrawn,
}
use cbsa_rust.Repository.Xfrfun.Refused.{refusal_message, transfer_funds-not_found}
use cbsa_rust.Domain.Account.{AccountDetails}
use cbsa_rust.Repository.Dbcrfun.{DbcrfunCommand, is_restricted_account_type, post_transaction}
use cbsa_rust.Repository.Dbcrfun.Complete.{Postable, post_transaction-completes}
use cbsa_rust.Tests.Data.{post_of, quiet, transfer_of, row_of}
use cbsa_rust.Tests.Facts.{in_range, tables-IsWellFormed}

abbrev thirty : XfrfunCommand
thirty = transfer_of (pos 1) (pos 2) (pos 3000)

abbrev first : AccountRow
first = row_of (pos 1) (codes "CURRENT ") (pos 1000) (pos 5000)

abbrev second : AccountRow
second = row_of (pos 2) (codes "LOAN    ") (pos 0) (negsuc 699)

first-Available : Available thirty from quiet first
unfolding find_account is_account text_eq codes is_six_ascii_digits utf8 all_digits trim_end
first-Available = record {
  found = refl;
  valid = record {
    sortcode_ok = refl;
    customer_ge = omega arith;
    customer_le = omega arith;
    number_ge = omega arith;
    number_le = omega arith;
    type_le = omega arith;
  };
}

second-Available : Available thirty to quiet second
unfolding find_account is_account text_eq codes is_six_ascii_digits utf8 all_digits trim_end
second-Available = record {
  found = refl;
  valid = record {
    sortcode_ok = refl;
    customer_ge = omega arith;
    customer_le = omega arith;
    number_ge = omega arith;
    number_le = omega arith;
    type_le = omega arith;
  };
}

first_again-Available : Available (transfer_of (pos 1) (pos 2) (pos 6001)) from quiet first
first_again-Available = record { found = first-Available.found; valid = first-Available.valid }

second_again-Available : Available (transfer_of (pos 1) (pos 2) (pos 6001)) to quiet second
second_again-Available = record { found = second-Available.found; valid = second-Available.valid }

thirty-Payable : Payable Cents-IsLawful thirty first second
unfolding ◌+ℤ◌ ◌-ℤ◌
thirty-Payable = record {
  positive = omega arith;
  funds = omega arith;
  overdraft = omega arith;
  available_room = omega arith;
  actual_room = omega arith;
}

transfer_funds-completes_example :
    (done : SuccessfulTransfer) × (s' : Session) × (transfer_funds thirty quiet
      ≡ (ok (Outcome.success done), s'))
transfer_funds-completes_example =
    transfer_funds-completes Cents-IsLawful thirty quiet first second tables-IsWellFormed
      (in_range (pos 3000) (omega arith) (omega arith)) first-Available second-Available
      thirty-Payable refl (λ e. ground arith)

-- 60.01 is more than the account has with its overdraft limit.
abbrev too_much : XfrfunCommand
too_much = transfer_of (pos 1) (pos 2) (pos 6001)

transfer_funds-overdrawn_example :
    transfer_funds too_much quiet ≡ (ok (Outcome.failure "3" (short_of_funds too_much)), quiet)
unfolding ◌-ℤ◌
transfer_funds-overdrawn_example =
    transfer_funds-overdrawn Cents-IsLawful too_much quiet first second tables-IsWellFormed
      (in_range (pos 6001) (omega arith) (omega arith)) first_again-Available second_again-Available
      refl (inr (omega arith))

-- There is no account 9.
abbrev to_nowhere : XfrfunCommand
to_nowhere = transfer_of (pos 1) (pos 9) (pos 3000)

transfer_funds-not_found_example :
    transfer_funds to_nowhere quiet
    ≡ (ok (Outcome.failure "2" (refusal_message to_nowhere to)), quiet)
unfolding find_account is_account text_eq codes
transfer_funds-not_found_example =
    transfer_funds-not_found to_nowhere quiet to first refl refl first-Available.found
      first-Available.valid

-- 12.34 paid out of account 1 through the payment facility.
abbrev paid_out : DbcrfunCommand
paid_out = post_of (pos 1) (negsuc 1233) (pos 496)

paid_out-Postable : Postable Cents-IsLawful paid_out first
unfolding ◌+ℤ◌ ◌-ℤ◌ is_restricted_account_type trim_end text_eq codes
paid_out-Postable = record {
  available_high = omega arith;
  available_low = omega arith;
  actual_high = omega arith;
  actual_low = omega arith;
  unrestricted = λ _. refl;
  funds = λ _ _. omega arith;
}

post_transaction-completes_example :
    (done : AccountDetails) × (s' : Session) × (post_transaction paid_out quiet
      ≡ (ok (Outcome.success done), s'))
post_transaction-completes_example =
    post_transaction-completes Cents-IsLawful paid_out quiet first tables-IsWellFormed
      (in_range (negsuc 1233) (omega arith) (omega arith)) first-Available.found
      first-Available.valid paid_out-Postable refl
