-- ===== src/Tests/Payment.antt =====
-- Debits and credits on concrete tables: a payment of 12.34 out of account 1.
use cbsa_rust.Prelude.{◌≡◌, refl, ok, err, [], ◌∷◌, ◌++◌, arith, false, ℕ, length}
use cbsa_rust.Prelude.Int.{ℤ, pos, negsuc, ◌≤ℤ◌}
use cbsa_rust.Crates.Cents.{cents_at_two, cents_crates, Cents-IsLawful}
use cbsa_rust.Db.Sql.{find_account}
use cbsa_rust.Repository.Frame.{Outcome}
use cbsa_rust.Repository.Frame.Succeeds.{Returns}
use cbsa_rust.Repository.Dbcrfun.{
  DbcrfunCommand, post_transaction, audit_row, is_restricted_account_type, proctran_description,
}
use cbsa_rust.Repository.Dbcrfun.Money.{
  BalanceMoves, post_transaction-BalanceMoves, post_transaction-others,
}
use cbsa_rust.Repository.Dbcrfun.Payments.{length-proctran_description, post_transaction-payments}
use cbsa_rust.Tests.Data.{tables, quiet, accounts, post_of, posting_of, noon, branch_code}
use cbsa_rust.Service.Dbcrfun.{process}
use cbsa_rust.Service.Dbcrfun.Books.{IsBooked, process-IsBooked}
use cbsa_rust.Tests.Facts.{in_range, tables-IsWellFormed}

abbrev paid_out : DbcrfunCommand
paid_out = post_of (pos 1) (negsuc 1233) (pos 496)

abbrev balance_left : ℤ
balance_left = elim (post_transaction paid_out quiet).0 [
  | ok (Outcome.success a) ↦ a.available_balance.amount
  | ok (Outcome.failure code message) ↦ pos 0
  | err e ↦ pos 1
]

post_transaction-BalanceMoves_example :
    Returns
      (post_transaction paid_out quiet)
      (λ a s'. BalanceMoves Cents-IsLawful paid_out tables a s'.tables)
post_transaction-BalanceMoves_example =
    post_transaction-BalanceMoves Cents-IsLawful paid_out quiet tables-IsWellFormed
      (in_range (negsuc 1233) (omega arith) (omega arith))

post_transaction-others_example : Returns (post_transaction paid_out quiet) (λ a s'.
    (find_account branch_code (pos 2) s'.tables.account ≡ find_account branch_code (pos 2) accounts)
    × (s'.tables.customer ≡ [])
    × (s'.tables.control ≡ [])
    × ((counter : ℕ) × (s'.tables.proctran
          ≡ [] ++ (record (audit_row paid_out a) { counter = counter } ∷ []))))
post_transaction-others_example =
    post_transaction-others Cents-IsLawful paid_out quiet tables-IsWellFormed
      (in_range (negsuc 1233) (omega arith) (omega arith)) (pos 2) (λ e. ground arith)

post_transaction-payments_example : Returns (post_transaction paid_out quiet) (λ a s'.
    (is_restricted_account_type a.account_type ≡ false) × (pos 0 ≤ℤ a.available_balance.amount))
unfolding cbsa_rust.Repository.Dbcrfun.is_payment_facility
post_transaction-payments_example =
    post_transaction-payments Cents-IsLawful paid_out quiet refl refl

length-proctran_description_example : length (proctran_description paid_out) ≡ 40
length-proctran_description_example = length-proctran_description paid_out

process-IsBooked_example :
    IsBooked Cents-IsLawful
      (cents_at_two (negsuc 1233))
      tables
      (process branch_code (posting_of (pos 1) (negsuc 1233) (pos 496)) noon quiet)
process-IsBooked_example =
    process-IsBooked Cents-IsLawful branch_code (posting_of (pos 1) (negsuc 1233) (pos 496)) noon
      quiet tables-IsWellFormed
