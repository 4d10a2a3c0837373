-- ===== src/Tests/Frame.antt =====
-- The retry loop and the frame, on the read of one account and on a transfer.
use cbsa_rust.Prelude.{◌≡◌, refl, none, some, [], ◌∷◌, arith, Option, ℕ, replicate}
use cbsa_rust.Prelude.Int.{pos}
use cbsa_rust.Text.{Text, codes}
use cbsa_rust.Crates.Cents.{cents_crates, contention}
use cbsa_rust.Db.Tables.{AccountRow}
use cbsa_rust.Db.Session.{Session, Stmt, execute}
use cbsa_rust.Db.Retry.{with_retry, is_serialization_failure}
use cbsa_rust.Db.Retry.Bound.{Fails, with_retry_recovers, with_retry_exhausts}
use cbsa_rust.Db.Sql.{select_account}
use cbsa_rust.Repository.Frame.{run_transaction}
use cbsa_rust.Repository.Frame.Atomic.{Atomic, run_transaction-Atomic}
use cbsa_rust.Repository.Xfrfun.{transfer_funds_once}
use cbsa_rust.Tests.Data.{tables, session_with, transfer_of, branch_code}

abbrev read_first : Stmt (Option AccountRow)
read_first = select_account branch_code (pos 1)

with_retry_recovers_example :
    with_retry read_first (session_with (some contention ∷ none ∷ []))
    ≡ read_first (session_with (none ∷ []))
unfolding select_account execute is_serialization_failure
with_retry_recovers_example =
    with_retry_recovers read_first 1 (session_with (some contention ∷ none ∷ []))
      (session_with (none ∷ [])) (omega arith)
      (contention, session_with (none ∷ []), refl, refl, refl) tt

abbrev failed : ℕ → Session
failed n = session_with (replicate n (some contention))

four-Fails : Fails read_first 4 (failed 5) (failed 1)
unfolding select_account execute is_serialization_failure
four-Fails =
    let last : Fails read_first 1 (failed 2) (failed 1) =
      (contention, failed 1, refl, refl, refl) in
    let third : Fails read_first 2 (failed 3) (failed 1) =
      (contention, failed 2, refl, refl, last) in
    let second : Fails read_first 3 (failed 4) (failed 1) =
      (contention, failed 3, refl, refl, third) in
    (contention, failed 4, refl, refl, second)

with_retry_exhausts_example : with_retry read_first (failed 5) ≡ read_first (failed 1)
with_retry_exhausts_example = with_retry_exhausts read_first (failed 5) (failed 1) four-Fails

abbrev exhausted : Text
exhausted = codes "exhausted"

run_transaction-Atomic_example :
    Atomic (transfer_funds_once (transfer_of (pos 1) (pos 2) (pos 3000))) tables (
      run_transaction exhausted
        (transfer_funds_once (transfer_of (pos 1) (pos 2) (pos 3000)))
        (session_with (none ∷ some contention ∷ [])))
run_transaction-Atomic_example =
    run_transaction-Atomic (transfer_funds_once (transfer_of (pos 1) (pos 2) (pos 3000))) exhausted
      (session_with (none ∷ some contention ∷ []))
