-- ===== src/Service/Dbcrfun/Books.antt =====
-- The theorem about the whole service call, whatever the request is and however it ends.
use cbsa_rust.Prelude.{◌≡◌, refl, ok, Result, arith, ◌>>◌, ap, ◌∙◌}
use cbsa_rust.Prelude.Int.{◌+ℤ◌}
use cbsa_rust.Text.{Text}
use cbsa_rust.Crates.{Crates, IsLawful}
use cbsa_rust.Domain.Account.{round_money}
use cbsa_rust.Error.{CbsaError}
use cbsa_rust.Db.Tables.{Tables}
use cbsa_rust.Db.Session.{Session}
use cbsa_rust.Db.Schema.{InRange, IsWellFormed, round_money_lem}
use cbsa_rust.Db.Schema.Balances.{total_available, total_actual}
use cbsa_rust.Repository.Frame.Succeeds.{Returns, Returns_mono}
use cbsa_rust.Repository.Dbcrfun.{DbcrfunCommand, post_transaction, post_transaction_once}
use cbsa_rust.Repository.Dbcrfun.Money.{post_transaction-totals}
use cbsa_rust.Service.Calls.{second_passes, Reports, when_valid-Reports, run_transaction-Reports}
use cbsa_rust.Service.Checks.{validate_sortcode}
use cbsa_rust.Service.Checks.Amount.{validate_amount-InRange, round_money-InRange}
use cbsa_rust.Service.Dbcrfun.{
  DbcrfunRequest, DbcrfunResult, validate_request, command_of, process_valid, process, succeeded,
  failed,
}

module _ ⦃c : Crates⦄ (laws : IsLawful) (amount : c.Decimal) (before : Tables) where
  open laws use {cents}

  -- Both sums moved by the amount.
  pub record Books (after : Tables) : Type 0 where
    pub available :
        total_available laws after.account ≡ total_available laws before.account +ℤ cents amount
    pub actual : total_actual laws after.account ≡ total_actual laws before.account +ℤ cents amount
    pub well_formed : IsWellFormed laws after

  abbrev pub IsBooked : Result CbsaError DbcrfunResult × Session → Type 0
  IsBooked = Reports (λ r. r.account) before (λ _ after. Books after)

module _ ⦃c : Crates⦄ (laws : IsLawful) where
  post_transaction-Books :
      (command : DbcrfunCommand) (amount : c.Decimal) (s : Session)
      → IsWellFormed laws s.tables
      → InRange laws amount
      → command.amount ≡ round_money amount
      → Returns (post_transaction command s) (λ a s'. Books laws amount s.tables s'.tables)
  post_transaction-Books command amount s wf range e =
      let same = ap laws.cents e ∙ (round_money_lem laws amount range.scale_le).1 in
      let rounded : InRange laws command.amount = rw e (round_money-InRange laws amount range) in
      Returns_mono (post_transaction command s) _ _
        (λ a s' (p, q, r). record {
          available = p ∙ ap (λ m. total_available laws s.tables.account +ℤ m) same;
          actual = q ∙ ap (λ m. total_actual laws s.tables.account +ℤ m) same;
          well_formed = r;
        })
        (post_transaction-totals laws command s wf rounded)

  validate_request-InRange :
      (request : DbcrfunRequest) → validate_request request ≡ ok tt → InRange laws request.amount
  unfolding validate_request
  validate_request-InRange request h = validate_amount-InRange laws request.amount (ground arith)

  process_valid-IsBooked :
      (sortcode : Text) (request : DbcrfunRequest) (now : c.DateTime) (s : Session)
      → IsWellFormed laws s.tables
      → InRange laws request.amount
      → IsBooked laws request.amount s.tables (process_valid sortcode request now s)
  unfolding process_valid post_transaction
  process_valid-IsBooked sortcode request now s wf range =
      let command = command_of sortcode request now in
      run_transaction-Reports (λ r. r.account) succeeded failed (post_transaction_once command) _ s
        (λ _ after. Books laws request.amount s.tables after) (λ a. refl) (λ code message. refl)
        (post_transaction-Books command request.amount s wf range refl)

  -- A call of the debit and credit service either reports an account, and then both sums of balances
  -- have moved by exactly the amount of the request and the account table is within its schema, or it
  -- reports none or ends in an error, and then no table has changed; for every request and every
  -- pattern of database failures, when the account table was within its schema before.
  pub process-IsBooked :
      (sortcode : Text) (request : DbcrfunRequest) (now : c.DateTime) (s : Session)
      → IsWellFormed laws s.tables
      → IsBooked laws request.amount s.tables (process sortcode request now s)
  unfolding process
  process-IsBooked sortcode request now s wf =
      when_valid-Reports (λ r. r.account) s.tables _
        (validate_sortcode sortcode >> validate_request request)
        (process_valid sortcode request now) s refl
        (λ h. process_valid-IsBooked sortcode request now s wf (
          validate_request-InRange request
            (second_passes (validate_sortcode sortcode) (validate_request request) h)))
