-- ===== src/Service/Xfrfun/Conservation.antt =====
-- The theorems about the whole service call, whatever the request is and however it ends.
use cbsa_rust.Prelude.{◌≡◌, ◌≢◌, refl, ok, arith, Bool-cases, inl, inr, ◌>>◌}
use cbsa_rust.Prelude.Int.{int_eq, int_eq_iff}
use cbsa_rust.Text.{Text}
use cbsa_rust.Crates.{Crates, IsLawful}
use cbsa_rust.Db.Tables.{Tables}
use cbsa_rust.Db.Session.{Session}
use cbsa_rust.Db.Schema.{InRange, IsWellFormed}
use cbsa_rust.Db.Schema.Balances.{total_available, total_actual}
use cbsa_rust.Repository.Frame.Succeeds.{Returns_mono, Returns_keeps}
use cbsa_rust.Repository.Xfrfun.{XfrfunCommand, transfer_funds, transfer_funds_once}
use cbsa_rust.Repository.Xfrfun.Effect.{transfer_funds-Atomic}
use cbsa_rust.Repository.Xfrfun.Conservation.{transfer_funds-conserves}
use cbsa_rust.Service.Calls.{when_valid-cases, second_passes}
use cbsa_rust.Service.Checks.{validate_sortcode}
use cbsa_rust.Service.Checks.Amount.{validate_amount-InRange, round_money-InRange}
use cbsa_rust.Service.Xfrfun.{
  XfrfunRequest, validate_request, command_of, transfer_validated, transfer,
}

module _ ⦃c : Crates⦄ (laws : IsLawful) where
  -- No money was made or lost, and the table is within its schema.
  pub record Keeps (before after : Tables) : Type 0 where
    pub available : total_available laws after.account ≡ total_available laws before.account
    pub actual : total_actual laws after.account ≡ total_actual laws before.account
    pub well_formed : IsWellFormed laws after

  Keeps-refl : (t : Tables) → IsWellFormed laws t → Keeps t t
  Keeps-refl t h = record { available = refl; actual = refl; well_formed = h }

  transfer_funds-Keeps :
      (command : XfrfunCommand) (s : Session)
      → IsWellFormed laws s.tables
      → InRange laws command.amount
      → command.from_account_number ≢ command.to_account_number
      → Keeps s.tables (transfer_funds command s).1.tables
  transfer_funds-Keeps command s wf amount apart =
      Returns_keeps (transfer_funds_once command) (Keeps s.tables) s.tables
        (transfer_funds command s) (Keeps-refl s.tables wf) (transfer_funds-Atomic command s)
        (Returns_mono (transfer_funds command s) _ _
          (λ t s' (p, q, r). record { available = p; actual = q; well_formed = r })
          (transfer_funds-conserves laws command s wf amount apart))

  validate_request-InRange :
      (request : XfrfunRequest) → validate_request request ≡ ok tt → InRange laws request.amount
  unfolding validate_request
  validate_request-InRange request h = validate_amount-InRange laws request.amount (ground arith)

  transfer_validated-Keeps :
      (sortcode : Text) (request : XfrfunRequest) (now : c.DateTime) (s : Session)
      → IsWellFormed laws s.tables
      → InRange laws request.amount
      → Keeps s.tables (transfer_validated sortcode request now s).1.tables
  unfolding transfer_validated
  transfer_validated-Keeps sortcode request now s wf amount =
      elim (Bool-cases (c.lt c.decimal_zero request.amount)) [
        | inr unpaid ↦ rw unpaid (Keeps-refl s.tables wf)
        | inl positive ↦
            rw positive
              (elim (Bool-cases (int_eq request.from_account_number request.to_account_number)) [
                | inl same ↦ rw same (Keeps-refl s.tables wf)
                | inr other ↦ rw other (
                    transfer_funds-Keeps (command_of sortcode request now) s wf
                      (round_money-InRange laws request.amount amount)
                      (λ e.
                        ground (
                          arith,
                          int_eq_iff request.from_account_number request.to_account_number,
                        )))
              ])
      ]

  -- A call of the transfer service, whatever the request is and however it ends, leaves the sum of all
  -- available balances and the sum of all actual balances as they were, and the account table within
  -- its schema, when the table was within its schema before.
  pub transfer-Keeps :
      (sortcode : Text) (request : XfrfunRequest) (now : c.DateTime) (s : Session)
      → IsWellFormed laws s.tables
      → Keeps s.tables (transfer sortcode request now s).1.tables
  unfolding transfer
  transfer-Keeps sortcode request now s wf =
      let first = validate_sortcode sortcode in
      let second = validate_request request in
      when_valid-cases (λ x. Keeps s.tables x.1.tables) (first >> second)
        (transfer_validated sortcode request now) s (λ e. Keeps-refl s.tables wf)
        (λ h.
          transfer_validated-Keeps sortcode request now s wf
            (validate_request-InRange request (second_passes first second h)))
