-- ===== src/Service/Updcust/Renames.antt =====
-- The theorem about the whole service call, whatever the request is and however it ends.
use cbsa_rust.Prelude.{refl, Result, ◌>>◌, Bool-cases, inl, inr}
use cbsa_rust.Text.{Text}
use cbsa_rust.Crates.{Crates}
use cbsa_rust.Error.{CbsaError}
use cbsa_rust.Db.Tables.{Tables}
use cbsa_rust.Db.Session.{Session}
use cbsa_rust.Repository.Updcust.{UpdateCustomerCommand, update_customer, update_customer_once}
use cbsa_rust.Repository.Updcust.Effect.{Renames, update_customer-Renames}
use cbsa_rust.Service.Calls.{Reports, when_valid-Reports, run_transaction-Reports}
use cbsa_rust.Service.Checks.{validate_sortcode}
use cbsa_rust.Service.Titles.{updated_title}
use cbsa_rust.Service.Updcust.{
  UpdcustRequest, UpdcustResult, validate_request, command_of, update_valid, update, failed,
  succeeded,
}

module _ ⦃c : Crates⦄ where
  abbrev pub Reported :
      UpdateCustomerCommand → Tables → Result CbsaError UpdcustResult × Session → Type 0
  Reported command before = Reports (λ r. r.customer) before (Renames command before)

  update_valid-Reported :
      (sortcode : Text) (request : UpdcustRequest) (now : c.DateTime) (s : Session)
      → Reported (command_of sortcode request now) s.tables (update_valid sortcode request now s)
  unfolding update_valid update_customer
  update_valid-Reported sortcode request now s =
      let command = command_of sortcode request now in
      elim (Bool-cases (updated_title request.name)) [
        | inr other ↦ rw other refl
        | inl title ↦ rw title (
            run_transaction-Reports (λ r. r.customer) succeeded failed
              (update_customer_once command) _ s (Renames command s.tables) (λ a. refl)
              (λ code message. refl) (update_customer-Renames command s))
      ]

  -- A call of the service that updates a customer either reports the customer, and then only the name
  -- and the address of that customer have changed, each of them only by a new value that is not empty
  -- and does not start with a space or by the loss of white space at its end, and no other customer of the
  -- branch, no account and no counter; or it reports none or ends in an error, and then no table has
  -- changed; for every request and every pattern of database failures.
  pub update-Reported :
      (sortcode : Text) (request : UpdcustRequest) (now : c.DateTime) (s : Session)
      → Reported (command_of sortcode request now) s.tables (update sortcode request now s)
  unfolding update
  update-Reported sortcode request now s =
      when_valid-Reports (λ r. r.customer) s.tables _
        (validate_sortcode sortcode >> validate_request request) (update_valid sortcode request now)
        s refl (λ _. update_valid-Reported sortcode request now s)
