-- ===== src/Service/Delcus/Closes.antt =====
-- The theorem about the whole service call, whatever the request is and however it ends.
use cbsa_rust.Prelude.{refl, Result, ◌>>◌}
use cbsa_rust.Text.{Text}
use cbsa_rust.Crates.{Crates}
use cbsa_rust.Error.{CbsaError}
use cbsa_rust.Db.Tables.{Tables}
use cbsa_rust.Db.Session.{Session}
use cbsa_rust.Db.Schema.{IsKeyed}
use cbsa_rust.Repository.Delcus.{
  DeleteCustomerCommand, delete_customer_with_accounts, delete_customer_once,
}
use cbsa_rust.Repository.Delcus.Closes.{Closes, delete_customer-Closes}
use cbsa_rust.Service.Calls.{Reports, when_valid-Reports, run_transaction-Reports}
use cbsa_rust.Service.Checks.{validate_sortcode}
use cbsa_rust.Service.Delcus.{
  DelcusRequest, DelcusResult, validate_request, command_of, delete_valid, delete, succeeded,
  failed,
}

module _ ⦃c : Crates⦄ where
  abbrev pub IsCleared :
      DeleteCustomerCommand → Tables → Result CbsaError DelcusResult × Session → Type 0
  IsCleared command before = Reports (λ r. r.customer) before (Closes command before)

  delete_valid-IsCleared :
      (sortcode : Text) (request : DelcusRequest) (now : c.DateTime) (s : Session)
      → IsKeyed s.tables.account
      → IsCleared (command_of sortcode request now) s.tables (delete_valid sortcode request now s)
  unfolding delete_valid delete_customer_with_accounts
  delete_valid-IsCleared sortcode request now s keyed =
      let command = command_of sortcode request now in
      run_transaction-Reports (λ r. r.customer) succeeded failed (delete_customer_once command) _ s
        (Closes command s.tables) (λ a. refl) (λ code message. refl)
        (delete_customer-Closes command s keyed)

  -- A call of the service that deletes a customer either reports the customer, and then neither the
  -- customer nor an account of the customer is left, there were at most 20 accounts, the audit trail
  -- has one more ODA row for each of them and one ODC row, and the accounts of the others, the other
  -- customers of the branch and the counters are as they were; or it reports none or ends in an error,
  -- and then no table has changed; for every request and every pattern of database failures, when the
  -- account table was keyed.
  pub delete-IsCleared :
      (sortcode : Text) (request : DelcusRequest) (now : c.DateTime) (s : Session)
      → IsKeyed s.tables.account
      → IsCleared (command_of sortcode request now) s.tables (delete sortcode request now s)
  unfolding delete
  delete-IsCleared sortcode request now s keyed =
      when_valid-Reports (λ r. r.customer) s.tables _
        (validate_sortcode sortcode >> validate_request request) (delete_valid sortcode request now)
        s refl (λ _. delete_valid-IsCleared sortcode request now s keyed)
