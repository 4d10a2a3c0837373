-- ===== src/Service/Delacc/Closes.antt =====
-- The theorem about the whole service call, whatever the request is and however it ends.
use cbsa_rust.Prelude.{◌≡◌, refl, Result, none, ◌>>◌}
use cbsa_rust.Prelude.Int.{ℤ}
use cbsa_rust.Text.{Text}
use cbsa_rust.Crates.{Crates}
use cbsa_rust.Error.{CbsaError}
use cbsa_rust.Db.Tables.{Tables}
use cbsa_rust.Db.Session.{Session}
use cbsa_rust.Db.Sql.{find_account}
use cbsa_rust.Repository.Frame.Succeeds.{Returns_mono}
use cbsa_rust.Repository.Delacc.{delete_account, delete_account_once}
use cbsa_rust.Repository.Delacc.Again.{gone}
use cbsa_rust.Repository.Delacc.Effect.{delete_account-Deleted}
use cbsa_rust.Service.Calls.{Reports, when_valid-Reports, run_transaction-Reports}
use cbsa_rust.Service.Checks.{validate_sortcode}
use cbsa_rust.Service.Delacc.{
  DelaccRequest, DelaccResult, validate_request, command_of, delete, delete_valid, succeeded,
  failed,
}

module _ ⦃c : Crates⦄ where
  abbrev pub IsClosed : Text → ℤ → Tables → Result CbsaError DelaccResult × Session → Type 0
  IsClosed sortcode number before =
      Reports (λ r. r.account) before (λ _ after. find_account sortcode number after.account ≡ none)

  delete_valid-IsClosed :
      (sortcode : Text) (request : DelaccRequest) (now : c.DateTime) (s : Session)
      → IsClosed sortcode request.account_number s.tables (delete_valid sortcode request now s)
  unfolding delete_valid delete_account
  delete_valid-IsClosed sortcode request now s =
      let command = command_of sortcode request now in
      run_transaction-Reports (λ r. r.account) succeeded failed (delete_account_once command) _ s _
        (λ a. refl) (λ code message. refl)
        (Returns_mono (delete_account command s) _ _ (λ a t h. gone command s t a h)
          (delete_account-Deleted command s))

  -- A call of the deletion service either reports an account, and then there is no account at the key
  -- of the request any more, or it reports none or ends in an error, and then no table has changed; for
  -- every request and every pattern of database failures.
  pub delete-IsClosed :
      (sortcode : Text) (request : DelaccRequest) (now : c.DateTime) (s : Session)
      → IsClosed sortcode request.account_number s.tables (delete sortcode request now s)
  unfolding delete
  delete-IsClosed sortcode request now s =
      when_valid-Reports (λ r. r.account) s.tables _
        (validate_sortcode sortcode >> validate_request request) (delete_valid sortcode request now)
        s refl (λ _. delete_valid-IsClosed sortcode request now s)
