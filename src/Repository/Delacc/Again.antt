-- ===== src/Repository/Delacc/Again.antt =====
-- A deletion of an account that is not there, and a deletion after a deletion.
use cbsa_rust.Prelude.{◌≡◌, refl, none, ok, [], ◌∙◌, ap, ◌++◌, subst}
use cbsa_rust.Text.{Text, codes}
use cbsa_rust.Text.Decimal.{show_int}
use cbsa_rust.Crates.{Crates}
use cbsa_rust.Domain.Account.{AccountDetails}
use cbsa_rust.Db.Session.{Session}
use cbsa_rust.Db.Sql.{find_account}
use cbsa_rust.Db.Sql.Quiet.{select_account_quiet}
use cbsa_rust.Db.Sql.Removal.{find_account-remove_account}
use cbsa_rust.Repository.Frame.{Outcome}
use cbsa_rust.Repository.Frame.Quiet.{run_transaction_failure}
use cbsa_rust.Repository.Frame.Succeeds.{Returns}
use cbsa_rust.Repository.Delacc.{
  DeleteAccountCommand, not_found_code, load_account_for_update, after_read, delete_account_once,
  delete_account,
}
use cbsa_rust.Repository.Delacc.Effect.{Deleted, delete_account-Deleted}

module _ ⦃c : Crates⦄ where
  -- The message of an account that is not there.
  abbrev pub absent_message : DeleteAccountCommand → Text
  absent_message command =
      codes "Account number " ++ (show_int command.account_number ++ codes " was not found.")

  load_absent :
      (command : DeleteAccountCommand) (s : Session)
      → s.schedule ≡ []
      → find_account command.sortcode command.account_number s.tables.account ≡ none
      → load_account_for_update command.sortcode command.account_number s ≡ (ok none, s)
  unfolding load_account_for_update
  load_absent command s quiet missing =
      rw (select_account_quiet command.sortcode command.account_number s quiet, missing) refl

  delete_account-absent :
      (command : DeleteAccountCommand) (s : Session)
      → s.schedule ≡ []
      → find_account command.sortcode command.account_number s.tables.account ≡ none
      → delete_account command s ≡ (ok (Outcome.failure not_found_code (absent_message command)), s)
  unfolding delete_account delete_account_once
  delete_account-absent command s quiet missing =
      run_transaction_failure _ (delete_account_once command) s s quiet not_found_code
        (absent_message command)
        (ap (λ x. after_read command x.0 x.1) (load_absent command s quiet missing))

  pub gone :
      (command : DeleteAccountCommand) (s s' : Session) (a : AccountDetails)
      → Deleted command s.tables a s'.tables
      → find_account command.sortcode command.account_number s'.tables.account ≡ none
  gone command s s' a h =
      let accounts = ap (λ t. t.account) h.audited.tables ∙ ap (λ t. t.account) h.removed in
      rw accounts
        (find_account-remove_account command.sortcode command.account_number s.tables.account)

  -- After a deletion that succeeded, a second deletion of the same account, when no statement fails,
  -- is refused with code 1 and changes nothing.
  pub delete_account-again :
      (command : DeleteAccountCommand) (s s' : Session) (a : AccountDetails)
      → delete_account command s ≡ (ok (Outcome.success a), s')
      → s'.schedule ≡ []
      → delete_account command s' ≡ (ok (Outcome.failure "1" (absent_message command)), s')
  delete_account-again command s s' a run quiet =
      let first : Returns (ok (Outcome.success a), s')
          (λ b t. Deleted command s.tables b t.tables) =
        subst (λ x. Returns x (λ b t. Deleted command s.tables b t.tables)) run
          (delete_account-Deleted command s) in
      delete_account-absent command s' quiet (gone command s s' a first)
