-- ===== src/Repository/Delacc/Effect.antt =====
-- What a successful deletion has read and removed.
use cbsa_rust.Prelude.{
  map_ok, ◌≡◌, ◌≢◌, refl, Option, none, some, Result, ok, err, ◌==◌, Bool-cases, inl, inr, arith,
  ap, ◌∙◌,
}
use cbsa_rust.Prelude.Int.{ℤ, ◌+ℤ◌}
use cbsa_rust.Text.{Text}
use cbsa_rust.Crates.{Crates, IsLawful}
use cbsa_rust.Domain.Account.{AccountDetails}
use cbsa_rust.Error.{CbsaError}
use cbsa_rust.Db.Tables.{AccountRow, Tables}
use cbsa_rust.Db.Session.{Session, branch_cases}
use cbsa_rust.Db.Retry.{is_serialization_failure}
use cbsa_rust.Db.Schema.{IsWellFormed}
use cbsa_rust.Db.Schema.Balances.{total_available, total_actual}
use cbsa_rust.Db.Sql.{find_account, select_account}
use cbsa_rust.Db.Sql.Effects.{select_account_effect, Inserted, insert_proctran_row_effect}
use cbsa_rust.Db.Sql.Removal.{
  remove_account, delete_row_effect, find_account-remove_account, find_account-remove_account_ne,
  total-remove_account,
}
use cbsa_rust.Repository.Frame.Succeeds.{
  Succeeds, on_error-Succeeds, Returns, Returns_mono, run_transaction-Returns,
}
use cbsa_rust.Repository.Account.{into_account}
use cbsa_rust.Repository.Delacc.{
  DeleteAccountCommand, try_from, transpose, load_account_for_update, delete_account_row, audit_row,
  insert_proctran, remove_and_audit, after_read, delete_account_once, delete_account,
}

module _ ⦃c : Crates⦄ where
  -- The account as it was read, the removal of its row, and the audit row.
  pub record Deleted (command : DeleteAccountCommand) (before : Tables) (account : AccountDetails)
      (after : Tables) : Type 0 where
    pub row : AccountRow
    pub found : find_account command.sortcode command.account_number before.account ≡ some row
    pub loaded : into_account row ≡ ok account
    pub between : Tables
    pub removed : between ≡ record before {
      account = remove_account command.sortcode command.account_number before.account;
    }
    pub audited : Inserted (audit_row command account) between after

  abbrev without : Text → ℤ → Tables → Tables
  without sortcode number t = record t { account = remove_account sortcode number t.account }

  remove_and_audit-Succeeds :
      (command : DeleteAccountCommand) (account : AccountDetails) (row : AccountRow) (t : Tables)
      → find_account command.sortcode command.account_number t.account ≡ some row
      → into_account row ≡ ok account
      → (s : Session) → s.tables ≡ t
      → Succeeds (remove_and_audit command account s) (λ a s'. Deleted command t a s'.tables)
  unfolding remove_and_audit delete_account_row insert_proctran
  remove_and_audit-Succeeds command account row t found loaded s same =
      on_error-Succeeds _ _ _ s _ (λ e s'. tt)
        λ rows s1 run. elim (Bool-cases (rows == 1)) [
          | inr other ↦ rw other tt
          | inl one ↦ rw one (
              on_error-Succeeds _ _ _ s1 _ (λ e s'. tt)
                λ _ s2 run'. record {
                  row = row;
                  found = found;
                  loaded = loaded;
                  between = s1.tables;
                  removed =
                      delete_row_effect command.sortcode command.account_number s s1 rows run
                      ∙ ap (without command.sortcode command.account_number) same;
                  audited = insert_proctran_row_effect (audit_row command account) s1 s2 run';
                })
        ]

  no_success :
      (command : DeleteAccountCommand) (e : CbsaError) (s : Session)
      (Q : AccountDetails → Session → Type 0)
      → Succeeds (after_read command (err e) s) Q
  no_success command (CbsaError.validation message) s Q = tt
  no_success command (CbsaError.abend code message) s Q = tt
  no_success command (CbsaError.database e) s Q = elim (Bool-cases (is_serialization_failure e)) [
    | inl again ↦ rw again tt
    | inr other ↦ rw other tt
  ]

  try_from-ok :
      (row : AccountRow) (read : AccountDetails)
      → try_from row ≡ ok read
      → into_account row ≡ ok read
  unfolding try_from
  try_from-ok row read h = ground arith

  row_read :
      (command : DeleteAccountCommand) (t : Tables) (row : AccountRow)
      → find_account command.sortcode command.account_number t.account ≡ some row
      → (s : Session) → s.tables ≡ t
      → (r : Result CbsaError AccountDetails) → try_from row ≡ r
      → Succeeds (after_read command (map_ok some r) s) (λ a s'. Deleted command t a s'.tables)
  row_read command t row found s same (ok read) e =
      remove_and_audit-Succeeds command read row t found (try_from-ok row read e) s same
  row_read command t row found s same (err e) h = no_success command e s _

  found_or_not :
      (command : DeleteAccountCommand) (t : Tables) (row : Option AccountRow)
      → find_account command.sortcode command.account_number t.account ≡ row
      → (s : Session) → s.tables ≡ t
      → Succeeds (after_read command (transpose row) s) (λ a s'. Deleted command t a s'.tables)
  found_or_not command t none found s same = tt
  found_or_not command t (some row) found s same =
      row_read command t row found s same (try_from row) refl

  delete_account_once-Deleted :
      (command : DeleteAccountCommand) (s : Session)
      → Succeeds (delete_account_once command s) (λ a s'. Deleted command s.tables a s'.tables)
  unfolding delete_account_once load_account_for_update
  delete_account_once-Deleted command s =
      branch_cases (select_account command.sortcode command.account_number s) _ _
        (λ x.
          let (r, s') = x in
          Succeeds (after_read command r s') (λ a s''. Deleted command s.tables a s''.tables))
        (λ row s' run.
          let (same, found) =
            select_account_effect command.sortcode command.account_number s s' row run in
          found_or_not command s.tables row found s' same)
        (λ e s' failed. no_success command (CbsaError.database e) s' _)

  -- A deletion that succeeds has read the account from the tables as they were, removed its row, and
  -- written one ODA audit row with the actual balance that it had; nothing else.
  pub delete_account-Deleted :
      (command : DeleteAccountCommand) (s : Session)
      → Returns (delete_account command s) (λ a s'. Deleted command s.tables a s'.tables)
  unfolding delete_account
  delete_account-Deleted command s =
      run_transaction-Returns (delete_account_once command) (Deleted command)
        (delete_account_once-Deleted command) _ s

module _ ⦃c : Crates⦄ (laws : IsLawful) where
  open laws use {cents}

  -- A deletion that succeeds leaves no account at the key, and every other account of the branch and
  -- the customers as they were; the sums of the balances lose exactly what the row held, when the
  -- account table was within its schema.
  pub delete_account-removes :
      (command : DeleteAccountCommand) (s : Session)
      → IsWellFormed laws s.tables
      → (n : ℤ) → n ≢ command.account_number
      → Returns (delete_account command s) (λ a s'.
        (find_account command.sortcode command.account_number s'.tables.account ≡ none)
        × (find_account command.sortcode n s'.tables.account
            ≡ find_account command.sortcode n s.tables.account)
        × (s'.tables.customer ≡ s.tables.customer)
        × ((row : AccountRow) × (find_account command.sortcode command.account_number
                s.tables.account
              ≡ some row)
            × (total_available laws s.tables.account
                ≡ cents row.available_balance +ℤ total_available laws s'.tables.account)
            × (total_actual laws s.tables.account
                ≡ cents row.actual_balance +ℤ total_actual laws s'.tables.account)))
  delete_account-removes command s wf n apart =
      Returns_mono (delete_account command s) _ _
        (λ a s' h.
          let accounts = ap (λ t. t.account) h.audited.tables ∙ ap (λ t. t.account) h.removed in
          let (available, actual) =
            total-remove_account laws command.sortcode command.account_number s.tables.account h.row
              wf.keyed h.found in
          (
            rw accounts (
                find_account-remove_account command.sortcode command.account_number
                  s.tables.account),
            rw accounts (
                find_account-remove_account_ne command.sortcode n command.account_number
                  s.tables.account apart),
            ap (λ t. t.customer) h.audited.tables ∙ ap (λ t. t.customer) h.removed,
            (h.row, h.found, rw accounts available, rw accounts actual),
          ))
        (delete_account-Deleted command s)
