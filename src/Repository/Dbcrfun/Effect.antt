-- ===== src/Repository/Dbcrfun/Effect.antt =====
-- What a successful debit or credit has read, checked and written.
use cbsa_rust.Prelude.{
  map_ok, ◌≡◌, refl, false, Option, none, some, Result, ok, err, ◌==◌, Bool-cases, inl, inr, arith,
  subst,
}
use cbsa_rust.Text.{Text}
use cbsa_rust.Crates.{Crates}
use cbsa_rust.Domain.Account
use cbsa_rust.Domain.Account.{AccountDetails}
use cbsa_rust.Error.{CbsaError}
use cbsa_rust.Db.Tables.{AccountRow, Tables}
use cbsa_rust.Db.Session.{Session, branch_cases}
use cbsa_rust.Db.Retry.{is_serialization_failure}
use cbsa_rust.Db.Sql.{find_account, select_account}
use cbsa_rust.Db.Sql.Effects.{
  select_account_effect, Updated, update_balances_effect, Inserted, insert_proctran_row_effect,
}
use cbsa_rust.Repository.Frame.Atomic.{Atomic, run_transaction-Atomic}
use cbsa_rust.Repository.Frame.Succeeds.{
  Succeeds, Succeeds_mono, on_error-Succeeds, Returns, run_transaction-Returns,
}
use cbsa_rust.Repository.Account.{into_account}
use cbsa_rust.Repository.Dbcrfun.{
  DbcrfunCommand, posted, is_refused_type, is_short, audit_row, try_from, transpose, after_read,
  load_account_for_update, update_account_row, insert_proctran, write_transaction, rebuilt,
  post_to_account, post_transaction_once, post_transaction,
}

module _ ⦃c : Crates⦄ where
  -- The update and the audit row, in this order.
  pub record Written (command : DbcrfunCommand) (before : Tables) (account : AccountDetails)
      (after : Tables) : Type 0 where
    pub between : Tables
    pub updated :
        Updated account.sortcode account.account_number account.available_balance
          account.actual_balance before between
    pub audited : Inserted (audit_row command account) between after

  write_transaction-Written :
      (command : DbcrfunCommand) (account : AccountDetails) (s : Session)
      → Succeeds
          (write_transaction command account s)
          (λ a s'. (a ≡ account) × Written command s.tables account s'.tables)
  unfolding write_transaction update_account_row insert_proctran
  write_transaction-Written command account s =
      on_error-Succeeds _ _ _ s _ (λ e s'. tt)
        λ rows s1 run. elim (Bool-cases (rows == 1)) [
          | inl one ↦ rw one (
              on_error-Succeeds _ _ _ s1 _ (λ e s'. tt)
                λ _ s2 run'. (
                  refl,
                  record {
                    between = s1.tables;
                    updated =
                        update_balances_effect account.sortcode account.account_number
                          account.available_balance account.actual_balance s s1 rows run
                          (ground arith);
                    audited = insert_proctran_row_effect (audit_row command account) s1 s2 run';
                  },
                ))
          | inr other ↦ rw other tt
        ]

  -- A transaction that went through: the account as it was read, the tests that it passed, the
  -- account that was returned, and what was written.
  pub record Posted (command : DbcrfunCommand) (before : Tables) (account : AccountDetails)
      (after : Tables) : Type 0 where
    pub row : AccountRow
    pub read : AccountDetails
    pub found : find_account command.sortcode command.account_number before.account ≡ some row
    pub loaded : into_account row ≡ ok read
    pub allowed : is_refused_type command read ≡ false
    pub funded : is_short command read ≡ false
    pub built : Account.new (posted command read) ≡ ok account
    pub written : Written command before account after

  module _ (command : DbcrfunCommand) (before : Tables) (row : AccountRow) (read : AccountDetails)
      (found : find_account command.sortcode command.account_number before.account ≡ some row)
      (loaded : into_account row ≡ ok read) (s : Session) (same : s.tables ≡ before) where
    rebuilt-Posted :
        is_refused_type command read ≡ false
        → is_short command read ≡ false
        → (r : Result Text AccountDetails) → Account.new (posted command read) ≡ r
        → Succeeds (rebuilt command r s) (λ a s'. Posted command before a s'.tables)
    rebuilt-Posted allowed funded (err message) built = tt
    rebuilt-Posted allowed funded (ok account) built =
        Succeeds_mono (write_transaction command account s) _ _
          (λ a s' (e, w). rw e (record {
            row = row;
            read = read;
            found = found;
            loaded = loaded;
            allowed = allowed;
            funded = funded;
            built = built;
            written = subst (λ t. Written command t account s'.tables) same w;
          }))
          (write_transaction-Written command account s)

    post_to_account-Posted :
        Succeeds (post_to_account command read s) (λ a s'. Posted command before a s'.tables)
    unfolding post_to_account
    post_to_account-Posted = elim (Bool-cases (is_refused_type command read)) [
      | inl refused ↦ rw refused tt
      | inr allowed ↦ rw allowed (elim (Bool-cases (is_short command read)) [
        | inl short ↦ rw short tt
        | inr funded ↦
            rw funded (rebuilt-Posted allowed funded (Account.new (posted command read)) refl)
      ])
    ]

module _ ⦃c : Crates⦄ (command : DbcrfunCommand) where
  try_from-ok :
      (row : AccountRow) (read : AccountDetails)
      → try_from row ≡ ok read
      → into_account row ≡ ok read
  unfolding try_from
  try_from-ok row read h = ground arith

  no_success :
      (e : CbsaError) (s : Session) (Q : AccountDetails → Session → Type 0)
      → Succeeds (after_read command (err e) s) Q
  no_success (CbsaError.validation message) s Q = tt
  no_success (CbsaError.abend code message) s Q = tt
  no_success (CbsaError.database e) s Q = elim (Bool-cases (is_serialization_failure e)) [
    | inl again ↦ rw again tt
    | inr other ↦ rw other tt
  ]

  after_read-Posted :
      (before : Tables) (row : AccountRow)
      → find_account command.sortcode command.account_number before.account ≡ some row
      → (s : Session) → s.tables ≡ before
      → (r : Result CbsaError AccountDetails) → try_from row ≡ r
      → Succeeds (after_read command (map_ok some r) s) (λ a s'. Posted command before a s'.tables)
  after_read-Posted before row found s same (ok read) e =
      post_to_account-Posted command before row read found (try_from-ok row read e) s same
  after_read-Posted before row found s same (err e) h = no_success e s _

  found-Posted :
      (before : Tables) (row : Option AccountRow)
      → find_account command.sortcode command.account_number before.account ≡ row
      → (s : Session) → s.tables ≡ before
      → Succeeds (after_read command (transpose row) s) (λ a s'. Posted command before a s'.tables)
  found-Posted before none found s same = tt
  found-Posted before (some row) found s same =
      after_read-Posted before row found s same (try_from row) refl

  post_transaction_once-Posted :
      (s : Session)
      → Succeeds (post_transaction_once command s) (λ a s'. Posted command s.tables a s'.tables)
  unfolding post_transaction_once load_account_for_update
  post_transaction_once-Posted s =
      branch_cases (select_account command.sortcode command.account_number s) _ _
        (λ x.
          let (r, s') = x in
          Succeeds (after_read command r s') (λ a s''. Posted command s.tables a s''.tables))
        (λ row s' run.
          let (same, found) =
            select_account_effect command.sortcode command.account_number s s' row run in
          found-Posted s.tables row found s' same)
        (λ e s' failed. no_success (CbsaError.database e) s' _)

  -- A debit or credit that succeeds has read the account from the tables as they were, passed the
  -- tests of its type and its funds, and written the account that it returns and one audit row.
  pub post_transaction-Posted :
      (s : Session)
      → Returns (post_transaction command s) (λ a s'. Posted command s.tables a s'.tables)
  unfolding post_transaction
  post_transaction-Posted s =
      run_transaction-Returns (post_transaction_once command) (Posted command)
        post_transaction_once-Posted _ s

  pub post_transaction-Atomic :
      (s : Session) → Atomic (post_transaction_once command) s.tables (post_transaction command s)
  unfolding post_transaction
  post_transaction-Atomic s = run_transaction-Atomic (post_transaction_once command) _ s
