-- ===== src/Repository/Updacc/Effect.antt =====
-- What a successful update of an account has read and written.
use cbsa_rust.Prelude.{
  ◌≡◌, ◌≢◌, refl, none, some, Option, Result, ok, err, arith, ◌∙◌, ap, Bool-cases, inl, inr, ◌==◌,
  ◌++◌, [], ◌∷◌, ℕ,
}
use cbsa_rust.Prelude.Int.{ℤ}
use cbsa_rust.Text.{Text}
use cbsa_rust.Crates.{Crates, IsLawful}
use cbsa_rust.Domain.Account
use cbsa_rust.Domain.Account.{AccountDetails, round_money}
use cbsa_rust.Domain.Laws.{new-AccountChecked}
use cbsa_rust.Error.{CbsaError}
use cbsa_rust.Db.Tables.{AccountRow, Tables}
use cbsa_rust.Db.Session.{Session}
use cbsa_rust.Db.Schema.Balances.{total_available, total_actual, find_account_key}
use cbsa_rust.Db.Sql.{find_account}
use cbsa_rust.Db.Sql.Effects.{Inserted, insert_proctran_row_effect}
use cbsa_rust.Db.Sql.Terms.{
  with_terms, tables_with_terms, update_terms_effect, find_account-set_terms,
  find_account-set_terms_ne, total-set_terms,
}
use cbsa_rust.Repository.Frame.Succeeds.{
  Succeeds, Succeeds_mono, on_error-Succeeds, Returns, Returns_mono, run_transaction-Returns,
}
use cbsa_rust.Repository.Account.{into_account, loaded}
use cbsa_rust.Repository.Read.{transpose}
use cbsa_rust.Repository.Read.Laws.{on_load-Succeeds, transpose-some}
use cbsa_rust.Repository.Updacc.{
  UpdateAccountCommand, try_from, load_account_for_update, update_account_row, insert_proctran,
  audit_row, updated_fields, write_update, with_account, read_abend, update_account_once,
  update_account,
}

module _ ⦃c : Crates⦄ (command : UpdateAccountCommand) where
  abbrev set_from : AccountDetails → Tables → Tables
  set_from a t =
      tables_with_terms a.sortcode a.account_number a.account_type a.interest_rate a.overdraft_limit
        t

  -- The account as it was read, the update of its row, and the audit row.
  pub record Updated (before : Tables) (account : AccountDetails) (after : Tables) : Type 0 where
    pub row : AccountRow
    pub found : find_account command.sortcode command.account_number before.account ≡ some row
    pub existing : AccountDetails
    pub converted : into_account row ≡ ok existing
    pub built : Account.new (updated_fields command existing) ≡ ok account
    pub between : Tables
    pub set : between ≡ set_from account before
    pub audited : Inserted (audit_row command account) between after

  abbrev Wrote : Result Text AccountDetails → Tables → AccountDetails → Tables → Type 0
  Wrote r before account after =
      (r ≡ ok account)
      × ((between : Tables) × (between ≡ set_from account before)
          × Inserted (audit_row command account) between after)

  write_update-Wrote :
      (r : Result Text AccountDetails) (s : Session)
      → Succeeds (write_update command r s) (λ a s'. Wrote r s.tables a s'.tables)
  unfolding write_update update_account_row insert_proctran
  write_update-Wrote (err message) s = tt
  write_update-Wrote (ok account) s =
      on_error-Succeeds _ _ _ s _ (λ e s'. tt)
        λ rows s1 run. elim (Bool-cases (rows == 1)) [
          | inr other ↦ rw other tt
          | inl one ↦ rw one (
              on_error-Succeeds _ _ _ s1 _ (λ e s'. tt)
                λ _ s2 run'.
                  let (set, _) =
                    update_terms_effect account.sortcode account.account_number account.account_type
                      account.interest_rate account.overdraft_limit s s1 rows run (ground arith) in
                  let audited = insert_proctran_row_effect (audit_row command account) s1 s2 run' in
                  (refl, (s1.tables, set, audited)))
        ]

  try_from-ok :
      (row : AccountRow) (a : AccountDetails) → try_from row ≡ ok a → into_account row ≡ ok a
  unfolding try_from
  try_from-ok row a e = ground arith

  no_success :
      (e : CbsaError) (s : Session) (Q : AccountDetails → Session → Type 0)
      → Succeeds (ok (read_abend e), s) Q
  no_success (CbsaError.validation message) s Q = tt
  no_success (CbsaError.abend code message) s Q = tt
  no_success (CbsaError.database e) s Q = tt

  update_account_once-Updated :
      (s : Session)
      → Succeeds (update_account_once command s) (λ a s'. Updated s.tables a s'.tables)
  unfolding update_account_once load_account_for_update
  update_account_once-Updated s =
      on_load-Succeeds _ (transpose try_from) read_abend (with_account command) s _
        (λ e s'. no_success e s' _) go
    where
      go :
          (found : Option AccountDetails) (s1 : Session)
          → s1.tables ≡ s.tables
          → transpose try_from
              (find_account command.sortcode command.account_number s.tables.account)
            ≡ ok found
          → Succeeds (with_account command found s1) (λ a s'. Updated s.tables a s'.tables)
      go none s1 same e = tt
      go (some existing) s1 same e =
          let (row, found, converted) = transpose-some try_from _ existing e in
          let r = Account.new (updated_fields command existing) in
          Succeeds_mono (write_update command r s1) _ _
            (λ a s' (built, (between, set, audited)). record {
              row = row;
              found = found;
              existing = existing;
              converted = try_from-ok row existing converted;
              built = built;
              between = between;
              set = set ∙ ap (set_from a) same;
              audited = audited;
            })
            (write_update-Wrote r s1)

  update_account-Updated :
      (s : Session) → Returns (update_account command s) (λ a s'. Updated s.tables a s'.tables)
  unfolding update_account
  update_account-Updated s =
      run_transaction-Returns (update_account_once command) Updated update_account_once-Updated _ s

module _ ⦃c : Crates⦄ (laws : IsLawful) (command : UpdateAccountCommand) where
  -- What an update leaves.
  pub record Reterms (before : Tables) (account : AccountDetails) (after : Tables) : Type 0 where
    pub row : AccountRow
    pub found : find_account command.sortcode command.account_number before.account ≡ some row
    pub written :
        find_account command.sortcode command.account_number after.account
        ≡ some (
            with_terms command.account_type
              (round_money command.interest_rate)
              (round_money command.overdraft_limit)
              row)
    pub reported :
        (account.account_type ≡ command.account_type)
        × (account.interest_rate ≡ round_money command.interest_rate)
        × (account.overdraft_limit ≡ round_money command.overdraft_limit)
        × (account.customer_number ≡ row.customer_number)
        × (account.account_number ≡ row.account_number)
    pub other_accounts :
        (n : ℤ)
        → n ≢ command.account_number
        → find_account command.sortcode n after.account
          ≡ find_account command.sortcode n before.account
    pub available : total_available laws after.account ≡ total_available laws before.account
    pub actual : total_actual laws after.account ≡ total_actual laws before.account
    pub customers : after.customer ≡ before.customer
    pub counter : ℕ
    pub audited :
        after.proctran
        ≡ before.proctran ++ (record (audit_row command account) { counter = counter } ∷ [])

  row_of :
      (row : AccountRow) (existing : AccountDetails)
      → into_account row ≡ ok existing
      → existing ≡ loaded row
  unfolding into_account Account.new
  row_of row existing e = ground arith

  Updated-Reterms :
      (before : Tables) (account : AccountDetails) (after : Tables)
      → Updated command before account after
      → Reterms before account after
  Updated-Reterms before account after h =
      let (_, built) = new-AccountChecked (updated_fields command h.existing) h.built in
      let read = row_of h.row h.existing h.converted in
      let (same_s, same_n) =
        find_account_key command.sortcode command.account_number before.account h.row h.found in
      let sortcode = ap (λ a. a.sortcode) built ∙ ap (λ a. a.sortcode) read ∙ same_s in
      let number = ap (λ a. a.account_number) built ∙ ap (λ a. a.account_number) read in
      let kind = ap (λ a. a.account_type) built in
      let rate = ap (λ a. a.interest_rate) built in
      let limit = ap (λ a. a.overdraft_limit) built in
      let accounts = ap (λ t. t.account) h.audited.tables ∙ ap (λ t. t.account) h.set in
      let t = command.account_type in
      let (available, actual) =
        total-set_terms laws account.sortcode account.account_number account.account_type
          account.interest_rate account.overdraft_limit before.account in
      record {
        row = h.row;
        found = h.found;
        written =
            rw (accounts, sortcode, number ∙ same_n, kind, rate, limit)
              (find_account-set_terms command.sortcode command.account_number t
                (round_money command.interest_rate) (round_money command.overdraft_limit)
                before.account h.row h.found);
        reported = (
          kind,
          rate,
          limit,
          ap (λ a. a.customer_number) built ∙ ap (λ a. a.customer_number) read,
          number,
        );
        other_accounts = λ n apart.
            rw (accounts, sortcode, number ∙ same_n)
              (find_account-set_terms_ne command.sortcode n command.account_number
                account.account_type account.interest_rate account.overdraft_limit before.account
                apart);
        available = rw accounts available;
        actual = rw accounts actual;
        customers = ap (λ t. t.customer) h.audited.tables ∙ ap (λ t. t.customer) h.set;
        counter = h.audited.counter;
        audited =
            ap (λ t. t.proctran) h.audited.tables
            ∙ ap
                (λ u.
                  u.proctran
                  ++ (record (audit_row command account) { counter = h.audited.counter } ∷ []))
                h.set;
      }

  -- An update of an account that succeeds changes the type, the interest rate and the overdraft limit
  -- in the row of the account, to those of the command, and nothing else in it: both balances stay. The
  -- result reports the new values. Every other account of the branch, both sums of balances and the
  -- customers are as they were; it adds one OUA audit row of amount zero.
  pub update_account-Reterms :
      (s : Session) → Returns (update_account command s) (λ a s'. Reterms s.tables a s'.tables)
  update_account-Reterms s =
      Returns_mono (update_account command s) _ _ (λ a s' h. Updated-Reterms s.tables a s'.tables h)
        (update_account-Updated command s)
