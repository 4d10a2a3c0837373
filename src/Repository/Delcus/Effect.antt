-- ===== src/Repository/Delcus/Effect.antt =====
-- What a successful deletion of a customer has read, removed and written.
use cbsa_rust.Prelude.{
  ◌≡◌, refl, none, some, Option, List, [], ok, arith, ◌∙◌, subst, Bool-cases, inl, inr, ◌==◌,
}
use cbsa_rust.Prelude.Search.{keep_by}
use cbsa_rust.Crates.{Crates}
use cbsa_rust.Domain.Account.{AccountDetails}
use cbsa_rust.Domain.Customer.{CustomerDetails}
use cbsa_rust.Db.Tables.{CustomerRow, Tables}
use cbsa_rust.Db.Session.{Session}
use cbsa_rust.Db.Sql.Effects.{Inserted, insert_proctran_row_effect}
use cbsa_rust.Db.Sql.Customers.{
  find_customer, is_held_by, accounts_of, select_customer, select_accounts_of,
}
use cbsa_rust.Db.Sql.Customers.Effects.{without_customer, delete_customer_effect}
use cbsa_rust.Repository.Frame.Succeeds.{
  Succeeds, Succeeds_mono, on_error-Succeeds, Returns, run_transaction-Returns,
}
use cbsa_rust.Repository.Customer.{into_customer}
use cbsa_rust.Repository.Read.{transpose, collect}
use cbsa_rust.Repository.Read.Laws.{on_load-Succeeds, transpose-some}
use cbsa_rust.Repository.Delcus.{
  DeleteCustomerCommand, try_from, load_customer_for_update, load_accounts_for_customer,
  delete_customer_row, insert_customer_proctran, customer_audit_row, remove_customer_and_audit,
  with_customer, delete_customer_once, delete_customer_with_accounts,
}
use cbsa_rust.Repository.Delcus.Loop.{Closed, delete_accounts-Succeeds}

module _ ⦃c : Crates⦄ (command : DeleteCustomerCommand) where
  -- The customer and the accounts as they were read, the loop, and the two last statements.
  pub record Removed (before : Tables) (customer : CustomerDetails) (after : Tables) : Type 0 where
    pub row : CustomerRow
    pub found : find_customer command.sortcode command.customer_number before.customer ≡ some row
    pub loaded : into_customer row ≡ ok customer
    pub accounts : List AccountDetails
    pub listed :
        collect try_from (accounts_of command.sortcode command.customer_number before.account)
        ≡ ok accounts
    pub closed : Tables
    pub looped : Closed command accounts before closed
    pub none_left :
        keep_by (is_held_by command.sortcode command.customer_number) closed.account ≡ []
    pub between : Tables
    pub removed : between ≡ without_customer command.sortcode command.customer_number closed
    pub audited : Inserted (customer_audit_row command customer) between after

  abbrev Gone : CustomerDetails → Tables → Tables → Type 0
  Gone customer closed after =
      (keep_by (is_held_by command.sortcode command.customer_number) closed.account ≡ [])
      × ((between : Tables) × (between
            ≡ without_customer command.sortcode command.customer_number closed)
          × Inserted (customer_audit_row command customer) between after)

  remove_customer_and_audit-Gone :
      (customer : CustomerDetails) (s : Session)
      → Succeeds
          (remove_customer_and_audit command customer s)
          (λ a s'. (a ≡ customer) × Gone customer s.tables s'.tables)
  unfolding remove_customer_and_audit delete_customer_row insert_customer_proctran
  remove_customer_and_audit-Gone customer s =
      on_error-Succeeds _ _ _ s _ (λ e s'. tt)
        λ rows s1 run. elim (Bool-cases (rows == 1)) [
          | inr other ↦ rw other (elim (Bool-cases (rows == 0)) [
            | inl zero_rows ↦ rw zero_rows tt
            | inr more ↦ rw more tt
          ])
          | inl one ↦ rw one (
              on_error-Succeeds _ _ _ s1 _ (λ e s'. tt)
                λ _ s2 run'.
                  let (gone, none_left) =
                    delete_customer_effect command.sortcode command.customer_number s s1 rows run
                      (ground arith) in
                  let audited =
                    insert_proctran_row_effect (customer_audit_row command customer) s1 s2 run' in
                  (refl, (none_left, (s1.tables, gone, audited))))
        ]

  delete_customer_once-Removed :
      (s : Session)
      → Succeeds (delete_customer_once command s) (λ a s'. Removed s.tables a s'.tables)
  unfolding delete_customer_once load_customer_for_update load_accounts_for_customer select_customer
      select_accounts_of
  delete_customer_once-Removed s =
      on_load-Succeeds _ (transpose into_customer) _ (with_customer command) s _ (λ e s'. tt) go
    where
      go :
          (found : Option CustomerDetails) (s1 : Session)
          → s1.tables ≡ s.tables
          → transpose into_customer
              (find_customer command.sortcode command.customer_number s.tables.customer)
            ≡ ok found
          → Succeeds (with_customer command found s1) (λ a s'. Removed s.tables a s'.tables)
      go none s1 same e = tt
      go (some customer) s1 same e =
          let (row, found, loaded) = transpose-some into_customer _ customer e in
          on_load-Succeeds _ (collect try_from) _ _ s1 _ (λ f s'. tt)
            λ accounts s2 same' listed.
              delete_accounts-Succeeds command accounts (remove_customer_and_audit command customer)
                s2 _
                λ s3 looped.
                  Succeeds_mono (remove_customer_and_audit command customer s3) _ _
                    (λ a s' (is, (none_left, (between, removed, audited))). rw is (record {
                      row = row;
                      found = found;
                      loaded = loaded;
                      accounts = accounts;
                      listed =
                          subst
                            (λ t.
                              collect try_from
                                (accounts_of command.sortcode command.customer_number t.account)
                              ≡ ok accounts)
                            same listed;
                      closed = s3.tables;
                      looped =
                          subst (λ t. Closed command accounts t s3.tables) (same' ∙ same) looped;
                      none_left = none_left;
                      between = between;
                      removed = removed;
                      audited = audited;
                    }))
                    (remove_customer_and_audit-Gone customer s3)

  -- Only what was read was deleted.
  pub delete_customer-Removed :
      (s : Session)
      → Returns (delete_customer_with_accounts command s) (λ a s'. Removed s.tables a s'.tables)
  unfolding delete_customer_with_accounts
  delete_customer-Removed s =
      run_transaction-Returns (delete_customer_once command) Removed delete_customer_once-Removed _
        s
