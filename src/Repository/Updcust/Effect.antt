-- ===== src/Repository/Updcust/Effect.antt =====
-- What a successful update of a customer has read and written.
use cbsa_rust.Prelude.{
  ◌≡◌, ◌≢◌, refl, false, none, some, Option, Result, ok, err, arith, ◌∙◌, ap, subst, Bool-cases,
  inl, inr, ◌==◌, ◌&&◌,
}
use cbsa_rust.Prelude.Int.{ℤ}
use cbsa_rust.Text.{Text}
use cbsa_rust.Crates.{Crates}
use cbsa_rust.Domain.Customer
use cbsa_rust.Domain.Customer.{CustomerDetails}
use cbsa_rust.Db.Tables.{CustomerRow, Tables}
use cbsa_rust.Db.Session.{Session}
use cbsa_rust.Db.Sql.Effects.{Inserted, insert_proctran_row_effect}
use cbsa_rust.Db.Sql.Customers.{find_customer, select_customer}
use cbsa_rust.Db.Sql.Customers.Effects.{
  with_profile, update_profile_effect, find_customer-set_profile, find_customer-set_profile_ne,
}
use cbsa_rust.Repository.Frame.Succeeds.{
  Succeeds, Succeeds_mono, on_error-Succeeds, Returns, Returns_mono, run_transaction-Returns,
}
use cbsa_rust.Repository.Customer.{into_customer}
use cbsa_rust.Repository.Customer.Laws.{IsCustomerOf, into_customer-IsCustomerOf}
use cbsa_rust.Repository.Read.{transpose}
use cbsa_rust.Repository.Read.Laws.{on_load-Succeeds, transpose-some}
use cbsa_rust.Repository.Updcust.{
  UpdateCustomerCommand, is_blankish, resolved_fields, load_customer_for_update,
  update_customer_row, insert_proctran, audit_row, audit, rebuilt, update_fields, with_customer,
  update_customer_once, update_customer,
}
use cbsa_rust.Repository.Updcust.Fields.{replaced, resolved_fields_lem}

module _ ⦃c : Crates⦄ (command : UpdateCustomerCommand) where
  -- The customer as it was read, the update of its row, and the audit row.
  pub record Updated (before : Tables) (customer : CustomerDetails) (after : Tables) : Type 0 where
    pub row : CustomerRow
    pub found : find_customer command.sortcode command.customer_number before.customer ≡ some row
    pub existing : CustomerDetails
    pub loaded : into_customer row ≡ ok existing
    pub not_blank : (is_blankish command.name && is_blankish command.address) ≡ false
    pub built : rebuilt command existing (resolved_fields existing command) ≡ ok customer
    pub between : Tables
    pub set :
        between
        ≡ with_profile command.sortcode command.customer_number
            (resolved_fields existing command).0
            (resolved_fields existing command).1
            before
    pub audited : Inserted (audit_row command customer) between after

  abbrev Wrote : Result Text CustomerDetails → Tables → CustomerDetails → Tables → Type 0
  Wrote r between customer after =
      (r ≡ ok customer) × Inserted (audit_row command customer) between after

  audit-Wrote :
      (r : Result Text CustomerDetails) (s : Session)
      → Succeeds (audit command r s) (λ a s'. Wrote r s.tables a s'.tables)
  unfolding audit insert_proctran
  audit-Wrote (err message) s = tt
  audit-Wrote (ok customer) s =
      on_error-Succeeds _ _ _ s _ (λ e s'. tt)
        λ _ s1 run. (refl, insert_proctran_row_effect (audit_row command customer) s s1 run)

  update_fields-Wrote :
      (existing : CustomerDetails) (name address : Text) (s : Session)
      → Succeeds (update_fields command existing (name, address) s) (λ a s'.
        Wrote
          (rebuilt command existing (name, address))
          (with_profile command.sortcode command.customer_number name address s.tables)
          a
          s'.tables)
  unfolding update_fields update_customer_row
  update_fields-Wrote existing name address s =
      on_error-Succeeds _ _ _ s _ (λ e s'. tt)
        λ rows s1 run. elim (Bool-cases (rows == 1)) [
          | inr other ↦ rw other tt
          | inl one ↦ rw one (
              let (set, _) =
                update_profile_effect command.sortcode command.customer_number name address s s1
                  rows run (ground arith) in
              let r = rebuilt command existing (name, address) in
              Succeeds_mono (audit command r s1) _ _
                (λ a s' h. subst (λ t. Wrote r t a s'.tables) set h) (audit-Wrote r s1))
        ]

  update_customer_once-Updated :
      (s : Session)
      → Succeeds (update_customer_once command s) (λ a s'. Updated s.tables a s'.tables)
  unfolding update_customer_once load_customer_for_update select_customer
  update_customer_once-Updated s =
      on_load-Succeeds _ (transpose into_customer) _ (with_customer command) s _ (λ e s'. tt) go
    where
      go :
          (found : Option CustomerDetails) (s1 : Session)
          → s1.tables ≡ s.tables
          → transpose into_customer
              (find_customer command.sortcode command.customer_number s.tables.customer)
            ≡ ok found
          → Succeeds (with_customer command found s1) (λ a s'. Updated s.tables a s'.tables)
      go none s1 same e = tt
      go (some existing) s1 same e =
          let (row, found, loaded) = transpose-some into_customer _ existing e in
          let (name, address) = resolved_fields existing command in
          elim (Bool-cases (is_blankish command.name && is_blankish command.address)) [
            | inl blank ↦ rw blank tt
            | inr given ↦ rw given (
                Succeeds_mono (update_fields command existing (resolved_fields existing command) s1)
                  _ _
                  (λ a s' (built, audited). record {
                    row = row;
                    found = found;
                    existing = existing;
                    loaded = loaded;
                    not_blank = given;
                    built = built;
                    between =
                        with_profile command.sortcode command.customer_number name address
                          s1.tables;
                    set =
                        ap (with_profile command.sortcode command.customer_number name address)
                          same;
                    audited = audited;
                  })
                  (update_fields-Wrote existing name address s1))
          ]

  update_customer-Updated :
      (s : Session) → Returns (update_customer command s) (λ a s'. Updated s.tables a s'.tables)
  unfolding update_customer
  update_customer-Updated s =
      run_transaction-Returns (update_customer_once command) Updated update_customer_once-Updated _
        s

  -- What an update leaves.
  pub record Renames (before : Tables) (customer : CustomerDetails) (after : Tables) : Type 0 where
    pub row : CustomerRow
    pub found : find_customer command.sortcode command.customer_number before.customer ≡ some row
    pub existing : CustomerDetails
    pub is_of : IsCustomerOf row existing
    pub written :
        find_customer command.sortcode command.customer_number after.customer
        ≡ some (record row {
          name = replaced existing.name command.name;
          address = replaced existing.address command.address;
        })
    pub reported : customer ≡ record {
      sortcode = command.sortcode;
      customer_number = command.customer_number;
      name = replaced existing.name command.name;
      address = replaced existing.address command.address;
      date_of_birth = existing.date_of_birth;
      credit_score = existing.credit_score;
      credit_score_review_date = existing.credit_score_review_date;
    }
    pub other_customers :
        (n : ℤ)
        → n ≢ command.customer_number
        → find_customer command.sortcode n after.customer
          ≡ find_customer command.sortcode n before.customer
    pub accounts : after.account ≡ before.account
    pub control : after.control ≡ before.control

  rebuilt_as :
      (existing customer : CustomerDetails) (name address : Text)
      → rebuilt command existing (name, address) ≡ ok customer
      → customer ≡ record {
        sortcode = command.sortcode;
        customer_number = command.customer_number;
        name = name;
        address = address;
        date_of_birth = existing.date_of_birth;
        credit_score = existing.credit_score;
        credit_score_review_date = existing.credit_score_review_date;
      }
  unfolding Customer.new
  rebuilt_as existing customer name address e = ground arith

  Updated-Renames :
      (before : Tables) (customer : CustomerDetails) (after : Tables)
      → Updated before customer after
      → Renames before customer after
  Updated-Renames before customer after h =
      let existing = h.existing in
      let name = replaced existing.name command.name in
      let address = replaced existing.address command.address in
      let fields = resolved_fields_lem existing command in
      let set : h.between
          ≡ with_profile command.sortcode command.customer_number name address before =
        h.set
        ∙ ap (λ p. with_profile command.sortcode command.customer_number p.0 p.1 before) fields in
      let customers = ap (λ t. t.customer) h.audited.tables ∙ ap (λ t. t.customer) set in
      record {
        row = h.row;
        found = h.found;
        existing = existing;
        is_of = into_customer-IsCustomerOf h.row existing h.loaded;
        written = rw customers (
            find_customer-set_profile command.sortcode command.customer_number name address
              before.customer h.row h.found);
        reported =
            rebuilt_as existing customer name address
              (subst (λ p. rebuilt command existing p ≡ ok customer) fields h.built);
        other_customers = λ n apart. rw customers (
            find_customer-set_profile_ne command.sortcode n command.customer_number name address
              before.customer apart);
        accounts = ap (λ t. t.account) h.audited.tables ∙ ap (λ t. t.account) set;
        control = ap (λ t. t.control) h.audited.tables ∙ ap (λ t. t.control) set;
      }

  -- An update of a customer that succeeds changes the name and the address in the row of the customer
  -- and nothing else in it: each becomes the new value when that is not empty and does not start with
  -- a space, and else what was read, without spaces at its end. The result reports the same fields. The
  -- other customers of the branch, all accounts and the counters are as they were.
  pub update_customer-Renames :
      (s : Session) → Returns (update_customer command s) (λ a s'. Renames s.tables a s'.tables)
  update_customer-Renames s =
      Returns_mono (update_customer command s) _ _
        (λ a s' h. Updated-Renames s.tables a s'.tables h) (update_customer-Updated s)
