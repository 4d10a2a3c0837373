-- ===== src/Repository/Crecust/Effect.antt =====
-- What a successful creation of a customer has read and written.
use cbsa_rust.Prelude.{
  ◌≡◌, refl, true, false, Option, none, some, Result, ok, err, Bool-cases, inl, inr, [], ◌∷◌, ◌++◌,
}
use cbsa_rust.Prelude.Int.{ℤ, ltb_ℤ}
use cbsa_rust.Text.{Text}
use cbsa_rust.Crates.{Crates}
use cbsa_rust.Domain.Customer.{CustomerDetails, max_customer_number}
use cbsa_rust.Db.Tables.{Tables}
use cbsa_rust.Db.Session.{Session}
use cbsa_rust.Db.Sql.Effects.{Inserted, insert_proctran_row_effect}
use cbsa_rust.Db.Sql.Customers.{accepts_customer}
use cbsa_rust.Db.Sql.Customers.Effects.{insert_customer_row_effect}
use cbsa_rust.Db.Sql.Registration.{CustomerCounted, next_customer, next_customer_effect}
use cbsa_rust.Repository.Frame.Succeeds.{
  Succeeds, Succeeds_mono, on_error-Succeeds, Returns, run_transaction-Returns,
}
use cbsa_rust.Repository.Crecust.{
  global_control_id, CreateCustomerCommand, new_customer, customer_row, audit_row, insert_customer,
  insert_proctran, reserve_next_customer_number, write_customer, built, numbered,
  create_customer_once, create_customer,
}

module _ ⦃c : Crates⦄ (command : CreateCustomerCommand) where
  -- The insert of the customer and of the audit row, in this order.
  pub record Written (before : Tables) (customer : CustomerDetails) (after : Tables) : Type 0 where
    pub between : Tables
    pub accepted : accepts_customer before (customer_row customer) ≡ true
    pub inserted :
        between ≡ record before { customer = before.customer ++ (customer_row customer ∷ []) }
    pub audited : Inserted (audit_row command customer) between after

  write_customer-Written :
      (customer : CustomerDetails) (s : Session)
      → Succeeds
          (write_customer command customer s)
          (λ a s'. (a ≡ customer) × Written s.tables customer s'.tables)
  unfolding write_customer insert_customer insert_proctran
  write_customer-Written customer s =
      on_error-Succeeds _ _ _ s _ (λ e s'. tt)
        λ _ s1 run.
          on_error-Succeeds _ _ _ s1 _ (λ e s'. tt)
            λ _ s2 run'.
              let (inserted, accepted) =
                insert_customer_row_effect (customer_row customer) s s1 run in
              (
                refl,
                record {
                  between = s1.tables;
                  accepted = accepted;
                  inserted = inserted;
                  audited = insert_proctran_row_effect (audit_row command customer) s1 s2 run';
                },
              )

  pub record Created (before : Tables) (customer : CustomerDetails) (after : Tables) : Type 0 where
    pub number : ℤ
    pub counted_tables : Tables
    pub counted : CustomerCounted global_control_id number before counted_tables
    pub in_range : ltb_ℤ max_customer_number number ≡ false
    pub built_from : new_customer command number ≡ ok customer
    pub written : Written counted_tables customer after

  make :
      (s s1 : Session) (n : ℤ)
      → next_customer global_control_id s ≡ (ok (some n), s1)
      → ltb_ℤ max_customer_number n ≡ false
      → (r : Result Text CustomerDetails) → new_customer command n ≡ r
      → Succeeds (built command r s1) (λ a s'. Created s.tables a s'.tables)
  make s s1 n run small (err message) e = tt
  make s s1 n run small (ok customer) e =
      Succeeds_mono (write_customer command customer s1) _ _
        (λ a s' (same, w). rw same (record {
          number = n;
          counted_tables = s1.tables;
          counted = next_customer_effect global_control_id s s1 n run;
          in_range = small;
          built_from = e;
          written = w;
        }))
        (write_customer-Written customer s1)

  with_number :
      (s s1 : Session) (number : Option ℤ)
      → next_customer global_control_id s ≡ (ok number, s1)
      → Succeeds (numbered command number s1) (λ a s'. Created s.tables a s'.tables)
  with_number s s1 none run = tt
  with_number s s1 (some n) run = elim (Bool-cases (ltb_ℤ max_customer_number n)) [
    | inl over ↦ rw over tt
    | inr small ↦ rw small (make s s1 n run small (new_customer command n) refl)
  ]

  pub create_customer-Created :
      (s : Session) → Returns (create_customer command s) (λ a s'. Created s.tables a s'.tables)
  unfolding create_customer create_customer_once reserve_next_customer_number
  create_customer-Created s =
      run_transaction-Returns (create_customer_once command) Created
        (λ t.
          on_error-Succeeds _ _ _ t _ (λ e s'. tt) (λ number s1 run. with_number t s1 number run))
        _ s
