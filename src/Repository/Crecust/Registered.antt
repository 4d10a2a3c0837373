-- ===== src/Repository/Crecust/Registered.antt =====
-- What a successful creation of a customer leaves.
use cbsa_rust.Prelude.{
  ℕ, ◌≡◌, refl, true, false, not, Option, none, some, ok, [], ◌∷◌, ◌++◌, arith, ap, sym, ◌∙◌,
}
use cbsa_rust.Prelude.Int.{ℤ, pos, ◌+ℤ◌, ltb_ℤ, ◌≤ℤ◌}
use cbsa_rust.Text.{codes}
use cbsa_rust.Crates.{Crates}
use cbsa_rust.Domain.TranType.{as_str}
use cbsa_rust.Domain.Customer
use cbsa_rust.Domain.Customer.{CustomerDetails, max_customer_number}
use cbsa_rust.Db.Tables.{CustomerRow, ControlRow, Tables}
use cbsa_rust.Db.Session.{Session}
use cbsa_rust.Db.Sql.Opening.{find_control}
use cbsa_rust.Db.Sql.Customers.{find_customer, is_found, accepts_customer}
use cbsa_rust.Db.Sql.Registration.{
  with_next_customer, find_control-set_next_customer, set_next_customer,
}
use cbsa_rust.Repository.Customer.{customer_description}
use cbsa_rust.Repository.Frame.Succeeds.{Returns, Returns_mono}
use cbsa_rust.Repository.Crecust.{
  global_control_id, CreateCustomerCommand, new_customer, customer_row, audit_row, create_customer,
}
use cbsa_rust.Repository.Crecust.Effect.{Created, create_customer-Created}

module _ ⦃c : Crates⦄ (command : CreateCustomerCommand) where
  -- What a creation leaves.
  pub record Registers (before : Tables) (d : CustomerDetails) (after : Tables) : Type 0 where
    pub control_row : ControlRow
    pub control_before : find_control global_control_id before.control ≡ some control_row
    pub control_after :
        find_control global_control_id after.control ≡ some (with_next_customer control_row)
    pub number : d.customer_number ≡ control_row.customer_last +ℤ pos 1
    pub number_le : d.customer_number ≤ℤ max_customer_number
    pub given :
        (d.sortcode ≡ command.sortcode)
        × (d.name ≡ command.name)
        × (d.address ≡ command.address)
        × (d.date_of_birth ≡ command.date_of_birth)
        × (d.credit_score ≡ command.credit_score)
    pub number_free : find_customer d.sortcode d.customer_number before.customer ≡ none
    pub customers :
        after.customer
        ≡ before.customer
          ++ (record {
            sortcode = d.sortcode;
            customer_number = d.customer_number;
            name = d.name;
            address = d.address;
            date_of_birth = d.date_of_birth;
            credit_score = pos d.credit_score;
            cs_review_date = d.credit_score_review_date;
          }
              ∷ [])
    pub accounts : after.account ≡ before.account
    pub counter : ℕ
    pub audited :
        after.proctran
        ≡ before.proctran
          ++ (record {
            sortcode = d.sortcode;
            counter = counter;
            logical_delete = false;
            tran_date = command.transaction_date;
            tran_time = command.transaction_time;
            tran_ref = command.transaction_reference;
            tran_type = codes "OCC";
            description = customer_description d;
            amount = c.decimal_zero;
          }
              ∷ [])

  new_fields :
      (n : ℤ) (d : CustomerDetails)
      → new_customer command n ≡ ok d
      → (d.customer_number ≡ n)
        × (d.sortcode ≡ command.sortcode)
        × (d.name ≡ command.name)
        × (d.address ≡ command.address)
        × (d.date_of_birth ≡ command.date_of_birth)
        × (d.credit_score ≡ command.credit_score)
  unfolding Customer.new
  new_fields n d e = ground arith

  nobody : (row : Option CustomerRow) → not (is_found row) ≡ true → row ≡ none
  nobody none e = refl
  nobody (some row) e = ground arith

  accepts_customer_free :
      (t : Tables) (row : CustomerRow)
      → accepts_customer t row ≡ true
      → find_customer row.sortcode row.customer_number t.customer ≡ none
  unfolding accepts_customer
  accepts_customer_free t row h =
      ground (arith, nobody (find_customer row.sortcode row.customer_number t.customer))

  Created-Registers :
      (before : Tables) (d : CustomerDetails) (after : Tables)
      → Created command before d after
      → Registers before d after
  unfolding as_str
  Created-Registers before d after h =
      let k = h.counted in
      let w = h.written in
      let (same, sortcode, name, address, born, score) = new_fields h.number d h.built_from in
      let control : after.control ≡ set_next_customer global_control_id before.control =
        ap (λ t. t.control) w.audited.tables
        ∙ ap (λ t. t.control) w.inserted
        ∙ ap (λ t. t.control) k.tables in
      record {
        control_row = k.row;
        control_before = k.found;
        control_after =
            rw control
              (find_control-set_next_customer global_control_id before.control k.row k.found);
        number = same ∙ k.number;
        number_le = rw same (not_above h.number h.in_range);
        given = (sortcode, name, address, born, score);
        number_free =
            ap (λ t. find_customer d.sortcode d.customer_number t.customer) (sym k.tables)
            ∙ accepts_customer_free h.counted_tables (customer_row d) w.accepted;
        customers =
            ap (λ t. t.customer) w.audited.tables
            ∙ ap (λ t. t.customer) w.inserted
            ∙ ap (λ t. t.customer ++ (customer_row d ∷ [])) k.tables;
        accounts =
            ap (λ t. t.account) w.audited.tables
            ∙ ap (λ t. t.account) w.inserted
            ∙ ap (λ t. t.account) k.tables;
        counter = w.audited.counter;
        audited =
            ap (λ t. t.proctran) w.audited.tables
            ∙ ap (λ l. l ++ (record (audit_row command d) { counter = w.audited.counter } ∷ []))
                (ap (λ t. t.proctran) w.inserted ∙ ap (λ t. t.proctran) k.tables);
      }
    where
      not_above : (n : ℤ) → ltb_ℤ max_customer_number n ≡ false → n ≤ℤ max_customer_number
      not_above n h = ground arith

  -- A creation of a customer that succeeds raises the counter by one and gives the customer that
  -- number, which was free and is at most 9999999999; the customer has the name, the address, the date
  -- of birth and the credit score of the command; it adds this one customer and one OCC audit row of
  -- amount zero, and leaves the accounts as they were.
  pub create_customer-Registers :
      (s : Session) → Returns (create_customer command s) (λ a s'. Registers s.tables a s'.tables)
  create_customer-Registers s =
      Returns_mono (create_customer command s) _ _
        (λ a s' h. Created-Registers s.tables a s'.tables h) (create_customer-Created command s)
