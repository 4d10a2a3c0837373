-- ===== src/Repository/Updcust/Complete.antt =====
-- When an update of a customer goes through.
use cbsa_rust.Prelude.{
  ℕ, ◌≤◌, ◌<◌, ◌^◌, ◌≡◌, refl, ap, ◌∙◌, true, false, ◌&&◌, some, [], ok, arith, length,
}
use cbsa_rust.Prelude.Int.{ℤ, pos, negsuc, ◌≤ℤ◌}
use cbsa_rust.Text.{Text, codes}
use cbsa_rust.Crates.{Crates, IsLawful}
use cbsa_rust.Config.Laws.{is_six_ascii_digits_iff}
use cbsa_rust.Domain.Customer.{CustomerDetails, max_customer_number}
use cbsa_rust.Domain.Customer
use cbsa_rust.Domain.Laws.{CustomerChecked, new-CustomerChecked}
use cbsa_rust.Db.Tables.{CustomerRow}
use cbsa_rust.Db.Session.{Session, execute_quiet}
use cbsa_rust.Db.Retry.{on_error_ok}
use cbsa_rust.Db.Sql.{fits_numeric}
use cbsa_rust.Db.Sql.Customers.Effects.{find_customer_key}
use cbsa_rust.Db.Sql.Query.{query_quiet}
use cbsa_rust.Db.Sql.Quiet.{insert_proctran_row_quiet, InRange-fits_numeric}
use cbsa_rust.Db.Sql.Customers.{
  find_customer, count_customers, fits_profile, set_profile, update_profile, select_customer,
}
use cbsa_rust.Repository.Frame.{OnceOutcome, Outcome, failure}
use cbsa_rust.Repository.Frame.Quiet.{run_transaction_success}
use cbsa_rust.Repository.Customer.{into_customer, from_score}
use cbsa_rust.Repository.Customer.Laws.{length-customer_description, into_customer-IsCustomerOf}
use cbsa_rust.Repository.Read.{load, on_load, after_load}
use cbsa_rust.Repository.Updcust.{
  UpdateCustomerCommand, is_blankish, update_customer_row, update_fields, audit, audit_row,
  insert_proctran, rebuilt, load_customer_for_update, with_customer, update_customer_once,
  update_customer, read_fail_code,
}
use cbsa_rust.Repository.Updcust.Fields.{replaced, resolved_fields_lem}

ten_digits : (x : ℤ) → pos 0 ≤ℤ x → x ≤ℤ max_customer_number → (n : ℕ) × (x ≡ pos n) × (n < 10 ^ 10)
ten_digits (pos n) low high = (n, refl, ground arith)
ten_digits (negsuc n) low high = absurd (ground arith)

module _ ⦃c : Crates⦄ where
  from_score-CustomerChecked :
      (row : CustomerRow) (score : ℤ) (d : CustomerDetails)
      → from_score row score ≡ ok d
      → CustomerChecked d
  unfolding Customer.new
  from_score-CustomerChecked row (pos score) d e = ground arith
  from_score-CustomerChecked row (negsuc n) d e = cc

module _ ⦃c : Crates⦄ (laws : IsLawful) (command : UpdateCustomerCommand) (s : Session)
    (row : CustomerRow) (existing : CustomerDetails)
    (found : find_customer command.sortcode command.customer_number s.tables.customer ≡ some row)
    (valid : into_customer row ≡ ok existing) where
  abbrev name' : Text
  name' = replaced existing.name command.name

  abbrev address' : Text
  address' = replaced existing.address command.address

  -- The customer as the update leaves it.
  abbrev pub renamed : CustomerDetails
  renamed = record {
    sortcode = command.sortcode;
    customer_number = command.customer_number;
    name = name';
    address = address';
    date_of_birth = existing.date_of_birth;
    credit_score = existing.credit_score;
    credit_score_review_date = existing.credit_score_review_date;
  }

  renamed-CustomerChecked : CustomerChecked renamed
  unfolding into_customer
  renamed-CustomerChecked =
      let h = from_score-CustomerChecked row row.credit_score existing valid in
      let (same_s, same_n) =
        find_customer_key command.sortcode command.customer_number s.tables.customer row found in
      let is_of = into_customer-IsCustomerOf row existing valid in
      record {
        sortcode_ok = rw (is_of.sortcode ∙ same_s) at h.sortcode_ok;
        number_ge = rw (is_of.customer_number ∙ same_n) at h.number_ge;
        number_le = rw (is_of.customer_number ∙ same_n) at h.number_le;
        score_le = h.score_le;
      }

  short :
      length (c.format_dd_mm_yyyy existing.date_of_birth) ≡ 10
      → length (audit_row command renamed).description ≤ 40
  short ten =
      let h = renamed-CustomerChecked in
      let (n, same, small) = ten_digits command.customer_number h.number_ge h.number_le in
      let (six, _) = (is_six_ascii_digits_iff command.sortcode).0 h.sortcode_ok in
      omega (arith, length-customer_description renamed n six same small ten)

  zero_fits : fits_numeric c.decimal_zero ≡ true
  zero_fits = InRange-fits_numeric laws c.decimal_zero (record {
    scale_le = omega (arith, laws.scale-decimal_zero);
    pos_le = rw laws.cents-decimal_zero (omega arith);
    neg_le = rw laws.cents-decimal_zero (omega arith);
  })

  load_quiet :
      s.schedule ≡ []
      → load_customer_for_update command.sortcode command.customer_number s
        ≡ (ok (some existing), s)
  unfolding load_customer_for_update load select_customer
  load_quiet quiet =
      rw
        (
          query_quiet (λ t. find_customer command.sortcode command.customer_number t.customer) s
              quiet,
          found,
          valid,
        )
        refl

  write_quiet :
      s.schedule ≡ []
      → count_customers command.sortcode command.customer_number s.tables.customer ≡ 1
      → fits_profile name' address' ≡ true
      → length (c.format_dd_mm_yyyy existing.date_of_birth) ≡ 10
      → (s' : Session) × (update_fields command existing (name', address') s
          ≡ (ok (OnceOutcome.success renamed), s'))
        × (s'.schedule ≡ [])
  unfolding update_fields update_customer_row update_profile audit insert_proctran
  write_quiet quiet one fits ten =
      let s1 : Session = record s {
        tables = record (s.tables) {
          customer =
              set_profile command.sortcode command.customer_number name' address' s.tables.customer;
        };
      } in
      let built : rebuilt command existing (name', address') ≡ ok renamed =
        (new-CustomerChecked renamed).1 renamed-CustomerChecked in
      (
        _,
        on_error_ok (update_customer_row command.sortcode command.customer_number name' address') _
              _ s s1 1 (execute_quiet _ s quiet ∙ rw (one, fits) refl)
            ∙ ap (λ r. audit command r s1) built
            ∙ on_error_ok (insert_proctran command renamed) _ _ s1 _ tt (
                insert_proctran_row_quiet (audit_row command renamed) s1 quiet (short ten)
                  zero_fits),
        quiet,
      )

  -- An update of a customer who is there once and valid goes through when no statement fails, name and
  -- address are not both blank, the resulting texts fit their columns, and the date of birth is written
  -- with ten characters; it returns the customer with each of the two fields replaced by the new value
  -- if that is not empty and does not start with a space.
  pub update_customer-completes :
      s.schedule ≡ []
      → count_customers command.sortcode command.customer_number s.tables.customer ≡ 1
      → (is_blankish command.name && is_blankish command.address) ≡ false
      → fits_profile
          (replaced existing.name command.name)
          (replaced existing.address command.address)
        ≡ true
      → length (c.format_dd_mm_yyyy existing.date_of_birth) ≡ 10
      → (s' : Session) × (update_customer command s ≡ (ok (Outcome.success renamed), s'))
  unfolding update_customer update_customer_once on_load
  update_customer-completes quiet one given fits ten =
      let (s', run, quiet') = write_quiet quiet one fits ten in
      (
        s',
        run_transaction_success _ (update_customer_once command) s s' quiet renamed
            (ap
                (λ x.
                  after_load
                    (λ e. failure read_fail_code (codes "Unable to read the customer record."))
                    (with_customer command) x.0 x.1)
                (load_quiet quiet)
              ∙ rw (given, resolved_fields_lem existing command) run)
            quiet',
      )
