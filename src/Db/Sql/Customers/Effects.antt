-- ===== src/Db/Sql/Customers/Effects.antt =====
-- The effect of the statements on `customer` when they succeed, and what is found afterwards.
use cbsa_rust.Prelude.{ℕ, ◌≡◌, ◌≢◌, refl, true, none, some, List, [], ◌∷◌, ◌++◌, ok, arith}
use cbsa_rust.Prelude.Int.{ℤ, int_eq_iff}
use cbsa_rust.Prelude.Search.{keep_by}
use cbsa_rust.Text.{Text}
use cbsa_rust.Text.Laws.{text_eq_sound}
use cbsa_rust.Crates.{Crates}
use cbsa_rust.Db.Tables.{CustomerRow, AccountRow, Tables}
use cbsa_rust.Db.Session.{Session, execute_cases}
use cbsa_rust.Db.Sql.Customers.{
  is_customer, find_customer, is_held_by, accepts_customer, insert_customer_row, set_profile,
  update_profile, fits_profile, remove_customer, delete_customer, holds_none,
}

module _ ⦃c : Crates⦄ where
  pub insert_customer_row_effect :
      (row : CustomerRow) (s s' : Session)
      → insert_customer_row row s ≡ (ok tt, s')
      → (s'.tables ≡ record (s.tables) { customer = s.tables.customer ++ (row ∷ []) })
        × (accepts_customer s.tables row ≡ true)
  unfolding insert_customer_row
  insert_customer_row_effect row s s' =
      execute_cases _ s
        (λ x.
          x ≡ (ok tt, s')
          → (s'.tables ≡ record (s.tables) { customer = s.tables.customer ++ (row ∷ []) })
            × (accepts_customer s.tables row ≡ true))
        (λ rest e. ground arith) (λ f rest e. cc)

  abbrev pub with_profile : Text → ℤ → Text → Text → Tables → Tables
  with_profile sortcode number name address t = record t {
    customer = set_profile sortcode number name address t.customer;
  }

  pub update_profile_effect :
      (sortcode : Text) (number : ℤ) (name address : Text) (s s' : Session) (n : ℕ)
      → update_profile sortcode number name address s ≡ (ok n, s')
      → n ≢ 0
      → (s'.tables ≡ with_profile sortcode number name address s.tables)
        × (fits_profile name address ≡ true)
  unfolding update_profile
  update_profile_effect sortcode number name address s s' n =
      execute_cases _ s
        (λ x.
          x ≡ (ok n, s')
          → n ≢ 0
          → (s'.tables ≡ with_profile sortcode number name address s.tables)
            × (fits_profile name address ≡ true))
        (λ rest e h. ground arith) (λ f rest e h. ground arith)

  nobody : (rows : List AccountRow) → holds_none rows ≡ true → rows ≡ []
  nobody [] h = refl
  nobody (row ∷ rows) h = ground arith

  abbrev pub without_customer : Text → ℤ → Tables → Tables
  without_customer sortcode number t = record t {
    customer = remove_customer sortcode number t.customer;
  }

  -- A deletion of a customer that goes through finds no account of the customer.
  pub delete_customer_effect :
      (sortcode : Text) (number : ℤ) (s s' : Session) (n : ℕ)
      → delete_customer sortcode number s ≡ (ok n, s')
      → n ≢ 0
      → (s'.tables ≡ without_customer sortcode number s.tables)
        × (keep_by (is_held_by sortcode number) s.tables.account ≡ [])
  unfolding delete_customer
  delete_customer_effect sortcode number s s' n =
      execute_cases _ s
        (λ x.
          x ≡ (ok n, s')
          → n ≢ 0
          → (s'.tables ≡ without_customer sortcode number s.tables)
            × (keep_by (is_held_by sortcode number) s.tables.account ≡ []))
        (λ rest e h. ground (arith, nobody (keep_by (is_held_by sortcode number) s.tables.account)))
        (λ f rest e h. ground arith)

  pub find_customer-remove_customer :
      (sortcode : Text) (number : ℤ) (rows : List CustomerRow)
      → find_customer sortcode number (remove_customer sortcode number rows) ≡ none
  unfolding find_customer
  find_customer-remove_customer sortcode number [] = refl
  find_customer-remove_customer sortcode number (r ∷ rows) =
      ground (arith, find_customer-remove_customer sortcode number rows)

  pub find_customer-remove_customer_ne :
      (sortcode : Text) (m n : ℤ) (rows : List CustomerRow)
      → m ≢ n
      → find_customer sortcode m (remove_customer sortcode n rows) ≡ find_customer sortcode m rows
  unfolding find_customer is_customer
  find_customer-remove_customer_ne sortcode m n [] h = refl
  find_customer-remove_customer_ne sortcode m n (r ∷ rows) h = ground (
    arith,
    int_eq_iff r.customer_number m,
    int_eq_iff r.customer_number n,
    find_customer-remove_customer_ne sortcode m n rows h,
  )

  pub find_customer_key :
      (sortcode : Text) (number : ℤ) (rows : List CustomerRow) (row : CustomerRow)
      → find_customer sortcode number rows ≡ some row
      → (row.sortcode ≡ sortcode) × (row.customer_number ≡ number)
  unfolding find_customer is_customer
  find_customer_key s n [] row e = cc
  find_customer_key s n (r ∷ rows) row e = ground (
    arith,
    text_eq_sound r.sortcode s,
    int_eq_iff r.customer_number n,
    find_customer_key s n rows row,
  )

  pub find_customer-set_profile :
      (s : Text) (n : ℤ) (name address : Text) (rows : List CustomerRow) (row : CustomerRow)
      → find_customer s n rows ≡ some row
      → find_customer s n (set_profile s n name address rows)
        ≡ some (record row { name = name; address = address })
  unfolding find_customer is_customer set_profile
  find_customer-set_profile s n name address [] row e = cc
  find_customer-set_profile s n name address (r ∷ rows) row e =
      ground (arith, find_customer-set_profile s n name address rows row)

  pub find_customer-set_profile_ne :
      (s : Text) (m n : ℤ) (name address : Text) (rows : List CustomerRow)
      → m ≢ n
      → find_customer s m (set_profile s n name address rows) ≡ find_customer s m rows
  unfolding find_customer is_customer set_profile
  find_customer-set_profile_ne s m n name address [] h = refl
  find_customer-set_profile_ne s m n name address (r ∷ rows) h = ground (
    arith,
    int_eq_iff r.customer_number m,
    int_eq_iff r.customer_number n,
    find_customer-set_profile_ne s m n name address rows h,
  )
