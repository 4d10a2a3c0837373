-- ===== src/Db/Sql/Customers/Found.antt =====
-- What the `SELECT`s on the tables `customer` and `account` return, said without the queries.
use cbsa_rust.Prelude.{
  ◌≡◌, refl, sym, ap, subst, ◌∙◌, Bool, true, false, ◌&&◌, List, [], ◌∷◌, arith, Bool-cases, inl,
  inr,
}
use cbsa_rust.Prelude.Int.{ℤ, int_eq, int_eq_iff}
use cbsa_rust.Prelude.Search.{find_by}
use cbsa_rust.Prelude.Search.Found.{
  IsFound, IsLastFound, IsListing, find_by-IsFound, last_by-IsLastFound, take-IsListing,
}
use cbsa_rust.Text.{Text, text_eq}
use cbsa_rust.Text.Laws.{text_eq_refl, text_eq_sound}
use cbsa_rust.Crates.{Crates}
use cbsa_rust.Db.Tables.{CustomerRow, AccountRow}
use cbsa_rust.Db.Sql.{is_account, find_account}
use cbsa_rust.Db.Sql.Customers.{
  is_customer, find_customer, last_customer, is_held_by, accounts_of, last_account,
}

module _ ⦃c : Crates⦄ (sortcode : Text) where
  -- The columns that a `WHERE` names.
  abbrev pub IsCustomer : ℤ → CustomerRow → Type 0
  IsCustomer number row = (row.sortcode ≡ sortcode) × (row.customer_number ≡ number)

  abbrev pub IsAccount : ℤ → AccountRow → Type 0
  IsAccount number row = (row.sortcode ≡ sortcode) × (row.account_number ≡ number)

  abbrev pub IsHolding : ℤ → AccountRow → Type 0
  IsHolding number row = (row.sortcode ≡ sortcode) × (row.customer_number ≡ number)

  both : (a b : Bool) → (a && b) ≡ true → (a ≡ true) × (b ≡ true)
  both a b h = ground arith

  -- The test on the branch and on a number.
  key_passes :
      (text : Text) (m n : ℤ)
      → (text_eq text sortcode && int_eq m n) ≡ true
      → (text ≡ sortcode) × (m ≡ n)
  key_passes text m n h =
      let (a, b) = both (text_eq text sortcode) (int_eq m n) h in
      (text_eq_sound text sortcode a, (int_eq_iff m n).0 b)

  key_fails :
      (text : Text) (m n : ℤ)
      → (text_eq text sortcode && int_eq m n) ≡ false
      → ¬ ((text ≡ sortcode) × (m ≡ n))
  key_fails text m n h (p, q) =
      let a : text_eq text sortcode ≡ true =
        ap (λ t. text_eq t sortcode) p ∙ text_eq_refl sortcode in
      let b = (int_eq_iff m n).1 q in ground (arith, a, b, h)

  branch_fails : (text : Text) → text_eq text sortcode ≡ false → ¬ (text ≡ sortcode)
  branch_fails text h p =
      let a : text_eq text sortcode ≡ true =
        ap (λ t. text_eq t sortcode) p ∙ text_eq_refl sortcode in
      ground (arith, a, h)

  pub find_customer-IsFound :
      (number : ℤ) (rows : List CustomerRow)
      → IsFound (IsCustomer number) rows (find_customer sortcode number rows)
  unfolding find_customer is_customer
  find_customer-IsFound number rows =
      find_by-IsFound _
        (record {
          passes = λ row h. key_passes row.sortcode row.customer_number number h;
          fails = λ row h. key_fails row.sortcode row.customer_number number h;
        })
        rows

  pub last_customer-IsLastFound :
      (rows : List CustomerRow)
      → IsLastFound
          (λ row. row.sortcode ≡ sortcode)
          (λ row. row.customer_number)
          rows
          (last_customer sortcode rows)
  unfolding last_customer
  last_customer-IsLastFound rows =
      last_by-IsLastFound _
        (record {
          passes = λ row h. text_eq_sound row.sortcode sortcode h;
          fails = λ row h. branch_fails row.sortcode h;
        })
        (λ row. row.customer_number) rows

  find_account-find_by :
      (number : ℤ) (rows : List AccountRow)
      → find_account sortcode number rows ≡ find_by (is_account sortcode number) rows
  unfolding find_account
  find_account-find_by number [] = refl
  find_account-find_by number (row ∷ rows) = elim (Bool-cases (is_account sortcode number row)) [
    | inl e ↦ rw e refl
    | inr e ↦ rw e (find_account-find_by number rows)
  ]

  pub find_account-IsFound :
      (number : ℤ) (rows : List AccountRow)
      → IsFound (IsAccount number) rows (find_account sortcode number rows)
  unfolding is_account
  find_account-IsFound number rows =
      subst (IsFound (IsAccount number) rows) (sym (find_account-find_by number rows)) (
        find_by-IsFound (is_account sortcode number)
          (record {
            passes = λ row h. key_passes row.sortcode row.account_number number h;
            fails = λ row h. key_fails row.sortcode row.account_number number h;
          })
          rows)

  pub last_account-IsLastFound :
      (rows : List AccountRow)
      → IsLastFound
          (λ row. row.sortcode ≡ sortcode)
          (λ row. row.account_number)
          rows
          (last_account sortcode rows)
  unfolding last_account
  last_account-IsLastFound rows =
      last_by-IsLastFound _
        (record {
          passes = λ row h. text_eq_sound row.sortcode sortcode h;
          fails = λ row h. branch_fails row.sortcode h;
        })
        (λ row. row.account_number) rows

  pub accounts_of-IsListing :
      (number : ℤ) (rows : List AccountRow)
      → IsListing
          (IsHolding number)
          (λ row. row.account_number)
          20
          rows
          (accounts_of sortcode number rows)
  unfolding accounts_of is_held_by
  accounts_of-IsListing number rows =
      take-IsListing (is_held_by sortcode number)
        (record {
          passes = λ row h. key_passes row.sortcode row.customer_number number h;
          fails = λ row h. key_fails row.sortcode row.customer_number number h;
        })
        (λ row. row.account_number) 20 rows
