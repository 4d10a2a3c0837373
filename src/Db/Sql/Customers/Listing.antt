-- ===== src/Db/Sql/Customers/Listing.antt =====
-- The listing of the accounts of a customer: what it holds when the table is keyed.
use cbsa_rust.Prelude.{
  ◌≡◌, ◌≢◌, refl, true, false, none, some, List, [], ◌∷◌, All, arith, length, ◌≤◌, length-take,
  Bool-cases, inl, inr, subst,
}
use cbsa_rust.Prelude.Int.{ℤ, int_eq_iff}
use cbsa_rust.Prelude.Search.{
  keep_by, sort_by, All_keep_by, All_sort_by, All_take, All_mono, IsDistinct, sort_by-IsDistinct,
  take-IsDistinct,
}
use cbsa_rust.Text.{Text}
use cbsa_rust.Text.Laws.{text_eq_refl, text_eq_sound}
use cbsa_rust.Crates.{Crates}
use cbsa_rust.Db.Tables.{AccountRow}
use cbsa_rust.Db.Sql.{is_account, find_account, count_accounts}
use cbsa_rust.Db.Sql.Quiet.{count_one}
use cbsa_rust.Db.Schema.{IsKeyed}
use cbsa_rust.Db.Schema.Balances.{is_account_key}
use cbsa_rust.Db.Sql.Customers.{is_held_by, accounts_of, listing_limit}

module _ ⦃c : Crates⦄ where
  is_account_self : (r : AccountRow) → is_account r.sortcode r.account_number r ≡ true
  unfolding is_account
  is_account_self r =
      ground (arith, text_eq_refl r.sortcode, int_eq_iff r.account_number r.account_number)

  -- A row is what its own key finds.
  own_key :
      (rows : List AccountRow)
      → IsKeyed rows
      → All (λ r. find_account r.sortcode r.account_number rows ≡ some r) rows
  unfolding find_account
  own_key [] k = tt
  own_key (h ∷ rows) (fresh, keyed) = (
    rw (is_account_self h) refl,
    All_mono rows
        (λ r own. elim (Bool-cases (is_account r.sortcode r.account_number h)) [
          | inl same ↦
              let (same_s, same_n) = is_account_key r.sortcode r.account_number h same in
              let lost : find_account r.sortcode r.account_number rows ≡ none =
                rw (← same_s, ← same_n) fresh in
              absurd (ground arith)
          | inr other ↦ rw other own
        ])
        (own_key rows keyed),
  )

  absent :
      (s : Text) (n : ℤ) (rows : List AccountRow)
      → find_account s n rows ≡ none
      → All (λ q. is_account s n q ≡ false) rows
  unfolding find_account
  absent s n [] e = tt
  absent s n (h ∷ rows) e = elim (Bool-cases (is_account s n h)) [
    | inl same ↦ absurd (ground arith)
    | inr other ↦ (other, absent s n rows (ground arith))
  ]

  -- All rows with a key are the row that it finds.
  only :
      (s : Text) (n : ℤ) (rows : List AccountRow) (r : AccountRow)
      → IsKeyed rows
      → find_account s n rows ≡ some r
      → All (λ q. is_account s n q ≡ true → q ≡ r) rows
  unfolding find_account
  only s n [] r k e = tt
  only s n (h ∷ rows) r (fresh, keyed) e = elim (Bool-cases (is_account s n h)) [
    | inl same ↦
        let (same_s, same_n) = is_account_key s n h same in
        let alone : find_account s n rows ≡ none = rw (← same_s, ← same_n) fresh in
        (
          λ _. ground arith,
          All_mono rows (λ q no yes. absurd (ground arith)) (absent s n rows alone),
        )
    | inr other ↦ (λ yes. absurd (ground arith), only s n rows r keyed (ground arith))
  ]

  pub is_held_by_sortcode :
      (s : Text) (customer : ℤ) (r : AccountRow)
      → is_held_by s customer r ≡ true
      → (r.sortcode ≡ s) × (r.customer_number ≡ customer)
  unfolding is_held_by
  is_held_by_sortcode s customer r h =
      ground (arith, text_eq_sound r.sortcode s, int_eq_iff r.customer_number customer)

module _ ⦃c : Crates⦄ (s : Text) (customer : ℤ) where
  -- One row has the number, and it is the customer's.
  pub record IsOwned (rows : List AccountRow) (r : AccountRow) : Type 0 where
    pub held : is_held_by s customer r ≡ true
    pub once : count_accounts s r.account_number rows ≡ 1
    pub own :
        All (λ q. is_account s r.account_number q ≡ true → is_held_by s customer q ≡ true) rows

  owned :
      (rows : List AccountRow) (r : AccountRow)
      → IsKeyed rows
      → is_held_by s customer r ≡ true
      → find_account r.sortcode r.account_number rows ≡ some r
      → IsOwned rows r
  owned rows r keyed held found =
      let (same, _) = is_held_by_sortcode s customer r held in
      let found' : find_account s r.account_number rows ≡ some r =
        subst (λ z. find_account z r.account_number rows ≡ some r) same found in
      record {
        held = held;
        once = count_one s r.account_number rows r keyed found';
        own =
            All_mono rows (λ q is yes. rw (is yes) held)
              (only s r.account_number rows r keyed found');
      }

  pub accounts_of-IsOwned :
      (rows : List AccountRow) → IsKeyed rows → All (IsOwned rows) (accounts_of s customer rows)
  unfolding accounts_of
  accounts_of-IsOwned rows keyed = All_take (IsOwned rows) listing_limit _ (
      All_sort_by (IsOwned rows) (λ r. r.account_number) _
        (All_mono (keep_by (is_held_by s customer) rows) (λ r h. owned rows r keyed h.0 h.1)
          (All_keep_by (λ r. find_account r.sortcode r.account_number rows ≡ some r)
            (is_held_by s customer) rows (own_key rows keyed))))

  other_number :
      (r y : AccountRow)
      → is_held_by s customer r ≡ true
      → is_held_by s customer y ≡ true
      → is_account r.sortcode r.account_number y ≡ false
      → y.account_number ≢ r.account_number
  unfolding is_account
  other_number r y held_r held_y apart e =
      let (same_r, _) = is_held_by_sortcode s customer r held_r in
      let (same_y, _) = is_held_by_sortcode s customer y held_y in
      ground (arith, same_r, same_y, text_eq_refl s, int_eq_iff y.account_number r.account_number)

  held-IsDistinct :
      (rows : List AccountRow)
      → IsKeyed rows
      → IsDistinct (λ r. r.account_number) (keep_by (is_held_by s customer) rows)
  held-IsDistinct [] k = tt
  held-IsDistinct (r ∷ rows) (fresh, keyed) = elim (Bool-cases (is_held_by s customer r)) [
    | inl held ↦ rw held (
      All_mono (keep_by (is_held_by s customer) rows) (λ y h. other_number r y held h.0 h.1)
          (All_keep_by (λ q. is_account r.sortcode r.account_number q ≡ false)
            (is_held_by s customer) rows (absent r.sortcode r.account_number rows fresh)),
      held-IsDistinct rows keyed,
    )
    | inr other ↦ rw other (held-IsDistinct rows keyed)
  ]

  pub accounts_of-IsDistinct :
      (rows : List AccountRow)
      → IsKeyed rows
      → IsDistinct (λ r. r.account_number) (accounts_of s customer rows)
  unfolding accounts_of
  accounts_of-IsDistinct rows keyed =
      take-IsDistinct (λ r. r.account_number) listing_limit _
        (sort_by-IsDistinct (λ r. r.account_number) _ (held-IsDistinct rows keyed))

  pub length-accounts_of : (rows : List AccountRow) → length (accounts_of s customer rows) ≤ 20
  unfolding accounts_of
  length-accounts_of rows = omega (
    arith,
    length-take listing_limit
        (sort_by (λ r. r.account_number) (keep_by (is_held_by s customer) rows)),
  )
