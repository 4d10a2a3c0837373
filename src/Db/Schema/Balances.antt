-- ===== src/Db/Schema/Balances.antt =====
-- Updates of the balances of one account: what is found afterwards, and the sum of a balance over
-- the table.
use cbsa_rust.Prelude.{
  ◌≡◌, ◌≢◌, refl, true, List, [], ◌∷◌, some, none, arith, All, ap, sym, ◌∙◌, Bool-cases, inl, inr,
}
use cbsa_rust.Prelude.Int.{ℤ, pos, ◌+ℤ◌, +ℤ_assoc, int_laws, int_eq_iff}
use cbsa_rust.Text.{Text}
use cbsa_rust.Text.Laws.{text_eq_sound}
use cbsa_rust.Crates.{Crates, IsLawful}
use cbsa_rust.Db.Tables.{AccountRow}
use cbsa_rust.Db.Sql.{is_account, find_account, set_balances}
use cbsa_rust.Db.Schema.{IsKeyed, IsStored, InRange}

module _ ⦃c : Crates⦄ where
  -- The row that is found has the key that was asked for.
  pub find_account_key :
      (s : Text) (n : ℤ) (rows : List AccountRow) (row : AccountRow)
      → find_account s n rows ≡ some row
      → (row.sortcode ≡ s) × (row.account_number ≡ n)
  unfolding find_account is_account
  find_account_key s n [] row e = cc
  find_account_key s n (r ∷ rows) row e = ground (
    arith,
    text_eq_sound r.sortcode s,
    int_eq_iff r.account_number n,
    find_account_key s n rows row,
  )

  pub is_account_key :
      (s : Text) (n : ℤ) (row : AccountRow)
      → is_account s n row ≡ true
      → (row.sortcode ≡ s) × (row.account_number ≡ n)
  unfolding is_account
  is_account_key s n row h =
      ground (arith, text_eq_sound row.sortcode s, int_eq_iff row.account_number n)

  pub find_account-set_balances :
      (s : Text) (n : ℤ) (available actual : c.Decimal) (rows : List AccountRow) (row : AccountRow)
      → find_account s n rows ≡ some row
      → find_account s n (set_balances s n available actual rows)
        ≡ some (record row { available_balance = available; actual_balance = actual })
  unfolding find_account is_account set_balances
  find_account-set_balances s n available actual [] row e = cc
  find_account-set_balances s n available actual (r ∷ rows) row e =
      ground (arith, find_account-set_balances s n available actual rows row)

  pub find_account-set_balances_ne :
      (s : Text) (m n : ℤ) (available actual : c.Decimal) (rows : List AccountRow)
      → m ≢ n
      → find_account s m (set_balances s n available actual rows) ≡ find_account s m rows
  unfolding find_account is_account set_balances
  find_account-set_balances_ne s m n available actual [] h = refl
  find_account-set_balances_ne s m n available actual (r ∷ rows) h = ground (
    arith,
    int_eq_iff r.account_number m,
    int_eq_iff r.account_number n,
    find_account-set_balances_ne s m n available actual rows h,
  )

  find_account-set_balances-none :
      (s t : Text) (m n : ℤ) (available actual : c.Decimal) (rows : List AccountRow)
      → find_account t m rows ≡ none
      → find_account t m (set_balances s n available actual rows) ≡ none
  unfolding find_account is_account set_balances
  find_account-set_balances-none s t m n available actual [] e = refl
  find_account-set_balances-none s t m n available actual (r ∷ rows) e =
      ground (arith, find_account-set_balances-none s t m n available actual rows)

  pub set_balances-IsKeyed :
      (s : Text) (n : ℤ) (available actual : c.Decimal) (rows : List AccountRow)
      → IsKeyed rows
      → IsKeyed (set_balances s n available actual rows)
  unfolding set_balances
  set_balances-IsKeyed s n available actual [] h = tt
  set_balances-IsKeyed s n available actual (r ∷ rows) (fresh, keyed) = ground (
    arith,
    find_account-set_balances-none s r.sortcode r.account_number n available actual rows fresh,
    set_balances-IsKeyed s n available actual rows keyed,
  )

exchange : (a b t : ℤ) → a +ℤ t +ℤ b ≡ b +ℤ t +ℤ a
exchange a b t = omega int_laws

shift : (x a b u v : ℤ) → a +ℤ b ≡ u +ℤ v → x +ℤ a +ℤ b ≡ x +ℤ u +ℤ v
shift x a b u v h = +ℤ_assoc x a b ∙ ap (λ t. x +ℤ t) h ∙ sym (+ℤ_assoc x u v)

module _ ⦃c : Crates⦄ (laws : IsLawful) where
  open laws use {cents}

  pub set_balances-IsStored :
      (s : Text) (n : ℤ) (available actual : c.Decimal) (rows : List AccountRow)
      → InRange laws available
      → InRange laws actual
      → All (IsStored laws) rows
      → All (IsStored laws) (set_balances s n available actual rows)
  unfolding set_balances
  set_balances-IsStored s n available actual [] p q h = tt
  set_balances-IsStored s n available actual (r ∷ rows) p q (stored, rest) =
      ground (arith, set_balances-IsStored s n available actual rows p q rest)

  pub find_account-IsStored :
      (s : Text) (n : ℤ) (rows : List AccountRow) (row : AccountRow)
      → All (IsStored laws) rows
      → find_account s n rows ≡ some row
      → IsStored laws row
  unfolding find_account
  find_account-IsStored s n [] row h e = cc
  find_account-IsStored s n (r ∷ rows) row (stored, rest) e =
      ground (arith, find_account-IsStored s n rows row rest)

  -- The sum of the available balances, in cents.
  abbrev pub total_available : List AccountRow → ℤ
  total_available [] = pos 0
  total_available (row ∷ rows) = cents row.available_balance +ℤ total_available rows

  -- The sum of the actual balances, in cents.
  abbrev pub total_actual : List AccountRow → ℤ
  total_actual [] = pos 0
  total_actual (row ∷ rows) = cents row.actual_balance +ℤ total_actual rows

  set_balances_absent :
      (s : Text) (n : ℤ) (available actual : c.Decimal) (rows : List AccountRow)
      → find_account s n rows ≡ none
      → set_balances s n available actual rows ≡ rows
  unfolding find_account set_balances
  set_balances_absent s n available actual [] e = refl
  set_balances_absent s n available actual (r ∷ rows) e =
      ground (arith, set_balances_absent s n available actual rows)

  -- With one row for the key, the sums move by the change of that row.
  pub total-set_balances :
      (s : Text) (n : ℤ) (available actual : c.Decimal) (rows : List AccountRow) (row : AccountRow)
      → IsKeyed rows
      → find_account s n rows ≡ some row
      → (total_available (set_balances s n available actual rows) +ℤ cents row.available_balance
          ≡ total_available rows +ℤ cents available)
        × (total_actual (set_balances s n available actual rows) +ℤ cents row.actual_balance
            ≡ total_actual rows +ℤ cents actual)
  unfolding find_account set_balances
  total-set_balances s n available actual [] row k e = cc
  total-set_balances s n available actual (r ∷ rows) row (fresh, keyed) e =
      elim (Bool-cases (is_account s n r)) [
        | inl here ↦
            let (same_s, same_n) = is_account_key s n r here in
            let alone : find_account s n rows ≡ none = rw (← same_s, ← same_n) fresh in
            let absent : set_balances s n available actual rows ≡ rows =
              set_balances_absent s n available actual rows alone in
            let found : r ≡ row = ground (arith) in
            rw (here, absent, ← found) (exchange _ _ _, exchange _ _ _)
        | inr elsewhere ↦
            let found : find_account s n rows ≡ some row = ground arith in
            let (moved, moved') = total-set_balances s n available actual rows row keyed found in
            rw elsewhere (shift _ _ _ _ _ moved, shift _ _ _ _ _ moved')
      ]
