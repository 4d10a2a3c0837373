-- ===== src/Db/Sql/Removal.antt =====
-- `DELETE FROM account WHERE sortcode = … AND account_number = …` of `repository/delacc.rs`, on the
-- tables.
use cbsa_rust.Prelude.{
  ◌≡◌, ◌≢◌, refl, ℕ, none, some, List, [], ◌∷◌, ok, arith, if◌then◌else◌, Bool-cases, inl, inr, ap,
  All,
}
use cbsa_rust.Prelude.Int.{ℤ, ◌+ℤ◌, pos_part, neg_part, int_laws, int_eq_iff}
use cbsa_rust.Text.{Text}
use cbsa_rust.Crates.{Crates, IsLawful}
use cbsa_rust.Db.Tables.{AccountRow}
use cbsa_rust.Db.Session.{Session, Stmt, execute, execute_cases}
use cbsa_rust.Db.Sql.{is_account, find_account, count_accounts}
use cbsa_rust.Db.Schema.{IsKeyed}
use cbsa_rust.Db.Schema.Balances.{is_account_key, total_available, total_actual}

module _ ⦃c : Crates⦄ where
  unfoldable pub remove_account : Text → ℤ → List AccountRow → List AccountRow
  remove_account sortcode number [] = []
  remove_account sortcode number (row ∷ rows) =
      if is_account sortcode number row
      then remove_account sortcode number rows
      else (row ∷ remove_account sortcode number rows)

  unfoldable pub delete_row : Text → ℤ → Stmt ℕ
  delete_row sortcode number = execute λ s. (
    ok (count_accounts sortcode number s.tables.account),
    record s {
      tables = record (s.tables) { account = remove_account sortcode number s.tables.account };
    },
  )

  pub delete_row_effect :
      (sortcode : Text) (number : ℤ) (s s' : Session) (n : ℕ)
      → delete_row sortcode number s ≡ (ok n, s')
      → s'.tables ≡ record (s.tables) { account = remove_account sortcode number s.tables.account }
  unfolding delete_row
  delete_row_effect sortcode number s s' n =
      execute_cases _ s
        (λ x.
          x ≡ (ok n, s')
          → s'.tables
            ≡ record (s.tables) { account = remove_account sortcode number s.tables.account })
        (λ rest e. ground arith) (λ f rest e. cc)

  pub delete_row_count :
      (sortcode : Text) (number : ℤ) (s s' : Session) (n : ℕ)
      → delete_row sortcode number s ≡ (ok n, s')
      → count_accounts sortcode number s.tables.account ≡ n
  unfolding delete_row
  delete_row_count sortcode number s s' n =
      execute_cases _ s (λ x. x ≡ (ok n, s') → count_accounts sortcode number s.tables.account ≡ n)
        (λ rest e. ground arith) (λ f rest e. cc)

  pub count_accounts-remove_account_ne :
      (sortcode : Text) (m n : ℤ) (rows : List AccountRow)
      → m ≢ n
      → count_accounts sortcode m (remove_account sortcode n rows) ≡ count_accounts sortcode m rows
  unfolding count_accounts remove_account is_account
  count_accounts-remove_account_ne sortcode m n [] h = refl
  count_accounts-remove_account_ne sortcode m n (r ∷ rows) h = ground (
    arith,
    int_eq_iff r.account_number m,
    int_eq_iff r.account_number n,
    count_accounts-remove_account_ne sortcode m n rows h,
  )

  -- What holds of all rows holds of those that are left.
  pub All_remove_account :
      (P : AccountRow → Type 0) (sortcode : Text) (number : ℤ) (rows : List AccountRow)
      → All P rows
      → All P (remove_account sortcode number rows)
  unfolding remove_account
  All_remove_account P sortcode number [] h = tt
  All_remove_account P sortcode number (r ∷ rows) (h, hs) =
      elim (Bool-cases (is_account sortcode number r)) [
        | inl here ↦ rw here (All_remove_account P sortcode number rows hs)
        | inr other ↦ rw other (h, All_remove_account P sortcode number rows hs)
      ]

  pub find_account-remove_account :
      (sortcode : Text) (number : ℤ) (rows : List AccountRow)
      → find_account sortcode number (remove_account sortcode number rows) ≡ none
  unfolding find_account remove_account
  find_account-remove_account sortcode number [] = refl
  find_account-remove_account sortcode number (r ∷ rows) =
      ground (arith, find_account-remove_account sortcode number rows)

  pub find_account-remove_account_ne :
      (sortcode : Text) (m n : ℤ) (rows : List AccountRow)
      → m ≢ n
      → find_account sortcode m (remove_account sortcode n rows) ≡ find_account sortcode m rows
  unfolding find_account remove_account is_account
  find_account-remove_account_ne sortcode m n [] h = refl
  find_account-remove_account_ne sortcode m n (r ∷ rows) h = ground (
    arith,
    int_eq_iff r.account_number m,
    int_eq_iff r.account_number n,
    find_account-remove_account_ne sortcode m n rows h,
  )

  remove_absent :
      (sortcode : Text) (number : ℤ) (rows : List AccountRow)
      → find_account sortcode number rows ≡ none
      → remove_account sortcode number rows ≡ rows
  unfolding find_account remove_account
  remove_absent sortcode number [] e = refl
  remove_absent sortcode number (r ∷ rows) e = ground (arith, remove_absent sortcode number rows)

swap : (a b t u : ℤ) → t ≡ b +ℤ u → a +ℤ t ≡ b +ℤ (a +ℤ u)
swap a b t u e = omega (int_laws, ap pos_part e, ap neg_part e)

module _ ⦃c : Crates⦄ (laws : IsLawful) where
  open laws use {cents}

  -- The sums lose exactly what the row held.
  pub total-remove_account :
      (sortcode : Text) (number : ℤ) (rows : List AccountRow) (row : AccountRow)
      → IsKeyed rows
      → find_account sortcode number rows ≡ some row
      → (total_available laws rows
          ≡ cents row.available_balance
            +ℤ total_available laws (remove_account sortcode number rows))
        × (total_actual laws rows
            ≡ cents row.actual_balance +ℤ total_actual laws (remove_account sortcode number rows))
  unfolding find_account remove_account
  total-remove_account sortcode number [] row k e = cc
  total-remove_account sortcode number (r ∷ rows) row (fresh, keyed) e =
      elim (Bool-cases (is_account sortcode number r)) [
        | inl here ↦
            let (same_s, same_n) = is_account_key sortcode number r here in
            let alone : find_account sortcode number rows ≡ none = rw (← same_s, ← same_n) fresh in
            let absent = remove_absent sortcode number rows alone in
            let found : r ≡ row = ground arith in rw (here, absent, ← found) (refl, refl)
        | inr other ↦
            let found : find_account sortcode number rows ≡ some row = rw other at e in
            let (p, q) = total-remove_account sortcode number rows row keyed found in
            rw other (swap _ _ _ _ p, swap _ _ _ _ q)
      ]
