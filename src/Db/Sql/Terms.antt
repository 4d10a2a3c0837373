-- ===== src/Db/Sql/Terms.antt =====
-- `UPDATE account SET account_type = $1, interest_rate = $2, overdraft_limit = $3 WHERE …` of
-- `repository/updacc.rs`, on the tables.
use cbsa_rust.Prelude.{
  ◌≡◌, ◌≢◌, refl, ℕ, Bool, true, ◌&&◌, some, List, [], ◌∷◌, ok, err, leb, ◌==◌, length, arith,
  if◌then◌else◌, Bool-cases, inl, inr, ap,
}
use cbsa_rust.Prelude.Int.{ℤ, ◌+ℤ◌, int_eq_iff}
use cbsa_rust.Text.{Text}
use cbsa_rust.Crates.{Crates, IsLawful}
use cbsa_rust.Db.Tables.{AccountRow, Tables}
use cbsa_rust.Db.Session.{Session, Stmt, execute, execute_cases}
use cbsa_rust.Db.Sql.{fits_numeric, is_account, find_account, count_accounts}
use cbsa_rust.Db.Sql.Opening.{fits_rate}
use cbsa_rust.Db.Schema.Balances.{total_available, total_actual}

module _ ⦃c : Crates⦄ where
  abbrev pub with_terms : Text → c.Decimal → c.Decimal → AccountRow → AccountRow
  with_terms kind rate limit row = record row {
    account_type = kind;
    interest_rate = rate;
    overdraft_limit = limit;
  }

  unfoldable pub set_terms :
      Text → ℤ → Text → c.Decimal → c.Decimal → List AccountRow → List AccountRow
  set_terms sortcode number kind rate limit [] = []
  set_terms sortcode number kind rate limit (row ∷ rows) =
      (if is_account sortcode number row then with_terms kind rate limit row else row)
      ∷ set_terms sortcode number kind rate limit rows

  -- VARCHAR(8), NUMERIC(6,2) and NUMERIC(12,2)
  abbrev pub fits_terms : Text → c.Decimal → c.Decimal → Bool
  fits_terms kind rate limit = leb (length kind) 8 && (fits_rate rate && fits_numeric limit)

  unfoldable pub update_terms : Text → ℤ → Text → c.Decimal → c.Decimal → Stmt ℕ
  update_terms sortcode number kind rate limit = execute λ s.
      let n = count_accounts sortcode number s.tables.account in
      if n == 0
      then (ok 0, s)
      else if fits_terms kind rate limit
      then (
        ok n,
        record s {
          tables = record (s.tables) {
            account = set_terms sortcode number kind rate limit s.tables.account;
          };
        },
      )
      else (err c.constraint_violation, s)

  abbrev pub tables_with_terms : Text → ℤ → Text → c.Decimal → c.Decimal → Tables → Tables
  tables_with_terms sortcode number kind rate limit t = record t {
    account = set_terms sortcode number kind rate limit t.account;
  }

  pub update_terms_effect :
      (sortcode : Text) (number : ℤ) (kind : Text) (rate limit : c.Decimal) (s s' : Session) (n : ℕ)
      → update_terms sortcode number kind rate limit s ≡ (ok n, s')
      → n ≢ 0
      → (s'.tables ≡ tables_with_terms sortcode number kind rate limit s.tables)
        × (fits_terms kind rate limit ≡ true)
  unfolding update_terms
  update_terms_effect sortcode number kind rate limit s s' n =
      execute_cases _ s
        (λ x.
          x ≡ (ok n, s')
          → n ≢ 0
          → (s'.tables ≡ tables_with_terms sortcode number kind rate limit s.tables)
            × (fits_terms kind rate limit ≡ true))
        (λ rest e h. ground arith) (λ f rest e h. ground arith)

  pub find_account-set_terms :
      (s : Text) (n : ℤ) (kind : Text) (rate limit : c.Decimal) (rows : List AccountRow)
      (row : AccountRow)
      → find_account s n rows ≡ some row
      → find_account s n (set_terms s n kind rate limit rows)
        ≡ some (with_terms kind rate limit row)
  unfolding find_account is_account set_terms
  find_account-set_terms s n kind rate limit [] row e = cc
  find_account-set_terms s n kind rate limit (r ∷ rows) row e =
      ground (arith, find_account-set_terms s n kind rate limit rows row)

  pub find_account-set_terms_ne :
      (s : Text) (m n : ℤ) (kind : Text) (rate limit : c.Decimal) (rows : List AccountRow)
      → m ≢ n
      → find_account s m (set_terms s n kind rate limit rows) ≡ find_account s m rows
  unfolding find_account is_account set_terms
  find_account-set_terms_ne s m n kind rate limit [] h = refl
  find_account-set_terms_ne s m n kind rate limit (r ∷ rows) h = ground (
    arith,
    int_eq_iff r.account_number m,
    int_eq_iff r.account_number n,
    find_account-set_terms_ne s m n kind rate limit rows h,
  )

module _ ⦃c : Crates⦄ (laws : IsLawful) where
  open laws use {cents}

  -- The sums of the balances do not depend on the terms.
  pub total-set_terms :
      (s : Text) (n : ℤ) (kind : Text) (rate limit : c.Decimal) (rows : List AccountRow)
      → (total_available laws (set_terms s n kind rate limit rows) ≡ total_available laws rows)
        × (total_actual laws (set_terms s n kind rate limit rows) ≡ total_actual laws rows)
  unfolding set_terms
  total-set_terms s n kind rate limit [] = (refl, refl)
  total-set_terms s n kind rate limit (r ∷ rows) =
      let (available, actual) = total-set_terms s n kind rate limit rows in
      elim (Bool-cases (is_account s n r)) [
        | inl here ↦ rw here (
          ap (λ t. cents r.available_balance +ℤ t) available,
          ap (λ t. cents r.actual_balance +ℤ t) actual,
        )
        | inr other ↦ rw other (
          ap (λ t. cents r.available_balance +ℤ t) available,
          ap (λ t. cents r.actual_balance +ℤ t) actual,
        )
      ]
