-- ===== src/Db/Sql/Effects.antt =====
-- The effect of each SQL statement when it succeeds.
use cbsa_rust.Prelude.{ℕ, ◌≤◌, ◌≡◌, ◌≢◌, true, Option, [], ◌∷◌, ◌++◌, ok, arith, length}
use cbsa_rust.Prelude.Int.{ℤ}
use cbsa_rust.Text.{Text}
use cbsa_rust.Crates.{Crates}
use cbsa_rust.Db.Tables.{AccountRow, ProctranRow, Tables}
use cbsa_rust.Db.Session.{Session, execute_cases}
use cbsa_rust.Db.Sql.{
  fits_numeric, find_account, set_balances, select_account, update_balances, insert_proctran_row,
}

module _ ⦃c : Crates⦄ where
  -- A read changes no table.
  pub select_account_effect :
      (sortcode : Text) (number : ℤ) (s s' : Session) (row : Option AccountRow)
      → select_account sortcode number s ≡ (ok row, s')
      → (s'.tables ≡ s.tables) × (find_account sortcode number s.tables.account ≡ row)
  unfolding select_account
  select_account_effect sortcode number s s' row =
      execute_cases _ s
        (λ x.
          x ≡ (ok row, s')
          → (s'.tables ≡ s.tables) × (find_account sortcode number s.tables.account ≡ row))
        (λ rest e. ground arith) (λ f rest e. ground arith)

  -- The tables after an update of the balances of one account.
  abbrev pub with_balances : Text → ℤ → c.Decimal → c.Decimal → Tables → Tables
  with_balances sortcode number available actual t = record t {
    account = set_balances sortcode number available actual t.account;
  }

  pub record Updated (sortcode : Text) (number : ℤ) (available actual : c.Decimal)
      (before after : Tables) : Type 0 where
    pub tables : after ≡ with_balances sortcode number available actual before
    pub available_fits : fits_numeric available ≡ true
    pub actual_fits : fits_numeric actual ≡ true

  pub update_balances_effect :
      (sortcode : Text) (number : ℤ) (available actual : c.Decimal) (s s' : Session) (n : ℕ)
      → update_balances sortcode number available actual s ≡ (ok n, s')
      → n ≢ 0
      → Updated sortcode number available actual s.tables s'.tables
  unfolding update_balances
  update_balances_effect sortcode number available actual s s' n =
      execute_cases _ s
        (λ x. x ≡ (ok n, s') → n ≢ 0 → Updated sortcode number available actual s.tables s'.tables)
        (λ rest e h. ground arith) (λ f rest e h. ground arith)

  pub record Inserted (row : ProctranRow) (before after : Tables) : Type 0 where
    pub counter : ℕ
    pub tables :
        after
        ≡ record before { proctran = before.proctran ++ (record row { counter = counter } ∷ []) }
    pub description_le : length row.description ≤ 40
    pub amount_fits : fits_numeric row.amount ≡ true

  pub insert_proctran_row_effect :
      (row : ProctranRow) (s s' : Session)
      → insert_proctran_row row s ≡ (ok tt, s')
      → Inserted row s.tables s'.tables
  unfolding insert_proctran_row
  insert_proctran_row_effect row s s' =
      execute_cases _ s (λ x. x ≡ (ok tt, s') → Inserted row s.tables s'.tables)
        (λ rest e. record {
          counter = s.sequence;
          tables = ground arith;
          description_le = ground arith;
          amount_fits = ground arith;
        })
        (λ f rest e. cc)
