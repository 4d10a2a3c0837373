-- ===== src/Db/Sql/Quiet.antt =====
-- What each SQL statement does when it does not fail.
use cbsa_rust.Prelude.{
  suc, ◌≤◌, ◌≡◌, refl, true, none, some, List, [], ◌∷◌, ◌++◌, ok, arith, length, ◌∙◌, Bool-cases,
  inl, inr,
}
use cbsa_rust.Prelude.Int.{ℤ, pos, neg_ℤ, ◌-ℤ◌}
use cbsa_rust.Text.{Text}
use cbsa_rust.Db.Schema.Balances.{is_account_key}
use cbsa_rust.Crates.{Crates, IsLawful}
use cbsa_rust.Db.Tables.{AccountRow, ProctranRow}
use cbsa_rust.Db.Session.{Session, execute_quiet}
use cbsa_rust.Db.Sql.{
  fits_numeric, is_account, find_account, count_accounts, select_account, update_balances,
  insert_proctran_row,
}
use cbsa_rust.Db.Sql.Effects.{with_balances}
use cbsa_rust.Db.Schema.{IsKeyed, InRange, numeric_limit}

module _ ⦃c : Crates⦄ where
  pub select_account_quiet :
      (sortcode : Text) (number : ℤ) (s : Session)
      → s.schedule ≡ []
      → select_account sortcode number s ≡ (ok (find_account sortcode number s.tables.account), s)
  unfolding select_account
  select_account_quiet sortcode number s quiet = execute_quiet _ s quiet

  count_none :
      (sortcode : Text) (number : ℤ) (rows : List AccountRow)
      → find_account sortcode number rows ≡ none
      → count_accounts sortcode number rows ≡ 0
  unfolding find_account count_accounts
  count_none sortcode number [] e = refl
  count_none sortcode number (r ∷ rows) e = ground (arith, count_none sortcode number rows)

  -- A key that is there is there once.
  pub count_one :
      (sortcode : Text) (number : ℤ) (rows : List AccountRow) (row : AccountRow)
      → IsKeyed rows
      → find_account sortcode number rows ≡ some row
      → count_accounts sortcode number rows ≡ 1
  unfolding find_account count_accounts
  count_one sortcode number [] row k e = cc
  count_one sortcode number (r ∷ rows) row (fresh, keyed) e =
      elim (Bool-cases (is_account sortcode number r)) [
        | inl here ↦
            let (same_s, same_n) = is_account_key sortcode number r here in
            let absent : find_account sortcode number rows ≡ none = rw (← same_s, ← same_n) fresh in
            rw here (omega (arith, count_none sortcode number rows absent))
        | inr other ↦
            let rest : find_account sortcode number rows ≡ some row = rw other at e in
            rw other (omega (arith, count_one sortcode number rows row keyed rest))
      ]

  pub update_balances_quiet :
      (sortcode : Text) (number : ℤ) (available actual : c.Decimal) (s : Session) (row : AccountRow)
      → s.schedule ≡ []
      → IsKeyed s.tables.account
      → find_account sortcode number s.tables.account ≡ some row
      → fits_numeric available ≡ true
      → fits_numeric actual ≡ true
      → update_balances sortcode number available actual s
        ≡ (ok 1, record s { tables = with_balances sortcode number available actual s.tables })
  unfolding update_balances
  update_balances_quiet sortcode number available actual s row quiet keyed found p q =
      execute_quiet _ s quiet
      ∙ rw (count_one sortcode number s.tables.account row keyed found, p, q) refl

  pub insert_proctran_row_quiet :
      (row : ProctranRow) (s : Session)
      → s.schedule ≡ []
      → length row.description ≤ 40
      → fits_numeric row.amount ≡ true
      → insert_proctran_row row s ≡ (
        ok tt,
        record s {
          tables = record (s.tables) {
            proctran = s.tables.proctran ++ (record row { counter = s.sequence } ∷ []);
          };
          sequence = suc s.sequence;
        },
      )
  unfolding insert_proctran_row
  insert_proctran_row_quiet row s quiet p q = execute_quiet _ s quiet ∙ ground arith

module _ ⦃c : Crates⦄ (laws : IsLawful) where
  -- What is in range passes the range check of the database.
  pub InRange-fits_numeric : (d : c.Decimal) → InRange laws d → fits_numeric d ≡ true
  unfolding fits_numeric ◌-ℤ◌
  InRange-fits_numeric d h =
      let low = c.decimal_new (neg_ℤ (pos numeric_limit)) 2 in
      let top = c.decimal_new (pos numeric_limit) 2 in
      ground (
        arith,
        laws.scale-decimal_new (neg_ℤ (pos numeric_limit)) 2,
        laws.scale-decimal_new (pos numeric_limit) 2,
        laws.cents-decimal_new (neg_ℤ (pos numeric_limit)),
        laws.cents-decimal_new (pos numeric_limit),
        laws.lt-eq-ltb d low h.scale_le,
        laws.lt-eq-ltb top d,
      )
