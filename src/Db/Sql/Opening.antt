-- ===== src/Db/Sql/Opening.antt =====
-- The SQL statements of `repository/creacc.rs`, on the tables: the counter of account numbers and the
-- insert of an account, with what the schema refuses.
use cbsa_rust.Prelude.{
  ◌≡◌, refl, ◌^◌, ◌-◌, Bool, true, false, not, ◌&&◌, Option, none, some, List, [], ◌∷◌, ◌++◌, ok,
  err, leb, length, arith, if◌then◌else◌,
}
use cbsa_rust.Prelude.Int.{ℤ, pos, neg_ℤ, ◌+ℤ◌, ltb_ℤ, int_eq}
use cbsa_rust.Text.{Text, text_eq}
use cbsa_rust.Crates.{Crates}
use cbsa_rust.Db.Tables.{CustomerRow, AccountRow, ControlRow, Tables}
use cbsa_rust.Db.Session.{Session, Stmt, execute, execute_cases}
use cbsa_rust.Db.Sql.{fits_numeric, find_account}

abbrev pub max_bigint : ℤ
max_bigint = pos (2 ^ 63 - 1)

module _ ⦃c : Crates⦄ where
  -- `WHERE id = $1`
  unfoldable pub find_control : Text → List ControlRow → Option ControlRow
  find_control id [] = none
  find_control id (row ∷ rows) = if text_eq row.id id then some row else find_control id rows

  -- `account_count + 1`, `account_last + 1`
  abbrev pub with_next_account : ControlRow → ControlRow
  with_next_account row = record row {
    account_count = row.account_count +ℤ pos 1;
    account_last = row.account_last +ℤ pos 1;
  }

  unfoldable pub set_next_account : Text → List ControlRow → List ControlRow
  set_next_account id [] = []
  set_next_account id (row ∷ rows) =
      (if text_eq row.id id then with_next_account row else row) ∷ set_next_account id rows

  -- `UPDATE control SET … WHERE id = $1 RETURNING account_last`; a BIGINT that runs over is an error.
  abbrev pub next_account_of : Text → Option ControlRow → Stmt (Option ℤ)
  next_account_of id none s = (ok none, s)
  next_account_of id (some row) s =
      if ltb_ℤ row.account_count max_bigint && ltb_ℤ row.account_last max_bigint
      then (
        ok (some (row.account_last +ℤ pos 1)),
        record s { tables = record (s.tables) { control = set_next_account id s.tables.control } },
      )
      else (err c.constraint_violation, s)

  unfoldable pub next_account : Text → Stmt (Option ℤ)
  next_account id = execute λ s. next_account_of id (find_control id s.tables.control) s

  unfoldable pub has_customer : Text → ℤ → List CustomerRow → Bool
  has_customer sortcode number [] = false
  has_customer sortcode number (row ∷ rows) =
      if text_eq row.sortcode sortcode && int_eq row.customer_number number
      then true
      else has_customer sortcode number rows

  abbrev pub is_free : Option AccountRow → Bool
  is_free none = true
  is_free (some row) = false

  -- NUMERIC(6,2) holds -9999.99 to 9999.99.
  unfoldable pub fits_rate : c.Decimal → Bool
  fits_rate d =
      not (c.lt d (c.decimal_new (neg_ℤ (pos 999_999)) 2))
      && not (c.lt (c.decimal_new (pos 999_999) 2) d)

  -- The primary key, the foreign key and the sizes of the columns.
  unfoldable pub accepts_account : Tables → AccountRow → Bool
  accepts_account t row =
      is_free (find_account row.sortcode row.account_number t.account)
      && (has_customer row.sortcode row.customer_number t.customer
          && (leb (length row.sortcode) 6
              && (leb (length row.account_type) 8
                  && (fits_rate row.interest_rate
                      && (fits_numeric row.overdraft_limit
                          && (fits_numeric row.available_balance
                              && fits_numeric row.actual_balance))))))

  -- `INSERT INTO account`
  unfoldable pub insert_account_row : AccountRow → Stmt (Unit {0})
  insert_account_row row = execute λ s.
      if accepts_account s.tables row
      then (
        ok tt,
        record s { tables = record (s.tables) { account = s.tables.account ++ (row ∷ []) } },
      )
      else (err c.constraint_violation, s)

  -- The counter was there, and it is one further.
  pub record Counted (id : Text) (n : ℤ) (before after : Tables) : Type 0 where
    pub row : ControlRow
    pub found : find_control id before.control ≡ some row
    pub number : n ≡ row.account_last +ℤ pos 1
    pub tables : after ≡ record before { control = set_next_account id before.control }

  next_account_of-Counted :
      (id : Text) (s s' : Session) (n : ℤ) (row : Option ControlRow)
      → find_control id s.tables.control ≡ row
      → next_account_of id row s ≡ (ok (some n), s')
      → Counted id n s.tables s'.tables
  next_account_of-Counted id s s' n none found e = cc
  next_account_of-Counted id s s' n (some row) found e = record {
    row = row;
    found = found;
    number = ground arith;
    tables = ground arith;
  }

  pub next_account_effect :
      (id : Text) (s s' : Session) (n : ℤ)
      → next_account id s ≡ (ok (some n), s')
      → Counted id n s.tables s'.tables
  unfolding next_account
  next_account_effect id s s' n =
      execute_cases _ s (λ x. x ≡ (ok (some n), s') → Counted id n s.tables s'.tables)
        (λ rest. next_account_of-Counted id (record s { schedule = rest }) s' n _ refl)
        (λ f rest e. cc)

  pub insert_account_row_effect :
      (row : AccountRow) (s s' : Session)
      → insert_account_row row s ≡ (ok tt, s')
      → (s'.tables ≡ record (s.tables) { account = s.tables.account ++ (row ∷ []) })
        × (accepts_account s.tables row ≡ true)
  unfolding insert_account_row
  insert_account_row_effect row s s' =
      execute_cases _ s
        (λ x.
          x ≡ (ok tt, s')
          → (s'.tables ≡ record (s.tables) { account = s.tables.account ++ (row ∷ []) })
            × (accepts_account s.tables row ≡ true))
        (λ rest e. ground arith) (λ f rest e. cc)

  pub find_control-set_next_account :
      (id : Text) (rows : List ControlRow) (row : ControlRow)
      → find_control id rows ≡ some row
      → find_control id (set_next_account id rows) ≡ some (with_next_account row)
  unfolding find_control set_next_account
  find_control-set_next_account id [] row e = cc
  find_control-set_next_account id (r ∷ rows) row e =
      ground (arith, find_control-set_next_account id rows row)
