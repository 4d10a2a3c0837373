-- ===== src/Db/Sql/Registration.antt =====
-- `UPDATE control` of `repository/crecust.rs`: the counter of customer numbers.
use cbsa_rust.Prelude.{
  ◌≡◌, refl, ◌&&◌, Option, none, some, List, [], ◌∷◌, ok, err, arith, if◌then◌else◌,
}
use cbsa_rust.Prelude.Int.{ℤ, pos, ◌+ℤ◌, ltb_ℤ}
use cbsa_rust.Text.{Text, text_eq}
use cbsa_rust.Crates.{Crates}
use cbsa_rust.Db.Tables.{ControlRow, Tables}
use cbsa_rust.Db.Session.{Session, Stmt, execute, execute_cases}
use cbsa_rust.Db.Sql.Opening.{find_control, max_bigint}

module _ ⦃c : Crates⦄ where
  -- `customer_count + 1`, `customer_last + 1`
  abbrev pub with_next_customer : ControlRow → ControlRow
  with_next_customer row = record row {
    customer_count = row.customer_count +ℤ pos 1;
    customer_last = row.customer_last +ℤ pos 1;
  }

  unfoldable pub set_next_customer : Text → List ControlRow → List ControlRow
  set_next_customer id [] = []
  set_next_customer id (row ∷ rows) =
      (if text_eq row.id id then with_next_customer row else row) ∷ set_next_customer id rows

  -- `UPDATE control SET … WHERE id = $1 RETURNING customer_last`
  abbrev pub next_customer_of : Text → Option ControlRow → Stmt (Option ℤ)
  next_customer_of id none s = (ok none, s)
  next_customer_of id (some row) s =
      if ltb_ℤ row.customer_count max_bigint && ltb_ℤ row.customer_last max_bigint
      then (
        ok (some (row.customer_last +ℤ pos 1)),
        record s { tables = record (s.tables) { control = set_next_customer id s.tables.control } },
      )
      else (err c.constraint_violation, s)

  unfoldable pub next_customer : Text → Stmt (Option ℤ)
  next_customer id = execute λ s. next_customer_of id (find_control id s.tables.control) s

  -- The counter was there, and it is one further.
  pub record CustomerCounted (id : Text) (n : ℤ) (before after : Tables) : Type 0 where
    pub row : ControlRow
    pub found : find_control id before.control ≡ some row
    pub number : n ≡ row.customer_last +ℤ pos 1
    pub tables : after ≡ record before { control = set_next_customer id before.control }

  next_customer_of-CustomerCounted :
      (id : Text) (s s' : Session) (n : ℤ) (row : Option ControlRow)
      → find_control id s.tables.control ≡ row
      → next_customer_of id row s ≡ (ok (some n), s')
      → CustomerCounted id n s.tables s'.tables
  next_customer_of-CustomerCounted id s s' n none found e = cc
  next_customer_of-CustomerCounted id s s' n (some row) found e = record {
    row = row;
    found = found;
    number = ground arith;
    tables = ground arith;
  }

  pub next_customer_effect :
      (id : Text) (s s' : Session) (n : ℤ)
      → next_customer id s ≡ (ok (some n), s')
      → CustomerCounted id n s.tables s'.tables
  unfolding next_customer
  next_customer_effect id s s' n =
      execute_cases _ s (λ x. x ≡ (ok (some n), s') → CustomerCounted id n s.tables s'.tables)
        (λ rest. next_customer_of-CustomerCounted id (record s { schedule = rest }) s' n _ refl)
        (λ f rest e. cc)

  pub find_control-set_next_customer :
      (id : Text) (rows : List ControlRow) (row : ControlRow)
      → find_control id rows ≡ some row
      → find_control id (set_next_customer id rows) ≡ some (with_next_customer row)
  unfolding find_control set_next_customer
  find_control-set_next_customer id [] row e = cc
  find_control-set_next_customer id (r ∷ rows) row e =
      ground (arith, find_control-set_next_customer id rows row)
