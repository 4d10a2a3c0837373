-- ===== src/Db/Session.antt =====
-- A connection to the database. Every statement, and `begin` and `commit`, takes the next entry of
-- the schedule: an error that it fails with, or none. After the last entry nothing fails.
-- The isolation of CockroachDB is serializable, so a transaction sees the tables as if it ran alone.
use cbsa_rust.Prelude.{arith, ◌≡◌, refl, ℕ, Option, none, some, List, [], ◌∷◌, Result, ok, err}
use cbsa_rust.Crates.{Crates}
use cbsa_rust.Db.Tables.{Tables}

module _ ⦃c : Crates⦄ where
  pub record Session : Type 0 where
    pub tables : Tables
    pub sequence : ℕ
    pub schedule : List (Option c.SqlxError)

  -- A computation against the database, with what `?` passes on. What it wrote stays written.
  abbrev pub Stmt : Type 0 → Type 0
  Stmt A = Session → Result c.SqlxError A × Session

  abbrev pub pure : {A : Type 0} → A → Stmt A
  pure a s = (ok a, s)

  abbrev pub throw : {A : Type 0} → c.SqlxError → Stmt A
  throw e s = (err e, s)

  -- A `match` on the outcome of a computation.
  abbrev pub branch :
      {A R : Type 0}
      → Result c.SqlxError A × Session
      → (A → Session → R)
      → (c.SqlxError → Session → R)
      → R
  branch (ok a, s) f g = f a s
  branch (err e, s) f g = g e s

  infixl 5 ◌>>=◌ ◌>>◌
  abbrev pub ◌>>=◌ : {A B : Type 0} → Stmt A → (A → Stmt B) → Stmt B
  ◌>>=◌ m f s = branch (m s) f (λ e s'. (err e, s'))

  abbrev pub ◌>>◌ : {B : Type 0} → Stmt (Unit {0}) → Stmt B → Stmt B
  m >> k = m >>= λ _. k

  pub branch_cases :
      {A R : Type 0} (x : Result c.SqlxError A × Session) (f : A → Session → R)
      (g : c.SqlxError → Session → R) (P : R → Type 0)
      → ((a : A) (s : Session) → x ≡ (ok a, s) → P (f a s))
      → ((e : c.SqlxError) (s : Session) → x ≡ (err e, s) → P (g e s))
      → P (branch x f g)
  branch_cases (ok a, s) f g P good bad = good a s refl
  branch_cases (err e, s) f g P good bad = bad e s refl

  -- One statement: the environment lets it run, or makes it fail before it changes anything.
  unfoldable pub execute : {A : Type 0} → Stmt A → Stmt A
  execute m s = elim s.schedule [
    | [] ↦ m s
    | none ∷ rest ↦ m (record s { schedule = rest })
    | some e ∷ rest ↦ (err e, record s { schedule = rest })
  ]

  -- A statement fails and changes nothing but the schedule, or it runs.
  pub execute_cases :
      {A : Type 0} (m : Stmt A) (s : Session) (P : Result c.SqlxError A × Session → Type 0)
      → ((rest : List (Option c.SqlxError)) → P (m (record s { schedule = rest })))
      → ((e : c.SqlxError) (rest : List (Option c.SqlxError))
          → P (err e, record s { schedule = rest }))
      → P (execute m s)
  unfolding execute
  execute_cases m s P runs fails = go s.schedule
    where
      go :
          (l : List (Option c.SqlxError))
          → P (elim l [
            | [] ↦ m s
            | none ∷ rest ↦ m (record s { schedule = rest })
            | some e ∷ rest ↦ (err e, record s { schedule = rest })
          ])
      go [] = runs s.schedule
      go (none ∷ rest) = runs rest
      go (some e ∷ rest) = fails e rest

  -- A statement when the schedule is empty.
  pub execute_quiet : {A : Type 0} (m : Stmt A) (s : Session) → s.schedule ≡ [] → execute m s ≡ m s
  unfolding execute
  execute_quiet m s quiet = ground arith
