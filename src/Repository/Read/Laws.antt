-- ===== src/Repository/Read/Laws.antt =====
-- What a successful read has found.
use cbsa_rust.Prelude.{
  ◌≡◌, refl, Option, none, some, List, ◌∷◌, Result, ok, err, Bool-cases, inl, inr, map_ok, ◌>>=◌,
  arith,
}
use cbsa_rust.Crates.{Crates}
use cbsa_rust.Error.{CbsaError}
use cbsa_rust.Db.Tables.{Tables}
use cbsa_rust.Db.Session.{Session, Stmt, branch_cases}
use cbsa_rust.Db.Retry.{is_serialization_failure}
use cbsa_rust.Db.Sql.Query.{query, query_effect}
use cbsa_rust.Repository.Frame.{OnceOutcome}
use cbsa_rust.Repository.Frame.Succeeds.{Succeeds}
use cbsa_rust.Repository.Read.{transpose, collect, load, after_load, on_load}

module _ ⦃c : Crates⦄ where
  after_load-Succeeds :
      {A B : Type 0} (recover : CbsaError → OnceOutcome B) (next : A → Stmt (OnceOutcome B))
      (r : Result CbsaError A) (s : Session) (Q : B → Session → Type 0)
      → ((e : CbsaError) (s' : Session) → Succeeds (ok (recover e), s') Q)
      → ((a : A) → r ≡ ok a → Succeeds (next a s) Q)
      → Succeeds (after_load recover next r s) Q
  after_load-Succeeds recover next (ok a) s Q bad good = good a refl
  after_load-Succeeds recover next (err (CbsaError.validation m)) s Q bad good = bad _ s
  after_load-Succeeds recover next (err (CbsaError.abend code m)) s Q bad good = bad _ s
  after_load-Succeeds recover next (err (CbsaError.database e)) s Q bad good =
      elim (Bool-cases (is_serialization_failure e)) [
        | inl again ↦ rw again tt
        | inr other ↦ rw other (bad (CbsaError.database e) s)
      ]

  -- A read step whose recovery is no success: it goes on with what the query returned on the tables
  -- as they are, converted.
  pub on_load-Succeeds :
      {R A B : Type 0} (read : Tables → R) (convert : R → Result CbsaError A)
      (recover : CbsaError → OnceOutcome B) (next : A → Stmt (OnceOutcome B)) (s : Session)
      (Q : B → Session → Type 0)
      → ((e : CbsaError) (s' : Session) → Succeeds (ok (recover e), s') Q)
      → ((a : A) (s' : Session)
          → s'.tables ≡ s.tables
          → convert (read s.tables) ≡ ok a
          → Succeeds (next a s') Q)
      → Succeeds (on_load (load (query read) convert) recover next s) Q
  unfolding on_load load
  on_load-Succeeds read convert recover next s Q bad good =
      branch_cases (query read s) _ _
        (λ x. let (r, s') = x in Succeeds (after_load recover next r s') Q)
        (λ row s' run.
          let (same, found) = query_effect read s s' row run in
          after_load-Succeeds recover next (convert row) s' Q bad
            (λ a e. good a s' same (rw found e)))
        (λ e s' failed.
          after_load-Succeeds recover next (err (CbsaError.database e)) s' Q bad (λ a h. cc))

-- A collection that succeeds has an element for each row.
module _ {E R A : Type 0} (f : R → Result E A) where
  abbrev Split : R → List R → List A → Type 0
  Split r rows all =
      (a : A) × (rest : List A) × (f r ≡ ok a) × (collect f rows ≡ ok rest) × (all ≡ a ∷ rest)

  split :
      (r : R) (rows : List R) (all : List A) (x : Result E A) (y : Result E (List A))
      → f r ≡ x
      → collect f rows ≡ y
      → (x >>= λ a. map_ok (λ rest. a ∷ rest) y) ≡ ok all
      → Split r rows all
  split r rows all (ok a) (ok rest) first then_ e = (a, rest, first, then_, ground arith)
  split r rows all (ok a) (err f) first then_ e = cc
  split r rows all (err f) y first then_ e = cc

  pub collect_cons :
      (r : R) (rows : List R) (all : List A) → collect f (r ∷ rows) ≡ ok all → Split r rows all
  unfolding collect
  collect_cons r rows all e = split r rows all (f r) (collect f rows) refl refl e

module _ {E R A : Type 0} (f : R → Result E A) where
  some_ok : (a : A) (r : Result E A) → map_ok some r ≡ ok (some a) → r ≡ ok a
  some_ok a (ok b) e = ground arith
  some_ok a (err f) e = cc

  pub transpose-some :
      (row : Option R) (a : A)
      → transpose f row ≡ ok (some a)
      → (r : R) × (row ≡ some r) × (f r ≡ ok a)
  transpose-some none a e = cc
  transpose-some (some r) a e = (r, refl, some_ok a (f r) e)
