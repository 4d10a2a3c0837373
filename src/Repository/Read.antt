-- ===== src/Repository/Read.antt =====
-- Reads in the repository modules: a query, the conversion of what it returned, and the `match` on
-- the result in a body that is retried.
pub mod Laws
use cbsa_rust.Prelude.{
  Option, none, some, List, [], ◌∷◌, Result, ok, err, map_ok, ◌>>=◌, if◌then◌else◌,
}
use cbsa_rust.Crates.{Crates}
use cbsa_rust.Error.{CbsaError}
use cbsa_rust.Db.Session.{Session, Stmt, branch}
use cbsa_rust.Db.Retry.{is_serialization_failure}

-- `row.map(f).transpose()`.
abbrev pub transpose {ℓ} : {E R A : Type ℓ} → (R → Result E A) → Option R → Result E (Option A)
transpose f none = ok none
transpose f (some row) = map_ok some (f row)

-- `rows.into_iter().map(f).collect()`: the first error ends it.
unfoldable pub collect {ℓ} : {E R A : Type ℓ} → (R → Result E A) → List R → Result E (List A)
collect f [] = ok []
collect f (row ∷ rows) = f row >>= λ a. map_ok (λ rest. a ∷ rest) (collect f rows)

module _ ⦃c : Crates⦄ where
  -- A query with `?`, and the conversion of what it returned.
  unfoldable pub load :
      {R A : Type 0} → Stmt R → (R → Result CbsaError A) → Session → Result CbsaError A × Session
  load select convert s =
      branch (select s) (λ r s'. (convert r, s')) (λ e s'. (err (CbsaError.database e), s'))

  -- `Ok(a) => …`, `Err(CbsaError::Database(err)) if is_serialization_failure(&err) => return Err(err)`
  -- and `Err(err) => return Ok(…)` after a read.
  abbrev pub after_load :
      {A B : Type 0} → (CbsaError → B) → (A → Stmt B) → Result CbsaError A → Stmt B
  after_load recover next (ok a) = next a
  after_load recover next (err (CbsaError.database e)) =
      λ s. (if is_serialization_failure e then err e else ok (recover (CbsaError.database e)), s)
  after_load recover next (err (CbsaError.abend code message)) =
      λ s. (ok (recover (CbsaError.abend code message)), s)
  after_load recover next (err (CbsaError.validation message)) =
      λ s. (ok (recover (CbsaError.validation message)), s)

  unfoldable pub on_load :
      {A B : Type 0}
      → (Session → Result CbsaError A × Session)
      → (CbsaError → B)
      → (A → Stmt B)
      → Stmt B
  on_load read recover next s = let (r, s') = read s in after_load recover next r s'
