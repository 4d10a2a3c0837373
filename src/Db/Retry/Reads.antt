-- ===== src/Db/Retry/Reads.antt =====
-- The retry loop round a computation that only reads.
use cbsa_rust.Prelude.{ℕ, zero, suc, ◌≡◌, refl, Result, ok, err, ◌∙◌, Bool-cases, inl, inr, subst}
use cbsa_rust.Crates.{Crates}
use cbsa_rust.Db.Tables.{Tables}
use cbsa_rust.Db.Session.{Session, Stmt, branch_cases}
use cbsa_rust.Db.Retry.{is_serialization_failure, retry, with_retry}
use cbsa_rust.Db.Sql.Query.{query, query_tables, query_effect}

module _ ⦃c : Crates⦄ {A : Type 0} (answer : Tables → A) (t : Tables) where
  -- A result that is what the tables `t` answer, or an error; the tables are still `t`.
  abbrev pub IsRead : Result c.SqlxError A × Session → Type 0
  IsRead (ok a, s) = (s.tables ≡ t) × (answer t ≡ a)
  IsRead (err e, s) = s.tables ≡ t

  pub retry-IsRead :
      (m : Stmt A)
      → ((s : Session) → s.tables ≡ t → IsRead (m s))
      → (left : ℕ) (s : Session) → s.tables ≡ t
      → IsRead (retry left m s)
  unfolding retry
  retry-IsRead m once zero s same = once s same
  retry-IsRead m once (suc left) s same =
      branch_cases (m s) _ _ IsRead (λ a s' run. subst IsRead run (once s same))
        (λ e s' failed.
          let same' : s'.tables ≡ t = subst IsRead failed (once s same) in
          elim (Bool-cases (is_serialization_failure e)) [
            | inl again ↦ rw again (retry-IsRead m once left s' same')
            | inr other ↦ rw other same'
          ])

  pub with_retry-IsRead :
      (m : Stmt A)
      → ((s : Session) → s.tables ≡ t → IsRead (m s))
      → (s : Session) → s.tables ≡ t
      → IsRead (with_retry m s)
  unfolding with_retry
  with_retry-IsRead m once s same = retry-IsRead m once 4 s same

  pub query-IsRead : (s : Session) → s.tables ≡ t → IsRead (query answer s)
  query-IsRead s same = go (query answer s) refl
    where
      go : (x : Result c.SqlxError A × Session) → query answer s ≡ x → IsRead x
      go (ok a, s') run =
          let (kept, read) = query_effect answer s s' a run in
          (kept ∙ same, subst (λ u. answer u ≡ a) same read)
      go (err e, s') run = subst (λ x. x.1.tables ≡ t) run (query_tables answer s ∙ same)
