-- ===== src/Db/Sql/Query.antt =====
-- A statement that only reads: the result of a function on the tables.
use cbsa_rust.Prelude.{◌≡◌, refl, [], ok, arith}
use cbsa_rust.Crates.{Crates}
use cbsa_rust.Db.Tables.{Tables}
use cbsa_rust.Db.Session.{Session, Stmt, execute, execute_cases, execute_quiet}

module _ ⦃c : Crates⦄ {A : Type 0} (read : Tables → A) where
  unfoldable pub query : Stmt A
  query = execute λ s. (ok (read s.tables), s)

  pub query_tables : (s : Session) → (query s).1.tables ≡ s.tables
  unfolding query
  query_tables s = execute_cases _ s (λ x. x.1.tables ≡ s.tables) (λ rest. refl) (λ e rest. refl)

  pub query_effect :
      (s s' : Session) (a : A) → query s ≡ (ok a, s') → (s'.tables ≡ s.tables) × (read s.tables ≡ a)
  unfolding query
  query_effect s s' a =
      execute_cases _ s (λ x. x ≡ (ok a, s') → (s'.tables ≡ s.tables) × (read s.tables ≡ a))
        (λ rest e. ground arith) (λ f rest e. ground arith)

  pub query_quiet : (s : Session) → s.schedule ≡ [] → query s ≡ (ok (read s.tables), s)
  unfolding query
  query_quiet s quiet = execute_quiet _ s quiet
