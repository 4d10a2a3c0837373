-- ===== src/Repository/Delcus/Loop.antt =====
-- The loop of a deletion over the accounts of the customer: what it removes and what it writes.
use cbsa_rust.Prelude.{
  ℕ, ◌≡◌, refl, ◌==◌, List, [], ◌∷◌, ◌++◌, arith, ap, ◌⊎◌, inl, inr, Bool-cases,
}
use cbsa_rust.Prelude.Int.{ℤ}
use cbsa_rust.Crates.{Crates}
use cbsa_rust.Domain.Account.{AccountDetails}
use cbsa_rust.Domain.Customer.{CustomerDetails}
use cbsa_rust.Db.Tables.{ProctranRow, Tables}
use cbsa_rust.Db.Session.{Session, Stmt}
use cbsa_rust.Db.Sql.{count_accounts}
use cbsa_rust.Db.Sql.Effects.{Inserted, insert_proctran_row_effect}
use cbsa_rust.Db.Sql.Removal.{remove_account, delete_row_effect, delete_row_count}
use cbsa_rust.Repository.Frame.{OnceOutcome}
use cbsa_rust.Repository.Frame.Succeeds.{Succeeds, on_error-Succeeds}
use cbsa_rust.Repository.Delcus.{
  DeleteCustomerCommand, account_audit_row, delete_account_row, insert_account_proctran,
  delete_accounts,
}

-- The audit trail without the numbers that the sequence gave.
module _ ⦃c : Crates⦄ where
  abbrev pub numberless : List ProctranRow → List ProctranRow
  numberless [] = []
  numberless (r ∷ rows) = record r { counter = 0 } ∷ numberless rows

  pub numberless-append :
      (xs ys : List ProctranRow) → numberless (xs ++ ys) ≡ numberless xs ++ numberless ys
  numberless-append [] ys = refl
  numberless-append (x ∷ xs) ys = ap (λ l. record x { counter = 0 } ∷ l) (numberless-append xs ys)

module _ ⦃c : Crates⦄ (command : DeleteCustomerCommand) where
  abbrev without : ℤ → Tables → Tables
  without number t = record t { account = remove_account command.sortcode number t.account }

  -- One round of the loop.
  pub record ClosedOne (a : AccountDetails) (before after : Tables) : Type 0 where
    pub removed : Tables
    pub removed_tables : removed ≡ without a.account_number before
    pub rows : ℕ
    pub counted : count_accounts command.sortcode a.account_number before.account ≡ rows
    pub audited :
        ((rows ≡ 0) × (after ≡ removed)) ⊎ Inserted (account_audit_row command a) removed after

  abbrev pub Closed : List AccountDetails → Tables → Tables → Type 0
  Closed [] before after = after ≡ before
  Closed (a ∷ accounts) before after =
      (mid : Tables) × ClosedOne a before mid × Closed accounts mid after

  pub delete_accounts-Succeeds :
      (accounts : List AccountDetails) (next : Stmt (OnceOutcome CustomerDetails)) (s : Session)
      (Q : CustomerDetails → Session → Type 0)
      → ((s' : Session) → Closed accounts s.tables s'.tables → Succeeds (next s') Q)
      → Succeeds (delete_accounts command accounts next s) Q
  unfolding delete_accounts delete_account_row insert_account_proctran
  delete_accounts-Succeeds [] next s Q then_ = then_ s refl
  delete_accounts-Succeeds (a ∷ accounts) next s Q then_ =
      on_error-Succeeds _ _ _ s Q (λ e s'. tt)
        λ rows s1 run.
          let gone = delete_row_effect command.sortcode a.account_number s s1 rows run in
          let counted = delete_row_count command.sortcode a.account_number s s1 rows run in
          elim (Bool-cases (rows == 0)) [
            | inl none_there ↦ rw none_there (
                delete_accounts-Succeeds accounts next s1 Q (λ s' rest. then_ s' (
                  s1.tables,
                  record {
                    removed = s1.tables;
                    removed_tables = gone;
                    rows = rows;
                    counted = counted;
                    audited = inl (ground arith, refl);
                  },
                  rest,
                )))
            | inr some_there ↦ rw some_there (elim (Bool-cases (rows == 1)) [
              | inr many ↦ rw many tt
              | inl one ↦ rw one (
                  on_error-Succeeds _ _ _ s1 Q (λ e s'. tt)
                    λ _ s2 run'. delete_accounts-Succeeds accounts next s2 Q (λ s' rest. then_ s' (
                      s2.tables,
                      record {
                        removed = s1.tables;
                        removed_tables = gone;
                        rows = rows;
                        counted = counted;
                        audited =
                            inr
                              (insert_proctran_row_effect (account_audit_row command a) s1 s2 run');
                      },
                      rest,
                    )))
            ])
          ]
