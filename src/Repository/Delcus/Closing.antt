-- ===== src/Repository/Delcus/Closing.antt =====
-- What the loop leaves, when the accounts that it goes over are rows of the customer, once each.
use cbsa_rust.Prelude.{
  ◌+◌, ◌≤◌, ◌≡◌, ◌≢◌, refl, true, List, [], ◌∷◌, ◌++◌, All, map, arith, length, ◌∙◌, ap, sym, subst,
  inl, inr, Bool-cases,
}
use cbsa_rust.Prelude.Int.{ℤ}
use cbsa_rust.Prelude.Search.{keep_by, drop_by, IsDistinct}
use cbsa_rust.Text.{Text}
use cbsa_rust.Crates.{Crates}
use cbsa_rust.Domain.Account.{AccountDetails}
use cbsa_rust.Db.Tables.{AccountRow, ProctranRow, Tables}
use cbsa_rust.Db.Sql.{is_account, count_accounts}
use cbsa_rust.Db.Sql.Removal.{remove_account, count_accounts-remove_account_ne, All_remove_account}
use cbsa_rust.Db.Sql.Customers.{is_held_by}
use cbsa_rust.Repository.Delcus.{DeleteCustomerCommand, account_audit_row}
use cbsa_rust.Repository.Delcus.Loop.{numberless, numberless-append, ClosedOne, Closed}

module _ ⦃c : Crates⦄ (s : Text) (held : AccountRow → Type 0) where
  -- The rows with the number are one row, which `held` holds of.
  abbrev pub IsSole : List AccountRow → ℤ → Type 0
  IsSole rows n = (count_accounts s n rows ≡ 1) × All (λ q. is_account s n q ≡ true → held q) rows

  abbrev pub IsListed : List AccountDetails → List AccountRow → Type 0
  IsListed [] rows = Unit
  IsListed (a ∷ accounts) rows =
      IsSole rows a.account_number × IsListed accounts (remove_account s a.account_number rows)

  IsSole-after :
      (n : ℤ) (rows : List AccountRow) (accounts : List AccountDetails)
      → All (λ b. b.account_number ≢ n) accounts
      → All (λ b. IsSole rows b.account_number) accounts
      → All (λ b. IsSole (remove_account s n rows) b.account_number) accounts
  IsSole-after n rows [] h k = tt
  IsSole-after n rows (b ∷ accounts) (h, hs) ((once, own), ks) = (
    (
      count_accounts-remove_account_ne s b.account_number n rows h ∙ once,
      All_remove_account _ s n rows own,
    ),
    IsSole-after n rows accounts hs ks,
  )

  pub distinct-IsListed :
      (accounts : List AccountDetails) (rows : List AccountRow)
      → All (λ a. IsSole rows a.account_number) accounts
      → IsDistinct (λ a. a.account_number) accounts
      → IsListed accounts rows
  distinct-IsListed [] rows h d = tt
  distinct-IsListed (a ∷ accounts) rows (h, hs) (d, ds) = (
    h,
    distinct-IsListed accounts (remove_account s a.account_number rows)
        (IsSole-after a.account_number rows accounts d hs) ds,
  )

module _ ⦃c : Crates⦄ (command : DeleteCustomerCommand) where
  abbrev s : Text
  s = command.sortcode

  abbrev IsHeld : AccountRow → Type 0
  IsHeld q = is_held_by s command.customer_number q ≡ true

  -- The accounts of the other customers stay.
  others-remove :
      (n : ℤ) (rows : List AccountRow)
      → All (λ q. is_account s n q ≡ true → IsHeld q) rows
      → drop_by (is_held_by s command.customer_number) (remove_account s n rows)
        ≡ drop_by (is_held_by s command.customer_number) rows
  unfolding remove_account
  others-remove n [] h = refl
  others-remove n (q ∷ rows) (h, hs) = elim (Bool-cases (is_account s n q)) [
    | inl here ↦ rw (here, h here) (others-remove n rows hs)
    | inr other ↦ elim (Bool-cases (is_held_by s command.customer_number q)) [
      | inl held ↦ rw (other, held) (others-remove n rows hs)
      | inr free ↦ rw (other, free) (ap (λ l. q ∷ l) (others-remove n rows hs))
    ]
  ]

  -- A removal takes away no more accounts of the customer than rows it counts.
  held-remove :
      (n : ℤ) (rows : List AccountRow)
      → length (keep_by (is_held_by s command.customer_number) rows)
        ≤ count_accounts s n rows
          + length (keep_by (is_held_by s command.customer_number) (remove_account s n rows))
  unfolding remove_account count_accounts
  held-remove n [] = omega arith
  held-remove n (q ∷ rows) = elim (Bool-cases (is_account s n q)) [
    | inl here ↦ elim (Bool-cases (is_held_by s command.customer_number q)) [
      | inl held ↦ rw (here, held) (omega (arith, held-remove n rows))
      | inr free ↦ rw (here, free) (omega (arith, held-remove n rows))
    ]
    | inr other ↦ elim (Bool-cases (is_held_by s command.customer_number q)) [
      | inl held ↦ rw (other, held) (omega (arith, held-remove n rows))
      | inr free ↦ rw (other, free) (omega (arith, held-remove n rows))
    ]
  ]

  -- What changed between two states of the tables while the accounts were closed.
  pub record Emptied (accounts : List AccountDetails) (before after : Tables) : Type 0 where
    pub customers : after.customer ≡ before.customer
    pub control : after.control ≡ before.control
    pub others :
        drop_by (is_held_by s command.customer_number) after.account
        ≡ drop_by (is_held_by s command.customer_number) before.account
    pub fewer :
        length (keep_by (is_held_by s command.customer_number) before.account)
        ≤ length accounts + length (keep_by (is_held_by s command.customer_number) after.account)
    pub trail :
        numberless after.proctran
        ≡ numberless before.proctran ++ map (account_audit_row command) accounts

  one_round :
      (a : AccountDetails) (before after : Tables)
      → IsSole s IsHeld before.account a.account_number
      → ClosedOne command a before after
      → Emptied (a ∷ []) before after
        × (after.account ≡ remove_account s a.account_number before.account)
  one_round a before after (once, own) h = elim h.audited [
    | inl (nothing, _) ↦ absurd (omega (arith, once, h.counted))
    | inr inserted ↦
        let accounts : after.account ≡ remove_account s a.account_number before.account =
          ap (λ t. t.account) inserted.tables ∙ ap (λ t. t.account) h.removed_tables in
        let rows = before.account in
        (
          record {
            customers =
                ap (λ t. t.customer) inserted.tables ∙ ap (λ t. t.customer) h.removed_tables;
            control = ap (λ t. t.control) inserted.tables ∙ ap (λ t. t.control) h.removed_tables;
            others = rw accounts (others-remove a.account_number rows own);
            fewer = rw accounts (omega (arith, held-remove a.account_number rows, once));
            trail =
                ap (λ t. numberless t.proctran) inserted.tables
                ∙ numberless-append h.removed.proctran _
                ∙ ap (λ t. numberless t.proctran ++ (account_audit_row command a ∷ []))
                    h.removed_tables;
          },
          accounts,
        )
  ]

  append_assoc : (xs ys zs : List ProctranRow) → (xs ++ ys) ++ zs ≡ xs ++ (ys ++ zs)
  append_assoc [] ys zs = refl
  append_assoc (x ∷ xs) ys zs = ap (λ l. x ∷ l) (append_assoc xs ys zs)

  pub Closed-Emptied :
      (accounts : List AccountDetails) (before after : Tables)
      → IsListed s IsHeld accounts before.account
      → Closed command accounts before after
      → Emptied accounts before after
  Closed-Emptied [] before after listed same = rw same (record {
    customers = refl;
    control = refl;
    others = refl;
    fewer = omega arith;
    trail = append_nil (numberless before.proctran);
  })
    where
      append_nil : (xs : List ProctranRow) → xs ≡ xs ++ []
      append_nil [] = refl
      append_nil (x ∷ xs) = ap (λ l. x ∷ l) (append_nil xs)
  Closed-Emptied (a ∷ accounts) before after (sole, listed) (mid, one, rest) =
      let (first, same) = one_round a before mid sole one in
      let listed' : IsListed s IsHeld accounts mid.account =
        subst (IsListed s IsHeld accounts) (sym same) listed in
      let later = Closed-Emptied accounts mid after listed' rest in
      record {
        customers = later.customers ∙ first.customers;
        control = later.control ∙ first.control;
        others = later.others ∙ first.others;
        fewer = omega (arith, later.fewer, first.fewer);
        trail =
            later.trail
            ∙ ap (λ l. l ++ map (account_audit_row command) accounts) first.trail
            ∙ append_assoc (numberless before.proctran) _ _;
      }
