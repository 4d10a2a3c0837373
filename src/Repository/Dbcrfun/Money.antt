-- ===== src/Repository/Dbcrfun/Money.antt =====
-- A debit or credit in cents: what the account holds afterwards, the sums, and the payment rules.
use cbsa_rust.Prelude.{ℕ, ◌≡◌, ◌≢◌, some, ap, ◌∙◌, ◌++◌, [], ◌∷◌}
use cbsa_rust.Prelude.Int.{ℤ, ◌+ℤ◌, pos_part, neg_part, int_laws}
use cbsa_rust.Crates.{Crates, IsLawful}
use cbsa_rust.Domain.Account.{AccountDetails}
use cbsa_rust.Db.Tables.{AccountRow, Tables}
use cbsa_rust.Db.Session.{Session}
use cbsa_rust.Db.Sql.{find_account, set_balances}
use cbsa_rust.Db.Schema.{InRange, IsWellFormed, fits_numeric-InRange}
use cbsa_rust.Db.Schema.Balances.{
  find_account_key, find_account-set_balances, find_account-set_balances_ne, set_balances-IsKeyed,
  set_balances-IsStored, find_account-IsStored, total_available, total_actual, total-set_balances,
}
use cbsa_rust.Repository.Frame.Succeeds.{Returns, Returns_mono}
use cbsa_rust.Repository.Account.Money.{into_account-LoadedFrom, Shifted, new-Shifted}
use cbsa_rust.Repository.Dbcrfun.{DbcrfunCommand, audit_row, post_transaction}
use cbsa_rust.Repository.Dbcrfun.Effect.{Posted, post_transaction-Posted}

-- A sum that moves by what one of its terms moves.
shift_total : (t0 t1 x a amount : ℤ) → t1 +ℤ x ≡ t0 +ℤ a → a ≡ x +ℤ amount → t1 ≡ t0 +ℤ amount
shift_total t0 t1 x a amount p q =
    omega (int_laws, ap pos_part p, ap neg_part p, ap pos_part q, ap neg_part q)

module _ ⦃c : Crates⦄ (laws : IsLawful) (command : DbcrfunCommand) where
  open laws use {cents}

  -- The account after the transaction, as it stands in the table and in cents.
  pub record BalanceMoves (before : Tables) (account : AccountDetails) (after : Tables)
      : Type 0 where
    pub row : AccountRow
    pub row_before : find_account command.sortcode command.account_number before.account ≡ some row
    pub row_after :
        find_account command.sortcode command.account_number after.account
        ≡ some (record row {
          available_balance = account.available_balance;
          actual_balance = account.actual_balance;
        })
    pub available :
        cents account.available_balance ≡ cents row.available_balance +ℤ cents command.amount
    pub actual : cents account.actual_balance ≡ cents row.actual_balance +ℤ cents command.amount

  module _ (s : Session) (wf : IsWellFormed laws s.tables)
      (amount : InRange laws command.amount) where
    -- The facts that the theorems below share.
    record Facts (a : AccountDetails) (after : Tables) : Type 0 where
      row : AccountRow
      found : find_account command.sortcode command.account_number s.tables.account ≡ some row
      shifted : Shifted laws ◌+ℤ◌ row command.amount a
      accounts :
          after.account
          ≡ set_balances command.sortcode command.account_number a.available_balance
              a.actual_balance s.tables.account
      available : InRange laws a.available_balance
      actual : InRange laws a.actual_balance

    facts : (a : AccountDetails) (after : Tables) → Posted command s.tables a after → Facts a after
    facts a after h =
        let (same_s, same_n) = find_account_key _ _ s.tables.account h.row h.found in
        let stored = find_account-IsStored laws _ _ s.tables.account h.row wf.stored h.found in
        let loaded = into_account-LoadedFrom laws h.row h.read h.loaded stored in
        let shifted =
          new-Shifted laws c.add ◌+ℤ◌ laws.add_lem h.row h.read a command.amount stored loaded
            amount h.built in
        let u = h.written.updated in
        record {
          row = h.row;
          found = h.found;
          shifted = shifted;
          accounts =
              ap (λ t. t.account) h.written.audited.tables
              ∙ ap (λ t. t.account) u.tables
              ∙ ap
                  (λ k.
                    set_balances k a.account_number a.available_balance a.actual_balance
                      s.tables.account)
                  (shifted.sortcode ∙ same_s)
              ∙ ap
                  (λ n.
                    set_balances command.sortcode n a.available_balance a.actual_balance
                      s.tables.account)
                  (shifted.account_number ∙ same_n);
          available =
              fits_numeric-InRange laws a.available_balance shifted.available_scale
                u.available_fits;
          actual = fits_numeric-InRange laws a.actual_balance shifted.actual_scale u.actual_fits;
        }

    -- A debit or credit that succeeds adds the amount, which is negative for a debit, to both
    -- balances of the account; the row changes in nothing else, and the result reports its new
    -- balances.
    pub post_transaction-BalanceMoves :
        Returns (post_transaction command s) (λ a s'. BalanceMoves s.tables a s'.tables)
    post_transaction-BalanceMoves =
        Returns_mono (post_transaction command s) _ _
          (λ a s' h.
            let f = facts a s'.tables h in
            record {
              row = f.row;
              row_before = f.found;
              row_after = rw f.accounts (
                  find_account-set_balances command.sortcode command.account_number _ _
                    s.tables.account f.row f.found);
              available = f.shifted.available;
              actual = f.shifted.actual;
            })
          (post_transaction-Posted command s)

    -- A debit or credit that succeeds moves the sum of the available balances and the sum of the
    -- actual balances by exactly the amount, and keeps the table within its schema.
    pub post_transaction-totals : Returns (post_transaction command s) (λ a s'.
        (total_available laws s'.tables.account
          ≡ total_available laws s.tables.account +ℤ cents command.amount)
        × (total_actual laws s'.tables.account
            ≡ total_actual laws s.tables.account +ℤ cents command.amount)
        × IsWellFormed laws s'.tables)
    post_transaction-totals =
        Returns_mono (post_transaction command s) _ _
          (λ a s' h.
            let f = facts a s'.tables h in
            let (p, p') =
              total-set_balances laws command.sortcode command.account_number a.available_balance
                a.actual_balance s.tables.account f.row wf.keyed f.found in
            rw f.accounts (
              shift_total _ _ _ _ (cents command.amount) p f.shifted.available,
              shift_total _ _ _ _ (cents command.amount) p' f.shifted.actual,
              record {
                stored =
                    set_balances-IsStored laws command.sortcode command.account_number _ _
                      s.tables.account f.available f.actual wf.stored;
                keyed =
                    set_balances-IsKeyed command.sortcode command.account_number _ _
                      s.tables.account wf.keyed;
              },
            ))
          (post_transaction-Posted command s)

    -- A debit or credit that succeeds leaves every other account, the customers and the counters as
    -- they were, and adds one audit row.
    pub post_transaction-others :
        (n : ℤ)
        → n ≢ command.account_number
        → Returns (post_transaction command s) (λ a s'.
          (find_account command.sortcode n s'.tables.account
            ≡ find_account command.sortcode n s.tables.account)
          × (s'.tables.customer ≡ s.tables.customer)
          × (s'.tables.control ≡ s.tables.control)
          × ((counter : ℕ) × (s'.tables.proctran
                ≡ s.tables.proctran ++ (record (audit_row command a) { counter = counter } ∷ []))))
    post_transaction-others n p =
        Returns_mono (post_transaction command s) _ _
          (λ a s' h.
            let f = facts a s'.tables h in
            let w = h.written in
            (
              rw f.accounts (
                  find_account-set_balances_ne command.sortcode n command.account_number _ _
                    s.tables.account p),
              ap (λ u. u.customer) w.audited.tables ∙ ap (λ u. u.customer) w.updated.tables,
              ap (λ u. u.control) w.audited.tables ∙ ap (λ u. u.control) w.updated.tables,
              (
                w.audited.counter,
                ap (λ u. u.proctran) w.audited.tables
                    ∙ ap
                        (λ l.
                          l ++ (record (audit_row command a) { counter = w.audited.counter } ∷ []))
                        (ap (λ u. u.proctran) w.updated.tables),
              ),
            ))
          (post_transaction-Posted command s)
