-- ===== src/Repository/Xfrfun/Conservation.antt =====
-- The theorems about `transfer_funds`, between two different accounts.
use cbsa_rust.Prelude.{ℕ, ◌≡◌, ◌≢◌, ap, ◌∙◌, ◌++◌, [], ◌∷◌, false}
use cbsa_rust.Prelude.Int.{ℤ, ◌+ℤ◌, ◌-ℤ◌, pos_part, neg_part, int_laws}
use cbsa_rust.Text.{codes, pad_or_truncate}
use cbsa_rust.Text.Decimal.{format_int}
use cbsa_rust.Domain.TranType.{as_str}
use cbsa_rust.Crates.{Crates, IsLawful}
use cbsa_rust.Db.Session.{Session}
use cbsa_rust.Db.Sql.{find_account, set_balances}
use cbsa_rust.Db.Schema.{InRange, IsWellFormed}
use cbsa_rust.Db.Schema.Balances.{
  find_account-set_balances_ne, set_balances-IsKeyed, set_balances-IsStored, total_available,
  total_actual, total-set_balances,
}
use cbsa_rust.Repository.Frame.Succeeds.{Returns, Returns_mono}
use cbsa_rust.Repository.Xfrfun.{
  XfrfunCommand, SuccessfulTransfer, audit_row, transfer_description, transfer_funds,
}
use cbsa_rust.Repository.Xfrfun.Effect.{Transferred, transfer_funds-Transferred}
use cbsa_rust.Repository.Xfrfun.Money.{
  Moved, Transferred-Moved, TransferMoves, accounts_chain, to_between, Moved-TransferMoves,
}

-- Two moves that cancel.
cancel :
    (t0 t1 t2 x y a b : ℤ) (amount : ℤ)
    → t1 +ℤ x ≡ t0 +ℤ a
    → t2 +ℤ y ≡ t1 +ℤ b
    → a ≡ x -ℤ amount
    → b ≡ y +ℤ amount
    → t2 ≡ t0
cancel t0 t1 t2 x y a b amount p q r s = omega (
  int_laws,
  ap pos_part p,
  ap neg_part p,
  ap pos_part q,
  ap neg_part q,
  ap pos_part r,
  ap neg_part r,
  ap pos_part s,
  ap neg_part s,
)

module _ ⦃c : Crates⦄ (laws : IsLawful) (command : XfrfunCommand) (s : Session)
    (wf : IsWellFormed laws s.tables) (amount : InRange laws command.amount)
    (apart : command.from_account_number ≢ command.to_account_number) where
  open laws use {cents}

  moved :
      (t : SuccessfulTransfer) (s' : Session)
      → Transferred command s.tables t s'.tables
      → Moved laws command s.tables t s'.tables
  moved t s' = Transferred-Moved laws command s.tables t s'.tables wf amount

  -- A successful transfer takes the amount from both balances of the FROM account and adds it to
  -- both balances of the TO account; the two rows change in nothing else, and the result reports
  -- their new balances.
  pub transfer_funds-TransferMoves :
      Returns (transfer_funds command s) (λ t s'. TransferMoves laws command s.tables t s'.tables)
  transfer_funds-TransferMoves =
      Returns_mono (transfer_funds command s) _ _
        (λ t s' h. Moved-TransferMoves laws command apart s.tables t s'.tables (moved t s' h))
        (transfer_funds-Transferred command s)

  conserved :
      (t : SuccessfulTransfer) (s' : Session)
      → Transferred command s.tables t s'.tables
      → (total_available laws s'.tables.account ≡ total_available laws s.tables.account)
        × (total_actual laws s'.tables.account ≡ total_actual laws s.tables.account)
        × IsWellFormed laws s'.tables
  conserved t s' h =
      let m = moved t s' h in
      let sc = command.sortcode in
      let mid =
        set_balances sc command.from_account_number t.from_account.available_balance
          t.from_account.actual_balance s.tables.account in
      let mid_keyed = set_balances-IsKeyed sc command.from_account_number _ _ _ wf.keyed in
      let (p, p') =
        total-set_balances laws sc command.from_account_number t.from_account.available_balance
          t.from_account.actual_balance s.tables.account m.from_row wf.keyed m.from_found in
      let (q, q') =
        total-set_balances laws sc command.to_account_number t.to_account.available_balance
          t.to_account.actual_balance mid m.to_row mid_keyed
          (to_between laws command apart s.tables t s'.tables m) in
      rw (accounts_chain laws command apart s.tables t s'.tables m) (
        cancel _ _ _ _ _ _ _ (cents command.amount) p q m.from_shifted.available
            m.to_shifted.available,
        cancel _ _ _ _ _ _ _ (cents command.amount) p' q' m.from_shifted.actual m.to_shifted.actual,
        record {
          stored =
              set_balances-IsStored laws sc command.to_account_number _ _ mid
                m.to_rewrites.available m.to_rewrites.actual
                (set_balances-IsStored laws sc command.from_account_number _ _ s.tables.account
                  m.from_rewrites.available m.from_rewrites.actual wf.stored);
          keyed = set_balances-IsKeyed sc command.to_account_number _ _ mid mid_keyed;
        },
      )

  -- A successful transfer leaves the sum of all available balances and the sum of all actual
  -- balances as they were, and keeps the table within its schema.
  pub transfer_funds-conserves : Returns (transfer_funds command s) (λ t s'.
      (total_available laws s'.tables.account ≡ total_available laws s.tables.account)
      × (total_actual laws s'.tables.account ≡ total_actual laws s.tables.account)
      × IsWellFormed laws s'.tables)
  transfer_funds-conserves =
      Returns_mono (transfer_funds command s) _ _ conserved (transfer_funds-Transferred command s)

  -- A successful transfer leaves every other account, the customers and the counters as they were,
  -- and adds one audit row, under a number of the database: a TFR row of the branch and of the amount
  -- with the date, the time and the reference of the command, whose description is TRANSFER, padded to
  -- 26 characters, then the sortcode and the number of the TO account in eight digits.
  pub transfer_funds-others :
      (n : ℤ)
      → n ≢ command.from_account_number
      → n ≢ command.to_account_number
      → Returns (transfer_funds command s) (λ t s'.
        (find_account command.sortcode n s'.tables.account
          ≡ find_account command.sortcode n s.tables.account)
        × (s'.tables.customer ≡ s.tables.customer)
        × (s'.tables.control ≡ s.tables.control)
        × ((counter : ℕ) × (s'.tables.proctran
              ≡ s.tables.proctran
                ++ (record {
                  sortcode = command.sortcode;
                  counter = counter;
                  logical_delete = false;
                  tran_date = command.transaction_date;
                  tran_time = command.transaction_time;
                  tran_ref = command.transaction_reference;
                  tran_type = codes "TFR";
                  description =
                      pad_or_truncate (codes "TRANSFER") 26
                      ++ (command.sortcode ++ format_int 8 command.to_account_number);
                  amount = command.amount;
                }
                    ∷ []))))
  unfolding transfer_description as_str
  transfer_funds-others n p q =
      Returns_mono (transfer_funds command s) _ _
        (λ t s' h.
          let m = moved t s' h in
          let w = h.written in
          (
            rw (accounts_chain laws command apart s.tables t s'.tables m) (
                find_account-set_balances_ne command.sortcode n command.to_account_number _ _ _ q
                ∙ find_account-set_balances_ne command.sortcode n command.from_account_number _ _
                    s.tables.account p),
            ap (λ u. u.customer) w.audited.tables
                ∙ ap (λ u. u.customer) w.to_updated.tables
                ∙ ap (λ u. u.customer) w.from_updated.tables,
            ap (λ u. u.control) w.audited.tables
                ∙ ap (λ u. u.control) w.to_updated.tables
                ∙ ap (λ u. u.control) w.from_updated.tables,
            (
              w.audited.counter,
              ap (λ u. u.proctran) w.audited.tables
                  ∙ ap (λ l. l ++ (record (audit_row command) { counter = w.audited.counter } ∷ []))
                      (ap (λ u. u.proctran) w.to_updated.tables
                        ∙ ap (λ u. u.proctran) w.from_updated.tables),
            ),
          ))
        (transfer_funds-Transferred command s)
