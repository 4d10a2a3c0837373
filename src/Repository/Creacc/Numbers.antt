-- ===== src/Repository/Creacc/Numbers.antt =====
-- The account numbers that creations give, and what one creation changes.
use cbsa_rust.Prelude.{
  ℕ, ◌≡◌, refl, true, Option, none, some, Result, ok, err, List, [], ◌∷◌, ◌++◌, ap, sym, ◌∙◌, subst,
  arith, false,
}
use cbsa_rust.Prelude.Int.{ℤ, pos, ◌+ℤ◌, ◌≤ℤ◌}
use cbsa_rust.Text.{codes}
use cbsa_rust.Domain.TranType.{as_str}
use cbsa_rust.Crates.{Crates}
use cbsa_rust.Domain.Account.{AccountDetails, max_account_number}
use cbsa_rust.Domain.Laws.{new-AccountChecked}
use cbsa_rust.Error.{CbsaError}
use cbsa_rust.Db.Tables.{AccountRow, ControlRow, Tables}
use cbsa_rust.Db.Session.{Session}
use cbsa_rust.Db.Sql.{find_account}
use cbsa_rust.Db.Sql.Opening.{
  find_control, with_next_account, has_customer, is_free, accepts_account,
  find_control-set_next_account,
}
use cbsa_rust.Repository.Frame.{Outcome}
use cbsa_rust.Repository.Frame.Atomic.{Atomic}
use cbsa_rust.Repository.Frame.Succeeds.{Returns, Returns_mono}
use cbsa_rust.Repository.Creacc.{
  global_control_id, CreateAccountCommand, opened_account, account_row, audit_row,
  proctran_description, create_account_once, create_account,
}
use cbsa_rust.Repository.Creacc.Effect.{Created, create_account-Created, create_account-Atomic}

module _ ⦃c : Crates⦄ where
  -- What a creation changes: the counter, one account, one audit row.
  pub record Opened (command : CreateAccountCommand) (before : Tables) (a : AccountDetails)
      (after : Tables) : Type 0 where
    pub control_row : ControlRow
    pub control_before : find_control global_control_id before.control ≡ some control_row
    pub control_after :
        find_control global_control_id after.control ≡ some (with_next_account control_row)
    pub number : a.account_number ≡ control_row.account_last +ℤ pos 1
    pub number_le : a.account_number ≤ℤ max_account_number
    pub customer_known : has_customer a.sortcode a.customer_number before.customer ≡ true
    pub number_free : find_account a.sortcode a.account_number before.account ≡ none
    pub accounts :
        after.account
        ≡ before.account
          ++ (record {
            sortcode = a.sortcode;
            customer_number = a.customer_number;
            account_number = a.account_number;
            account_type = a.account_type;
            interest_rate = a.interest_rate;
            opened = a.opened;
            overdraft_limit = a.overdraft_limit;
            last_stmt_date = a.last_statement_date;
            next_stmt_date = a.next_statement_date;
            available_balance = a.available_balance;
            actual_balance = a.actual_balance;
          }
              ∷ [])
    pub customers : after.customer ≡ before.customer
    pub counter : ℕ
    pub audited :
        after.proctran
        ≡ before.proctran
          ++ (record {
            sortcode = a.sortcode;
            counter = counter;
            logical_delete = false;
            tran_date = command.transaction_date;
            tran_time = command.transaction_time;
            tran_ref = command.transaction_reference;
            tran_type = codes "OCA";
            description = proctran_description a;
            amount = c.decimal_zero;
          }
              ∷ [])

  is_free-none : (row : Option AccountRow) → is_free row ≡ true → row ≡ none
  is_free-none none e = refl
  is_free-none (some row) e = cc

  accepts_account_lem :
      (t : Tables) (row : AccountRow)
      → accepts_account t row ≡ true
      → (find_account row.sortcode row.account_number t.account ≡ none)
        × (has_customer row.sortcode row.customer_number t.customer ≡ true)
  unfolding accepts_account
  accepts_account_lem t row h =
      ground (arith, is_free-none (find_account row.sortcode row.account_number t.account))

  Created-Opened :
      (command : CreateAccountCommand) (before : Tables) (a : AccountDetails) (after : Tables)
      → Created command before a after
      → Opened command before a after
  unfolding as_str
  Created-Opened command before a after h =
      let k = h.counted in
      let w = h.written in
      let (checked, built) = new-AccountChecked (opened_account command h.number) h.built_from in
      let same : a.account_number ≡ h.number = ap (λ b. b.account_number) built in
      let (free, known) = accepts_account_lem h.counted_tables (account_row a) w.accepted in
      record {
        control_row = k.row;
        control_before = k.found;
        control_after =
            ap (find_control global_control_id) (
              ap (λ t. t.control) w.audited.tables
              ∙ ap (λ t. t.control) w.inserted
              ∙ ap (λ t. t.control) k.tables)
            ∙ find_control-set_next_account global_control_id before.control k.row k.found;
        number = same ∙ k.number;
        number_le = (let e = h.in_range in rw same (ground arith));
        customer_known =
            ap (λ t. has_customer a.sortcode a.customer_number t.customer) (sym k.tables) ∙ known;
        number_free =
            ap (λ t. find_account a.sortcode a.account_number t.account) (sym k.tables) ∙ free;
        accounts =
            ap (λ t. t.account) w.audited.tables
            ∙ ap (λ t. t.account) w.inserted
            ∙ ap (λ t. t.account ++ (account_row a ∷ [])) k.tables;
        customers =
            ap (λ t. t.customer) w.audited.tables
            ∙ ap (λ t. t.customer) w.inserted
            ∙ ap (λ t. t.customer) k.tables;
        counter = w.audited.counter;
        audited =
            ap (λ t. t.proctran) w.audited.tables
            ∙ ap (λ l. l ++ (record (audit_row command a) { counter = w.audited.counter } ∷ []))
                (ap (λ t. t.proctran) w.inserted ∙ ap (λ t. t.proctran) k.tables);
      }

  -- A creation that succeeds raises the counter by one and gives the account that number, which was
  -- free and is at most 99999999; its customer is there; it adds this one account, with the fields
  -- that are reported, and one audit row, under a number of the database: an OCA row of amount zero for
  -- the branch of the account, with the date, the time and the reference of the command; it leaves the
  -- customers as they were.
  pub create_account-Opened :
      (command : CreateAccountCommand) (s : Session)
      → Returns (create_account command s) (λ a s'. Opened command s.tables a s'.tables)
  create_account-Opened command s =
      Returns_mono (create_account command s) _ _
        (λ a s' h. Created-Opened command s.tables a s'.tables h) (create_account-Created command s)

  -- Calls one after the other, and the accounts of those that succeed.
  abbrev pub add_created :
      Result CbsaError (Outcome AccountDetails) → List AccountDetails → List AccountDetails
  add_created (ok (Outcome.success a)) accounts = a ∷ accounts
  add_created (ok (Outcome.failure code message)) accounts = accounts
  add_created (err e) accounts = accounts

  abbrev pub create_all : List CreateAccountCommand → Session → List AccountDetails × Session
  create_all [] s = ([], s)
  create_all (command ∷ commands) s =
      let (r, s') = create_account command s in
      let (accounts, s'') = create_all commands s' in (add_created r accounts, s'')

  abbrev pub IsConsecutive : ℤ → List AccountDetails → Type 0
  IsConsecutive last [] = Unit
  IsConsecutive last (a ∷ accounts) =
      (a.account_number ≡ last +ℤ pos 1) × IsConsecutive (a.account_number) accounts

  abbrev LastIs : ℤ → Tables → Type 0
  LastIs last t =
      (row : ControlRow) × (find_control global_control_id t.control ≡ some row)
      × (row.account_last ≡ last)

  some_injective : {x y : ControlRow} → some x ≡ some y → x ≡ y
  some_injective e = ground arith

  -- One call, then the rest.
  after_call :
      (command : CreateAccountCommand) (commands : List CreateAccountCommand) (t : Tables)
      (last : ℤ)
      → ((s' : Session) (n : ℤ) → LastIs n s'.tables → IsConsecutive n (create_all commands s').0)
      → LastIs last t
      → (x : Result CbsaError (Outcome AccountDetails) × Session)
      → Atomic (create_account_once command) t x
      → Returns x (λ a s'. Opened command t a s'.tables)
      → IsConsecutive last (add_created x.0 (create_all commands x.1).0)
  after_call command commands t last rest (row, found, same) (ok (Outcome.success a), s') ran h =
      let one_row : h.control_row ≡ row = some_injective (sym h.control_before ∙ found) in
      let number : a.account_number ≡ last +ℤ pos 1 =
        h.number ∙ ap (λ n. n +ℤ pos 1) (ap (λ r. r.account_last) one_row ∙ same) in
      (
        number,
        rest s' a.account_number (with_next_account h.control_row, h.control_after, sym h.number),
      )
  after_call command commands t last rest h (ok (Outcome.failure code message), s') kept _ =
      rest s' last (subst (LastIs last) (sym kept) h)
  after_call command commands t last rest h (err e, s') kept _ =
      rest s' last (subst (LastIs last) (sym kept) h)

  from_last :
      (commands : List CreateAccountCommand) (s : Session) (last : ℤ)
      → LastIs last s.tables
      → IsConsecutive last (create_all commands s).0
  from_last [] s last h = tt
  from_last (command ∷ commands) s last h =
      after_call command commands s.tables last (from_last commands) h (create_account command s)
        (create_account-Atomic command s) (create_account-Opened command s)

  -- The numbers of the accounts that a sequence of calls creates follow each other without a gap from
  -- the counter on, whichever of the calls fail and however, when the counter is there: no number is
  -- given twice or skipped.
  pub create_all-IsConsecutive :
      (commands : List CreateAccountCommand) (s : Session) (row : ControlRow)
      → find_control global_control_id s.tables.control ≡ some row
      → IsConsecutive row.account_last (create_all commands s).0
  create_all-IsConsecutive commands s row found =
      from_last commands s row.account_last (row, found, refl)
