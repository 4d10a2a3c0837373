-- ===== src/Repository/Dbcrfun/Complete.antt =====
-- When a debit or credit goes through.
use cbsa_rust.Prelude.{
  ◌≤◌, ◌≡◌, refl, true, false, some, [], ok, ◌∙◌, ap, sym, arith, length, Bool-cases, inl, inr,
}
use cbsa_rust.Prelude.Int.{ℤ, pos, neg_ℤ, ◌+ℤ◌, ◌≤ℤ◌, bounded, not_below}
use cbsa_rust.Crates.{Crates, IsLawful}
use cbsa_rust.Domain.Account.{AccountDetails}
use cbsa_rust.Domain.Laws.{AccountChecked, AccountChecked-new, with_money-AccountChecked}
use cbsa_rust.Db.Tables.{AccountRow}
use cbsa_rust.Db.Session.{Session}
use cbsa_rust.Db.Retry.{on_error_ok}
use cbsa_rust.Db.Schema.{
  InRange, IsKeyed, IsWellFormed, numeric_limit, round_money_lem, scale-round_money,
}
use cbsa_rust.Db.Schema.Balances.{find_account_key, find_account-IsStored}
use cbsa_rust.Db.Sql.{find_account, fits_numeric}
use cbsa_rust.Db.Sql.Effects.{with_balances}
use cbsa_rust.Db.Sql.Quiet.{
  select_account_quiet, update_balances_quiet, insert_proctran_row_quiet, InRange-fits_numeric,
}
use cbsa_rust.Repository.Frame.{OnceOutcome, Outcome}
use cbsa_rust.Repository.Frame.Quiet.{run_transaction_success}
use cbsa_rust.Repository.Account.{row_fields, into_account, stored, loaded}
use cbsa_rust.Repository.Account.Money.{into_account-LoadedFrom, Shifted, new-Shifted}
use cbsa_rust.Repository.Dbcrfun.{
  DbcrfunCommand, is_payment_facility, is_restricted_account_type, try_from,
  load_account_for_update, update_account_row, audit_row, insert_proctran, posted,
  write_transaction, rebuilt, is_refused_type, is_short, after_read, post_to_account,
  post_transaction_once, post_transaction,
}
use cbsa_rust.Repository.Dbcrfun.Payments.{length-proctran_description}

module _ ⦃c : Crates⦄ (command : DbcrfunCommand) where
  load_quiet :
      (s : Session) (row : AccountRow)
      → s.schedule ≡ []
      → find_account command.sortcode command.account_number s.tables.account ≡ some row
      → AccountChecked (row_fields row)
      → load_account_for_update command.sortcode command.account_number s
        ≡ (ok (some (loaded row)), s)
  unfolding load_account_for_update try_from into_account
  load_quiet s row quiet found valid =
      rw
        (
          select_account_quiet command.sortcode command.account_number s quiet,
          found,
          AccountChecked-new (row_fields row) valid,
        )
        refl

  write_quiet :
      (a : AccountDetails) (s : Session) (row : AccountRow)
      → s.schedule ≡ []
      → IsKeyed s.tables.account
      → find_account a.sortcode a.account_number s.tables.account ≡ some row
      → fits_numeric a.available_balance ≡ true
      → fits_numeric a.actual_balance ≡ true
      → fits_numeric command.amount ≡ true
      → (s' : Session) × (write_transaction command a s ≡ (ok (OnceOutcome.success a), s'))
        × (s'.schedule ≡ [])
  unfolding write_transaction update_account_row insert_proctran
  write_quiet a s row quiet keyed found p q r =
      let s1 : Session = record s {
        tables =
            with_balances a.sortcode a.account_number a.available_balance a.actual_balance s.tables;
      } in
      let short : length (audit_row command a).description ≤ 40 =
        omega (arith, length-proctran_description command) in
      (
        _,
        on_error_ok (update_account_row a) _ _ s s1 1 (
              update_balances_quiet a.sortcode a.account_number a.available_balance a.actual_balance
                s row quiet keyed found p q)
            ∙ on_error_ok (insert_proctran command a) _ _ s1 _ tt
                (insert_proctran_row_quiet (audit_row command a) s1 quiet short r),
        quiet,
      )

module _ ⦃c : Crates⦄ (laws : IsLawful) (command : DbcrfunCommand) where
  open laws use {cents}

  -- What a debit or credit needs, in cents: room for the new balances in the columns, and for a
  -- payment an account type that is not restricted and, for a debit, an available balance that stays
  -- at least zero.
  pub record Postable (row : AccountRow) : Type 0 where
    pub available_high : cents row.available_balance +ℤ cents command.amount ≤ℤ pos numeric_limit
    pub available_low :
        neg_ℤ (pos numeric_limit) ≤ℤ cents row.available_balance +ℤ cents command.amount
    pub actual_high : cents row.actual_balance +ℤ cents command.amount ≤ℤ pos numeric_limit
    pub actual_low : neg_ℤ (pos numeric_limit) ≤ℤ cents row.actual_balance +ℤ cents command.amount
    pub unrestricted :
        is_payment_facility command.facility_type ≡ true
        → is_restricted_account_type (loaded row).account_type ≡ false
    pub funds :
        is_payment_facility command.facility_type ≡ true
        → c.lt command.amount c.decimal_zero ≡ true
        → pos 0 ≤ℤ cents row.available_balance +ℤ cents command.amount

  module _ (s : Session) (row : AccountRow) (wf : IsWellFormed laws s.tables)
      (amount : InRange laws command.amount)
      (found : find_account command.sortcode command.account_number s.tables.account ≡ some row)
      (valid : AccountChecked (row_fields row)) (post : Postable row) where
    row_posted-AccountChecked : AccountChecked (posted command (loaded row))
    row_posted-AccountChecked = with_money-AccountChecked (row_fields row) _ _ _ _ valid

    row-Shifted : Shifted laws ◌+ℤ◌ row command.amount (stored (posted command (loaded row)))
    unfolding into_account
    row-Shifted =
        let row_stored = find_account-IsStored laws _ _ s.tables.account row wf.stored found in
        new-Shifted laws c.add ◌+ℤ◌ laws.add_lem row (loaded row) _ command.amount row_stored
          (into_account-LoadedFrom laws row (loaded row) (AccountChecked-new (row_fields row) valid)
            row_stored)
          amount (AccountChecked-new (posted command (loaded row)) row_posted-AccountChecked)

    not_refused : is_refused_type command (loaded row) ≡ false
    not_refused = elim (Bool-cases (is_payment_facility command.facility_type)) [
      | inl payment ↦ rw (payment, post.unrestricted payment) refl
      | inr counter ↦ rw counter refl
    ]

    available_after :
        cents (posted command (loaded row)).available_balance
        ≡ cents row.available_balance +ℤ cents command.amount
    available_after =
        sym
          (round_money_lem laws (posted command (loaded row)).available_balance
            (scale-round_money laws _)).1
        ∙ row-Shifted.available

    own_key : find_account row.sortcode row.account_number s.tables.account ≡ some row
    own_key =
        let (same_s, same_n) = find_account_key _ _ s.tables.account row found in
        ap (λ k. find_account k row.account_number s.tables.account) same_s
        ∙ ap (λ n. find_account command.sortcode n s.tables.account) same_n
        ∙ found

    not_short : is_short command (loaded row) ≡ false
    not_short = elim (Bool-cases (c.lt command.amount c.decimal_zero)) [
      | inr credit ↦ rw credit refl
      | inl debit ↦ elim (Bool-cases (is_payment_facility command.facility_type)) [
        | inr counter ↦ rw (debit, counter) refl
        | inl payment ↦
            rw (debit, payment)
              (laws.lt-eq-ltb _ c.decimal_zero (scale-round_money laws _)
                  (omega (arith, laws.scale-decimal_zero))
                ∙ rw (laws.cents-decimal_zero, available_after)
                    (not_below _ (pos 0) (post.funds payment debit)))
      ]
    ]

    fits :
        (d : c.Decimal) (x : ℤ)
        → c.scale d ≤ 2
        → cents d ≡ x
        → x ≤ℤ pos numeric_limit
        → neg_ℤ (pos numeric_limit) ≤ℤ x
        → fits_numeric d ≡ true
    fits d x p e high low =
        let (a, b) = bounded x numeric_limit high low in
        InRange-fits_numeric laws d (record { scale_le = p; pos_le = rw e a; neg_le = rw e b })

    -- A debit or credit of an account that is there and valid goes through when no statement fails,
    -- the amount is in range, the new balances have room in their columns, and, for a payment, the
    -- account type is not restricted and a debit leaves an available balance of at least zero; the
    -- account table is within its schema before.
    pub post_transaction-completes :
        s.schedule ≡ []
        → (done : AccountDetails) × (s' : Session) × (post_transaction command s
            ≡ (ok (Outcome.success done), s'))
    unfolding post_transaction post_transaction_once post_to_account
    post_transaction-completes quiet =
        let done = stored (posted command (loaded row)) in
        let sh = row-Shifted in
        let (s', run, quiet') =
          write_quiet command done s row quiet wf.keyed own_key
            (fits _ _ sh.available_scale sh.available post.available_high post.available_low)
            (fits _ _ sh.actual_scale sh.actual post.actual_high post.actual_low)
            (InRange-fits_numeric laws command.amount amount) in
        (
          done,
          s',
          run_transaction_success _ (post_transaction_once command) s s' quiet done
              (ap (λ x. after_read command x.0 x.1) (load_quiet command s row quiet found valid)
                ∙ rw (not_refused, not_short)
                    (ap (λ r. rebuilt command r s)
                        (AccountChecked-new (posted command (loaded row)) row_posted-AccountChecked)
                      ∙ run))
              quiet',
        )
