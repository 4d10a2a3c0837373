-- ===== src/Repository/Xfrfun/Complete.antt =====
-- When a transfer goes through.
use cbsa_rust.Prelude.{◌⊎◌, ◌≤◌, ◌≡◌, ◌≢◌, refl, true, false, [], ok, ◌∙◌, arith}
use cbsa_rust.Prelude.Int.{
  not_below, ◌<ℤ◌, pos, neg_ℤ, pos_part, neg_part, int_laws, ◌+ℤ◌, ◌-ℤ◌, ◌≤ℤ◌, ltb_ℤ,
}
use cbsa_rust.Crates.{Crates, IsLawful}
use cbsa_rust.Domain.Laws.{AccountChecked, AccountChecked-new, with_money-AccountChecked}
use cbsa_rust.Db.Tables.{AccountRow}
use cbsa_rust.Db.Session.{Session}
use cbsa_rust.Db.Schema.{
  InRange, IsStored, IsWellFormed, numeric_limit, round_money_lem, scale-round_money,
  InRange-IsMoney,
}
use cbsa_rust.Db.Schema.Balances.{find_account_key, find_account-IsStored}
use cbsa_rust.Db.Sql.{fits_numeric}
use cbsa_rust.Db.Sql.Quiet.{InRange-fits_numeric}
use cbsa_rust.Repository.Frame.{Outcome}
use cbsa_rust.Repository.Frame.Quiet.{run_transaction_success, run_transaction_failure}
use cbsa_rust.Repository.Account.{stored, loaded, row_fields, into_account}
use cbsa_rust.Repository.Account.Money.{
  LoadedFrom, into_account-LoadedFrom, Shifted, new-Shifted, SameMoney-InRange,
}
use cbsa_rust.Repository.Xfrfun.{
  from, to, insufficient_funds_code, XfrfunCommand, SuccessfulTransfer, debited, credited,
  is_overdrawn, transfer_funds_once, transfer_funds,
}
use cbsa_rust.Repository.Xfrfun.Quiet.{
  Available, lock_accounts_quiet, move_funds_quiet, move_funds_short, short_of_funds,
}
use cbsa_rust.Repository.Xfrfun.Quiet.Bounds.{
  over_either, after_debit, after_credit, description_le,
}
use cbsa_rust.Repository.Xfrfun.Quiet.Writes.{Writable, write_transfer_quiet}

module _ ⦃c : Crates⦄ (laws : IsLawful) (command : XfrfunCommand) where
  open laws use {cents}

  -- What a transfer needs, in cents: a positive amount, funds on one side, and room for the amount in
  -- the columns on the other.
  pub record Payable (f t : AccountRow) : Type 0 where
    pub positive : pos 1 ≤ℤ cents command.amount
    pub funds : cents command.amount ≤ℤ cents f.available_balance
    pub overdraft :
        neg_ℤ (cents f.overdraft_limit) ≤ℤ cents f.actual_balance -ℤ cents command.amount
    pub available_room : cents t.available_balance +ℤ cents command.amount ≤ℤ pos numeric_limit
    pub actual_room : cents t.actual_balance +ℤ cents command.amount ≤ℤ pos numeric_limit

  fits :
      (d : c.Decimal)
      → c.scale d ≤ 2
      → pos_part (cents d) ≤ numeric_limit
      → neg_part (cents d) ≤ numeric_limit
      → fits_numeric d ≡ true
  fits d p q r = InRange-fits_numeric laws d (record { scale_le = p; pos_le = q; neg_le = r })

  module _ (s : Session) (f t : AccountRow) (wf : IsWellFormed laws s.tables)
      (amount : InRange laws command.amount) (from_there : Available command from s f)
      (to_there : Available command to s t) where
    from-IsStored : IsStored laws f
    from-IsStored = find_account-IsStored laws _ _ s.tables.account f wf.stored from_there.found

    to-IsStored : IsStored laws t
    to-IsStored = find_account-IsStored laws _ _ s.tables.account t wf.stored to_there.found

    from-LoadedFrom : LoadedFrom laws f (loaded f)
    unfolding into_account
    from-LoadedFrom =
        into_account-LoadedFrom laws f (loaded f)
          (AccountChecked-new (row_fields f) from_there.valid) from-IsStored

    to-LoadedFrom : LoadedFrom laws t (loaded t)
    unfolding into_account
    to-LoadedFrom =
        into_account-LoadedFrom laws t (loaded t) (AccountChecked-new (row_fields t) to_there.valid)
          to-IsStored

    debit-AccountChecked : AccountChecked (debited command (loaded f))
    debit-AccountChecked = with_money-AccountChecked (row_fields f) _ _ _ _ from_there.valid

    credit-AccountChecked : AccountChecked (credited command (loaded t))
    credit-AccountChecked = with_money-AccountChecked (row_fields t) _ _ _ _ to_there.valid

    debit-Shifted : Shifted laws ◌-ℤ◌ f command.amount (stored (debited command (loaded f)))
    debit-Shifted =
        new-Shifted laws c.sub ◌-ℤ◌ laws.sub_lem f (loaded f) _ command.amount from-IsStored
          from-LoadedFrom amount
          (AccountChecked-new (debited command (loaded f)) debit-AccountChecked)

    credit-Shifted : Shifted laws ◌+ℤ◌ t command.amount (stored (credited command (loaded t)))
    credit-Shifted =
        new-Shifted laws c.add ◌+ℤ◌ laws.add_lem t (loaded t) _ command.amount to-IsStored
          to-LoadedFrom amount
          (AccountChecked-new (credited command (loaded t)) credit-AccountChecked)

    -- The balances that the test for funds looks at, in cents.
    tested :
        (c.lt (debited command (loaded f)).available_balance c.decimal_zero
          ≡ ltb_ℤ (cents f.available_balance -ℤ cents command.amount) (pos 0))
        × (c.lt (debited command (loaded f)).actual_balance (c.neg (loaded f).overdraft_limit)
            ≡ ltb_ℤ
                (cents f.actual_balance -ℤ cents command.amount)
                (neg_ℤ (cents f.overdraft_limit)))
    tested =
        let d = debited command (loaded f) in
        let available = (round_money_lem laws d.available_balance (scale-round_money laws _)).1 in
        let actual = (round_money_lem laws d.actual_balance (scale-round_money laws _)).1 in
        let (small, value) = laws.neg_lem d.overdraft_limit (
          InRange-IsMoney laws _ (
            SameMoney-InRange laws f.overdraft_limit _ from-IsStored.overdraft
              from-LoadedFrom.overdraft)) in
        (
          laws.lt-eq-ltb d.available_balance c.decimal_zero (scale-round_money laws _)
                (omega (arith, laws.scale-decimal_zero))
              ∙ rw (laws.cents-decimal_zero, ← available, debit-Shifted.available) refl,
          laws.lt-eq-ltb d.actual_balance (c.neg d.overdraft_limit) (scale-round_money laws _) small
              ∙ rw (value, from-LoadedFrom.overdraft.cents_eq, ← actual, debit-Shifted.actual) refl,
        )

    -- A transfer that would leave the FROM account with a negative available balance, or with an
    -- actual balance below its overdraft limit taken negatively, is refused with code 3 when no
    -- statement fails, both accounts are there and valid, the amount is in range and the account table
    -- is within its schema; nothing is changed.
    pub transfer_funds-overdrawn :
        s.schedule ≡ []
        → (cents f.available_balance <ℤ cents command.amount)
          ⊎ (cents f.actual_balance -ℤ cents command.amount <ℤ neg_ℤ (cents f.overdraft_limit))
        → transfer_funds command s ≡ (ok (Outcome.failure "3" (short_of_funds command)), s)
    unfolding transfer_funds transfer_funds_once
    transfer_funds-overdrawn quiet short =
        let (available, actual) = tested in
        let over : is_overdrawn (debited command (loaded f)) ≡ true =
          over_either _ _ _ _ available actual short in
        run_transaction_failure _ (transfer_funds_once command) s s quiet insufficient_funds_code
          (short_of_funds command)
          (lock_accounts_quiet command s quiet _ f t from_there to_there
            ∙ move_funds_short command (loaded f) (loaded t) s over)

    module _ (pay : Payable f t) where
      funded : is_overdrawn (debited command (loaded f)) ≡ false
      funded =
          let (available, actual) = tested in
          let enough : ltb_ℤ (cents f.available_balance -ℤ cents command.amount) (pos 0) ≡ false =
            not_below (cents f.available_balance -ℤ cents command.amount) (pos 0)
              (omega (int_laws, pay.funds)) in
          rw (available, enough, actual, not_below _ _ pay.overdraft) refl

      debit-Writable :
          Writable command command.from_account_number (stored (debited command (loaded f)))
      debit-Writable =
          let (same_s, same_n) = find_account_key _ _ s.tables.account f from_there.found in
          record {
            sortcode = same_s;
            account_number = same_n;
            available =
                let (high, low) =
                  after_debit _ _ _ (pos 0) numeric_limit debit-Shifted.available
                    from-IsStored.available.pos_le pay.positive (omega int_laws) (omega int_laws) in
                fits _ debit-Shifted.available_scale high low;
            actual =
                let (high, low) =
                  after_debit _ _ _ (neg_ℤ (cents f.overdraft_limit)) numeric_limit
                    debit-Shifted.actual from-IsStored.actual.pos_le pay.positive
                    (omega (int_laws, from-IsStored.overdraft.pos_le)) pay.overdraft in
                fits _ debit-Shifted.actual_scale high low;
          }

      credit-Writable :
          Writable command command.to_account_number (stored (credited command (loaded t)))
      credit-Writable =
          let (same_s, same_n) = find_account_key _ _ s.tables.account t to_there.found in
          record {
            sortcode = same_s;
            account_number = same_n;
            available =
                let (high, low) =
                  after_credit _ _ _ numeric_limit credit-Shifted.available
                    to-IsStored.available.neg_le pay.positive pay.available_room in
                fits _ credit-Shifted.available_scale high low;
            actual =
                let (high, low) =
                  after_credit _ _ _ numeric_limit credit-Shifted.actual to-IsStored.actual.neg_le
                    pay.positive pay.actual_room in
                fits _ credit-Shifted.actual_scale high low;
          }

      -- A transfer between two different accounts goes through when no statement fails, both accounts
      -- are there and valid, the amount is positive and in range, the FROM account has the funds, the
      -- TO account has room for the amount in its columns, and the account table is within its schema.
      pub transfer_funds-completes :
          s.schedule ≡ []
          → command.from_account_number ≢ command.to_account_number
          → (done : SuccessfulTransfer) × (s' : Session) × (transfer_funds command s
              ≡ (ok (Outcome.success done), s'))
      unfolding transfer_funds transfer_funds_once
      transfer_funds-completes quiet apart =
          let (same_s, same_n) = find_account_key _ _ s.tables.account t to_there.found in
          let checked = to_there.valid in
          let short =
            rw (same_s, same_n) at
              (description_le t.sortcode t.account_number checked.sortcode_ok checked.number_ge
                checked.number_le) in
          let done : SuccessfulTransfer = record {
            from_account = stored (debited command (loaded f));
            to_account = stored (credited command (loaded t));
          } in
          let (s', run, quiet') =
            write_transfer_quiet command done s f t quiet wf.keyed apart from_there.found
              to_there.found debit-Writable credit-Writable short
              (InRange-fits_numeric laws command.amount amount) in
          (
            done,
            s',
            run_transaction_success _ (transfer_funds_once command) s s' quiet done
                (lock_accounts_quiet command s quiet _ f t from_there to_there
                  ∙ move_funds_quiet command (loaded f) (loaded t) s funded debit-AccountChecked
                      credit-AccountChecked
                  ∙ run)
                quiet',
          )
