-- ===== src/Repository/Xfrfun/Funds.antt =====
-- The test for sufficient funds, in cents.
use cbsa_rust.Prelude.{some, Bool, ◌≤◌, ◌≡◌, false, ◌||◌, arith}
use cbsa_rust.Prelude.Int.{pos, ◌≤ℤ◌, neg_ℤ}
use cbsa_rust.Crates.{Crates, IsLawful}
use cbsa_rust.Domain.Account.{AccountDetails}
use cbsa_rust.Domain.Laws.{new-AccountChecked}
use cbsa_rust.Db.Session.{Session}
use cbsa_rust.Db.Sql.{find_account}
use cbsa_rust.Db.Tables.{AccountRow}
use cbsa_rust.Db.Schema.{
  InRange, IsWellFormed, InRange-IsMoney, not_lt, round_money_lem, scale-round_money,
}
use cbsa_rust.Db.Schema.Balances.{find_account-IsStored}
use cbsa_rust.Repository.Frame.Succeeds.{Returns, Returns_mono}
use cbsa_rust.Repository.Account.Money.{into_account-LoadedFrom, SameMoney-InRange}
use cbsa_rust.Repository.Xfrfun.{XfrfunCommand, debited, is_overdrawn, transfer_funds}
use cbsa_rust.Repository.Xfrfun.Effect.{transfer_funds-Transferred}

or_false : (a b : Bool) → (a || b) ≡ false → (a ≡ false) × (b ≡ false)
or_false a b h = ground arith

module _ ⦃c : Crates⦄ (laws : IsLawful) where
  open laws use {cents}

  funded_cents :
      (a : AccountDetails)
      → c.scale a.available_balance ≤ 2
      → c.scale a.actual_balance ≤ 2
      → InRange laws a.overdraft_limit
      → is_overdrawn a ≡ false
      → (pos 0 ≤ℤ cents a.available_balance)
        × (neg_ℤ (cents a.overdraft_limit) ≤ℤ cents a.actual_balance)
  funded_cents a p q o h =
      let (first, second) =
        or_false (c.lt a.available_balance c.decimal_zero)
          (c.lt a.actual_balance (c.neg a.overdraft_limit)) h in
      let (small, value) = laws.neg_lem a.overdraft_limit (InRange-IsMoney laws _ o) in
      let zero_small : c.scale c.decimal_zero ≤ 2 = omega (arith, laws.scale-decimal_zero) in
      (
        rw laws.cents-decimal_zero at
            (not_lt laws a.available_balance c.decimal_zero p zero_small first),
        rw value at (not_lt laws a.actual_balance (c.neg a.overdraft_limit) q small second),
      )

  -- After a successful transfer the available balance of the FROM account is not negative, and its
  -- actual balance is not below its overdraft limit taken negatively.
  pub transfer_funds-funded :
      (command : XfrfunCommand) (s : Session)
      → IsWellFormed laws s.tables
      → Returns (transfer_funds command s) (λ t s'.
        (row : AccountRow) × (find_account command.sortcode command.from_account_number
            s.tables.account
          ≡ some row)
        × (pos 0 ≤ℤ cents t.from_account.available_balance)
        × (neg_ℤ (cents row.overdraft_limit) ≤ℤ cents t.from_account.actual_balance))
  transfer_funds-funded command s wf =
      Returns_mono (transfer_funds command s) _ _
        (λ t s' h.
          let row = h.from_loaded.row in
          let a = h.from_account in
          let stored =
            find_account-IsStored laws _ _ s.tables.account row wf.stored h.from_loaded.found in
          let loaded = into_account-LoadedFrom laws row a h.from_loaded.loaded stored in
          let (checked, built) = new-AccountChecked (debited command a) h.from_rebuilt in
          let d = debited command a in
          let (enough, covered) =
            funded_cents (debited command a) (scale-round_money laws _) (scale-round_money laws _)
              (SameMoney-InRange laws row.overdraft_limit a.overdraft_limit stored.overdraft
                loaded.overdraft)
              h.funded in
          (
            row,
            h.from_loaded.found,
            rw (built, (round_money_lem laws d.available_balance (scale-round_money laws _)).1)
                enough,
            rw
                (
                  built,
                  (round_money_lem laws d.actual_balance (scale-round_money laws _)).1,
                  ← loaded.overdraft.cents_eq,
                )
                covered,
          ))
        (transfer_funds-Transferred command s)
