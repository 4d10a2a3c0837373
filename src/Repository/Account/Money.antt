-- ===== src/Repository/Account/Money.antt =====
-- The balances of an account that was read from the table, and of one that was rebuilt with new
-- balances, in cents.
use cbsa_rust.Prelude.{◌≤◌, ◌≡◌, refl, ok, arith, ap, ◌∙◌}
use cbsa_rust.Prelude.Int.{ℤ}
use cbsa_rust.Crates.{Crates, IsLawful, IsMoney}
use cbsa_rust.Domain.Account
use cbsa_rust.Domain.Account.{AccountDetails, round_money}
use cbsa_rust.Domain.Laws.{new-AccountChecked}
use cbsa_rust.Db.Tables.{AccountRow}
use cbsa_rust.Db.Schema.{InRange, IsStored, InRange-IsMoney, round_money_lem}
use cbsa_rust.Repository.Account.{row_fields, into_account}

module _ ⦃c : Crates⦄ (laws : IsLawful) where
  open laws use {cents}

  -- `new` holds the money of `old`.
  pub record SameMoney (old new : c.Decimal) : Type 0 where
    pub scale_le : c.scale new ≤ 2
    pub cents_eq : cents new ≡ cents old

  pub SameMoney-round : (old new : c.Decimal) → SameMoney old new → SameMoney old (round_money new)
  SameMoney-round old new h =
      let (small, same) = round_money_lem laws new h.scale_le in
      record { scale_le = small; cents_eq = same ∙ h.cents_eq }

  pub SameMoney-InRange :
      (old new : c.Decimal) → InRange laws old → SameMoney old new → InRange laws new
  SameMoney-InRange old new h s = ground (arith)

  -- An account as it was read: the key and the money of the row.
  pub record LoadedFrom (row : AccountRow) (a : AccountDetails) : Type 0 where
    pub sortcode : a.sortcode ≡ row.sortcode
    pub account_number : a.account_number ≡ row.account_number
    pub customer_number : a.customer_number ≡ row.customer_number
    pub available : SameMoney row.available_balance a.available_balance
    pub actual : SameMoney row.actual_balance a.actual_balance
    pub overdraft : SameMoney row.overdraft_limit a.overdraft_limit

  rounded : (d : c.Decimal) → InRange laws d → SameMoney d (round_money d)
  rounded d h = SameMoney-round d d (record { scale_le = h.scale_le; cents_eq = refl })

  pub into_account-LoadedFrom :
      (row : AccountRow) (a : AccountDetails)
      → into_account row ≡ ok a
      → IsStored laws row
      → LoadedFrom row a
  unfolding into_account
  into_account-LoadedFrom row a e stored =
      let (checked, built) = new-AccountChecked (row_fields row) e in
      rw built (record {
        sortcode = refl;
        account_number = refl;
        customer_number = refl;
        available = rounded row.available_balance stored.available;
        actual = rounded row.actual_balance stored.actual;
        overdraft = rounded row.overdraft_limit stored.overdraft;
      })

  -- A balance after `op` by `amount`, rounded.
  pub record Shifted (op : ℤ → ℤ → ℤ) (row : AccountRow) (amount : c.Decimal) (b : AccountDetails)
      : Type 0 where
    pub sortcode : b.sortcode ≡ row.sortcode
    pub account_number : b.account_number ≡ row.account_number
    pub available_scale : c.scale b.available_balance ≤ 2
    pub actual_scale : c.scale b.actual_balance ≤ 2
    pub available : cents b.available_balance ≡ op (cents row.available_balance) (cents amount)
    pub actual : cents b.actual_balance ≡ op (cents row.actual_balance) (cents amount)

  module _ (f : c.Decimal → c.Decimal → c.Decimal) (op : ℤ → ℤ → ℤ)
      (exact : (a b : c.Decimal)
        → IsMoney cents a
        → IsMoney cents b
        → (c.scale (f a b) ≤ 2) × (cents (f a b) ≡ op (cents a) (cents b))) where
    shifted_balance :
        (old new amount : c.Decimal)
        → InRange laws old
        → InRange laws amount
        → SameMoney old new
        → (c.scale (round_money (round_money (f new amount))) ≤ 2)
          × (cents (round_money (round_money (f new amount))) ≡ op (cents old) (cents amount))
    shifted_balance old new amount h m same =
        let (small, value) =
          exact new amount (InRange-IsMoney laws new (SameMoney-InRange old new h same))
            (InRange-IsMoney laws amount m) in
        let (small', value') = round_money_lem laws (f new amount) small in
        let (small'', value'') = round_money_lem laws (round_money (f new amount)) small' in
        (small'', value'' ∙ value' ∙ value ∙ ap (λ z. op z (cents amount)) same.cents_eq)

    pub new-Shifted :
        (row : AccountRow) (a b : AccountDetails) (amount : c.Decimal)
        → IsStored laws row
        → LoadedFrom row a
        → InRange laws amount
        → Account.new (record a {
          available_balance = round_money (f a.available_balance amount);
          actual_balance = round_money (f a.actual_balance amount);
        })
          ≡ ok b
        → Shifted op row amount b
    new-Shifted row a b amount stored loaded m e =
        let (checked, built) = new-AccountChecked _ e in
        let (small, value) =
          shifted_balance row.available_balance a.available_balance amount stored.available m
            loaded.available in
        let (small', value') =
          shifted_balance row.actual_balance a.actual_balance amount stored.actual m
            loaded.actual in
        rw built (record {
          sortcode = loaded.sortcode;
          account_number = loaded.account_number;
          available_scale = small;
          actual_scale = small';
          available = value;
          actual = value';
        })
