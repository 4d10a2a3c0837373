-- ===== src/Repository/Dbcrfun/Payments.antt =====
-- The rules for payments, and the audit row of `repository/dbcrfun.rs`.
use cbsa_rust.Prelude.{
  ℕ, ◌-◌, ◌≤◌, ◌≡◌, true, false, arith, length, replicate, length-append, length-replicate, List,
}
use cbsa_rust.Prelude.Int.{pos, ◌≤ℤ◌}
use cbsa_rust.Text.{codes}
use cbsa_rust.Text.Laws.{length-pad_or_truncate}
use cbsa_rust.Crates.{Crates, IsLawful}
use cbsa_rust.Domain.Laws.{new-AccountChecked}
use cbsa_rust.Db.Session.{Session}
use cbsa_rust.Db.Schema.{not_lt, round_money_lem, scale-round_money}
use cbsa_rust.Repository.Frame.Succeeds.{Returns, Returns_mono}
use cbsa_rust.Repository.Dbcrfun.{
  DbcrfunCommand, is_payment_facility, is_restricted_account_type, posted, short_description,
  proctran_description, post_transaction,
}
use cbsa_rust.Repository.Dbcrfun.Effect.{post_transaction-Posted}

module _ ⦃c : Crates⦄ where
  length-short_description : (command : DbcrfunCommand) → length (short_description command) ≡ 14
  unfolding short_description codes
  length-short_description command =
      ground (arith, length-pad_or_truncate command.payment_origin_description 14)

  -- The description of the audit row has exactly the 40 characters of its column, for every command.
  pub length-proctran_description :
      (command : DbcrfunCommand) → length (proctran_description command) ≡ 40
  unfolding proctran_description
  length-proctran_description command =
      let short = short_description command in
      let spaces : List ℕ = replicate (40 - length short) b' ' in
      omega (
        arith,
        length-short_description command,
        length-append short spaces,
        length-replicate {A = ℕ} (40 - length short) b' ',
      )

module _ ⦃c : Crates⦄ (laws : IsLawful) (command : DbcrfunCommand) (s : Session) where
  open laws use {cents}

  -- A debit through the payment facility that succeeds is not on a mortgage or loan account, and
  -- leaves an available balance that is not negative.
  pub post_transaction-payments :
      is_payment_facility command.facility_type ≡ true
      → c.lt command.amount c.decimal_zero ≡ true
      → Returns (post_transaction command s) (λ a s'.
        (is_restricted_account_type a.account_type ≡ false) × (pos 0 ≤ℤ cents a.available_balance))
  post_transaction-payments payment debit =
      Returns_mono (post_transaction command s) _ _
        (λ a s' h.
          let (checked, built) = new-AccountChecked (posted command h.read) h.built in
          let d = (posted command h.read).available_balance in
          let funded : c.lt d c.decimal_zero ≡ false = rw (debit, payment) at h.funded in
          let zero_small : c.scale c.decimal_zero ≤ 2 = omega (arith, laws.scale-decimal_zero) in
          let enough =
            rw laws.cents-decimal_zero at
              (not_lt laws d c.decimal_zero (scale-round_money laws _) zero_small funded) in
          let kind : is_restricted_account_type h.read.account_type ≡ false =
            rw payment at h.allowed in
          rw built (kind, rw (round_money_lem laws d (scale-round_money laws _)).1 enough))
        (post_transaction-Posted command s)
