-- ===== src/Repository/Delcus/Closes.antt =====
-- The theorem on the deletion of a customer, for an account table that is keyed.
use cbsa_rust.Prelude.{
  ◌≤◌, ◌≡◌, ◌≢◌, refl, true, false, none, List, [], ◌∷◌, ◌++◌, ok, All, map, arith, length, ◌∙◌, ap,
}
use cbsa_rust.Prelude.Int.{ℤ}
use cbsa_rust.Prelude.Search.{keep_by, drop_by, All_mono, IsDistinct}
use cbsa_rust.Text.{codes}
use cbsa_rust.Prelude.Search.Found.{IsListing}
use cbsa_rust.Crates.{Crates}
use cbsa_rust.Domain.TranType.{as_str}
use cbsa_rust.Domain.Account
use cbsa_rust.Domain.Account.{AccountDetails}
use cbsa_rust.Domain.Customer.{CustomerDetails}
use cbsa_rust.Db.Tables.{AccountRow, ProctranRow, Tables}
use cbsa_rust.Db.Session.{Session}
use cbsa_rust.Db.Schema.{IsKeyed}
use cbsa_rust.Db.Sql.Customers.{find_customer, is_held_by, accounts_of}
use cbsa_rust.Db.Sql.Customers.Effects.{
  find_customer-remove_customer, find_customer-remove_customer_ne,
}
use cbsa_rust.Db.Sql.Customers.Found.{IsHolding, accounts_of-IsListing}
use cbsa_rust.Db.Sql.Customers.Listing.{
  accounts_of-IsOwned, accounts_of-IsDistinct, length-accounts_of,
}
use cbsa_rust.Repository.Frame.Succeeds.{Returns, Returns_mono}
use cbsa_rust.Repository.Account.{into_account}
use cbsa_rust.Repository.Customer.{customer_description}
use cbsa_rust.Repository.Read.{collect}
use cbsa_rust.Repository.Read.Laws.{collect_cons}
use cbsa_rust.Repository.Delcus.{
  DeleteCustomerCommand, try_from, customer_audit_row, account_proctran_description,
  delete_customer_with_accounts,
}
use cbsa_rust.Repository.Delcus.Loop.{numberless, numberless-append}
use cbsa_rust.Repository.Delcus.Closing.{IsSole, IsListed, distinct-IsListed, Closed-Emptied}
use cbsa_rust.Repository.Delcus.Effect.{Removed, delete_customer-Removed}

module _ ⦃c : Crates⦄ where
  try_from_number :
      (row : AccountRow) (a : AccountDetails)
      → try_from row ≡ ok a
      → a.account_number ≡ row.account_number
  unfolding try_from into_account Account.new
  try_from_number row a e = ground arith

  -- The accounts that were collected have the numbers of the rows.
  numbers_kept :
      (P : ℤ → Type 0) (rows : List AccountRow) (accounts : List AccountDetails)
      → collect try_from rows ≡ ok accounts
      → All (λ r. P r.account_number) rows
      → All (λ a. P a.account_number) accounts
  unfolding collect
  numbers_kept P [] [] e h = tt
  numbers_kept P [] (a ∷ accounts) e h = ground arith
  numbers_kept P (r ∷ rows) all e (h, hs) =
      let (a, rest, first, then_, same) = collect_cons try_from r rows all e in
      rw same (rw (try_from_number r a first) h, numbers_kept P rows rest then_ hs)

  IsDistinct-kept :
      (rows : List AccountRow) (accounts : List AccountDetails)
      → collect try_from rows ≡ ok accounts
      → IsDistinct (λ r. r.account_number) rows
      → IsDistinct (λ a. a.account_number) accounts
  unfolding collect
  IsDistinct-kept [] [] e h = tt
  IsDistinct-kept [] (a ∷ accounts) e h = ground arith
  IsDistinct-kept (r ∷ rows) all e (d, ds) =
      let (a, rest, first, then_, same) = collect_cons try_from r rows all e in
      rw same (
        rw (try_from_number r a first) (numbers_kept (λ n. n ≢ r.account_number) rows rest then_ d),
        IsDistinct-kept rows rest then_ ds,
      )

  length_kept :
      (rows : List AccountRow) (accounts : List AccountDetails)
      → collect try_from rows ≡ ok accounts
      → length accounts ≡ length rows
  unfolding collect
  length_kept [] [] e = refl
  length_kept [] (a ∷ accounts) e = ground arith
  length_kept (r ∷ rows) all e =
      let (a, rest, first, then_, same) = collect_cons try_from r rows all e in
      rw same (omega (arith, length_kept rows rest then_))

module _ ⦃c : Crates⦄ (command : DeleteCustomerCommand) where
  abbrev held_accounts : Tables → List AccountRow
  held_accounts t = keep_by (is_held_by command.sortcode command.customer_number) t.account

  abbrev other_accounts : Tables → List AccountRow
  other_accounts t = drop_by (is_held_by command.sortcode command.customer_number) t.account

  -- The audit rows of a deletion, without the number that the database gives.
  abbrev closed_row : AccountDetails → ProctranRow
  closed_row a = record {
    sortcode = a.sortcode;
    counter = 0;
    logical_delete = false;
    tran_date = command.transaction_date;
    tran_time = command.transaction_time;
    tran_ref = command.transaction_reference;
    tran_type = codes "ODA";
    description = account_proctran_description a;
    amount = a.actual_balance;
  }

  abbrev deleted_row : CustomerDetails → ProctranRow
  deleted_row d = record {
    sortcode = d.sortcode;
    counter = 0;
    logical_delete = false;
    tran_date = command.transaction_date;
    tran_time = command.transaction_time;
    tran_ref = command.transaction_reference;
    tran_type = codes "ODC";
    description = customer_description d;
    amount = c.decimal_zero;
  }

  -- What a deletion of a customer leaves.
  pub record Closes (before : Tables) (customer : CustomerDetails) (after : Tables) : Type 0 where
    pub customer_gone : find_customer command.sortcode command.customer_number after.customer ≡ none
    pub other_customers :
        (n : ℤ)
        → n ≢ command.customer_number
        → find_customer command.sortcode n after.customer
          ≡ find_customer command.sortcode n before.customer
    pub accounts_gone : held_accounts after ≡ []
    pub others_kept : other_accounts after ≡ other_accounts before
    pub at_most : length (held_accounts before) ≤ 20
    pub listing :
        IsListing
          (IsHolding command.sortcode command.customer_number)
          (λ row. row.account_number)
          20
          before.account
          (accounts_of command.sortcode command.customer_number before.account)
    pub closed : List AccountDetails
    pub closed_listed :
        collect try_from (accounts_of command.sortcode command.customer_number before.account)
        ≡ ok closed
    pub trail :
        numberless after.proctran
        ≡ (numberless before.proctran ++ map closed_row closed) ++ (deleted_row customer ∷ [])
    pub control : after.control ≡ before.control

  IsListed-accounts :
      (t : Tables) (accounts : List AccountDetails)
      → IsKeyed t.account
      → collect try_from (accounts_of command.sortcode command.customer_number t.account)
        ≡ ok accounts
      → IsListed command.sortcode
          (λ q. is_held_by command.sortcode command.customer_number q ≡ true)
          accounts
          t.account
  IsListed-accounts t accounts keyed e =
      let rows = accounts_of command.sortcode command.customer_number t.account in
      distinct-IsListed command.sortcode _ accounts t.account
        (numbers_kept (IsSole command.sortcode _ t.account) rows accounts e (
          All_mono rows (λ r h. (h.once, h.own))
            (accounts_of-IsOwned command.sortcode command.customer_number t.account keyed)))
        (IsDistinct-kept rows accounts e
          (accounts_of-IsDistinct command.sortcode command.customer_number t.account keyed))

  Removed-Closes :
      (before : Tables) (customer : CustomerDetails) (after : Tables)
      → IsKeyed before.account
      → Removed command before customer after
      → Closes before customer after
  unfolding as_str
  Removed-Closes before customer after keyed h =
      let rows = accounts_of command.sortcode command.customer_number before.account in
      let emptied =
        Closed-Emptied command h.accounts before h.closed
          (IsListed-accounts before h.accounts keyed h.listed) h.looped in
      let accounts : after.account ≡ h.closed.account =
        ap (λ t. t.account) h.audited.tables ∙ ap (λ t. t.account) h.removed in
      let customers = ap (λ t. t.customer) h.audited.tables ∙ ap (λ t. t.customer) h.removed in
      record {
        customer_gone = rw customers (
            find_customer-remove_customer command.sortcode command.customer_number
              h.closed.customer);
        other_customers = λ n apart. rw customers (
            find_customer-remove_customer_ne command.sortcode n command.customer_number
              h.closed.customer apart
            ∙ ap (find_customer command.sortcode n) emptied.customers);
        accounts_gone = rw accounts h.none_left;
        others_kept = rw accounts emptied.others;
        at_most = omega (
          arith,
          emptied.fewer,
          ap length h.none_left,
          length_kept rows h.accounts h.listed,
          length-accounts_of command.sortcode command.customer_number before.account,
        );
        listing = accounts_of-IsListing command.sortcode command.customer_number before.account;
        closed = h.accounts;
        closed_listed = h.listed;
        trail =
            ap (λ t. numberless t.proctran) h.audited.tables
            ∙ numberless-append h.between.proctran _
            ∙ ap (λ l. l ++ (customer_audit_row command customer ∷ []))
                (ap (λ t. numberless t.proctran) h.removed ∙ emptied.trail);
        control =
            ap (λ t. t.control) h.audited.tables ∙ ap (λ t. t.control) h.removed ∙ emptied.control;
      }

  -- A deletion of a customer that succeeds leaves neither the customer nor any account of the customer,
  -- and there were at most 20 of them; the accounts of the others, in their order, the other customers
  -- of the branch and the counters are as they were; the audit trail grows by one ODA row for each
  -- account, in the order of the account numbers, and then one ODC row; when the account table was
  -- keyed.
  pub delete_customer-Closes :
      (s : Session)
      → IsKeyed s.tables.account
      → Returns (delete_customer_with_accounts command s) (λ a s'. Closes s.tables a s'.tables)
  delete_customer-Closes s keyed =
      Returns_mono (delete_customer_with_accounts command s) _ _
        (λ a s' h. Removed-Closes s.tables a s'.tables keyed h) (delete_customer-Removed command s)
