-- ===== src/Service/Creacc/Capacity.antt =====
-- How many accounts a customer has when one more is opened.
use cbsa_rust.Prelude.{
  ℕ, suc, ◌≤◌, ◌≡◌, refl, sym, ap, ◌∙◌, Bool, true, false, Option, none, some, Result, ok, err, map,
  if◌then◌else◌, ltb, length, length-take, arith, length-map, Bool-cases, inl, inr, subst,
}
use cbsa_rust.Prelude.Int.{ℤ, int_eq_iff}
use cbsa_rust.Prelude.Search.{keep_by, sort_by, length-sort_by, length-keep_by}
use cbsa_rust.Text.{Text}
use cbsa_rust.Text.Laws.{text_eq_refl}
use cbsa_rust.Crates.{Crates}
use cbsa_rust.Domain.Account.{AccountDetails}
use cbsa_rust.Domain.Laws.{new-AccountChecked}
use cbsa_rust.Error.{CbsaError}
use cbsa_rust.Db.Tables.{AccountRow, Tables}
use cbsa_rust.Db.Session.{Session}
use cbsa_rust.Db.Sql.Customers.{find_customer, is_found, is_held_by, accounts_of, listing_limit}
use cbsa_rust.Repository.Frame.{Outcome}
use cbsa_rust.Repository.Frame.Atomic.{Atomic}
use cbsa_rust.Repository.Frame.Succeeds.{Returns}
use cbsa_rust.Repository.Creacc.{
  CreateAccountCommand, create_account, create_account_once, opened_account, account_row,
}
use cbsa_rust.Repository.Creacc.Effect.{Created, create_account-Created, create_account-Atomic}
use cbsa_rust.Repository.Creacc.Numbers.{Opened, create_account-Opened}
use cbsa_rust.Service.Checks.{validate_sortcode}
use cbsa_rust.Service.Inqcust
use cbsa_rust.Service.Inqcust.{InqcustRequest, InqcustResult, system_generator}
use cbsa_rust.Service.Inqcust.Answers.{Answers, asked, inquire-Answers}
use cbsa_rust.Service.Inqacccu
use cbsa_rust.Service.Inqacccu.{InqacccuRequest, InqacccuResult, success_fields}
use cbsa_rust.Service.Inqacccu.Answers.{Ends, described, reported, absent, inquire-Ends}
use cbsa_rust.Service.Creacc.{
  CreaccRequest, Ending, result_of, command_of, open_account, with_count, after_count,
  after_customer, create_checked, create, customer_not_found, is_supported_account_type,
  is_reserved_customer_number, max_accounts_per_customer,
}

module _ ⦃c : Crates⦄ (sortcode : Text) (customer : ℤ) where
  abbrev pub held : Tables → ℕ
  held t = length (keep_by (is_held_by sortcode customer) t.account)

  -- The listing shows all accounts of a customer who has less than 20.
  held-listing : (t : Tables) → length (accounts_of sortcode customer t.account) ≤ 9 → held t ≤ 9
  unfolding accounts_of
  held-listing t h =
      let rows = keep_by (is_held_by sortcode customer) t.account in
      omega (
        arith,
        h,
        length-take listing_limit (sort_by (λ row. row.account_number) rows),
        length-sort_by (λ row. row.account_number) rows,
      )

  is_held_by_own :
      (row : AccountRow)
      → row.sortcode ≡ sortcode
      → row.customer_number ≡ customer
      → is_held_by sortcode customer row ≡ true
  unfolding is_held_by
  is_held_by_own row p q =
      rw p (ground (arith, text_eq_refl sortcode, (int_eq_iff row.customer_number customer).1 q))

module _ ⦃c : Crates⦄ (sortcode : Text) (request : CreaccRequest) (now : c.DateTime)
    (before : Tables) where
  -- The account that was opened, and the number of accounts before and after.
  pub record Opens (a : AccountDetails) (after : Tables) : Type 0 where
    pub date : c.Date
    pub thirty_days : c.add_days (c.date_naive now) 30 ≡ some date
    pub opened : Opened (command_of sortcode request date now) before a after
    pub supported : is_supported_account_type request.account_type ≡ true
    pub addressable : is_reserved_customer_number request.customer_number ≡ false
    pub room : held sortcode request.customer_number before ≤ 9
    pub one_more :
        held sortcode request.customer_number after
        ≡ suc (held sortcode request.customer_number before)

  abbrev pub OpensIf : Option AccountDetails → Tables → Type 0
  OpensIf (some a) after = Opens a after
  OpensIf none after = after ≡ before

  abbrev pub IsOpened : Ending × Session → Type 0
  IsOpened (Ending.returned (ok r), s) = OpensIf r.account s.tables
  IsOpened (Ending.returned (err e), s) = s.tables ≡ before
  IsOpened (Ending.panicked, s) = (s.tables ≡ before) × (c.add_days (c.date_naive now) 30 ≡ none)

  one_row_more :
      (command : CreateAccountCommand) (t : Tables) (a : AccountDetails) (after : Tables)
      → command.sortcode ≡ sortcode
      → command.customer_number ≡ request.customer_number
      → Created command t a after
      → Opened command t a after
      → held sortcode request.customer_number after ≡ suc (held sortcode request.customer_number t)
  one_row_more command t a after p q created opened =
      let (_, built) =
        new-AccountChecked (opened_account command created.number) created.built_from in
      ap (λ rows. length (keep_by (is_held_by sortcode request.customer_number) rows))
        opened.accounts
      ∙ length-keep_by (is_held_by sortcode request.customer_number) t.account (account_row a) (
          is_held_by_own sortcode request.customer_number (account_row a)
            (ap (λ b. b.sortcode) built ∙ p) (ap (λ b. b.customer_number) built ∙ q))

  result_of-IsOpened :
      (date : c.Date) (r : Result CbsaError (Outcome AccountDetails)) (s : Session)
      → c.add_days (c.date_naive now) 30 ≡ some date
      → is_supported_account_type request.account_type ≡ true
      → is_reserved_customer_number request.customer_number ≡ false
      → held sortcode request.customer_number before ≤ 9
      → Atomic (create_account_once (command_of sortcode request date now)) before (r, s)
      → Returns (r, s) (λ a s'. Created (command_of sortcode request date now) before a s'.tables)
      → Returns (r, s) (λ a s'. Opened (command_of sortcode request date now) before a s'.tables)
      → IsOpened (result_of r, s)
  result_of-IsOpened date (ok (Outcome.success a)) s later kind free room ran created opened =
      record {
        date = date;
        thirty_days = later;
        opened = opened;
        supported = kind;
        addressable = free;
        room = room;
        one_more =
            one_row_more (command_of sortcode request date now) before a s.tables refl refl created
              opened;
      }
  result_of-IsOpened date (ok (Outcome.failure code message)) s later kind free room kept _ _ = kept
  result_of-IsOpened date (err e) s later kind free room kept _ _ = kept

  -- The listing of an inquiry that succeeds has every account when it has at most nine.
  listed :
      (reserved found : Bool)
      → let d : InqacccuResult =
          (if reserved
            then absent request.customer_number
            else if found
            then success_fields request.customer_number
                (map reported (accounts_of sortcode request.customer_number before.account))
            else absent request.customer_number) in
        d.inquiry_success ≡ true
        → length d.accounts ≤ 9
        → length (accounts_of sortcode request.customer_number before.account) ≤ 9
  listed true found success few = cc
  listed false false success few = cc
  listed false true success few = omega (
    arith,
    few,
    length-map reported (accounts_of sortcode request.customer_number before.account),
  )

  described-held :
      (described sortcode request.customer_number before).inquiry_success ≡ true
      → length (described sortcode request.customer_number before).accounts ≤ 9
      → held sortcode request.customer_number before ≤ 9
  described-held success few = held-listing sortcode request.customer_number before (
      listed (Inqacccu.is_reserved_customer_number request.customer_number)
        (is_found (find_customer sortcode request.customer_number before.customer)) success few)

  module _ (kind : is_supported_account_type request.account_type ≡ true)
      (free : is_reserved_customer_number request.customer_number ≡ false) where
    open_account-IsOpened :
        (date : Option c.Date) (s : Session)
        → c.add_days (c.date_naive now) 30 ≡ date
        → s.tables ≡ before
        → held sortcode request.customer_number before ≤ 9
        → IsOpened (open_account sortcode request date now s)
    open_account-IsOpened none s later same room = (same, later)
    open_account-IsOpened (some date) s later same room =
        let command = command_of sortcode request date now in
        let (r, s') = create_account command s in
        result_of-IsOpened date r s' later kind free room
          (subst (λ t. Atomic (create_account_once command) t (r, s')) same
            (create_account-Atomic command s))
          (subst (λ t. Returns (r, s') (λ a u. Created command t a u.tables)) same
            (create_account-Created command s))
          (subst (λ t. Returns (r, s') (λ a u. Opened command t a u.tables)) same
            (create_account-Opened command s))

    with_count-IsOpened :
        (counted : InqacccuResult) (s : Session)
        → counted ≡ described sortcode request.customer_number before
        → s.tables ≡ before
        → IsOpened (with_count sortcode request now counted s)
    unfolding with_count customer_not_found
    with_count-IsOpened counted s is same = elim (Bool-cases counted.inquiry_success) [
      | inr unknown ↦ rw unknown same
      | inl known ↦ elim (Bool-cases (ltb max_accounts_per_customer (length counted.accounts))) [
        | inl full ↦ rw (known, full) same
        | inr room ↦
            rw (known, room)
              (open_account-IsOpened (c.add_days (c.date_naive now) 30) s refl same (
                described-held (ap (λ d. d.inquiry_success) (sym is) ∙ known)
                  (subst (λ d. length d.accounts ≤ 9) is (ground arith))))
      ]
    ]

    after_count-IsOpened :
        (r : Result CbsaError (Option InqacccuResult)) (s : Session)
        → Ends before sortcode request.customer_number
            (described sortcode request.customer_number before)
            (r, s)
        → IsOpened (after_count sortcode request now r s)
    after_count-IsOpened (ok (some counted)) s (same, is) =
        with_count-IsOpened counted s (ground arith) same
    after_count-IsOpened (ok none) s (same, is) = cc
    after_count-IsOpened (err e) s same = same

    after_customer-IsOpened :
        (r : Result CbsaError InqcustResult) (s : Session)
        → Answers before sortcode request.customer_number (asked request.customer_number) (r, s)
        → IsOpened (after_customer sortcode request now r s)
    unfolding after_customer
    after_customer-IsOpened (err e) s same = same
    after_customer-IsOpened (ok found) s (same, _) =
        elim (Bool-cases (Inqcust.inquiry_success found)) [
          | inr missing ↦ rw missing same
          | inl there ↦ rw there (
              let ask : InqacccuRequest = record { customer_number = request.customer_number } in
              let (r, s') = Inqacccu.inquire sortcode ask s in
              after_count-IsOpened r s' (
                subst
                  (λ t.
                    Ends t sortcode request.customer_number
                      (described sortcode request.customer_number t) (r, s'))
                  same (inquire-Ends sortcode ask s)))
        ]

module _ ⦃c : Crates⦄ (sortcode : Text) (request : CreaccRequest) (now : c.DateTime) where
  create_checked-IsOpened :
      (seed : ℕ) (s : Session)
      → IsOpened sortcode request now s.tables (create_checked sortcode request now seed s)
  unfolding create_checked customer_not_found
  create_checked-IsOpened seed s =
      elim (Bool-cases (is_supported_account_type request.account_type)) [
        | inr odd ↦ rw odd refl
        | inl kind ↦ elim (Bool-cases (is_reserved_customer_number request.customer_number)) [
          | inl reserved ↦ rw (kind, reserved) refl
          | inr free ↦
              rw (kind, free)
                (let ask : InqcustRequest = record { customer_number = request.customer_number } in
                  let (r, s') = Inqcust.inquire system_generator sortcode ask seed s in
                  after_customer-IsOpened sortcode request now s.tables kind free r s'
                    (inquire-Answers system_generator sortcode ask seed s))
        ]
      ]

  -- A creation opens an account only for a supported type, for a customer who is there, is not number
  -- 0 or 9999999999, and has at most nine accounts; the customer then has exactly one more, so never
  -- more than ten. With any other result or error the tables are as they were; the call panics only
  -- when the calendar has no day 30 days from today.
  pub create-IsOpened :
      (seed : ℕ) (s : Session)
      → IsOpened sortcode request now s.tables (create sortcode request now seed s)
  unfolding create
  create-IsOpened seed s = go (validate_sortcode sortcode)
    where
      go :
          (checked : Result CbsaError (Unit {0}))
          → IsOpened sortcode request now s.tables (elim checked as (λ _. Ending × Session) [
            | ok _ ↦ create_checked sortcode request now seed s
            | err e ↦ (Ending.returned (err e), s)
          ])
      go (ok _) = create_checked-IsOpened seed s
      go (err e) = refl
