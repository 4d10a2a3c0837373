-- ===== src/Service/Inqcust/Reports.antt =====
-- The inquiry of a customer against what it promises: which row it is about.
use cbsa_rust.Prelude.{
  ◌≡◌, ◌≢◌, false, Option, none, some, Result, ok, err, Bool-cases, inl, inr, ◌⊎◌, arith, subst,
}
use cbsa_rust.Prelude.Int.{ℤ, pos, int_eq, int_eq_iff}
use cbsa_rust.Prelude.Search.Found.{IsFound, IsLastFound}
use cbsa_rust.Text.{Text}
use cbsa_rust.Crates.{Crates}
use cbsa_rust.Domain.Customer.{CustomerDetails}
use cbsa_rust.Error.{CbsaError}
use cbsa_rust.Db.Tables.{CustomerRow, Tables}
use cbsa_rust.Db.Session.{Session}
use cbsa_rust.Db.Sql.Customers.Found.{IsCustomer, find_customer-IsFound, last_customer-IsLastFound}
use cbsa_rust.Repository.Customer.Laws.{IsCustomerOf}
use cbsa_rust.Service.Inqcust.{
  InqcustRequest, InqcustResult, Generator, random_customer_number, last_customer_number, inquire,
}
use cbsa_rust.Service.Inqcust.Answers.{random, asked, IsRowOf, Reports, Answers, inquire-Answers}

module _ ⦃c : Crates⦄ (t : Tables) (sortcode : Text) where
  -- The customer of a row, or none for none.
  abbrev pub IsShown : Option CustomerRow → Option CustomerDetails → Type 0
  IsShown none none = Unit
  IsShown none (some d) = ⊥
  IsShown (some row) none = ⊥
  IsShown (some row) (some d) = IsCustomerOf row d

  -- A customer of the branch, if any.
  abbrev pub IsDrawn : Option CustomerDetails → Type 0
  IsDrawn none = Unit
  IsDrawn (some d) =
      (row : CustomerRow) × IsFound (IsCustomer sortcode d.customer_number) t.customer (some row)
      × IsCustomerOf row d

  -- What is told for a number: 0 asks for any customer, 9999999999 for the one with the greatest
  -- number.
  abbrev pub Tells : ℤ → Option CustomerDetails → Type 0
  Tells number o =
      ((number ≡ pos 0) × IsDrawn o)
      ⊎ (((number ≡ pos 9_999_999_999)
            × ((row : Option CustomerRow) × IsLastFound (λ r. r.sortcode ≡ sortcode)
                  (λ r. r.customer_number) t.customer row
                × IsShown row o))
          ⊎ ((number ≢ pos 0)
              × (number ≢ pos 9_999_999_999)
              × ((row : Option CustomerRow) × IsFound (IsCustomer sortcode number) t.customer row
                  × IsShown row o)))

  abbrev pub IsCustomerReport : ℤ → Result CbsaError InqcustResult × Session → Type 0
  IsCustomerReport number (ok r, s) = (s.tables ≡ t) × Tells number r.customer
  IsCustomerReport number (err e, s) = s.tables ≡ t

  shown :
      (Q : Option CustomerRow → Type 0) (row : Option CustomerRow) (o : Option CustomerDetails)
      → Q row
      → IsRowOf t row o
      → (row' : Option CustomerRow) × Q row' × IsShown row' o
  shown Q row none q is = (none, subst Q is q, tt)
  shown Q row (some d) q (r, is, of) = (some r, subst Q is q, of)

  drawn : (number : ℤ) (o : Option CustomerDetails) → Reports t sortcode number random o → IsDrawn o
  drawn number none h = tt
  drawn number (some d) (r, found, of) = (
    r,
    subst (IsFound (IsCustomer sortcode d.customer_number) t.customer) found
        (find_customer-IsFound sortcode d.customer_number t.customer),
    of,
  )

  apart : (m n : ℤ) → int_eq m n ≡ false → m ≢ n
  apart m n h same = let e = (int_eq_iff m n).1 same in ground arith

  told :
      (number : ℤ) (o : Option CustomerDetails)
      → Reports t sortcode number (asked number) o
      → Tells number o
  told number o = elim (Bool-cases (int_eq number random_customer_number)) [
    | inl any ↦
        rw any (λ h. inl ((int_eq_iff number random_customer_number).0 any, drawn number o h))
    | inr named ↦ elim (Bool-cases (int_eq number last_customer_number)) [
      | inl end ↦
          rw (named, end)
            (λ h. inr (
              inl (
                (int_eq_iff number last_customer_number).0 end,
                shown _ _ o (last_customer-IsLastFound sortcode t.customer) h,
              )))
      | inr one ↦
          rw (named, one)
            (λ h. inr (
              inr (
                apart number random_customer_number named,
                apart number last_customer_number one,
                shown _ _ o (find_customer-IsFound sortcode number t.customer) h,
              )))
    ]
  ]

  reported :
      (number : ℤ) (x : Result CbsaError InqcustResult × Session)
      → Answers t sortcode number (asked number) x
      → IsCustomerReport number x
  reported number (ok r, s) (same, h) = (same, told number r.customer h)
  reported number (err e, s) same = same

module _ ⦃c : Crates⦄ where
  -- An inquiry of a customer changes no table, however it ends, whatever the generator of random
  -- numbers is. A result that it returns reports the customer of the row of the branch with the number
  -- that was asked for, or for 9999999999 of the row of the branch with the greatest number, and none
  -- exactly when there is no such row; for 0, a customer that it reports is the customer of a row of
  -- the branch with that customer's number.
  pub inquire-IsCustomerReport :
      (gen : Generator) (sortcode : Text) (request : InqcustRequest) (state : gen.State)
      (s : Session)
      → IsCustomerReport s.tables sortcode request.customer_number
          (inquire gen sortcode request state s)
  inquire-IsCustomerReport gen sortcode request state s =
      reported s.tables sortcode request.customer_number (inquire gen sortcode request state s)
        (inquire-Answers gen sortcode request state s)
