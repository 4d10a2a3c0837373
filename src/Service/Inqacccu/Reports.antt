-- ===== src/Service/Inqacccu/Reports.antt =====
-- The inquiry of the accounts of a customer against what it promises.
use cbsa_rust.Prelude.{
  ◌≡◌, ◌≢◌, refl, sym, Option, none, some, List, [], map, Result, ok, err, true, false, Bool-cases,
  inl, inr, ◌⊎◌, arith, subst, if◌then◌else◌,
}
use cbsa_rust.Prelude.Int.{ℤ, pos, int_eq, int_eq_iff}
use cbsa_rust.Prelude.Search.Found.{IsFound, IsListing}
use cbsa_rust.Text.{Text}
use cbsa_rust.Crates.{Crates}
use cbsa_rust.Domain.Account.{round_money}
use cbsa_rust.Error.{CbsaError}
use cbsa_rust.Db.Tables.{CustomerRow, AccountRow, Tables}
use cbsa_rust.Db.Session.{Session}
use cbsa_rust.Db.Sql.Customers.{find_customer, is_found, accounts_of}
use cbsa_rust.Db.Sql.Customers.Found.{
  IsCustomer, IsHolding, find_customer-IsFound, accounts_of-IsListing,
}
use cbsa_rust.Service.Inqacc.Reports.{shown}
use cbsa_rust.Service.Inqacccu.{
  InqacccuRequest, InqacccuResult, success_fields, is_reserved_customer_number,
  random_customer_number, last_customer_number, inquire,
}
use cbsa_rust.Service.Inqacccu.Answers.{Ends, described, absent, reported, inquire-Ends}

module _ ⦃c : Crates⦄ (t : Tables) (sortcode : Text) (number : ℤ) where
  -- A customer who is there, and the accounts.
  pub record Lists (r : InqacccuResult) : Type 0 where
    pub not_zero : number ≢ pos 0
    pub not_nines : number ≢ pos 9_999_999_999
    pub customer : CustomerRow
    pub customer_there : IsFound (IsCustomer sortcode number) t.customer (some customer)
    pub rows : List AccountRow
    pub listing :
        IsListing (IsHolding sortcode number) (λ row. row.account_number) 20 t.account rows
    pub accounts : r.accounts ≡ map shown rows
    pub success : r.inquiry_success ≡ true
    pub customer_found : r.customer_found ≡ true
    pub same_number : r.customer_number ≡ number
    pub fail_code : r.fail_code ≡ "0"

  -- Nobody to list accounts of.
  pub record Misses (r : InqacccuResult) : Type 0 where
    pub nobody :
        (number ≡ pos 0)
        ⊎ ((number ≡ pos 9_999_999_999) ⊎ IsFound (IsCustomer sortcode number) t.customer none)
    pub accounts : r.accounts ≡ []
    pub success : r.inquiry_success ≡ false
    pub customer_found : r.customer_found ≡ false
    pub same_number : r.customer_number ≡ number
    pub fail_code : r.fail_code ≡ "1"

  abbrev pub IsListingReport : Result CbsaError (Option InqacccuResult) × Session → Type 0
  IsListingReport (ok none, s) = ⊥
  IsListingReport (ok (some r), s) = (s.tables ≡ t) × (Lists r ⊎ Misses r)
  IsListingReport (err e, s) = s.tables ≡ t

  missing :
      (number ≡ pos 0)
        ⊎ ((number ≡ pos 9_999_999_999) ⊎ IsFound (IsCustomer sortcode number) t.customer none)
      → Misses (absent number)
  missing nobody = record {
    nobody = nobody;
    accounts = refl;
    success = refl;
    customer_found = refl;
    same_number = refl;
    fail_code = refl;
  }

  present :
      (row : CustomerRow)
      → is_reserved_customer_number number ≡ false
      → IsFound (IsCustomer sortcode number) t.customer (some row)
      → Lists (success_fields number (map reported (accounts_of sortcode number t.account)))
  unfolding is_reserved_customer_number round_money
  present row free there = record {
    not_zero = λ same. (let e = (int_eq_iff number random_customer_number).1 same in ground arith);
    not_nines = λ same. (let e = (int_eq_iff number last_customer_number).1 same in ground arith);
    customer = row;
    customer_there = there;
    rows = accounts_of sortcode number t.account;
    listing = accounts_of-IsListing sortcode number t.account;
    accounts = refl;
    success = refl;
    customer_found = refl;
    same_number = refl;
    fail_code = refl;
  }

  reserved_cases :
      is_reserved_customer_number number ≡ true → (number ≡ pos 0) ⊎ (number ≡ pos 9_999_999_999)
  unfolding is_reserved_customer_number
  reserved_cases h = elim (Bool-cases (int_eq number random_customer_number)) [
    | inl any ↦ inl ((int_eq_iff number random_customer_number).0 any)
    | inr named ↦ inr ((int_eq_iff number last_customer_number).0 (ground arith))
  ]

  told : Lists (described sortcode number t) ⊎ Misses (described sortcode number t)
  told = elim (Bool-cases (is_reserved_customer_number number)) [
    | inl reserved ↦ rw reserved (
        inr (elim (reserved_cases reserved) [
          | inl zero ↦ missing (inl zero)
          | inr nines ↦ missing (inr (inl nines))
        ]))
    | inr free ↦ rw free (
        go (find_customer sortcode number t.customer) free
          (find_customer-IsFound sortcode number t.customer))
  ]
    where
      of_row : Option CustomerRow → InqacccuResult
      of_row row =
          if is_found row
          then success_fields number (map reported (accounts_of sortcode number t.account))
          else absent number

      go :
          (row : Option CustomerRow)
          → is_reserved_customer_number number ≡ false
          → IsFound (IsCustomer sortcode number) t.customer row
          → Lists (of_row row) ⊎ Misses (of_row row)
      go none free h = inr (missing (inr (inr h)))
      go (some row) free h = inl (present row free h)

  injective : (a b : InqacccuResult) → some a ≡ some b → a ≡ b
  injective a b e = ground arith

  from_Ends :
      (x : Result CbsaError (Option InqacccuResult) × Session)
      → Ends t sortcode number (described sortcode number t) x
      → IsListingReport x
  from_Ends (ok none, s) (same, is) = ground arith
  from_Ends (ok (some r), s) (same, is) =
      (same, subst (λ d. Lists d ⊎ Misses d) (sym (injective r _ is)) told)
  from_Ends (err e, s) same = same

module _ ⦃c : Crates⦄ where
  -- An inquiry of the accounts of a customer changes no table, however it ends, and never panics. A
  -- result that it returns either is a success with code 0, when the customer is there and the number
  -- is neither 0 nor 9999999999: it lists the first 20 accounts of the customer in the order of their
  -- numbers, with the columns of their rows, the money rounded to two places; or it is a failure with
  -- code 1 and no account, when there is no such customer or the number is 0 or 9999999999.
  pub inquire-IsListingReport :
      (sortcode : Text) (request : InqacccuRequest) (s : Session)
      → IsListingReport s.tables sortcode request.customer_number (inquire sortcode request s)
  inquire-IsListingReport sortcode request s =
      from_Ends s.tables sortcode request.customer_number (inquire sortcode request s)
        (inquire-Ends sortcode request s)
