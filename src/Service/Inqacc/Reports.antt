-- ===== src/Service/Inqacc/Reports.antt =====
-- The inquiry of an account against what it promises: which row it is about, and what it shows of it.
use cbsa_rust.Prelude.{
  ◌≡◌, ◌≢◌, Option, none, some, List, Result, ok, err, Bool-cases, inl, inr, ◌⊎◌, arith,
}
use cbsa_rust.Prelude.Int.{ℤ, pos, int_eq, int_eq_iff}
use cbsa_rust.Prelude.Search.Found.{IsFound, IsLastFound}
use cbsa_rust.Text.{Text}
use cbsa_rust.Crates.{Crates}
use cbsa_rust.Domain.Account.{AccountDetails, round_money}
use cbsa_rust.Error.{CbsaError}
use cbsa_rust.Db.Tables.{AccountRow, Tables}
use cbsa_rust.Db.Session.{Session}
use cbsa_rust.Db.Sql.Customers.Found.{IsAccount, find_account-IsFound, last_account-IsLastFound}
use cbsa_rust.Service.Inqacc.{InqaccRequest, InqaccResult, last_account_number, inquire}
use cbsa_rust.Service.Inqacc.Finds.{Finds, wanted, reported_of, inquire-Finds}

module _ ⦃c : Crates⦄ where
  -- What a client is shown of a row: its columns, with the money rounded to two places.
  abbrev pub shown : AccountRow → AccountDetails
  shown row = record {
    sortcode = row.sortcode;
    customer_number = row.customer_number;
    account_number = row.account_number;
    account_type = row.account_type;
    interest_rate = c.round_dp 2 row.interest_rate;
    opened = row.opened;
    overdraft_limit = c.round_dp 2 row.overdraft_limit;
    last_statement_date = row.last_stmt_date;
    next_statement_date = row.next_stmt_date;
    available_balance = c.round_dp 2 row.available_balance;
    actual_balance = c.round_dp 2 row.actual_balance;
  }

  -- The row that a number stands for: for 99999999 the account of the branch with the greatest number.
  abbrev pub IsSelected : Text → ℤ → List AccountRow → Option AccountRow → Type 0
  IsSelected sortcode number rows row =
      ((number ≡ pos 99_999_999)
        × IsLastFound (λ r. r.sortcode ≡ sortcode) (λ r. r.account_number) rows row)
      ⊎ ((number ≢ pos 99_999_999) × IsFound (IsAccount sortcode number) rows row)

  abbrev pub Tells : Option AccountRow → InqaccResult → Type 0
  Tells none r = (r.account ≡ none) × (r.fail_code ≡ "1")
  Tells (some row) r = r.account ≡ some (shown row)

  abbrev pub IsAccountReport : Tables → Text → ℤ → Result CbsaError InqaccResult × Session → Type 0
  IsAccountReport t sortcode number (ok r, s) =
      (s.tables ≡ t)
      × ((row : Option AccountRow) × IsSelected sortcode number t.account row × Tells row r)
  IsAccountReport t sortcode number (err e, s) = s.tables ≡ t

  pub wanted-IsSelected :
      (sortcode : Text) (number : ℤ) (t : Tables)
      → IsSelected sortcode number t.account (wanted sortcode number t)
  wanted-IsSelected sortcode number t = elim (Bool-cases (int_eq number last_account_number)) [
    | inl last ↦
        let same = (int_eq_iff number last_account_number).0 last in
        rw last (inl (same, last_account-IsLastFound sortcode t.account))
    | inr exact ↦
        let apart : number ≢ pos 99_999_999 =
          λ same. (let e = (int_eq_iff number last_account_number).1 same in ground arith) in
        rw exact (inr (apart, find_account-IsFound sortcode number t.account))
  ]

  told :
      (row : Option AccountRow) (r : InqaccResult)
      → r.account ≡ reported_of row
      → (r.account ≡ none → r.fail_code ≡ "1")
      → Tells row r
  unfolding round_money
  told none r is coded = (is, coded is)
  told (some row) r is coded = is

  reported :
      (t : Tables) (sortcode : Text) (number : ℤ) (x : Result CbsaError InqaccResult × Session)
      → Finds t (wanted sortcode number t) x
      → IsAccountReport t sortcode number x
  reported t sortcode number (ok r, s) (same, is, coded) =
      (same, (wanted sortcode number t, wanted-IsSelected sortcode number t, told _ r is coded))
  reported t sortcode number (err e, s) same = same

  -- An inquiry of an account changes no table, however it ends. A result that it returns is about the
  -- row of the branch with the number that was asked for, or for 99999999 about the row of the branch
  -- with the greatest number: it shows the columns of that row, its money rounded to two places; and it
  -- shows no account, with code 1, when there is no such row.
  pub inquire-IsAccountReport :
      (sortcode : Text) (request : InqaccRequest) (s : Session)
      → IsAccountReport s.tables sortcode request.account_number (inquire sortcode request s)
  inquire-IsAccountReport sortcode request s =
      reported s.tables sortcode request.account_number (inquire sortcode request s)
        (inquire-Finds sortcode request s)
