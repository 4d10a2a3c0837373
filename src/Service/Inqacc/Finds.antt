-- ===== src/Service/Inqacc/Finds.antt =====
-- What an inquiry of an account reports.
use cbsa_rust.Prelude.{
  ◌≡◌, refl, Option, none, some, Result, ok, err, map_err, map_ok, ◌>>=◌, ◌>>◌, if◌then◌else◌,
  Bool-cases, inl, inr, arith, subst, String, ◌++◌,
}
use cbsa_rust.Prelude.Int.{ℤ, int_eq}
use cbsa_rust.Text.{Text, codes}
use cbsa_rust.Text.Decimal.{show_int}
use cbsa_rust.Crates.{Crates}
use cbsa_rust.Domain.Account
use cbsa_rust.Domain.Account.{AccountDetails}
use cbsa_rust.Error.{CbsaError}
use cbsa_rust.Db.Tables.{AccountRow, Tables}
use cbsa_rust.Db.Session.{Session}
use cbsa_rust.Db.Retry.{with_retry}
use cbsa_rust.Db.Retry.Reads.{IsRead, with_retry-IsRead, query-IsRead}
use cbsa_rust.Db.Sql.{find_account}
use cbsa_rust.Db.Sql.Query.{query}
use cbsa_rust.Db.Sql.Customers.{last_account}
use cbsa_rust.Repository.Account.{stored}
use cbsa_rust.Repository.Read.{transpose}
use cbsa_rust.Repository.Inqacc.{find_by_sortcode_and_account_number, find_last_by_sortcode}
use cbsa_rust.Service.Calls.{when_valid-cases}
use cbsa_rust.Service.Checks.{validate_sortcode}
use cbsa_rust.Service.Inqacc.{
  not_found_code, InqaccRequest, InqaccResult, last_account_number, plain_fields, map_account_row,
  read_failure, load_with, load_account, load_last_account, answer, find_last_account,
  inquire_valid, inquire, validate_account_number,
}

module _ ⦃c : Crates⦄ where
  -- The account that a row is reported as.
  abbrev pub reported_of : Option AccountRow → Option AccountDetails
  reported_of none = none
  reported_of (some row) = some (stored (plain_fields row))

  -- The row that an inquiry is about: the last account of the branch for 99999999.
  abbrev pub wanted : Text → ℤ → Tables → Option AccountRow
  wanted sortcode number t =
      if int_eq number last_account_number
      then last_account sortcode t.account
      else find_account sortcode number t.account

module _ ⦃c : Crates⦄ (t : Tables) (row : Option AccountRow) where
  abbrev Loads : Result CbsaError (Option AccountDetails) × Session → Type 0
  Loads (ok found, s) = (s.tables ≡ t) × (found ≡ reported_of row)
  Loads (err e, s) = s.tables ≡ t

  -- The tables are as they were, and a result reports the row, or with code 1 that there is none.
  abbrev pub Finds : Result CbsaError InqaccResult × Session → Type 0
  Finds (ok r, s) =
      (s.tables ≡ t)
      × (r.account ≡ reported_of row)
      × (r.account ≡ none → r.fail_code ≡ not_found_code)
  Finds (err e, s) = s.tables ≡ t

  mapped :
      (code : String) (s : Session) → s.tables ≡ t → Loads (transpose (map_account_row code) row, s)
  unfolding map_account_row Account.new
  mapped code s same = go row refl
    where
      one :
          (r : AccountRow) (x : Result CbsaError AccountDetails)
          → row ≡ some r
          → map_account_row code r ≡ x
          → Loads (map_ok some x, s)
      one r (ok a) is e = (same, rw is (ground arith))
      one r (err f) is e = same

      go : (o : Option AccountRow) → row ≡ o → Loads (transpose (map_account_row code) o, s)
      go none is = (same, rw is refl)
      go (some r) is = one r (map_account_row code r) is refl

  load_with-Loads :
      (read : Tables → Option AccountRow) (code : String)
      → read t ≡ row
      → (s : Session) → s.tables ≡ t
      → Loads (load_with (query read) code s)
  load_with-Loads read code is s same =
      go (with_retry (query read) s)
        (with_retry-IsRead read t (query read) (query-IsRead read t) s same)
    where
      go :
          (x : Result c.SqlxError (Option AccountRow) × Session)
          → IsRead read t x
          → Loads (map_err (read_failure code) x.0 >>= transpose (map_account_row code), x.1)
      go (ok o, s') (kept, found) =
          let e : row ≡ o = subst (λ r. r ≡ o) is found in
          subst (λ r. Loads (transpose (map_account_row code) r, s')) e (mapped code s' kept)
      go (err e, s') kept = kept

  answer-Finds :
      (missing : Text) (r : Result CbsaError (Option AccountDetails)) (s : Session)
      → Loads (r, s)
      → Finds (answer missing r, s)
  answer-Finds missing (ok (some a)) s (kept, e) = (kept, e, λ h. ground arith)
  answer-Finds missing (ok none) s (kept, e) = (kept, e, λ h. refl)
  answer-Finds missing (err e) s kept = kept

module _ ⦃c : Crates⦄ where
  inquire_valid-Finds :
      (sortcode : Text) (number : ℤ) (s : Session)
      → Finds s.tables (wanted sortcode number s.tables) (inquire_valid sortcode number s)
  unfolding inquire_valid find_last_account load_account load_last_account
      find_by_sortcode_and_account_number find_last_by_sortcode
  inquire_valid-Finds sortcode number s = elim (Bool-cases (int_eq number last_account_number)) [
    | inl last ↦ rw last (
        let (r, s') = load_last_account sortcode s in
        answer-Finds s.tables _ (codes "No accounts exist.") r s'
          (load_with-Loads s.tables _ (λ t. last_account sortcode t.account) _ refl s refl))
    | inr exact ↦ rw exact (
        let (r, s') = load_account sortcode number s in
        answer-Finds s.tables _
          (codes "Account number " ++ (show_int number ++ codes " was not found.")) r s'
          (load_with-Loads s.tables _ (λ t. find_account sortcode number t.account) _ refl s refl))
  ]

  -- An inquiry of an account changes no table, however it ends; a result that it returns reports
  -- exactly the row that the number names, or for 99999999 the last account of the branch, with its
  -- money rounded, and reports no account, with code 1, exactly when there is no such row.
  pub inquire-Finds :
      (sortcode : Text) (request : InqaccRequest) (s : Session)
      → Finds s.tables
          (wanted sortcode request.account_number s.tables)
          (inquire sortcode request s)
  unfolding inquire
  inquire-Finds sortcode request s =
      when_valid-cases (Finds s.tables (wanted sortcode request.account_number s.tables))
        (validate_sortcode sortcode >> validate_account_number request.account_number)
        (inquire_valid sortcode request.account_number) s (λ e. refl)
        (λ _. inquire_valid-Finds sortcode request.account_number s)
