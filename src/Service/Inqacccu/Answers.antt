-- ===== src/Service/Inqacccu/Answers.antt =====
-- What an inquiry of the accounts of a customer reports.
use cbsa_rust.Prelude.{
  ℕ, ◌≡◌, refl, sym, ap, ◌∙◌, Bool, true, false, Option, some, List, [], ◌∷◌, map, Result, ok, err,
  map_err, ◌>>=◌, ◌>>◌, if◌then◌else◌, Bool-cases, inl, inr, arith, subst,
}
use cbsa_rust.Prelude.Int.{ℤ}
use cbsa_rust.Text.{Text, codes, trim, trim_start, trim_end, trim_cons, is_whitespace, is_empty}
use cbsa_rust.Crates.{Crates}
use cbsa_rust.Domain.Account
use cbsa_rust.Domain.Account.{AccountDetails}
use cbsa_rust.Error.{CbsaError}
use cbsa_rust.Db.Tables.{AccountRow, Tables}
use cbsa_rust.Db.Session.{Session, branch, branch_cases, pure, execute}
use cbsa_rust.Db.Retry.{with_retry}
use cbsa_rust.Db.Retry.Reads.{IsRead, with_retry-IsRead}
use cbsa_rust.Db.Sql.Query.{query, query_tables, query_effect}
use cbsa_rust.Db.Sql.Customers.{
  find_customer, is_found, accounts_of, select_customer_exists, select_accounts_of,
}
use cbsa_rust.Repository.Account.{stored}
use cbsa_rust.Repository.Frame.Atomic.{execute-pure_tables}
use cbsa_rust.Repository.Read.{collect}
use cbsa_rust.Repository.Read.Laws.{collect_cons}
use cbsa_rust.Repository.Inqacccu.{customer_exists, find_by_sortcode_and_customer_number}
use cbsa_rust.Service.Calls.{when_valid-cases}
use cbsa_rust.Service.Checks.{validate_sortcode}
use cbsa_rust.Service.Inqacc.{plain_fields}
use cbsa_rust.Service.Inqacccu.{
  InqacccuRequest, InqacccuResult, LoadedCustomerAccounts, customer_found_rows,
  customer_not_found_rows, success_fields, failure_fields, not_found_code, not_found_message,
  customer_not_found, customer_accounts, map_account_row, read_failure, load_once, committed,
  answer_loaded, inquire_valid, inquire, is_reserved_customer_number, validate_customer_number,
}
use cbsa_rust.Service.Inqacccu

-- A text that starts with a character that is no space is not blank.
trim_end_starts :
    (c : ℕ) (cs : Text) → is_whitespace c ≡ false → is_empty (trim_end (c ∷ cs)) ≡ false
unfolding trim_end
trim_end_starts c cs h = go (trim_end cs)
  where
    go : (rest : Text) → is_empty (trim_cons c rest) ≡ false
    go [] = rw h refl
    go (d ∷ ds) = refl

not_blank : (c : ℕ) (cs : Text) → is_whitespace c ≡ false → is_empty (trim (c ∷ cs)) ≡ false
unfolding trim trim_start
not_blank c cs h = rw h (trim_end_starts c cs h)

module _ ⦃c : Crates⦄ where
  -- `expect` never panics: the two kinds of result pass the checks of `InqacccuResult::new`.
  customer_accounts_lem :
      (number : ℤ) (accounts : List AccountDetails)
      → customer_accounts number accounts ≡ some (success_fields number accounts)
  unfolding customer_accounts Inqacccu.new
  customer_accounts_lem number accounts = refl

  customer_not_found_lem :
      (number : ℤ)
      → customer_not_found number
        ≡ some (failure_fields not_found_code number false (not_found_message number))
  unfolding customer_not_found Inqacccu.new codes is_whitespace
  customer_not_found_lem number = rw (not_blank b'C' _ refl) refl

  abbrev pub reported : AccountRow → AccountDetails
  reported row = stored (plain_fields row)

  reported_as : (r : AccountRow) (a : AccountDetails) → map_account_row r ≡ ok a → a ≡ reported r
  unfolding map_account_row Account.new
  reported_as r a e = ground arith

  collected :
      (rows : List AccountRow) (accounts : List AccountDetails)
      → collect map_account_row rows ≡ ok accounts
      → accounts ≡ map reported rows
  unfolding collect
  collected [] [] e = refl
  collected [] (a ∷ accounts) e = ground arith
  collected (r ∷ rows) all e =
      let (a, rest, first, then_, same) = collect_cons map_account_row r rows all e in
      same
      ∙ ap (λ b. b ∷ rest) (reported_as r a first)
      ∙ ap (λ l. reported r ∷ l) (collected rows rest then_)

  -- What the tables say of a customer's accounts.
  abbrev pub loaded_of : Text → ℤ → Tables → LoadedCustomerAccounts
  loaded_of sortcode number t =
      if is_found (find_customer sortcode number t.customer)
      then customer_found_rows (accounts_of sortcode number t.account)
      else customer_not_found_rows

  abbrev pub absent : ℤ → InqacccuResult
  absent number = failure_fields not_found_code number false (not_found_message number)

  -- The result of an inquiry that does not end in an error.
  abbrev pub described : Text → ℤ → Tables → InqacccuResult
  described sortcode number t =
      if is_reserved_customer_number number
      then absent number
      else if is_found (find_customer sortcode number t.customer)
      then success_fields number (map reported (accounts_of sortcode number t.account))
      else absent number

module _ ⦃c : Crates⦄ (t : Tables) (sortcode : Text) (number : ℤ) where
  abbrev IsLoaded : Result c.SqlxError LoadedCustomerAccounts × Session → Type 0
  IsLoaded = IsRead (loaded_of sortcode number) t

  committed-IsLoaded :
      (loaded : LoadedCustomerAccounts) (s : Session)
      → s.tables ≡ t
      → loaded_of sortcode number t ≡ loaded
      → IsLoaded (committed loaded s)
  committed-IsLoaded loaded s same is =
      branch_cases (execute (pure tt) s) _ _ IsLoaded
        (λ _ s' run. (subst (λ x. x.1.tables ≡ s.tables) run (execute-pure_tables s) ∙ same, is))
        (λ e s' failed. subst (λ x. x.1.tables ≡ s.tables) failed (execute-pure_tables s) ∙ same)

  after_exists :
      (exists : Bool) (s : Session)
      → s.tables ≡ t
      → is_found (find_customer sortcode number t.customer) ≡ exists
      → IsLoaded (
          if exists
          then branch
              (find_by_sortcode_and_customer_number sortcode number s)
              (λ rows s3. committed (customer_found_rows rows) s3)
              (λ e s3. (err e, s3))
          else committed customer_not_found_rows s)
  unfolding find_by_sortcode_and_customer_number select_accounts_of
  after_exists false s same e = committed-IsLoaded _ s same (rw e refl)
  after_exists true s same e =
      let read = λ (u : Tables). accounts_of sortcode number u.account in
      branch_cases (query read s) _ _ IsLoaded
        (λ rows s' run.
          let (kept, found) = query_effect read s s' rows run in
          committed-IsLoaded _ s' (kept ∙ same)
            (rw e (ap customer_found_rows (ap read (sym same) ∙ found))))
        (λ f s' failed. subst (λ x. x.1.tables ≡ s.tables) failed (query_tables read s) ∙ same)

  load_once-IsLoaded : (s : Session) → s.tables ≡ t → IsLoaded (load_once sortcode number s)
  unfolding load_once customer_exists select_customer_exists
  load_once-IsLoaded s same =
      let read = λ (u : Tables). is_found (find_customer sortcode number u.customer) in
      branch_cases (execute (pure tt) s) _ _ IsLoaded
        (λ _ s1 begun.
          let same1 : s1.tables ≡ t =
            subst (λ x. x.1.tables ≡ s.tables) begun (execute-pure_tables s) ∙ same in
          branch_cases (query read s1) _ _ IsLoaded
            (λ exists s2 run.
              let (kept, found) = query_effect read s1 s2 exists run in
              after_exists exists s2 (kept ∙ same1) (ap read (sym same1) ∙ found))
            (λ f s2 failed.
              subst (λ x. x.1.tables ≡ s1.tables) failed (query_tables read s1) ∙ same1))
        (λ e s1 failed. subst (λ x. x.1.tables ≡ s.tables) failed (execute-pure_tables s) ∙ same)

  -- The tables are as they were, `expect` did not panic, and the result is the one given.
  abbrev pub Ends : InqacccuResult → Result CbsaError (Option InqacccuResult) × Session → Type 0
  Ends d (ok r, s) = (s.tables ≡ t) × (r ≡ some d)
  Ends d (err e, s) = s.tables ≡ t

  with_accounts :
      (x : Result CbsaError (List AccountDetails)) (s : Session)
      → s.tables ≡ t
      → collect map_account_row (accounts_of sortcode number t.account) ≡ x
      → Ends
          (success_fields number (map reported (accounts_of sortcode number t.account)))
          (x >>= λ accounts. ok (customer_accounts number accounts), s)
  with_accounts (ok accounts) s same e = (
    same,
    customer_accounts_lem number accounts
        ∙ ap (λ l. some (success_fields number l))
            (collected (accounts_of sortcode number t.account) accounts e),
  )
  with_accounts (err f) s same e = same

  answer_loaded-Ends :
      (s : Session)
      → s.tables ≡ t
      → is_reserved_customer_number number ≡ false
      → Ends (described sortcode number t) (answer_loaded number (loaded_of sortcode number t), s)
  unfolding answer_loaded
  answer_loaded-Ends s same free =
      elim (Bool-cases (is_found (find_customer sortcode number t.customer))) [
        | inr missing ↦ rw (missing, free) (same, customer_not_found_lem number)
        | inl found ↦ rw (found, free) (with_accounts _ s same refl)
      ]

  read-Ends :
      (x : Result c.SqlxError LoadedCustomerAccounts × Session)
      → is_reserved_customer_number number ≡ false
      → IsLoaded x
      → Ends (described sortcode number t) (map_err read_failure x.0 >>= answer_loaded number, x.1)
  read-Ends (ok loaded, s) free (same, is) =
      subst (λ l. Ends (described sortcode number t) (answer_loaded number l, s)) is
        (answer_loaded-Ends s same free)
  read-Ends (err e, s) free same = same

  inquire_valid-Ends :
      (s : Session)
      → s.tables ≡ t
      → Ends (described sortcode number t) (inquire_valid sortcode number s)
  unfolding inquire_valid
  inquire_valid-Ends s same = go (is_reserved_customer_number number) refl
    where
      described_reserved :
          is_reserved_customer_number number ≡ true → described sortcode number t ≡ absent number
      described_reserved e = rw e refl

      go :
          (reserved : Bool)
          → is_reserved_customer_number number ≡ reserved
          → Ends (described sortcode number t) (
              if reserved
              then (ok (customer_not_found number), s)
              else (let (r, s') = with_retry (load_once sortcode number) s in
                  (map_err read_failure r >>= answer_loaded number, s')))
      go true e = (same, customer_not_found_lem number ∙ ap some (sym (described_reserved e)))
      go false e = read-Ends (with_retry (load_once sortcode number) s) e (
          with_retry-IsRead (loaded_of sortcode number) t (load_once sortcode number)
            load_once-IsLoaded s same)

module _ ⦃c : Crates⦄ where
  -- An inquiry of the accounts of a customer changes no table, however it ends, and never panics. A
  -- result that it returns is exactly the described one: the first 20 accounts of the customer in the
  -- order of their numbers, with the money rounded; or no account and code 1 when there is no such
  -- customer or the number is 0 or 9999999999.
  pub inquire-Ends :
      (sortcode : Text) (request : InqacccuRequest) (s : Session)
      → Ends s.tables sortcode request.customer_number
          (described sortcode request.customer_number s.tables)
          (inquire sortcode request s)
  unfolding inquire
  inquire-Ends sortcode request s =
      when_valid-cases
        (Ends s.tables sortcode request.customer_number
          (described sortcode request.customer_number s.tables))
        (validate_sortcode sortcode >> validate_customer_number request.customer_number)
        (inquire_valid sortcode request.customer_number) s (λ e. refl)
        (λ _. inquire_valid-Ends s.tables sortcode request.customer_number s refl)
