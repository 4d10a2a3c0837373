-- ===== src/Service/Inqcust/Answers.antt =====
-- What an inquiry of a customer reports.
use cbsa_rust.Prelude.{
  ℕ, zero, suc, ◌≡◌, refl, sym, ap, ◌∙◌, Option, none, some, Result, ok, err, map_err, map_ok, ◌>>◌,
  if◌then◌else◌, Bool-cases, inl, inr, subst, ◌++◌,
}
use cbsa_rust.Prelude.Int.{ℤ, pos, int_eq, ltb_ℤ}
use cbsa_rust.Text.{Text, codes}
use cbsa_rust.Text.Decimal.{show_int}
use cbsa_rust.Crates.{Crates}
use cbsa_rust.Domain.Customer.{CustomerDetails}
use cbsa_rust.Error.{CbsaError}
use cbsa_rust.Db.Tables.{CustomerRow, Tables}
use cbsa_rust.Db.Session.{Session, branch_cases, pure, execute}
use cbsa_rust.Db.Sql.Query.{query, query_tables, query_effect}
use cbsa_rust.Db.Sql.Customers.{find_customer, last_customer, select_customer, select_last_customer}
use cbsa_rust.Db.Sql.Customers.Effects.{find_customer_key}
use cbsa_rust.Repository.Frame.Atomic.{execute-pure_tables}
use cbsa_rust.Repository.Read.{transpose, load}
use cbsa_rust.Repository.Customer.{into_customer}
use cbsa_rust.Repository.Customer.Laws.{IsCustomerOf, into_customer-IsCustomerOf}
use cbsa_rust.Repository.Inqcust.{find_by_sortcode_and_customer_number, find_last_by_sortcode}
use cbsa_rust.Service.Calls.{when_valid-cases}
use cbsa_rust.Service.Checks.{validate_sortcode}
use cbsa_rust.Service.Inqcust.{
  InqcustRequest, InqcustResult, Generator, succeeded, read_failure, load_customer,
  load_last_customer, answer, no_customers_exist, find_last_customer, draw, from_highest,
  find_random_customer, inquire_with, inquire_valid, inquire, validate_customer_number,
  random_customer_number, last_customer_number, random_retry_limit,
}

-- The three ways to ask: 0 for one at random, 9999999999 for the last one, and a number.
pub data Asked : Type 0 where
  random last exact : Asked

abbrev pub asked : ℤ → Asked
asked number =
    if int_eq number random_customer_number
    then random
    else if int_eq number last_customer_number
    then last
    else exact

module _ ⦃c : Crates⦄ (t : Tables) where
  -- The customer that a row stands for, or none where there is no row.
  abbrev pub IsRowOf : Option CustomerRow → Option CustomerDetails → Type 0
  IsRowOf row none = row ≡ none
  IsRowOf row (some d) = (r : CustomerRow) × (row ≡ some r) × IsCustomerOf r d

  abbrev pub Loads :
      Option CustomerRow → Result CbsaError (Option CustomerDetails) × Session → Type 0
  Loads row (ok o, s) = (s.tables ≡ t) × IsRowOf row o
  Loads row (err e, s) = s.tables ≡ t

  converted :
      (row : Option CustomerRow) (s : Session)
      → s.tables ≡ t
      → Loads row (map_err read_failure (transpose into_customer row), s)
  converted none s same = (same, refl)
  converted (some r) s same = go (into_customer r) refl
    where
      go :
          (x : Result CbsaError CustomerDetails)
          → into_customer r ≡ x
          → Loads (some r) (map_err read_failure (map_ok some x), s)
      go (ok d) e = (same, (r, refl, into_customer-IsCustomerOf r d e))
      go (err f) e = same

  load-Loads :
      (read : Tables → Option CustomerRow) (s : Session)
      → s.tables ≡ t
      → Loads (read t) (
          let (r, s') = load (query read) (transpose into_customer) s in
          (map_err read_failure r, s'))
  unfolding load
  load-Loads read s same =
      branch_cases {R = Result CbsaError (Option CustomerDetails) × Session} (query read s) _ _
        (λ x. Loads (read t) (map_err read_failure x.0, x.1))
        (λ row s' run.
          let (kept, found) = query_effect read s s' row run in
          let here : read t ≡ row = ap read (sym same) ∙ found in
          subst (λ o. Loads o (map_err read_failure (transpose into_customer row), s')) (sym here)
            (converted row s' (kept ∙ same)))
        (λ e s' failed. subst (λ x. x.1.tables ≡ t) failed (query_tables read s ∙ same))

  load_customer-Loads :
      (sortcode : Text) (number : ℤ) (s : Session)
      → s.tables ≡ t
      → Loads (find_customer sortcode number t.customer) (load_customer sortcode number s)
  unfolding load_customer find_by_sortcode_and_customer_number select_customer
  load_customer-Loads sortcode number s same =
      load-Loads (λ u. find_customer sortcode number u.customer) s same

  load_last_customer-Loads :
      (sortcode : Text) (s : Session)
      → s.tables ≡ t
      → Loads (last_customer sortcode t.customer) (load_last_customer sortcode s)
  unfolding load_last_customer find_last_by_sortcode select_last_customer
  load_last_customer-Loads sortcode s same =
      load-Loads (λ u. last_customer sortcode u.customer) s same

  -- What is reported for each way to ask.
  abbrev pub Reports : Text → ℤ → Asked → Option CustomerDetails → Type 0
  Reports sortcode number random none = Unit
  Reports sortcode number random (some d) =
      IsRowOf (find_customer sortcode d.customer_number t.customer) (some d)
  Reports sortcode number last o = IsRowOf (last_customer sortcode t.customer) o
  Reports sortcode number exact o = IsRowOf (find_customer sortcode number t.customer) o

  -- The tables are as they were, and a result reports what was asked for.
  abbrev pub Answers : Text → ℤ → Asked → Result CbsaError InqcustResult × Session → Type 0
  Answers sortcode number how (ok r, s) = (s.tables ≡ t) × Reports sortcode number how r.customer
  Answers sortcode number how (err e, s) = s.tables ≡ t

  answer-Answers :
      (sortcode : Text) (number : ℤ) (missing : Text)
      (r : Result CbsaError (Option CustomerDetails)) (s : Session)
      → Loads (find_customer sortcode number t.customer) (r, s)
      → Answers sortcode number exact (answer missing r, s)
  answer-Answers sortcode number missing (ok (some d)) s h = h
  answer-Answers sortcode number missing (ok none) s h = h
  answer-Answers sortcode number missing (err e) s h = h

  answer_last-Answers :
      (sortcode : Text) (number : ℤ) (missing : Text)
      (r : Result CbsaError (Option CustomerDetails)) (s : Session)
      → Loads (last_customer sortcode t.customer) (r, s)
      → Answers sortcode number last (answer missing r, s)
  answer_last-Answers sortcode number missing (ok (some d)) s h = h
  answer_last-Answers sortcode number missing (ok none) s h = h
  answer_last-Answers sortcode number missing (err e) s h = h

  -- The row that a number finds has the number of the customer that it stands for.
  drawn :
      (sortcode : Text) (number candidate : ℤ) (d : CustomerDetails)
      → IsRowOf (find_customer sortcode candidate t.customer) (some d)
      → Reports sortcode number random (some d)
  drawn sortcode number candidate d (r, found, is_of) =
      let (_, same) = find_customer_key sortcode candidate t.customer r found in
      (r, rw (is_of.customer_number ∙ same) found, is_of)

  -- One round of the loop, with the rest of the rounds.
  after_draw :
      (sortcode : Text) (number candidate : ℤ)
      (x : Result CbsaError (Option CustomerDetails) × Session)
      (rest : Session → Result CbsaError InqcustResult × Session)
      → ((s : Session) → s.tables ≡ t → Answers sortcode number random (rest s))
      → Loads (find_customer sortcode candidate t.customer) x
      → Answers sortcode number random
          (elim x.0 as (λ _. Result CbsaError InqcustResult × Session) [
            | ok (some customer) ↦ (ok (succeeded customer), x.1)
            | ok none ↦ rest x.1
            | err e ↦ (err e, x.1)
          ])
  after_draw sortcode number candidate (ok (some d), s') rest next (kept, row) =
      (kept, drawn sortcode number candidate d row)
  after_draw sortcode number candidate (ok none, s') rest next (kept, row) = next s' kept
  after_draw sortcode number candidate (err e, s') rest next kept = kept

module _ ⦃c : Crates⦄ (t : Tables) (gen : Generator) (sortcode : Text) (number : ℤ) where
  draw-Answers :
      (left : ℕ) (highest : ℤ) (state : gen.State) (s : Session)
      → s.tables ≡ t
      → Answers t sortcode number random (draw gen left sortcode highest state s)
  unfolding draw
  draw-Answers zero highest state s same = (same, tt)
  draw-Answers (suc left) highest state s same =
      let (candidate, state') = gen.next_customer_number highest state in
      after_draw t sortcode number candidate (load_customer sortcode candidate s) _
        (λ s' kept. draw-Answers left highest state' s' kept)
        (load_customer-Loads t sortcode candidate s same)

  from_highest-Answers :
      (state : gen.State) (r : Result CbsaError (Option CustomerDetails)) (s : Session)
      → Loads t (last_customer sortcode t.customer) (r, s)
      → Answers t sortcode number random (from_highest gen sortcode state r s)
  from_highest-Answers state (ok none) s (same, row) = (same, tt)
  from_highest-Answers state (err e) s same = same
  from_highest-Answers state (ok (some d)) s (same, row) =
      elim (Bool-cases (ltb_ℤ d.customer_number (pos 1))) [
        | inl low ↦ rw low (same, tt)
        | inr high ↦ rw high (draw-Answers random_retry_limit d.customer_number state s same)
      ]

  inquire_with-Answers :
      (state : gen.State) (s : Session)
      → s.tables ≡ t
      → Answers t sortcode number (asked number) (inquire_with gen sortcode number state s)
  unfolding inquire_with find_random_customer find_last_customer
  inquire_with-Answers state s same = elim (Bool-cases (int_eq number random_customer_number)) [
    | inl any ↦ rw any (
        let (r, s') = load_last_customer sortcode s in
        from_highest-Answers state r s' (load_last_customer-Loads t sortcode s same))
    | inr named ↦ elim (Bool-cases (int_eq number last_customer_number)) [
      | inl end ↦
          rw (named, end)
            (let (r, s') = load_last_customer sortcode s in
              answer_last-Answers t sortcode number no_customers_exist r s'
                (load_last_customer-Loads t sortcode s same))
      | inr one ↦
          rw (named, one)
            (let (r, s') = load_customer sortcode number s in
              answer-Answers t sortcode number
                (codes "Customer number " ++ (show_int number ++ codes " was not found.")) r s'
                (load_customer-Loads t sortcode number s same))
    ]
  ]

module _ ⦃c : Crates⦄ (gen : Generator) where
  inquire_valid-Answers :
      (sortcode : Text) (number : ℤ) (state : gen.State) (s : Session)
      → Answers s.tables sortcode number (asked number) (inquire_valid gen sortcode number state s)
  unfolding inquire_valid
  inquire_valid-Answers sortcode number state s =
      branch_cases (execute (pure tt) s) _ _ (Answers s.tables sortcode number (asked number))
        (λ _ s' run.
          inquire_with-Answers s.tables gen sortcode number state s'
            (subst (λ x. x.1.tables ≡ s.tables) run (execute-pure_tables s)))
        (λ e s' failed. subst (λ x. x.1.tables ≡ s.tables) failed (execute-pure_tables s))

  -- An inquiry of a customer changes no table, however it ends, whatever the generator of random
  -- numbers is. A result that it returns reports the customer whose row the number names, or for
  -- 9999999999 the last customer of the branch, and reports none exactly when there is no such row; for
  -- 0, a customer that it reports is the one whose row has that customer's number.
  pub inquire-Answers :
      (sortcode : Text) (request : InqcustRequest) (state : gen.State) (s : Session)
      → Answers s.tables sortcode request.customer_number
          (asked request.customer_number)
          (inquire gen sortcode request state s)
  unfolding inquire
  inquire-Answers sortcode request state s =
      when_valid-cases
        (Answers s.tables sortcode request.customer_number (asked request.customer_number))
        (validate_sortcode sortcode >> validate_customer_number request.customer_number)
        (inquire_valid gen sortcode request.customer_number state) s (λ e. refl)
        (λ _. inquire_valid-Answers sortcode request.customer_number state s)
