-- ===== src/Service/Crecust/Registers.antt =====
-- The theorem about the whole service call, whatever the request is and however it ends.
use cbsa_rust.Prelude.{
  ℕ, ◌≤◌, ◌≡◌, refl, true, false, Result, ok, err, map_err, Option, none, some, List, ◌>>◌,
  Bool-cases, inl, inr,
}
use cbsa_rust.Prelude.Int.{pos, ltb_ℤ, ◌-ℤ◌}
use cbsa_rust.Text.{Text}
use cbsa_rust.Crates.{Crates}
use cbsa_rust.Domain.Customer.{CustomerDetails, CustomerProfile, new_profile}
use cbsa_rust.Domain.Laws.{new_profile_iff}
use cbsa_rust.Error.{CbsaError, validation}
use cbsa_rust.Db.Tables.{Tables}
use cbsa_rust.Db.Session.{Session}
use cbsa_rust.Repository.Frame.Succeeds.{Returns_mono}
use cbsa_rust.Repository.Crecust.{CreateCustomerCommand, create_customer, create_customer_once}
use cbsa_rust.Repository.Crecust.Registered.{Registers, create_customer-Registers}
use cbsa_rust.Service.Calls.{Reports, run_transaction-Reports}
use cbsa_rust.Service.Checks.{validate_sortcode}
use cbsa_rust.Service.Titles.{created_title}
use cbsa_rust.Service.Crecust.Credit.{Reply, CreditDecision, evaluate_credit}
use cbsa_rust.Service.Crecust.Credit.Mean.{evaluate_credit-between, anything-IsBetween}
use cbsa_rust.Service.Crecust.{
  CrecustRequest, CrecustResult, succeeded, failed, DateOfBirthParseFailure, Checked,
  validate_date_of_birth, parse_date_of_birth, check_credit, check_birth, check_parsed,
  check_profile, check, result_of, create, succeeded,
}

module _ ⦃c : Crates⦄ (sortcode : Text) (request : CrecustRequest) (now : c.DateTime) where
  -- What the checks have established of the command that goes to the repository for a request.
  pub record Passes (command : CreateCustomerCommand) : Type 0 where
    pub branch : command.sortcode ≡ sortcode
    pub named : command.name ≡ request.name
    pub addressed : command.address ≡ request.address
    pub born : parse_date_of_birth request.date_of_birth ≡ ok command.date_of_birth
    pub dated : command.transaction_date ≡ c.date_naive now
    pub title : created_title command.name ≡ true
    pub not_ancient : ltb_ℤ (c.year command.date_of_birth) (pos 1601) ≡ false
    pub not_old :
        ltb_ℤ (pos 150) (c.year command.transaction_date -ℤ c.year command.date_of_birth) ≡ false
    pub not_future : c.date_lt command.transaction_date command.date_of_birth ≡ false
    pub score_ge : 1 ≤ command.credit_score
    pub score_le : command.credit_score ≤ 998

  -- A check that ends without a command reports no customer.
  abbrev IsChecked : Checked → Type 0
  IsChecked (Checked.ends (ok r)) = r.customer ≡ none
  IsChecked (Checked.ends (err e)) = Unit
  IsChecked (Checked.goes_on command) = Passes command

module _ ⦃c : Crates⦄ where
  -- A date of birth that raises no failure.
  record IsBirth (today date : c.Date) : Type 0 where
    not_ancient : ltb_ℤ (c.year date) (pos 1601) ≡ false
    not_old : ltb_ℤ (pos 150) (c.year today -ℤ c.year date) ≡ false
    not_future : c.date_lt today date ≡ false

  abbrev BirthChecked : c.Date → c.Date → Option CrecustResult → Type 0
  BirthChecked today date (some r) = r.customer ≡ none
  BirthChecked today date none = IsBirth today date

  birth_checked :
      (today date : c.Date) → BirthChecked today date (validate_date_of_birth today date)
  unfolding validate_date_of_birth
  birth_checked today date = elim (Bool-cases (ltb_ℤ (c.year date) (pos 1601))) [
    | inl ancient ↦ rw ancient refl
    | inr a ↦ elim (Bool-cases (ltb_ℤ (pos 150) (c.year today -ℤ c.year date))) [
      | inl old ↦ rw (a, old) refl
      | inr b ↦ elim (Bool-cases (c.date_lt today date)) [
        | inl future ↦ rw (a, b, future) refl
        | inr d ↦ rw (a, b, d) (record { not_ancient = a; not_old = b; not_future = d })
      ]
    ]
  ]

module _ ⦃c : Crates⦄ (sortcode : Text) (request : CrecustRequest) (now : c.DateTime)
    (profile : CustomerProfile) (named : profile.name ≡ request.name)
    (addressed : profile.address ≡ request.address) where
  credit-IsChecked :
      (date : c.Date) (replies : List Reply) (offset : ℕ) (decision : Option CreditDecision)
      → evaluate_credit replies (c.date_naive now) offset ≡ decision
      → created_title profile.name ≡ true
      → parse_date_of_birth request.date_of_birth ≡ ok date
      → IsBirth (c.date_naive now) date
      → IsChecked sortcode request now (check_credit sortcode profile date decision now)
  credit-IsChecked date replies offset none e title born birth = refl
  credit-IsChecked date replies offset (some decision) e title born birth =
      let (low, top, _) =
        evaluate_credit-between 1 998 replies (c.date_naive now) offset decision
          (anything-IsBetween replies) e in
      record {
        branch = refl;
        named = named;
        addressed = addressed;
        born = born;
        dated = refl;
        title = title;
        not_ancient = birth.not_ancient;
        not_old = birth.not_old;
        not_future = birth.not_future;
        score_ge = low;
        score_le = top;
      }

  parsed-IsChecked :
      (r : Result DateOfBirthParseFailure c.Date) (replies : List Reply) (offset : ℕ)
      → created_title profile.name ≡ true
      → parse_date_of_birth request.date_of_birth ≡ r
      → IsChecked sortcode request now (check_parsed sortcode profile r replies offset now)
  parsed-IsChecked (err DateOfBirthParseFailure.too_old) replies offset title born = refl
  parsed-IsChecked (err DateOfBirthParseFailure.invalid) replies offset title born = refl
  parsed-IsChecked (ok date) replies offset title born =
      go (validate_date_of_birth (c.date_naive now) date) (birth_checked (c.date_naive now) date)
    where
      go :
          (failure : Option CrecustResult)
          → BirthChecked (c.date_naive now) date failure
          → IsChecked sortcode request now (
              check_birth sortcode profile date failure
                (evaluate_credit replies (c.date_naive now) offset)
                now)
      go (some r) e = e
      go none birth = credit-IsChecked date replies offset _ refl title born birth

  profile-IsChecked :
      (replies : List Reply) (offset : ℕ)
      → IsChecked sortcode request now
          (check_profile sortcode profile request.date_of_birth replies offset now)
  unfolding check_profile
  profile-IsChecked replies offset = elim (Bool-cases (created_title profile.name)) [
    | inl title ↦
        rw title
          (parsed-IsChecked (parse_date_of_birth request.date_of_birth) replies offset title refl)
    | inr other ↦ rw other refl
  ]

module _ ⦃c : Crates⦄ (sortcode : Text) (request : CrecustRequest) (now : c.DateTime) where
  check-IsChecked :
      (replies : List Reply) (offset : ℕ)
      → IsChecked sortcode request now (check sortcode request replies offset now)
  unfolding check
  check-IsChecked replies offset =
      go (validate_sortcode sortcode) (new_profile request.name request.address) refl
    where
      go :
          (first : Result CbsaError (Unit {0})) (second : Result Text CustomerProfile)
          → new_profile request.name request.address ≡ second
          → IsChecked sortcode request now (
              let checked : Result CbsaError CustomerProfile = first >> map_err validation second in
              elim checked as (λ _. Checked) [
                | ok profile ↦
                    check_profile sortcode profile request.date_of_birth replies offset now
                | err e ↦ Checked.ends (err e)
              ])
      go (err e) second made = tt
      go (ok _) (err e) made = tt
      go (ok _) (ok profile) made =
          let (_, _, _, named, addressed) =
            (new_profile_iff request.name request.address profile).0 made in
          profile-IsChecked sortcode request now profile named addressed replies offset

module _ ⦃c : Crates⦄ (sortcode : Text) (request : CrecustRequest) (now : c.DateTime)
    (before : Tables) where
  -- The customer was registered by a command that passed the checks.
  abbrev pub RegisteredBy : CustomerDetails → Tables → Type 0
  RegisteredBy d after =
      (command : CreateCustomerCommand) × Passes sortcode request now command
      × Registers command before d after

  abbrev pub IsRegistered : Result CbsaError CrecustResult × Session → Type 0
  IsRegistered = Reports (λ r. r.customer) before RegisteredBy

  ended :
      (r : Result CbsaError CrecustResult) (s : Session)
      → s.tables ≡ before
      → IsChecked sortcode request now (Checked.ends r)
      → IsRegistered (r, s)
  ended (ok r) s same e = rw e same
  ended (err e) s same h = same

module _ ⦃c : Crates⦄ where
  goes_on-IsRegistered :
      (sortcode : Text) (request : CrecustRequest) (now : c.DateTime)
      (command : CreateCustomerCommand) (s : Session)
      → Passes sortcode request now command
      → let (r, s') = create_customer command s in
        IsRegistered sortcode request now s.tables (result_of r, s')
  unfolding create_customer
  goes_on-IsRegistered sortcode request now command s passes =
      run_transaction-Reports (λ r. r.customer) succeeded failed (create_customer_once command) _ s
        (RegisteredBy sortcode request now s.tables) (λ a. refl) (λ code message. refl)
        (Returns_mono (create_customer command s) _ _ (λ a s' h. (command, passes, h))
          (create_customer-Registers command s))

  -- A call of the service that creates a customer either reports the customer, and then it was created
  -- for the branch, name, address and date of birth of the request with the next number of the counter,
  -- its name starts with one of the titles, its date of birth is not in the future, the calendar year
  -- of it is 1601 or later and at most 150 below the calendar year of today, and its credit score is
  -- between 1 and 998; or it reports none or ends in an error, and then no table has changed; for every
  -- request, whatever the credit agencies answer, and for every pattern of database failures.
  pub create-IsRegistered :
      (sortcode : Text) (request : CrecustRequest) (replies : List Reply) (offset : ℕ)
      (now : c.DateTime) (s : Session)
      → IsRegistered sortcode request now s.tables (create sortcode request replies offset now s)
  unfolding create
  create-IsRegistered sortcode request replies offset now s =
      go (check sortcode request replies offset now)
        (check-IsChecked sortcode request now replies offset)
    where
      go :
          (checked : Checked)
          → IsChecked sortcode request now checked
          → IsRegistered sortcode request now s.tables
              (elim checked as (λ _. Result CbsaError CrecustResult × Session) [
                | Checked.ends r ↦ (r, s)
                | Checked.goes_on command ↦
                    let (r, s') = create_customer command s in (result_of r, s')
              ])
      go (Checked.ends r) h = ended sortcode request now s.tables r s refl h
      go (Checked.goes_on command) passes =
          goes_on-IsRegistered sortcode request now command s passes
