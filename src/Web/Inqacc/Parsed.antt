-- ===== src/Web/Inqacc/Parsed.antt =====
-- The path of the inquiry of an account.
use cbsa_rust.Prelude.{
  ◌≡◌, refl, inl, inr, ◌⊎◌, Bool-cases, arith, Option, none, some, Result, ok, err, ◌>>=◌,
  if◌then◌else◌,
}
use cbsa_rust.Prelude.Int.{ℤ, pos, negsuc, ◌≤ℤ◌, contains}
use cbsa_rust.Text.{Text, codes}
use cbsa_rust.Text.Parse.{parse_i64}
use cbsa_rust.Crates.{Crates}
use cbsa_rust.Error.{CbsaError, validation, into_response, status_and_problem, problem_response}
use cbsa_rust.Service.Inqacc.{InqaccRequest}
use cbsa_rust.Web.Http.{parse_number}
use cbsa_rust.Web.Inqacc.{try_from}

-- The path is a number from 0 to 99999999, or it is not.
abbrev pub IsInRange : Text → ℤ → Type 0
IsInRange path n = (parse_i64 path ≡ some n) × (pos 0 ≤ℤ n) × (n ≤ℤ pos 99_999_999)

abbrev pub IsOutside : Text → Type 0
IsOutside path =
    (parse_i64 path ≡ none)
    ⊎ ((n : ℤ) × (parse_i64 path ≡ some n) × ((n ≤ℤ negsuc 0) ⊎ (pos 100_000_000 ≤ℤ n)))

module _ ⦃c : Crates⦄ where
  -- The parse of a path.
  abbrev pub IsParsed : Text → Result CbsaError InqaccRequest → Type 0
  IsParsed path (ok request) = IsInRange path request.account_number
  IsParsed path (err e) = IsOutside path × ((into_response e).status ≡ 400)

  pub try_from-IsParsed : (path : Text) → IsParsed path (try_from path)
  unfolding try_from parse_number into_response status_and_problem problem_response
  try_from-IsParsed path = go (parse_i64 path) refl
    where
      ranged :
          (n : ℤ)
          → parse_i64 path ≡ some n
          → IsParsed path (
              (if contains (pos 0) (pos 99_999_999) n
                then ok n
                else err (
                    validation (
                      c.invalid_field "account_number"
                        (codes "account_number must be between 0 and 99999999"))))
              >>= λ m. ok (record { account_number = m }))
      ranged n e = elim (Bool-cases (contains (pos 0) (pos 99_999_999) n)) [
        | inl within ↦ rw within (e, ground arith, ground arith)
        | inr outside ↦ rw outside (inr (n, e, ground arith), refl)
      ]

      go :
          (o : Option ℤ)
          → parse_i64 path ≡ o
          → IsParsed path (
              elim o as (λ _. Result CbsaError ℤ) [
                | none ↦ err (
                    validation
                      (codes "account_number must be a base-10 integer between 0 and 99999999"))
                | some n ↦
                    if contains (pos 0) (pos 99_999_999) n
                    then ok n
                    else err (
                        validation (
                          c.invalid_field "account_number"
                            (codes "account_number must be between 0 and 99999999")))
              ]
              >>= λ m. ok (record { account_number = m }))
      go none e = (inl e, refl)
      go (some n) e = ranged n e
