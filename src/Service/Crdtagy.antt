-- ===== src/Service/Crdtagy.antt =====
-- `service/crdtagy.rs`: the dummy credit agencies. The clock that seeds the generator is an argument,
-- and the wait for the delay is left out.
pub mod Score
use cbsa_rust.Prelude.{
  ℕ, ◌+◌, ◌-◌, ◌*◌, ◌%◌, ◌^◌, String, Result, ok, err, map_ok, ◌>>=◌, ◌>>◌, if◌then◌else◌, ltb,
  ◌==◌, length,
}
use cbsa_rust.Text.{Text, codes, trim, is_empty}
use cbsa_rust.Crates.{Crates}
use cbsa_rust.Error.{CbsaError, validation}

abbrev pub min_delay_seconds : ℕ
min_delay_seconds = 1

abbrev pub max_delay_seconds_exclusive : ℕ
max_delay_seconds_exclusive = 3

abbrev pub max_credit_score_exclusive : ℕ
max_credit_score_exclusive = 999

-- `date_of_birth` is a u32, YYYYMMDD or DDMMYYYY as the caller sends it.
pub record CreditAgencyRequest : Type 0 where
  pub name : Text
  pub address : Text
  pub date_of_birth : ℕ

pub data CreditAgency : Type 0 where
  one two three four five : CreditAgency

unfoldable pub number : CreditAgency → ℕ
number one = 1
number two = 2
number three = 3
number four = 4
number five = 5

unfoldable pub program_name : CreditAgency → String
program_name one = "CRDTAGY1"
program_name two = "CRDTAGY2"
program_name three = "CRDTAGY3"
program_name four = "CRDTAGY4"
program_name five = "CRDTAGY5"

unfoldable pub container_name : CreditAgency → String
container_name one = "CIPA"
container_name two = "CIPB"
container_name three = "CIPC"
container_name four = "CIPD"
container_name five = "CIPE"

-- `Lcg64`: the new state is also the number that is returned.
pub record Lcg64 : Type 0 where
  pub state : ℕ

unfoldable pub next_u64 : Lcg64 → ℕ × Lcg64
next_u64 rng =
    let state = (rng.state * 6_364_136_223_846_793_005 % 2 ^ 64 + 1) % 2 ^ 64 in
    (state, record { state = state })

-- The delay in seconds.
pub record SeededOutcome : Type 0 where
  pub delay : ℕ
  pub score : ℕ

-- The two draws; the first is for the delay, and `as u16` keeps 16 bits.
unfoldable pub draw : ℕ → SeededOutcome
draw seed =
    let (first, rng) = next_u64 (record { state = seed }) in
    let (second, _) = next_u64 rng in
    record {
      delay = first % (max_delay_seconds_exclusive - min_delay_seconds) + min_delay_seconds;
      score = (second % (max_credit_score_exclusive - 1) + 1) % 2 ^ 16;
    }

module _ ⦃c : Crates⦄ where
  -- `TryFrom<u8>`.
  unfoldable pub try_from : ℕ → Result CbsaError CreditAgency
  try_from value =
      if value == 1
      then ok one
      else if value == 2
      then ok two
      else if value == 3
      then ok three
      else if value == 4
      then ok four
      else if value == 5
      then ok five
      else err (validation (codes "agency number must be between 1 and 5"))

  unfoldable pub validate_request : CreditAgencyRequest → Result CbsaError (Unit {0})
  validate_request request =
      if is_empty (trim request.name)
      then err (validation (codes "name must not be blank"))
      else if ltb 60 (length request.name)
      then err (validation (codes "name must be at most 60 characters long"))
      else if ltb 160 (length request.address)
      then err (validation (codes "address must be at most 160 characters long"))
      else if ltb 99_999_999 request.date_of_birth
      then err (validation (codes "date_of_birth must be between 0 and 99999999"))
      else ok tt

  unfoldable pub seeded_outcome :
      CreditAgency → CreditAgencyRequest → ℕ → Result CbsaError SeededOutcome
  seeded_outcome agency request seed = map_ok (λ _. draw seed) (validate_request request)

  unfoldable pub request_score_with_seed :
      CreditAgency → CreditAgencyRequest → ℕ → Result CbsaError ℕ
  request_score_with_seed agency request seed =
      map_ok (λ outcome. outcome.score) (seeded_outcome agency request seed)

  -- `seed_of` is `runtime_seed`, which reads the clock.
  unfoldable pub request_score :
      (CreditAgency → ℕ) → CreditAgency → CreditAgencyRequest → Result CbsaError ℕ
  request_score seed_of agency request =
      validate_request request >> request_score_with_seed agency request (seed_of agency)

  unfoldable pub request_score_by_number :
      (CreditAgency → ℕ) → ℕ → CreditAgencyRequest → Result CbsaError ℕ
  request_score_by_number seed_of agency_number request = do
    agency ← try_from agency_number
    request_score seed_of agency request
