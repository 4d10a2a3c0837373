-- ===== src/Service/Crdtagy/Score.antt =====
-- What the credit agencies answer.
use cbsa_rust.Prelude.{
  ℕ, ◌≤◌, ◌+◌, ◌*◌, ◌%◌, ◌^◌, ◌≡◌, ◌↔◌, false, Result, ok, err, arith, length, refl, map_ok, ◌>>=◌,
  ◌>>◌,
}
use cbsa_rust.Text.{trim, is_empty}
use cbsa_rust.Crates.{Crates}
use cbsa_rust.Error.{CbsaError}
use cbsa_rust.Service.Crdtagy.{
  CreditAgencyRequest, CreditAgency, one, two, three, four, five, number, next_u64, draw, try_from,
  validate_request, seeded_outcome, request_score_with_seed, request_score, request_score_by_number,
}

parity_step : (a : ℕ) → (a * 6_364_136_223_846_793_005 % 2 ^ 64 + 1) % 2 ^ 64 % 2 ≡ (a + 1) % 2
parity_step a = omega arith

outcome_of :
    (a b : ℕ)
    → b % 2 ≡ (a + 1) % 2
    → (1 ≤ a % 2 + 1)
      × (a % 2 + 1 ≤ 2)
      × (1 ≤ (b % 998 + 1) % 65536)
      × ((b % 998 + 1) % 65536 ≤ 998)
      × ((a % 2 + 1 + (b % 998 + 1) % 65536) % 2 ≡ 1)
outcome_of a b h = (omega arith, omega arith, omega arith, omega arith, omega arith)

-- The delay is one or two seconds and the score between 1 and 998, for every seed; and the two are
-- never both odd or both even: the delay gives away the parity of the score.
pub draw_lem :
    (seed : ℕ)
    → (1 ≤ (draw seed).delay)
      × ((draw seed).delay ≤ 2)
      × (1 ≤ (draw seed).score)
      × ((draw seed).score ≤ 998)
      × (((draw seed).delay + (draw seed).score) % 2 ≡ 1)
unfolding draw next_u64
draw_lem seed = outcome_of _ _ (parity_step _)

module _ ⦃c : Crates⦄ where
  -- The number of an agency is read back as the agency, and no other number is.
  pub try_from_iff :
      (n : ℕ) (agency : CreditAgency) → (try_from n ≡ ok agency) ↔ (number agency ≡ n)
  unfolding try_from number
  try_from_iff n one = (λ h. ground arith, λ h. ground arith)
  try_from_iff n two = (λ h. ground arith, λ h. ground arith)
  try_from_iff n three = (λ h. ground arith, λ h. ground arith)
  try_from_iff n four = (λ h. ground arith, λ h. ground arith)
  try_from_iff n five = (λ h. ground arith, λ h. ground arith)

  -- What a request must satisfy.
  pub record IsAcceptable (request : CreditAgencyRequest) : Type 0 where
    pub name_given : is_empty (trim request.name) ≡ false
    pub name_le : length request.name ≤ 60
    pub address_le : length request.address ≤ 160
    pub date_le : request.date_of_birth ≤ 99_999_999

  validate_request-ok :
      (request : CreditAgencyRequest) → validate_request request ≡ ok tt → IsAcceptable request
  unfolding validate_request
  validate_request-ok request h = ground arith

  validate_request-err :
      (request : CreditAgencyRequest) (e : CbsaError)
      → validate_request request ≡ err e
      → ¬ IsAcceptable request
  unfolding validate_request
  validate_request-err request e h ok_request = ground arith

  try_from-ok : (n : ℕ) (agency : CreditAgency) → try_from n ≡ ok agency → (1 ≤ n) × (n ≤ 5)
  unfolding try_from
  try_from-ok n agency h = ground arith

  try_from-err : (n : ℕ) (e : CbsaError) → try_from n ≡ err e → ¬ ((1 ≤ n) × (n ≤ 5))
  unfolding try_from
  try_from-err n e h range = ground arith

  abbrev pub IsAnswer : ℕ → CreditAgencyRequest → Result CbsaError ℕ → Type 0
  IsAnswer n request (ok score) =
      (1 ≤ n) × (n ≤ 5) × IsAcceptable request × (1 ≤ score) × (score ≤ 998)
  IsAnswer n request (err e) = ¬ ((1 ≤ n) × (n ≤ 5) × IsAcceptable request)

  -- A call gets a score, between 1 and 998, exactly when the agency number is between 1 and 5 and
  -- the request passes the checks, whatever the clock is.
  pub request_score_by_number_lem :
      (seed_of : CreditAgency → ℕ) (n : ℕ) (request : CreditAgencyRequest)
      → IsAnswer n request (request_score_by_number seed_of n request)
  unfolding request_score_by_number request_score request_score_with_seed seeded_outcome
  request_score_by_number_lem seed_of n request = read (try_from n) refl
    where
      checked :
          (agency : CreditAgency)
          → (1 ≤ n) × (n ≤ 5)
          → (v : Result CbsaError (Unit {0})) → validate_request request ≡ v
          → IsAnswer n request
              (v >> map_ok (λ outcome. outcome.score) (map_ok (λ _. draw (seed_of agency)) v))
      checked agency (low, high) (ok tt) e =
          let (_, _, small, large, _) = draw_lem (seed_of agency) in
          (low, high, validate_request-ok request e, small, large)
      checked agency range (err e) h = λ (p, q, r). validate_request-err request e h r

      read :
          (r : Result CbsaError CreditAgency)
          → try_from n ≡ r
          → IsAnswer n request (r >>= λ agency. request_score seed_of agency request)
      read (ok agency) e = checked agency (try_from-ok n agency e) (validate_request request) refl
      read (err e) h = λ (p, q, r). try_from-err n e h (p, q)
