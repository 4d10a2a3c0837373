-- ===== src/Tests/Agency.antt =====
-- Credit agencies on a concrete request.
use cbsa_rust.Prelude.{◌≡◌, refl, ◌+◌, ◌%◌, ℕ}
use cbsa_rust.Text.{codes}
use cbsa_rust.Crates.Cents.{cents_crates}
use cbsa_rust.Service.Crdtagy.{
  CreditAgency, CreditAgencyRequest, number, draw, request_score_by_number, next_u64,
}
use cbsa_rust.Service.Crdtagy.Score.{IsAnswer, request_score_by_number_lem}

abbrev sample : CreditAgencyRequest
sample = record {
  name = codes "Dr Alice Example";
  address = codes "1 Main Street";
  date_of_birth = 10_012_000;
}

abbrev seed_of : CreditAgency → ℕ
seed_of agency = 101 + number agency

draw-101 : ((draw 101).delay ≡ 1) × ((draw 101).score % 2 ≡ 0)
unfolding draw next_u64
draw-101 = (refl, refl)

request_score_by_number_lem_example : IsAnswer 3 sample (request_score_by_number seed_of 3 sample)
request_score_by_number_lem_example = request_score_by_number_lem seed_of 3 sample
