-- ===== src/Service/Crecust/Credit.antt =====
-- `evaluate_credit` of `service/crecust.rs`: the replies of the credit agencies, in the order in which
-- they arrive, and the decision.
pub mod Mean
pub mod Order
use cbsa_rust.Prelude.{
  ℕ, zero, suc, ◌+◌, ◌*◌, ◌/◌, ◌%◌, ◌^◌, Bool, ◌&&◌, Option, none, some, List, [], ◌∷◌, Result, ok,
  err, leb, ◌==◌, if◌then◌else◌,
}
use cbsa_rust.Crates.{Crates}
use cbsa_rust.Error.{CbsaError}

-- What `tokio::time::timeout(remaining, join_set.join_next())` comes back with: the score or the error
-- of one agency, a task that panicked, or the end of the reply window, which is also what a window of
-- length zero means.
module _ ⦃c : Crates⦄ where
  pub data Reply : Type 0 where
    scored : Result CbsaError ℕ → Reply
    lost : Reply
    timed_out : Reply

  -- `total_score` and `returned_scores`, both u32.
  pub record Tally : Type 0 where
    pub total_score : ℕ
    pub returned_scores : ℕ

  abbrev pub no_scores : Tally
  no_scores = record { total_score = 0; returned_scores = 0 }

  abbrev pub is_valid_score : ℕ → Bool
  is_valid_score score = leb 1 score && leb score 998

  abbrev pub add_score : Tally → Reply → Tally
  add_score t (scored (ok score)) =
      if is_valid_score score
      then record {
        total_score = (t.total_score + score) % 2 ^ 32;
        returned_scores = (t.returned_scores + 1) % 2 ^ 32;
      }
      else t
  add_score t (scored (err e)) = t
  add_score t lost = t
  add_score t timed_out = t

  -- The loop, while `pending` tasks are in the set. Replies that are not there any more have not
  -- arrived before the deadline.
  unfoldable pub gather : ℕ → List Reply → Tally → Tally
  gather zero replies t = t
  gather (suc pending) [] t = t
  gather (suc pending) (timed_out ∷ replies) t = t
  gather (suc pending) (scored r ∷ replies) t = gather pending replies (add_score t (scored r))
  gather (suc pending) (lost ∷ replies) t = gather pending replies (add_score t lost)

  -- `CreditAgency::ALL`.
  abbrev pub agency_count : ℕ
  agency_count = 5

  pub record CreditDecision : Type 0 where
    pub credit_score : ℕ
    pub review_date : c.Date

  abbrev pub decision_on : ℕ → Option c.Date → Option CreditDecision
  decision_on score none = none
  decision_on score (some date) = some (record { credit_score = score; review_date = date })

  -- The decision from the tally, with the offset that the generator drew.
  abbrev pub decide : Tally → c.Date → ℕ → Option CreditDecision
  decide t today offset =
      if t.returned_scores == 0
      then none
      else decision_on (t.total_score / t.returned_scores % 2 ^ 16) (c.add_days today offset)

  unfoldable pub evaluate_credit : List Reply → c.Date → ℕ → Option CreditDecision
  evaluate_credit replies today offset = decide (gather agency_count replies no_scores) today offset

abbrev pub review_date_bound_days : ℕ
review_date_bound_days = 20

-- `SystemReviewDateGenerator::next_offset_days`: the new state in 64 bits, and the offset.
unfoldable pub next_offset_days : ℕ → ℕ × ℕ
next_offset_days state =
    let state' = (state * 6_364_136_223_846_793_005 % 2 ^ 64 + 1) % 2 ^ 64 in
    ((state' % review_date_bound_days + 1) % 2 ^ 32, state')
