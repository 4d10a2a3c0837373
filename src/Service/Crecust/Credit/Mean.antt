-- ===== src/Service/Crecust/Credit/Mean.antt =====
-- The credit score is a mean of scores, and the order in which the agencies answer does not matter.
use native.Mathlib.Nat.{suc-mul, mul_comm, div-lt_iff_lt-mul, div-le_of_le-mul}
use cbsa_rust.Prelude.{
  ℕ, zero, suc, ◌+◌, ◌*◌, ◌/◌, ◌%◌, ◌^◌, ◌≤◌, ◌<◌, ◌≡◌, ◌≢◌, ltb, true, false, Option, none, some,
  List, [], ◌∷◌, All, ok, err, arith, ◌==◌, Bool-cases, inl, inr,
}
use cbsa_rust.Crates.{Crates}
use cbsa_rust.Service.Crecust.Credit.{
  Reply, Tally, no_scores, is_valid_score, add_score, gather, agency_count, CreditDecision,
  decision_on, evaluate_credit,
}

module _ ⦃c : Crates⦄ (lo hi : ℕ) where
  -- A score that counts is between the two bounds.
  abbrev pub IsBetween : Reply → Type 0
  IsBetween (Reply.scored (ok score)) = is_valid_score score ≡ true → (lo ≤ score) × (score ≤ hi)
  IsBetween (Reply.scored (err e)) = Unit
  IsBetween Reply.lost = Unit
  IsBetween Reply.timed_out = Unit

  -- The total of `n` scores between the bounds, none of which is above 998.
  record IsTotal (t : Tally) (room : ℕ) : Type 0 where
    at_least : t.returned_scores * lo ≤ t.total_score
    at_most : t.total_score ≤ t.returned_scores * hi
    small : t.total_score ≤ t.returned_scores * 998
    few : t.returned_scores + room ≤ 5

  add_score-IsTotal :
      (t : Tally) (r : Reply) (room : ℕ)
      → IsBetween r
      → IsTotal t (suc room)
      → IsTotal (add_score t r) room
  add_score-IsTotal t (Reply.scored (err e)) room b h = record {
    at_least = h.at_least;
    at_most = h.at_most;
    small = h.small;
    few = omega (arith, h.few);
  }
  add_score-IsTotal t Reply.lost room b h = record {
    at_least = h.at_least;
    at_most = h.at_most;
    small = h.small;
    few = omega (arith, h.few);
  }
  add_score-IsTotal t Reply.timed_out room b h = record {
    at_least = h.at_least;
    at_most = h.at_most;
    small = h.small;
    few = omega (arith, h.few);
  }
  add_score-IsTotal t (Reply.scored (ok score)) room b h =
      elim (Bool-cases (is_valid_score score)) [
        | inr skipped ↦ rw skipped (record {
          at_least = h.at_least;
          at_most = h.at_most;
          small = h.small;
          few = omega (arith, h.few);
        })
        | inl counts ↦
            let (least, most) = b counts in
            let bound : score ≤ 998 = ground arith in
            let n : (t.returned_scores + 1) % 2 ^ 32 ≡ suc t.returned_scores =
              omega (arith, h.few) in
            let total : (t.total_score + score) % 2 ^ 32 ≡ t.total_score + score =
              omega (arith, h.few, h.small) in
            rw (counts, n, total)
              (record {
                at_least = omega (arith, h.at_least, suc-mul t.returned_scores lo);
                at_most = omega (arith, h.at_most, suc-mul t.returned_scores hi);
                small = omega (arith, h.small);
                few = omega (arith, h.few);
              })
      ]

  weaken : (t : Tally) (room less : ℕ) → less ≤ room → IsTotal t room → IsTotal t less
  weaken t room less le h = record {
    at_least = h.at_least;
    at_most = h.at_most;
    small = h.small;
    few = omega (arith, h.few);
  }

  gather-IsTotal :
      (pending : ℕ) (replies : List Reply) (t : Tally)
      → All IsBetween replies
      → IsTotal t pending
      → IsTotal (gather pending replies t) 0
  unfolding gather
  gather-IsTotal zero replies t b h = h
  gather-IsTotal (suc pending) [] t b h = weaken t (suc pending) 0 (omega arith) h
  gather-IsTotal (suc pending) (Reply.timed_out ∷ replies) t b h =
      weaken t (suc pending) 0 (omega arith) h
  gather-IsTotal (suc pending) (Reply.lost ∷ replies) t (b, bs) h =
      gather-IsTotal pending replies t bs (weaken t (suc pending) pending (omega arith) h)
  gather-IsTotal (suc pending) (Reply.scored r ∷ replies) t (b, bs) h =
      gather-IsTotal pending replies (add_score t (Reply.scored r)) bs
        (add_score-IsTotal t (Reply.scored r) pending b h)

  mean_between :
      (t : Tally)
      → IsTotal t 0
      → t.returned_scores ≢ 0
      → (lo ≤ t.total_score / t.returned_scores) × (t.total_score / t.returned_scores ≤ hi)
  mean_between t h some_scores =
      let n = t.returned_scores in
      let positive : 0 < n = omega arith in
      let low = div-lt_iff_lt-mul {k = n} {x = t.total_score} {y = lo} positive in
      (
        elim (Bool-cases (ltb (t.total_score / n) lo)) [
          | inl below ↦ absurd (omega (arith, low.0 (ground arith), h.at_least, mul_comm lo n))
          | inr above ↦ ground arith
        ],
        div-le_of_le-mul n {m = t.total_score} {n = hi} h.at_most,
      )

module _ ⦃c : Crates⦄ where
  -- A credit decision has a score that lies between any two bounds that hold of all the scores that
  -- count: it is never below the lowest or above the highest of them.
  pub evaluate_credit-between :
      (lo hi : ℕ) (replies : List Reply) (today : c.Date) (offset : ℕ) (decision : CreditDecision)
      → All (IsBetween lo hi) replies
      → evaluate_credit replies today offset ≡ some decision
      → (lo ≤ decision.credit_score) × (decision.credit_score ≤ hi) × (decision.credit_score ≤ 998)
  unfolding evaluate_credit
  evaluate_credit-between lo hi replies today offset decision b e =
      let t = gather agency_count replies no_scores in
      let start : (n : ℕ) → 0 * n ≡ 0 = λ n. omega arith in
      let h : IsTotal lo hi t 0 = gather-IsTotal lo hi agency_count replies no_scores b (record {
        at_least = omega arith;
        at_most = omega arith;
        small = omega arith;
        few = omega arith;
      }) in
      let s : IsTotal 0 998 t 0 = record {
        at_least = omega arith;
        at_most = h.small;
        small = h.small;
        few = h.few;
      } in
      elim (Bool-cases (t.returned_scores == 0)) [
        | inl nothing ↦ absurd (ground (arith, no_decision (rw nothing at e)))
        | inr some_scores ↦
            let (low, high) = mean_between lo hi t h (ground arith) in
            let (_, top) = mean_between 0 998 t s (ground arith) in
            go (t.total_score / t.returned_scores) low high top (c.add_days today offset)
              (rw some_scores at e)
      ]
    where
      no_decision : none ≡ some decision → true ≡ false
      no_decision h = ground arith

      go :
          (mean : ℕ)
          → lo ≤ mean
          → mean ≤ hi
          → mean ≤ 998
          → (date : Option c.Date) → decision_on (mean % 2 ^ 16) date ≡ some decision
          → (lo ≤ decision.credit_score)
            × (decision.credit_score ≤ hi)
            × (decision.credit_score ≤ 998)
      go mean low high top none e = cc
      go mean low high top (some date) e =
          let score : decision.credit_score ≡ mean % 2 ^ 16 = ground arith in
          (omega (arith, score), omega (arith, score), omega (arith, score))

  -- The bounds that every score that counts has.
  pub anything-IsBetween : (replies : List Reply) → All (IsBetween 1 998) replies
  anything-IsBetween [] = tt
  anything-IsBetween (Reply.scored (ok score) ∷ replies) =
      ((λ counts. (ground arith, ground arith)), anything-IsBetween replies)
  anything-IsBetween (Reply.scored (err e) ∷ replies) = (tt, anything-IsBetween replies)
  anything-IsBetween (Reply.lost ∷ replies) = (tt, anything-IsBetween replies)
  anything-IsBetween (Reply.timed_out ∷ replies) = (tt, anything-IsBetween replies)
