-- ===== src/Service/Crecust/Credit/Order.antt =====
-- The order in which the agencies answer does not matter.
use native.Mathlib.Nat.{ℕ_set}
use mathlib.Core.Logic.{∥∥₁_elim}
use mathlib.Core.List.{Perm, Permᴰ}
use cbsa_rust.Prelude.{
  ℕ, zero, suc, ◌+◌, ◌%◌, ◌^◌, ◌≤◌, ◌≡◌, refl, ap, sym, ◌∙◌, subst, true, false, List, [], ◌∷◌, All,
  ok, err, arith, length, Bool-cases, inl, inr,
}
use cbsa_rust.Crates.{Crates}
use cbsa_rust.Service.Crecust.Credit.{
  Reply, Tally, no_scores, is_valid_score, add_score, gather, agency_count, evaluate_credit,
}

module _ ⦃c : Crates⦄ where
  -- A reply that came before the end of the window.
  abbrev pub HasArrived : Reply → Type 0
  HasArrived (Reply.scored r) = Unit
  HasArrived Reply.lost = Unit
  HasArrived Reply.timed_out = true ≡ false

  abbrev add_all : List Reply → Tally → Tally
  add_all [] t = t
  add_all (r ∷ replies) t = add_all replies (add_score t r)

  gather_all :
      (pending : ℕ) (replies : List Reply) (t : Tally)
      → All HasArrived replies
      → length replies ≤ pending
      → gather pending replies t ≡ add_all replies t
  unfolding gather
  gather_all zero [] t h n = refl
  gather_all zero (r ∷ replies) t h n = absurd (omega arith)
  gather_all (suc pending) [] t h n = refl
  gather_all (suc pending) (Reply.timed_out ∷ replies) t (h, hs) n = absurd (ground arith)
  gather_all (suc pending) (Reply.lost ∷ replies) t (h, hs) n =
      gather_all pending replies t hs (omega arith)
  gather_all (suc pending) (Reply.scored r ∷ replies) t (h, hs) n =
      gather_all pending replies (add_score t (Reply.scored r)) hs (omega arith)

  wrapped_sum : (n x y : ℕ) → ((n + x) % 2 ^ 32 + y) % 2 ^ 32 ≡ ((n + y) % 2 ^ 32 + x) % 2 ^ 32
  wrapped_sum n x y = omega arith

  add_score_comm :
      (t : Tally) (a b : Reply) → add_score (add_score t a) b ≡ add_score (add_score t b) a
  add_score_comm t (Reply.scored (ok x)) (Reply.scored (ok y)) =
      elim (Bool-cases (is_valid_score x)) [
        | inl vx ↦ elim (Bool-cases (is_valid_score y)) [
          | inl vy ↦
              rw (vx, vy)
                (ap
                  (λ n. record {
                    total_score = n;
                    returned_scores = ((t.returned_scores + 1) % 2 ^ 32 + 1) % 2 ^ 32;
                  })
                  (wrapped_sum t.total_score x y))
          | inr vy ↦ rw (vx, vy) refl
        ]
        | inr vx ↦ elim (Bool-cases (is_valid_score y)) [
          | inl vy ↦ rw (vx, vy) refl
          | inr vy ↦ rw (vx, vy) refl
        ]
      ]
  add_score_comm t (Reply.scored (err e)) b = refl
  add_score_comm t Reply.lost b = refl
  add_score_comm t Reply.timed_out b = refl
  add_score_comm t (Reply.scored (ok x)) (Reply.scored (err e)) = refl
  add_score_comm t (Reply.scored (ok x)) Reply.lost = refl
  add_score_comm t (Reply.scored (ok x)) Reply.timed_out = refl

  add_all_perm : {xs ys : List Reply} → Permᴰ xs ys → (t : Tally) → add_all xs t ≡ add_all ys t
  add_all_perm Permᴰ.nil t = refl
  add_all_perm (Permᴰ.cons {l₂ = l} e d) t =
      add_all_perm d _ ∙ ap (λ r. add_all l (add_score t r)) e
  add_all_perm (Permᴰ.swap {a = a} {b = b} {a' = a'} {l = l} e d) t =
      ap (add_all l) (add_score_comm t a b)
      ∙ ap (λ r. add_all l (add_score (add_score t r) a)) d
      ∙ ap (λ r. add_all l (add_score (add_score t a') r)) e
  add_all_perm (Permᴰ.trans d e) t = add_all_perm d t ∙ add_all_perm e t

  arrived_perm : {xs ys : List Reply} → Permᴰ xs ys → All HasArrived xs → All HasArrived ys
  arrived_perm Permᴰ.nil h = tt
  arrived_perm (Permᴰ.cons e d) (h, hs) = (subst HasArrived e h, arrived_perm d hs)
  arrived_perm (Permᴰ.swap e d) (h, (k, hs)) = (subst HasArrived d k, (subst HasArrived e h, hs))
  arrived_perm (Permᴰ.trans d e) h = arrived_perm e (arrived_perm d h)

  length_perm : {xs ys : List Reply} → Permᴰ xs ys → length xs ≡ length ys
  length_perm Permᴰ.nil = refl
  length_perm (Permᴰ.cons e d) = ap suc (length_perm d)
  length_perm (Permᴰ.swap e d) = refl
  length_perm (Permᴰ.trans d e) = length_perm d ∙ length_perm e

  gather_perm :
      {xs ys : List Reply}
      → All HasArrived xs
      → length xs ≤ 5
      → Permᴰ xs ys
      → gather agency_count xs no_scores ≡ gather agency_count ys no_scores
  gather_perm {xs} {ys} h n d =
      gather_all agency_count xs no_scores h n
      ∙ add_all_perm d no_scores
      ∙ sym (gather_all agency_count ys no_scores (arrived_perm d h) (omega (arith, length_perm d)))

  -- The credit decision does not depend on the order in which the agencies answer, when at most five
  -- answers come and all of them before the end of the reply window.
  pub evaluate_credit-order :
      (replies replies' : List Reply) (today : c.Date) (offset : ℕ)
      → Perm replies replies'
      → All HasArrived replies
      → length replies ≤ 5
      → evaluate_credit replies today offset ≡ evaluate_credit replies' today offset
  unfolding evaluate_credit Perm
  evaluate_credit-order replies replies' today offset p h n =
      let t = gather agency_count replies no_scores in
      let t' = gather agency_count replies' no_scores in
      let total : t.total_score ≡ t'.total_score =
        ∥∥₁_elim p (ℕ_set _ _) (λ d. ap (λ u. u.total_score) (gather_perm h n d)) in
      let returned : t.returned_scores ≡ t'.returned_scores =
        ∥∥₁_elim p (ℕ_set _ _) (λ d. ap (λ u. u.returned_scores) (gather_perm h n d)) in
      rw (total, returned) refl
