-- ===== src/Service/Inqcust/Random.antt =====
-- The numbers that the system's generator draws.
use cbsa_rust.Prelude.{ℕ, ◌+◌, ◌*◌, ◌%◌, ◌^◌, ◌≤◌, ◌<◌, ◌≡◌, refl, true, arith, ltb}
use cbsa_rust.Prelude.Int.{pos}
use cbsa_rust.Service.Inqcust.{system_next, next_state}

-- A draw below a positive number that an i64 holds is at least 1 and at most that number, whatever the
-- state is, and the new state has 64 bits.
pub system_next_lem :
    (n state : ℕ)
    → 1 ≤ n
    → n < 2 ^ 63
    → (k : ℕ) × (system_next (pos n) state ≡ (pos k, next_state state))
      × (1 ≤ k)
      × (k ≤ n)
      × (next_state state < 2 ^ 64)
unfolding system_next next_state
system_next_lem n state positive small =
    let state' = (state * 6_364_136_223_846_793_005 % 2 ^ 64 + 1) % 2 ^ 64 in
    let k = state' % n + 1 in
    let below : k ≤ n = omega arith in
    let fits : ltb k (2 ^ 63) ≡ true = ground arith in
    (k, rw fits refl, omega arith, below, omega arith)
