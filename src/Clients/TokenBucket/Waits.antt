-- ===== src/Clients/TokenBucket/Waits.antt =====
-- packages/source_clients/rate_limit.py: the turns of the loop in `acquire`.
use procintel.Common.{
  ℕ, zero, suc, ◌+◌, ◌-◌, ◌*◌, ◌≤◌, ◌≡◌, refl, true, false, ltb, leb, arith, Bool-cases, inl, inr,
  ◌∙◌, le→leb,
}
use native.Mathlib.Nat.{add-mul}
use procintel.Clients.TokenBucket.{
  Bucket, refill, served, sleeping, turn, acquired, acquire_loop, acquire,
}

turn_grants :
    (cost now : ℕ) (b : Bucket)
    → leb cost (refill now b).tokens ≡ true
    → turn cost now b ≡ served (record (refill now b) { tokens = (refill now b).tokens - cost })
unfolding turn
turn_grants cost now b h = rw h refl

turn_waits :
    (cost now : ℕ) (b : Bucket)
    → leb cost (refill now b).tokens ≡ false
    → turn cost now b ≡ sleeping (cost - (refill now b).tokens) (refill now b)
unfolding turn
turn_waits cost now b h = rw h refl

pub loop_grants :
    (fuel : ℕ) (sleep : ℕ → ℕ → ℕ) (cost now : ℕ) (b : Bucket)
    → leb cost (refill now b).tokens ≡ true
    → acquire_loop (suc fuel) sleep cost now b
      ≡ acquired now (record (refill now b) { tokens = (refill now b).tokens - cost })
unfolding acquire_loop
loop_grants fuel sleep cost now b e = rw (acquire_loop, turn_grants cost now b e) refl

pub loop_waits :
    (fuel : ℕ) (sleep : ℕ → ℕ → ℕ) (cost now : ℕ) (b : Bucket)
    → leb cost (refill now b).tokens ≡ false
    → acquire_loop (suc fuel) sleep cost now b
      ≡ acquire_loop fuel sleep cost
          (now + sleep fuel (cost - (refill now b).tokens))
          (refill now b)
unfolding acquire_loop
loop_waits fuel sleep cost now b e = rw (acquire_loop, turn_waits cost now b e) refl

-- A reading of the clock brings the tokens of the microseconds since the last one.
refill_brings :
    (cost now slept needed : ℕ) (b : Bucket)
    → cost ≤ b.capacity
    → 1 ≤ slept
    → cost ≤ (refill now b).tokens + (needed + 1) * b.rate_per_minute
    → cost ≤ (refill (now + slept) (refill now b)).tokens + needed * b.rate_per_minute
unfolding refill
refill_brings cost now slept needed b le one enough =
    omega (arith, brought, add-mul needed 1 b.rate_per_minute)
  where
    same : now + slept - now ≡ 1 + (slept - 1)
    same = omega arith

    brought : b.rate_per_minute ≤ (now + slept - now) * b.rate_per_minute
    brought = rw (same, add-mul 1 (slept - 1) b.rate_per_minute) (omega arith)

refill-has :
    (cost now : ℕ) (b : Bucket)
    → cost ≤ (refill now b).tokens + 0 * b.rate_per_minute
    → leb cost (refill now b).tokens ≡ true
refill-has cost now b h = le→leb cost (refill now b).tokens (omega arith)

refill-keeps :
    (n cost now : ℕ) (b : Bucket)
    → cost ≤ b.capacity
    → cost ≤ b.tokens + n * b.rate_per_minute
    → cost ≤ (refill now b).tokens + n * b.rate_per_minute
unfolding refill
refill-keeps n cost now b le h = omega arith

loop-terminates :
    (fuel : ℕ) (sleep : ℕ → ℕ → ℕ) (cost now : ℕ) (b : Bucket)
    → ((left missing : ℕ) → 1 ≤ sleep left missing)
    → cost ≤ b.capacity
    → cost ≤ (refill now b).tokens + fuel * b.rate_per_minute
    → (at : ℕ) × (after : Bucket) × (acquire_loop (suc fuel) sleep cost now b ≡ acquired at after)
loop-terminates zero sleep cost now b moves le enough =
    (now, _, loop_grants zero sleep cost now b (refill-has cost now b enough))
loop-terminates (suc fuel) sleep cost now b moves le enough =
    elim (Bool-cases (leb cost (refill now b).tokens)) [
      | inl e ↦ (now, _, loop_grants (suc fuel) sleep cost now b e)
      | inr e ↦
          let slept : ℕ = sleep (suc fuel) (cost - (refill now b).tokens) in
          let (at, after, served_at) =
            loop-terminates fuel sleep cost (now + slept) (refill now b) moves (unfold refill in le)
              (unfold refill in
                refill_brings cost now slept fuel b le
                  (moves (suc fuel) (cost - (refill now b).tokens)) (omega arith)) in
          (at, after, loop_waits (suc fuel) sleep cost now b e ∙ served_at)
    ]

-- The loop ends: a cost within the capacity, and within the tokens that the bucket has and those
-- that `fuel` microseconds bring at its rate, is acquired in `fuel + 1` turns if the clock moves on
-- by a microsecond or more in every sleep, even where each sleep is shorter than was asked for.
pub acquire-terminates :
    (fuel : ℕ) (sleep : ℕ → ℕ → ℕ) (cost now : ℕ) (b : Bucket)
    → ((left missing : ℕ) → 1 ≤ sleep left missing)
    → cost ≤ b.capacity
    → cost ≤ b.tokens + fuel * b.rate_per_minute
    → (at : ℕ) × (after : Bucket) × (acquire (suc fuel) sleep cost now b ≡ acquired at after)
unfolding acquire
acquire-terminates fuel sleep cost now b moves le enough =
    rw fits
      (loop-terminates fuel sleep cost now b moves le (refill-keeps fuel cost now b le enough))
  where
    fits : ltb b.capacity cost ≡ false
    fits = ground arith
