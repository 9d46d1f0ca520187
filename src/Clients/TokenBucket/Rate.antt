-- ===== src/Clients/TokenBucket/Rate.antt =====
-- packages/source_clients/rate_limit.py: the rate that `acquire` keeps.
use procintel.Common.{
  ℕ, zero, suc, ◌+◌, ◌-◌, ◌*◌, ◌≤◌, ◌≡◌, refl, true, List, [], ◌∷◌, ltb, leb, arith, Bool-cases,
  inl, inr, tests, ap,
}
use native.Mathlib.Nat.{add-mul}
use procintel.Clients.TokenBucket.{
  Bucket, refill, Acquired, refused, out_of_fuel, acquired, acquire_loop, acquire, IsBucket,
  Request, Served, serve,
}
use procintel.Clients.TokenBucket.Waits.{loop_grants, loop_waits}

spans_add :
    (start mid end rate : ℕ)
    → start ≤ mid
    → mid ≤ end
    → (mid - start) * rate + (end - mid) * rate ≡ (end - start) * rate
spans_add start mid end rate h k =
    rw (← add-mul (mid - start) (end - mid) rate) (ap (λ d. d * rate) (omega arith))

-- The bucket after a call that was served: what it took and still has is what it had and what
-- the time has brought.
pub record Follows (cost now : ℕ) (b : Bucket) (at : ℕ) (after : Bucket) : Type 0 where
  pub rate : after.rate_per_minute ≡ b.rate_per_minute
  pub capacity : after.capacity ≡ b.capacity
  pub updated : after.updated_at ≡ at
  pub later : now ≤ at
  pub within : after.tokens ≤ after.capacity
  pub spent : cost + after.tokens ≤ b.tokens + (at - b.updated_at) * b.rate_per_minute

abbrev pub WhenServed : ℕ → ℕ → Bucket → Acquired → Type 0
WhenServed cost now b refused = Unit
WhenServed cost now b out_of_fuel = Unit
WhenServed cost now b (acquired at after) = Follows cost now b at after

granted-Follows :
    (cost now : ℕ) (b : Bucket)
    → leb cost (refill now b).tokens ≡ true
    → Follows cost now b now (record (refill now b) { tokens = (refill now b).tokens - cost })
unfolding refill
granted-Follows cost now b h = record {
  rate = refl;
  capacity = refl;
  updated = refl;
  later = omega arith;
  within = omega arith;
  spent = omega tests;
}

-- A wait loses nothing.
waited-Follows :
    (cost now later : ℕ) (b : Bucket) (result : Acquired)
    → b.updated_at ≤ now
    → now ≤ later
    → WhenServed cost later (refill now b) result
    → WhenServed cost now b result
unfolding refill
waited-Follows cost now later b refused le h s = tt
waited-Follows cost now later b out_of_fuel le h s = tt
waited-Follows cost now later b (acquired at after) le h s = record {
  rate = s.rate;
  capacity = s.capacity;
  updated = s.updated;
  later = omega (arith, s.later);
  within = s.within;
  spent = omega (
    arith,
    s.spent,
    s.later,
    spans_add b.updated_at now at b.rate_per_minute le (omega (arith, s.later)),
  );
}

refilled_before : (now wait : ℕ) (b : Bucket) → (refill now b).updated_at ≤ now + wait
unfolding refill
refilled_before now wait b = omega arith

loop_empty :
    (sleep : ℕ → ℕ → ℕ) (cost now : ℕ) (b : Bucket)
    → WhenServed cost now b (acquire_loop zero sleep cost now b)
unfolding acquire_loop
loop_empty sleep cost now b = tt

loop-Follows :
    (fuel : ℕ) (sleep : ℕ → ℕ → ℕ) (cost now : ℕ) (b : Bucket)
    → b.updated_at ≤ now
    → WhenServed cost now b (acquire_loop fuel sleep cost now b)
loop-Follows zero sleep cost now b le = loop_empty sleep cost now b
loop-Follows (suc fuel) sleep cost now b le = elim (Bool-cases (leb cost (refill now b).tokens)) [
  | inl e ↦ rw (loop_grants fuel sleep cost now b e) (granted-Follows cost now b e)
  | inr e ↦ rw (loop_waits fuel sleep cost now b e) (
      waited-Follows cost now (now + sleep fuel (cost - (refill now b).tokens)) b
        (acquire_loop fuel sleep cost (now + sleep fuel (cost - (refill now b).tokens))
          (refill now b))
        le (omega arith)
        (loop-Follows fuel sleep cost (now + sleep fuel (cost - (refill now b).tokens))
          (refill now b) (refilled_before now (sleep fuel (cost - (refill now b).tokens)) b)))
]

acquire-Follows :
    (fuel : ℕ) (sleep : ℕ → ℕ → ℕ) (cost now : ℕ) (b : Bucket)
    → b.updated_at ≤ now
    → WhenServed cost now b (acquire fuel sleep cost now b)
unfolding acquire
acquire-Follows fuel sleep cost now b le = elim (Bool-cases (ltb b.capacity cost)) [
  | inl e ↦ rw e tt
  | inr e ↦ rw e (loop-Follows fuel sleep cost now b le)
]

-- From `now` on: the end is no earlier, and the tokens are within what the bucket had and what
-- the time has brought.
record Spends (now : ℕ) (b : Bucket) (s : Served) : Type 0 where
  later : now ≤ s.at
  spent : s.tokens ≤ b.tokens + (s.at - b.updated_at) * b.rate_per_minute

Spends-more :
    (cost now : ℕ) (b : Bucket) (at : ℕ) (after : Bucket) (rest : Served)
    → b.updated_at ≤ now
    → Follows cost now b at after
    → Spends at after rest
    → Spends now b (record rest { tokens = cost + rest.tokens })
Spends-more cost now b at after rest le f s = record {
  later = omega (arith, f.later, s.later);
  spent = omega (
    arith,
    f.spent,
    spent,
    spans_add b.updated_at at rest.at b.rate_per_minute (omega (arith, f.later)) s.later,
  );
}
  where
    spent : rest.tokens ≤ after.tokens + (rest.at - at) * b.rate_per_minute
    spent = rw (← f.updated, ← f.rate) s.spent

Spends-later : (now gap : ℕ) (b : Bucket) (s : Served) → Spends (now + gap) b s → Spends now b s
Spends-later now gap b s h = record { later = omega (arith, h.later); spent = h.spent }

by_result :
    (r : Request) (requests : List Request) (now : ℕ) (b : Bucket)
    → ((at : ℕ) (c : Bucket) → c.updated_at ≤ at → Spends at c (serve requests at c))
    → b.updated_at ≤ now
    → (result : Acquired) → WhenServed r.cost (now + r.gap) b result
    → Spends now b (elim result [
      | acquired at after ↦ record (serve requests at after) {
        tokens = r.cost + (serve requests at after).tokens;
      }
      | _ ↦ serve requests (now + r.gap) b
    ])
by_result r requests now b rest le (acquired at after) f =
    Spends-later now r.gap b
      (record (serve requests at after) { tokens = r.cost + (serve requests at after).tokens })
      (Spends-more r.cost (now + r.gap) b at after (serve requests at after) (omega arith) f
        (rest at after (omega (arith, f.updated))))
by_result r requests now b rest le refused f =
    Spends-later now r.gap b (serve requests (now + r.gap) b) (rest (now + r.gap) b (omega arith))
by_result r requests now b rest le out_of_fuel f =
    Spends-later now r.gap b (serve requests (now + r.gap) b) (rest (now + r.gap) b (omega arith))

serve-Spends :
    (requests : List Request) (now : ℕ) (b : Bucket)
    → b.updated_at ≤ now
    → Spends now b (serve requests now b)
unfolding serve
serve-Spends [] now b le = record { later = omega arith; spent = omega arith }
serve-Spends (r ∷ requests) now b le =
    by_result r requests now b (serve-Spends requests) le
      (acquire r.turns r.sleep r.cost (now + r.gap) b)
      (acquire-Follows r.turns r.sleep r.cost (now + r.gap) b (omega arith))

-- The bucket holds the rate: from its last update on, the tokens that any sequence of callers is
-- given, with whatever costs, pauses and sleeps, are at most the capacity and what the rate
-- brings until the end, for a bucket with no more tokens than its capacity and a positive rate.
pub serve-within_rate :
    (requests : List Request) (b : Bucket)
    → IsBucket b
    → (serve requests b.updated_at b).tokens
      ≤ b.capacity + ((serve requests b.updated_at b).at - b.updated_at) * b.rate_per_minute
serve-within_rate requests b ok =
    omega (arith, (serve-Spends requests b.updated_at b (omega arith)).spent, ok.within)
