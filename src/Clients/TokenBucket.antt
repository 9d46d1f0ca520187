-- ===== src/Clients/TokenBucket.antt =====
-- packages/source_clients/rate_limit.py: `TokenBucket`. The clock is in microseconds and the rate
-- in whole requests per minute; tokens are counted in parts of which a request has 60_000_000, so
-- that a microsecond brings exactly `rate_per_minute` parts. The code has floats of seconds.
pub mod Waits
pub mod Rate
mod Tests
use procintel.Common.{
  ℕ, zero, suc, ◌+◌, ◌-◌, ◌*◌, ◌≤◌, Option, none, some, List, [], ◌∷◌, ltb, leb, if◌then◌else◌, min,
}

abbrev pub parts : ℕ
parts = 60_000_000

pub record Bucket : Type 0 where
  pub rate_per_minute : ℕ
  pub capacity : ℕ
  pub tokens : ℕ
  pub updated_at : ℕ

-- `__init__`, a rate of zero is a ValueError; the default burst is a sixth of the rate.
unfoldable pub new_bucket : ℕ → Option ℕ → ℕ → Option Bucket
new_bucket zero burst now = none
new_bucket (suc r) none now = some (record {
  rate_per_minute = suc r;
  capacity = suc r * 10_000_000;
  tokens = suc r * 10_000_000;
  updated_at = now;
})
new_bucket (suc r) (some burst) now = some (record {
  rate_per_minute = suc r;
  capacity = burst * parts;
  tokens = burst * parts;
  updated_at = now;
})

-- The tokens brought by the time since the last reading, up to the capacity.
unfoldable pub refill : ℕ → Bucket → Bucket
refill now b = record b {
  tokens = min b.capacity (b.tokens + (now - b.updated_at) * b.rate_per_minute);
  updated_at = now;
}

pub data Turn : Type 0 where
  served : Bucket → Turn
  -- The sleep asked for is `missing` tokens at the bucket's rate.
  sleeping : (missing : ℕ) → Bucket → Turn

-- One turn of the loop: the tokens are taken, or the task sleeps.
unfoldable pub turn : ℕ → ℕ → Bucket → Turn
unfolding refill
turn cost now b =
    let filled = refill now b in
    if leb cost filled.tokens
    then served (record filled { tokens = filled.tokens - cost })
    else sleeping (cost - filled.tokens) filled

pub data Acquired : Type 0 where
  -- ValueError: the cost exceeds the capacity.
  refused out_of_fuel : Acquired
  acquired : (at : ℕ) → Bucket → Acquired

-- The loop. `sleep` says how long `asyncio.sleep` takes, by the clock, in each turn (numbered
-- downwards) for the tokens that are missing: it need not be the time asked for.
unfoldable pub acquire_loop : ℕ → (ℕ → ℕ → ℕ) → ℕ → ℕ → Bucket → Acquired
unfolding turn
acquire_loop zero sleep cost now b = out_of_fuel
acquire_loop (suc fuel) sleep cost now b = elim (turn cost now b) [
  | served after ↦ acquired now after
  | sleeping missing after ↦ acquire_loop fuel sleep cost (now + sleep fuel missing) after
]

-- `acquire`
unfoldable pub acquire : ℕ → (ℕ → ℕ → ℕ) → ℕ → ℕ → Bucket → Acquired
unfolding acquire_loop
acquire fuel sleep cost now b =
    if ltb b.capacity cost then refused else acquire_loop fuel sleep cost now b

-- No more tokens than the capacity, and a rate that is positive.
pub record IsBucket (b : Bucket) : Type 0 where
  pub rate : 1 ≤ b.rate_per_minute
  pub within : b.tokens ≤ b.capacity

-- A caller that comes `gap` after the last one was served: the lock serves one at a time. It is
-- served within `turns` turns of the loop, or gives up.
pub record Request : Type 0 where
  pub gap : ℕ
  pub cost : ℕ
  pub turns : ℕ
  pub sleep : ℕ → ℕ → ℕ

pub record Served : Type 0 where
  pub tokens : ℕ
  pub at : ℕ
  pub bucket : Bucket

-- The tokens handed out, the time at the end and the bucket.
unfoldable pub serve : List Request → ℕ → Bucket → Served
unfolding acquire
serve [] now b = record { tokens = 0; at = now; bucket = b }
serve (r ∷ requests) now b = elim (acquire r.turns r.sleep r.cost (now + r.gap) b) [
  | acquired at after ↦ record (serve requests at after) {
    tokens = r.cost + (serve requests at after).tokens;
  }
  | _ ↦ serve requests (now + r.gap) b
]
