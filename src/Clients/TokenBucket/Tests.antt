-- ===== src/Clients/TokenBucket/Tests.antt =====
-- Runs of the token bucket: 180 requests a minute, a burst of two.
use procintel.Common.{
  ℕ, ◌==◌, if◌then◌else◌, ◌*◌, ◌+◌, ◌-◌, ◌≤◌, ◌≡◌, refl, none, some, List, [], ◌∷◌, arith,
}
use procintel.Clients.TokenBucket.{
  parts, Bucket, new_bucket, acquired, acquire, IsBucket, Request, serve,
}
use procintel.Clients.TokenBucket.Waits.{acquire-terminates}
use procintel.Clients.TokenBucket.Rate.{serve-within_rate}

abbrev bucket : Bucket
bucket = record { rate_per_minute = 180; capacity = 2 * parts; tokens = parts; updated_at = 1_000 }

burst_of_two : new_bucket 180 (some 2) 1_000 ≡ some (record bucket { tokens = 2 * parts })
unfolding new_bucket
burst_of_two = refl

no_rate : new_bucket 0 none 1_000 ≡ none
unfolding new_bucket
no_rate = refl

bucket-IsBucket : IsBucket bucket
bucket-IsBucket = record { rate = omega arith; within = omega arith }

-- The token that is missing takes a third of a second: a sleep that ends a microsecond early has
-- one more turn.
abbrev early : ℕ → ℕ → ℕ
early left missing = if left == 3 then 333_333 else 5

sleeps_twice :
    acquire 4 early (2 * parts) 1_000 bucket
    ≡ acquired 334_338 (record bucket { tokens = 0; updated_at = 334_338 })
unfolding acquire
sleeps_twice = refl

early-moves : (left missing : ℕ) → 1 ≤ early left missing
early-moves left missing = ground arith

acquire-terminates_example :
    (at : ℕ) × (after : Bucket) × (acquire 333_335 early (2 * parts) 1_000 bucket
      ≡ acquired at after)
acquire-terminates_example =
    acquire-terminates 333_334 early (2 * parts) 1_000 bucket early-moves (omega arith)
      (omega arith)

abbrev requests : List Request
requests =
    record { gap = 0; cost = parts; turns = 2; sleep = early }
    ∷ record { gap = 0; cost = parts; turns = 2; sleep = λ left missing. 333_334 }
    ∷ record { gap = 10; cost = 3 * parts; turns = 2; sleep = early }
    ∷ []

two_are_served : (serve requests 1_000 bucket).tokens ≡ 2 * parts
unfolding serve
two_are_served = refl

serve-within_rate_example :
    (serve requests 1_000 bucket).tokens
    ≤ 2 * parts + ((serve requests 1_000 bucket).at - 1_000) * 180
serve-within_rate_example = serve-within_rate requests bucket bucket-IsBucket
