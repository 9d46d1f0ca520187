-- ===== src/Clients/Retry.antt =====
-- packages/source_clients/retry.py: the exceptions that are retried, the status codes that raise
-- them, and the wait before the next attempt. Times are in microseconds, where the code has floats
-- of seconds; `uniform lo hi` stands for the draw of `random.uniform`.
use procintel.Common.{
  ℕ, ◌+◌, ◌-◌, ◌*◌, ◌/◌, ◌^◌, ◌≤◌, Bool, true, false, Option, none, some, leb, ◌==◌, if◌then◌else◌,
  arith, min,
}
use procintel.Common.Clock.{seconds}
use procintel.Common.Numbers.{two_pow_mono}

pub data Raised : Type 0 where
  rate_limited : (retry_after : Option ℕ) → Raised
  transient_server : (status : ℕ) → Raised
  transport : Raised
  other : Raised

-- `raise_for_retryable_status`; the header is given as the time that it names, `none` without one.
unfoldable pub raise_for_retryable_status : ℕ → Option ℕ → Option Raised
raise_for_retryable_status status retry_after =
    if status == 429
    then some (rate_limited retry_after)
    else if leb 500 status
    then some (transient_server status)
    else none

-- `retry_if_exception_type` of `retrying`
unfoldable pub is_retried : Raised → Bool
is_retried other = false
is_retried _ = true

abbrev pub limited_base : ℕ → ℕ
limited_base attempt_number = seconds (min 90 (10 * 2 ^ (attempt_number - 1)))

abbrev pub plain_base : ℕ → ℕ
plain_base attempt_number = seconds (min 60 (2 ^ (attempt_number - 1)))

-- `_wait_for_retry`
unfoldable pub wait_for_retry : (ℕ → ℕ → ℕ) → Raised → ℕ → ℕ
wait_for_retry uniform (rate_limited (some retry_after)) attempt_number = retry_after
wait_for_retry uniform (rate_limited none) attempt_number =
    uniform (limited_base attempt_number / 2) (limited_base attempt_number)
wait_for_retry uniform _ attempt_number = uniform 0 (plain_base attempt_number)

-- What is documented of `random.uniform`: the draw lies between its bounds.
pub record IsUniform (uniform : ℕ → ℕ → ℕ) : Type 0 where
  pub above : (lo hi : ℕ) → lo ≤ hi → lo ≤ uniform lo hi
  pub below : (lo hi : ℕ) → lo ≤ hi → uniform lo hi ≤ hi

-- With random numbers that stay between their bounds, the wait after a 429 without a hint of the
-- server lies between 5 and 90 seconds, and from the fifth attempt on it is at least 45; after a
-- 5xx or a transport error it is at most a minute.
pub wait_for_retry_bounds :
    (uniform : ℕ → ℕ → ℕ) (attempt_number status : ℕ)
    → IsUniform uniform
    → (seconds 5 ≤ wait_for_retry uniform (rate_limited none) attempt_number)
      × (wait_for_retry uniform (rate_limited none) attempt_number ≤ seconds 90)
      × (seconds 45 ≤ wait_for_retry uniform (rate_limited none) (5 + attempt_number))
      × (wait_for_retry uniform (transient_server status) attempt_number ≤ seconds 60)
      × (wait_for_retry uniform transport attempt_number ≤ seconds 60)
unfolding wait_for_retry
wait_for_retry_bounds uniform n status u =
    let one : 1 ≤ 2 ^ (n - 1) = two_pow_mono 0 (n - 1) (omega arith) in
    let sixteen : 16 ≤ 2 ^ (5 + n - 1) = two_pow_mono 4 (5 + n - 1) (omega arith) in
    (
      omega (arith, u.above (limited_base n / 2) (limited_base n) (omega arith)),
      omega (arith, u.below (limited_base n / 2) (limited_base n) (omega arith)),
      omega (arith, u.above (limited_base (5 + n) / 2) (limited_base (5 + n)) (omega arith)),
      omega (arith, u.below 0 (plain_base n) (omega arith)),
      omega (arith, u.below 0 (plain_base n) (omega arith)),
    )
