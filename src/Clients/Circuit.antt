-- ===== src/Clients/Circuit.antt =====
-- packages/source_clients/retry.py: `CircuitBreaker`. The monotonic clock and the timeout are in
-- microseconds, where the code has a float of seconds.
use procintel.Common.{
  ℕ, zero, suc, ◌+◌, ◌-◌, ◌≤◌, ◌<◌, ◌≡◌, refl, Bool, true, false, Option, none, some, List, [], ◌∷◌,
  ltb, leb, ◌==◌, if◌then◌else◌, arith, Bool-cases, inl, inr, ◌∙◌, tests, lt→ltb,
}

pub record CircuitBreaker : Type 0 where
  pub failure_threshold : ℕ
  pub recovery_timeout : ℕ
  pub consecutive_failures : ℕ
  pub is_open : Bool
  pub opened_at : Option ℕ

abbrev pub new_breaker : ℕ → ℕ → CircuitBreaker
new_breaker failure_threshold recovery_timeout = record {
  failure_threshold = failure_threshold;
  recovery_timeout = recovery_timeout;
  consecutive_failures = 0;
  is_open = false;
  opened_at = none;
}

unfoldable pub record_success : CircuitBreaker → CircuitBreaker
record_success b = record b { consecutive_failures = 0; is_open = false; opened_at = none }

unfoldable pub record_failure : ℕ → CircuitBreaker → CircuitBreaker
record_failure now b =
    if leb b.failure_threshold (b.consecutive_failures + 1)
    then record b {
      consecutive_failures = b.consecutive_failures + 1;
      is_open = true;
      opened_at = some now;
    }
    else record b { consecutive_failures = b.consecutive_failures + 1 }

-- `self._opened_at or 0.0`
abbrev pub opened_time : Option ℕ → ℕ
opened_time none = 0
opened_time (some t) = t

-- `max(0.0, self.recovery_timeout - elapsed)`, on a clock that does not run backwards.
abbrev pub remaining : ℕ → CircuitBreaker → ℕ
remaining now b = b.recovery_timeout - (now - opened_time b.opened_at)

pub data Check : Type 0 where
  passed : Check
  -- CircuitOpenError with its `retry_after`
  circuit_open : (retry_after : ℕ) → Check

-- `raise_if_open`
unfoldable pub raise_if_open : ℕ → CircuitBreaker → Check × CircuitBreaker
raise_if_open now b =
    if b.is_open
    then (if remaining now b == 0
        then (passed, record b { is_open = false; opened_at = none; consecutive_failures = 0 })
        else (circuit_open (remaining now b), b))
    else (passed, b)

-- An open breaker has the time at which it opened and has met its threshold; a closed one has
-- neither.
pub record IsCoherent (b : CircuitBreaker) : Type 0 where
  pub open_has_met : b.is_open ≡ true → b.failure_threshold ≤ b.consecutive_failures
  pub closed_below : b.is_open ≡ false → b.consecutive_failures < b.failure_threshold
  pub closed_has_no_time : b.is_open ≡ false → b.opened_at ≡ none

pub data Event : Type 0 where
  success : Event
  failure : (now : ℕ) → Event
  check : (now : ℕ) → Event

unfoldable pub step : Event → CircuitBreaker → CircuitBreaker
unfolding record_success record_failure raise_if_open
step success b = record_success b
step (failure now) b = record_failure now b
step (check now) b = (raise_if_open now b).1

unfoldable pub run : List Event → CircuitBreaker → CircuitBreaker
unfolding step
run [] b = b
run (e ∷ es) b = run es (step e b)

threshold-step :
    (e : Event) (b : CircuitBreaker) → (step e b).failure_threshold ≡ b.failure_threshold
unfolding step
threshold-step success b = refl
threshold-step (failure now) b = ground arith
threshold-step (check now) b = ground arith

step-IsCoherent :
    (e : Event) (b : CircuitBreaker)
    → 0 < b.failure_threshold
    → IsCoherent b
    → IsCoherent (step e b)
unfolding step
step-IsCoherent success b pos h = ground arith
step-IsCoherent (failure now) b pos h = ground arith
step-IsCoherent (check now) b pos h = ground arith

-- With a positive threshold every sequence of calls keeps a coherent breaker coherent: it is open
-- exactly when its consecutive failures have met the threshold, and a closed one has no opening
-- time.
pub run-IsCoherent :
    (es : List Event) (b : CircuitBreaker)
    → 0 < b.failure_threshold
    → IsCoherent b
    → IsCoherent (run es b)
unfolding run
run-IsCoherent [] b pos h = h
run-IsCoherent (e ∷ es) b pos h =
    run-IsCoherent es (step e b) (rw (threshold-step e b) pos) (step-IsCoherent e b pos h)

-- `n` failures in a row, at the time `now`.
abbrev pub failures : ℕ → ℕ → List Event
failures now zero = []
failures now (suc n) = failure now ∷ failures now n

failures-count :
    (now n : ℕ) (b : CircuitBreaker)
    → b.is_open ≡ false
    → b.consecutive_failures + n < b.failure_threshold
    → (run (failures now n) b).is_open ≡ false
unfolding run
failures-count now zero b closed h = closed
failures-count now (suc n) b closed h =
    failures-count now n (step (failure now) b) (unfold step in ground arith)
      (unfold step in ground arith)

open-stays :
    (now n : ℕ) (b : CircuitBreaker)
    → 0 < n
    → b.failure_threshold ≤ b.consecutive_failures + n
    → ((run (failures now n) b).is_open ≡ true) × ((run (failures now n) b).opened_at ≡ some now)
unfolding run
open-stays now zero b h k = absurd (omega arith)
open-stays now (suc zero) b h k = unfold step in ground arith
open-stays now (suc (suc n)) b h k =
    open-stays now (suc n) (step (failure now) b) (omega arith) (unfold step in ground arith)

timeout-step : (e : Event) (b : CircuitBreaker) → (step e b).recovery_timeout ≡ b.recovery_timeout
unfolding step
timeout-step success b = refl
timeout-step (failure now) b = ground arith
timeout-step (check now) b = ground arith

timeout-run :
    (es : List Event) (b : CircuitBreaker) → (run es b).recovery_timeout ≡ b.recovery_timeout
unfolding run
timeout-run [] b = refl
timeout-run (e ∷ es) b = timeout-run es (step e b) ∙ timeout-step e b

check-closed :
    (later : ℕ) (b : CircuitBreaker) → b.is_open ≡ false → (raise_if_open later b).0 ≡ passed
unfolding raise_if_open
check-closed later b h = ground arith

check-open :
    (later timeout : ℕ) (b : CircuitBreaker) (opened : ℕ)
    → b.is_open ≡ true
    → b.opened_at ≡ some opened
    → b.recovery_timeout ≡ timeout
    → opened ≤ later
    → later < opened + timeout
    → (raise_if_open later b).0 ≡ circuit_open (opened + timeout - later)
unfolding raise_if_open
check-open later timeout b opened o t e after before = ground arith

-- From a fresh breaker, calls are let through until the threshold is met, and from then on until
-- the timeout has passed since the last failure every call is refused with the time that is left.
pub opens_at_threshold :
    (threshold timeout now later n : ℕ)
    → 0 < n
    → now ≤ later
    → later < now + timeout
    → (raise_if_open later (run (failures now n) (new_breaker threshold timeout))).0
      ≡ (if ltb n threshold then passed else circuit_open (now + timeout - later))
opens_at_threshold threshold timeout now later n pos after before =
    let b : CircuitBreaker = run (failures now n) (new_breaker threshold timeout) in
    elim (Bool-cases (ltb n threshold)) [
      | inl few ↦ rw few (
          check-closed later b
            (failures-count now n (new_breaker threshold timeout) refl (omega tests)))
      | inr many ↦
          let (o, t) =
            open-stays now n (new_breaker threshold timeout) pos
              (ground (arith, lt→ltb n threshold)) in
          rw many (
            check-open later timeout b now o t
              (timeout-run (failures now n) (new_breaker threshold timeout)) after before)
    ]

-- Once the timeout has passed since an open breaker was opened, the next call is let through and
-- the breaker is as good as new.
pub recovers_after_timeout :
    (b : CircuitBreaker) (opened later : ℕ)
    → b.is_open ≡ true
    → b.opened_at ≡ some opened
    → opened + b.recovery_timeout ≤ later
    → raise_if_open later b ≡ (passed, new_breaker b.failure_threshold b.recovery_timeout)
unfolding raise_if_open
recovers_after_timeout b opened later o t h = ground arith
