-- ===== src/Clients/Tests.antt =====
-- The limits on small inputs.
use procintel.Common.{ℕ, ◌+◌, ◌/◌, ◌≤◌, ◌≡◌, refl, true, none, some, List, [], ◌∷◌, arith}
use procintel.Common.Clock.{seconds, minutes}
use procintel.Clients.Circuit.{
  CircuitBreaker, new_breaker, success, failure, check, run, IsCoherent, run-IsCoherent,
}
use procintel.Clients.Retry.{transient_server, raise_for_retryable_status, IsUniform}
use procintel.Clients.SlidingWindow.{Limiter, attempts, in_window, never_over_limit}
use procintel.Clients.Quota.{consume_request_quota}
use procintel.Clients.Quota.Limit.{Request, allowed_requests, allowed_requests-le}

abbrev breaker : CircuitBreaker
breaker = new_breaker 3 (seconds 60)

new-IsCoherent : IsCoherent breaker
new-IsCoherent = record {
  open_has_met = λ h. cc;
  closed_below = λ h. omega arith;
  closed_has_no_time = λ h. refl;
}

run-IsCoherent_example :
    IsCoherent (run (failure 1 ∷ failure 2 ∷ success ∷ failure 3 ∷ check 4 ∷ []) breaker)
run-IsCoherent_example =
    run-IsCoherent (failure 1 ∷ failure 2 ∷ success ∷ failure 3 ∷ check 4 ∷ []) breaker
      (omega arith) new-IsCoherent

abbrev opened : CircuitBreaker
opened = record breaker { consecutive_failures = 3; is_open = true; opened_at = some 10 }

abbrev middle : ℕ → ℕ → ℕ
middle lo hi = (lo + hi) / 2

middle-IsUniform : IsUniform middle
middle-IsUniform = record { above = λ lo hi h. omega arith; below = λ lo hi h. omega arith }

raises_503 : raise_for_retryable_status 503 none ≡ some (transient_server 503)
unfolding raise_for_retryable_status
raises_503 = refl

abbrev two_a_minute : Limiter
two_a_minute = record { request_limit = 2; window = seconds 60 }

abbrev times : List ℕ
times = 0 ∷ 10 ∷ 20 ∷ seconds 60 ∷ seconds 61 ∷ []

granted_times :
    (attempts two_a_minute times (record { stored = []; granted = [] })).granted
    ≡ 0 ∷ 10 ∷ seconds 60 ∷ seconds 61 ∷ []
unfolding attempts
granted_times = refl

never_over_limit_example :
    in_window two_a_minute
      (seconds 61)
      (attempts two_a_minute times (record { stored = []; granted = [] })).granted
    ≤ 2
never_over_limit_example = never_over_limit two_a_minute times (omega arith)

abbrev requests : List Request
requests =
    record { now = minutes 3; identities = "ip:1" ∷ "user:a" ∷ [] }
    ∷ record { now = minutes 3 + 5; identities = "ip:1" ∷ [] }
    ∷ record { now = minutes 3 + 9; identities = "ip:1" ∷ "user:b" ∷ [] }
    ∷ []

two_are_allowed : allowed_requests "ip:1" 3 2 requests [] ≡ 2
unfolding allowed_requests consume_request_quota
two_are_allowed = refl

allowed_requests-le_example : allowed_requests "ip:1" 3 2 requests [] ≤ 2
allowed_requests-le_example = allowed_requests-le "ip:1" 3 2 requests refl
