-- ===== src/Clients/Quota.antt =====
-- packages/request_rate_limit.py: the fixed-window quota in `api_rate_limit_windows`. A window is
-- the number of its minute; a row counts the requests of one identity in one window.
pub mod Limit
use procintel.Common.{
  ℕ, ◌+◌, ◌-◌, ◌/◌, Bool, ◌&&◌, ◌||◌, not, String, List, [], ◌∷◌, ltb, leb, ◌==◌, str_eq,
  if◌then◌else◌, any_of, max,
}
use procintel.Common.Clock.{minutes, seconds}
use procintel.Common.Table.{select_where}

pub record WindowRow : Type 0 where
  pub identity : String
  pub window : ℕ
  pub request_count : ℕ

pub record RateLimitDecision : Type 0 where
  pub allowed : Bool
  pub remaining : ℕ
  pub retry_after : ℕ

-- date_trunc('minute', clock_timestamp())
abbrev pub window_at : ℕ → ℕ
window_at now = now / minutes 1

abbrev pub counts_for : String → ℕ → WindowRow → Bool
counts_for identity window row = str_eq row.identity identity && row.window == window

-- The count of an identity in a window, 0 without a row.
unfoldable pub count_of : String → ℕ → List WindowRow → ℕ
count_of identity window [] = 0
count_of identity window (row ∷ rows) =
    if counts_for identity window row then row.request_count else count_of identity window rows

-- INSERT … ON CONFLICT (identity, window_start) DO UPDATE SET request_count = request_count + 1
unfoldable pub increment : String → ℕ → List WindowRow → List WindowRow
increment identity window [] =
    record { identity = identity; window = window; request_count = 1 } ∷ []
increment identity window (row ∷ rows) =
    if counts_for identity window row
    then record row { request_count = row.request_count + 1 } ∷ rows
    else row ∷ increment identity window rows

-- `tuple(dict.fromkeys(identity for identity in identities if identity))`
unfoldable pub unique_identities : List String → List String → List String
unique_identities seen [] = []
unique_identities seen (identity ∷ rest) =
    if str_eq identity "" || any_of (λ s. str_eq s identity) seen
    then unique_identities seen rest
    else identity ∷ unique_identities (identity ∷ seen) rest

unfoldable pub increment_all : List String → ℕ → List WindowRow → List WindowRow
unfolding increment
increment_all [] window rows = rows
increment_all (identity ∷ rest) window rows =
    increment_all rest window (increment identity window rows)

-- `max(int(row.request_count) for row in rows)` over the returned rows
unfoldable pub highest_count : List String → ℕ → List WindowRow → ℕ
unfolding count_of
highest_count [] window rows = 0
highest_count (identity ∷ rest) window rows =
    max (count_of identity window rows) (highest_count rest window rows)

-- GREATEST(1, CEIL(seconds to the end of the window))
abbrev pub seconds_left : ℕ → ℕ
seconds_left now = max 1 ((minutes (window_at now + 1) - now + (seconds 1 - 1)) / seconds 1)

pub data QuotaResult : Type 0 where
  decided : RateLimitDecision → QuotaResult
  bad_limit no_identity : QuotaResult

abbrev pub decision : ℕ → ℕ → List String → List WindowRow → RateLimitDecision
decision now limit unique rows = record {
  allowed = leb (highest_count unique (window_at now) rows) limit;
  remaining = limit - highest_count unique (window_at now) rows;
  retry_after = seconds_left now;
}

unfoldable pub quota_of : ℕ → ℕ → List String → List WindowRow → QuotaResult × List WindowRow
unfolding increment_all highest_count
quota_of now limit [] rows = (no_identity, rows)
quota_of now limit (identity ∷ rest) rows =
    let rows' = increment_all (identity ∷ rest) (window_at now) rows in
    (decided (decision now limit (identity ∷ rest) rows'), rows')

-- `consume_request_quota`
unfoldable pub consume_request_quota :
    ℕ → List String → ℕ → List WindowRow → QuotaResult × List WindowRow
unfolding quota_of unique_identities
consume_request_quota now identities limit rows =
    if limit == 0
    then (bad_limit, rows)
    else quota_of now limit (unique_identities [] identities) rows

abbrev pub is_old : ℕ → WindowRow → Bool
is_old now row = ltb (minutes row.window + minutes 5) now

-- `prune_request_quota`: the windows that started more than five minutes ago are deleted.
unfoldable pub prune_request_quota : ℕ → List WindowRow → List WindowRow
unfolding select_where
prune_request_quota now = select_where (λ row. not (is_old now row))
