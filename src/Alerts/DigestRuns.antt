-- ===== src/Alerts/DigestRuns.antt =====
-- services/alerts/digests.py: when a digest is due, the rows of alert_digest_runs, and the lease of
-- a period in `_claim_digest_run`.
use procintel.Common.{
  ℕ, ◌+◌, ◌-◌, ◌*◌, ◌/◌, ◌%◌, ◌^◌, Bool, true, false, Option, none, some, String, List, [], ◌∷◌,
  ◌&&◌, leb, ◌==◌, if◌then◌else◌, min, null_or_le, null_or_older,
}
use procintel.Common.Clock.{minutes, seconds}

abbrev pub digest_lease_timeout : ℕ
digest_lease_timeout = minutes 15

abbrev pub digest_retry_base_seconds : ℕ
digest_retry_base_seconds = 300

abbrev pub digest_retry_cap_seconds : ℕ
digest_retry_cap_seconds = 21_600

pub data Schedule : Type 0 where
  immediate daily_digest weekly_digest : Schedule

-- A time in the zone of a rule: the number of the day, and the time since midnight.
pub record LocalTime : Type 0 where
  pub date : ℕ
  pub time : ℕ

-- The text of the key: a date, or the year and the number of an ISO week, for which the number of
-- the weeks since the epoch stands.
pub data PeriodKey : Type 0 where
  week : ℕ → PeriodKey
  date : ℕ → PeriodKey

-- `_period_key`; day 0 is a Thursday, and weeks start on Monday.
unfoldable pub period_key_of : Schedule → LocalTime → PeriodKey
period_key_of Schedule.weekly_digest local_now = week ((local_now.date + 3) / 7)
period_key_of _ local_now = date local_now.date

abbrev pub isoweekday : ℕ → ℕ
isoweekday d = (d + 3) % 7 + 1

-- `_is_due`
unfoldable pub is_due : Schedule → LocalTime → ℕ → Bool
is_due Schedule.immediate local_now digest_time = false
is_due Schedule.daily_digest local_now digest_time = leb digest_time local_now.time
is_due Schedule.weekly_digest local_now digest_time =
    leb digest_time local_now.time && isoweekday local_now.date == 1

-- `_retry_at`
unfoldable pub retry_at : ℕ → ℕ → ℕ
retry_at now attempt_count =
    now
    + seconds (min (digest_retry_base_seconds * 2 ^ (attempt_count - 1)) digest_retry_cap_seconds)

pub data DigestStatus : Type 0 where
  pending running delivered partly failed : DigestStatus

-- The columns of the unique index of alert_digest_runs.
pub record RunKey : Type 0 where
  pub alert_rule_id : ℕ
  pub schedule : Schedule
  pub period_key : PeriodKey

pub record DigestRun : Type 0 where
  pub id : ℕ
  pub key : RunKey
  pub tenant_id : ℕ
  pub period_started_at : ℕ
  pub period_ended_at : ℕ
  pub event_count : ℕ
  pub status : DigestStatus
  pub channels : List String
  pub error : Option String
  pub attempt_count : ℕ
  pub last_attempt_at : Option ℕ
  pub next_retry_at : Option ℕ
  pub delivered_at : Option ℕ

pub record Rule : Type 0 where
  pub id : ℕ
  pub tenant_id : ℕ
  pub name : String
  pub is_active : Bool
  pub schedule : Schedule
  pub timezone : String
  pub digest_time : ℕ
  pub delivery_channels : List String
  pub created_at : ℕ

pub record AlertEvent : Type 0 where
  pub id : ℕ
  pub alert_rule_id : ℕ
  pub event_type : String
  pub triggered_at : ℕ

-- What one call of the delivery channel is given.
pub record Digest : Type 0 where
  pub key : RunKey
  pub alert_event_id : ℕ
  pub period_started_at : ℕ
  pub period_ended_at : ℕ
  pub events : List AlertEvent

-- The time zones; what the delivery channel raises for a digest, if it does; the id for a new run.
pub record Outside : Type 0 where
  pub zone_exists : String → Bool
  pub local_time : String → ℕ → LocalTime
  pub raised : Digest → Option String
  pub fresh : ℕ → RunKey → ℕ

pub record World : Type 0 where
  pub runs : List DigestRun
  pub sent : List Digest

unfoldable pub same_schedule : Schedule → Schedule → Bool
same_schedule Schedule.immediate Schedule.immediate = true
same_schedule Schedule.daily_digest Schedule.daily_digest = true
same_schedule Schedule.weekly_digest Schedule.weekly_digest = true
same_schedule _ _ = false

unfoldable pub same_period : PeriodKey → PeriodKey → Bool
same_period (week a) (week b) = a == b
same_period (date a) (date b) = a == b
same_period _ _ = false

abbrev pub same_run : RunKey → RunKey → Bool
same_run k l =
    k.alert_rule_id == l.alert_rule_id
    && (same_schedule k.schedule l.schedule && same_period k.period_key l.period_key)

-- What `_claim_digest_run` is given, besides the key and the clock.
pub record Period : Type 0 where
  pub tenant_id : ℕ
  pub period_start : ℕ
  pub period_end : ℕ
  pub event_count : ℕ
  pub channels : List String

abbrev pub new_run : ℕ → RunKey → Period → ℕ → DigestRun
new_run id key p now = record {
  id = id;
  key = key;
  tenant_id = p.tenant_id;
  period_started_at = p.period_start;
  period_ended_at = p.period_end;
  event_count = p.event_count;
  status = DigestStatus.running;
  channels = p.channels;
  error = none;
  attempt_count = 1;
  last_attempt_at = some now;
  next_retry_at = none;
  delivered_at = none;
}

unfoldable pub is_reclaimable : ℕ → DigestStatus → Option ℕ → Option ℕ → Bool
is_reclaimable now DigestStatus.pending next_retry_at last_attempt_at = true
is_reclaimable now DigestStatus.failed next_retry_at last_attempt_at = null_or_le next_retry_at now
is_reclaimable now DigestStatus.running next_retry_at last_attempt_at =
    null_or_older last_attempt_at digest_lease_timeout now
is_reclaimable now _ next_retry_at last_attempt_at = false

abbrev pub can_reclaim : ℕ → DigestRun → Bool
can_reclaim now run = is_reclaimable now run.status run.next_retry_at run.last_attempt_at

abbrev pub reclaimed_run : Period → ℕ → DigestRun → DigestRun
reclaimed_run p now run = record run {
  status = DigestStatus.running;
  period_started_at = p.period_start;
  period_ended_at = p.period_end;
  event_count = p.event_count;
  channels = p.channels;
  error = none;
  attempt_count = run.attempt_count + 1;
  last_attempt_at = some now;
  next_retry_at = none;
}

-- `_claim_digest_run`: INSERT … ON CONFLICT DO NOTHING, then UPDATE … WHERE the key and a status
-- that can be leased. The unique index leaves one row at most under the key, the first here.
unfoldable pub claim_digest_run :
    ℕ → RunKey → Period → ℕ → List DigestRun → Option (ℕ × ℕ) × List DigestRun
unfolding is_reclaimable
claim_digest_run id key p now [] = (some (id, 1), new_run id key p now ∷ [])
claim_digest_run id key p now (run ∷ runs) =
    let rest = claim_digest_run id key p now runs in
    if same_run run.key key
    then (if can_reclaim now run
        then (some (run.id, run.attempt_count + 1), reclaimed_run p now run ∷ runs)
        else (none, run ∷ runs))
    else (rest.0, run ∷ rest.1)

unfoldable pub is_running : DigestStatus → Bool
is_running DigestStatus.running = true
is_running _ = false

unfoldable pub is_sent : DigestStatus → Bool
is_sent DigestStatus.delivered = true
is_sent DigestStatus.partly = true
is_sent _ = false
