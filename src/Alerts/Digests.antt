-- ===== src/Alerts/Digests.antt =====
-- services/alerts/digests.py: the sweep that sends the daily and weekly digests of alert rules.
pub mod Keys
pub mod Lease
pub mod Sending
pub mod Contents
mod Tests
use procintel.Common.{
  ℕ, ◌+◌, Bool, true, false, Option, none, some, String, List, [], ◌∷◌, ◌++◌, ◌&&◌, ltb, leb, ◌==◌,
  if◌then◌else◌, max, length,
}
use procintel.Common.Table.{select_where, update_where, order_by}
use procintel.Alerts.DigestRuns.{
  AlertEvent, Digest, DigestRun, DigestStatus, LocalTime, Outside, Period, Rule, RunKey, Schedule,
  World, claim_digest_run, delivered, is_due, is_running, is_sent, period_key_of, retry_at,
}

-- max(period_ended_at) over the rule's delivered runs
unfoldable pub last_period_end : ℕ → List DigestRun → Option ℕ
unfolding is_sent
last_period_end rule_id [] = none
last_period_end rule_id (run ∷ runs) =
    let rest = last_period_end rule_id runs in
    if run.key.alert_rule_id == rule_id && is_sent run.status
    then elim rest [ none ↦ some run.period_ended_at | some e ↦ some (max run.period_ended_at e) ]
    else rest

abbrev pub period_start_of : Rule → List DigestRun → ℕ
period_start_of rule runs = elim (last_period_end rule.id runs) [
  | none ↦ rule.created_at
  | some e ↦ e
]

-- The events since the last digest, oldest first.
unfoldable pub events_since : ℕ → ℕ → ℕ → List AlertEvent → List AlertEvent
unfolding select_where order_by
events_since rule_id period_start now events =
    order_by (λ a b. leb a.triggered_at b.triggered_at)
      (select_where
        (λ e.
          e.alert_rule_id == rule_id && (ltb period_start e.triggered_at && leb e.triggered_at now))
        events)

abbrev pub last_id : List AlertEvent → ℕ
last_id [] = 0
last_id (e ∷ []) = e.id
last_id (e ∷ f ∷ es) = last_id (f ∷ es)

abbrev pub delivered_run : ℕ → DigestRun → DigestRun
delivered_run now run = record run {
  status = DigestStatus.delivered;
  delivered_at = some now;
  next_retry_at = none;
  error = none;
}

abbrev pub failed_run : ℕ → ℕ → String → DigestRun → DigestRun
failed_run now attempt_count error run = record run {
  status = DigestStatus.failed;
  next_retry_at = some (retry_at now attempt_count);
  error = some error;
}

abbrev pub leased_as : ℕ → DigestRun → Bool
leased_as run_id run = run.id == run_id && is_running run.status

-- The outcome of the delivery of a claimed run: what the channel raised, if it did.
unfoldable pub record_outcome : ℕ → ℕ × ℕ → Digest → World → Option String → World
unfolding update_where is_running retry_at
record_outcome now claim digest world none = record {
  runs = update_where (leased_as claim.0) (delivered_run now) world.runs;
  sent = world.sent ++ digest ∷ [];
}
record_outcome now claim digest world (some error) = record world {
  runs = update_where (leased_as claim.0) (failed_run now claim.1 error) world.runs;
}

-- The delivery of a claimed run; a digest with no events is not sent.
unfoldable pub deliver_run : Outside → ℕ → ℕ × ℕ → Digest → World → World
unfolding record_outcome
deliver_run out now claim digest world =
    if length digest.events == 0
    then record world { runs = update_where (leased_as claim.0) (delivered_run now) world.runs }
    else record_outcome now claim digest world (out.raised digest)

-- `_timezone`
abbrev pub zone_of : Outside → String → String
zone_of out name = if out.zone_exists name then name else "Europe/Athens"

abbrev pub local_now : Outside → Rule → ℕ → LocalTime
local_now out rule now = out.local_time (zone_of out rule.timezone) now

abbrev pub key_of : Outside → Rule → ℕ → RunKey
key_of out rule now = record {
  alert_rule_id = rule.id;
  schedule = rule.schedule;
  period_key = period_key_of rule.schedule (local_now out rule now);
}

abbrev pub digest_of : Outside → List AlertEvent → Rule → ℕ → List DigestRun → Digest
digest_of out events rule now runs =
    let start = period_start_of rule runs in
    let found = events_since rule.id start now events in
    record {
      key = key_of out rule now;
      alert_event_id = last_id found;
      period_started_at = start;
      period_ended_at = now;
      events = found;
    }

abbrev pub period_of : Rule → Digest → Period
period_of rule digest = record {
  tenant_id = rule.tenant_id;
  period_start = digest.period_started_at;
  period_end = digest.period_ended_at;
  event_count = length digest.events;
  channels = rule.delivery_channels;
}

-- What is added to `digests_created` and `events_included`, and the world after.
unfoldable pub claimed_delivery :
    Outside → ℕ → Digest → List Digest → Option (ℕ × ℕ) × List DigestRun → (ℕ × ℕ) × World
unfolding deliver_run
claimed_delivery out now digest sent (none, runs) = ((0, 0), record { runs = runs; sent = sent })
claimed_delivery out now digest sent (some claim, runs) = (
  (1, length digest.events),
  deliver_run out now claim digest (record { runs = runs; sent = sent }),
)

-- One round of the loop of `process_due_digests`.
unfoldable pub process_rule : Outside → List AlertEvent → ℕ → Rule → World → (ℕ × ℕ) × World
unfolding is_due claim_digest_run claimed_delivery last_period_end events_since period_key_of
process_rule out events now rule world =
    let digest = digest_of out events rule now world.runs in
    if is_due rule.schedule (local_now out rule now) rule.digest_time
    then claimed_delivery out now digest world.sent (
        claim_digest_run (out.fresh now digest.key) digest.key (period_of rule digest) now
          world.runs)
    else ((0, 0), world)

unfoldable pub process_rules : Outside → List AlertEvent → ℕ → List Rule → World → (ℕ × ℕ) × World
unfolding process_rule
process_rules out events now [] world = ((0, 0), world)
process_rules out events now (rule ∷ rules) world =
    let one = process_rule out events now rule world in
    let rest = process_rules out events now rules one.1 in
    ((one.0.0 + rest.0.0, one.0.1 + rest.0.1), rest.1)

pub record DigestSweepResult : Type 0 where
  pub rules_checked : ℕ
  pub digests_created : ℕ
  pub events_included : ℕ

unfoldable pub is_digest : Schedule → Bool
is_digest Schedule.immediate = false
is_digest _ = true

abbrev pub digest_rules : List Rule → List Rule
digest_rules rules = select_where (λ rule. rule.is_active && is_digest rule.schedule) rules

-- `process_due_digests`
unfoldable pub process_due_digests :
    Outside → List Rule → List AlertEvent → ℕ → World → DigestSweepResult × World
unfolding process_rules select_where is_digest
process_due_digests out rules events now world =
    let all = process_rules out events now (digest_rules rules) world in
    (
      record {
        rules_checked = length (digest_rules rules);
        digests_created = all.0.0;
        events_included = all.0.1;
      },
      all.1,
    )
