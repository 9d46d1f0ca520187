-- ===== src/Alerts/Digests/Tests.antt =====
-- services/alerts/digests.py on one daily rule, whose first digest fails.
use procintel.Common.{
  ℕ, ◌/◌, ◌%◌, ◌≤◌, ◌<◌, ◌≡◌, refl, true, List, [], ◌∷◌, some, none, map, ltb, if◌then◌else◌, All,
}
use procintel.Common.Clock.{minutes, day_length}
use procintel.Alerts.DigestRuns.{
  Schedule, date, RunKey, Rule, AlertEvent, Outside, World, Period, claim_digest_run, same_schedule,
  same_period,
}
use procintel.Alerts.Digests.{digest_of}
use procintel.Alerts.Digests.Contents.{sent_runs, digest_is_new}
use procintel.Alerts.Digests.Sending.{Sweep, sweeps, times_sent, sent_at_most_once}

abbrev nine : ℕ
nine = minutes 540

abbrev rule : Rule
rule = record {
  id = 1;
  tenant_id = 7;
  name = "Roads";
  is_active = true;
  schedule = Schedule.daily_digest;
  timezone = "Europe/Athens";
  digest_time = minutes 480;
  delivery_channels = "EMAIL" ∷ [];
  created_at = 0;
}

abbrev event : ℕ → ℕ → AlertEvent
event id triggered_at = record {
  id = id;
  alert_rule_id = 1;
  event_type = "NEW_NOTICE";
  triggered_at = triggered_at;
}

-- The channel fails before ten o'clock.
abbrev outside : Outside
outside = record {
  zone_exists = λ name. true;
  local_time = λ name now. record { date = now / day_length; time = now % day_length };
  raised = λ digest.
      if ltb (digest.period_ended_at % day_length) (minutes 600) then some "down" else none;
  fresh = λ now key. now;
}

abbrev sweep : ℕ → Sweep
sweep now = record { now = now; rules = rule ∷ []; events = event 5 100 ∷ event 4 50 ∷ [] }

abbrev day : List Sweep
day =
    sweep (minutes 60)
    ∷ sweep nine
    ∷ sweep (minutes 542)
    ∷ sweep (minutes 700)
    ∷ sweep (minutes 800)
    ∷ []

abbrev after_day : World
after_day = sweeps outside day (record { runs = []; sent = [] })

sent_once : map (λ d. map (λ e. e.id) d.events) after_day.sent ≡ (4 ∷ 5 ∷ []) ∷ []
unfolding sweeps same_schedule same_period
sent_once = refl

third_attempt : map (λ r. r.attempt_count) after_day.runs ≡ 2 ∷ []
unfolding sweeps same_schedule same_period
third_attempt = refl

abbrev today : RunKey
today = record { alert_rule_id = 1; schedule = Schedule.daily_digest; period_key = date 0 }

sent_at_most_once_example : times_sent today after_day.sent ≤ 1
sent_at_most_once_example = sent_at_most_once outside day today

digest_is_new_example :
    All
      (λ e.
        (e.triggered_at ≤ nine)
        × All (λ run. run.period_ended_at < e.triggered_at) (sent_runs 1 after_day.runs))
      (digest_of outside (event 9 (minutes 720) ∷ event 4 50 ∷ []) rule nine after_day.runs).events
digest_is_new_example =
    digest_is_new outside (event 9 (minutes 720) ∷ event 4 50 ∷ []) rule nine after_day.runs

abbrev period : Period
period = record {
  tenant_id = 7;
  period_start = 0;
  period_end = nine;
  event_count = 1;
  channels = [];
}

granted : (claim_digest_run 8 today period nine []).0 ≡ some (8, 1)
unfolding claim_digest_run
granted = refl
