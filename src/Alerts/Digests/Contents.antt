-- ===== src/Alerts/Digests/Contents.antt =====
-- services/alerts/digests.py: which events go into a digest.
use procintel.Common.{
  ℕ, ◌≤◌, ◌<◌, ◌≡◌, refl, ◌&&◌, Option, some, none, List, [], ◌∷◌, ltb, leb, ◌==◌, arith,
  Bool-cases, inl, inr, and→both, All, All-map, max, ltb→lt, leb→le,
}
use procintel.Common.Table.{select_where, All-order_by, All-select_where, All-true}
use procintel.Alerts.DigestRuns.{DigestRun, Rule, AlertEvent, Outside, is_sent}
use procintel.Alerts.Digests.{last_period_end, period_start_of, events_since, digest_of}

-- The runs of a rule that were sent.
abbrev pub sent_runs : ℕ → List DigestRun → List DigestRun
sent_runs rule_id = select_where (λ run. run.key.alert_rule_id == rule_id && is_sent run.status)

abbrev EndsBy : ℕ → DigestRun → Type 0
EndsBy e run = run.period_ended_at ≤ e

abbrev Bounds : Option ℕ → List DigestRun → Type 0
Bounds none runs = runs ≡ []
Bounds (some e) runs = All (EndsBy e) runs

Bounds-step :
    (run : DigestRun) (found : Option ℕ) (runs : List DigestRun)
    → Bounds found runs
    → Bounds
        (elim found [ none ↦ some run.period_ended_at | some e ↦ some (max run.period_ended_at e) ])
        (run ∷ runs)
Bounds-step run none runs h = rw h (omega arith, tt)
Bounds-step run (some e) runs h = (
  omega arith,
  All-map (EndsBy e) (EndsBy (max run.period_ended_at e)) runs (λ r le. omega arith) h,
)

last_period_end-Bounds :
    (rule_id : ℕ) (runs : List DigestRun)
    → Bounds (last_period_end rule_id runs) (sent_runs rule_id runs)
unfolding last_period_end select_where
last_period_end-Bounds rule_id [] = refl
last_period_end-Bounds rule_id (run ∷ runs) =
    let sent : _ = run.key.alert_rule_id == rule_id && is_sent run.status in
    elim (Bool-cases sent) [
      | inl hit ↦ rw hit (
          Bounds-step run (last_period_end rule_id runs) (sent_runs rule_id runs)
            (last_period_end-Bounds rule_id runs))
      | inr miss ↦ rw miss (last_period_end-Bounds rule_id runs)
    ]

start-Bounds :
    (created_at : ℕ) (found : Option ℕ) (runs : List DigestRun)
    → Bounds found runs
    → All (EndsBy (elim found [ none ↦ created_at | some e ↦ e ])) runs
start-Bounds created_at none runs h = rw h tt
start-Bounds created_at (some e) runs h = h

events_since_bounds :
    (rule_id start now : ℕ) (events : List AlertEvent)
    → All
        (λ e. (start < e.triggered_at) × (e.triggered_at ≤ now))
        (events_since rule_id start now events)
unfolding events_since
events_since_bounds rule_id start now events =
    All-order_by (λ e. (start < e.triggered_at) × (e.triggered_at ≤ now))
      (λ a b. leb a.triggered_at b.triggered_at)
      (select_where
        (λ e. e.alert_rule_id == rule_id && (ltb start e.triggered_at && leb e.triggered_at now))
        events)
      (All-select_where (λ e. Unit {0}) (λ e. (start < e.triggered_at) × (e.triggered_at ≤ now))
        (λ e. e.alert_rule_id == rule_id && (ltb start e.triggered_at && leb e.triggered_at now))
        events
        (λ e hit _.
          let later : _ = and→both (e.alert_rule_id == rule_id) _ hit in
          let bounds : _ = and→both (ltb start e.triggered_at) _ later.1 in
          (ltb→lt start e.triggered_at bounds.0, leb→le e.triggered_at now bounds.1))
        (All-true events))

-- Each event of a digest is triggered by the time of the sweep, and after the end of the period of
-- every run of the rule that is marked as sent.
pub digest_is_new :
    (out : Outside) (events : List AlertEvent) (rule : Rule) (now : ℕ) (runs : List DigestRun)
    → All
        (λ e.
          (e.triggered_at ≤ now)
          × All (λ run. run.period_ended_at < e.triggered_at) (sent_runs rule.id runs))
        (digest_of out events rule now runs).events
digest_is_new out events rule now runs =
    let start : ℕ = period_start_of rule runs in
    let ends : All (EndsBy start) (sent_runs rule.id runs) =
      start-Bounds rule.created_at (last_period_end rule.id runs) (sent_runs rule.id runs)
        (last_period_end-Bounds rule.id runs) in
    All-map (λ e. (start < e.triggered_at) × (e.triggered_at ≤ now))
      (λ e.
        (e.triggered_at ≤ now)
        × All (λ run. run.period_ended_at < e.triggered_at) (sent_runs rule.id runs))
      (events_since rule.id start now events)
      (λ e b. (
        b.1,
        All-map (EndsBy start) (λ run. run.period_ended_at < e.triggered_at)
            (sent_runs rule.id runs) (λ run le. omega (arith, le, b.0)) ends,
      ))
      (events_since_bounds rule.id start now events)
