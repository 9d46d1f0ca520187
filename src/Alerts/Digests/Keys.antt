-- ===== src/Alerts/Digests/Keys.antt =====
-- services/alerts/digests.py: the keys of alert_digest_runs.
use procintel.Common.{◌≡◌, refl, ◌∙◌, ap, true, false, ◌==◌, ==→eq, and→both, arith}
use procintel.Alerts.DigestRuns.{
  Schedule, PeriodKey, week, date, RunKey, same_schedule, same_period, same_run,
}

same_schedule-eq : (s t : Schedule) → same_schedule s t ≡ true → s ≡ t
unfolding same_schedule
same_schedule-eq Schedule.immediate Schedule.immediate h = refl
same_schedule-eq Schedule.immediate Schedule.daily_digest h = cc
same_schedule-eq Schedule.immediate Schedule.weekly_digest h = cc
same_schedule-eq Schedule.daily_digest Schedule.immediate h = cc
same_schedule-eq Schedule.daily_digest Schedule.daily_digest h = refl
same_schedule-eq Schedule.daily_digest Schedule.weekly_digest h = cc
same_schedule-eq Schedule.weekly_digest Schedule.immediate h = cc
same_schedule-eq Schedule.weekly_digest Schedule.daily_digest h = cc
same_schedule-eq Schedule.weekly_digest Schedule.weekly_digest h = refl

same_period-eq : (p q : PeriodKey) → same_period p q ≡ true → p ≡ q
unfolding same_period
same_period-eq (week a) (week b) h = ap week (==→eq a b h)
same_period-eq (week a) (date b) h = cc
same_period-eq (date a) (week b) h = cc
same_period-eq (date a) (date b) h = ap date (==→eq a b h)

pub same_run-eq : (k l : RunKey) → same_run k l ≡ true → k ≡ l
same_run-eq k l h =
    let r : _ = and→both (k.alert_rule_id == l.alert_rule_id) _ h in
    let s : _ = and→both (same_schedule k.schedule l.schedule) _ r.1 in
    ap (λ v. record { alert_rule_id = v; schedule = k.schedule; period_key = k.period_key })
      (==→eq k.alert_rule_id l.alert_rule_id r.0)
    ∙ (ap (λ v. record { alert_rule_id = l.alert_rule_id; schedule = v; period_key = k.period_key })
          (same_schedule-eq k.schedule l.schedule s.0)
        ∙ ap
            (λ v. record { alert_rule_id = l.alert_rule_id; schedule = l.schedule; period_key = v })
            (same_period-eq k.period_key l.period_key s.1))

same_schedule_refl : (s : Schedule) → same_schedule s s ≡ true
unfolding same_schedule
same_schedule_refl Schedule.immediate = refl
same_schedule_refl Schedule.daily_digest = refl
same_schedule_refl Schedule.weekly_digest = refl

same_period_refl : (p : PeriodKey) → same_period p p ≡ true
unfolding same_period
same_period_refl (week a) = ground arith
same_period_refl (date a) = ground arith

pub same_run_refl : (k : RunKey) → same_run k k ≡ true
same_run_refl k =
    rw (same_schedule_refl k.schedule) (rw (same_period_refl k.period_key) (ground arith))

pub same_run-other :
    (k l m : RunKey) → same_run l k ≡ false → same_run m l ≡ true → same_run m k ≡ false
same_run-other k l m apart same = rw (same_run-eq m l same) apart
