-- ===== src/Orchestration/Window.antt =====
-- services/ingestion/orchestration/scheduler.py: a job, its cursor, and the dates of its next run.
-- A date is its number of days; a stored cursor is its `last_ingested_date`, and `none` stands for
-- a missing row, NULL, and the `{}` that a first attempt stores.
use procintel.Common.{
  ℕ, ◌+◌, ◌-◌, Bool, false, Option, none, some, String, ltb, if◌then◌else◌, ◌==◌, min, max,
}
use procintel.Common.Int.{ℤ, pos, ltb_ℤ, leb_ℤ, pos_part}
use procintel.Common.Clock.{date_of}

pub record ScheduledJob : Type 0 where
  pub source_system : String
  pub resource_type : String
  pub partition_key : String
  pub window_days : ℤ
  pub backfill_start_date : ℕ
  pub min_interval : ℕ
  pub rolling_lookback_days : ℤ

pub data Window : Type 0 where
  window : (date_from date_to : ℕ) → Window
  not_due : Window
  -- the two ValueErrors
  bad_window_days bad_lookback_days : Window

abbrev pub is_fresh : Option ℕ → ℕ → ℕ → Bool
is_fresh none min_interval now = false
is_fresh (some last_success_at) min_interval now = ltb now (last_success_at + min_interval)

-- The window with a rolling lookback of `lookback` days, which is not zero.
unfoldable pub rolling_window : Option ℕ → ℕ → ℕ → ℕ → ℕ → Window
rolling_window cursor start days lookback today =
    let rolling_date_from = max start (today - (lookback - 1)) in
    elim cursor [
      | none ↦ window rolling_date_from today
      | some last_ingested ↦
          if ltb (last_ingested + 1) rolling_date_from
          then window (max start (last_ingested + 1))
              (min (max start (last_ingested + 1) + (days - 1)) today)
          else window rolling_date_from today
    ]

-- `date_from` of a job without a lookback
unfoldable pub resume_date : Option ℕ → Option ℕ → ℕ → ℕ
resume_date cursor none start = start
resume_date none (some last_success_at) start = start + 1
resume_date (some last_ingested) (some last_success_at) start = last_ingested + 1

unfoldable pub backfill_window : Option ℕ → Option ℕ → ℕ → ℕ → ℕ → Window
unfolding resume_date
backfill_window cursor last_success_at start days today =
    let date_from = resume_date cursor last_success_at start in
    if ltb today date_from then not_due else window date_from (min (date_from + (days - 1)) today)

-- `compute_window`
unfoldable pub compute_window : Option ℕ → Option ℕ → ScheduledJob → ℕ → Window
unfolding rolling_window backfill_window
compute_window cursor last_success_at job now =
    if leb_ℤ job.window_days (pos 0)
    then bad_window_days
    else if ltb_ℤ job.rolling_lookback_days (pos 0)
    then bad_lookback_days
    else if is_fresh last_success_at job.min_interval now
    then not_due
    else if pos_part job.rolling_lookback_days == 0
    then backfill_window cursor last_success_at job.backfill_start_date (pos_part job.window_days)
        (date_of now)
    else rolling_window cursor job.backfill_start_date (pos_part job.window_days)
        (pos_part job.rolling_lookback_days) (date_of now)
