-- ===== src/Orchestration/Tests.antt =====
-- A daily job and a backfill job, their windows, and a pass of the scheduler.
use procintel.Common.{
  ℕ, ◌+◌, ◌*◌, ◌≤◌, ◌≡◌, ◌⊎◌, refl, true, none, some, String, [], ◌∷◌, arith, str_eq, if◌then◌else◌,
}
use procintel.Common.Int.{ℤ, pos}
use procintel.Common.Clock.{date_of, day_length}
use procintel.Orchestration.Window.{ScheduledJob, window, compute_window}
use procintel.Orchestration.Rows.{
  RunReport, returned, raised, Store, SkipReason, JobRunOutcome, Outside,
}
use procintel.Orchestration.Runner.{find_cursor, window_of, run_job, outcomes, run_due_jobs}
use procintel.Orchestration.Coverage.{window_leaves_no_gap, window_advances}
use procintel.Orchestration.Watermark.{
  watermark, next_watermark, watermark_moves_on_success, no_second_run,
}

abbrev job : String → ℤ → ScheduledJob
job source lookback = record {
  source_system = source;
  resource_type = "ALL";
  partition_key = "GLOBAL";
  window_days = pos 30;
  backfill_start_date = 100;
  min_interval = 82_800_000_000;
  rolling_lookback_days = lookback;
}

abbrev daily : ScheduledJob
daily = job "KHMDHS" (pos 3)

abbrev backfill : ScheduledJob
backfill = job "TED" (pos 0)

abbrev noon : ℕ → ℕ
noon day = day * day_length + 43_200_000_000

daily_after_gap : compute_window (some 150) (some (noon 150)) daily (noon 200) ≡ window 151 180
unfolding compute_window
daily_after_gap = refl

daily_up_to_date : compute_window (some 199) (some (noon 199)) daily (noon 200) ≡ window 198 200
unfolding compute_window
daily_up_to_date = refl

backfill_start : compute_window none none backfill (noon 120) ≡ window 100 120
unfolding compute_window
backfill_start = refl

window_leaves_no_gap_example : 198 ≤ 199 + 1
window_leaves_no_gap_example =
    window_leaves_no_gap 199 (some (noon 199)) daily (noon 200) 198 200 (omega arith)
      daily_up_to_date

window_advances_example : ◌≡◌ {A = ℕ} 180 (date_of (noon 200)) ⊎ (150 + 30 ≤ 180)
window_advances_example =
    window_advances 150 (noon 150) daily (noon 200) 151 180 (omega arith) daily_after_gap

daily_early : compute_window none none daily (noon 90) ≡ window 100 90
unfolding compute_window
daily_early = refl

abbrev report : RunReport
report = record {
  records_fetched = 12;
  records_upserted = 10;
  records_unchanged = 2;
  records_failed = 0;
  enrichment_failed = 1;
  enrichment_callbacks_failed = 0;
  enrichment_succeeded = ("GEMI", 4) ∷ ("MEF", 3) ∷ [];
  enrichment_deferred = [];
  pages_fetched = 1;
  record_failures = [];
  enrichment_failures = "GEMI 1" ∷ [];
}

abbrev outside : Outside
outside = record {
  lock_is_free = λ j. true;
  run_window = λ j date_from date_to.
      if str_eq j.source_system "TED" then raised "timeout" else returned report;
  fresh = λ j. 1;
}

abbrev nothing_yet : Store
nothing_yet = record { cursors = []; runs = [] }

abbrev after_pass : Store
after_pass = (run_due_jobs outside (daily ∷ backfill ∷ []) (noon 120) nothing_yet).1

pass_outcomes :
    (run_due_jobs outside (daily ∷ backfill ∷ []) (noon 120) nothing_yet).0
    ≡ outcomes (
        JobRunOutcome.ran daily 118 120 report
        ∷ JobRunOutcome.failed backfill 100 120 "timeout"
        ∷ [])
unfolding run_due_jobs compute_window
pass_outcomes = refl

pass_watermarks :
    (watermark daily after_pass ≡ (some 120, some (noon 120)))
    × (watermark backfill after_pass ≡ (none, none))
unfolding run_due_jobs compute_window
pass_watermarks = (refl, refl)

watermark_moves_on_success_example :
    watermark daily (run_job outside daily (noon 120) nothing_yet).1
    ≡ next_watermark outside daily (noon 120) nothing_yet (window_of daily (noon 120) nothing_yet)
watermark_moves_on_success_example = watermark_moves_on_success outside daily (noon 120) nothing_yet

daily_due : window_of daily (noon 120) nothing_yet ≡ window 118 120
unfolding compute_window find_cursor
daily_due = refl

no_second_run_example :
    run_job outside daily (noon 120 + 3600) (run_job outside daily (noon 120) nothing_yet).1 ≡ (
      some (JobRunOutcome.skipped daily SkipReason.not_due_yet),
      (run_job outside daily (noon 120) nothing_yet).1,
    )
no_second_run_example =
    no_second_run outside outside daily (noon 120) (noon 120 + 3600) 118 120 report nothing_yet refl
      refl daily_due refl refl (omega arith)
