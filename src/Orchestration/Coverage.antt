-- ===== src/Orchestration/Coverage.antt =====
-- The dates that a window covers.
use procintel.Common.{ℕ, ◌+◌, ◌≤◌, ◌<◌, ◌≡◌, ◌⊎◌, Option, none, some, arith}
use procintel.Common.Int.{pos_part}
use procintel.Common.Clock.{date_of}
use procintel.Orchestration.Window.{ScheduledJob, window, compute_window}

-- A window that a due job gets begins on or before the day it ends, which is never in the future,
-- once the job's first day has come.
pub window_in_order :
    (cursor last_success_at : Option ℕ) (job : ScheduledJob) (now date_from date_to : ℕ)
    → job.backfill_start_date ≤ date_of now
    → compute_window cursor last_success_at job now ≡ window date_from date_to
    → (date_from ≤ date_to) × (date_to ≤ date_of now)
unfolding compute_window
window_in_order cursor last_success_at job now date_from date_to started h = ground arith

-- Where the job's first day is not after the day that follows the last one ingested, no day is
-- skipped: the next window begins at the latest on that day.
pub window_leaves_no_gap :
    (last_ingested : ℕ) (last_success_at : Option ℕ) (job : ScheduledJob)
    (now date_from date_to : ℕ)
    → job.backfill_start_date ≤ last_ingested + 1
    → compute_window (some last_ingested) last_success_at job now ≡ window date_from date_to
    → date_from ≤ last_ingested + 1
unfolding compute_window
window_leaves_no_gap last_ingested last_success_at job now date_from date_to started h =
    ground arith

-- For a job that has succeeded before, and whose first day is not after the day that follows the
-- last one ingested, a window ends today, or at least a whole window after the last day ingested.
pub window_advances :
    (last_ingested last_success : ℕ) (job : ScheduledJob) (now date_from date_to : ℕ)
    → job.backfill_start_date ≤ last_ingested + 1
    → compute_window (some last_ingested) (some last_success) job now ≡ window date_from date_to
    → (date_to ≡ date_of now) ⊎ (last_ingested + pos_part job.window_days ≤ date_to)
unfolding compute_window
window_advances last_ingested last_success job now date_from date_to started h = ground arith

-- With a lookback, a job that has no cursor and whose first day is still to come gets, when it gets
-- a window, one that ends before it begins.
pub lookback_before_first_day :
    (cursor last_success_at : Option ℕ) (job : ScheduledJob) (now date_from date_to : ℕ)
    → date_of now < job.backfill_start_date
    → 0 < pos_part job.rolling_lookback_days
    → cursor ≡ none
    → compute_window cursor last_success_at job now ≡ window date_from date_to
    → (date_from ≡ job.backfill_start_date) × (date_to < date_from)
unfolding compute_window
lookback_before_first_day cursor last_success_at job now date_from date_to early some_days e h =
    ground arith
