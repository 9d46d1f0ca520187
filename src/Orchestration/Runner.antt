-- ===== src/Orchestration/Runner.antt =====
-- services/ingestion/orchestration/scheduler.py: `run_due_jobs` over the tables `source_cursors` and
-- `connector_runs`. The advisory lock and the connectors' `run_window` are parameters: the first
-- says whether the lock was free, the second what the run reports, or the exception that ended it.
use procintel.Common.{
  ℕ, ◌+◌, Bool, true, false, ◌&&◌, Option, none, some, String, List, [], ◌∷◌, ◌++◌, ◌==◌, str_eq,
  if◌then◌else◌, take,
}
use procintel.Common.Table.{update_where}
use procintel.Orchestration.Window.{
  ScheduledJob, Window, window, not_due, bad_window_days, bad_lookback_days, compute_window,
}
use procintel.Orchestration.Rows.{
  ConnectorRun, CursorRow, JobRunOutcome, Outside, RunError, RunReport, RunStatus, RunWindow,
  SkipReason, Store, raised, returned,
}

abbrev pub is_cursor_of : ScheduledJob → CursorRow → Bool
is_cursor_of job row =
    str_eq row.source_system job.source_system
    && (str_eq row.resource_type job.resource_type && str_eq row.partition_key job.partition_key)

-- `.first()` of the SELECT
unfoldable pub find_cursor : ScheduledJob → List CursorRow → Option CursorRow
find_cursor job [] = none
find_cursor job (row ∷ rows) = if is_cursor_of job row then some row else find_cursor job rows

abbrev pub cursor_value_of : Option CursorRow → Option ℕ
cursor_value_of none = none
cursor_value_of (some row) = row.cursor_value

abbrev pub last_success_of : Option CursorRow → Option ℕ
last_success_of none = none
last_success_of (some row) = row.last_success_at

abbrev pub started_run : ℕ → ScheduledJob → ℕ → ℕ → ConnectorRun
started_run id job date_from date_to = record {
  id = id;
  source_system = job.source_system;
  resource_type = job.resource_type;
  date_from = date_from;
  date_to = date_to;
  status = RunStatus.running;
  finished = false;
  records_fetched = 0;
  records_upserted = 0;
  records_unchanged = 0;
  records_failed = 0;
  enrichment_succeeded = 0;
  enrichment_failed = 0;
  enrichment_deferred = 0;
  pages_fetched = 0;
  metrics = none;
  error = none;
}

abbrev pub first_cursor : ScheduledJob → ℕ → CursorRow
first_cursor job now = record {
  source_system = job.source_system;
  resource_type = job.resource_type;
  partition_key = job.partition_key;
  cursor_value = none;
  last_success_at = none;
  last_attempt_at = some now;
  last_error = none;
}

-- The row of the job is inserted, or its `last_attempt_at` is set.
unfoldable pub mark_attempt : ScheduledJob → ℕ → Option CursorRow → List CursorRow → List CursorRow
unfolding update_where
mark_attempt job now none rows = rows ++ first_cursor job now ∷ []
mark_attempt job now (some row) rows =
    update_where (is_cursor_of job) (λ r. record r { last_attempt_at = some now }) rows

unfoldable pub sum_values : List (String × ℕ) → ℕ
sum_values [] = 0
sum_values ((k, n) ∷ rest) = n + sum_values rest

abbrev pub enrichment_failures_of : RunReport → ℕ
enrichment_failures_of report = report.enrichment_failed + report.enrichment_callbacks_failed

abbrev pub run_error : RunReport → Option RunError
run_error report =
    if report.records_failed + enrichment_failures_of report == 0
    then none
    else some (
        RunError.partial report.records_failed (enrichment_failures_of report)
          (take 10 (report.record_failures ++ report.enrichment_failures)))

abbrev pub failed_cursor : String → CursorRow → CursorRow
failed_cursor error row = record row { last_error = some (RunError.message error) }

-- The watermark moves only when no record of the source failed.
abbrev pub finished_cursor : ℕ → ℕ → RunReport → CursorRow → CursorRow
finished_cursor now date_to report row = record row {
  last_error = run_error report;
  cursor_value = if report.records_failed == 0 then some date_to else row.cursor_value;
  last_success_at = if report.records_failed == 0 then some now else row.last_success_at;
}

abbrev pub failed_run : String → ConnectorRun → ConnectorRun
failed_run error run = record run {
  status = RunStatus.failed;
  finished = true;
  error = some (RunError.message error);
}

abbrev pub finished_run : RunReport → ConnectorRun → ConnectorRun
finished_run report run = record run {
  status =
      if report.records_failed + enrichment_failures_of report == 0
      then RunStatus.succeeded
      else RunStatus.partly;
  finished = true;
  records_fetched = report.records_fetched;
  records_upserted = report.records_upserted;
  records_unchanged = report.records_unchanged;
  records_failed = report.records_failed;
  enrichment_succeeded = sum_values report.enrichment_succeeded;
  enrichment_failed = enrichment_failures_of report;
  enrichment_deferred = sum_values report.enrichment_deferred;
  pages_fetched = report.pages_fetched;
  metrics = some report;
  error = run_error report;
}

-- What follows the commit of the attempt: the run, and what it leaves in the two tables.
unfoldable pub finish_job : ScheduledJob → ℕ → ℕ → ℕ → ℕ → RunWindow → Store → JobRunOutcome × Store
unfolding update_where sum_values
finish_job job now run_id date_from date_to (raised error) store = (
  JobRunOutcome.failed job date_from date_to error,
  record {
    cursors = update_where (is_cursor_of job) (failed_cursor error) store.cursors;
    runs = update_where (λ run. run.id == run_id) (failed_run error) store.runs;
  },
)
finish_job job now run_id date_from date_to (returned report) store = (
  JobRunOutcome.ran job date_from date_to report,
  record {
    cursors = update_where (is_cursor_of job) (finished_cursor now date_to report) store.cursors;
    runs = update_where (λ run. run.id == run_id) (finished_run report) store.runs;
  },
)

-- One round of the loop: `none` for the outcome is a ValueError of `compute_window`.
unfoldable pub run_in_window :
    Outside → ScheduledJob → ℕ → Store → Window → Option JobRunOutcome × Store
unfolding mark_attempt find_cursor finish_job
run_in_window out job now store bad_window_days = (none, store)
run_in_window out job now store bad_lookback_days = (none, store)
run_in_window out job now store not_due =
    (some (JobRunOutcome.skipped job SkipReason.not_due_yet), store)
run_in_window out job now store (window date_from date_to) =
    let finished =
      finish_job job now (out.fresh job) date_from date_to (out.run_window job date_from date_to)
        (record {
          cursors = mark_attempt job now (find_cursor job store.cursors) store.cursors;
          runs = store.runs ++ started_run (out.fresh job) job date_from date_to ∷ [];
        }) in
    (some finished.0, finished.1)

abbrev pub window_of : ScheduledJob → ℕ → Store → Window
window_of job now store =
    compute_window (cursor_value_of (find_cursor job store.cursors))
      (last_success_of (find_cursor job store.cursors)) job now

unfoldable pub run_job : Outside → ScheduledJob → ℕ → Store → Option JobRunOutcome × Store
unfolding run_in_window find_cursor
run_job out job now store =
    if out.lock_is_free job
    then run_in_window out job now store (window_of job now store)
    else (some (JobRunOutcome.skipped job SkipReason.locked_by_another_scheduler), store)

pub data Pass : Type 0 where
  outcomes : List JobRunOutcome → Pass
  value_error : Pass

abbrev pub add_outcome : JobRunOutcome → Pass → Pass
add_outcome o (outcomes os) = outcomes (o ∷ os)
add_outcome o value_error = value_error

-- `run_due_jobs`
unfoldable pub run_due_jobs : Outside → List ScheduledJob → ℕ → Store → Pass × Store
unfolding run_job
run_due_jobs out [] now store = (outcomes [], store)
run_due_jobs out (job ∷ jobs) now store =
    let first = run_job out job now store in
    let rest = run_due_jobs out jobs now first.1 in
    elim first.0 [
      | none ↦ (value_error, first.1)
      | some outcome ↦ (add_outcome outcome rest.0, rest.1)
    ]
