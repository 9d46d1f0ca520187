-- ===== src/Orchestration/Watermark.antt =====
-- The watermark of a job, its cursor's date and time of success, and what moves it.
use procintel.Common.{
  ℕ, ◌+◌, ◌<◌, ◌≡◌, refl, true, false, Option, none, some, List, [], ◌∷◌, ◌++◌, arith, ◌==◌, eq_iff,
  if◌then◌else◌, Bool-cases, inl, inr, ◌∙◌, ap, sym,
}
use mathlib.Core.Path.{ap₂}
use procintel.Common.Table.{update_where}
use procintel.Orchestration.Window.{
  ScheduledJob, Window, window, not_due, bad_window_days, bad_lookback_days, compute_window,
}
use procintel.Orchestration.Rows.{
  RunReport, RunWindow, returned, raised, CursorRow, Store, SkipReason, JobRunOutcome, Outside,
}
use procintel.Orchestration.Runner.{
  is_cursor_of, find_cursor, mark_attempt, first_cursor, failed_cursor, finished_cursor, finish_job,
  run_in_window, window_of, run_job, cursor_value_of, last_success_of, started_run,
}

-- What a job resumes from.
abbrev pub watermark : ScheduledJob → Store → Option ℕ × Option ℕ
watermark job store = (
  cursor_value_of (find_cursor job store.cursors),
  last_success_of (find_cursor job store.cursors),
)

abbrev mark_of : Option CursorRow → Option ℕ × Option ℕ
mark_of row = (cursor_value_of row, last_success_of row)

-- An update of a job's row that leaves its keys alone acts on the row that is found.
abbrev apply_opt : (CursorRow → CursorRow) → Option CursorRow → Option CursorRow
apply_opt f none = none
apply_opt f (some row) = some (f row)

find_cursor-update_self :
    (job : ScheduledJob) (f : CursorRow → CursorRow) (rows : List CursorRow)
    → ((row : CursorRow) → is_cursor_of job (f row) ≡ is_cursor_of job row)
    → find_cursor job (update_where (is_cursor_of job) f rows) ≡ apply_opt f (find_cursor job rows)
unfolding find_cursor update_where
find_cursor-update_self job f [] same = refl
find_cursor-update_self job f (row ∷ rows) same = elim (Bool-cases (is_cursor_of job row)) [
  | inl ours ↦ rw ours (rw (same row ∙ ours) refl)
  | inr other ↦ rw other (rw other (find_cursor-update_self job f rows same))
]

-- The row of another job is not touched.
pub find_cursor-update_other :
    (job other : ScheduledJob) (f : CursorRow → CursorRow) (rows : List CursorRow)
    → ((row : CursorRow) → is_cursor_of other (f row) ≡ is_cursor_of other row)
    → ((row : CursorRow) → is_cursor_of other row ≡ true → is_cursor_of job row ≡ false)
    → find_cursor other (update_where (is_cursor_of job) f rows) ≡ find_cursor other rows
unfolding find_cursor update_where
find_cursor-update_other job other f [] same apart = refl
find_cursor-update_other job other f (row ∷ rows) same apart =
    elim (Bool-cases (is_cursor_of other row)) [
      | inl theirs ↦ rw (apart row theirs) (rw theirs refl)
      | inr not_theirs ↦ elim (Bool-cases (is_cursor_of job row)) [
        | inl ours ↦ rw ours (
            rw (same row ∙ not_theirs)
              (rw not_theirs (find_cursor-update_other job other f rows same apart)))
        | inr not_ours ↦
            rw not_ours (rw not_theirs (find_cursor-update_other job other f rows same apart))
      ]
    ]

pub find_cursor-append :
    (job : ScheduledJob) (rows : List CursorRow) (row : CursorRow)
    → find_cursor job (rows ++ row ∷ []) ≡ elim (find_cursor job rows) [
      | none ↦ (if is_cursor_of job row then some row else none)
      | some r ↦ some r
    ]
unfolding find_cursor
find_cursor-append job [] row = refl
find_cursor-append job (r ∷ rows) row = ground (arith, find_cursor-append job rows row)

first_cursor-ours : (job : ScheduledJob) (now : ℕ) → is_cursor_of job (first_cursor job now) ≡ true
first_cursor-ours job now = ground (
  arith,
  eq_iff job.source_system job.source_system,
  eq_iff job.resource_type job.resource_type,
  eq_iff job.partition_key job.partition_key,
)

-- Once the attempt is marked the job has a row, with the watermark that it had.
abbrev Marked : ScheduledJob → ℕ → Option CursorRow → List CursorRow → Type 0
Marked job now found rows =
    (row : CursorRow) × (find_cursor job (mark_attempt job now found rows) ≡ some row)
    × (row.cursor_value ≡ cursor_value_of found)
    × (row.last_success_at ≡ last_success_of found)

mark_attempt-Marked :
    (job : ScheduledJob) (now : ℕ) (found : Option CursorRow) (rows : List CursorRow)
    → find_cursor job rows ≡ found
    → Marked job now found rows
unfolding mark_attempt
mark_attempt-Marked job now none rows e = (
  first_cursor job now,
  find_cursor-append job rows (first_cursor job now) ∙ rw e (rw (first_cursor-ours job now) refl),
  refl,
  refl,
)
mark_attempt-Marked job now (some row) rows e = (
  record row { last_attempt_at = some now },
  find_cursor-update_self job (λ r. record r { last_attempt_at = some now }) rows (λ r. refl)
      ∙ ap (apply_opt (λ r. record r { last_attempt_at = some now })) e,
  refl,
  refl,
)

-- The watermark that a run should leave.
abbrev after_run : ℕ → ℕ → RunWindow → Option ℕ × Option ℕ → Option ℕ × Option ℕ
after_run now date_to (raised error) old = old
after_run now date_to (returned report) old =
    if report.records_failed == 0 then (some date_to, some now) else old

after_returned :
    (now date_to : ℕ) (report : RunReport) (row : CursorRow)
    → mark_of (some (finished_cursor now date_to report row))
      ≡ after_run now date_to (returned report) (row.cursor_value, row.last_success_at)
after_returned now date_to report row = ground arith

finish_job-watermark :
    (job : ScheduledJob) (now run_id date_from date_to : ℕ) (run : RunWindow) (store : Store)
    (row : CursorRow)
    → find_cursor job store.cursors ≡ some row
    → watermark job (finish_job job now run_id date_from date_to run store).1
      ≡ after_run now date_to run (row.cursor_value, row.last_success_at)
unfolding finish_job
finish_job-watermark job now run_id date_from date_to (raised error) store row e = ap mark_of (
    find_cursor-update_self job (failed_cursor error) store.cursors (λ r. refl)
    ∙ ap (apply_opt (failed_cursor error)) e)
finish_job-watermark job now run_id date_from date_to (returned report) store row e =
    ap mark_of (
      find_cursor-update_self job (finished_cursor now date_to report) store.cursors (λ r. refl)
      ∙ ap (apply_opt (finished_cursor now date_to report)) e)
    ∙ after_returned now date_to report row

-- The watermark after a round, from what the lock, the dates and the run were.
abbrev pub next_watermark : Outside → ScheduledJob → ℕ → Store → Window → Option ℕ × Option ℕ
next_watermark out job now store (window date_from date_to) =
    if out.lock_is_free job
    then after_run now date_to (out.run_window job date_from date_to) (watermark job store)
    else watermark job store
next_watermark out job now store not_due = watermark job store
next_watermark out job now store bad_window_days = watermark job store
next_watermark out job now store bad_lookback_days = watermark job store

run_in_window-watermark :
    (out : Outside) (job : ScheduledJob) (now : ℕ) (store : Store) (w : Window)
    → out.lock_is_free job ≡ true
    → watermark job (run_in_window out job now store w).1 ≡ next_watermark out job now store w
unfolding run_in_window
run_in_window-watermark out job now store bad_window_days h = refl
run_in_window-watermark out job now store bad_lookback_days h = refl
run_in_window-watermark out job now store not_due h = refl
run_in_window-watermark out job now store (window date_from date_to) h =
    let found : Option CursorRow = find_cursor job store.cursors in
    let (row, e, c, l) = mark_attempt-Marked job now found store.cursors refl in
    let run : RunWindow = out.run_window job date_from date_to in
    rw h (
      finish_job-watermark job now (out.fresh job) date_from date_to run
        (record {
          cursors = mark_attempt job now found store.cursors;
          runs = store.runs ++ started_run (out.fresh job) job date_from date_to ∷ [];
        })
        row e
      ∙ ap₂ (λ c' l'. after_run now date_to run (c', l')) c l)

next_watermark-held :
    (out : Outside) (job : ScheduledJob) (now : ℕ) (store : Store) (w : Window)
    → out.lock_is_free job ≡ false
    → next_watermark out job now store w ≡ watermark job store
next_watermark-held out job now store (window date_from date_to) h = rw h refl
next_watermark-held out job now store _ h = refl

-- A round of the scheduler moves the watermark of its job in one case only: the lock was free, the
-- job due, and its run returned with no failed record. Then it stands at the last day of the
-- window and at the time of the round. An exception, failed records, a held lock and a job that is
-- not due leave it where it was.
pub watermark_moves_on_success :
    (out : Outside) (job : ScheduledJob) (now : ℕ) (store : Store)
    → watermark job (run_job out job now store).1
      ≡ next_watermark out job now store (window_of job now store)
unfolding run_job
watermark_moves_on_success out job now store = elim (Bool-cases (out.lock_is_free job)) [
  | inl free ↦ rw free (run_in_window-watermark out job now store (window_of job now store) free)
  | inr held ↦ rw held (sym (next_watermark-held out job now store (window_of job now store) held))
]

fresh_window :
    (cursor last : Option ℕ) (date_to : ℕ) (job : ScheduledJob) (now now' date_from to : ℕ)
    → compute_window cursor last job now ≡ window date_from to
    → now' < now + job.min_interval
    → compute_window (some date_to) (some now) job now' ≡ not_due
unfolding compute_window
fresh_window cursor last date_to job now now' date_from to h soon = ground arith

skip_when_not_due :
    (out : Outside) (job : ScheduledJob) (now : ℕ) (store : Store)
    → out.lock_is_free job ≡ true
    → window_of job now store ≡ not_due
    → run_job out job now store ≡ (some (JobRunOutcome.skipped job SkipReason.not_due_yet), store)
unfolding run_job
skip_when_not_due out job now store free e = rw free (ap (run_in_window out job now store) e)

-- A job that has run without a failed record is not run again before its interval has passed, the
-- lock being free both times: the next round reports that it is not due and writes nothing.
pub no_second_run :
    (out out' : Outside) (job : ScheduledJob) (now now' date_from date_to : ℕ) (report : RunReport)
    (store : Store)
    → out.lock_is_free job ≡ true
    → out'.lock_is_free job ≡ true
    → window_of job now store ≡ window date_from date_to
    → out.run_window job date_from date_to ≡ returned report
    → report.records_failed ≡ 0
    → now' < now + job.min_interval
    → run_job out' job now' (run_job out job now store).1
      ≡ (some (JobRunOutcome.skipped job SkipReason.not_due_yet), (run_job out job now store).1)
no_second_run out out' job now now' date_from date_to report store free free' due ran none_failed
      soon =
    let store' : Store = (run_job out job now store).1 in
    let moved : watermark job store' ≡ (some date_to, some now) =
      watermark_moves_on_success out job now store
      ∙ rw due (rw (free, ran) (rw none_failed refl)) in
    let not_yet : window_of job now' store' ≡ not_due =
      ap (λ (m : Option ℕ × Option ℕ). compute_window m.0 m.1 job now') moved
      ∙ fresh_window (cursor_value_of (find_cursor job store.cursors))
          (last_success_of (find_cursor job store.cursors)) date_to job now now' date_from date_to
          due soon in
    skip_when_not_due out' job now' store' free' not_yet
