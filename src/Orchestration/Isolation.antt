-- ===== src/Orchestration/Isolation.antt =====
-- The rows that a round of the scheduler leaves alone: those of the other jobs.
use procintel.Common.{
  ℕ, ◌≡◌, refl, Bool, true, false, ◌&&◌, Option, none, some, List, arith, str_eq, eq_iff,
  if◌then◌else◌, Bool-cases, inl, inr, ◌∙◌,
}
use procintel.Common.Table.{update_where}
use procintel.Orchestration.Window.{
  ScheduledJob, Window, window, not_due, bad_window_days, bad_lookback_days,
}
use procintel.Orchestration.Rows.{RunWindow, returned, raised, CursorRow, Store, Outside}
use procintel.Orchestration.Runner.{
  is_cursor_of, find_cursor, mark_attempt, first_cursor, failed_cursor, finished_cursor, finish_job,
  run_in_window, window_of, run_job,
}
use procintel.Orchestration.Watermark.{find_cursor-update_other, find_cursor-append}

-- Two jobs that differ in source, resource or partition.
abbrev pub same_job : ScheduledJob → ScheduledJob → Bool
same_job a b =
    str_eq a.source_system b.source_system
    && (str_eq a.resource_type b.resource_type && str_eq a.partition_key b.partition_key)

cursor_of_one :
    (job other : ScheduledJob) (row : CursorRow)
    → same_job job other ≡ false
    → is_cursor_of other row ≡ true
    → is_cursor_of job row ≡ false
cursor_of_one job other row apart theirs = ground (
  arith,
  eq_iff job.source_system other.source_system,
  eq_iff job.resource_type other.resource_type,
  eq_iff job.partition_key other.partition_key,
  eq_iff row.source_system job.source_system,
  eq_iff row.resource_type job.resource_type,
  eq_iff row.partition_key job.partition_key,
  eq_iff row.source_system other.source_system,
  eq_iff row.resource_type other.resource_type,
  eq_iff row.partition_key other.partition_key,
)

first_cursor-not_theirs :
    (job other : ScheduledJob) (now : ℕ)
    → same_job job other ≡ false
    → is_cursor_of other (first_cursor job now) ≡ false
first_cursor-not_theirs job other now apart = apart

module _ (job other : ScheduledJob) (apart : same_job job other ≡ false) where
  update-other :
      (f : CursorRow → CursorRow) (rows : List CursorRow)
      → ((row : CursorRow) → is_cursor_of other (f row) ≡ is_cursor_of other row)
      → find_cursor other (update_where (is_cursor_of job) f rows) ≡ find_cursor other rows
  update-other f rows same =
      find_cursor-update_other job other f rows same (λ row. cursor_of_one job other row apart)

  mark_attempt-other :
      (now : ℕ) (found : Option CursorRow) (rows : List CursorRow)
      → find_cursor other (mark_attempt job now found rows) ≡ find_cursor other rows
  unfolding mark_attempt
  mark_attempt-other now none rows =
      find_cursor-append other rows (first_cursor job now)
      ∙ append_nothing now (find_cursor other rows)
    where
      append_nothing :
          (now : ℕ) (found : Option CursorRow)
          → (elim found [
            | none ↦
                (if is_cursor_of other (first_cursor job now)
                  then some (first_cursor job now)
                  else none)
            | some r ↦ some r
          ])
            ≡ found
      append_nothing now none = rw (first_cursor-not_theirs job other now apart) refl
      append_nothing now (some r) = refl
  mark_attempt-other now (some row) rows =
      update-other (λ r. record r { last_attempt_at = some now }) rows (λ r. refl)

  finish_job-other :
      (now run_id date_from date_to : ℕ) (run : RunWindow) (store : Store)
      → find_cursor other (finish_job job now run_id date_from date_to run store).1.cursors
        ≡ find_cursor other store.cursors
  unfolding finish_job
  finish_job-other now run_id date_from date_to (raised error) store =
      update-other (failed_cursor error) store.cursors (λ r. refl)
  finish_job-other now run_id date_from date_to (returned report) store =
      update-other (finished_cursor now date_to report) store.cursors (λ r. refl)

  run_in_window-other :
      (out : Outside) (now : ℕ) (store : Store) (w : Window)
      → find_cursor other (run_in_window out job now store w).1.cursors
        ≡ find_cursor other store.cursors
  unfolding run_in_window
  run_in_window-other out now store bad_window_days = refl
  run_in_window-other out now store bad_lookback_days = refl
  run_in_window-other out now store not_due = refl
  run_in_window-other out now store (window date_from date_to) =
      finish_job-other now (out.fresh job) date_from date_to (out.run_window job date_from date_to)
        _
      ∙ mark_attempt-other now (find_cursor job store.cursors) store.cursors

-- A round for one job leaves the cursor row of every other job as it was.
pub run_job-leaves-others :
    (out : Outside) (job other : ScheduledJob) (now : ℕ) (store : Store)
    → same_job job other ≡ false
    → find_cursor other (run_job out job now store).1.cursors ≡ find_cursor other store.cursors
unfolding run_job
run_job-leaves-others out job other now store apart = elim (Bool-cases (out.lock_is_free job)) [
  | inl free ↦ rw free (run_in_window-other job other apart out now store (window_of job now store))
  | inr held ↦ rw held refl
]
