-- ===== src/Enrichment/Transitions.antt =====
-- services/ingestion/enrichment_queue.py: a job is enqueued, started, completed, failed and deferred.
-- Each operation takes the time `now` that it reads from the clock; a fresh UUID is an argument.
use procintel.Common.{
  ℕ, ◌+◌, ◌-◌, Bool, true, Option, none, some, String, List, [], ◌∷◌, ◌&&◌, ◌||◌, ltb, leb, ◌==◌,
  str_eq, if◌then◌else◌, any_of,
}
use procintel.Common.Table.{update_where}
use procintel.Common.Json.{Json, Fields, set_key}
use procintel.Common.Json
use procintel.Enrichment.Job.{
  Status, EnrichmentJob, EnqueueRequest, EnrichmentJobRef, retry_delay, is_runnable,
  reopenable_dead,
}

abbrev pub Jobs : Type 0
Jobs = List EnrichmentJob

abbrev pub same_key : EnqueueRequest → EnrichmentJob → Bool
same_key request job =
    str_eq job.provider request.provider && str_eq job.idempotency_key request.idempotency_key

-- The inserted row; the other columns have the table's defaults.
abbrev pub new_job : EnqueueRequest → ℕ → ℕ → EnrichmentJob
new_job request id now = record {
  id = id;
  provider = request.provider;
  idempotency_key = request.idempotency_key;
  object_type = request.object_type;
  object_id = request.object_id;
  source_record_id = request.source_record_id;
  payload = request.payload;
  status = Status.queued;
  priority = request.priority;
  attempt_count = 0;
  max_attempts = request.max_attempts;
  available_at = now;
  locked_at = none;
  locked_by = none;
  last_error = none;
  result = none;
  created_at = now;
  updated_at = now;
  finished_at = none;
}

-- ON CONFLICT DO UPDATE SET …
abbrev pub refreshed_job : EnqueueRequest → ℕ → EnrichmentJob → EnrichmentJob
refreshed_job request now job = record job {
  payload = request.payload;
  object_type = request.object_type;
  object_id = request.object_id;
  source_record_id = request.source_record_id;
  priority = request.priority;
  max_attempts = request.max_attempts;
  updated_at = now;
  attempt_count = if reopenable_dead job then 0 else job.attempt_count;
  status = if reopenable_dead job then Status.queued else job.status;
  available_at = if reopenable_dead job then now else job.available_at;
  finished_at = if reopenable_dead job then none else job.finished_at;
}

abbrev pub job_ref : EnrichmentJob → EnrichmentJobRef
job_ref job = record {
  id = job.id;
  provider = job.provider;
  idempotency_key = job.idempotency_key;
  status = job.status;
  attempt_count = job.attempt_count;
  max_attempts = job.max_attempts;
}

-- `enqueue_enrichment`: INSERT … ON CONFLICT (provider, idempotency_key) DO UPDATE … RETURNING
unfoldable pub enqueue_enrichment : EnqueueRequest → ℕ → ℕ → Jobs → EnrichmentJobRef × Jobs
unfolding reopenable_dead
enqueue_enrichment request id now [] =
    (job_ref (new_job request id now), new_job request id now ∷ [])
enqueue_enrichment request id now (job ∷ jobs) =
    let rest = enqueue_enrichment request id now jobs in
    if same_key request job
    then (job_ref (refreshed_job request now job), refreshed_job request now job ∷ jobs)
    else (rest.0, job ∷ rest.1)

abbrev pub started_job : ℕ → String → ℕ → EnrichmentJob → EnrichmentJob
started_job now owner attempts job = record job {
  status = Status.running;
  attempt_count = attempts;
  locked_at = some now;
  locked_by = some owner;
  last_error = none;
  updated_at = now;
}

abbrev pub startable : ℕ → ℕ → EnrichmentJob → Bool
startable now job_id job =
    job.id == job_id
    && is_runnable job.status
    && leb job.available_at now
    && ltb job.attempt_count job.max_attempts

-- `start_enrichment`; the caller's host name stands in for a missing worker id.
unfoldable pub start_enrichment : ℕ → ℕ → String → Jobs → Bool × Jobs
unfolding is_runnable update_where
start_enrichment now job_id owner jobs = (
  any_of (startable now job_id) jobs,
  update_where (startable now job_id) (λ job. started_job now owner (job.attempt_count + 1) job)
      jobs,
)

abbrev pub completed_job : ℕ → Option Fields → EnrichmentJob → EnrichmentJob
completed_job now result job = record job {
  status = Status.succeeded;
  result = elim result [ none ↦ some Json.end | some r ↦ some r ];
  last_error = none;
  locked_at = none;
  locked_by = none;
  updated_at = now;
  finished_at = some now;
}

-- `complete_enrichment`
unfoldable pub complete_enrichment : ℕ → ℕ → Option Fields → Jobs → Jobs
unfolding update_where
complete_enrichment now job_id result jobs =
    update_where (λ job. job.id == job_id) (completed_job now result) jobs

pub record Failure : Type 0 where
  pub error : Fields
  pub blocked_config : Bool
  pub blocked_upstream : Bool
  pub permanent : Bool

-- `terminal`, from the counts that `fail_enrichment` has read
unfoldable pub is_terminal : Failure → ℕ → ℕ → Bool
is_terminal failure attempt_count max_attempts = failure.permanent || leb max_attempts attempt_count

unfoldable pub failure_status : Failure → Bool → Status
failure_status failure terminal =
    if failure.blocked_config
    then Status.blocked_config
    else if failure.blocked_upstream
    then Status.blocked_upstream
    else if terminal
    then Status.dead
    else Status.failed

abbrev pub stored_error : Failure → Fields
stored_error failure =
    if failure.permanent then set_key "permanent" (Json.bool true) failure.error else failure.error

abbrev pub failed_job : ℕ → Failure → ℕ → ℕ → EnrichmentJob → EnrichmentJob
failed_job now failure attempt_count max_attempts job = record job {
  status = failure_status failure (is_terminal failure attempt_count max_attempts);
  last_error = some (stored_error failure);
  available_at =
      if failure.blocked_config || failure.blocked_upstream
      then now
      else now + retry_delay attempt_count;
  locked_at = none;
  locked_by = none;
  updated_at = now;
  finished_at = if is_terminal failure attempt_count max_attempts then some now else none;
}

-- The row that SELECT … WHERE id = job_id finds.
unfoldable pub find_job : ℕ → Jobs → Option EnrichmentJob
find_job job_id [] = none
find_job job_id (job ∷ jobs) = if job.id == job_id then some job else find_job job_id jobs

pub data FailOutcome : Type 0 where
  failed : Jobs → FailOutcome
  conflicting_flags : FailOutcome
  no_row : FailOutcome

-- The rest of `fail_enrichment`, once it has read the counts of the row: NoResultFound for an
-- unknown job.
unfoldable pub fail_found : ℕ → ℕ → Failure → Jobs → Option EnrichmentJob → FailOutcome
unfolding update_where is_terminal failure_status
fail_found now job_id failure jobs none = FailOutcome.no_row
fail_found now job_id failure jobs (some row) = FailOutcome.failed (
    update_where (λ job. job.id == job_id)
      (failed_job now failure row.attempt_count row.max_attempts) jobs)

-- `fail_enrichment`: ValueError for both flags.
unfoldable pub fail_enrichment : ℕ → ℕ → Failure → Jobs → FailOutcome
unfolding find_job fail_found
fail_enrichment now job_id failure jobs =
    if failure.blocked_config && failure.blocked_upstream
    then FailOutcome.conflicting_flags
    else fail_found now job_id failure jobs (find_job job_id jobs)

-- The table after the call: an exception leaves it as it was.
unfoldable pub after_fail : Jobs → FailOutcome → Jobs
after_fail jobs (FailOutcome.failed jobs') = jobs'
after_fail jobs _ = jobs

-- `available_at` moves only for a given delay, which the caller has in microseconds and which is
-- never negative here (`max(0.0, retry_after)`).
abbrev pub deferred_job : ℕ → Bool → Option ℕ → EnrichmentJob → EnrichmentJob
deferred_job now refund retry_after job = record job {
  status = Status.queued;
  locked_at = none;
  locked_by = none;
  updated_at = now;
  available_at = elim retry_after [ none ↦ job.available_at | some delay ↦ now + delay ];
  attempt_count = if refund then job.attempt_count - 1 else job.attempt_count;
}

-- `defer_enrichment`
unfoldable pub defer_enrichment : ℕ → ℕ → Bool → Option ℕ → Jobs → Jobs
unfolding update_where
defer_enrichment now job_id refund retry_after jobs =
    update_where (λ job. job.id == job_id) (deferred_job now refund retry_after) jobs
