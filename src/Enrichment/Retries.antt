-- ===== src/Enrichment/Retries.antt =====
-- What becomes of a job that fails: the delay before a retry, the end of the retries, reopening.
use procintel.Common.{
  ℕ, ◌+◌, ◌≤◌, ◌≡◌, ◌&&◌, true, false, String, Option, none, some, List, All, All-map, ◌==◌, arith,
  eq_iff,
}
use procintel.Common.Table.{All-update_to}
use procintel.Common.Json.{Json, get_key, as_boolean, get_key-set_key}
use procintel.Enrichment.Job.{
  Status, EnrichmentJob, EnqueueRequest, marked_permanent, reopenable_dead,
}
use procintel.Enrichment.Transitions.{
  Jobs, refreshed_job, started_job, Failure, is_terminal, failure_status, failed_job, find_job,
  fail_found, fail_enrichment, after_fail, deferred_job,
}
use procintel.Enrichment.Worker.{Enqueued, enqueue_all}
use procintel.Enrichment.Lookup.{WhenOwn, has_row, Found, find_job-Found, enqueue_all-WhenOwn}

-- A row that a permanent failure has ended.
abbrev pub Ended : ℕ → EnrichmentJob → Type 0
Ended attempts row =
    (row.status ≡ Status.dead)
    × (marked_permanent row.last_error ≡ true)
    × (row.attempt_count ≡ attempts)

failed_job-Ended :
    (now attempts : ℕ) (failure : Failure) (attempt_count max_attempts : ℕ) (job : EnrichmentJob)
    → failure.permanent ≡ true
    → failure.blocked_config ≡ false
    → failure.blocked_upstream ≡ false
    → job.attempt_count ≡ attempts
    → Ended attempts (failed_job now failure attempt_count max_attempts job)
unfolding failure_status is_terminal marked_permanent as_boolean
failed_job-Ended now attempts failure attempt_count max_attempts job p c u n = ground (
  arith,
  get_key-set_key "permanent" "permanent" (Json.bool true) failure.error,
  eq_iff "permanent" "permanent",
)

fail_found-Ended :
    (now job_id attempts : ℕ) (failure : Failure) (jobs : Jobs) (found : Option EnrichmentJob)
    → failure.permanent ≡ true
    → failure.blocked_config ≡ false
    → failure.blocked_upstream ≡ false
    → has_row job_id jobs ≡ true
    → Found (λ row. Unit {0}) job_id jobs found
    → All (WhenOwn (λ row. row.attempt_count ≡ attempts) job_id) jobs
    → All
        (WhenOwn (Ended attempts) job_id)
        (after_fail jobs (fail_found now job_id failure jobs found))
unfolding fail_found after_fail
fail_found-Ended now job_id attempts failure jobs none p c u there absent h = cc (there, absent)
fail_found-Ended now job_id attempts failure jobs (some row) p c u there any h =
    All-update_to (WhenOwn (λ r. r.attempt_count ≡ attempts) job_id)
      (WhenOwn (Ended attempts) job_id) (λ r. r.id == job_id)
      (failed_job now failure row.attempt_count row.max_attempts) jobs
      (λ r hit n _.
        failed_job-Ended now attempts failure row.attempt_count row.max_attempts r p c u (n hit))
      (λ r miss n own. cc) h

one_flag :
    (failure : Failure)
    → failure.blocked_config ≡ false
    → (failure.blocked_config && failure.blocked_upstream) ≡ false
one_flag failure c = ground arith

fail-Ended :
    (now job_id attempts : ℕ) (failure : Failure) (jobs : Jobs)
    → failure.permanent ≡ true
    → failure.blocked_config ≡ false
    → failure.blocked_upstream ≡ false
    → has_row job_id jobs ≡ true
    → All (WhenOwn (λ row. row.attempt_count ≡ attempts) job_id) jobs
    → All
        (WhenOwn (Ended attempts) job_id)
        (after_fail jobs (fail_enrichment now job_id failure jobs))
unfolding fail_enrichment
fail-Ended now job_id attempts failure jobs p c u there h = rw (one_flag failure c) (
    fail_found-Ended now job_id attempts failure jobs (find_job job_id jobs) p c u there
      (find_job-Found (λ row. Unit {0}) job_id jobs (All-map _ _ jobs (λ row n own. tt) h)) h)

refreshed_job-Ended :
    (attempts : ℕ) (request : EnqueueRequest) (now : ℕ) (job : EnrichmentJob)
    → Ended attempts job
    → Ended attempts (refreshed_job request now job)
unfolding reopenable_dead
refreshed_job-Ended attempts request now job h = ground arith

-- A permanent failure, that is not a blocked one, is final: after `fail_enrichment` of a job of the
-- table and any number of later calls of `enqueue_enrichment`, for the same key or others and with
-- ids that are new, every row with the job's id is DEAD, marked permanent, and has the attempts it
-- had.
pub permanent_is_final :
    (now job_id attempts : ℕ) (failure : Failure) (qs : List Enqueued) (jobs : Jobs)
    → failure.permanent ≡ true
    → failure.blocked_config ≡ false
    → failure.blocked_upstream ≡ false
    → has_row job_id jobs ≡ true
    → All (WhenOwn (λ row. row.attempt_count ≡ attempts) job_id) jobs
    → All (λ q. (q.id == job_id) ≡ false) qs
    → All
        (WhenOwn (Ended attempts) job_id)
        (enqueue_all qs (after_fail jobs (fail_enrichment now job_id failure jobs)))
permanent_is_final now job_id attempts failure qs jobs p c u there h new =
    enqueue_all-WhenOwn (Ended attempts) job_id qs
      (after_fail jobs (fail_enrichment now job_id failure jobs)) (refreshed_job-Ended attempts) new
      (fail-Ended now job_id attempts failure jobs p c u there h)

-- A failure that is neither permanent nor blocked, and has no such mark in its error, leaves the
-- row DEAD when the attempts are used up; a later request for its key queues it again, with no
-- attempts used and available at once.
pub exhausted_is_reopened :
    (now now' : ℕ) (failure : Failure) (attempt_count max_attempts : ℕ) (request : EnqueueRequest)
    (job : EnrichmentJob)
    → failure.permanent ≡ false
    → failure.blocked_config ≡ false
    → failure.blocked_upstream ≡ false
    → max_attempts ≤ attempt_count
    → get_key "permanent" failure.error ≡ none
    → let dead = failed_job now failure attempt_count max_attempts job in
      let later = refreshed_job request now' dead in
      (dead.status ≡ Status.dead)
      × (later.status ≡ Status.queued)
      × (later.attempt_count ≡ 0)
      × (later.available_at ≡ now')
      × (later.finished_at ≡ none)
unfolding reopenable_dead failure_status is_terminal as_boolean
exhausted_is_reopened now now' failure attempt_count max_attempts request job p c u e k =
    ground arith

-- Deferring with a refund gives back the attempt that starting took, and only moves the time at
-- which the job is available as the caller says.
pub deferred_after_start :
    (now now' delay : ℕ) (owner : String) (job : EnrichmentJob)
    → let later =
        deferred_job now' true (some delay) (started_job now owner (job.attempt_count + 1) job) in
      (later.attempt_count ≡ job.attempt_count)
      × (later.status ≡ Status.queued)
      × (later.locked_at ≡ none)
      × (later.available_at ≡ now' + delay)
deferred_after_start now now' delay owner job = ground arith
