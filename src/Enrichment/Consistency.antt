-- ===== src/Enrichment/Consistency.antt =====
-- What every row of `enrichment_jobs` satisfies, whatever the operations that ran on the table.
use procintel.Common.{
  ℕ, ◌+◌, ◌≡◌, ◌&&◌, Bool, true, false, Option, none, some, String, [], ◌∷◌, arith, ◌==◌, All,
  Bool-cases, inl, inr,
}
use procintel.Common.Json.{Fields}
use procintel.Common.Table.{All-update_where}
use procintel.Enrichment.Job.{Status, EnrichmentJob, EnqueueRequest, is_running, reopenable_dead}
use procintel.Enrichment.Transitions.{
  Jobs, same_key, new_job, refreshed_job, enqueue_enrichment, started_job, startable,
  start_enrichment, completed_job, complete_enrichment, Failure, failed_job, failure_status,
  find_job, fail_found, fail_enrichment, after_fail, deferred_job, defer_enrichment,
}
use procintel.Enrichment.Queue.{
  Claim, claim_candidates, claim_rows, claim_enrichment_jobs, recovered_job, is_stale,
  recover_stale_enrichment_jobs,
}

abbrev pub is_some {ℓ} : {A : Type ℓ} → Option A → Bool
is_some none = false
is_some (some a) = true

-- The statuses in which a job is over.
abbrev pub is_over : Status → Bool
is_over Status.succeeded = true
is_over Status.dead = true
is_over _ = false

-- A lease stands on the running rows and on no other, and a job that is over says when it ended.
pub record IsConsistent (job : EnrichmentJob) : Type 0 where
  pub leased : is_some job.locked_at ≡ is_running job.status
  pub owned : is_some job.locked_by ≡ is_running job.status
  pub ended : is_over job.status ≡ true → is_some job.finished_at ≡ true

-- One operation of the queue, by any worker, with any arguments.
pub data QueueStep : Jobs → Jobs → Type 0 where
  enqueue :
      (request : EnqueueRequest) (id now : ℕ) (jobs : Jobs)
      → QueueStep jobs (enqueue_enrichment request id now jobs).1
  start :
      (now job_id : ℕ) (owner : String) (jobs : Jobs)
      → QueueStep jobs (start_enrichment now job_id owner jobs).1
  complete :
      (now job_id : ℕ) (result : Option Fields) (jobs : Jobs)
      → QueueStep jobs (complete_enrichment now job_id result jobs)
  fail :
      (now job_id : ℕ) (failure : Failure) (jobs : Jobs)
      → QueueStep jobs (after_fail jobs (fail_enrichment now job_id failure jobs))
  defer :
      (now job_id : ℕ) (refund : Bool) (retry_after : Option ℕ) (jobs : Jobs)
      → QueueStep jobs (defer_enrichment now job_id refund retry_after jobs)
  claim :
      (now : ℕ) (request : Claim) (skipped : ℕ → Bool) (jobs : Jobs)
      → QueueStep jobs (claim_enrichment_jobs now request skipped jobs).1
  recover :
      (now stale_after : ℕ) (jobs : Jobs)
      → QueueStep jobs (recover_stale_enrichment_jobs now stale_after jobs).1

-- What a sequence of operations makes of an empty table.
pub data Reachable : Jobs → Type 0 where
  empty : Reachable []
  next : {jobs jobs' : Jobs} → Reachable jobs → QueueStep jobs jobs' → Reachable jobs'

new_job-IsConsistent :
    (request : EnqueueRequest) (id now : ℕ) → IsConsistent (new_job request id now)
unfolding is_running
new_job-IsConsistent request id now = ground arith

refreshed_job-IsConsistent :
    (request : EnqueueRequest) (now : ℕ) (job : EnrichmentJob)
    → IsConsistent job
    → IsConsistent (refreshed_job request now job)
unfolding is_running reopenable_dead
refreshed_job-IsConsistent request now job h = ground arith

enqueue-All :
    (request : EnqueueRequest) (id now : ℕ) (jobs : Jobs)
    → All IsConsistent jobs
    → All IsConsistent (enqueue_enrichment request id now jobs).1
unfolding enqueue_enrichment
enqueue-All request id now [] h = (new_job-IsConsistent request id now, tt)
enqueue-All request id now (job ∷ jobs) h = elim (Bool-cases (same_key request job)) [
  | inl hit ↦ rw hit (refreshed_job-IsConsistent request now job h.0, h.1)
  | inr miss ↦ rw miss (h.0, enqueue-All request id now jobs h.1)
]

started_job-IsConsistent :
    (now : ℕ) (owner : String) (attempts : ℕ) (job : EnrichmentJob)
    → IsConsistent (started_job now owner attempts job)
unfolding is_running
started_job-IsConsistent now owner attempts job = ground arith

failed_job-IsConsistent :
    (now : ℕ) (failure : Failure) (attempt_count max_attempts : ℕ) (job : EnrichmentJob)
    → IsConsistent (failed_job now failure attempt_count max_attempts job)
unfolding is_running failure_status
failed_job-IsConsistent now failure attempt_count max_attempts job = ground arith

completed_job-IsConsistent :
    (now : ℕ) (result : Option Fields) (job : EnrichmentJob)
    → IsConsistent (completed_job now result job)
unfolding is_running
completed_job-IsConsistent now result job = ground arith

deferred_job-IsConsistent :
    (now : ℕ) (refund : Bool) (retry_after : Option ℕ) (job : EnrichmentJob)
    → IsConsistent (deferred_job now refund retry_after job)
unfolding is_running
deferred_job-IsConsistent now refund retry_after job = ground arith

recovered_job-IsConsistent : (now : ℕ) (job : EnrichmentJob) → IsConsistent (recovered_job now job)
unfolding is_running
recovered_job-IsConsistent now job = ground arith

claim_rows-All :
    (now : ℕ) (owner : String) (rows jobs : Jobs)
    → All IsConsistent jobs
    → All IsConsistent (claim_rows now owner rows jobs).1
unfolding claim_rows
claim_rows-All now owner [] jobs h = h
claim_rows-All now owner (row ∷ rows) jobs h = claim_rows-All now owner rows _ (
    All-update_where IsConsistent (λ job. job.id == row.id)
      (started_job now owner (row.attempt_count + 1)) jobs
      (λ job _ _. started_job-IsConsistent now owner (row.attempt_count + 1) job) h)

fail_found-All :
    (now job_id : ℕ) (failure : Failure) (jobs : Jobs) (found : Option EnrichmentJob)
    → All IsConsistent jobs
    → All IsConsistent (after_fail jobs (fail_found now job_id failure jobs found))
unfolding fail_found after_fail
fail_found-All now job_id failure jobs none h = h
fail_found-All now job_id failure jobs (some row) h =
    All-update_where IsConsistent (λ job. job.id == job_id)
      (failed_job now failure row.attempt_count row.max_attempts) jobs
      (λ job _ _. failed_job-IsConsistent now failure row.attempt_count row.max_attempts job) h

fail-All :
    (now job_id : ℕ) (failure : Failure) (jobs : Jobs)
    → All IsConsistent jobs
    → All IsConsistent (after_fail jobs (fail_enrichment now job_id failure jobs))
unfolding fail_enrichment
fail-All now job_id failure jobs h =
    elim (Bool-cases (failure.blocked_config && failure.blocked_upstream)) [
      | inl both ↦ rw both (unfold after_fail in h)
      | inr fine ↦ rw fine (fail_found-All now job_id failure jobs (find_job job_id jobs) h)
    ]

claim-All :
    (now : ℕ) (request : Claim) (skipped : ℕ → Bool) (jobs : Jobs)
    → All IsConsistent jobs
    → All IsConsistent (claim_enrichment_jobs now request skipped jobs).1
unfolding claim_enrichment_jobs
claim-All now request skipped jobs h = elim (Bool-cases (request.limit == 0)) [
  | inl nothing ↦ rw nothing h
  | inr some_rows ↦
      rw some_rows
        (claim_rows-All now request.owner (claim_candidates now request skipped jobs) jobs h)
]

-- Every operation keeps every row consistent.
pub QueueStep-IsConsistent :
    {jobs jobs' : Jobs} → QueueStep jobs jobs' → All IsConsistent jobs → All IsConsistent jobs'
unfolding start_enrichment complete_enrichment defer_enrichment recover_stale_enrichment_jobs
QueueStep-IsConsistent (enqueue request id now jobs) h = enqueue-All request id now jobs h
QueueStep-IsConsistent (start now job_id owner jobs) h =
    All-update_where IsConsistent (startable now job_id)
      (λ job. started_job now owner (job.attempt_count + 1) job) jobs
      (λ job _ _. started_job-IsConsistent now owner (job.attempt_count + 1) job) h
QueueStep-IsConsistent (complete now job_id result jobs) h =
    All-update_where IsConsistent (λ job. job.id == job_id) (completed_job now result) jobs
      (λ job _ _. completed_job-IsConsistent now result job) h
QueueStep-IsConsistent (fail now job_id failure jobs) h = fail-All now job_id failure jobs h
QueueStep-IsConsistent (defer now job_id refund retry_after jobs) h =
    All-update_where IsConsistent (λ job. job.id == job_id) (deferred_job now refund retry_after)
      jobs (λ job _ _. deferred_job-IsConsistent now refund retry_after job) h
QueueStep-IsConsistent (claim now request skipped jobs) h = claim-All now request skipped jobs h
QueueStep-IsConsistent (recover now stale_after jobs) h =
    All-update_where IsConsistent (is_stale now stale_after) (recovered_job now) jobs
      (λ job _ _. recovered_job-IsConsistent now job) h

-- After any sequence of queue operations from an empty table, a row holds a lease (a time and an
-- owner) exactly when it is RUNNING, and a SUCCEEDED or DEAD row has its end time.
pub Reachable-IsConsistent : {jobs : Jobs} → Reachable jobs → All IsConsistent jobs
Reachable-IsConsistent empty = tt
Reachable-IsConsistent (next r step) = QueueStep-IsConsistent step (Reachable-IsConsistent r)
