-- ===== src/Enrichment/Sweep/Steps.antt =====
-- services/ingestion/enrichment_worker.py: a sweep does nothing to the jobs but the operations of the
-- queue, one after another, and the blocking of a provider's jobs.
use procintel.Common.{
  ℕ, ◌+◌, true, Option, some, String, List, [], ◌∷◌, All, arith, Bool-cases, inl, inr,
}
use procintel.Common.Json.{Fields}
use procintel.Common.Table.{update_where, All-update_where}
use procintel.Enrichment.Job.{EnrichmentJob, ClaimedEnrichmentJob, is_running}
use procintel.Enrichment.Transitions.{Jobs, enqueue_enrichment, Failure}
use procintel.Enrichment.Queue.{claim_enrichment_jobs, provider_wanted, default_stale_after}
use procintel.Enrichment.Consistency.{IsConsistent, QueueStep, QueueStep-IsConsistent}
use procintel.Enrichment.Worker.{
  Setting, Sweep, Dispatched, returned, circuit_open, configuration_error, upstream_error,
  permanent_error, other_error, error_object, Enqueued, enqueue_all, blocks, blocked_job,
  block_static_upstream_jobs, claim_for, provider_order, failure,
}
use procintel.Enrichment.Sweep.{
  fail_job, handle, after_claim, initial_sweep, run_pending_enrichment_jobs,
}
use procintel.Enrichment.Sweep.Rule.{sweep_loop-rule}

-- A step of a worker: one operation of the queue, or the blocking of one provider's jobs.
data WorkerStep : Jobs → Jobs → Type 0 where
  queue : {jobs jobs' : Jobs} → QueueStep jobs jobs' → WorkerStep jobs jobs'
  block :
      (now : ℕ) (provider : String) (message : Fields) (jobs : Jobs)
      → WorkerStep jobs (update_where (blocks provider) (blocked_job now message) jobs)

-- Steps one after another.
data Steps : Jobs → Jobs → Type 0 where
  done : {jobs : Jobs} → Steps jobs jobs
  more : {a b c : Jobs} → Steps a b → WorkerStep b c → Steps a c

Steps-trans : {a b c : Jobs} → Steps a b → Steps b c → Steps a c
Steps-trans h done = h
Steps-trans h (more k step) = more (Steps-trans h k) step

block-Steps :
    (now : ℕ) (errors : List (String × Fields)) (providers : Option (List String)) (jobs : Jobs)
    → Steps jobs (block_static_upstream_jobs now errors providers jobs).1
unfolding block_static_upstream_jobs
block-Steps now [] providers jobs = done
block-Steps now ((provider, message) ∷ errors) providers jobs =
    elim (Bool-cases (provider_wanted providers provider)) [
      | inl e ↦ rw e (
          Steps-trans (more done (block now provider message jobs)) (
            block-Steps now errors providers
              (update_where (blocks provider) (blocked_job now message) jobs)))
      | inr e ↦ rw e (block-Steps now errors providers jobs)
    ]

enqueue_all-Steps : (qs : List Enqueued) (jobs : Jobs) → Steps jobs (enqueue_all qs jobs)
unfolding enqueue_all
enqueue_all-Steps [] jobs = done
enqueue_all-Steps (q ∷ qs) jobs =
    Steps-trans (more done (queue (QueueStep.enqueue q.request q.id q.now jobs)))
      (enqueue_all-Steps qs (enqueue_enrichment q.request q.id q.now jobs).1)

fail_job-Steps : (now id : ℕ) (f : Failure) (jobs : Jobs) → Steps jobs (fail_job now id f jobs)
unfolding fail_job
fail_job-Steps now id f jobs = more done (queue (QueueStep.fail now id f jobs))

handle-Steps :
    (e : Setting) (now : ℕ) (job : ClaimedEnrichmentJob) (outcome : Dispatched) (s : Sweep)
    → Steps s.jobs (handle e now job outcome s).jobs
unfolding handle
handle-Steps e now job (returned external_call result enqueued) s =
    more (enqueue_all-Steps enqueued s.jobs)
      (queue (QueueStep.complete now job.id (some result) (enqueue_all enqueued s.jobs)))
handle-Steps e now job (circuit_open retry_after) s =
    more done (queue (QueueStep.defer now job.id true retry_after s.jobs))
handle-Steps e now job (configuration_error error) s =
    fail_job-Steps now job.id (record (failure error) { blocked_config = true }) s.jobs
handle-Steps e now job (upstream_error type_name message) s =
    let blocked : Failure = record (failure (error_object type_name message)) {
      blocked_upstream = true;
    } in
    Steps-trans (fail_job-Steps now job.id blocked s.jobs) (
      block-Steps now ((job.provider, error_object "ProviderUpstreamContractError" message) ∷ [])
        (some (job.provider ∷ [])) (fail_job now job.id blocked s.jobs))
handle-Steps e now job (permanent_error error) s =
    fail_job-Steps now job.id (record (failure error) { permanent = true }) s.jobs
handle-Steps e now job (other_error error) s = fail_job-Steps now job.id (failure error) s.jobs

after_claim-Steps :
    (e : Setting) (turn : ℕ) (provider : String) (claimed : List ClaimedEnrichmentJob × Jobs)
    (s : Sweep)
    → Steps claimed.1 (after_claim e turn provider claimed s).jobs
unfolding after_claim
after_claim-Steps e turn provider ([], jobs) s = done
after_claim-Steps e turn provider (job ∷ more_jobs, jobs) s =
    handle-Steps e (e.now turn) job (e.dispatch turn job)
      (record s { jobs = jobs; claimed = s.claimed + 1 })

initial-Steps :
    (e : Setting) (start : ℕ) (jobs : Jobs) → Steps jobs (initial_sweep e start jobs).jobs
unfolding initial_sweep
initial-Steps e start jobs = more (block-Steps (e.now start) e.upstream_errors e.providers jobs) (
    queue (
      QueueStep.recover (e.now start) default_stale_after
        (block_static_upstream_jobs (e.now start) e.upstream_errors e.providers jobs).1))

-- What a sweep makes of the table is what some sequence of operations of the queue and of
-- blockings makes of it.
run-Steps :
    (e : Setting) (limit : ℕ) (jobs : Jobs)
    → Steps jobs (run_pending_enrichment_jobs e limit jobs).0.jobs
unfolding run_pending_enrichment_jobs
run-Steps e limit jobs =
    sweep_loop-rule e (provider_order e) (λ s. Steps jobs s.jobs)
      (λ turn s provider cursor usable h.
        Steps-trans
          (more h
            (queue (QueueStep.claim (e.now turn) (claim_for e s provider) (e.skipped turn) s.jobs)))
          (after_claim-Steps e turn provider
            (claim_enrichment_jobs (e.now turn) (claim_for e s provider) (e.skipped turn) s.jobs)
            (record s { provider_cursor = cursor })))
      limit (initial_sweep e limit jobs) (initial-Steps e limit jobs)

blocked_job-IsConsistent :
    (now : ℕ) (message : Fields) (job : EnrichmentJob) → IsConsistent (blocked_job now message job)
unfolding is_running
blocked_job-IsConsistent now message job = ground arith

Steps-IsConsistent :
    {jobs jobs' : Jobs} → Steps jobs jobs' → All IsConsistent jobs → All IsConsistent jobs'
Steps-IsConsistent done h = h
Steps-IsConsistent (more steps (queue step)) h =
    QueueStep-IsConsistent step (Steps-IsConsistent steps h)
Steps-IsConsistent (more steps (block now provider message jobs)) h =
    All-update_where IsConsistent (blocks provider) (blocked_job now message) jobs
      (λ job hit was. blocked_job-IsConsistent now message job) (Steps-IsConsistent steps h)

-- A sweep keeps every row of the queue consistent: a row that a sweep leaves holds a lease exactly
-- when it is RUNNING, and has its end time when it is SUCCEEDED or DEAD, if this held before.
pub run-IsConsistent :
    (e : Setting) (limit : ℕ) (jobs : Jobs)
    → All IsConsistent jobs
    → All IsConsistent (run_pending_enrichment_jobs e limit jobs).0.jobs
run-IsConsistent e limit jobs h = Steps-IsConsistent (run-Steps e limit jobs) h
