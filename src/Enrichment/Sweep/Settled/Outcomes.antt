-- ===== src/Enrichment/Sweep/Settled/Outcomes.antt =====
-- services/ingestion/enrichment_worker.py: the state that each outcome of a dispatch calls for,
-- and the statements that bring a job to it.
use procintel.Common.{
  ℕ, ◌+◌, ◌≤◌, ◌≡◌, refl, ap, ◌∙◌, true, false, Option, none, some, String, All, any_of, arith,
  ◌==◌, ◌&&◌, leb, if◌then◌else◌,
}
use procintel.Common.Json.{Fields}
use procintel.Common.Table.{update_where, All-update_where, All-update_to, any_of-update_where}
use procintel.Enrichment.Job.{
  Status, EnrichmentJob, ClaimedEnrichmentJob, retry_delay, marked_permanent, is_runnable,
}
use procintel.Enrichment.Transitions.{
  Jobs, Failure, failed_job, find_job, fail_found, fail_enrichment, after_fail,
}
use procintel.Enrichment.Lookup.{WhenOwn, has_row, Found, find_job-Found}
use procintel.Enrichment.Worker.{
  Dispatched, returned, circuit_open, configuration_error, upstream_error, permanent_error,
  other_error, error_object, is_blockable, blocks, blocked_job,
}
use procintel.Enrichment.Sweep.{fail_job}

-- The row of a job after a failure that keeps the attempt counted.
pub record FailedAs (job : ClaimedEnrichmentJob) (status : Status) (stored : Fields)
    (row : EnrichmentJob) : Type 0 where
  pub is : row.status ≡ status
  pub counted : row.attempt_count ≡ job.attempt_count
  pub error : row.last_error ≡ some stored
  pub free : row.locked_at ≡ none

-- What each outcome of the dispatch is meant to make of the row of the claimed job.
abbrev pub SettledAs : ℕ → ClaimedEnrichmentJob → Dispatched → EnrichmentJob → Type 0
SettledAs now job (returned external_call result enqueued) row =
    (row.status ≡ Status.succeeded)
    × (row.result ≡ some result)
    × (row.finished_at ≡ some now)
    × (row.locked_at ≡ none)
SettledAs now job (circuit_open retry_after) row =
    (row.status ≡ Status.queued)
    × (row.attempt_count + 1 ≡ job.attempt_count)
    × ((delay : ℕ) → retry_after ≡ some delay → row.available_at ≡ now + delay)
    × (row.locked_at ≡ none)
SettledAs now job (configuration_error error) row = FailedAs job Status.blocked_config error row
SettledAs now job (upstream_error type_name message) row =
    FailedAs job Status.blocked_upstream (error_object type_name message) row
SettledAs now job (permanent_error error) row =
    (row.status ≡ Status.dead)
    × (marked_permanent row.last_error ≡ true)
    × (row.finished_at ≡ some now)
    × (row.locked_at ≡ none)
SettledAs now job (other_error error) row =
    FailedAs job (if leb job.max_attempts job.attempt_count then Status.dead else Status.failed)
      error row
    × (leb job.max_attempts job.attempt_count ≡ false
        → row.available_at ≡ now + retry_delay job.attempt_count)

-- The row of a claimed job has the counts of the claim.
abbrev pub IsClaimOf : ClaimedEnrichmentJob → EnrichmentJob → Type 0
IsClaimOf job row =
    (row.id == job.id) ≡ true
    → (row.attempt_count ≡ job.attempt_count)
      × (row.max_attempts ≡ job.max_attempts)
      × (1 ≤ job.attempt_count)

-- A row of the job is there, and every such row is as it should be.
abbrev pub IsSettled : ℕ → ClaimedEnrichmentJob → Dispatched → Jobs → Type 0
IsSettled now job outcome jobs =
    (any_of (λ row. row.id == job.id) jobs ≡ true)
    × All (λ row. (row.id == job.id) ≡ true → SettledAs now job outcome row) jobs

abbrev pub IsClaimedIn : ClaimedEnrichmentJob → Jobs → Type 0
IsClaimedIn job jobs = (has_row job.id jobs ≡ true) × All (IsClaimOf job) jobs

-- An update of the rows of the job, which keeps their ids.
pub by_update :
    (now : ℕ) (job : ClaimedEnrichmentJob) (outcome : Dispatched)
    (f : EnrichmentJob → EnrichmentJob) (jobs : Jobs)
    → ((row : EnrichmentJob) → (f row).id ≡ row.id)
    → ((row : EnrichmentJob)
        → (row.id == job.id) ≡ true
        → IsClaimOf job row
        → SettledAs now job outcome (f row))
    → IsClaimedIn job jobs
    → IsSettled now job outcome (update_where (λ row. row.id == job.id) f jobs)
by_update now job outcome f jobs same made h = (
  any_of-update_where (λ row. row.id == job.id) (λ row. row.id == job.id) f jobs
        (λ row. ap (λ id. id == job.id) (same row))
      ∙ h.0,
  All-update_to (IsClaimOf job) (WhenOwn (SettledAs now job outcome) job.id)
      (λ row. row.id == job.id) f jobs (λ row hit is_claim _. made row hit is_claim)
      (λ row miss _ hit. cc) h.1,
)

fail_found-IsSettled :
    (now : ℕ) (job : ClaimedEnrichmentJob) (outcome : Dispatched) (f : Failure) (jobs : Jobs)
    (found : Option EnrichmentJob)
    → ((row : EnrichmentJob)
        → row.attempt_count ≡ job.attempt_count
        → SettledAs now job outcome (failed_job now f job.attempt_count job.max_attempts row))
    → IsClaimedIn job jobs
    → Found
        (λ row.
          (row.attempt_count ≡ job.attempt_count)
          × (row.max_attempts ≡ job.max_attempts)
          × (1 ≤ job.attempt_count))
        job.id
        jobs
        found
    → IsSettled now job outcome (after_fail jobs (fail_found now job.id f jobs found))
unfolding fail_found after_fail
fail_found-IsSettled now job outcome f jobs none made h absent = cc (h.0, absent)
fail_found-IsSettled now job outcome f jobs (some row) made h counts =
    rw (counts.0, counts.1)
      (by_update now job outcome (failed_job now f job.attempt_count job.max_attempts) jobs
        (λ row. refl) (λ row hit is_claim. made row (is_claim hit).0) h)

pub fail_job-IsSettled :
    (now : ℕ) (job : ClaimedEnrichmentJob) (outcome : Dispatched) (f : Failure) (jobs : Jobs)
    → (f.blocked_config && f.blocked_upstream) ≡ false
    → ((row : EnrichmentJob)
        → row.attempt_count ≡ job.attempt_count
        → SettledAs now job outcome (failed_job now f job.attempt_count job.max_attempts row))
    → IsClaimedIn job jobs
    → IsSettled now job outcome (fail_job now job.id f jobs)
unfolding fail_job fail_enrichment
fail_job-IsSettled now job outcome f jobs one made h = rw one (
    fail_found-IsSettled now job outcome f jobs (find_job job.id jobs) made h
      (find_job-Found _ job.id jobs h.1))

blocks-blocked :
    (provider : String) (row : EnrichmentJob)
    → row.status ≡ Status.blocked_upstream
    → blocks provider row ≡ false
unfolding blocks is_blockable is_runnable
blocks-blocked provider row h = ground arith

-- Blocking the jobs of a provider leaves the one that is blocked already.
pub block-IsSettled :
    (now : ℕ) (job : ClaimedEnrichmentJob) (type_name message provider : String) (stored : Fields)
    (jobs : Jobs)
    → IsSettled now job (upstream_error type_name message) jobs
    → IsSettled now job
        (upstream_error type_name message)
        (update_where (blocks provider) (blocked_job now stored) jobs)
block-IsSettled now job type_name message provider stored jobs h = (
  any_of-update_where (λ row. row.id == job.id) (blocks provider) (blocked_job now stored) jobs
        (λ row. refl)
      ∙ h.0,
  All-update_where (WhenOwn (SettledAs now job (upstream_error type_name message)) job.id)
      (blocks provider) (blocked_job now stored) jobs
      (λ row hit is_settled own. cc (hit, blocks-blocked provider row (is_settled own).is)) h.1,
)
