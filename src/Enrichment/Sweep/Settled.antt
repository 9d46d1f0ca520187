-- ===== src/Enrichment/Sweep/Settled.antt =====
-- services/ingestion/enrichment_worker.py: what a turn of the loop makes of the job that it
-- claims.
pub mod Outcomes
pub mod Handled
pub mod Claimed
use procintel.Common.{
  ℕ, suc, ◌+◌, ◌≤◌, ◌≡◌, refl, ap, ◌∙◌, sym, Bool, true, false, Option, none, some, String, List,
  [], ◌∷◌, map, All, All-map, All-both, any_of, arith, ◌==◌, ◌&&◌, leb, length, Bool-cases, inl,
  inr, eq_iff, if◌then◌else◌,
}
use procintel.Common.PrimaryKey.{IsNodup}
use procintel.Common.Json
use procintel.Common.Json.{Fields, get_key, as_boolean, get_key-set_key}
use procintel.Common.Table.{
  update_where, All-update_where, All-updated, All-update_to, any_of-update_where,
}
use procintel.Enrichment.Job.{
  Status, EnrichmentJob, EnqueueRequest, ClaimedEnrichmentJob, retry_delay, marked_permanent,
  is_runnable,
}
use procintel.Enrichment.Transitions.{
  Jobs, same_key, enqueue_enrichment, completed_job, complete_enrichment, Failure, is_terminal,
  failure_status, failed_job, find_job, fail_found, fail_enrichment, after_fail, deferred_job,
  defer_enrichment, started_job,
}
use procintel.Enrichment.Queue.{
  Claim, provider_wanted, claim_candidates, claimed_job, claim_rows, claim_enrichment_jobs,
}
use procintel.Enrichment.Claiming.{candidates-All, length-candidates-le, claims_within_bounds}
use procintel.Enrichment.Worker.{
  Setting, Sweep, Dispatched, returned, circuit_open, configuration_error, upstream_error,
  permanent_error, other_error, error_object, is_blockable, blocks, blocked_job,
  block_static_upstream_jobs, claim_for, failure, Enqueued, enqueue_all,
}
use procintel.Enrichment.Sweep.{fail_job, handle, after_claim}
use procintel.Enrichment.Sweep.Settled.Outcomes.{IsSettled, IsClaimedIn}
use procintel.Enrichment.Sweep.Settled.Handled.{handle-IsSettled}
use procintel.Enrichment.Sweep.Settled.Claimed.{claim-IsClaimedIn, too_many}

length-claims-le :
    (now : ℕ) (request : Claim) (skipped : ℕ → Bool) (jobs : Jobs)
    → length (claim_enrichment_jobs now request skipped jobs).0 ≤ request.limit
length-claims-le now request skipped jobs = (claims_within_bounds now request skipped jobs).0

by_claims :
    (e : Setting) (turn : ℕ) (provider : String) (claimed : List ClaimedEnrichmentJob × Jobs)
    (s : Sweep)
    → length claimed.0 ≤ 1
    → All (λ job. IsClaimedIn job claimed.1) claimed.0
    → All
        (λ job.
          IsSettled
            (e.now turn)
            job
            (e.dispatch turn job)
            (after_claim e turn provider claimed s).jobs)
        claimed.0
unfolding after_claim
by_claims e turn provider ([], jobs) s le h = tt
by_claims e turn provider (job ∷ [], jobs) s le h = (
  handle-IsSettled e (e.now turn) job (e.dispatch turn job)
      (record s { jobs = jobs; claimed = s.claimed + 1 }) h.0,
  tt,
)
by_claims e turn provider (job ∷ other ∷ rest, jobs) s le h = too_many (length rest) le

-- A turn of the loop brings the job that it claims to the state that the outcome of its dispatch
-- calls for, where the ids of the table are distinct: SUCCEEDED with the result; QUEUED with the
-- attempt given back and the delay of an open circuit; BLOCKED_CONFIG or BLOCKED_UPSTREAM with the
-- error and the attempt counted, also after the provider's other jobs are blocked; DEAD and marked
-- permanent; and for another error DEAD when the attempts are used up, or else FAILED with the retry
-- delay. The row is still there, and its lease is free.
pub turn_settles_its_job :
    (e : Setting) (turn : ℕ) (provider : String) (cursor : ℕ) (s : Sweep)
    → IsNodup (map (λ row. row.id) s.jobs)
    → let claimed =
        claim_enrichment_jobs (e.now turn) (claim_for e s provider) (e.skipped turn) s.jobs in
      All
        (λ job.
          IsSettled
            (e.now turn)
            job
            (e.dispatch turn job)
            (after_claim e turn provider claimed (record s { provider_cursor = cursor })).jobs)
        claimed.0
turn_settles_its_job e turn provider cursor s distinct =
    by_claims e turn provider
      (claim_enrichment_jobs (e.now turn) (claim_for e s provider) (e.skipped turn) s.jobs)
      (record s { provider_cursor = cursor })
      (length-claims-le (e.now turn) (claim_for e s provider) (e.skipped turn) s.jobs)
      (claim-IsClaimedIn e s provider (e.now turn) (e.skipped turn) s.jobs distinct)
