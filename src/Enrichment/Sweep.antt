-- ===== src/Enrichment/Sweep.antt =====
-- services/ingestion/enrichment_worker.py: the loop of `run_pending_enrichment_jobs`. An exception
-- rolls back what the dispatch has done; the claim before it is committed.
pub mod Rule
pub mod Budgets
pub mod Steps
pub mod Settled
mod Tests
use procintel.Common.{
  ℕ, zero, suc, ◌+◌, Bool, true, Option, none, some, String, List, [], ◌∷◌, ◌&&◌, map, str_eq,
  if◌then◌else◌, length,
}
use procintel.Common.Table.{count_where}
use procintel.Enrichment.Job.{EnrichmentJob, ClaimedEnrichmentJob, is_runnable}
use procintel.Enrichment.Transitions.{
  Jobs, complete_enrichment, Failure, fail_enrichment, after_fail, defer_enrichment,
}
use procintel.Enrichment.Queue.{
  mem_of, provider_wanted, claim_enrichment_jobs, default_stale_after,
  recover_stale_enrichment_jobs,
}
use procintel.Enrichment.Worker.{
  Setting, Sweep, Dispatched, returned, circuit_open, configuration_error, upstream_error,
  permanent_error, other_error, error_object, Tally, increment, attempted,
  block_static_upstream_jobs, provider_order, is_usable, select_provider, claim_for, failure,
  enqueue_all,
}

-- The UPDATE of `fail_enrichment`; the row is there, since the queue deletes none.
unfoldable pub fail_job : ℕ → ℕ → Failure → Jobs → Jobs
unfolding fail_enrichment after_fail
fail_job now id f jobs = after_fail jobs (fail_enrichment now id f jobs)

-- `runtime_blocked.get(job.provider, 0)`
abbrev pub count_of : String → List (String × ℕ) → ℕ
count_of provider [] = 0
count_of provider ((p, n) ∷ counts) =
    let rest = count_of provider counts in if str_eq p provider then n else rest

-- The branches of the `try` on the outcome of the dispatch of a claimed job.
unfoldable pub handle : Setting → ℕ → ClaimedEnrichmentJob → Dispatched → Sweep → Sweep
unfolding increment enqueue_all complete_enrichment fail_job defer_enrichment
    block_static_upstream_jobs
handle e now job (returned external_call result enqueued) s =
    let s' = if external_call then attempted job.provider s else s in
    record s' {
      jobs = complete_enrichment now job.id (some result) (enqueue_all enqueued s.jobs);
      succeeded = s.succeeded + 1;
      by_provider = increment 1 job.provider Tally.succeeded s.by_provider;
    }
handle e now job (circuit_open retry_after) s = record s {
  jobs = defer_enrichment now job.id true retry_after s.jobs;
  by_provider = increment 1 job.provider Tally.circuit_deferred s.by_provider;
  exhausted_providers = job.provider ∷ s.exhausted_providers;
}
handle e now job (configuration_error error) s = record (attempted job.provider s) {
  jobs = fail_job now job.id (record (failure error) { blocked_config = true }) s.jobs;
  blocked = s.blocked + 1;
  by_provider = increment 1 job.provider Tally.blocked_config s.by_provider;
}
handle e now job (upstream_error type_name message) s =
    let jobs =
      fail_job now job.id
        (record (failure (error_object type_name message)) { blocked_upstream = true }) s.jobs in
    let bulk =
      block_static_upstream_jobs now
        ((job.provider, error_object "ProviderUpstreamContractError" message) ∷ [])
        (some (job.provider ∷ [])) jobs in
    record (attempted job.provider s) {
      jobs = bulk.1;
      upstream_blocked = s.upstream_blocked + (1 + count_of job.provider bulk.0);
      by_provider =
          increment (1 + count_of job.provider bulk.0) job.provider Tally.blocked_upstream
            s.by_provider;
      unavailable_providers = job.provider ∷ s.unavailable_providers;
    }
handle e now job (permanent_error error) s = record (attempted job.provider s) {
  jobs = fail_job now job.id (record (failure error) { permanent = true }) s.jobs;
  failed = s.failed + 1;
  by_provider = increment 1 job.provider Tally.dead s.by_provider;
}
handle e now job (other_error error) s = record (attempted job.provider s) {
  jobs = fail_job now job.id (failure error) s.jobs;
  failed = s.failed + 1;
  by_provider = increment 1 job.provider Tally.failed s.by_provider;
}

-- What follows the claim for the selected provider.
unfoldable pub after_claim : Setting → ℕ → String → List ClaimedEnrichmentJob × Jobs → Sweep → Sweep
unfolding handle
after_claim e turn provider ([], jobs) s = record s {
  jobs = jobs;
  exhausted_providers = provider ∷ s.exhausted_providers;
}
after_claim e turn provider (job ∷ more, jobs) s =
    handle e (e.now turn) job (e.dispatch turn job)
      (record s { jobs = jobs; claimed = s.claimed + 1 })

-- One turn of the loop; none ends it.
unfoldable pub turn_for : Setting → ℕ → Option (String × ℕ) → Sweep → Option Sweep
unfolding after_claim claim_enrichment_jobs
turn_for e turn none s = none
turn_for e turn (some (provider, cursor)) s = some (
    after_claim e turn provider
      (claim_enrichment_jobs (e.now turn) (claim_for e s provider) (e.skipped turn) s.jobs)
      (record s { provider_cursor = cursor }))

-- `for _ in range(limit)`; the turns are numbered downwards.
unfoldable pub sweep_loop : Setting → List String → ℕ → Sweep → Sweep
unfolding turn_for select_provider is_usable
sweep_loop e order zero s = s
sweep_loop e order (suc turn) s =
    elim (turn_for e turn (select_provider (is_usable e s) order s.provider_cursor (length order) 0)
      s) [ none ↦ s | some s' ↦ sweep_loop e order turn s' ]

abbrev pub total : List (String × ℕ) → ℕ
total [] = 0
total ((p, n) ∷ counts) = n + total counts

abbrev pub preblocked_counts : List (String × ℕ) → String → Tally → ℕ
preblocked_counts counts p Tally.blocked_upstream = count_of p counts
preblocked_counts counts p t = 0

-- The variables before the loop; `start` is the number of the first time that the clock is read.
unfoldable pub initial_sweep : Setting → ℕ → Jobs → Sweep
unfolding block_static_upstream_jobs recover_stale_enrichment_jobs
initial_sweep e start jobs =
    let preblocked = block_static_upstream_jobs (e.now start) e.upstream_errors e.providers jobs in
    record {
      jobs = (recover_stale_enrichment_jobs (e.now start) default_stale_after preblocked.1).1;
      claimed = 0;
      succeeded = 0;
      failed = 0;
      blocked = 0;
      upstream_blocked = total preblocked.0;
      attempts = λ p. 0;
      by_provider = preblocked_counts preblocked.0;
      provider_cursor = 0;
      exhausted_providers = [];
      unavailable_providers = map (λ counted. counted.0) preblocked.0;
    }

-- A row that the last query counts as deferred.
unfoldable pub is_left : Setting → EnrichmentJob → Bool
unfolding is_runnable
is_left e job =
    mem_of job.provider e.known_providers
    && (provider_wanted e.providers job.provider && is_runnable job.status)

-- The counts with those of the last query.
abbrev pub with_deferred : Setting → Jobs → (String → Tally → ℕ) → String → Tally → ℕ
with_deferred e jobs counts p Tally.deferred =
    count_where (λ job. str_eq job.provider p && is_left e job) jobs
with_deferred e jobs counts p t = counts p t

-- `run_pending_enrichment_jobs`: the sweep at its end, and the number of jobs deferred.
unfoldable pub run_pending_enrichment_jobs : Setting → ℕ → Jobs → Sweep × ℕ
unfolding initial_sweep sweep_loop provider_order is_left count_where
run_pending_enrichment_jobs e limit jobs =
    let s = sweep_loop e (provider_order e) limit (initial_sweep e limit jobs) in
    (
      record s { by_provider = with_deferred e s.jobs s.by_provider },
      count_where (is_left e) s.jobs,
    )
