-- ===== src/Enrichment/Queue.antt =====
-- services/ingestion/enrichment_queue.py: the claims of the workers, and the recovery of stale jobs.
use procintel.Common.{
  ℕ, ◌+◌, Bool, true, Option, none, some, String, List, [], ◌∷◌, ◌&&◌, ◌||◌, not, ltb, leb, ◌==◌,
  str_eq, if◌then◌else◌, take, any_of, null_or_older,
}
use procintel.Common.Table.{select_where, update_where, count_where, order_by, lex}
use procintel.Common.Clock.{minutes}
use procintel.Enrichment.Job.{
  Status, EnrichmentJob, ClaimedEnrichmentJob, is_runnable, is_blocked, is_running, is_failed,
}
use procintel.Enrichment.Transitions.{Jobs, started_job}

-- What `claim_enrichment_jobs` is called with; an absent set of blocked providers is empty.
pub record Claim : Type 0 where
  pub limit : ℕ
  pub providers : Option (List String)
  pub reactivate_blocked_providers : List String
  pub owner : String

abbrev pub mem_of : String → List String → Bool
mem_of s = any_of (λ t. str_eq t s)

abbrev pub provider_wanted : Option (List String) → String → Bool
provider_wanted none provider = true
provider_wanted (some wanted) provider = mem_of provider wanted

unfoldable pub claimable : ℕ → Claim → EnrichmentJob → Bool
unfolding is_runnable is_blocked
claimable now claim job =
    (is_runnable job.status
      || (is_blocked job.status && mem_of job.provider claim.reactivate_blocked_providers))
    && leb job.available_at now
    && ltb job.attempt_count job.max_attempts
    && provider_wanted claim.providers job.provider

unfoldable pub status_rank : Status → ℕ
unfolding is_failed
status_rank status = if is_failed status then 0 else 1

-- ORDER BY priority, failed first, available_at, created_at
unfoldable pub claimed_before : EnrichmentJob → EnrichmentJob → Bool
claimed_before a b = lex a.priority b.priority (
    lex (status_rank a.status) (status_rank b.status)
      (lex a.available_at b.available_at (leb a.created_at b.created_at)))

-- The rows of the SELECT; `skipped` are those that other transactions hold locked.
unfoldable pub claim_candidates : ℕ → Claim → (ℕ → Bool) → Jobs → Jobs
unfolding claimable claimed_before status_rank lex select_where order_by
claim_candidates now claim skipped jobs = take claim.limit (
    order_by claimed_before
      (select_where (λ job. claimable now claim job && not (skipped job.id)) jobs))

abbrev pub claimed_job : EnrichmentJob → ClaimedEnrichmentJob
claimed_job row = record {
  id = row.id;
  provider = row.provider;
  idempotency_key = row.idempotency_key;
  payload = row.payload;
  object_type = row.object_type;
  object_id = row.object_id;
  source_record_id = row.source_record_id;
  attempt_count = row.attempt_count + 1;
  max_attempts = row.max_attempts;
}

-- The loop over the selected rows: one UPDATE by id for each.
unfoldable pub claim_rows : ℕ → String → Jobs → Jobs → List ClaimedEnrichmentJob × Jobs
unfolding update_where
claim_rows now owner [] jobs = ([], jobs)
claim_rows now owner (row ∷ rows) jobs =
    let rest = claim_rows now owner rows (
      update_where (λ job. job.id == row.id) (started_job now owner (row.attempt_count + 1))
        jobs) in
    (claimed_job row ∷ rest.0, rest.1)

-- `claim_enrichment_jobs`
unfoldable pub claim_enrichment_jobs :
    ℕ → Claim → (ℕ → Bool) → Jobs → List ClaimedEnrichmentJob × Jobs
unfolding claim_candidates claim_rows
claim_enrichment_jobs now claim skipped jobs =
    if claim.limit == 0
    then ([], jobs)
    else claim_rows now claim.owner (claim_candidates now claim skipped jobs) jobs

abbrev pub default_stale_after : ℕ
default_stale_after = minutes 30

unfoldable pub is_stale : ℕ → ℕ → EnrichmentJob → Bool
unfolding is_running
is_stale now stale_after job = is_running job.status && null_or_older job.locked_at stale_after now

abbrev pub recovered_job : ℕ → EnrichmentJob → EnrichmentJob
recovered_job now job = record job {
  status = Status.queued;
  locked_at = none;
  locked_by = none;
  updated_at = now;
}

-- `recover_stale_enrichment_jobs`
unfoldable pub recover_stale_enrichment_jobs : ℕ → ℕ → Jobs → ℕ × Jobs
unfolding is_stale update_where count_where
recover_stale_enrichment_jobs now stale_after jobs = (
  count_where (is_stale now stale_after) jobs,
  update_where (is_stale now stale_after) (recovered_job now) jobs,
)
