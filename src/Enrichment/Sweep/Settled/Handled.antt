-- ===== src/Enrichment/Sweep/Settled/Handled.antt =====
-- services/ingestion/enrichment_worker.py: the branches on the outcome of a dispatch.
use procintel.Common.{
  ℕ, ◌≤◌, ◌≡◌, refl, ◌∙◌, Bool, true, Option, none, some, String, List, [], ◌∷◌, arith, ◌==◌,
  Bool-cases, inl, inr, eq_iff,
}
use procintel.Common.Json
use procintel.Common.Json.{Fields, get_key, as_boolean, get_key-set_key}
use procintel.Common.Table.{All-updated, any_of-update_where}
use procintel.Enrichment.Job.{EnrichmentJob, ClaimedEnrichmentJob, marked_permanent}
use procintel.Enrichment.Transitions.{
  Jobs, completed_job, complete_enrichment, is_terminal, failure_status, failed_job, deferred_job,
  defer_enrichment,
}
use procintel.Enrichment.Queue.{provider_wanted}
use procintel.Enrichment.Lookup.{WhenOwn, has_row, enqueue_all-has}
use procintel.Enrichment.Worker.{
  Setting, Sweep, Dispatched, returned, circuit_open, configuration_error, upstream_error,
  permanent_error, other_error, error_object, block_static_upstream_jobs, failure, Enqueued,
  enqueue_all,
}
use procintel.Enrichment.Sweep.{handle}
use procintel.Enrichment.Sweep.Settled.Outcomes.{
  SettledAs, IsSettled, IsClaimedIn, by_update, fail_job-IsSettled, block-IsSettled,
}

complete-IsSettled :
    (now : ℕ) (job : ClaimedEnrichmentJob) (external_call : Bool) (result : Fields)
    (enqueued : List Enqueued) (jobs : Jobs)
    → has_row job.id jobs ≡ true
    → IsSettled now job
        (returned external_call result enqueued)
        (complete_enrichment now job.id (some result) jobs)
unfolding complete_enrichment
complete-IsSettled now job external_call result enqueued jobs h = (
  any_of-update_where (λ row. row.id == job.id) (λ row. row.id == job.id)
        (completed_job now (some result)) jobs (λ row. refl)
      ∙ h,
  All-updated (WhenOwn (SettledAs now job (returned external_call result enqueued)) job.id)
      (λ row. row.id == job.id) (completed_job now (some result)) jobs
      (λ row hit _. (refl, refl, refl, refl)) (λ row miss hit. cc),
)

bulk-IsSettled :
    (now : ℕ) (job : ClaimedEnrichmentJob) (type_name message provider : String) (stored : Fields)
    (jobs : Jobs)
    → IsSettled now job (upstream_error type_name message) jobs
    → IsSettled now job
        (upstream_error type_name message)
        (block_static_upstream_jobs now ((provider, stored) ∷ []) (some (provider ∷ [])) jobs).1
unfolding block_static_upstream_jobs
bulk-IsSettled now job type_name message provider stored jobs h =
    elim (Bool-cases (provider_wanted (some (provider ∷ [])) provider)) [
      | inl e ↦ rw e (block-IsSettled now job type_name message provider stored jobs h)
      | inr e ↦ rw e h
    ]

deferred-SettledAs :
    (now : ℕ) (job : ClaimedEnrichmentJob) (retry_after : Option ℕ) (row : EnrichmentJob)
    → (row.attempt_count ≡ job.attempt_count)
      × (row.max_attempts ≡ job.max_attempts)
      × (1 ≤ job.attempt_count)
    → SettledAs now job (circuit_open retry_after) (deferred_job now true retry_after row)
deferred-SettledAs now job none row counts =
    (refl, omega (arith, counts.0, counts.2), λ delay same. cc, refl)
deferred-SettledAs now job (some retry) row counts =
    (refl, omega (arith, counts.0, counts.2), λ delay same. cc, refl)

permanent-SettledAs :
    (now : ℕ) (job : ClaimedEnrichmentJob) (error : Fields) (row : EnrichmentJob)
    → SettledAs now job (permanent_error error) (
        failed_job now
          (record (failure error) { permanent = true })
          job.attempt_count
          job.max_attempts
          row)
unfolding failure_status is_terminal marked_permanent as_boolean
permanent-SettledAs now job error row = ground (
  arith,
  get_key-set_key "permanent" "permanent" (Json.bool true) error,
  eq_iff "permanent" "permanent",
)

pub handle-IsSettled :
    (e : Setting) (now : ℕ) (job : ClaimedEnrichmentJob) (outcome : Dispatched) (s : Sweep)
    → IsClaimedIn job s.jobs
    → IsSettled now job outcome (handle e now job outcome s).jobs
unfolding handle
handle-IsSettled e now job (returned external_call result enqueued) s h =
    complete-IsSettled now job external_call result enqueued (enqueue_all enqueued s.jobs)
      (enqueue_all-has job.id enqueued s.jobs h.0)
handle-IsSettled e now job (circuit_open retry_after) s h =
    unfold defer_enrichment in
    (by_update now job (circuit_open retry_after) (deferred_job now true retry_after) s.jobs
      (λ row. refl) (λ row hit is_claim. deferred-SettledAs now job retry_after row (is_claim hit))
      h)
handle-IsSettled e now job (configuration_error error) s h =
    fail_job-IsSettled now job (configuration_error error)
      (record (failure error) { blocked_config = true }) s.jobs refl
      (λ row counted.
        unfold failure_status in record { is = refl; counted = counted; error = refl; free = refl })
      h
handle-IsSettled e now job (upstream_error type_name message) s h =
    bulk-IsSettled now job type_name message job.provider
      (error_object "ProviderUpstreamContractError" message) _
      (fail_job-IsSettled now job (upstream_error type_name message)
        (record (failure (error_object type_name message)) { blocked_upstream = true }) s.jobs refl
        (λ row counted.
          unfold failure_status in
          record { is = refl; counted = counted; error = refl; free = refl })
        h)
handle-IsSettled e now job (permanent_error error) s h =
    fail_job-IsSettled now job (permanent_error error) (record (failure error) { permanent = true })
      s.jobs refl (λ row counted. permanent-SettledAs now job error row) h
handle-IsSettled e now job (other_error error) s h =
    fail_job-IsSettled now job (other_error error) (failure error) s.jobs refl
      (λ row counted.
        unfold failure_status is_terminal in
        (record { is = refl; counted = counted; error = refl; free = refl }, λ more. refl))
      h
