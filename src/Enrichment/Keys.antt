-- ===== src/Enrichment/Keys.antt =====
-- One row for each provider and idempotency key.
use procintel.Common.{
  ℕ, ◌+◌, ◌≡◌, refl, Bool, false, String, List, [], ◌∷◌, map, ◌&&◌, ◌==◌, str_eq, All, Bool-cases,
  inl, inr, Option, none, some, ◌∙◌, ap, if◌then◌else◌,
}
use procintel.Common.Table.{map-update_where, update_where}
use procintel.Enrichment.Job.{EnrichmentJob, EnqueueRequest}
use procintel.Enrichment.Transitions.{
  Jobs, same_key, enqueue_enrichment, started_job, startable, start_enrichment, completed_job,
  complete_enrichment, Failure, failed_job, find_job, fail_found, fail_enrichment, after_fail,
  deferred_job, defer_enrichment,
}
use procintel.Enrichment.Queue.{
  Claim, claim_candidates, claim_rows, claim_enrichment_jobs, is_stale, recovered_job,
  recover_stale_enrichment_jobs,
}
use procintel.Enrichment.Consistency.{
  QueueStep, enqueue, start, complete, fail, defer, claim, recover, Reachable, empty, next,
}

abbrev pub Key : Type 0
Key = String × String

abbrev pub key_of : EnrichmentJob → Key
key_of job = (job.provider, job.idempotency_key)

abbrev pub request_key : EnqueueRequest → Key
request_key request = (request.provider, request.idempotency_key)

abbrev pub same : Key → Key → Bool
same (p, k) (q, l) = str_eq p q && str_eq k l

-- No key stands twice in the list.
abbrev pub IsDistinct : List Key → Type 0
IsDistinct [] = Unit
IsDistinct (k ∷ keys) = All (λ l. same k l ≡ false) keys × IsDistinct keys

-- What the keys of the table are after a request.
add_key : Key → List Key → List Key
add_key k [] = k ∷ []
add_key k (l ∷ keys) = if same l k then l ∷ keys else l ∷ add_key k keys

keys-enqueue :
    (request : EnqueueRequest) (id now : ℕ) (jobs : Jobs)
    → map key_of (enqueue_enrichment request id now jobs).1
      ≡ add_key (request_key request) (map key_of jobs)
unfolding enqueue_enrichment add_key
keys-enqueue request id now [] = refl
keys-enqueue request id now (job ∷ jobs) = elim (Bool-cases (same_key request job)) [
  | inl hit ↦ rw hit
  | inr miss ↦ rw miss (ap (◌∷◌ (key_of job)) (keys-enqueue request id now jobs))
]

add_key-All :
    (j k : Key) (keys : List Key)
    → same j k ≡ false
    → All (λ l. same j l ≡ false) keys
    → All (λ l. same j l ≡ false) (add_key k keys)
unfolding add_key
add_key-All j k [] other h = (other, tt)
add_key-All j k (l ∷ keys) other h = elim (Bool-cases (same l k)) [
  | inl hit ↦ rw hit h
  | inr miss ↦ rw miss (h.0, add_key-All j k keys other h.1)
]

add_key-IsDistinct : (k : Key) (keys : List Key) → IsDistinct keys → IsDistinct (add_key k keys)
unfolding add_key
add_key-IsDistinct k [] h = (tt, tt)
add_key-IsDistinct k (l ∷ keys) h = elim (Bool-cases (same l k)) [
  | inl hit ↦ rw hit h
  | inr miss ↦ rw miss (add_key-All l k keys miss h.0, add_key-IsDistinct k keys h.1)
]

keys-claim_rows :
    (now : ℕ) (owner : String) (rows jobs : Jobs)
    → map key_of (claim_rows now owner rows jobs).1 ≡ map key_of jobs
unfolding claim_rows
keys-claim_rows now owner [] jobs = refl
keys-claim_rows now owner (row ∷ rows) jobs =
    let jobs' : Jobs =
      update_where (λ job. job.id == row.id) (started_job now owner (row.attempt_count + 1)) jobs in
    keys-claim_rows now owner rows jobs'
    ∙ map-update_where key_of (λ job. job.id == row.id)
        (started_job now owner (row.attempt_count + 1)) jobs (λ job. refl)

keys-fail_found :
    (now job_id : ℕ) (failure : Failure) (jobs : Jobs) (found : Option EnrichmentJob)
    → map key_of (after_fail jobs (fail_found now job_id failure jobs found)) ≡ map key_of jobs
unfolding fail_found after_fail
keys-fail_found now job_id failure jobs none = refl
keys-fail_found now job_id failure jobs (some row) =
    map-update_where key_of (λ job. job.id == job_id)
      (failed_job now failure row.attempt_count row.max_attempts) jobs (λ job. refl)

keys-fail :
    (now job_id : ℕ) (failure : Failure) (jobs : Jobs)
    → map key_of (after_fail jobs (fail_enrichment now job_id failure jobs)) ≡ map key_of jobs
unfolding fail_enrichment
keys-fail now job_id failure jobs =
    elim (Bool-cases (failure.blocked_config && failure.blocked_upstream)) [
      | inl both ↦ rw both (unfold after_fail in refl)
      | inr fine ↦ rw fine (keys-fail_found now job_id failure jobs (find_job job_id jobs))
    ]

keys-claim :
    (now : ℕ) (request : Claim) (skipped : ℕ → Bool) (jobs : Jobs)
    → map key_of (claim_enrichment_jobs now request skipped jobs).1 ≡ map key_of jobs
unfolding claim_enrichment_jobs
keys-claim now request skipped jobs = elim (Bool-cases (request.limit == 0)) [
  | inl nothing ↦ rw nothing
  | inr some_rows ↦
      rw some_rows
        (keys-claim_rows now request.owner (claim_candidates now request skipped jobs) jobs)
]

-- Every operation of the queue but a request keeps the rows' keys as they are.
QueueStep-IsDistinct :
    {jobs jobs' : Jobs}
    → QueueStep jobs jobs'
    → IsDistinct (map key_of jobs)
    → IsDistinct (map key_of jobs')
unfolding start_enrichment complete_enrichment defer_enrichment recover_stale_enrichment_jobs
QueueStep-IsDistinct (enqueue request id now jobs) h =
    rw (keys-enqueue request id now jobs)
      (add_key-IsDistinct (request_key request) (map key_of jobs) h)
QueueStep-IsDistinct (start now job_id owner jobs) h =
    rw
      (map-update_where key_of (startable now job_id)
        (λ job. started_job now owner (job.attempt_count + 1) job) jobs (λ job. refl))
      h
QueueStep-IsDistinct (complete now job_id result jobs) h =
    rw
      (map-update_where key_of (λ job. job.id == job_id) (completed_job now result) jobs
        (λ job. refl))
      h
QueueStep-IsDistinct (fail now job_id failure jobs) h = rw (keys-fail now job_id failure jobs) h
QueueStep-IsDistinct (defer now job_id refund retry_after jobs) h =
    rw
      (map-update_where key_of (λ job. job.id == job_id) (deferred_job now refund retry_after) jobs
        (λ job. refl))
      h
QueueStep-IsDistinct (claim now request skipped jobs) h = rw (keys-claim now request skipped jobs) h
QueueStep-IsDistinct (recover now stale_after jobs) h =
    rw (map-update_where key_of (is_stale now stale_after) (recovered_job now) jobs (λ job. refl)) h

-- However often and in whatever order jobs are requested, claimed, failed, deferred, recovered and
-- completed, no two rows have the same provider and idempotency key.
pub Reachable-IsDistinct : {jobs : Jobs} → Reachable jobs → IsDistinct (map key_of jobs)
Reachable-IsDistinct empty = tt
Reachable-IsDistinct (next r step) = QueueStep-IsDistinct step (Reachable-IsDistinct r)
