-- ===== src/Enrichment/Claiming.antt =====
-- What `claim_enrichment_jobs` hands out: the claims' bounds, and that no job is handed out
-- twice.
pub mod Order
use procintel.Common.{
  ℕ, ◌+◌, ◌≤◌, ◌≡◌, refl, Bool, true, false, String, List, [], ◌∷◌, map, ◌&&◌, arith, ◌==◌, length,
  take, drop, All, any_of, Bool-cases, inl, inr, length-take-le, All-take, and→both, leb_trans,
  leb_total, All-both, All-of_map, any_of-map, length-map, ◌∙◌, ==→eq, not, ap, All-map,
}
use procintel.Common.Table.{
  select_where, update_where, order_by, lex_trans, lex_total, All-update_where, All-updated,
  All-select_where, All-order_by, All-true, order_by-IsSorted, take-before-drop,
}
use procintel.Enrichment.Job.{EnrichmentJob, ClaimedEnrichmentJob, is_running}
use procintel.Enrichment.Transitions.{Jobs, started_job}
use procintel.Enrichment.Queue.{
  Claim, provider_wanted, claimable, status_rank, claimed_before, claim_candidates, claimed_job,
  claim_rows, claim_enrichment_jobs,
}

-- The claims are the selected rows, in the order of the selection.
claim_rows-eq-map :
    (now : ℕ) (owner : String) (rows jobs : Jobs)
    → (claim_rows now owner rows jobs).0 ≡ map claimed_job rows
unfolding claim_rows
claim_rows-eq-map now owner [] jobs = refl
claim_rows-eq-map now owner (row ∷ rows) jobs = ap (◌∷◌ (claimed_job row)) (
    claim_rows-eq-map now owner rows
      (update_where (λ job. job.id == row.id) (started_job now owner (row.attempt_count + 1)) jobs))

module _ (now : ℕ) (request : Claim) (skipped : ℕ → Bool) where
  -- What holds of every claimable row of a table holds of the candidates.
  pub candidates-All :
      (P Q : EnrichmentJob → Type 0) (jobs : Jobs)
      → ((job : EnrichmentJob) → claimable now request job ≡ true → P job → Q job)
      → All P jobs
      → All Q (claim_candidates now request skipped jobs)
  unfolding claim_candidates
  candidates-All P Q jobs keep h = All-take Q request.limit _ (
      All-order_by Q claimed_before _ (
        All-select_where P Q _ jobs
          (λ job sel. keep job (and→both (claimable now request job) (not (skipped job.id)) sel).0)
          h))

-- The rows that the SELECT of a claim orders.
abbrev pub eligible : ℕ → Claim → (ℕ → Bool) → Jobs → Jobs
eligible now request skipped jobs =
    select_where (λ job. claimable now request job && not (skipped job.id)) jobs

pub candidates_none :
    (now : ℕ) (request : Claim) (skipped : ℕ → Bool) (jobs : Jobs)
    → (request.limit == 0) ≡ true
    → claim_candidates now request skipped jobs ≡ []
unfolding claim_candidates
candidates_none now request skipped jobs h = rw (==→eq request.limit 0 h) refl

pub length-candidates-le :
    (now : ℕ) (request : Claim) (skipped : ℕ → Bool) (jobs : Jobs)
    → length (claim_candidates now request skipped jobs) ≤ request.limit
unfolding claim_candidates
length-candidates-le now request skipped jobs =
    length-take-le request.limit (order_by claimed_before (eligible now request skipped jobs))

pub claims-eq-map :
    (now : ℕ) (request : Claim) (skipped : ℕ → Bool) (jobs : Jobs)
    → (claim_enrichment_jobs now request skipped jobs).0
      ≡ map claimed_job (claim_candidates now request skipped jobs)
unfolding claim_enrichment_jobs
claims-eq-map now request skipped jobs = elim (Bool-cases (request.limit == 0)) [
  | inl nothing ↦ rw nothing (rw (candidates_none now request skipped jobs nothing) refl)
  | inr some_rows ↦
      rw some_rows
        (claim_rows-eq-map now request.owner (claim_candidates now request skipped jobs) jobs)
]

abbrev pub has_claim : ℕ → List ClaimedEnrichmentJob → Bool
has_claim job_id = any_of (λ claim. claim.id == job_id)

-- A job of the listed rows is running.
abbrev Held : Jobs → EnrichmentJob → Type 0
Held rows job = any_of (λ row. row.id == job.id) rows ≡ true → is_running job.status ≡ true

claim_rows-Held :
    (now : ℕ) (owner : String) (held rows jobs : Jobs)
    → All (Held held) jobs
    → All (Held held) (claim_rows now owner rows jobs).1
unfolding claim_rows
claim_rows-Held now owner held [] jobs h = h
claim_rows-Held now owner held (row ∷ rows) jobs h = claim_rows-Held now owner held rows _ (
    All-update_where (Held held) (λ job. job.id == row.id)
      (started_job now owner (row.attempt_count + 1)) jobs (λ job _ _ _. unfold is_running in refl)
      h)

Held-cons :
    (row : EnrichmentJob) (rows : Jobs) (job : EnrichmentJob)
    → Held (row ∷ []) job
    → Held rows job
    → Held (row ∷ rows) job
Held-cons row rows job one rest either = ground arith

Held-other : (row job : EnrichmentJob) → (job.id == row.id) ≡ false → Held (row ∷ []) job
Held-other row job other same = ground arith

-- A running row is not claimable.
claimable-running :
    (now : ℕ) (request : Claim) (job : EnrichmentJob)
    → is_running job.status ≡ true
    → claimable now request job ≡ false
unfolding claimable is_running
claimable-running now request job h = ground arith

claimable_bounds :
    (now : ℕ) (request : Claim) (job : EnrichmentJob)
    → claimable now request job ≡ true
    → (job.attempt_count + 1 ≤ job.max_attempts)
      × (provider_wanted request.providers job.provider ≡ true)
unfolding claimable
claimable_bounds now request job h = ground arith

-- After the loop, every job of the table whose row was selected is running.
claim_rows-running :
    (now : ℕ) (owner : String) (rows jobs : Jobs)
    → All (Held rows) (claim_rows now owner rows jobs).1
unfolding claim_rows
claim_rows-running now owner [] jobs =
    All-map (λ job. Unit {0}) (Held []) jobs (λ job _ h. cc) (All-true jobs)
claim_rows-running now owner (row ∷ rows) jobs =
    let jobs' : Jobs =
      update_where (λ job. job.id == row.id) (started_job now owner (row.attempt_count + 1)) jobs in
    All-both (Held (row ∷ [])) (Held rows) (Held (row ∷ rows)) (claim_rows now owner rows jobs').1
      (λ job one rest either. Held-cons row rows job one rest either)
      (claim_rows-Held now owner (row ∷ []) rows jobs' (
        All-updated (Held (row ∷ [])) (λ job. job.id == row.id)
          (started_job now owner (row.attempt_count + 1)) jobs
          (λ job _ _. unfold is_running in refl) (λ job other same. Held-other row job other same)))
      (claim_rows-running now owner rows jobs')

-- No claim is of a running row that the table has under its number.
claims-not-Held :
    (now : ℕ) (request : Claim) (skipped : ℕ → Bool) (held jobs : Jobs)
    → All (Held held) jobs
    → All
        (λ row. any_of (λ h. h.id == row.id) held ≡ false)
        (claim_candidates now request skipped jobs)
claims-not-Held now request skipped held jobs h =
    candidates-All now request skipped (Held held)
      (λ row. any_of (λ r. r.id == row.id) held ≡ false) jobs
      (λ job ok running. elim (Bool-cases (any_of (λ r. r.id == job.id) held)) [
        | inl is_held ↦ cc (claimable-running now request job (running is_held))
        | inr is_free ↦ is_free
      ])
      h

claim_rows-skip :
    (now : ℕ) (request : Claim) (skipped : ℕ → Bool) (jobs : Jobs)
    → All
        (Held (claim_candidates now request skipped jobs))
        (claim_enrichment_jobs now request skipped jobs).1
unfolding claim_enrichment_jobs
claim_rows-skip now request skipped jobs = elim (Bool-cases (request.limit == 0)) [
  | inl nothing ↦ rw nothing (
      rw (candidates_none now request skipped jobs nothing)
        (claim_rows-running now request.owner [] jobs))
  | inr some_rows ↦
      rw some_rows
        (claim_rows-running now request.owner (claim_candidates now request skipped jobs) jobs)
]

-- A job that one call of `claim_enrichment_jobs` hands out is not handed out by a second call on
-- the table that the first leaves, whoever makes it and at whatever time.
pub no_double_claim :
    (now now' : ℕ) (request request' : Claim) (skipped skipped' : ℕ → Bool) (jobs : Jobs)
    → let first = claim_enrichment_jobs now request skipped jobs in
      All
        (λ claim. has_claim claim.id first.0 ≡ false)
        (claim_enrichment_jobs now' request' skipped' first.1).0
no_double_claim now now' request request' skipped skipped' jobs =
    let rows : Jobs = claim_candidates now request skipped jobs in
    let jobs' : Jobs = (claim_enrichment_jobs now request skipped jobs).1 in
    rw (claims-eq-map now request skipped jobs) (
      rw (claims-eq-map now' request' skipped' jobs') (
        All-of_map (λ claim. has_claim claim.id (map claimed_job rows) ≡ false) claimed_job
          (claim_candidates now' request' skipped' jobs')
          (All-map (λ row. any_of (λ r. r.id == row.id) rows ≡ false)
            (λ row. has_claim row.id (map claimed_job rows) ≡ false)
            (claim_candidates now' request' skipped' jobs')
            (λ row free. any_of-map (λ claim. claim.id == row.id) claimed_job rows ∙ free)
            (claims-not-Held now' request' skipped' rows jobs'
              (claim_rows-skip now request skipped jobs)))))

-- A call hands out at most `limit` jobs; each is of a wanted provider, and its attempt, counted, is
-- within the job's attempts.
pub claims_within_bounds :
    (now : ℕ) (request : Claim) (skipped : ℕ → Bool) (jobs : Jobs)
    → (length (claim_enrichment_jobs now request skipped jobs).0 ≤ request.limit)
      × All
          (λ claim.
            (claim.attempt_count ≤ claim.max_attempts)
            × (provider_wanted request.providers claim.provider ≡ true))
          (claim_enrichment_jobs now request skipped jobs).0
claims_within_bounds now request skipped jobs = rw (claims-eq-map now request skipped jobs) (
  omega (
    arith,
    length-map claimed_job (claim_candidates now request skipped jobs),
    length-candidates-le now request skipped jobs,
  ),
  All-of_map
      (λ claim.
        (claim.attempt_count ≤ claim.max_attempts)
        × (provider_wanted request.providers claim.provider ≡ true))
      claimed_job (claim_candidates now request skipped jobs)
      (candidates-All now request skipped (λ job. Unit {0})
        (λ job.
          (job.attempt_count + 1 ≤ job.max_attempts)
          × (provider_wanted request.providers job.provider ≡ true))
        jobs (λ job ok _. (claimable_bounds now request job ok)) (All-true jobs)),
)
