-- ===== src/Enrichment/Stranded.antt =====
-- What becomes of a job whose worker is lost in its last attempt.
use procintel.Common.{
  ℕ, ◌+◌, ◌≤◌, ◌≡◌, refl, true, false, Bool, String, List, [], ◌∷◌, ◌++◌, All, All-of_map,
  All-concat, ◌==◌, arith, Bool-cases, inl, inr,
}
use procintel.Common.Table.{All-update_where, All-update_to}
use procintel.Enrichment.Job.{Status, EnrichmentJob, ClaimedEnrichmentJob, is_running}
use procintel.Enrichment.Transitions.{Jobs, started_job}
use procintel.Enrichment.Queue.{
  Claim, claimable, claim_candidates, claimed_job, claim_rows, claim_enrichment_jobs, is_stale,
  recovered_job, recover_stale_enrichment_jobs,
}
use procintel.Enrichment.Claiming.{candidates-All, claims-eq-map}
use procintel.Enrichment.Lookup.{WhenOwn}

-- One round of a worker: it recovers the stale jobs and makes one claim.
pub record Round : Type 0 where
  pub recover_at : ℕ
  pub stale_after : ℕ
  pub claim_at : ℕ
  pub request : Claim
  pub skipped : ℕ → Bool

-- All the claims of the rounds, and the table at the end.
unfoldable pub rounds : List Round → Jobs → List ClaimedEnrichmentJob × Jobs
unfolding recover_stale_enrichment_jobs claim_enrichment_jobs
rounds [] jobs = ([], jobs)
rounds (r ∷ rs) jobs =
    let recovered = (recover_stale_enrichment_jobs r.recover_at r.stale_after jobs).1 in
    let claimed = claim_enrichment_jobs r.claim_at r.request r.skipped recovered in
    let rest = rounds rs claimed.1 in (claimed.0 ++ rest.0, rest.1)

-- QUEUED with no attempt left.
abbrev pub Stuck : EnrichmentJob → Type 0
Stuck row = (row.status ≡ Status.queued) × (row.max_attempts ≤ row.attempt_count)

Stuck-not-claimable :
    (now : ℕ) (request : Claim) (row : EnrichmentJob)
    → Stuck row
    → claimable now request row ≡ false
unfolding claimable
Stuck-not-claimable now request row stuck = ground arith

Stuck-not-stale :
    (now stale_after : ℕ) (row : EnrichmentJob) → Stuck row → is_stale now stale_after row ≡ false
unfolding is_stale is_running
Stuck-not-stale now stale_after row h = ground arith

recover-Stuck :
    (now stale_after id : ℕ) (jobs : Jobs)
    → All (WhenOwn Stuck id) jobs
    → All (WhenOwn Stuck id) (recover_stale_enrichment_jobs now stale_after jobs).1
unfolding recover_stale_enrichment_jobs
recover-Stuck now stale_after id jobs h =
    All-update_where (WhenOwn Stuck id) (is_stale now stale_after) (recovered_job now) jobs
      (λ row stale stuck own. cc (stale, Stuck-not-stale now stale_after row (stuck own))) h

candidates-others :
    (now id : ℕ) (request : Claim) (skipped : ℕ → Bool) (jobs : Jobs)
    → All (WhenOwn Stuck id) jobs
    → All (λ row. (row.id == id) ≡ false) (claim_candidates now request skipped jobs)
candidates-others now id request skipped jobs h =
    candidates-All now request skipped (WhenOwn Stuck id) (λ row. (row.id == id) ≡ false) jobs
      (λ row ok stuck. elim (Bool-cases (row.id == id)) [
        | inl own ↦ cc (ok, Stuck-not-claimable now request row (stuck own))
        | inr other ↦ other
      ])
      h

claim_rows-Stuck :
    (now id : ℕ) (owner : String) (rows jobs : Jobs)
    → All (λ row. (row.id == id) ≡ false) rows
    → All (WhenOwn Stuck id) jobs
    → All (WhenOwn Stuck id) (claim_rows now owner rows jobs).1
unfolding claim_rows
claim_rows-Stuck now id owner [] jobs others h = h
claim_rows-Stuck now id owner (row ∷ rows) jobs others h =
    claim_rows-Stuck now id owner rows _ others.1 (
      All-update_where (WhenOwn Stuck id) (λ job. job.id == row.id)
        (started_job now owner (row.attempt_count + 1)) jobs
        (λ job hit stuck own. apart job row hit own others.0) h)
  where
    apart :
        (job row : EnrichmentJob)
        → (job.id == row.id) ≡ true
        → (job.id == id) ≡ true
        → (row.id == id) ≡ false
        → {A : Type 0} → A
    apart job row hit own other = ground arith

claim-Stuck :
    (now id : ℕ) (request : Claim) (skipped : ℕ → Bool) (jobs : Jobs)
    → All (WhenOwn Stuck id) jobs
    → All (WhenOwn Stuck id) (claim_enrichment_jobs now request skipped jobs).1
unfolding claim_enrichment_jobs
claim-Stuck now id request skipped jobs h = elim (Bool-cases (request.limit == 0)) [
  | inl nothing ↦ rw nothing h
  | inr some_rows ↦ rw some_rows (
      claim_rows-Stuck now id request.owner (claim_candidates now request skipped jobs) jobs
        (candidates-others now id request skipped jobs h) h)
]

claims-others :
    (now id : ℕ) (request : Claim) (skipped : ℕ → Bool) (jobs : Jobs)
    → All (WhenOwn Stuck id) jobs
    → All (λ claim. (claim.id == id) ≡ false) (claim_enrichment_jobs now request skipped jobs).0
claims-others now id request skipped jobs h = rw (claims-eq-map now request skipped jobs) (
    All-of_map (λ claim. (claim.id == id) ≡ false) claimed_job
      (claim_candidates now request skipped jobs) (candidates-others now id request skipped jobs h))

rounds-Stuck :
    (id : ℕ) (rs : List Round) (jobs : Jobs)
    → All (WhenOwn Stuck id) jobs
    → All (λ claim. (claim.id == id) ≡ false) (rounds rs jobs).0
      × All (WhenOwn Stuck id) (rounds rs jobs).1
unfolding rounds
rounds-Stuck id [] jobs h = (tt, h)
rounds-Stuck id (r ∷ rs) jobs h =
    let recovered : Jobs = (recover_stale_enrichment_jobs r.recover_at r.stale_after jobs).1 in
    let ok : All (WhenOwn Stuck id) recovered =
      recover-Stuck r.recover_at r.stale_after id jobs h in
    let rest : _ =
      rounds-Stuck id rs (claim_enrichment_jobs r.claim_at r.request r.skipped recovered).1
        (claim-Stuck r.claim_at id r.request r.skipped recovered ok) in
    (
      All-concat (λ claim. (claim.id == id) ≡ false)
          (claim_enrichment_jobs r.claim_at r.request r.skipped recovered).0 _
          (claims-others r.claim_at id r.request r.skipped recovered ok) rest.0,
      rest.1,
    )

-- A job that is stale in its last attempt is stranded: once `recover_stale_enrichment_jobs` has run,
-- no round of recovery and claiming, however many there are and with whatever arguments, hands it
-- out again, and it stays QUEUED with its attempts used up, and is never DEAD.
pub recovered_exhausted_is_stranded :
    (now stale_after id : ℕ) (rs : List Round) (jobs : Jobs)
    → All
        (WhenOwn
          (λ row. (is_stale now stale_after row ≡ true) × (row.max_attempts ≤ row.attempt_count))
          id)
        jobs
    → let end = rounds rs (recover_stale_enrichment_jobs now stale_after jobs).1 in
      All (λ claim. (claim.id == id) ≡ false) end.0 × All (WhenOwn Stuck id) end.1
unfolding recover_stale_enrichment_jobs
recovered_exhausted_is_stranded now stale_after id rs jobs h = rounds-Stuck id rs _ (
    All-update_to
      (WhenOwn
        (λ row. (is_stale now stale_after row ≡ true) × (row.max_attempts ≤ row.attempt_count)) id)
      (WhenOwn Stuck id) (is_stale now stale_after) (recovered_job now) jobs
      (λ row stale lost own. (refl, (lost own).1)) (λ row miss lost own. cc (miss, (lost own).0)) h)
