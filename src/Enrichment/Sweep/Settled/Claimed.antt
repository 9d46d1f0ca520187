-- ===== src/Enrichment/Sweep/Settled/Claimed.antt =====
-- services/ingestion/enrichment_worker.py: the row of the job that a turn claims.
use procintel.Common.{
  ℕ, suc, ◌+◌, ◌≤◌, ◌≡◌, refl, ◌∙◌, Bool, true, false, String, [], ◌∷◌, map, All, All-map, All-both,
  arith, ◌==◌, length,
}
use procintel.Common.PrimaryKey.{IsNodup}
use procintel.Common.Table.{All-update_to, any_of-update_where}
use procintel.Enrichment.Job.{EnrichmentJob}
use procintel.Enrichment.Transitions.{Jobs, started_job}
use procintel.Enrichment.Queue.{claim_candidates, claimed_job, claim_rows, claim_enrichment_jobs}
use procintel.Enrichment.Claiming.{candidates-All, length-candidates-le}
use procintel.Enrichment.Worker.{Setting, Sweep, claim_for}
use procintel.Enrichment.Lookup.{has_row}
use procintel.Enrichment.Sweep.Settled.Outcomes.{IsClaimedIn, IsClaimOf}

-- With distinct ids, a row with the id of a row is that row.
abbrev SameRow : EnrichmentJob → EnrichmentJob → Type 0
SameRow r row = (row.id == r.id) ≡ true → row.max_attempts ≡ r.max_attempts

SameRow-other :
    (r : EnrichmentJob) (rows : Jobs)
    → All (λ m. (r.id == m) ≡ false) (map (λ row. row.id) rows)
    → All (λ row. SameRow r row × SameRow row r) rows
SameRow-other r [] h = tt
SameRow-other r (row ∷ rows) h =
    ((λ same. ground arith, λ same. ground arith), SameRow-other r rows h.1)

same_rows :
    (rows : Jobs) → IsNodup (map (λ row. row.id) rows) → All (λ r. All (SameRow r) rows) rows
same_rows [] h = tt
same_rows (r ∷ rows) h =
    let others : All (λ row. SameRow r row × SameRow row r) rows = SameRow-other r rows h.0 in
    (
      (λ same. refl, All-map _ (SameRow r) rows (λ row both. both.0) others),
      All-both (λ row. SameRow r row × SameRow row r) (λ row. All (SameRow row) rows)
          (λ row. All (SameRow row) (r ∷ rows)) rows (λ row both all. (both.1, all)) others
          (same_rows rows h.1),
    )

has_row_self : (jobs : Jobs) → All (λ row. has_row row.id jobs ≡ true) jobs
has_row_self [] = tt
has_row_self (job ∷ jobs) = (
  ground arith,
  All-map (λ row. has_row row.id jobs ≡ true) (λ row. has_row row.id (job ∷ jobs) ≡ true) jobs
      (λ row there. ground arith) (has_row_self jobs),
)

abbrev IsRowOf : Jobs → EnrichmentJob → Type 0
IsRowOf jobs r = (has_row r.id jobs ≡ true) × All (SameRow r) jobs

pub too_many : {A : Type 0} (n : ℕ) → suc (suc n) ≤ 1 → A
too_many n le = absurd (omega arith)

-- The claim of one row.
claim_one :
    (now : ℕ) (owner : String) (candidates jobs : Jobs)
    → length candidates ≤ 1
    → All (IsRowOf jobs) candidates
    → All
        (λ job. IsClaimedIn job (claim_rows now owner candidates jobs).1)
        (claim_rows now owner candidates jobs).0
unfolding claim_rows
claim_one now owner [] jobs le h = tt
claim_one now owner (r ∷ []) jobs le h = (
  (
    any_of-update_where (λ row. row.id == r.id) (λ row. row.id == r.id)
          (started_job now owner (r.attempt_count + 1)) jobs (λ row. refl)
        ∙ h.0.0,
    All-update_to (SameRow r) (IsClaimOf (claimed_job r)) (λ row. row.id == r.id)
        (started_job now owner (r.attempt_count + 1)) jobs
        (λ row hit same _. (refl, same hit, omega arith)) (λ row miss _ hit. cc) h.0.1,
  ),
  tt,
)
claim_one now owner (r ∷ r' ∷ rows) jobs le h = too_many (length rows) le

pub claim-IsClaimedIn :
    (e : Setting) (s : Sweep) (provider : String) (now : ℕ) (skipped : ℕ → Bool) (jobs : Jobs)
    → IsNodup (map (λ row. row.id) jobs)
    → let claimed = claim_enrichment_jobs now (claim_for e s provider) skipped jobs in
      All (λ job. IsClaimedIn job claimed.1) claimed.0
unfolding claim_enrichment_jobs
claim-IsClaimedIn e s provider now skipped jobs distinct =
    claim_one now e.owner (claim_candidates now (claim_for e s provider) skipped jobs) jobs
      (length-candidates-le now (claim_for e s provider) skipped jobs)
      (candidates-All now (claim_for e s provider) skipped (IsRowOf jobs) (IsRowOf jobs) jobs
        (λ job ok is. is)
        (All-both (λ row. has_row row.id jobs ≡ true) (λ row. All (SameRow row) jobs) (IsRowOf jobs)
          jobs (λ row there same. (there, same)) (has_row_self jobs) (same_rows jobs distinct)))
