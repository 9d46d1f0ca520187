-- ===== src/Enrichment/Tests.antt =====
-- The queue on small tables, and the theorems about it at those inputs.
use procintel.Common.{
  ℕ, ◌≡◌, refl, Bool, true, false, String, none, some, List, ◌==◌, [], ◌∷◌, map, arith, All,
}
use procintel.Common.PrimaryKey.{IsNodup}
use procintel.Common.Json
use procintel.Common.Clock.{minutes}
use procintel.Enrichment.Job.{Status, EnrichmentJob, EnqueueRequest, ClaimedEnrichmentJob}
use procintel.Enrichment.Transitions.{
  Jobs, enqueue_enrichment, Failure, fail_enrichment, after_fail,
}
use procintel.Enrichment.Queue.{
  Claim, claimable, claim_enrichment_jobs, is_stale, recover_stale_enrichment_jobs,
}
use procintel.Enrichment.Consistency.{
  IsConsistent, Reachable, empty, next, enqueue, claim, Reachable-IsConsistent,
}
use procintel.Enrichment.Claiming.{has_claim, no_double_claim}
use procintel.Enrichment.Claiming.Order.{ComesFirst, claims_come_first}
use procintel.Enrichment.Keys.{key_of, IsDistinct, Reachable-IsDistinct}
use procintel.Enrichment.Worker.{Enqueued, enqueue_all}
use procintel.Enrichment.Lookup.{WhenOwn}
use procintel.Enrichment.Retries.{Ended, permanent_is_final}
use procintel.Enrichment.Stranded.{Round, rounds, Stuck, recovered_exhausted_is_stranded}

abbrev request : String → ℕ → EnqueueRequest
request key priority = record {
  provider = "MEF";
  idempotency_key = key;
  payload = Json.end;
  object_type = none;
  object_id = none;
  source_record_id = none;
  priority = priority;
  max_attempts = 2;
}

abbrev two_jobs : Jobs
two_jobs =
    (enqueue_enrichment (request "b" 50) 2 200 (enqueue_enrichment (request "a" 100) 1 100 []).1).1

abbrev any_one : Claim
any_one = record {
  limit = 1;
  providers = some ("MEF" ∷ []);
  reactivate_blocked_providers = [];
  owner = "worker";
}

abbrev unlocked : ℕ → Bool
unlocked id = false

-- The lower priority number goes first, and the next call hands out the other job.
first_claims : map (λ c. c.id) (claim_enrichment_jobs 300 any_one unlocked two_jobs).0 ≡ 2 ∷ []
unfolding claim_enrichment_jobs enqueue_enrichment
first_claims = refl

second_claims :
    map
      (λ c. c.id)
      (claim_enrichment_jobs 300 any_one unlocked
        (claim_enrichment_jobs 300 any_one unlocked two_jobs).1).0
    ≡ 1 ∷ []
unfolding claim_enrichment_jobs enqueue_enrichment
second_claims = refl

two_jobs-Reachable : Reachable (claim_enrichment_jobs 300 any_one unlocked two_jobs).1
two_jobs-Reachable =
    next
      (next (next empty (enqueue (request "a" 100) 1 100 []))
        (enqueue (request "b" 50) 2 200 (enqueue_enrichment (request "a" 100) 1 100 []).1))
      (claim 300 any_one unlocked two_jobs)

Reachable-IsConsistent_example :
    All IsConsistent (claim_enrichment_jobs 300 any_one unlocked two_jobs).1
Reachable-IsConsistent_example = Reachable-IsConsistent two_jobs-Reachable

Reachable-IsDistinct_example :
    IsDistinct (map key_of (claim_enrichment_jobs 300 any_one unlocked two_jobs).1)
Reachable-IsDistinct_example = Reachable-IsDistinct two_jobs-Reachable

no_double_claim_example :
    All
      (λ c. has_claim c.id (claim_enrichment_jobs 300 any_one unlocked two_jobs).0 ≡ false)
      (claim_enrichment_jobs 400 any_one unlocked
        (claim_enrichment_jobs 300 any_one unlocked two_jobs).1).0
no_double_claim_example = no_double_claim 300 400 any_one any_one unlocked unlocked two_jobs

two_distinct : IsNodup (map (λ row. row.id) two_jobs)
unfolding enqueue_enrichment
two_distinct = ((refl, tt), (tt, tt))

-- Job 2 is claimed and job 1 is not.
claims_come_first_example :
    All
      (λ a.
        All
          (λ b.
            has_claim a.id (claim_enrichment_jobs 300 any_one unlocked two_jobs).0 ≡ true
            → has_claim b.id (claim_enrichment_jobs 300 any_one unlocked two_jobs).0 ≡ false
            → claimable 300 any_one b ≡ true
            → unlocked b.id ≡ false
            → ComesFirst a b)
          two_jobs)
      two_jobs
claims_come_first_example = claims_come_first 300 any_one unlocked two_jobs two_distinct

abbrev one_job : EnrichmentJob
one_job = record {
  id = 7;
  provider = "MEF";
  idempotency_key = "k";
  object_type = none;
  object_id = none;
  source_record_id = none;
  payload = Json.end;
  status = Status.running;
  priority = 100;
  attempt_count = 2;
  max_attempts = 2;
  available_at = 0;
  locked_at = some 100;
  locked_by = some "worker";
  last_error = none;
  result = none;
  created_at = 0;
  updated_at = 0;
  finished_at = none;
}

abbrev virus : Failure
virus = record {
  error = Json.field "type" (Json.str "VirusDetectedError") Json.end;
  blocked_config = false;
  blocked_upstream = false;
  permanent = true;
}

abbrev time_out : Failure
time_out = record virus { permanent = false }

abbrev again : List Enqueued
again = record { request = request "k" 1; id = 8; now = 900 } ∷ []

permanent_is_final_example : All (WhenOwn (Ended 2) 7) (
    enqueue_all again
      (after_fail (one_job ∷ two_jobs) (fail_enrichment 500 7 virus (one_job ∷ two_jobs))))
unfolding enqueue_enrichment
permanent_is_final_example =
    permanent_is_final 500 7 2 virus again (one_job ∷ two_jobs) refl refl refl refl
      ((λ own. refl), ((λ own. cc), ((λ own. cc), tt))) (refl, tt)

stale_job : is_stale 2_000_000_000 (minutes 30) one_job ≡ true
unfolding is_stale
stale_job = refl

abbrev one_round : Round
one_round = record {
  recover_at = 3_000_000_000;
  stale_after = minutes 30;
  claim_at = 3_000_000_000;
  request = any_one;
  skipped = unlocked;
}

abbrev stranded : List ClaimedEnrichmentJob × Jobs
stranded =
    rounds (one_round ∷ one_round ∷ [])
      (recover_stale_enrichment_jobs 2_000_000_000 (minutes 30) (one_job ∷ two_jobs)).1

-- The two other jobs are claimed.
others_are_claimed : map (λ c. c.id) stranded.0 ≡ 2 ∷ 1 ∷ []
unfolding rounds enqueue_enrichment
others_are_claimed = refl

recovered_exhausted_is_stranded_example :
    All (λ claim. (claim.id == 7) ≡ false) stranded.0 × All (WhenOwn Stuck 7) stranded.1
unfolding enqueue_enrichment
recovered_exhausted_is_stranded_example =
    recovered_exhausted_is_stranded 2_000_000_000 (minutes 30) 7 (one_round ∷ one_round ∷ [])
      (one_job ∷ two_jobs) ((λ own. (stale_job, omega arith)), ((λ own. cc), ((λ own. cc), tt)))
