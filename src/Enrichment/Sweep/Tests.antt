-- ===== src/Enrichment/Sweep/Tests.antt =====
-- A sweep over a small queue: two providers, one of which fails its contract.
use procintel.Common.{
  ℕ, ◌≡◌, refl, true, false, none, some, String, [], ◌∷◌, str_eq, if◌then◌else◌, map, any_of, All,
}
use procintel.Common.Json
use procintel.Enrichment.Job.{Status, EnrichmentJob, ClaimedEnrichmentJob}
use procintel.Enrichment.Transitions.{Jobs, new_job}
use procintel.Enrichment.Worker.{
  Setting, Sweep, Dispatched, returned, upstream_error, provider_order, claim_for,
}
use procintel.Enrichment.Sweep.Settled.{turn_settles_its_job}
use procintel.Enrichment.Sweep.Settled.Outcomes.{IsSettled}
use procintel.Common.PrimaryKey.{IsNodup}
use procintel.Enrichment.Queue.{claim_enrichment_jobs}
use procintel.Enrichment.Sweep.{initial_sweep, after_claim, sweep_loop, run_pending_enrichment_jobs}
use procintel.Enrichment.Sweep.Budgets.{IsWithinBudgets, run-IsWithinBudgets, given_up_is_left}

abbrev job : ℕ → String → String → EnrichmentJob
job id provider key =
    new_job
      (record {
        provider = provider;
        idempotency_key = key;
        payload = Json.end;
        object_type = none;
        object_id = none;
        source_record_id = none;
        priority = 1;
        max_attempts = 3;
      })
      id 1

abbrev jobs : Jobs
jobs = job 1 "MEF" "a" ∷ job 2 "MEF" "b" ∷ job 3 "GEMI" "a" ∷ job 4 "GEMI" "b" ∷ []

abbrev answer : ClaimedEnrichmentJob → Dispatched
answer claimed =
    if str_eq claimed.provider "MEF"
    then upstream_error "ProviderUpstreamContractError" "gone"
    else returned true Json.end []

abbrev setting : Setting
setting = record {
  known_providers = "MEF" ∷ "GEMI" ∷ [];
  configured = "MEF" ∷ "GEMI" ∷ [];
  upstream_errors = [];
  providers = none;
  provider_budgets = λ p. if str_eq p "GEMI" then some 1 else none;
  owner = "worker";
  now = λ turn. 100;
  skipped = λ turn id. false;
  dispatch = λ turn. answer;
}

abbrev at_end : Sweep
at_end = (run_pending_enrichment_jobs setting 10 jobs).0

-- GEMI comes first in the order and has a budget of one; MEF is blocked as a whole.
statuses :
    map (λ j. j.status) at_end.jobs
    ≡ Status.blocked_upstream ∷ Status.blocked_upstream ∷ Status.succeeded ∷ Status.queued ∷ []
unfolding run_pending_enrichment_jobs
statuses = refl

counts :
    (at_end.claimed ≡ 2)
    × (at_end.succeeded ≡ 1)
    × (at_end.upstream_blocked ≡ 2)
    × ((run_pending_enrichment_jobs setting 10 jobs).1 ≡ 1)
unfolding run_pending_enrichment_jobs
counts = (refl, refl, refl, refl)

run-IsWithinBudgets_example : IsWithinBudgets setting at_end
run-IsWithinBudgets_example = run-IsWithinBudgets setting 10 jobs

abbrev given_up : Sweep
given_up = record at_end { unavailable_providers = "MEF" ∷ [] }

given_up_is_left_example :
    (any_of
        (λ t. str_eq t "MEF")
        (sweep_loop setting (provider_order setting) 3 given_up).unavailable_providers
      ≡ true)
    × ((sweep_loop setting (provider_order setting) 3 given_up).attempts "MEF"
        ≡ given_up.attempts "MEF")
given_up_is_left_example = given_up_is_left setting "MEF" 3 given_up refl

abbrev start : Sweep
start = initial_sweep setting 10 jobs

jobs_distinct : IsNodup (map (λ row. row.id) start.jobs)
unfolding initial_sweep
jobs_distinct = ((refl, (refl, (refl, tt))), ((refl, (refl, tt)), ((refl, tt), (tt, tt))))

-- The turn claims the first job of MEF, whose contract is not met.
turn_settles_its_job_example :
    All
      (λ job.
        IsSettled 100 job
          (answer job)
          (after_claim setting 3 "MEF"
            (claim_enrichment_jobs 100 (claim_for setting start "MEF") (λ id. false) start.jobs)
            (record start { provider_cursor = 1 })).jobs)
      (claim_enrichment_jobs 100 (claim_for setting start "MEF") (λ id. false) start.jobs).0
turn_settles_its_job_example = turn_settles_its_job setting 3 "MEF" 1 start jobs_distinct

one_is_claimed :
    map
      (λ job. job.id)
      (claim_enrichment_jobs 100 (claim_for setting start "MEF") (λ id. false) start.jobs).0
    ≡ 1 ∷ []
unfolding claim_enrichment_jobs initial_sweep
one_is_claimed = refl
