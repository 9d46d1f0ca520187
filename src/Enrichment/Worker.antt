-- ===== src/Enrichment/Worker.antt =====
-- services/ingestion/enrichment_worker.py: `run_pending_enrichment_jobs`, which takes jobs from the
-- queue provider by provider. What the connectors do for a job, `_dispatch`, is an argument.
use procintel.Common.{
  ℕ, zero, suc, ◌+◌, ◌%◌, Bool, true, false, not, Option, none, some, String, List, [], ◌∷◌, ◌&&◌,
  ltb, ◌==◌, str_eq, if◌then◌else◌, length,
}
use procintel.Common.Table.{select_where, update_where, count_where, order_by}
use procintel.Common.Json
use procintel.Common.Json.{Fields}
use procintel.Enrichment.Job.{
  Status, EnrichmentJob, EnqueueRequest, ClaimedEnrichmentJob, is_runnable,
}
use procintel.Enrichment.Transitions.{Jobs, enqueue_enrichment, Failure}
use procintel.Enrichment.Queue.{Claim, mem_of, provider_wanted}
use Prim.Native.String.{compare}
use text.Mathlib.Text.{is_le}

-- A job that the dispatch enqueues for another provider, with the UUID and the time of the call.
pub record Enqueued : Type 0 where
  pub request : EnqueueRequest
  pub id : ℕ
  pub now : ℕ

-- How `_dispatch` ends: it returns, with the jobs enqueued, or raises one of the exceptions that the
-- worker tells apart. An error is the JSON object of its type and message; a broken contract has
-- them apart, since the message goes into the rows of the provider's other jobs too.
pub data Dispatched : Type 0 where
  returned : (external_call : Bool) → (result : Fields) → List Enqueued → Dispatched
  circuit_open : (retry_after : Option ℕ) → Dispatched
  configuration_error permanent_error other_error : (error : Fields) → Dispatched
  upstream_error : (type_name message : String) → Dispatched

abbrev pub error_object : String → String → Fields
error_object type_name message =
    Json.field "type" (Json.str type_name) (Json.field "message" (Json.str message) Json.end)

-- The keys of the counts by provider.
pub data Tally : Type 0 where
  succeeded failed dead blocked_config blocked_upstream circuit_deferred deferred : Tally

abbrev pub same_tally : Tally → Tally → Bool
same_tally Tally.succeeded Tally.succeeded = true
same_tally Tally.failed Tally.failed = true
same_tally Tally.dead Tally.dead = true
same_tally Tally.blocked_config Tally.blocked_config = true
same_tally Tally.blocked_upstream Tally.blocked_upstream = true
same_tally Tally.circuit_deferred Tally.circuit_deferred = true
same_tally Tally.deferred Tally.deferred = true
same_tally _ _ = false

-- What the worker is called with and what it finds outside. `_Dependencies` is the providers that
-- are configured and the messages of those whose contract is not met.
pub record Setting : Type 0 where
  pub known_providers : List String
  pub configured : List String
  pub upstream_errors : List (String × Fields)
  pub providers : Option (List String)
  pub provider_budgets : String → Option ℕ
  pub owner : String
  -- The clock and the rows locked by others, at a turn of the loop.
  pub now : ℕ → ℕ
  pub skipped : ℕ → ℕ → Bool
  pub dispatch : ℕ → ClaimedEnrichmentJob → Dispatched

-- The variables of the sweep. A missing key of a dictionary of counts is zero.
pub record Sweep : Type 0 where
  pub jobs : Jobs
  pub claimed : ℕ
  pub succeeded : ℕ
  pub failed : ℕ
  pub blocked : ℕ
  pub upstream_blocked : ℕ
  pub attempts : String → ℕ
  pub by_provider : String → Tally → ℕ
  pub provider_cursor : ℕ
  pub exhausted_providers : List String
  pub unavailable_providers : List String

-- `_increment`
unfoldable pub increment : ℕ → String → Tally → (String → Tally → ℕ) → String → Tally → ℕ
increment n provider tally counts p t =
    if str_eq p provider && same_tally t tally then counts p t + n else counts p t

abbrev pub attempted : String → Sweep → Sweep
attempted provider s = record s {
  attempts = λ p. if str_eq p provider then s.attempts p + 1 else s.attempts p;
}

unfoldable pub is_blockable : Status → Bool
unfolding is_runnable
is_blockable Status.blocked_config = true
is_blockable status = is_runnable status

abbrev pub blocked_job : ℕ → Fields → EnrichmentJob → EnrichmentJob
blocked_job now message job = record job {
  status = Status.blocked_upstream;
  locked_at = none;
  locked_by = none;
  last_error = some message;
  finished_at = some now;
  updated_at = now;
}

unfoldable pub blocks : String → EnrichmentJob → Bool
unfolding is_blockable
blocks provider job = str_eq job.provider provider && is_blockable job.status

-- `_block_static_upstream_jobs`: the providers with a positive count, and the table.
unfoldable pub block_static_upstream_jobs :
    ℕ → List (String × Fields) → Option (List String) → Jobs → List (String × ℕ) × Jobs
unfolding blocks update_where count_where
block_static_upstream_jobs now [] providers jobs = ([], jobs)
block_static_upstream_jobs now ((provider, message) ∷ errors) providers jobs =
    let count = count_where (blocks provider) jobs in
    let rest =
      block_static_upstream_jobs now errors providers
        (update_where (blocks provider) (blocked_job now message) jobs) in
    let skip = block_static_upstream_jobs now errors providers jobs in
    if provider_wanted providers provider
    then (if count == 0 then rest.0 else (provider, count) ∷ rest.0, rest.1)
    else skip

abbrev pub sorted_names : List String → List String
sorted_names = order_by (λ p q. is_le (compare p q))

unfoldable pub provider_order : Setting → List String
unfolding select_where order_by
provider_order e = sorted_names (select_where (provider_wanted e.providers) e.known_providers)

abbrev pub within_budget : Option ℕ → ℕ → Bool
within_budget none attempts = true
within_budget (some budget) attempts = ltb attempts budget

unfoldable pub is_usable : Setting → Sweep → String → Bool
is_usable e s provider =
    not (mem_of provider s.exhausted_providers)
    && (not (mem_of provider s.unavailable_providers)
        && within_budget (e.provider_budgets provider) (s.attempts provider))

abbrev pub get_elem? : List String → ℕ → Option String
get_elem? [] i = none
get_elem? (x ∷ xs) zero = some x
get_elem? (x ∷ xs) (suc i) = get_elem? xs i

-- The inner loop: the provider selected, and the cursor after it.
unfoldable pub select_provider : (String → Bool) → List String → ℕ → ℕ → ℕ → Option (String × ℕ)
select_provider usable order cursor zero offset = none
select_provider usable order cursor (suc left) offset =
    let index = (cursor + offset) % length order in
    let rest = select_provider usable order cursor left (offset + 1) in
    elim (get_elem? order index) [
      | none ↦ rest
      | some candidate ↦
          if usable candidate then some (candidate, (index + 1) % length order) else rest
    ]

abbrev pub available_providers : Setting → Sweep → List String
available_providers e s = select_where (λ p. not (mem_of p s.unavailable_providers)) e.configured

abbrev pub claim_for : Setting → Sweep → String → Claim
claim_for e s provider = record {
  limit = 1;
  providers = some (provider ∷ []);
  reactivate_blocked_providers = available_providers e s;
  owner = e.owner;
}

abbrev pub failure : Fields → Failure
failure error = record {
  error = error;
  blocked_config = false;
  blocked_upstream = false;
  permanent = false;
}

unfoldable pub enqueue_all : List Enqueued → Jobs → Jobs
unfolding enqueue_enrichment
enqueue_all [] jobs = jobs
enqueue_all (q ∷ qs) jobs = enqueue_all qs (enqueue_enrichment q.request q.id q.now jobs).1
