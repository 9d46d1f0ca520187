-- ===== src/Enrichment/Lookup.antt =====
-- Rows of the queue by their ids.
use procintel.Common.{
  ℕ, ◌≡◌, refl, Bool, true, false, Option, none, some, List, [], ◌∷◌, All, any_of, arith, ◌==◌,
  Bool-cases, inl, inr,
}
use procintel.Enrichment.Job.{EnrichmentJob, EnqueueRequest}
use procintel.Enrichment.Transitions.{Jobs, same_key, refreshed_job, enqueue_enrichment, find_job}
use procintel.Enrichment.Worker.{Enqueued, enqueue_all}

abbrev pub WhenOwn : (EnrichmentJob → Type 0) → ℕ → EnrichmentJob → Type 0
WhenOwn P id row = (row.id == id) ≡ true → P row

abbrev pub has_row : ℕ → Jobs → Bool
has_row id = any_of (λ row. row.id == id)

-- What is known of the row that is found, or of the table where there is none.
abbrev pub Found : (EnrichmentJob → Type 0) → ℕ → Jobs → Option EnrichmentJob → Type 0
Found P id jobs none = has_row id jobs ≡ false
Found P id jobs (some row) = P row

Found-cons :
    (P : EnrichmentJob → Type 0) (id : ℕ) (job : EnrichmentJob) (jobs : Jobs)
    (found : Option EnrichmentJob)
    → (job.id == id) ≡ false
    → Found P id jobs found
    → Found P id (job ∷ jobs) found
Found-cons P id job jobs none miss h = rw miss h
Found-cons P id job jobs (some row) miss h = h

pub find_job-Found :
    (P : EnrichmentJob → Type 0) (id : ℕ) (jobs : Jobs)
    → All (WhenOwn P id) jobs
    → Found P id jobs (find_job id jobs)
unfolding find_job
find_job-Found P id [] h = refl
find_job-Found P id (job ∷ jobs) h = elim (Bool-cases (job.id == id)) [
  | inl hit ↦ rw hit (h.0 hit)
  | inr miss ↦
      rw miss (Found-cons P id job jobs (find_job id jobs) miss (find_job-Found P id jobs h.1))
]

enqueue-has :
    (id : ℕ) (request : EnqueueRequest) (new now : ℕ) (jobs : Jobs)
    → has_row id jobs ≡ true
    → has_row id (enqueue_enrichment request new now jobs).1 ≡ true
unfolding enqueue_enrichment
enqueue-has id request new now [] h = cc
enqueue-has id request new now (job ∷ jobs) h = elim (Bool-cases (same_key request job)) [
  | inl hit ↦ rw hit h
  | inr miss ↦ rw miss (ground (arith, enqueue-has id request new now jobs))
]

pub enqueue_all-has :
    (id : ℕ) (qs : List Enqueued) (jobs : Jobs)
    → has_row id jobs ≡ true
    → has_row id (enqueue_all qs jobs) ≡ true
unfolding enqueue_all
enqueue_all-has id [] jobs h = h
enqueue_all-has id (q ∷ qs) jobs h =
    enqueue_all-has id qs (enqueue_enrichment q.request q.id q.now jobs).1
      (enqueue-has id q.request q.id q.now jobs h)

-- Requests keep what holds of the rows of an id that is not new.
enqueue-WhenOwn :
    (P : EnrichmentJob → Type 0) (id : ℕ) (request : EnqueueRequest) (new now : ℕ) (jobs : Jobs)
    → ((job : EnrichmentJob) → P job → P (refreshed_job request now job))
    → (new == id) ≡ false
    → All (WhenOwn P id) jobs
    → All (WhenOwn P id) (enqueue_enrichment request new now jobs).1
unfolding enqueue_enrichment
enqueue-WhenOwn P id request new now [] keep other h = ((λ own. cc), tt)
enqueue-WhenOwn P id request new now (job ∷ jobs) keep other h =
    elim (Bool-cases (same_key request job)) [
      | inl hit ↦ rw hit ((λ own. keep job (h.0 own)), h.1)
      | inr miss ↦ rw miss (h.0, enqueue-WhenOwn P id request new now jobs keep other h.1)
    ]

pub enqueue_all-WhenOwn :
    (P : EnrichmentJob → Type 0) (id : ℕ) (qs : List Enqueued) (jobs : Jobs)
    → ((request : EnqueueRequest) (now : ℕ) (job : EnrichmentJob)
        → P job
        → P (refreshed_job request now job))
    → All (λ q. (q.id == id) ≡ false) qs
    → All (WhenOwn P id) jobs
    → All (WhenOwn P id) (enqueue_all qs jobs)
unfolding enqueue_all
enqueue_all-WhenOwn P id [] jobs keep other h = h
enqueue_all-WhenOwn P id (q ∷ qs) jobs keep other h =
    enqueue_all-WhenOwn P id qs (enqueue_enrichment q.request q.id q.now jobs).1 keep other.1
      (enqueue-WhenOwn P id q.request q.id q.now jobs (keep q.request q.now) other.0 h)
