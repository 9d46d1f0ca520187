-- ===== src/Enrichment/Sweep/Budgets.antt =====
-- services/ingestion/enrichment_worker.py: the budgets of the providers, and those that a sweep
-- has given up.
use procintel.Common.{
  ℕ, ◌+◌, ◌≤◌, ◌≡◌, refl, true, false, Option, none, some, String, List, [], ◌∷◌, str_eq, All,
  Bool-cases, inl, inr, arith, eq_iff, sym, ◌∙◌, ◌⊎◌,
}
use procintel.Enrichment.Job.{ClaimedEnrichmentJob}
use procintel.Enrichment.Transitions.{Jobs}
use procintel.Enrichment.Queue.{mem_of, claim_enrichment_jobs}
use procintel.Enrichment.Worker.{
  Setting, Sweep, Dispatched, returned, circuit_open, configuration_error, upstream_error,
  permanent_error, other_error, attempted, within_budget, is_usable, claim_for, provider_order,
}
use procintel.Enrichment.Sweep.{
  handle, after_claim, sweep_loop, initial_sweep, run_pending_enrichment_jobs,
}
use procintel.Enrichment.Sweep.Rule.{claim-provider, sweep_loop-rule}

-- No provider was called more often than its budget says.
abbrev pub IsWithinBudgets : Setting → Sweep → Type 0
IsWithinBudgets e s =
    (p : String) (budget : ℕ) → e.provider_budgets p ≡ some budget → s.attempts p ≤ budget

-- The attempts after a turn: one more at most, for the provider of the job.
abbrev Counted : String → (String → ℕ) → (String → ℕ) → Type 0
Counted provider before after =
    (p : String) → (after p ≡ before p) ⊎ ((str_eq p provider ≡ true) × (after p ≡ before p + 1))

attempted-Counted :
    (provider : String) (s : Sweep) → Counted provider s.attempts (attempted provider s).attempts
attempted-Counted provider s p = elim (Bool-cases (str_eq p provider)) [
  | inl e ↦ rw e (inr (refl, refl))
  | inr e ↦ rw e (inl refl)
]

handle-Counted :
    (e : Setting) (now : ℕ) (job : ClaimedEnrichmentJob) (outcome : Dispatched) (s : Sweep)
    → Counted job.provider s.attempts (handle e now job outcome s).attempts
unfolding handle
handle-Counted e now job (returned true result enqueued) s = attempted-Counted job.provider s
handle-Counted e now job (returned false result enqueued) s = λ p. inl refl
handle-Counted e now job (circuit_open retry_after) s = λ p. inl refl
handle-Counted e now job (configuration_error error) s = attempted-Counted job.provider s
handle-Counted e now job (upstream_error type_name message) s = attempted-Counted job.provider s
handle-Counted e now job (permanent_error error) s = attempted-Counted job.provider s
handle-Counted e now job (other_error error) s = attempted-Counted job.provider s

after_claim-Counted :
    (e : Setting) (turn : ℕ) (provider : String) (claimed : List ClaimedEnrichmentJob × Jobs)
    (s : Sweep)
    → All (λ job. str_eq job.provider provider ≡ true) claimed.0
    → Counted provider s.attempts (after_claim e turn provider claimed s).attempts
unfolding after_claim
after_claim-Counted e turn provider ([], jobs) s h = λ p. inl refl
after_claim-Counted e turn provider (job ∷ more, jobs) s h =
    rw (sym ((eq_iff job.provider provider).0 h.0)) (
      handle-Counted e (e.now turn) job (e.dispatch turn job)
        (record s { jobs = jobs; claimed = s.claimed + 1 }))

usable-within :
    (e : Setting) (s : Sweep) (provider : String)
    → is_usable e s provider ≡ true
    → within_budget (e.provider_budgets provider) (s.attempts provider) ≡ true
unfolding is_usable
usable-within e s provider h = ground arith

within-lt :
    (found : Option ℕ) (budget n : ℕ)
    → found ≡ some budget
    → within_budget found n ≡ true
    → n + 1 ≤ budget
within-lt none budget n h k = cc
within-lt (some b) budget n h k = ground arith

turn-IsWithinBudgets :
    (e : Setting) (turn : ℕ) (s : Sweep) (provider : String) (cursor : ℕ)
    → is_usable e s provider ≡ true
    → IsWithinBudgets e s
    → IsWithinBudgets e (
        after_claim e turn provider
          (claim_enrichment_jobs (e.now turn) (claim_for e s provider) (e.skipped turn) s.jobs)
          (record s { provider_cursor = cursor }))
turn-IsWithinBudgets e turn s provider cursor usable h p budget found =
    elim (after_claim-Counted e turn provider
      (claim_enrichment_jobs (e.now turn) (claim_for e s provider) (e.skipped turn) s.jobs)
      (record s { provider_cursor = cursor })
      (claim-provider e s provider (e.now turn) (e.skipped turn) s.jobs) p) [
        | inl same ↦ rw same (h p budget found)
        | inr more ↦ rw more.1 (
            within-lt (e.provider_budgets p) budget (s.attempts p) found
              (rw ((eq_iff p provider).0 more.0) (usable-within e s provider usable)))
      ]

-- No provider is called over its budget: at the end of a sweep, whatever the connectors answer and
-- whatever the queue holds, the calls counted for a provider with a budget are at most that budget.
pub run-IsWithinBudgets :
    (e : Setting) (limit : ℕ) (jobs : Jobs)
    → IsWithinBudgets e (run_pending_enrichment_jobs e limit jobs).0
unfolding run_pending_enrichment_jobs initial_sweep
run-IsWithinBudgets e limit jobs =
    sweep_loop-rule e (provider_order e) (IsWithinBudgets e) (turn-IsWithinBudgets e) limit
      (initial_sweep e limit jobs) (λ p budget found. omega arith)

-- The provider is given up, with `n` calls counted.
abbrev GivenUp : String → ℕ → Sweep → Type 0
GivenUp p n s = (mem_of p s.unavailable_providers ≡ true) × (s.attempts p ≡ n)

abbrev StillGivenUp : String → Sweep → Sweep → Type 0
StillGivenUp p s s' =
    mem_of p s.unavailable_providers ≡ true → mem_of p s'.unavailable_providers ≡ true

handle-StillGivenUp :
    (e : Setting) (p : String) (now : ℕ) (job : ClaimedEnrichmentJob) (outcome : Dispatched)
    (s : Sweep)
    → StillGivenUp p s (handle e now job outcome s)
unfolding handle
handle-StillGivenUp e p now job (returned true result enqueued) s h = h
handle-StillGivenUp e p now job (returned false result enqueued) s h = h
handle-StillGivenUp e p now job (circuit_open retry_after) s h = h
handle-StillGivenUp e p now job (configuration_error error) s h = h
handle-StillGivenUp e p now job (upstream_error type_name message) s h = ground arith
handle-StillGivenUp e p now job (permanent_error error) s h = h
handle-StillGivenUp e p now job (other_error error) s h = h

after_claim-StillGivenUp :
    (e : Setting) (p : String) (turn : ℕ) (provider : String)
    (claimed : List ClaimedEnrichmentJob × Jobs) (s : Sweep)
    → StillGivenUp p s (after_claim e turn provider claimed s)
unfolding after_claim
after_claim-StillGivenUp e p turn provider ([], jobs) s h = h
after_claim-StillGivenUp e p turn provider (job ∷ more, jobs) s h =
    handle-StillGivenUp e p (e.now turn) job (e.dispatch turn job)
      (record s { jobs = jobs; claimed = s.claimed + 1 }) h

usable-available :
    (e : Setting) (s : Sweep) (provider : String)
    → is_usable e s provider ≡ true
    → mem_of provider s.unavailable_providers ≡ false
unfolding is_usable
usable-available e s provider h = ground arith

turn-GivenUp :
    (e : Setting) (p : String) (n turn : ℕ) (s : Sweep) (provider : String) (cursor : ℕ)
    → is_usable e s provider ≡ true
    → GivenUp p n s
    → GivenUp p n (
        after_claim e turn provider
          (claim_enrichment_jobs (e.now turn) (claim_for e s provider) (e.skipped turn) s.jobs)
          (record s { provider_cursor = cursor }))
turn-GivenUp e p n turn s provider cursor usable h = (
  after_claim-StillGivenUp e p turn provider
      (claim_enrichment_jobs (e.now turn) (claim_for e s provider) (e.skipped turn) s.jobs)
      (record s { provider_cursor = cursor }) h.0,
  elim (after_claim-Counted e turn provider
      (claim_enrichment_jobs (e.now turn) (claim_for e s provider) (e.skipped turn) s.jobs)
      (record s { provider_cursor = cursor })
      (claim-provider e s provider (e.now turn) (e.skipped turn) s.jobs) p) [
        | inl same ↦ same ∙ h.1
        | inr more ↦
            never p provider h.0 ((eq_iff p provider).0 more.0)
              (usable-available e s provider usable)
      ],
)
  where
    never :
        {A : Type 0} (q provider : String)
        → mem_of q s.unavailable_providers ≡ true
        → q ≡ provider
        → mem_of provider s.unavailable_providers ≡ false
        → A
    never q provider there same absent = cc

-- A provider that is given up stays so and is called no more: once its contract is known not to be
-- met, no turn of the loop counts another call of it.
pub given_up_is_left :
    (e : Setting) (p : String) (turns : ℕ) (s : Sweep)
    → mem_of p s.unavailable_providers ≡ true
    → (mem_of p (sweep_loop e (provider_order e) turns s).unavailable_providers ≡ true)
      × ((sweep_loop e (provider_order e) turns s).attempts p ≡ s.attempts p)
given_up_is_left e p turns s h =
    sweep_loop-rule e (provider_order e) (GivenUp p (s.attempts p))
      (turn-GivenUp e p (s.attempts p)) turns s (h, refl)
