-- ===== src/Enrichment/Sweep/Rule.antt =====
-- services/ingestion/enrichment_worker.py: what holds at the end of the loop when every turn that
-- selects a usable provider keeps it.
use procintel.Common.{
  ℕ, zero, suc, ◌+◌, ◌%◌, ◌≡◌, Bool, true, Option, none, some, String, List, [], ◌∷◌, ◌&&◌, not,
  str_eq, length, All, All-take, Bool-cases, inl, inr, if◌then◌else◌, arith, ◌==◌, and→both, eq_iff,
  sym,
}
use procintel.Common.Table.{
  select_where, update_where, All-select_where, All-order_by, All-true, order_by,
}
use procintel.Enrichment.Job.{EnrichmentJob}
use procintel.Enrichment.Transitions.{Jobs, started_job}
use procintel.Enrichment.Queue.{
  claimable, claimed_before, claim_candidates, claim_rows, claim_enrichment_jobs,
}
use procintel.Enrichment.Worker.{Setting, Sweep, is_usable, get_elem?, select_provider, claim_for}
use procintel.Enrichment.Sweep.{after_claim, turn_for, sweep_loop}

abbrev pub Usable : (String → Bool) → Option (String × ℕ) → Type 0
Usable usable none = Unit
Usable usable (some (provider, cursor)) = usable provider ≡ true

Usable-element :
    (usable : String → Bool) (next : ℕ) (rest : Option (String × ℕ)) (element : Option String)
    → Usable usable rest
    → Usable usable (elim element [
      | none ↦ rest
      | some candidate ↦ if usable candidate then some (candidate, next) else rest
    ])
Usable-element usable next rest none h = h
Usable-element usable next rest (some candidate) h = elim (Bool-cases (usable candidate)) [
  | inl e ↦ rw e e
  | inr e ↦ rw e h
]

select_provider-Usable :
    (usable : String → Bool) (order : List String) (cursor left offset : ℕ)
    → Usable usable (select_provider usable order cursor left offset)
unfolding select_provider
select_provider-Usable usable order cursor zero offset = tt
select_provider-Usable usable order cursor (suc left) offset =
    Usable-element usable (((cursor + offset) % length order + 1) % length order)
      (select_provider usable order cursor left (offset + 1))
      (get_elem? order ((cursor + offset) % length order))
      (select_provider-Usable usable order cursor left (offset + 1))

-- The jobs claimed for one provider are that provider's.
claim_rows-IsFor :
    (now : ℕ) (owner provider : String) (rows jobs : Jobs)
    → All (λ row. str_eq row.provider provider ≡ true) rows
    → All (λ job. str_eq job.provider provider ≡ true) (claim_rows now owner rows jobs).0
unfolding claim_rows
claim_rows-IsFor now owner provider [] jobs h = tt
claim_rows-IsFor now owner provider (row ∷ rows) jobs h = (
  h.0,
  claim_rows-IsFor now owner provider rows
      (update_where (λ job. job.id == row.id) (started_job now owner (row.attempt_count + 1)) jobs)
      h.1,
)

claimable-provider :
    (e : Setting) (s : Sweep) (provider : String) (now : ℕ) (row : EnrichmentJob)
    → claimable now (claim_for e s provider) row ≡ true
    → str_eq row.provider provider ≡ true
unfolding claimable
claimable-provider e s provider now row h =
    (eq_iff row.provider provider).1 (sym ((eq_iff provider row.provider).0 wanted))
  where
    wanted : str_eq provider row.provider ≡ true
    wanted = ground arith

claim_candidates-provider :
    (e : Setting) (s : Sweep) (provider : String) (now : ℕ) (skipped : ℕ → Bool) (jobs : Jobs)
    → All
        (λ row. str_eq row.provider provider ≡ true)
        (claim_candidates now (claim_for e s provider) skipped jobs)
unfolding claim_candidates
claim_candidates-provider e s provider now skipped jobs =
    All-take (λ row. str_eq row.provider provider ≡ true) 1
      (order_by claimed_before (select_where claims jobs))
      (All-order_by (λ row. str_eq row.provider provider ≡ true) claimed_before
        (select_where claims jobs)
        (All-select_where (λ row. Unit {0}) (λ row. str_eq row.provider provider ≡ true) claims jobs
          (λ row hit any.
            claimable-provider e s provider now row
              (and→both (claimable now (claim_for e s provider) row) (not (skipped row.id)) hit).0)
          (All-true jobs)))
  where
    claims : EnrichmentJob → Bool
    claims row = claimable now (claim_for e s provider) row && not (skipped row.id)

pub claim-provider :
    (e : Setting) (s : Sweep) (provider : String) (now : ℕ) (skipped : ℕ → Bool) (jobs : Jobs)
    → All
        (λ job. str_eq job.provider provider ≡ true)
        (claim_enrichment_jobs now (claim_for e s provider) skipped jobs).0
unfolding claim_enrichment_jobs
claim-provider e s provider now skipped jobs =
    claim_rows-IsFor now e.owner provider
      (claim_candidates now (claim_for e s provider) skipped jobs) jobs
      (claim_candidates-provider e s provider now skipped jobs)

module _ {ℓ} (e : Setting) (order : List String) (Holds : Sweep → Type ℓ)
    (keeps : (turn : ℕ) (s : Sweep) (provider : String) (cursor : ℕ)
      → is_usable e s provider ≡ true
      → Holds s
      → Holds (
          after_claim e turn provider
            (claim_enrichment_jobs (e.now turn) (claim_for e s provider) (e.skipped turn) s.jobs)
            (record s { provider_cursor = cursor }))) where
  by_selection :
      (turn : ℕ) (s : Sweep) (selected : Option (String × ℕ))
      → Usable (is_usable e s) selected
      → Holds s
      → ((s' : Sweep) → Holds s' → Holds (sweep_loop e order turn s'))
      → Holds
          (elim (turn_for e turn selected s) [ none ↦ s | some s' ↦ sweep_loop e order turn s' ])
  unfolding turn_for
  by_selection turn s none usable h rest = h
  by_selection turn s (some (provider, cursor)) usable h rest =
      rest _ (keeps turn s provider cursor usable h)

  -- What every turn keeps holds at the end.
  pub sweep_loop-rule : (turn : ℕ) (s : Sweep) → Holds s → Holds (sweep_loop e order turn s)
  unfolding sweep_loop
  sweep_loop-rule zero s h = h
  sweep_loop-rule (suc turn) s h =
      by_selection turn s (select_provider (is_usable e s) order s.provider_cursor (length order) 0)
        (select_provider-Usable (is_usable e s) order s.provider_cursor (length order) 0) h
        (sweep_loop-rule turn)
