-- ===== src/Enrichment/Claiming/Order.antt =====
-- Which jobs `claim_enrichment_jobs` hands out: those that come first in its ORDER BY.
use procintel.Common.{
  ℕ, zero, suc, ◌≤◌, ◌≡◌, refl, ◌∙◌, sym, Bool, true, false, not, ◌&&◌, [], ◌∷◌, map, All, All-map,
  All-both, All-drop, All-take, take, drop, any_of, any_of-map, arith, ◌==◌, Bool-cases, inl, inr,
  leb_trans, leb_total,
}
use procintel.Common.PrimaryKey.{IsNodup, any_of-order_by}
use procintel.Common.Table.{
  select_where, order_by, lex, lex_trans, lex_total, order_by-IsSorted, take-before-drop,
  All-select_where, All-order_by, All-true,
}
use procintel.Enrichment.Job.{EnrichmentJob, is_failed}
use procintel.Enrichment.Transitions.{Jobs}
use procintel.Enrichment.Queue.{
  Claim, claimable, status_rank, claimed_before, claim_candidates, claimed_job,
  claim_enrichment_jobs,
}
use procintel.Enrichment.Claiming.{eligible, has_claim, claims-eq-map}

claimed_before_trans :
    (a b c : EnrichmentJob)
    → claimed_before a b ≡ true
    → claimed_before b c ≡ true
    → claimed_before a c ≡ true
unfolding claimed_before
claimed_before_trans a b c h k =
    lex_trans a.priority b.priority c.priority _ _ _
      (lex_trans (status_rank a.status) (status_rank b.status) (status_rank c.status) _ _ _ (
        lex_trans a.available_at b.available_at c.available_at _ _ _
          (leb_trans a.created_at b.created_at c.created_at)))
      h k

claimed_before_total :
    (a b : EnrichmentJob) → claimed_before a b ≡ false → claimed_before b a ≡ true
unfolding claimed_before
claimed_before_total a b h =
    lex_total a.priority b.priority _ _
      (lex_total (status_rank a.status) (status_rank b.status) _ _
        (lex_total a.available_at b.available_at _ _ (leb_total a.created_at b.created_at)))
      h

-- A row comes before another, or ties with it: a lower priority number; of equal ones a FAILED row
-- before others; of equal ones the earlier `available_at`; of equal ones the earlier `created_at`.
pub record ComesFirst (a b : EnrichmentJob) : Type 0 where
  pub by_priority : a.priority ≤ b.priority
  pub by_status : a.priority ≡ b.priority → is_failed b.status ≡ true → is_failed a.status ≡ true
  pub by_available :
      a.priority ≡ b.priority
      → is_failed a.status ≡ is_failed b.status
      → a.available_at ≤ b.available_at
  pub by_created :
      a.priority ≡ b.priority
      → is_failed a.status ≡ is_failed b.status
      → a.available_at ≡ b.available_at
      → a.created_at ≤ b.created_at

claimed_before-ComesFirst : (a b : EnrichmentJob) → claimed_before a b ≡ true → ComesFirst a b
unfolding claimed_before status_rank lex
claimed_before-ComesFirst a b h = record {
  by_priority = ground arith;
  by_status = λ p f. ground arith;
  by_available = λ p f. ground arith;
  by_created = λ p f v. ground arith;
}

-- With distinct ids, a row with the id of a row is that row.
abbrev SameRow : EnrichmentJob → EnrichmentJob → Type 0
SameRow r row = (r.id == row.id) ≡ true → r ≡ row

SameRow-other :
    (r : EnrichmentJob) (rows : Jobs)
    → All (λ m. (r.id == m) ≡ false) (map (λ row. row.id) rows)
    → All (λ row. SameRow r row × SameRow row r) rows
SameRow-other r [] h = tt
SameRow-other r (row ∷ rows) h =
    ((λ same. cc (same, h.0), λ same. apart r row same h.0), SameRow-other r rows h.1)
  where
    apart : (r row : EnrichmentJob) → (row.id == r.id) ≡ true → (r.id == row.id) ≡ false → row ≡ r
    apart r row same other = absurd (ground arith)

same_rows :
    (rows : Jobs) → IsNodup (map (λ row. row.id) rows) → All (λ r. All (SameRow r) rows) rows
same_rows [] h = tt
same_rows (r ∷ rows) h =
    let others : All (λ row. SameRow r row × SameRow row r) rows = SameRow-other r rows h.0 in
    (
      (λ same. refl, All-map _ (SameRow r) rows (λ row both. both.0) others),
      All-both (λ row. SameRow r row × SameRow row r) (λ row. All (SameRow row) rows)
          (λ row. All (SameRow row) (r ∷ rows)) rows (λ row both all. (both.1, all)) others
          (same_rows rows h.1),
    )

-- What holds of the listed rows holds of a row whose id is among theirs.
by_id :
    (P : EnrichmentJob → Type 0) (row : EnrichmentJob) (rows : Jobs)
    → All (λ r. SameRow r row) rows
    → All P rows
    → any_of (λ r. r.id == row.id) rows ≡ true
    → P row
by_id P row [] same h among = cc
by_id P row (r ∷ rows) same h among = elim (Bool-cases (r.id == row.id)) [
  | inl own ↦ (rw (same.0 own) at h.0)
  | inr other ↦ by_id P row rows same.1 h.1 (rw other at among)
]

taken_or_dropped :
    (q : EnrichmentJob → Bool) (n : ℕ) (rows : Jobs)
    → any_of q rows ≡ true
    → any_of q (take n rows) ≡ false
    → any_of q (drop n rows) ≡ true
taken_or_dropped q zero rows h k = h
taken_or_dropped q (suc n) [] h k = h
taken_or_dropped q (suc n) (r ∷ rows) h k = ground (arith, taken_or_dropped q n rows)

-- A selected row is in the selection.
selected-has :
    (p : EnrichmentJob → Bool) (rows : Jobs)
    → All (λ row. p row ≡ true → any_of (λ r. r.id == row.id) (select_where p rows) ≡ true) rows
unfolding select_where
selected-has p [] = tt
selected-has p (r ∷ rows) = (
  (λ hit. rw hit (ground arith)),
  All-map (λ row. p row ≡ true → any_of (λ r. r.id == row.id) (select_where p rows) ≡ true)
      (λ row. p row ≡ true → any_of (λ r. r.id == row.id) (select_where p (r ∷ rows)) ≡ true) rows
      (λ row has hit. elim (Bool-cases (p r)) [
        | inl e ↦ rw e (more row (has hit))
        | inr e ↦ rw e (has hit)
      ])
      (selected-has p rows),
)
  where
    more :
        (row : EnrichmentJob)
        → any_of (λ r. r.id == row.id) (select_where p rows) ≡ true
        → any_of (λ r. r.id == row.id) (r ∷ select_where p rows) ≡ true
    more row h = ground arith

swap :
    (R : EnrichmentJob → EnrichmentJob → Type 0) (xs ys : Jobs)
    → All (λ x. All (R x) ys) xs
    → All (λ y. All (λ x. R x y) xs) ys
swap R [] ys h = All-map (λ y. Unit {0}) _ ys (λ y u. tt) (All-true ys)
swap R (x ∷ xs) ys h =
    All-both (R x) (λ y. All (λ x. R x y) xs) (λ y. All (λ x. R x y) (x ∷ xs)) ys
      (λ y one rest. (one, rest)) h.0 (swap R xs ys h.1)

module _ (now : ℕ) (request : Claim) (skipped : ℕ → Bool) (jobs : Jobs) where
  abbrev ordered : Jobs
  ordered = order_by claimed_before (eligible now request skipped jobs)

  has_claim-taken :
      (id : ℕ)
      → has_claim id (claim_enrichment_jobs now request skipped jobs).0
        ≡ any_of (λ r. r.id == id) (take request.limit ordered)
  unfolding claim_candidates
  has_claim-taken id =
      rw (claims-eq-map now request skipped jobs)
        (any_of-map (λ claim. claim.id == id) claimed_job (take request.limit ordered))

  ordered-same :
      IsNodup (map (λ row. row.id) jobs) → All (λ row. All (λ r. SameRow r row) ordered) jobs
  ordered-same distinct = swap SameRow ordered jobs (
      All-order_by (λ r. All (SameRow r) jobs) claimed_before (eligible now request skipped jobs)
        (All-select_where (λ r. All (SameRow r) jobs) (λ r. All (SameRow r) jobs) _ jobs
          (λ r hit same. same) (same_rows jobs distinct)))

  -- A taken row and an eligible row that is not taken.
  taken_first :
      (a b : EnrichmentJob)
      → All (λ r. SameRow r a) ordered
      → All (λ r. SameRow r b) ordered
      → any_of (λ r. r.id == b.id) ordered ≡ true
      → any_of (λ r. r.id == a.id) (take request.limit ordered) ≡ true
      → any_of (λ r. r.id == b.id) (take request.limit ordered) ≡ false
      → ComesFirst a b
  taken_first a b same_a same_b there taken left =
      by_id (λ r. ComesFirst r b) a (take request.limit ordered)
        (All-take (λ r. SameRow r a) request.limit ordered same_a)
        (All-map (λ r. All (λ c. claimed_before r c ≡ true) (drop request.limit ordered))
          (λ r. ComesFirst r b) (take request.limit ordered)
          (λ r first.
            by_id (ComesFirst r) b (drop request.limit ordered)
              (All-drop (λ c. SameRow c b) request.limit ordered same_b)
              (All-map (λ c. claimed_before r c ≡ true) (ComesFirst r) (drop request.limit ordered)
                (λ c. claimed_before-ComesFirst r c) first)
              (taken_or_dropped (λ c. c.id == b.id) request.limit ordered there left))
          (take-before-drop claimed_before claimed_before_trans claimed_before_total request.limit
            ordered (order_by-IsSorted claimed_before claimed_before_trans claimed_before_total _)))
        taken

  eligible-ordered :
      (b : EnrichmentJob)
      → ((claimable now request b && not (skipped b.id)) ≡ true
          → any_of (λ r. r.id == b.id) (eligible now request skipped jobs) ≡ true)
      → claimable now request b ≡ true
      → skipped b.id ≡ false
      → any_of (λ r. r.id == b.id) ordered ≡ true
  eligible-ordered b has ok free =
      any_of-order_by (λ r. r.id == b.id) claimed_before (eligible now request skipped jobs)
      ∙ has (rw (ok, free) refl)

-- A call of `claim_enrichment_jobs` hands out the jobs that come first: of two rows of a table with
-- distinct ids, of which one is handed out and the other is not, though it is claimable and not
-- locked by others, the first comes before the second, or ties with it, by priority, then FAILED
-- before other statuses, then `available_at`, then `created_at`.
pub claims_come_first :
    (now : ℕ) (request : Claim) (skipped : ℕ → Bool) (jobs : Jobs)
    → IsNodup (map (λ row. row.id) jobs)
    → let claims = (claim_enrichment_jobs now request skipped jobs).0 in
      All
        (λ a.
          All
            (λ b.
              has_claim a.id claims ≡ true
              → has_claim b.id claims ≡ false
              → claimable now request b ≡ true
              → skipped b.id ≡ false
              → ComesFirst a b)
            jobs)
        jobs
claims_come_first now request skipped jobs distinct =
    All-map (λ a. All (λ r. SameRow r a) (ordered now request skipped jobs)) _ jobs
      (λ a same_a.
        All-both (λ b. All (λ r. SameRow r b) (ordered now request skipped jobs))
          (λ b.
            (claimable now request b && not (skipped b.id)) ≡ true
            → any_of (λ r. r.id == b.id) (eligible now request skipped jobs) ≡ true)
          _ jobs
          (λ b same_b has taken left ok free.
            taken_first now request skipped jobs a b same_a same_b
              (eligible-ordered now request skipped jobs b has ok free)
              (sym (has_claim-taken now request skipped jobs a.id) ∙ taken)
              (sym (has_claim-taken now request skipped jobs b.id) ∙ left))
          (ordered-same now request skipped jobs distinct)
          (selected-has (λ job. claimable now request job && not (skipped job.id)) jobs))
      (ordered-same now request skipped jobs distinct)
