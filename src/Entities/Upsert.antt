-- ===== src/Entities/Upsert.antt =====
-- services/entity_resolution/candidates.py: what `generate_match_candidates` writes over the
-- candidates that are there.
use procintel.Common.{
  ◌≡◌, refl, Bool, true, false, not, List, [], ◌∷◌, ◌&&◌, ◌||◌, arith, any_of, All, All-map,
  Bool-cases, inl, inr, if◌then◌else◌, ◌∙◌, ap, sym,
}
use mathlib.Core.Path.{ap₂}
use procintel.Common.Table.{select_where, update_where}
use procintel.Common.Kept.{select_where-update_where, select_where-append}
use procintel.Entities.Candidates.{
  Candidate, Scored, is_pending, same_pair, inserted, overwritten, upsert_one, upsert_all, last_or,
  write_values,
}

module _ {ℓ} {Row : Type ℓ} where
  -- Two updates with one function are one, where the function settles the row.
  update_twice :
      (p q r : Row → Bool) (f : Row → Row) (rows : List Row)
      → ((x : Row) → f (f x) ≡ f x)
      → ((x : Row) → q (f x) ≡ q x)
      → ((x : Row) → (p x || q x) ≡ r x)
      → update_where q f (update_where p f rows) ≡ update_where r f rows
  unfolding update_where
  update_twice p q r f [] settled same either = refl
  update_twice p q r f (x ∷ rows) settled same either =
      ap₂ ◌∷◌ (one x) (update_twice p q r f rows settled same either)
    where
      one :
          (x : Row)
          → (if q (if p x then f x else x)
              then f (if p x then f x else x)
              else (if p x then f x else x))
            ≡ (if r x then f x else x)
      one x = elim (Bool-cases (p x)) [
        | inl e ↦ ground (arith, either x, same x, settled x)
        | inr e ↦ ground (arith, either x)
      ]

  any_of-update_where :
      (t p : Row → Bool) (f : Row → Row) (rows : List Row)
      → ((x : Row) → t (f x) ≡ t x)
      → any_of t (update_where p f rows) ≡ any_of t rows
  unfolding update_where
  any_of-update_where t p f [] same = refl
  any_of-update_where t p f (x ∷ rows) same =
      ground (arith, same x, any_of-update_where t p f rows same)

abbrev pub is_reviewed : Candidate → Bool
is_reviewed c = not (is_pending c.status)

abbrev pub is_rescored : List Scored → Candidate → Bool
is_rescored batch c = any_of (λ s. same_pair s c) batch && is_pending c.status

upsert_one-keeps_reviewed :
    (source s : Scored) (table : List Candidate)
    → select_where is_reviewed (upsert_one source s table).1 ≡ select_where is_reviewed table
unfolding upsert_one is_pending
upsert_one-keeps_reviewed source s table = elim (Bool-cases (any_of (same_pair s) table)) [
  | inl e ↦ rw e (
      select_where-update_where is_reviewed (λ c. same_pair s c && is_pending c.status)
        (overwritten source) table (λ c hit. ground arith) (λ c hit. ground arith))
  | inr e ↦ rw e (select_where-append is_reviewed table (inserted s) refl)
]

upsert_all-keeps_reviewed :
    (source : Scored) (batch : List Scored) (table : List Candidate)
    → select_where is_reviewed (upsert_all source batch table).1 ≡ select_where is_reviewed table
unfolding upsert_all
upsert_all-keeps_reviewed source [] table = refl
upsert_all-keeps_reviewed source (s ∷ batch) table =
    upsert_all-keeps_reviewed source batch (upsert_one source s table).1
    ∙ upsert_one-keeps_reviewed source s table

update_none :
    (f : Candidate → Candidate) (table : List Candidate) → update_where (λ c. false) f table ≡ table
unfolding update_where
update_none f [] = refl
update_none f (c ∷ table) = ap (◌∷◌ c) (update_none f table)

abbrev rescores : Scored → Candidate → Bool
rescores s c = same_pair s c && is_pending c.status

upsert_one-is_update :
    (source s : Scored) (table : List Candidate)
    → any_of (same_pair s) table ≡ true
    → (upsert_one source s table).1 ≡ update_where (rescores s) (overwritten source) table
unfolding upsert_one
upsert_one-is_update source s table present = rw present refl

upsert_all-is_update :
    (source : Scored) (batch : List Scored) (table : List Candidate)
    → All (λ s. any_of (same_pair s) table ≡ true) batch
    → (upsert_all source batch table).1
      ≡ update_where (is_rescored batch) (overwritten source) table
unfolding upsert_all same_pair
upsert_all-is_update source [] table present = sym (update_none (overwritten source) table)
upsert_all-is_update source (s ∷ batch) table present =
    upsert_all-is_update source batch (upsert_one source s table).1 (
      rw (upsert_one-is_update source s table present.0) (
        All-map (λ t. any_of (same_pair t) table ≡ true)
          (λ t. any_of (same_pair t) (update_where (rescores s) (overwritten source) table) ≡ true)
          batch
          (λ t there.
            any_of-update_where (same_pair t) (rescores s) (overwritten source) table (λ c. refl)
            ∙ there)
          present.1))
    ∙ (ap (update_where (is_rescored batch) (overwritten source))
          (upsert_one-is_update source s table present.0)
        ∙ update_twice (rescores s) (is_rescored batch) (is_rescored (s ∷ batch))
            (overwritten source) table (λ c. refl) (λ c. refl) (λ c. ground arith))

-- A reviewed candidate is left alone: whatever scores are written, the rows that are no longer
-- pending are the same afterwards, in the same order.
pub write_values-keeps_reviewed :
    (batch : List Scored) (table : List Candidate)
    → select_where is_reviewed (write_values batch table).1 ≡ select_where is_reviewed table
write_values-keeps_reviewed [] table = refl
write_values-keeps_reviewed (s ∷ batch) table =
    upsert_all-keeps_reviewed (last_or s batch) (s ∷ batch) table

-- Scores that are written again are those of the last pair: where every pair of the batch is in the
-- table already, the statement sets each pending row of the batch to the score, the breakdown and
-- the reason of the last pair of the batch, not to its own, and changes no other row.
pub write_values-writes_last :
    (s : Scored) (batch : List Scored) (table : List Candidate)
    → All (λ t. any_of (same_pair t) table ≡ true) (s ∷ batch)
    → (write_values (s ∷ batch) table).1
      ≡ update_where (is_rescored (s ∷ batch)) (overwritten (last_or s batch)) table
write_values-writes_last s batch table present =
    upsert_all-is_update (last_or s batch) (s ∷ batch) table present
