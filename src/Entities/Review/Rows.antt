-- ===== src/Entities/Review/Rows.antt =====
-- apps/api/routers/entity_review.py: what is known of the rows that a request has found by their
-- primary key.
use procintel.Common.{
  ℕ, ◌≡◌, true, false, Option, none, some, List, [], ◌∷◌, map, ◌==◌, arith, All, All-map,
  All-from_map, Bool-cases, inl, inr,
}
use procintel.Common.PrimaryKey.{IsNodup}
use procintel.Entities.Review.{Entity, find_by_id, is_active, both_active}

module _ {ℓ κ} {Row : Type ℓ} (id : Row → ℕ) (P : Row → Type κ) where
  abbrev pub HoldsOf : Option Row → Type κ
  HoldsOf none = Unit
  HoldsOf (some r) = P r

  -- With distinct keys, what holds of the row found holds of every row with that key.
  pub found_only :
      (wanted : ℕ) (rows : List Row)
      → IsNodup (map id rows)
      → HoldsOf (find_by_id id wanted rows)
      → All (λ r. (id r == wanted) ≡ true → P r) rows
  unfolding find_by_id
  found_only wanted [] distinct h = tt
  found_only wanted (r ∷ rows) distinct h = elim (Bool-cases (id r == wanted)) [
    | inl hit ↦ (
      λ same. (rw hit at h),
      All-map (λ s. (id r == id s) ≡ false) (λ s. (id s == wanted) ≡ true → P s) rows
          (λ s other same. ground arith)
          (All-from_map (λ m. (id r == m) ≡ false) id rows distinct.0),
    )
    | inr miss ↦ (λ same. cc, found_only wanted rows distinct.1 (rw miss at h))
  ]

abbrev pub IsActive : Entity → Type 0
IsActive e = is_active e.status ≡ true

pub both_active-IsActive :
    (e survivor : Option Entity)
    → both_active e survivor ≡ some true
    → HoldsOf (λ r. r.id) IsActive e × HoldsOf (λ r. r.id) IsActive survivor
both_active-IsActive none survivor h = ground arith
both_active-IsActive (some e) none h = ground arith
both_active-IsActive (some e) (some survivor) h = ground arith
