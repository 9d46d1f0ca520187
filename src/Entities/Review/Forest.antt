-- ===== src/Entities/Review/Forest.antt =====
-- apps/api/routers/entity_review.py: the merges form no cycle, whatever is merged and undone.
use procintel.Common.{
  ℕ, suc, ◌≤◌, ◌≡◌, refl, Bool, true, false, String, map, ◌&&◌, ◌==◌, ltb, arith, All, All-map,
  All-both, Bool-cases, inl, inr,
}
use procintel.Common.Table.{map-update_where, All-update_where}
use procintel.Common.PrimaryKey.{IsNodup}
use procintel.Common.Pairs.{Pairs, updated_row, Pairs-update_where}
use procintel.Entities.Review.{
  Entity, EntityStatus, Merge, Request, World, is_active, is_merged, merged_into, merged_entity,
  split_entity, merge_entities, reviewed, split_candidate, is_id, split_entities,
}
use procintel.Entities.Review.Rows.{IsActive}
use procintel.Entities.Candidates.{Candidate, CandidateStatus}

-- Where an entity was merged into one that is merged itself, the latter was merged later.
abbrev pub Later : Entity → Entity → Type 0
Later e f =
    merged_into f.id e.merged_into_id ≡ true
    → is_merged f.status ≡ true
    → ltb e.updated_at f.updated_at ≡ true

abbrev pub TwoSides : Candidate → Type 0
TwoSides c = (c.entity_a_id == c.entity_b_id) ≡ false

pub record IsForest (clock : ℕ) (w : World) : Type 0 where
  pub keys : IsNodup (map (λ e. e.id) w.entities)
  pub two_sides : All TwoSides w.candidates
  pub past : All (λ e. ltb e.updated_at clock ≡ true) w.entities
  pub chains : Pairs Later w.entities w.entities

abbrev Known : ℕ → ℕ → Entity → Type 0
Known now surviving_id e =
    (ltb e.updated_at now ≡ true) × ((e.id == surviving_id) ≡ true → IsActive e)

active-is-unmerged : (s : EntityStatus) → is_active s ≡ true → is_merged s ≡ false
unfolding is_active is_merged
active-is-unmerged EntityStatus.active h = refl
active-is-unmerged EntityStatus.merged h = cc
active-is-unmerged EntityStatus.inactive h = refl

Later-after_merge :
    (q : Request) (surviving_id merged_id : ℕ) (e f : Entity)
    → (surviving_id == merged_id) ≡ false
    → Known q.now surviving_id e
    → Known q.now surviving_id f
    → Later e f
    → Later
        (updated_row (λ x. x.id == merged_id) (merged_entity q surviving_id) e)
        (updated_row (λ x. x.id == merged_id) (merged_entity q surviving_id) f)
unfolding merged_into is_active is_merged
Later-after_merge q surviving_id merged_id e f other ke kf h =
    elim (Bool-cases (e.id == merged_id)) [
      | inl e_hit ↦ elim (Bool-cases (f.id == merged_id)) [
        | inl f_hit ↦ rw (e_hit, f_hit) (λ points done. ground arith)
        | inr f_miss ↦
            rw (e_hit, f_miss) (λ points done. ground (arith, kf.1, active-is-unmerged f.status))
      ]
      | inr e_miss ↦ elim (Bool-cases (f.id == merged_id)) [
        | inl f_hit ↦ rw (e_miss, f_hit) (λ points done. ke.0)
        | inr f_miss ↦ rw (e_miss, f_miss) h
      ]
    ]

Later-after_split :
    (now : ℕ) (p : Entity → Bool) (e f : Entity)
    → ltb e.updated_at now ≡ true
    → Later e f
    → Later (updated_row p (split_entity now) e) (updated_row p (split_entity now) f)
unfolding merged_into is_merged
Later-after_split now p e f past h = elim (Bool-cases (p e)) [
  | inl e_hit ↦ rw e_hit (λ points done. cc)
  | inr e_miss ↦ elim (Bool-cases (p f)) [
    | inl f_hit ↦ rw (e_miss, f_hit) (λ points done. cc)
    | inr f_miss ↦ rw (e_miss, f_miss) h
  ]
]

pub merge_entities-IsForest :
    (clock : ℕ) (q : Request) (notes : String) (c : Candidate) (surviving_id merged_id : ℕ)
    (w : World)
    → clock ≤ q.now
    → (surviving_id == merged_id) ≡ false
    → All (λ e. (e.id == surviving_id) ≡ true → IsActive e) w.entities
    → IsForest clock w
    → IsForest (suc q.now) (merge_entities q notes c surviving_id merged_id w)
unfolding merge_entities
merge_entities-IsForest clock q notes c surviving_id merged_id w le other free forest = record {
  keys =
      rw
        (map-update_where (λ e. e.id) (λ e. e.id == merged_id) (merged_entity q surviving_id)
          w.entities (λ e. refl))
        forest.keys;
  two_sides =
      All-update_where TwoSides (λ d. d.id == c.id)
        (reviewed q CandidateStatus.manually_confirmed notes) w.candidates (λ d hit two. two)
        forest.two_sides;
  past =
      All-update_where (λ e. ltb e.updated_at (suc q.now) ≡ true) (λ e. e.id == merged_id)
        (merged_entity q surviving_id) w.entities (λ e hit past. ground arith)
        (All-map (λ e. ltb e.updated_at clock ≡ true) (λ e. ltb e.updated_at (suc q.now) ≡ true)
          w.entities (λ e past. ground arith) forest.past);
  chains =
      Pairs-update_where (λ e. e.id == merged_id) (merged_entity q surviving_id)
        (Known q.now surviving_id) Later w.entities w.entities
        (λ e f ke kf. Later-after_merge q surviving_id merged_id e f other ke kf) known known
        forest.chains;
}
  where
    known : All (Known q.now surviving_id) w.entities
    known =
        All-both (λ e. ltb e.updated_at clock ≡ true)
          (λ e. (e.id == surviving_id) ≡ true → IsActive e) (Known q.now surviving_id) w.entities
          (λ e past unmerged. (ground arith, unmerged)) forest.past free

pub split_entities-IsForest :
    (clock : ℕ) (q : Request) (m : Merge) (w : World)
    → clock ≤ q.now
    → IsForest clock w
    → IsForest (suc q.now) (split_entities q m w)
unfolding split_entities
split_entities-IsForest clock q m w le forest = record {
  keys =
      rw (map-update_where (λ e. e.id) is_split (split_entity q.now) w.entities (λ e. refl))
        forest.keys;
  two_sides =
      All-update_where TwoSides (λ c. is_id m.match_candidate_id c.id) (split_candidate q.now)
        w.candidates (λ d hit two. two) forest.two_sides;
  past =
      All-update_where (λ e. ltb e.updated_at (suc q.now) ≡ true) is_split (split_entity q.now)
        w.entities (λ e hit past. ground arith)
        (All-map (λ e. ltb e.updated_at clock ≡ true) (λ e. ltb e.updated_at (suc q.now) ≡ true)
          w.entities (λ e past. ground arith) forest.past);
  chains =
      Pairs-update_where is_split (split_entity q.now) (λ e. ltb e.updated_at q.now ≡ true) Later
        w.entities w.entities (λ e f ke kf. Later-after_split q.now is_split e f ke) known known
        forest.chains;
}
  where
    is_split : Entity → Bool
    is_split e = e.id == m.merged_entity_id && merged_into m.surviving_entity_id e.merged_into_id

    known : All (λ e. ltb e.updated_at q.now ≡ true) w.entities
    known =
        All-map (λ e. ltb e.updated_at clock ≡ true) (λ e. ltb e.updated_at q.now ≡ true) w.entities
          (λ e past. ground arith) forest.past

pub IsForest-later :
    (clock later : ℕ) (w : World) → clock ≤ later → IsForest clock w → IsForest later w
IsForest-later clock later w le forest = record {
  keys = forest.keys;
  two_sides = forest.two_sides;
  past =
      All-map (λ e. ltb e.updated_at clock ≡ true) (λ e. ltb e.updated_at later ≡ true) w.entities
        (λ e past. ground arith) forest.past;
  chains = forest.chains;
}
