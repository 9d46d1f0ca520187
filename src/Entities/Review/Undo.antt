-- ===== src/Entities/Review/Undo.antt =====
-- apps/api/routers/entity_review.py: `undo_merge` of what `review_candidate` has merged.
use procintel.Common.{
  ℕ, ◌≡◌, refl, Bool, true, false, Option, none, some, String, List, [], ◌∷◌, ◌++◌, map, ◌&&◌, ◌==◌,
  arith, All, All-both, Bool-cases, inl, inr, ap, if◌then◌else◌, eq→==,
}
use mathlib.Core.Path.{ap₂}
use procintel.Common.Table.{update_where}
use procintel.Common.PrimaryKey.{IsNodup}
use procintel.Entities.Review.{
  Entity, EntityStatus, Merge, Request, Action, World, find_by_id, is_active, merged_into,
  merged_entity, split_entity, both_active, sides, merge_when, merge_candidate, merge_entities,
  split_entities, undo_found, undo_merge, ok, identifier_conflict, reason_of,
}
use procintel.Entities.Review.Rows.{IsActive, found_only, both_active-IsActive}
use procintel.Entities.Candidates.{Candidate}

-- What a merge changes of an entity, but for the time of the change.
pub record Standing : Type 0 where
  pub id : ℕ
  pub status : EntityStatus
  pub merged_into_id : Option ℕ

abbrev pub standing : Entity → Standing
standing e = record { id = e.id; status = e.status; merged_into_id = e.merged_into_id }

-- An active entity is merged into none.
abbrev pub IsUnmerged : Entity → Type 0
IsUnmerged e = is_active e.status ≡ true → e.merged_into_id ≡ none

module _ {ℓ κ} {Row : Type ℓ} {A : Type κ} (g : Row → A) (p q : Row → Bool) (f h : Row → Row) where
  -- A second update takes back the first where it meets the rows that the first has changed.
  update_back :
      (rows : List Row)
      → All
          (λ r. (p r ≡ true → (q (f r) ≡ true) × (g (h (f r)) ≡ g r)) × (p r ≡ false → q r ≡ false))
          rows
      → map g (update_where q h (update_where p f rows)) ≡ map g rows
  unfolding update_where
  update_back [] back = refl
  update_back (r ∷ rows) back = elim (Bool-cases (p r)) [
    | inl e ↦ rw (e, (back.0.0 e).0) (ap₂ ◌∷◌ (back.0.0 e).1 (update_back rows back.1))
    | inr e ↦ rw (e, back.0.1 e) (ap (◌∷◌ (g r)) (update_back rows back.1))
  ]

active-is-active : (s : EntityStatus) → is_active s ≡ true → s ≡ EntityStatus.active
unfolding is_active
active-is-active EntityStatus.active h = refl
active-is-active EntityStatus.merged h = cc
active-is-active EntityStatus.inactive h = cc

abbrev is_split : ℕ → ℕ → Entity → Bool
is_split surviving_id merged_id e = e.id == merged_id && merged_into surviving_id e.merged_into_id

entity_back :
    (q r : Request) (surviving_id merged_id : ℕ) (e : Entity)
    → IsUnmerged e
    → ((e.id == merged_id) ≡ true → IsActive e)
    → ((e.id == merged_id) ≡ true
        → (is_split surviving_id merged_id (merged_entity q surviving_id e) ≡ true)
          × (standing (split_entity r.now (merged_entity q surviving_id e)) ≡ standing e))
      × ((e.id == merged_id) ≡ false → is_split surviving_id merged_id e ≡ false)
unfolding merged_into
entity_back q r surviving_id merged_id e unmerged active = (
  λ hit. (ground arith, rw (active-is-active e.status (active hit), unmerged (active hit)) refl),
  λ miss. ground arith,
)

split-merge_entities :
    (q r : Request) (notes : String) (c : Candidate) (m : Merge) (surviving_id merged_id : ℕ)
    (w : World)
    → m.surviving_entity_id ≡ surviving_id
    → m.merged_entity_id ≡ merged_id
    → All IsUnmerged w.entities
    → All (λ e. (e.id == merged_id) ≡ true → IsActive e) w.entities
    → map standing (split_entities r m (merge_entities q notes c surviving_id merged_id w)).entities
      ≡ map standing w.entities
unfolding split_entities merge_entities
split-merge_entities q r notes c m surviving_id merged_id w survivor gone unmerged active =
    rw (survivor, gone)
      (update_back standing (λ e. e.id == merged_id) (is_split surviving_id merged_id)
        (merged_entity q surviving_id) (split_entity r.now) w.entities
        (All-both IsUnmerged (λ e. (e.id == merged_id) ≡ true → IsActive e)
          (λ e.
            ((e.id == merged_id) ≡ true
              → (is_split surviving_id merged_id (merged_entity q surviving_id e) ≡ true)
                × (standing (split_entity r.now (merged_entity q surviving_id e)) ≡ standing e))
            × ((e.id == merged_id) ≡ false → is_split surviving_id merged_id e ≡ false))
          w.entities (λ e. entity_back q r surviving_id merged_id e) unmerged active))

module _ {ℓ} {Row : Type ℓ} (id : Row → ℕ) where
  -- The row just inserted is found by its fresh key.
  found_last :
      (r : Row) (rows : List Row)
      → All (λ s. (id s == id r) ≡ false) rows
      → find_by_id id (id r) (rows ++ r ∷ []) ≡ some r
  unfolding find_by_id
  found_last r [] fresh = rw (eq→== (id r) (id r) refl) refl
  found_last r (s ∷ rows) fresh = rw fresh.0 (found_last r rows fresh.1)

abbrev merge_of : Request → String → Candidate → ℕ → ℕ → Merge
merge_of q notes c surviving_id merged_id = record {
  id = q.merge_id;
  surviving_entity_id = surviving_id;
  merged_entity_id = merged_id;
  match_candidate_id = some c.id;
  merge_reason = reason_of notes;
  evidence = record { score = c.score; breakdown = c.score_breakdown };
  performed_by = q.name;
  performed_at = q.now;
  reverted_at = none;
  reverted_by = none;
}

undo-merge_entities :
    (q r : Request) (notes : String) (c : Candidate) (surviving_id merged_id : ℕ) (w : World)
    → All (λ m. (m.id == q.merge_id) ≡ false) w.merges
    → undo_merge r q.merge_id (merge_entities q notes c surviving_id merged_id w) ≡ (
      ok,
      split_entities r
          (merge_of q notes c surviving_id merged_id)
          (merge_entities q notes c surviving_id merged_id w),
    )
unfolding undo_merge merge_entities
undo-merge_entities q r notes c surviving_id merged_id w fresh =
    ap (λ found. undo_found r found (merge_entities q notes c surviving_id merged_id w))
      (found_last (λ m. m.id) (merge_of q notes c surviving_id merged_id) w.merges fresh)

-- An answer `ok` means that both entities were active, and that they are merged.
accepted :
    (conflict : Bool) (q : Request) (notes : String) (c : Candidate) (surviving_id merged_id : ℕ)
    (w : World) (both : Option Bool)
    → (if conflict
        then (identifier_conflict, w)
        else merge_when q notes c (surviving_id, merged_id) w both).0
      ≡ ok
    → (both ≡ some true)
      × ((if conflict
            then (identifier_conflict, w)
            else merge_when q notes c (surviving_id, merged_id) w both).1
          ≡ merge_entities q notes c surviving_id merged_id w)
accepted true q notes c surviving_id merged_id w both h = cc
accepted false q notes c surviving_id merged_id w none h = cc
accepted false q notes c surviving_id merged_id w (some false) h = cc
accepted false q notes c surviving_id merged_id w (some true) h = (refl, refl)

-- Undo takes back a merge: where the merge of a candidate was accepted, its undo with the id of the
-- merge is accepted too, and every entity has the status and the pointer that it had before, given
-- that the keys of the entities are distinct, that active ones point nowhere, and that the id of
-- the merge is fresh.
pub undo-merge_candidate :
    (q r : Request) (action : Action) (notes : String) (c : Candidate) (w : World)
    → IsNodup (map (λ e. e.id) w.entities)
    → All IsUnmerged w.entities
    → All (λ m. (m.id == q.merge_id) ≡ false) w.merges
    → (merge_candidate q action notes c w).0 ≡ ok
    → ((undo_merge r q.merge_id (merge_candidate q action notes c w).1).0 ≡ ok)
      × (map standing (undo_merge r q.merge_id (merge_candidate q action notes c w).1).1.entities
          ≡ map standing w.entities)
unfolding merge_candidate
undo-merge_candidate q r action notes c w keys unmerged fresh h =
    rw (merged.1, undo-merge_entities q r notes c (sides action c).0 (sides action c).1 w fresh)
      (
        refl,
        split-merge_entities q r notes c (merge_of q notes c (sides action c).0 (sides action c).1)
            (sides action c).0 (sides action c).1 w refl refl unmerged
            (found_only (λ e. e.id) IsActive (sides action c).1 w.entities keys
              (both_active-IsActive (find_by_id (λ e. e.id) (sides action c).1 w.entities)
                (find_by_id (λ e. e.id) (sides action c).0 w.entities) merged.0).0),
      )
  where
    merged :
        (both_active
            (find_by_id (λ e. e.id) (sides action c).1 w.entities)
            (find_by_id (λ e. e.id) (sides action c).0 w.entities)
          ≡ some true)
        × ((merge_candidate q action notes c w).1
            ≡ merge_entities q notes c (sides action c).0 (sides action c).1 w)
    merged =
        accepted c.score_breakdown.identifier_conflict q notes c (sides action c).0
          (sides action c).1 w
          (both_active (find_by_id (λ e. e.id) (sides action c).1 w.entities)
            (find_by_id (λ e. e.id) (sides action c).0 w.entities))
          h
