-- ===== src/Entities/Review.antt =====
-- apps/api/routers/entity_review.py: `review_candidate` and `undo_merge`. A request runs in one
-- transaction with the rows locked, and an answer other than `ok` rolls it back. The user behind a
-- request, whose row `ensure_workspace_user` keeps, is an argument.
pub mod Rows
pub mod Forest
pub mod Requests
pub mod Undo
use procintel.Common.{
  ℕ, Bool, true, false, not, Option, none, some, String, List, [], ◌∷◌, ◌++◌, ◌&&◌, ◌==◌, str_eq,
  if◌then◌else◌,
}
use procintel.Common.Table.{update_where}
use procintel.Entities.Score.{Breakdown}
use procintel.Entities.Candidates.{Candidate, CandidateStatus, is_pending}

pub data EntityStatus : Type 0 where
  active merged inactive : EntityStatus

-- The columns of entities that the merges use.
pub record Entity : Type 0 where
  pub id : ℕ
  pub status : EntityStatus
  pub merged_into_id : Option ℕ
  pub updated_at : ℕ

pub record Evidence : Type 0 where
  pub score : ℕ
  pub breakdown : Breakdown

-- A row of entity_merge_log.
pub record Merge : Type 0 where
  pub id : ℕ
  pub surviving_entity_id : ℕ
  pub merged_entity_id : ℕ
  pub match_candidate_id : Option ℕ
  pub merge_reason : String
  pub evidence : Evidence
  pub performed_by : String
  pub performed_at : ℕ
  pub reverted_at : Option ℕ
  pub reverted_by : Option String

pub data Details : Type 0 where
  merge_details : (merged_entity_id match_candidate_id : ℕ) → (notes : String) → Details
  split_details : (surviving_entity_id merge_log_id : ℕ) → Details

-- A row of audit_log for an entity.
pub record AuditEntry : Type 0 where
  pub id : ℕ
  pub tenant_id : ℕ
  pub actor_user_id : ℕ
  pub object_id : ℕ
  pub details : Details

pub record World : Type 0 where
  pub candidates : List Candidate
  pub entities : List Entity
  pub merges : List Merge
  pub audit_log : List AuditEntry

-- The request: the clock, the UUIDs it draws, and the user; the name is the email or the subject.
pub record Request : Type 0 where
  pub now : ℕ
  pub merge_id : ℕ
  pub audit_id : ℕ
  pub tenant_id : ℕ
  pub user_id : ℕ
  pub name : String

pub data Action : Type 0 where
  merge_a_into_b merge_b_into_a reject : Action

-- A status code, or the 500 of `.one()` on no row.
pub data Answer : Type 0 where
  ok not_found already_reviewed identifier_conflict not_active already_reverted : Answer
  internal_error : Answer

-- `select(...).where(id == wanted)`, `.first()`
module _ {ℓ} {Row : Type ℓ} (id : Row → ℕ) where
  unfoldable pub find_by_id : ℕ → List Row → Option Row
  find_by_id wanted [] = none
  find_by_id wanted (r ∷ rows) =
      let rest = find_by_id wanted rows in if id r == wanted then some r else rest

unfoldable pub is_active : EntityStatus → Bool
is_active EntityStatus.active = true
is_active _ = false

unfoldable pub is_merged : EntityStatus → Bool
is_merged EntityStatus.merged = true
is_merged _ = false

abbrev pub reviewed : Request → CandidateStatus → String → Candidate → Candidate
reviewed q status notes c = record c {
  status = status;
  reviewed_by = some q.user_id;
  reviewed_at = some q.now;
  review_notes = some notes;
}

abbrev pub merged_entity : Request → ℕ → Entity → Entity
merged_entity q surviving_id e = record e {
  status = EntityStatus.merged;
  merged_into_id = some surviving_id;
  updated_at = q.now;
}

-- `(surviving_id, merged_id)`
abbrev pub sides : Action → Candidate → ℕ × ℕ
sides Action.merge_a_into_b c = (c.entity_b_id, c.entity_a_id)
sides _ c = (c.entity_a_id, c.entity_b_id)

-- `body.notes or "Manual entity review"`
abbrev pub reason_of : String → String
reason_of notes = if str_eq notes "" then "Manual entity review" else notes

-- The UPDATEs and INSERTs of a merge.
unfoldable pub merge_entities : Request → String → Candidate → ℕ → ℕ → World → World
unfolding update_where
merge_entities q notes c surviving_id merged_id w = record {
  entities = update_where (λ e. e.id == merged_id) (merged_entity q surviving_id) w.entities;
  merges =
      w.merges
      ++ record {
        id = q.merge_id;
        surviving_entity_id = surviving_id;
        merged_entity_id = merged_id;
        match_candidate_id = some c.id;
        merge_reason = reason_of notes;
        evidence = record { score = c.score; breakdown = c.score_breakdown };
        performed_by = q.name;
        performed_at = q.now;
        reverted_at = none;
        reverted_by = none;
      }
        ∷ [];
  candidates =
      update_where (λ d. d.id == c.id) (reviewed q CandidateStatus.manually_confirmed notes)
        w.candidates;
  audit_log =
      w.audit_log
      ++ record {
        id = q.audit_id;
        tenant_id = q.tenant_id;
        actor_user_id = q.user_id;
        object_id = surviving_id;
        details = merge_details merged_id c.id notes;
      }
        ∷ [];
}

abbrev pub both_active : Option Entity → Option Entity → Option Bool
both_active (some e) (some survivor) = some (is_active e.status && is_active survivor.status)
both_active _ _ = none

abbrev pub merge_when : Request → String → Candidate → ℕ × ℕ → World → Option Bool → Answer × World
merge_when q notes c (surviving_id, merged_id) w none = (internal_error, w)
merge_when q notes c (surviving_id, merged_id) w (some false) = (not_active, w)
merge_when q notes c (surviving_id, merged_id) w (some true) =
    (ok, merge_entities q notes c surviving_id merged_id w)

unfoldable pub merge_candidate : Request → Action → String → Candidate → World → Answer × World
unfolding find_by_id is_active merge_entities
merge_candidate q action notes c w =
    if c.score_breakdown.identifier_conflict
    then (identifier_conflict, w)
    else merge_when q notes c (sides action c) w (
        both_active (find_by_id (λ e. e.id) (sides action c).1 w.entities)
          (find_by_id (λ e. e.id) (sides action c).0 w.entities))

abbrev pub rejected_candidate : Request → String → Candidate → World → World
rejected_candidate q notes c w = record w {
  candidates =
      update_where (λ d. d.id == c.id) (reviewed q CandidateStatus.rejected notes) w.candidates;
}

abbrev pub review_pending : Request → Action → String → Candidate → World → Answer × World
review_pending q Action.reject notes c w = (ok, rejected_candidate q notes c w)
review_pending q Action.merge_a_into_b notes c w = merge_candidate q Action.merge_a_into_b notes c w
review_pending q Action.merge_b_into_a notes c w = merge_candidate q Action.merge_b_into_a notes c w

abbrev pub review_found : Request → Action → String → Option Candidate → World → Answer × World
review_found q action notes none w = (not_found, w)
review_found q action notes (some c) w =
    if not (is_pending c.status) then (already_reviewed, w) else review_pending q action notes c w

-- `review_candidate`
unfoldable pub review_candidate : Request → Action → String → ℕ → World → Answer × World
unfolding find_by_id is_pending merge_candidate update_where
review_candidate q action notes target w =
    review_found q action notes (find_by_id (λ c. c.id) target w.candidates) w

unfoldable pub merged_into : ℕ → Option ℕ → Bool
merged_into surviving_id none = false
merged_into surviving_id (some id) = id == surviving_id

abbrev pub split_entity : ℕ → Entity → Entity
split_entity now e = record e {
  status = EntityStatus.active;
  merged_into_id = none;
  updated_at = now;
}

abbrev pub reverted : Request → Merge → Merge
reverted q m = record m { reverted_at = some q.now; reverted_by = some q.name }

abbrev pub split_candidate : ℕ → Candidate → Candidate
split_candidate now c = record c { status = CandidateStatus.manually_split; reviewed_at = some now }

abbrev pub is_id : Option ℕ → ℕ → Bool
is_id none id = false
is_id (some wanted) id = id == wanted

-- The UPDATEs and the INSERT of an undo; a merge with no candidate updates none.
unfoldable pub split_entities : Request → Merge → World → World
unfolding merged_into update_where
split_entities q m w = record {
  entities =
      update_where
        (λ e. e.id == m.merged_entity_id && merged_into m.surviving_entity_id e.merged_into_id)
        (split_entity q.now) w.entities;
  merges = update_where (λ n. n.id == m.id) (reverted q) w.merges;
  candidates =
      update_where (λ c. is_id m.match_candidate_id c.id) (split_candidate q.now) w.candidates;
  audit_log =
      w.audit_log
      ++ record {
        id = q.audit_id;
        tenant_id = q.tenant_id;
        actor_user_id = q.user_id;
        object_id = m.merged_entity_id;
        details = split_details m.surviving_entity_id m.id;
      }
        ∷ [];
}

abbrev pub is_reverted : Option ℕ → Bool
is_reverted none = false
is_reverted (some t) = true

abbrev pub undo_found : Request → Option Merge → World → Answer × World
undo_found q none w = (not_found, w)
undo_found q (some m) w =
    if is_reverted m.reverted_at then (already_reverted, w) else (ok, split_entities q m w)

-- `undo_merge`
unfoldable pub undo_merge : Request → ℕ → World → Answer × World
unfolding find_by_id split_entities
undo_merge q target w = undo_found q (find_by_id (λ m. m.id) target w.merges) w
