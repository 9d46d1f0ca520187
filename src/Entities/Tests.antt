-- ===== src/Entities/Tests.antt =====
-- Runs of the entity resolution on small tables.
use procintel.Common.{
  ℕ, ◌≡◌, refl, true, false, Option, none, some, String, List, [], ◌∷◌, arith, leb, map, ◌+◌,
}
use procintel.Common.Table.{select_where, update_where, order_by, count_where}
use procintel.Entities.Score.{Side, PairRow, review, candidate_score}
use procintel.Entities.Score.Symmetry.{swapped, candidate_score-swapped}
use procintel.Entities.Candidates.{
  Candidate, CandidateStatus, Pair, Scored, scored, inserted, write_values, overwritten, upsert_all,
  same_pair,
}
use procintel.Entities.Scan.{scan, scan-is_complete}
use procintel.Entities.Upsert.{
  is_reviewed, is_rescored, write_values-keeps_reviewed, write_values-writes_last,
}
use procintel.Entities.Review.{
  Entity, EntityStatus, Request, Action, World, undo_merge, merge_candidate, merged_into, ok,
}
use procintel.Entities.Review.Forest.{IsForest}
use procintel.Entities.Review.Requests.{Command, review, undo, run_commands, run_commands-IsForest}
use procintel.Entities.Review.Undo.{standing, undo-merge_candidate}
use procintel.Entities.Resolve.{
  Registry, Query, find_or_create_entity_by_afm, resolve_once, IsUnique,
}

abbrev side : String → List String → Side
side afm domains = record {
  afms = afm ∷ [];
  domains = domains;
  phones = "" ∷ [];
  emails = [];
  municipality = some "Athens";
  postal = some "105 64";
}

-- One name, one domain, but two valid AFMs.
abbrev conflict_row : PairRow
conflict_row = record {
  a = side "094" ("example.gr" ∷ []);
  b = record (side "095" ("acme.gr" ∷ "example.gr" ∷ [])) { postal = some "10564" };
  temporal_compatibility = true;
  name_similarity = some 1_000_000;
  address_similarity = some 900_000;
  source_reliability = none;
}

abbrev agreeing_row : PairRow
agreeing_row = record conflict_row { b = side "094" ("example.gr" ∷ []) }

abbrev same_text : String → String
same_text s = s

conflict_is_capped : candidate_score same_text conflict_row ≡ 6_900
unfolding candidate_score
conflict_is_capped = refl

agreement_scores : candidate_score same_text agreeing_row ≡ 8_260
unfolding candidate_score
agreement_scores = refl

candidate_score-swapped_example :
    candidate_score same_text (swapped conflict_row) ≡ candidate_score same_text conflict_row
candidate_score-swapped_example = candidate_score-swapped same_text conflict_row

abbrev ids : List ℕ
ids = 7 ∷ 3 ∷ 9 ∷ 1 ∷ 5 ∷ []

scanned : scan 6 ids 2 none ≡ 1 ∷ 3 ∷ 5 ∷ 7 ∷ 9 ∷ []
unfolding scan
scanned = refl

scan-is_complete_example : scan 6 ids 2 none ≡ order_by leb ids
scan-is_complete_example = scan-is_complete ids 1 (
  (refl, (refl, (refl, (refl, tt)))),
  ((refl, (refl, (refl, tt))), ((refl, (refl, tt)), ((refl, tt), (tt, tt)))),
)

abbrev pair : ℕ → ℕ → ℕ → PairRow → Pair
pair id a b row = record {
  id = id;
  entity_a_id = a;
  entity_b_id = b;
  evidence = row;
  blocking_reason = "EXACT_DOMAIN";
}

abbrev batch : List Scored
batch =
    scored same_text (pair 21 1 2 conflict_row) ∷ scored same_text (pair 22 2 3 agreeing_row) ∷ []

abbrev table : List Candidate
table =
    inserted (scored same_text (pair 11 1 2 conflict_row))
    ∷ inserted (scored same_text (pair 12 2 3 agreeing_row))
    ∷ record (inserted (scored same_text (pair 13 1 5 conflict_row))) {
      status = CandidateStatus.rejected;
    }
    ∷ []

-- The conflicting pair is written again with the score of the other.
both_get_one_score : map (λ c. c.score) (write_values batch table).1 ≡ 8_260 ∷ 8_260 ∷ 6_900 ∷ []
unfolding upsert_all scored
both_get_one_score = refl

write_values-writes_last_example :
    (write_values batch table).1
    ≡ update_where
        (is_rescored batch)
        (overwritten (scored same_text (pair 22 2 3 agreeing_row)))
        table
unfolding same_pair scored
write_values-writes_last_example =
    write_values-writes_last (scored same_text (pair 21 1 2 conflict_row))
      (scored same_text (pair 22 2 3 agreeing_row) ∷ []) table (refl, (refl, tt))

write_values-keeps_reviewed_example :
    select_where is_reviewed (write_values batch table).1 ≡ select_where is_reviewed table
write_values-keeps_reviewed_example = write_values-keeps_reviewed batch table

abbrev entity : ℕ → Entity
entity id = record { id = id; status = EntityStatus.active; merged_into_id = none; updated_at = 5 }

abbrev world : World
world = record {
  candidates = inserted (scored same_text (pair 12 2 3 agreeing_row)) ∷ [];
  entities = entity 1 ∷ entity 2 ∷ entity 3 ∷ [];
  merges = [];
  audit_log = [];
}

abbrev request : ℕ → Request
request now = record {
  now = now;
  merge_id = 100 + now;
  audit_id = 200 + now;
  tenant_id = 1;
  user_id = 4;
  name = "reviewer";
}

merge_then_undo :
    map standing
      (run_commands
        (review (request 10) Action.merge_a_into_b "" 12 ∷ undo (request 11) 110 ∷ [])
        world).entities
    ≡ map standing world.entities
unfolding run_commands scored
merge_then_undo = refl

merged_status :
    map
      (λ e. e.status)
      (run_commands (review (request 10) Action.merge_a_into_b "" 12 ∷ []) world).entities
    ≡ EntityStatus.active ∷ EntityStatus.merged ∷ EntityStatus.active ∷ []
unfolding run_commands scored
merged_status = refl

world-IsForest : IsForest 6 world
unfolding scored merged_into
world-IsForest = record {
  keys = ((refl, (refl, tt)), ((refl, tt), (tt, tt)));
  two_sides = (refl, tt);
  past = (refl, (refl, (refl, tt)));
  chains = (
    (λ p d. p, (λ p d. p, (λ p d. p, tt))),
    ((λ p d. p, (λ p d. p, (λ p d. p, tt))), ((λ p d. p, (λ p d. p, (λ p d. p, tt))), tt)),
  );
}

abbrev commands : List Command
commands = review (request 10) Action.merge_a_into_b "" 12 ∷ undo (request 11) 110 ∷ []

run_commands-IsForest_example : IsForest 12 (run_commands commands world)
run_commands-IsForest_example =
    run_commands-IsForest 6 commands world (omega arith, (omega arith, tt)) world-IsForest

abbrev chosen : Candidate
chosen = inserted (scored same_text (pair 12 2 3 agreeing_row))

merge_is_accepted : (merge_candidate (request 10) Action.merge_a_into_b "" chosen world).0 ≡ ok
unfolding merge_candidate scored
merge_is_accepted = refl

undo-merge_candidate_example :
    ((undo_merge
        (request 11)
        110
        (merge_candidate (request 10) Action.merge_a_into_b "" chosen world).1).0
      ≡ ok)
    × (map standing
          (undo_merge
            (request 11)
            110
            (merge_candidate (request 10) Action.merge_a_into_b "" chosen world).1).1.entities
        ≡ map standing world.entities)
undo-merge_candidate_example =
    undo-merge_candidate (request 10) (request 11) Action.merge_a_into_b "" chosen world
      ((refl, (refl, tt)), ((refl, tt), (tt, tt))) (λ a. refl, (λ a. refl, (λ a. refl, tt))) tt
      merge_is_accepted

abbrev query : Option String → ℕ → Query
query name id = record {
  afm_raw = "EL094";
  afm_normalized = "094";
  afm_checksum_valid = false;
  name = name;
  entity_type = "COMPANY";
  source_record_id = none;
  entity_id = id;
  identifier_id = id + 100;
}

abbrev empty : Registry
empty = record { entities = []; identifiers = [] }

found_again :
    (find_or_create_entity_by_afm same_text
      (query (some "ACME") 8)
      (find_or_create_entity_by_afm same_text (query none 7) empty).1).0
    ≡ 7
unfolding find_or_create_entity_by_afm
found_again = refl

empty-IsUnique : IsUnique empty
unfolding count_where
empty-IsUnique afm = omega arith

resolve_once_example :
    IsUnique (find_or_create_entity_by_afm same_text (query none 7) empty).1
    × (find_or_create_entity_by_afm same_text
          (query (some "ACME") 8)
          (find_or_create_entity_by_afm same_text (query none 7) empty).1
        ≡ find_or_create_entity_by_afm same_text (query none 7) empty)
resolve_once_example =
    resolve_once same_text (query none 7) (query (some "ACME") 8) empty refl empty-IsUnique
