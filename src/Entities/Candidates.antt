-- ===== src/Entities/Candidates.antt =====
-- services/entity_resolution/candidates.py: the pages of the scan over the entities, and
-- `generate_match_candidates` on the rows that its query of pairs returns.
use procintel.Common.{
  ℕ, ◌+◌, Bool, true, false, Option, none, some, String, List, [], ◌∷◌, ◌++◌, ◌&&◌, ltb, leb, ◌==◌,
  if◌then◌else◌, length, take, map, any_of, not,
}
use procintel.Common.Table.{select_where, update_where, count_where, order_by}
use procintel.Entities.Score.{PairRow, Breakdown, score_candidate}

-- A cursor is the last id of a page.
pub record CandidateScanPage : Type 0 where
  pub entity_ids : List ℕ
  pub next_cursor : Option ℕ
  pub complete : Bool

abbrev pub last_of : List ℕ → Option ℕ
last_of [] = none
last_of (x ∷ []) = some x
last_of (x ∷ y ∷ ys) = last_of (y ∷ ys)

-- `candidate_scan_page`
unfoldable pub candidate_scan_page : List ℕ → ℕ → CandidateScanPage
candidate_scan_page rows page_size =
    let entity_ids = take page_size rows in
    let has_more = ltb page_size (length rows) in
    record {
      entity_ids = entity_ids;
      next_cursor = if has_more then last_of entity_ids else none;
      complete = not has_more;
    }

abbrev pub after_cursor : Option ℕ → ℕ → Bool
after_cursor none id = true
after_cursor (some cursor) id = ltb cursor id

-- The query of the anchors; `eligible` are the ids of the active entities of the three types.
unfoldable pub anchor_rows : List ℕ → Option ℕ → ℕ → List ℕ
unfolding select_where order_by
anchor_rows eligible after_entity_id anchor_limit =
    take (anchor_limit + 1) (order_by leb (select_where (after_cursor after_entity_id) eligible))

pub data CandidateStatus : Type 0 where
  pending_review rejected manually_confirmed manually_split : CandidateStatus

unfoldable pub is_pending : CandidateStatus → Bool
is_pending CandidateStatus.pending_review = true
is_pending _ = false

-- A row of entity_match_candidates.
pub record Candidate : Type 0 where
  pub id : ℕ
  pub entity_a_id : ℕ
  pub entity_b_id : ℕ
  pub score : ℕ
  pub score_breakdown : Breakdown
  pub blocking_reason : String
  pub status : CandidateStatus
  pub reviewed_by : Option ℕ
  pub reviewed_at : Option ℕ
  pub review_notes : Option String

-- A row of the query of the pairs, with the UUID that the code draws for it.
pub record Pair : Type 0 where
  pub id : ℕ
  pub entity_a_id : ℕ
  pub entity_b_id : ℕ
  pub evidence : PairRow
  pub blocking_reason : String

-- What the code computes for a pair: an element of `values`.
pub record Scored : Type 0 where
  pub id : ℕ
  pub entity_a_id : ℕ
  pub entity_b_id : ℕ
  pub score : ℕ
  pub score_breakdown : Breakdown
  pub blocking_reason : String

unfoldable pub scored : (String → String) → Pair → Scored
unfolding score_candidate
scored casefold pair =
    let result = score_candidate casefold pair.evidence in
    record {
      id = pair.id;
      entity_a_id = pair.entity_a_id;
      entity_b_id = pair.entity_b_id;
      score = result.0;
      score_breakdown = result.1;
      blocking_reason = pair.blocking_reason;
    }

-- The unique index over the two entities.
unfoldable pub same_pair : Scored → Candidate → Bool
same_pair s c = c.entity_a_id == s.entity_a_id && c.entity_b_id == s.entity_b_id

abbrev pub inserted : Scored → Candidate
inserted s = record {
  id = s.id;
  entity_a_id = s.entity_a_id;
  entity_b_id = s.entity_b_id;
  score = s.score;
  score_breakdown = s.score_breakdown;
  blocking_reason = s.blocking_reason;
  status = CandidateStatus.pending_review;
  reviewed_by = none;
  reviewed_at = none;
  review_notes = none;
}

-- ON CONFLICT DO UPDATE: `set_` has the values of one pair, `source`.
abbrev pub overwritten : Scored → Candidate → Candidate
overwritten source c = record c {
  score = source.score;
  score_breakdown = source.score_breakdown;
  blocking_reason = source.blocking_reason;
}

unfoldable pub upsert_one : Scored → Scored → List Candidate → ℕ × List Candidate
unfolding same_pair is_pending update_where count_where
upsert_one source s table =
    if any_of (same_pair s) table
    then (
      count_where (λ c. same_pair s c && is_pending c.status) table,
      update_where (λ c. same_pair s c && is_pending c.status) (overwritten source) table,
    )
    else (1, table ++ inserted s ∷ [])

-- The statement for all the values: the rows written, and the table.
unfoldable pub upsert_all : Scored → List Scored → List Candidate → ℕ × List Candidate
unfolding upsert_one
upsert_all source [] table = (0, table)
upsert_all source (s ∷ ss) table =
    let one = upsert_one source s table in
    let rest = upsert_all source ss one.1 in (one.0 + rest.0, rest.1)

-- The variables of the loop keep the values of its last turn.
abbrev pub last_or : Scored → List Scored → Scored
last_or s [] = s
last_or s (t ∷ ts) = last_or t ts

abbrev pub write_values : List Scored → List Candidate → ℕ × List Candidate
write_values [] table = (0, table)
write_values (s ∷ ss) table = upsert_all (last_or s ss) (s ∷ ss) table

pub record CandidateGenerationResult : Type 0 where
  pub pairs_considered : ℕ
  pub candidates_written : ℕ
  pub identifier_conflicts : ℕ
  pub next_cursor : Option ℕ
  pub scan_complete : Bool

-- The query of the pairs stands outside: it is SQL over the trigram index.
unfoldable pub generate_match_candidates :
    (String → String)
    → (List ℕ → List Pair)
    → List ℕ
    → ℕ
    → Option ℕ
    → List Candidate
    → CandidateGenerationResult × List Candidate
unfolding anchor_rows candidate_scan_page scored upsert_all count_where
generate_match_candidates casefold query eligible anchor_limit after_entity_id table =
    let page =
      candidate_scan_page (anchor_rows eligible after_entity_id anchor_limit) anchor_limit in
    let rows = query page.entity_ids in
    let results = map (scored casefold) rows in
    let done = write_values results table in
    elim page.entity_ids [
      | [] ↦ (
        record {
          pairs_considered = 0;
          candidates_written = 0;
          identifier_conflicts = 0;
          next_cursor = none;
          scan_complete = true;
        },
        table,
      )
      | e ∷ es ↦ (
        record {
          pairs_considered = length rows;
          candidates_written = done.0;
          identifier_conflicts = count_where (λ s. s.score_breakdown.identifier_conflict) results;
          next_cursor = page.next_cursor;
          scan_complete = page.complete;
        },
        done.1,
      )
    ]
