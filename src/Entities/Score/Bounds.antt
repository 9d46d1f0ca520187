-- ===== src/Entities/Score/Bounds.antt =====
-- services/entity_resolution/candidates.py: the range of the score and what a conflict of AFMs does.
use procintel.Common.{ℕ, ◌*◌, ◌≤◌, ◌≡◌, refl, true, false, String, arith, min, leb, if◌then◌else◌}
use procintel.Entities.Score.{
  PairRow, reject_conflict, review_high, review, round_4, weighted_sum, candidate_score,
  score_candidate, conflicting, values,
}

round_4-le : (x k : ℕ) → x ≤ k * 10_000 → round_4 x ≤ k
unfolding round_4
round_4-le x k le = ground arith

candidate_score-le :
    (casefold : String → String) (row : PairRow) → candidate_score casefold row ≤ 10_000
unfolding candidate_score
candidate_score-le casefold row =
    round_4-le
      (min
        (if conflicting (values row.a.afms) (values row.b.afms)
          then min (weighted_sum casefold row) 69_000_000
          else weighted_sum casefold row)
        100_000_000)
      10_000 (omega arith)

conflict-caps_score :
    (casefold : String → String) (row : PairRow)
    → conflicting (values row.a.afms) (values row.b.afms) ≡ true
    → candidate_score casefold row ≤ 6_900
unfolding candidate_score
conflict-caps_score casefold row e =
    rw e (
      round_4-le (min (min (weighted_sum casefold row) 69_000_000) 100_000_000) 6_900 (omega arith))

-- A score is at most one, in ten-thousandths. Where the valid AFMs of the two sides conflict it is
-- at most 0.69 and the action suggested is the rejection; where they do not, the action is a
-- review of high priority exactly for a score of 0.85 or more.
pub score_candidate_bounds :
    (casefold : String → String) (row : PairRow)
    → ((score_candidate casefold row).0 ≤ 10_000)
      × ((score_candidate casefold row).1.identifier_conflict ≡ true
          → ((score_candidate casefold row).0 ≤ 6_900)
            × ((score_candidate casefold row).1.suggested_action ≡ reject_conflict))
      × ((score_candidate casefold row).1.identifier_conflict ≡ false
          → (score_candidate casefold row).1.suggested_action
            ≡ (if leb 8_500 (score_candidate casefold row).0 then review_high else review))
unfolding score_candidate
score_candidate_bounds casefold row = (
  candidate_score-le casefold row,
  λ conflict. (conflict-caps_score casefold row conflict, rw conflict refl),
  λ conflict. rw conflict refl,
)
