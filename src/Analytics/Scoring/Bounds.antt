-- ===== src/Analytics/Scoring/Bounds.antt =====
-- services/analytics/opportunity_scoring.py: the range of a score.
use procintel.Common.{
  ℕ, ◌≤◌, Bool, not, true, false, Option, none, some, arith, max, if◌then◌else◌, ◌==◌, str_eq,
  Bool-cases, inl, inr,
}
use procintel.Common.Int.{ℤ}
use procintel.Alerts.Matching.{Texts, Context, is_empty, at_least, at_most}
use procintel.Analytics.Score.{
  MatchMethod, cpv_and_title_keyword, title_keyword_fallback, cpv, unfiltered, cpv_points,
  buyer_affinity, score_timing, score_value, score_data_confidence, points_if, ScoringRule,
  Candidate, score_candidate, method_of,
}

points_if_le : (b : Bool) (n : ℕ) → points_if b n ≤ n
points_if_le true n = omega arith
points_if_le false n = omega arith

cpv_points-bounds : (m : MatchMethod) → (50 ≤ cpv_points m) × (cpv_points m ≤ 100)
unfolding cpv_points
cpv_points-bounds cpv_and_title_keyword = (omega arith, omega arith)
cpv_points-bounds title_keyword_fallback = (omega arith, omega arith)
cpv_points-bounds cpv = (omega arith, omega arith)
cpv_points-bounds unfiltered = (omega arith, omega arith)

affinity_bounds :
    (named none_given : Bool)
    → let score =
        if none_given then (if named then 55 else 90) else max (if named then 55 else 90) 75 in
      (55 ≤ score) × (score ≤ 90)
affinity_bounds true true = (omega arith, omega arith)
affinity_bounds true false = (omega arith, omega arith)
affinity_bounds false true = (omega arith, omega arith)
affinity_bounds false false = (omega arith, omega arith)

timing_bounds :
    (latest : Option ℕ) (as_of : ℕ)
    → (30 ≤ score_timing latest as_of) × (score_timing latest as_of ≤ 100)
unfolding score_timing
timing_bounds none as_of = (omega arith, omega arith)
timing_bounds (some latest) as_of = (ground arith, ground arith)

two_tests :
    (a b : Bool)
    → (20 ≤ (if a then 20 else if b then 20 else 100))
      × ((if a then 20 else if b then 20 else 100) ≤ 100)
two_tests a b = (ground arith, ground arith)

value_bounds :
    (amount low high : Option ℤ)
    → (20 ≤ score_value amount low high) × (score_value amount low high ≤ 100)
unfolding score_value
value_bounds none low high = (omega arith, omega arith)
value_bounds (some amount) none none = (omega arith, omega arith)
value_bounds (some amount) none (some high) =
    two_tests (not (at_least none (some amount))) (not (at_most (some high) (some amount)))
value_bounds (some amount) (some low) none =
    two_tests (not (at_least (some low) (some amount))) (not (at_most none (some amount)))
value_bounds (some amount) (some low) (some high) =
    two_tests (not (at_least (some low) (some amount))) (not (at_most (some high) (some amount)))

confidence_bounds :
    (context : Context)
    → (20 ≤ score_data_confidence context) × (score_data_confidence context ≤ 100)
unfolding score_data_confidence
confidence_bounds context = (omega arith, omega arith)

-- A score before feedback lies between 39.75 and 94.25 points, whatever the rule and the process.
pub score_bounds :
    (texts : Texts) (rule : ScoringRule) (candidate : Candidate) (as_of : ℕ)
    → (3_975 ≤ (score_candidate texts rule candidate as_of).total_score)
      × ((score_candidate texts rule candidate as_of).total_score ≤ 9_425)
unfolding score_candidate buyer_affinity
score_bounds texts rule candidate as_of =
    let fit : _ = cpv_points-bounds (method_of texts rule.filters candidate.context) in
    let buyer : _ =
      affinity_bounds (str_eq rule.filters.buyer_id "") (is_empty rule.filters.nuts_codes) in
    let timing : _ = timing_bounds candidate.latest_act_date as_of in
    let value : _ =
      value_bounds candidate.context.amount_gross rule.filters.amount_min rule.filters.amount_max in
    let confidence : _ = confidence_bounds candidate.context in
    elim (Bool-cases (candidate.supplier_count == 0)) [
      | inl alone ↦ rw alone (
        omega (arith, fit.0, buyer.0, timing.0, value.0, confidence.0),
        omega (arith, fit.1, buyer.1, timing.1, value.1, confidence.1),
      )
      | inr others ↦ rw others (
        omega (arith, fit.0, buyer.0, timing.0, value.0, confidence.0),
        omega (arith, fit.1, buyer.1, timing.1, value.1, confidence.1),
      )
    ]
