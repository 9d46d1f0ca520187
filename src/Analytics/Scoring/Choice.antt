-- ===== src/Analytics/Scoring/Choice.antt =====
-- services/analytics/opportunity_scoring.py: the score that the loop over the rules keeps.
use procintel.Common.{
  ℕ, ◌≤◌, ◌≡◌, refl, Bool, true, false, not, Option, none, some, List, [], ◌∷◌, arith, ltb,
  Bool-cases, inl, inr, All, ltb→lt,
}
use procintel.Common.Table.{select_where}
use procintel.Alerts.Matching.{Texts, rule_matches, is_empty}
use procintel.Analytics.Score.{ScoringRule, Candidate, Score, score_candidate, better, best_score}
use procintel.Analytics.Scoring.{
  Feedback, Label, candidate_score, feedback_of, is_relevant, is_irrelevant, retained,
  after_feedback,
}
use procintel.Analytics.Scoring.Bounds.{score_bounds}

abbrev pub total_of : Option Score → ℕ
total_of none = 0
total_of (some score) = score.total_score

abbrev pub is_found : Option Score → Bool
is_found none = false
is_found (some score) = true

abbrev pub InRange : Option Score → Type 0
InRange none = Unit
InRange (some score) = score.total_score ≤ 9_425

module _ (texts : Texts) (candidate : Candidate) (as_of : ℕ) where
  abbrev pub matching : List ScoringRule → List ScoringRule
  matching = select_where (λ rule. rule_matches texts rule.filters candidate.context)

  better-total :
      (score : Score) (best : Option Score)
      → (score.total_score ≤ (better texts score best).total_score)
        × (total_of best ≤ (better texts score best).total_score)
  better-total score none = (omega arith, omega arith)
  better-total score (some best) = elim (Bool-cases (ltb best.total_score score.total_score)) [
    | inl higher ↦
        rw higher (omega arith, omega (arith, ltb→lt best.total_score score.total_score higher))
    | inr not_higher ↦ rw not_higher (ground arith, omega arith)
  ]

  best_score-bounds :
      (rules : List ScoringRule) (best : Option Score)
      → (total_of best ≤ total_of (best_score texts candidate as_of rules best))
        × All
            (λ rule.
              (score_candidate texts rule candidate as_of).total_score
              ≤ total_of (best_score texts candidate as_of rules best))
            (matching rules)
  unfolding best_score select_where
  best_score-bounds [] best = (omega arith, tt)
  best_score-bounds (rule ∷ rules) best =
      elim (Bool-cases (rule_matches texts rule.filters candidate.context)) [
        | inl hit ↦ rw hit (
            let score : Score = score_candidate texts rule candidate as_of in
            let later : _ = best_score-bounds rules (some (better texts score best)) in
            let step : _ = better-total score best in
            (omega (arith, later.0, step.1), (omega (arith, later.0, step.0), later.1)))
        | inr miss ↦ rw miss (best_score-bounds rules best)
      ]

  best_score-found :
      (rules : List ScoringRule) (score : Score)
      → is_found (best_score texts candidate as_of rules (some score)) ≡ true
  unfolding best_score
  best_score-found [] score = refl
  best_score-found (rule ∷ rules) score =
      elim (Bool-cases (rule_matches texts rule.filters candidate.context)) [
        | inl hit ↦ rw hit (
            best_score-found rules
              (better texts (score_candidate texts rule candidate as_of) (some score)))
        | inr miss ↦ rw miss (best_score-found rules score)
      ]

  best_score-none :
      (rules : List ScoringRule)
      → is_found (best_score texts candidate as_of rules none) ≡ not (is_empty (matching rules))
  unfolding best_score select_where
  best_score-none [] = refl
  best_score-none (rule ∷ rules) =
      elim (Bool-cases (rule_matches texts rule.filters candidate.context)) [
        | inl hit ↦ rw hit (best_score-found rules (score_candidate texts rule candidate as_of))
        | inr miss ↦ rw miss (best_score-none rules)
      ]

  better-InRange :
      (rule : ScoringRule) (best : Option Score)
      → InRange best
      → InRange (some (better texts (score_candidate texts rule candidate as_of) best))
  better-InRange rule none h = (score_bounds texts rule candidate as_of).1
  better-InRange rule (some best) h =
      elim (Bool-cases
        (ltb best.total_score (score_candidate texts rule candidate as_of).total_score)) [
          | inl higher ↦ rw higher (score_bounds texts rule candidate as_of).1
          | inr not_higher ↦ rw not_higher h
        ]

  best_score-InRange :
      (rules : List ScoringRule) (best : Option Score)
      → InRange best
      → InRange (best_score texts candidate as_of rules best)
  unfolding best_score
  best_score-InRange [] best h = h
  best_score-InRange (rule ∷ rules) best h =
      elim (Bool-cases (rule_matches texts rule.filters candidate.context)) [
        | inl hit ↦ rw hit (
            best_score-InRange rules
              (some (better texts (score_candidate texts rule candidate as_of) best))
              (better-InRange rule best h))
        | inr miss ↦ rw miss (best_score-InRange rules best h)
      ]

  -- The loop over the rules finds a score when a rule matches and only then, and no matching rule
  -- gives the process a higher one.
  pub best_is_highest :
      (rules : List ScoringRule)
      → (is_found (best_score texts candidate as_of rules none) ≡ not (is_empty (matching rules)))
        × All
            (λ rule.
              (score_candidate texts rule candidate as_of).total_score
              ≤ total_of (best_score texts candidate as_of rules none))
            (matching rules)
  best_is_highest rules = (best_score-none rules, (best_score-bounds rules none).1)

  retained-InRange :
      (rules : List ScoringRule) (wanted : Bool) (best : Option Score)
      → InRange best
      → InRange (retained texts candidate as_of rules wanted best)
  retained-InRange [] wanted best h = h
  retained-InRange (rule ∷ rules) wanted (some best) h = h
  retained-InRange (rule ∷ rules) true none h = (score_bounds texts rule candidate as_of).1
  retained-InRange (rule ∷ rules) false none h = tt

  -- A score to write: of a process that is not marked as irrelevant, and at most 99.25 points.
  abbrev pub Writable : List Feedback → Option Score → Type 0
  Writable feedback none = Unit
  Writable feedback (some score) =
      (is_irrelevant (feedback_of candidate.process_id feedback) ≡ false)
      × (score.total_score ≤ 9_925)

  after_feedback-Writable :
      (feedback : List Feedback) (wanted : Bool) (best : Option Score)
      → is_irrelevant (feedback_of candidate.process_id feedback) ≡ false
      → InRange best
      → Writable feedback (after_feedback texts wanted best)
  after_feedback-Writable feedback wanted none fine h = tt
  after_feedback-Writable feedback true (some score) fine h = (fine, omega (arith, h))
  after_feedback-Writable feedback false (some score) fine h = (fine, omega (arith, h))

  pub candidate_score-Writable :
      (rules : List ScoringRule) (feedback : List Feedback)
      → Writable feedback (candidate_score texts rules feedback as_of candidate)
  unfolding candidate_score
  candidate_score-Writable rules feedback =
      let label : Option Label = feedback_of candidate.process_id feedback in
      elim (Bool-cases (is_irrelevant label)) [
        | inl bad ↦ rw bad tt
        | inr fine ↦ rw fine (
            after_feedback-Writable feedback (is_relevant label)
              (retained texts candidate as_of rules (is_relevant label)
                (best_score texts candidate as_of rules none))
              fine
              (retained-InRange rules (is_relevant label)
                (best_score texts candidate as_of rules none) (best_score-InRange rules none tt)))
      ]
