-- ===== src/Analytics/Scoring.antt =====
-- services/analytics/opportunity_scoring.py: the run that scores the candidates for a tenant and
-- writes the scores, `score_opportunities_for_tenant`.
pub mod Bounds
pub mod Choice
pub mod Recompute
mod Tests
use procintel.Common.{
  ℕ, ◌+◌, Bool, true, false, not, Option, none, some, List, [], ◌∷◌, ◌++◌, ◌&&◌, ◌||◌, ◌==◌,
  if◌then◌else◌, any_of, min, length,
}
use procintel.Common.Table.{select_where, update_where}
use procintel.Alerts.Matching.{Texts, is_empty}
use procintel.Analytics.Score.{Candidate, Score, ScoringRule, best_score, score_candidate}

pub data Label : Type 0 where
  relevant irrelevant other : Label

pub record Feedback : Type 0 where
  pub process_id : ℕ
  pub label : Label

-- `feedback_by_process.get(process_id)`: the dict keeps the last row of a process.
unfoldable pub feedback_of : ℕ → List Feedback → Option Label
feedback_of process_id [] = none
feedback_of process_id (row ∷ rows) =
    let later = feedback_of process_id rows in
    elim later [
      | some label ↦ some label
      | none ↦ if row.process_id == process_id then some row.label else none
    ]

unfoldable pub is_relevant : Option Label → Bool
is_relevant (some Label.relevant) = true
is_relevant _ = false

unfoldable pub is_irrelevant : Option Label → Bool
is_irrelevant (some Label.irrelevant) = true
is_irrelevant _ = false

-- A process marked as relevant: five points more, a hundred at most.
abbrev pub raised : Score → Score
raised score = record score {
  total_score = min (score.total_score + 500) 10_000;
  evidence = record score.evidence { relevance_feedback = true };
}

module _ (texts : Texts) where
  -- A relevant process that no rule matches is scored by the first rule.
  abbrev pub retained : Candidate → ℕ → List ScoringRule → Bool → Option Score → Option Score
  retained candidate as_of [] wanted best = best
  retained candidate as_of (rule ∷ rules) wanted (some best) = some best
  retained candidate as_of (rule ∷ rules) wanted none =
      if wanted then some (score_candidate texts rule candidate as_of) else none

  abbrev pub after_feedback : Bool → Option Score → Option Score
  after_feedback wanted none = none
  after_feedback wanted (some score) = some (if wanted then raised score else score)

  -- What the loop over the candidates writes for one of them, if anything.
  unfoldable pub candidate_score : List ScoringRule → List Feedback → ℕ → Candidate → Option Score
  unfolding best_score feedback_of is_relevant is_irrelevant score_candidate
  candidate_score rules feedback as_of candidate =
      let label = feedback_of candidate.process_id feedback in
      if is_irrelevant label
      then none
      else after_feedback (is_relevant label) (
          retained candidate as_of rules (is_relevant label)
            (best_score texts candidate as_of rules none))

pub record ScoreRow : Type 0 where
  pub process_id : ℕ
  pub tenant_id : ℕ
  pub profile_version : ℕ
  pub score : Score
  pub computed_at : ℕ

abbrev pub same_score : ScoreRow → ScoreRow → Bool
same_score new row = row.process_id == new.process_id && row.tenant_id == new.tenant_id

abbrev pub rescored : ScoreRow → ScoreRow → ScoreRow
rescored new row = record row {
  profile_version = new.profile_version;
  score = new.score;
  computed_at = new.computed_at;
}

-- INSERT … ON CONFLICT (process_id, tenant_id) DO UPDATE
unfoldable pub upsert_score : ScoreRow → List ScoreRow → List ScoreRow
unfolding update_where
upsert_score new rows =
    if any_of (same_score new) rows
    then update_where (same_score new) (rescored new) rows
    else rows ++ new ∷ []

pub record Run : Type 0 where
  pub tenant_id : ℕ
  pub profile_version : ℕ
  pub as_of : ℕ
  pub now : ℕ
  pub clear_existing : Bool
  pub rules : List ScoringRule
  pub feedback : List Feedback

pub record OpportunityScoreRun : Type 0 where
  pub tenant_id : ℕ
  pub rules_considered : ℕ
  pub candidates_seen : ℕ
  pub scores_written : ℕ

abbrev pub row_of : Run → Candidate → Score → ScoreRow
row_of run candidate score = record {
  process_id = candidate.process_id;
  tenant_id = run.tenant_id;
  profile_version = run.profile_version;
  score = score;
  computed_at = run.now;
}

module _ (texts : Texts) where
  -- The loop over the candidates: the processes written, and the table after.
  unfoldable pub write_scores : Run → List Candidate → List ScoreRow → List ℕ × List ScoreRow
  unfolding candidate_score upsert_score
  write_scores run [] table = ([], table)
  write_scores run (candidate ∷ candidates) table =
      elim (candidate_score texts run.rules run.feedback run.as_of candidate) [
        | none ↦ write_scores run candidates table
        | some score ↦
            let rest =
              write_scores run candidates (upsert_score (row_of run candidate score) table) in
            (candidate.process_id ∷ rest.0, rest.1)
      ]

  abbrev pub is_kept : ℕ → List ℕ → ScoreRow → Bool
  is_kept tenant_id written row =
      not (row.tenant_id == tenant_id) || any_of (λ p. p == row.process_id) written

  abbrev pub clear_stale : Run → List ℕ → List ScoreRow → List ScoreRow
  clear_stale run written table =
      if run.clear_existing then select_where (is_kept run.tenant_id written) table else table

  -- `score_opportunities_for_tenant`, from the rules, the candidates and the feedback it has read
  unfoldable pub score_opportunities :
      Run → List Candidate → List ScoreRow → OpportunityScoreRun × List ScoreRow
  unfolding write_scores select_where
  score_opportunities run candidates table =
      if is_empty run.rules
      then (
        record {
          tenant_id = run.tenant_id;
          rules_considered = 0;
          candidates_seen = 0;
          scores_written = 0;
        },
        clear_stale run [] table,
      )
      else let all = write_scores run candidates table in
        (
          record {
            tenant_id = run.tenant_id;
            rules_considered = length run.rules;
            candidates_seen = length candidates;
            scores_written = length all.0;
          },
          clear_stale run all.0 all.1,
        )
