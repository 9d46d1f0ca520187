-- ===== src/Analytics/Score.antt =====
-- services/analytics/opportunity_scoring.py: the score of a procurement process for a rule, and the
-- best of the rules. A part of a score is a whole number of points; a total is in hundredths of a
-- point, which the weights make exact, so `quantize` rounds nothing.
use procintel.Common.{
  ℕ, ◌+◌, ◌-◌, ◌*◌, Bool, true, false, not, Option, none, some, String, List, [], ◌∷◌, ltb, leb,
  ◌==◌, str_eq, if◌then◌else◌, any_of, min, max,
}
use procintel.Common.Int.{ℤ}
use procintel.Alerts.Matching.{
  Texts, Filters, Context, any_prefix, is_empty, at_least, at_most, rule_matches,
}

-- `_score_timing`
unfoldable pub score_timing : Option ℕ → ℕ → ℕ
score_timing none as_of = 30
score_timing (some latest_act_date) as_of =
    let age_days = as_of - latest_act_date in
    if leb age_days 7
    then 100
    else if leb age_days 30
    then 85
    else if leb age_days 90
    then 65
    else 40

-- `_score_value`
unfoldable pub score_value : Option ℤ → Option ℤ → Option ℤ → ℕ
score_value none amount_min amount_max = 35
score_value (some amount) none none = 60
score_value (some amount) amount_min amount_max =
    if not (at_least amount_min (some amount))
    then 20
    else if not (at_most amount_max (some amount))
    then 20
    else 100

abbrev pub points_if : Bool → ℕ → ℕ
points_if true points = points
points_if false points = 0

abbrev pub has_text : Option String → Bool
has_text none = false
has_text (some s) = not (str_eq s "")

abbrev pub is_given : Option ℤ → Bool
is_given none = false
is_given (some amount) = true

-- `_score_data_confidence`
unfoldable pub score_data_confidence : Context → ℕ
score_data_confidence context =
    min
      (20
        + points_if (has_text context.buyer_id) 20
        + points_if (not (is_empty context.cpv_codes)) 20
        + points_if (is_given context.amount_gross) 20
        + points_if (not (is_empty context.nuts_codes)) 10
        + points_if (ltb 1 context.act_count) 10)
      100

pub data MatchMethod : Type 0 where
  cpv_and_title_keyword title_keyword_fallback cpv unfiltered : MatchMethod

-- The signals: what is known of the process, how it matched, and whether feedback raised it.
pub record Evidence : Type 0 where
  pub matched_rule : String
  pub cpv_codes : List String
  pub taxonomy_match_method : MatchMethod
  pub nuts_codes : List String
  pub amount_gross : Option ℤ
  pub latest_act_date : Option ℕ
  pub supplier_count : ℕ
  pub relevance_feedback : Bool

pub record Score : Type 0 where
  pub total_score : ℕ
  pub cpv_company_fit_score : ℕ
  pub buyer_affinity_score : ℕ
  pub timing_score : ℕ
  pub competitive_attractiveness_score : ℕ
  pub contract_value_fit_score : ℕ
  pub data_confidence_score : ℕ
  pub evidence : Evidence

unfoldable pub match_method : Bool → Bool → MatchMethod
match_method true true = cpv_and_title_keyword
match_method false true = title_keyword_fallback
match_method true false = cpv
match_method false false = unfiltered

unfoldable pub cpv_points : MatchMethod → ℕ
cpv_points cpv_and_title_keyword = 100
cpv_points title_keyword_fallback = 75
cpv_points cpv = 100
cpv_points unfiltered = 50

unfoldable pub buyer_affinity : Filters → ℕ
buyer_affinity filters =
    let named = if str_eq filters.buyer_id "" then 55 else 90 in
    if is_empty filters.nuts_codes then named else max named 75

-- The sum of the parts by their weights, in hundredths of a point.
abbrev pub weighted : ℕ → ℕ → ℕ → ℕ → ℕ → ℕ → ℕ
weighted fit buyer timing competitive value confidence =
    25 * fit + 20 * buyer + 15 * timing + 15 * competitive + 15 * value + 10 * confidence

pub record Candidate : Type 0 where
  pub process_id : ℕ
  pub context : Context
  pub latest_act_date : Option ℕ
  pub supplier_count : ℕ

pub record ScoringRule : Type 0 where
  pub name : String
  pub filters : Filters

module _ (texts : Texts) where
  open texts use {lexical_query_matches}

  abbrev pub method_of : Filters → Context → MatchMethod
  method_of filters context =
      match_method (any_prefix context.cpv_codes filters.cpv_prefixes)
        (any_of (λ keyword. lexical_query_matches keyword context.title) filters.keywords)

  -- `_score_candidate`
  unfoldable pub score_candidate : ScoringRule → Candidate → ℕ → Score
  unfolding match_method cpv_points buyer_affinity score_timing score_value score_data_confidence
  score_candidate rule candidate as_of =
      let filters = rule.filters in
      let context = candidate.context in
      let fit = cpv_points (method_of filters context) in
      let buyer = buyer_affinity filters in
      let timing = score_timing candidate.latest_act_date as_of in
      let competitive = if candidate.supplier_count == 0 then 75 else 45 in
      let value = score_value context.amount_gross filters.amount_min filters.amount_max in
      let confidence = score_data_confidence context in
      record {
        total_score = weighted fit buyer timing competitive value confidence;
        cpv_company_fit_score = fit;
        buyer_affinity_score = buyer;
        timing_score = timing;
        competitive_attractiveness_score = competitive;
        contract_value_fit_score = value;
        data_confidence_score = confidence;
        evidence = record {
          matched_rule = rule.name;
          cpv_codes = context.cpv_codes;
          taxonomy_match_method = method_of filters context;
          nuts_codes = context.nuts_codes;
          amount_gross = context.amount_gross;
          latest_act_date = candidate.latest_act_date;
          supplier_count = candidate.supplier_count;
          relevance_feedback = false;
        };
      }

  abbrev pub better : Score → Option Score → Score
  better score none = score
  better score (some best) = if ltb best.total_score score.total_score then score else best

  -- The loop over the rules: `best` is what the earlier rules gave.
  unfoldable pub best_score : Candidate → ℕ → List ScoringRule → Option Score → Option Score
  unfolding rule_matches score_candidate
  best_score candidate as_of [] best = best
  best_score candidate as_of (rule ∷ rules) best =
      if rule_matches texts rule.filters candidate.context
      then best_score candidate as_of rules
          (some (better (score_candidate rule candidate as_of) best))
      else best_score candidate as_of rules best
