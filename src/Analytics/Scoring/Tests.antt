-- ===== src/Analytics/Scoring/Tests.antt =====
-- services/analytics/opportunity_scoring.py on two processes.
use procintel.Common.{
  ℕ, ◌≤◌, ◌≡◌, refl, true, not, String, List, [], ◌∷◌, some, none, map, str_eq, All,
}
use procintel.Common.Int.{pos}
use procintel.Alerts.Matching.{Texts, TaxonomyMode, is_empty}
use procintel.Analytics.Score.{ScoringRule, Candidate, score_candidate, best_score}
use procintel.Analytics.Scoring.{Label, Run, ScoreRow, score_opportunities}
use procintel.Analytics.Scoring.Bounds.{score_bounds}
use procintel.Analytics.Scoring.Choice.{is_found, total_of, matching, best_is_highest}
use procintel.Analytics.Scoring.Recompute.{OfOtherOrFresh, recompute_leaves_fresh}

abbrev texts : Texts
texts = record {
  normalize = λ s. s;
  lexical_query_matches = λ keyword title. str_eq keyword title;
  upper = λ s. s;
  hash = λ s. s;
}

abbrev rule : String → List String → ScoringRule
rule name keywords = record {
  name = name;
  filters = record {
    excluded_cpv_prefixes = [];
    excluded_keywords = [];
    cpv_prefixes = "4523" ∷ [];
    keywords = keywords;
    nuts_codes = "EL3" ∷ [];
    municipality = "";
    taxonomy_match_mode = TaxonomyMode.unset;
    taxonomy_match_any = true;
    buyer_id = "";
    supplier_id = "";
    amount_min = some (pos 1_000);
    amount_max = none;
  };
}

abbrev rules : List ScoringRule
rules = rule "Works" [] ∷ rule "Roads" ("roads" ∷ []) ∷ []

abbrev candidate : ℕ → String → Candidate
candidate process_id title = record {
  process_id = process_id;
  context = record {
    title = title;
    cpv_codes = "45233120-6" ∷ [];
    nuts_codes = "EL303" ∷ [];
    location_names = [];
    buyer_id = some "b";
    supplier_id = none;
    amount_gross = some (pos 2_500);
    act_count = 1;
  };
  latest_act_date = some 95;
  supplier_count = 0;
}

abbrev run : Run
run = record {
  tenant_id = 7;
  profile_version = 2;
  as_of = 100;
  now = 1_000;
  clear_existing = true;
  rules = rules;
  feedback = record { process_id = 2; label = Label.irrelevant } ∷ [];
}

the_score :
    (score_candidate texts (rule "Roads" ("roads" ∷ [])) (candidate 1 "roads") 100).total_score
    ≡ 9_025
unfolding score_candidate
the_score = refl

score_bounds_example :
    (3_975 ≤ (score_candidate texts (rule "Works" []) (candidate 1 "roads") 100).total_score)
    × ((score_candidate texts (rule "Works" []) (candidate 1 "roads") 100).total_score ≤ 9_425)
score_bounds_example = score_bounds texts (rule "Works" []) (candidate 1 "roads") 100

best_is_highest_example :
    (is_found (best_score texts (candidate 1 "roads") 100 rules none)
      ≡ not (is_empty (matching texts (candidate 1 "roads") 100 rules)))
    × All
        (λ r.
          (score_candidate texts r (candidate 1 "roads") 100).total_score
          ≤ total_of (best_score texts (candidate 1 "roads") 100 rules none))
        (matching texts (candidate 1 "roads") 100 rules)
best_is_highest_example = best_is_highest texts (candidate 1 "roads") 100 rules

abbrev old_rows : List ScoreRow
old_rows =
    record {
      process_id = 2;
      tenant_id = 7;
      profile_version = 1;
      score = score_candidate texts (rule "Works" []) (candidate 2 "bridges") 50;
      computed_at = 10;
    }
    ∷ []

abbrev recomputed : List ScoreRow
recomputed =
    (score_opportunities texts run (candidate 1 "roads" ∷ candidate 2 "bridges" ∷ []) old_rows).1

written_processes : map (λ r. r.process_id) recomputed ≡ 1 ∷ []
unfolding score_opportunities
written_processes = refl

recompute_leaves_fresh_example : All (OfOtherOrFresh run) recomputed
recompute_leaves_fresh_example =
    recompute_leaves_fresh texts run (candidate 1 "roads" ∷ candidate 2 "bridges" ∷ []) old_rows
      refl
