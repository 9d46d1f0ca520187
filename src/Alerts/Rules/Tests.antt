-- ===== src/Alerts/Rules/Tests.antt =====
-- services/alerts/evaluate.py on one rule and one notice.
use procintel.Common.{ℕ, ◌+◌, ◌≤◌, ◌≡◌, refl, true, false, List, [], ◌∷◌, some, none, map, str_eq}
use procintel.Common.Int.{pos}
use procintel.Alerts.Matching.{Texts, Filters, Context, TaxonomyMode, rule_matches}
use procintel.Alerts.Rules.{Rule, EventKey, Occurrence, Delivered, Answer, World}
use procintel.Alerts.Rules.Modes.{with_mode}
use procintel.Alerts.Rules.Firing.{report_all, delivered_at_most_once}
use procintel.Alerts.Rules.Calls.{times_delivered}

abbrev texts : Texts
texts = record {
  normalize = λ s. s;
  lexical_query_matches = λ keyword title. str_eq keyword title;
  upper = λ s. s;
  hash = λ s. s;
}

abbrev filters : Filters
filters = record {
  excluded_cpv_prefixes = "90" ∷ [];
  excluded_keywords = [];
  cpv_prefixes = "4523" ∷ [];
  keywords = "roads" ∷ "bridges" ∷ [];
  nuts_codes = "EL3" ∷ [];
  municipality = "";
  taxonomy_match_mode = TaxonomyMode.unset;
  taxonomy_match_any = true;
  buyer_id = "";
  supplier_id = "";
  amount_min = some (pos 1_000);
  amount_max = none;
}

abbrev context : Context
context = record {
  title = "roads";
  cpv_codes = "45233120-6" ∷ [];
  nuts_codes = "EL303" ∷ [];
  location_names = [];
  buyer_id = some "b";
  supplier_id = none;
  amount_gross = some (pos 2_500);
  act_count = 1;
}

strict_match :
    rule_matches texts (with_mode TaxonomyMode.cpv_and_keyword false filters) context ≡ true
unfolding rule_matches
strict_match = refl

abbrev rules : List Rule
rules =
    record {
      id = 1;
      tenant_id = 7;
      event_types = "opportunity.created" ∷ [];
      filters = filters;
      is_immediate = true;
      is_active = true;
      last_evaluated_at = none;
    }
    ∷ []

abbrev notice : ℕ × Occurrence
notice = (
  100,
  record {
    event_type = "opportunity.created";
    canonical_object_type = "procurement_acts";
    canonical_object_id = 4;
    context = context;
    change_payload = "created";
  },
)

-- The first call raises, the later ones do not.
abbrev channel : List Delivered → Delivered → Answer
channel [] d = record { commits = false; raises = true }
channel (e ∷ earlier) d = record { commits = false; raises = false }

abbrev start : World
start = record {
  rules = rules;
  events = [];
  saved_rules = rules;
  saved_events = [];
  delivered = [];
}

abbrev reports : List (List (ℕ × Occurrence))
reports = (notice ∷ []) ∷ (notice ∷ []) ∷ (notice ∷ []) ∷ []

-- The event of the first report is rolled back, so the second calls the channel again.
called_twice :
    ((report_all texts (λ key. 0) channel reports start).0 ≡ 1)
    × (map (λ d. d.tenant_id) (report_all texts (λ key. 0) channel reports start).1.delivered
        ≡ 7 ∷ 7 ∷ [])
unfolding report_all
called_twice = (refl, refl)

abbrev key : EventKey
key = record {
  alert_rule_id = 1;
  canonical_object_id = 4;
  event_type = "opportunity.created";
  material_change_hash = "created";
}

delivered_at_most_once_example :
    times_delivered key (report_all texts (λ key. 0) channel reports start).1.delivered
    ≤ 1 + (report_all texts (λ key. 0) channel reports start).0
delivered_at_most_once_example = delivered_at_most_once texts (λ key. 0) channel reports rules key
