-- ===== src/Alerts/Rules/Modes.antt =====
-- services/alerts/evaluate.py: the modes of matching CPV codes and keywords in `rule_matches`.
use procintel.Common.{◌≡◌, Bool, true, ◌&&◌, not, arith, any_of, all_of}
use procintel.Alerts.Matching.{
  Texts, Filters, Context, TaxonomyMode, mode_allows, rule_matches, is_empty, any_prefix,
  keyword_in, exclusions_allow, nuts_allow, municipality_allows, ids_allow, amounts_allow,
}

abbrev pub with_mode : TaxonomyMode → Bool → Filters → Filters
with_mode mode match_any filters = record filters {
  taxonomy_match_mode = mode;
  taxonomy_match_any = match_any;
}

mode_order :
    (a b c k p i q : Bool)
    → mode_allows TaxonomyMode.cpv_and_keyword a c k p i q ≡ true
    → (mode_allows TaxonomyMode.keyword_required b c k p i q ≡ true)
      × (mode_allows TaxonomyMode.unset true c k p i q ≡ true)
unfolding mode_allows
mode_order a b c k p i q h = ground arith

replace_middle :
    (e n m t t' i u : Bool)
    → (t ≡ true → t' ≡ true)
    → (e && (n && (m && (t && (i && u))))) ≡ true
    → (e && (n && (m && (t' && (i && u))))) ≡ true
replace_middle e n m t t' i u step h = ground arith

-- What a rule matches in the mode CPV_AND_KEYWORD it also matches in the mode KEYWORD_REQUIRED, and
-- with taxonomy_match_any in no mode, the other filters being the same.
pub modes_are_ordered :
    (texts : Texts) (a b : Bool) (filters : Filters) (context : Context)
    → rule_matches texts (with_mode TaxonomyMode.cpv_and_keyword a filters) context ≡ true
    → (rule_matches texts (with_mode TaxonomyMode.keyword_required b filters) context ≡ true)
      × (rule_matches texts (with_mode TaxonomyMode.unset true filters) context ≡ true)
unfolding rule_matches
modes_are_ordered texts a b filters context h =
    let c : Bool = not (is_empty filters.cpv_prefixes) in
    let k : Bool = not (is_empty filters.keywords) in
    let p : Bool = any_prefix context.cpv_codes filters.cpv_prefixes in
    let i : Bool = any_of (keyword_in texts context.title) filters.keywords in
    let q : Bool = all_of (keyword_in texts context.title) filters.keywords in
    let widen : (t' : Bool)
        → (mode_allows TaxonomyMode.cpv_and_keyword a c k p i q ≡ true → t' ≡ true)
        → _ =
      λ t' step.
        replace_middle (exclusions_allow texts filters context) (nuts_allow texts filters context)
          (municipality_allows texts filters context)
          (mode_allows TaxonomyMode.cpv_and_keyword a c k p i q) t' (ids_allow filters context)
          (amounts_allow filters context) step h in
    (
      widen (mode_allows TaxonomyMode.keyword_required b c k p i q)
          (λ ok. (mode_order a b c k p i q ok).0),
      widen (mode_allows TaxonomyMode.unset true c k p i q) (λ ok. (mode_order a b c k p i q ok).1),
    )
