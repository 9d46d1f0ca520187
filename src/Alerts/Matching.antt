-- ===== src/Alerts/Matching.antt =====
-- services/alerts/evaluate.py: `rule_matches`.
use procintel.Common.{
  ℕ, Bool, true, false, not, Option, none, some, String, List, [], ◌∷◌, ◌&&◌, ◌||◌, str_eq,
  if◌then◌else◌, any_of, all_of,
}
use procintel.Common.Int.{ℤ, ltb_ℤ}
use text.Mathlib.Text.{starts_with}

-- `_normalize_text` (Unicode decomposition), `lexical_query_matches` of
-- services/search_index/lexical.py, `str.upper`, and the SHA-256 of a payload.
pub record Texts : Type 0 where
  pub normalize : String → String
  pub lexical_query_matches : String → String → Bool
  pub upper : String → String
  pub hash : String → String

-- taxonomy_match_mode, in capitals; every other text is `unset`.
pub data TaxonomyMode : Type 0 where
  keyword_required cpv_and_keyword unset : TaxonomyMode

-- The filters of a rule. A list holds what the code joins from the singular and the plural key of
-- the JSON object, the excluded ones without blank entries; a text that is missing is empty.
pub record Filters : Type 0 where
  pub excluded_cpv_prefixes : List String
  pub excluded_keywords : List String
  pub cpv_prefixes : List String
  pub keywords : List String
  pub nuts_codes : List String
  pub municipality : String
  pub taxonomy_match_mode : TaxonomyMode
  pub taxonomy_match_any : Bool
  pub buyer_id : String
  pub supplier_id : String
  pub amount_min : Option ℤ
  pub amount_max : Option ℤ

-- What is known of the object; the amounts are in hundredths.
pub record Context : Type 0 where
  pub title : String
  pub cpv_codes : List String
  pub nuts_codes : List String
  pub location_names : List String
  pub buyer_id : Option String
  pub supplier_id : Option String
  pub amount_gross : Option ℤ
  pub act_count : ℕ

-- `bool(xs)`
abbrev pub is_empty {ℓ} : {A : Type ℓ} → List A → Bool
is_empty [] = true
is_empty (x ∷ xs) = false

abbrev pub any_prefix : List String → List String → Bool
any_prefix codes prefixes = any_of (λ code. any_of (starts_with code) prefixes) codes

abbrev pub same_id : String → Option String → Bool
same_id wanted none = false
same_id wanted (some id) = str_eq wanted id

-- `if wanted and wanted != found: return False`
abbrev pub id_matches : String → Option String → Bool
id_matches wanted found = str_eq wanted "" || same_id wanted found

abbrev pub at_least : Option ℤ → Option ℤ → Bool
at_least none amount = true
at_least (some low) none = false
at_least (some low) (some amount) = not (ltb_ℤ amount low)

abbrev pub at_most : Option ℤ → Option ℤ → Bool
at_most none amount = true
at_most (some high) none = false
at_most (some high) (some amount) = not (ltb_ℤ high amount)

abbrev pub ids_allow : Filters → Context → Bool
ids_allow filters context =
    id_matches filters.buyer_id context.buyer_id
    && id_matches filters.supplier_id context.supplier_id

abbrev pub amounts_allow : Filters → Context → Bool
amounts_allow filters context =
    at_least filters.amount_min context.amount_gross
    && at_most filters.amount_max context.amount_gross

-- The part of `rule_matches` on CPV codes and keywords, from what it has found: whether there are
-- prefixes and keywords, whether a code has a prefix, whether any keyword and every keyword is in
-- the title.
unfoldable pub mode_allows : TaxonomyMode → Bool → Bool → Bool → Bool → Bool → Bool → Bool
mode_allows TaxonomyMode.keyword_required match_any cpvs keys cpv_matches any_key all_keys =
    not (keys && not any_key) && not (not keys && (cpvs && not cpv_matches))
mode_allows TaxonomyMode.cpv_and_keyword match_any cpvs keys cpv_matches any_key all_keys =
    not (cpvs && not cpv_matches) && not (keys && not any_key)
mode_allows TaxonomyMode.unset match_any cpvs keys cpv_matches any_key all_keys =
    if match_any
    then not ((cpvs || keys) && not (cpv_matches || any_key))
    else not (cpvs && not cpv_matches) && not (keys && not all_keys)

module _ (texts : Texts) where
  open texts use {normalize, lexical_query_matches, upper, hash}

  -- `_keyword_matches` of the normalized keyword and title
  abbrev pub keyword_in : String → String → Bool
  keyword_in title keyword = lexical_query_matches (normalize keyword) (normalize title)

  abbrev pub exclusions_allow : Filters → Context → Bool
  exclusions_allow filters context =
      not (any_prefix context.cpv_codes filters.excluded_cpv_prefixes)
      && not (any_of (keyword_in context.title) filters.excluded_keywords)

  abbrev pub nuts_allow : Filters → Context → Bool
  nuts_allow filters context =
      is_empty filters.nuts_codes
      || any_of
          (λ code. any_of (λ prefix. starts_with (upper code) (upper prefix)) filters.nuts_codes)
          context.nuts_codes

  abbrev pub municipality_allows : Filters → Context → Bool
  municipality_allows filters context =
      str_eq filters.municipality ""
      || any_of (lexical_query_matches filters.municipality) context.location_names

  abbrev pub taxonomy_allows : Filters → Context → Bool
  taxonomy_allows filters context =
      mode_allows filters.taxonomy_match_mode filters.taxonomy_match_any
        (not (is_empty filters.cpv_prefixes)) (not (is_empty filters.keywords))
        (any_prefix context.cpv_codes filters.cpv_prefixes)
        (any_of (keyword_in context.title) filters.keywords)
        (all_of (keyword_in context.title) filters.keywords)

  -- `rule_matches`: each early return is a conjunct.
  unfoldable pub rule_matches : Filters → Context → Bool
  unfolding mode_allows
  rule_matches filters context =
      exclusions_allow filters context
      && (nuts_allow filters context
          && (municipality_allows filters context
              && (taxonomy_allows filters context
                  && (ids_allow filters context && amounts_allow filters context))))
