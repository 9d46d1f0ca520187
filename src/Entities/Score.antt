-- ===== src/Entities/Score.antt =====
-- services/entity_resolution/candidates.py: `score_candidate`. A similarity is a number of
-- millionths, 0.7 is 700_000, and never negative, as `similarity()` of PostgreSQL is not; a score
-- is summed exactly and rounded to ten-thousandths.
pub mod Bounds
pub mod Symmetry
use procintel.Common.{
  ℕ, ◌+◌, ◌*◌, ◌/◌, ◌%◌, Bool, true, false, not, Option, none, some, String, List, [], ◌∷◌, ◌&&◌,
  ◌||◌, ltb, leb, ◌==◌, str_eq, if◌then◌else◌, any_of, min,
}
use procintel.Common.Table.{select_where, order_by}
use procintel.Alerts.Matching.{is_empty}
use Prim.Native.String.{compare, ◌∷◌ as text_cons, [] as text_nil}
use text.Mathlib.Text.{is_le}

abbrev pub one : ℕ
one = 1_000_000

-- A row of the query for one side of the pair.
pub record Side : Type 0 where
  pub afms : List String
  pub domains : List String
  pub phones : List String
  pub emails : List String
  pub municipality : Option String
  pub postal : Option String

pub record PairRow : Type 0 where
  pub a : Side
  pub b : Side
  pub temporal_compatibility : Bool
  pub name_similarity : Option ℕ
  pub address_similarity : Option ℕ
  pub source_reliability : Option ℕ

pub data SuggestedAction : Type 0 where
  reject_conflict review_high review : SuggestedAction

pub record Breakdown : Type 0 where
  pub name_similarity : ℕ
  pub address_similarity : ℕ
  pub municipality_match : Bool
  pub postal_code_match : Bool
  pub domain_match : Bool
  pub phone_match : Bool
  pub email_match : Bool
  pub temporal_compatibility : Bool
  pub source_reliability : ℕ
  pub identifier_conflict : Bool
  pub afm_a : List String
  pub afm_b : List String
  pub matching_domains : List String
  pub matching_phones : List String
  pub matching_emails : List String
  pub suggested_action : SuggestedAction

abbrev pub contains : String → List String → Bool
contains s = any_of (λ t. str_eq t s)

-- A set is a list with no text twice.
unfoldable pub distinct : List String → List String
distinct [] = []
distinct (s ∷ ss) = if contains s ss then distinct ss else s ∷ distinct ss

-- `_values`
unfoldable pub values : List String → List String
unfolding distinct select_where
values value = distinct (select_where (λ s. not (str_eq s "")) value)

abbrev pub intersection : List String → List String → List String
intersection xs ys = select_where (λ s. contains s ys) xs

abbrev pub sorted : List String → List String
sorted = order_by (λ s t. is_le (compare s t))

-- `str.replace(" ", "")`
unfoldable pub without_spaces : String → String
without_spaces text_nil = text_nil
without_spaces (text_cons c s) =
    let rest = without_spaces s in
    if str_eq (text_cons c text_nil) " " then rest else text_cons c rest

-- `a and b and f(a) == f(b)`: a text that is missing or empty is no match.
unfoldable pub both_match : (String → String) → Option String → Option String → Bool
both_match f (some s) (some t) = not (str_eq s "") && (not (str_eq t "") && str_eq (f s) (f t))
both_match f _ _ = false

-- `max(0.0, min(1.0, float(x or default)))`
unfoldable pub clamped : ℕ → Option ℕ → ℕ
clamped default none = min one default
clamped default (some x) = min one (if x == 0 then default else x)

abbrev pub weight_if : Bool → ℕ → ℕ
weight_if true weight = weight
weight_if false weight = 0

-- `round(x, 4)` of hundred-millionths, a tie to the even neighbour.
unfoldable pub round_4 : ℕ → ℕ
round_4 x =
    let whole = x / 10_000 in
    let rest = x % 10_000 in
    if ltb 5_000 rest || (rest == 5_000 && whole % 2 == 1) then whole + 1 else whole

-- `round(x, 4)` of a similarity.
abbrev pub rounded_similarity : ℕ → ℕ
rounded_similarity x = round_4 (x * 100)

-- `bool(a and b and a.isdisjoint(b))`
unfoldable pub conflicting : List String → List String → Bool
unfolding select_where
conflicting xs ys = not (is_empty xs) && (not (is_empty ys) && is_empty (intersection xs ys))

unfoldable pub shares_any : List String → List String → Bool
unfolding select_where
shares_any xs ys = not (is_empty (intersection xs ys))

-- The sum of the weights, in hundred-millionths; `casefold` is that of Unicode.
unfoldable pub weighted_sum : (String → String) → PairRow → ℕ
unfolding values both_match without_spaces clamped shares_any
weighted_sum casefold row =
    clamped 0 row.name_similarity * 40
    + clamped 0 row.address_similarity * 15
    + weight_if (both_match casefold row.a.municipality row.b.municipality) 6_000_000
    + weight_if (both_match without_spaces row.a.postal row.b.postal) 6_000_000
    + weight_if (shares_any (values row.a.domains) (values row.b.domains)) 12_000_000
    + weight_if (shares_any (values row.a.phones) (values row.b.phones)) 10_000_000
    + weight_if (shares_any (values row.a.emails) (values row.b.emails)) 5_000_000
    + weight_if row.temporal_compatibility 3_000_000
    + clamped 700_000 row.source_reliability * 3

-- `score`, in ten-thousandths.
unfoldable pub candidate_score : (String → String) → PairRow → ℕ
unfolding weighted_sum conflicting values round_4
candidate_score casefold row =
    let total = weighted_sum casefold row in
    let capped =
      if conflicting (values row.a.afms) (values row.b.afms) then min total 69_000_000 else total in
    round_4 (min capped 100_000_000)

-- `score_candidate`
unfoldable pub score_candidate : (String → String) → PairRow → ℕ × Breakdown
unfolding candidate_score conflicting shares_any values both_match without_spaces clamped order_by
    select_where round_4
score_candidate casefold row =
    let score = candidate_score casefold row in
    let identifier_conflict = conflicting (values row.a.afms) (values row.b.afms) in
    (
      score,
      record {
        name_similarity = rounded_similarity (clamped 0 row.name_similarity);
        address_similarity = rounded_similarity (clamped 0 row.address_similarity);
        municipality_match = both_match casefold row.a.municipality row.b.municipality;
        postal_code_match = both_match without_spaces row.a.postal row.b.postal;
        domain_match = shares_any (values row.a.domains) (values row.b.domains);
        phone_match = shares_any (values row.a.phones) (values row.b.phones);
        email_match = shares_any (values row.a.emails) (values row.b.emails);
        temporal_compatibility = row.temporal_compatibility;
        source_reliability = rounded_similarity (clamped 700_000 row.source_reliability);
        identifier_conflict = identifier_conflict;
        afm_a = sorted (values row.a.afms);
        afm_b = sorted (values row.b.afms);
        matching_domains = sorted (intersection (values row.a.domains) (values row.b.domains));
        matching_phones = sorted (intersection (values row.a.phones) (values row.b.phones));
        matching_emails = sorted (intersection (values row.a.emails) (values row.b.emails));
        suggested_action =
            if identifier_conflict
            then reject_conflict
            else if leb 8_500 score
            then review_high
            else review;
      },
    )
