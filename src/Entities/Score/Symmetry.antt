-- ===== src/Entities/Score/Symmetry.antt =====
-- services/entity_resolution/candidates.py: the score of a pair does not depend on which side is
-- which.
use procintel.Common.{
  ◌≡◌, refl, Bool, true, false, not, Option, none, some, String, List, [], ◌∷◌, ◌||◌, str_eq,
  eq_iff, any_of, Bool-cases, inl, inr, arith, sym, ap, ◌∙◌,
}
use procintel.Common.Table.{select_where}
use procintel.Alerts.Matching.{is_empty}
use procintel.Entities.Score.{
  PairRow, contains, intersection, values, both_match, without_spaces, conflicting, shares_any,
  weighted_sum, candidate_score,
}

module _ {ℓ} {A : Type ℓ} where
  any_of-false : (xs : List A) → any_of (λ x. false) xs ≡ false
  any_of-false [] = refl
  any_of-false (x ∷ xs) = any_of-false xs

  any_of-or :
      (p q : A → Bool) (xs : List A) → any_of (λ x. p x || q x) xs ≡ (any_of p xs || any_of q xs)
  any_of-or p q [] = refl
  any_of-or p q (x ∷ xs) = ground (arith, any_of-or p q xs)

  any_of-swap :
      (r : A → A → Bool) (xs ys : List A)
      → any_of (λ x. any_of (r x) ys) xs ≡ any_of (λ y. any_of (λ x. r x y) xs) ys
  any_of-swap r [] ys = sym (any_of-false ys)
  any_of-swap r (x ∷ xs) ys =
      ap (λ b. any_of (r x) ys || b) (any_of-swap r xs ys)
      ∙ sym (any_of-or (r x) (λ y. any_of (λ z. r z y) xs) ys)

str_eq_comm : (s t : String) → str_eq s t ≡ str_eq t s
str_eq_comm s t = both_ways (str_eq s t) (str_eq t s) (turned s t) (turned t s)
  where
    turned : (u v : String) → str_eq u v ≡ true → str_eq v u ≡ true
    turned u v h = (eq_iff v u).1 (sym ((eq_iff u v).0 h))

    both_ways : (a b : Bool) → (a ≡ true → b ≡ true) → (b ≡ true → a ≡ true) → a ≡ b
    both_ways a b h k = ground arith

any_of-ext {ℓ} :
    {A : Type ℓ} (p q : A → Bool) (xs : List A) → ((x : A) → p x ≡ q x) → any_of p xs ≡ any_of q xs
any_of-ext p q [] same = refl
any_of-ext p q (x ∷ xs) same = ground (arith, same x, any_of-ext p q xs same)

-- The two lists have a text in common.
abbrev common : List String → List String → Bool
common xs ys = any_of (λ s. contains s ys) xs

common_comm : (xs ys : List String) → common xs ys ≡ common ys xs
common_comm xs ys =
    any_of-swap (λ s t. str_eq t s) xs ys
    ∙ any_of-ext (λ t. any_of (λ s. str_eq t s) xs) (λ t. contains t xs) ys
        (λ t. any_of-ext (str_eq t) (λ s. str_eq s t) xs (str_eq_comm t))

is_empty-intersection : (xs ys : List String) → is_empty (intersection xs ys) ≡ not (common xs ys)
unfolding select_where
is_empty-intersection [] ys = refl
is_empty-intersection (x ∷ xs) ys = elim (Bool-cases (contains x ys)) [
  | inl e ↦ rw e refl
  | inr e ↦ rw e (is_empty-intersection xs ys)
]

conflicting_comm : (xs ys : List String) → conflicting xs ys ≡ conflicting ys xs
unfolding conflicting
conflicting_comm xs ys =
    rw (is_empty-intersection xs ys, is_empty-intersection ys xs, common_comm xs ys) (ground arith)

shares_any_comm : (xs ys : List String) → shares_any xs ys ≡ shares_any ys xs
unfolding shares_any
shares_any_comm xs ys =
    rw (is_empty-intersection xs ys, is_empty-intersection ys xs, common_comm xs ys) refl

both_match_comm : (f : String → String) (s t : Option String) → both_match f s t ≡ both_match f t s
unfolding both_match
both_match_comm f none none = refl
both_match_comm f none (some t) = refl
both_match_comm f (some s) none = refl
both_match_comm f (some s) (some t) = ground (arith, str_eq_comm (f s) (f t))

-- The same pair, its sides exchanged.
abbrev pub swapped : PairRow → PairRow
swapped row = record row { a = row.b; b = row.a }

-- The score of a pair is the same when its two sides are exchanged, however texts are folded.
pub candidate_score-swapped :
    (casefold : String → String) (row : PairRow)
    → candidate_score casefold (swapped row) ≡ candidate_score casefold row
unfolding candidate_score weighted_sum
candidate_score-swapped casefold row =
    rw
      (
        both_match_comm casefold row.b.municipality row.a.municipality,
        both_match_comm without_spaces row.b.postal row.a.postal,
        shares_any_comm (values row.b.domains) (values row.a.domains),
        shares_any_comm (values row.b.phones) (values row.a.phones),
        shares_any_comm (values row.b.emails) (values row.a.emails),
        conflicting_comm (values row.b.afms) (values row.a.afms),
      )
      refl
