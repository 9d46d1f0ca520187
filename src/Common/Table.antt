-- ===== src/Common/Table.antt =====
-- A database table as the list of its rows, and the statements that the services issue:
-- SELECT with WHERE, ORDER BY and LIMIT, and UPDATE with WHERE.
use Prim.Native.Nat.{ℕ, zero, suc, ◌+◌}
use mathlib.Core.Path.{◌≡◌, refl, ap, ap₂, ◌∙◌}
use mathlib.Core.Bool.{Bool, true, false, ◌&&◌, ◌||◌}
use mathlib.Core.List.{List, [], ◌∷◌, ◌++◌, map}
use native.Mathlib.Omega.{arith}
use procintel.Common.Tests.{ltb, ◌==◌, if◌then◌else◌, Bool-cases}
use procintel.Common.Lists.{length, take, drop, All, All-map, All-drop, any_of}
use mathlib.Core.Logic.{inl, inr}

module _ {ℓ} {Row : Type ℓ} where
  unfoldable pub select_where : (Row → Bool) → List Row → List Row
  select_where p [] = []
  select_where p (r ∷ rows) = if p r then r ∷ select_where p rows else select_where p rows

  unfoldable pub update_where : (Row → Bool) → (Row → Row) → List Row → List Row
  update_where p f [] = []
  update_where p f (r ∷ rows) = (if p r then f r else r) ∷ update_where p f rows

  -- The number of rows that an UPDATE touches, `result.rowcount`.
  unfoldable pub count_where : (Row → Bool) → List Row → ℕ
  count_where p [] = 0
  count_where p (r ∷ rows) = if p r then suc (count_where p rows) else count_where p rows

  -- ORDER BY, as an insertion sort that is stable.
  unfoldable pub insert_by : (Row → Row → Bool) → Row → List Row → List Row
  insert_by le r [] = r ∷ []
  insert_by le r (s ∷ rows) = if le r s then r ∷ s ∷ rows else s ∷ insert_by le r rows

  unfoldable pub order_by : (Row → Row → Bool) → List Row → List Row
  unfolding insert_by
  order_by le [] = []
  order_by le (r ∷ rows) = insert_by le r (order_by le rows)

  -- Every row comes before each later one.
  abbrev pub IsSorted : (Row → Row → Bool) → List Row → Type 0
  IsSorted le [] = Unit
  IsSorted le (r ∷ rows) = All (λ s. le r s ≡ true) rows × IsSorted le rows

-- A comparison by one key of ORDER BY, and by the later keys where that one ties.
unfoldable pub lex : ℕ → ℕ → Bool → Bool
lex a b rest = ltb a b || (a == b && rest)

pub lex_trans :
    (a b c : ℕ) (r s t : Bool)
    → (r ≡ true → s ≡ true → t ≡ true)
    → lex a b r ≡ true
    → lex b c s ≡ true
    → lex a c t ≡ true
unfolding lex
lex_trans a b c r s t step h k = ground arith

pub lex_total :
    (a b : ℕ) (r s : Bool) → (r ≡ false → s ≡ true) → lex a b r ≡ false → lex b a s ≡ true
unfolding lex
lex_total a b r s step h = ground arith

module _ {ℓ κ} {Row : Type ℓ} (P : Row → Type κ) where
  pub All-update_where :
      (p : Row → Bool) (f : Row → Row) (rows : List Row)
      → ((r : Row) → p r ≡ true → P r → P (f r))
      → All P rows
      → All P (update_where p f rows)
  unfolding update_where
  All-update_where p f [] keep h = tt
  All-update_where p f (r ∷ rows) keep h = elim (Bool-cases (p r)) [
    | inl hit ↦ rw hit (keep r hit h.0, All-update_where p f rows keep h.1)
    | inr miss ↦ rw miss (h.0, All-update_where p f rows keep h.1)
  ]

  -- The same, where the update makes `P` hold and the other rows have it already.
  pub All-updated :
      (p : Row → Bool) (f : Row → Row) (rows : List Row)
      → ((r : Row) → p r ≡ true → P (f r))
      → ((r : Row) → p r ≡ false → P r)
      → All P (update_where p f rows)
  unfolding update_where
  All-updated p f [] made had = tt
  All-updated p f (r ∷ rows) made had = elim (Bool-cases (p r)) [
    | inl hit ↦ rw hit (made r hit, All-updated p f rows made had)
    | inr miss ↦ rw miss (had r miss, All-updated p f rows made had)
  ]

  pub All-insert_by :
      (le : Row → Row → Bool) (r : Row) (rows : List Row)
      → P r
      → All P rows
      → All P (insert_by le r rows)
  unfolding insert_by
  All-insert_by le r [] pr h = (pr, tt)
  All-insert_by le r (s ∷ rows) pr h = elim (Bool-cases (le r s)) [
    | inl hit ↦ rw hit (pr, h)
    | inr miss ↦ rw miss (h.0, All-insert_by le r rows pr h.1)
  ]

  pub All-order_by :
      (le : Row → Row → Bool) (rows : List Row) → All P rows → All P (order_by le rows)
  unfolding order_by
  All-order_by le [] h = tt
  All-order_by le (r ∷ rows) h =
      All-insert_by le r (order_by le rows) h.0 (All-order_by le rows h.1)

module _ {ℓ} {Row : Type ℓ} where
  pub length-update_where :
      (p : Row → Bool) (f : Row → Row) (rows : List Row)
      → length (update_where p f rows) ≡ length rows
  unfolding update_where
  length-update_where p f [] = refl
  length-update_where p f (r ∷ rows) = omega (arith, length-update_where p f rows)

  pub length-insert_by :
      (le : Row → Row → Bool) (r : Row) (rows : List Row)
      → length (insert_by le r rows) ≡ suc (length rows)
  unfolding insert_by
  length-insert_by le r [] = refl
  length-insert_by le r (s ∷ rows) = ground (arith, length-insert_by le r rows)

  pub length-order_by :
      (le : Row → Row → Bool) (rows : List Row) → length (order_by le rows) ≡ length rows
  unfolding order_by
  length-order_by le [] = refl
  length-order_by le (r ∷ rows) =
      ground (arith, length-insert_by le r (order_by le rows), length-order_by le rows)

module _ {ℓ κ μ} {Row : Type ℓ} (P : Row → Type κ) (Q : Row → Type μ) where
  pub All-select_where :
      (p : Row → Bool) (rows : List Row)
      → ((r : Row) → p r ≡ true → P r → Q r)
      → All P rows
      → All Q (select_where p rows)
  unfolding select_where
  All-select_where p [] keep h = tt
  All-select_where p (r ∷ rows) keep h = elim (Bool-cases (p r)) [
    | inl hit ↦ rw hit (keep r hit h.0, All-select_where p rows keep h.1)
    | inr miss ↦ rw miss (All-select_where p rows keep h.1)
  ]

module _ {ℓ κ μ} {Row : Type ℓ} (P : Row → Type κ) (Q : Row → Type μ) where
  pub All-update_to :
      (p : Row → Bool) (f : Row → Row) (rows : List Row)
      → ((r : Row) → p r ≡ true → P r → Q (f r))
      → ((r : Row) → p r ≡ false → P r → Q r)
      → All P rows
      → All Q (update_where p f rows)
  unfolding update_where
  All-update_to p f [] made had h = tt
  All-update_to p f (r ∷ rows) made had h = elim (Bool-cases (p r)) [
    | inl hit ↦ rw hit (made r hit h.0, All-update_to p f rows made had h.1)
    | inr miss ↦ rw miss (had r miss h.0, All-update_to p f rows made had h.1)
  ]

module _ {ℓ} {Row : Type ℓ} where
  pub any_of-update_where :
      (q p : Row → Bool) (f : Row → Row) (rows : List Row)
      → ((r : Row) → q (f r) ≡ q r)
      → any_of q (update_where p f rows) ≡ any_of q rows
  unfolding update_where
  any_of-update_where q p f [] same = refl
  any_of-update_where q p f (r ∷ rows) same = elim (Bool-cases (p r)) [
    | inl hit ↦ rw hit (ap₂ ◌||◌ (same r) (any_of-update_where q p f rows same))
    | inr miss ↦ rw miss (ap (◌||◌ (q r)) (any_of-update_where q p f rows same))
  ]

  pub All-true : (rows : List Row) → All (λ r. Unit {0}) rows
  All-true [] = tt
  All-true (r ∷ rows) = (tt, All-true rows)

  pub map-update_where {κ} :
      {A : Type κ} (g : Row → A) (p : Row → Bool) (f : Row → Row) (rows : List Row)
      → ((r : Row) → g (f r) ≡ g r)
      → map g (update_where p f rows) ≡ map g rows
  unfolding update_where
  map-update_where g p f [] same = refl
  map-update_where g p f (r ∷ rows) same = elim (Bool-cases (p r)) [
    | inl hit ↦ rw hit (ap₂ ◌∷◌ (same r) (map-update_where g p f rows same))
    | inr miss ↦ rw miss (ap (◌∷◌ (g r)) (map-update_where g p f rows same))
  ]

-- A total and transitive comparison sorts.
module _ {ℓ} {Row : Type ℓ} (le : Row → Row → Bool)
    (trans : (a b c : Row) → le a b ≡ true → le b c ≡ true → le a c ≡ true)
    (total : (a b : Row) → le a b ≡ false → le b a ≡ true) where
  insert_by-IsSorted :
      (r : Row) (rows : List Row) → IsSorted le rows → IsSorted le (insert_by le r rows)
  unfolding insert_by
  insert_by-IsSorted r [] h = (tt, tt)
  insert_by-IsSorted r (s ∷ rows) h = elim (Bool-cases (le r s)) [
    | inl hit ↦ rw hit (
      (hit, All-map (λ t. le s t ≡ true) (λ t. le r t ≡ true) rows (λ t. trans r s t hit) h.0),
      h,
    )
    | inr miss ↦ rw miss (
      All-insert_by (λ t. le s t ≡ true) le r rows (total r s miss) h.0,
      insert_by-IsSorted r rows h.1,
    )
  ]

  pub order_by-IsSorted : (rows : List Row) → IsSorted le (order_by le rows)
  unfolding order_by
  order_by-IsSorted [] = tt
  order_by-IsSorted (r ∷ rows) = insert_by-IsSorted r (order_by le rows) (order_by-IsSorted rows)

  -- What LIMIT keeps comes before what it drops.
  pub take-before-drop :
      (n : ℕ) (rows : List Row)
      → IsSorted le rows
      → All (λ a. All (λ b. le a b ≡ true) (drop n rows)) (take n rows)
  take-before-drop zero rows h = tt
  take-before-drop (suc n) [] h = tt
  take-before-drop (suc n) (r ∷ rows) h =
      (All-drop (λ b. le r b ≡ true) n rows h.0, take-before-drop n rows h.1)

module _ {ℓ} {Row : Type ℓ} where
  pub count_where-append :
      (p : Row → Bool) (xs ys : List Row)
      → count_where p (xs ++ ys) ≡ count_where p xs + count_where p ys
  unfolding count_where
  count_where-append p [] ys = omega arith
  count_where-append p (x ∷ xs) ys = ground (arith, count_where-append p xs ys)

  count_where-insert_by :
      (p : Row → Bool) (le : Row → Row → Bool) (r : Row) (rows : List Row)
      → count_where p (insert_by le r rows) ≡ count_where p (r ∷ rows)
  unfolding count_where insert_by
  count_where-insert_by p le r [] = refl
  count_where-insert_by p le r (s ∷ rows) = ground (arith, count_where-insert_by p le r rows)

  count_where-cons :
      (p : Row → Bool) (r : Row) (xs ys : List Row)
      → count_where p xs ≡ count_where p ys
      → count_where p (r ∷ xs) ≡ count_where p (r ∷ ys)
  unfolding count_where
  count_where-cons p r xs ys e = ground arith

  pub count_where-order_by :
      (p : Row → Bool) (le : Row → Row → Bool) (rows : List Row)
      → count_where p (order_by le rows) ≡ count_where p rows
  unfolding order_by
  count_where-order_by p le [] = refl
  count_where-order_by p le (r ∷ rows) =
      count_where-insert_by p le r (order_by le rows)
      ∙ count_where-cons p r (order_by le rows) rows (count_where-order_by p le rows)

  -- A selection loses no row that a narrower condition counts.
  pub count_where-select_where :
      (p q : Row → Bool) (rows : List Row)
      → ((r : Row) → p r ≡ true → q r ≡ true)
      → count_where p (select_where q rows) ≡ count_where p rows
  unfolding count_where select_where
  count_where-select_where p q [] narrow = refl
  count_where-select_where p q (r ∷ rows) narrow =
      ground (arith, narrow r, count_where-select_where p q rows narrow)

  pub length-select_where :
      (p : Row → Bool) (rows : List Row) → length (select_where p rows) ≡ count_where p rows
  unfolding count_where select_where
  length-select_where p [] = refl
  length-select_where p (r ∷ rows) = ground (arith, length-select_where p rows)
