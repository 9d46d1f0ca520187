-- ===== src/Common/PrimaryKey.antt =====
-- Rows addressed by a primary key: `WHERE id IN (SELECT id … ORDER BY … LIMIT …)` meets only rows
-- that the subquery has selected.
use Prim.Native.Nat.{ℕ, zero, suc}
use mathlib.Core.Path.{◌≡◌, refl, sym, ◌∙◌}
use mathlib.Core.Logic.{inl, inr}
use mathlib.Core.Bool.{Bool, true, false, ◌||◌}
use mathlib.Core.List.{List, [], ◌∷◌, map}
use native.Mathlib.Omega.{arith}
use procintel.Common.Tests.{◌==◌, Bool-cases}
use procintel.Common.Lists.{All, any_of, take, All-map, All-both, All-from_map}
use procintel.Common.Table.{select_where, insert_by, order_by}

-- No number stands twice in the list.
abbrev pub IsNodup : List ℕ → Type 0
IsNodup [] = Unit
IsNodup (n ∷ ns) = All (λ m. (n == m) ≡ false) ns × IsNodup ns

module _ {ℓ} {Row : Type ℓ} where
  pub any_of-take :
      (q : Row → Bool) (n : ℕ) (rows : List Row)
      → any_of q (take n rows) ≡ true
      → any_of q rows ≡ true
  any_of-take q zero rows h = cc
  any_of-take q (suc n) [] h = h
  any_of-take q (suc n) (r ∷ rows) h = ground (arith, any_of-take q n rows)

  any_of-insert_by :
      (q : Row → Bool) (le : Row → Row → Bool) (r : Row) (rows : List Row)
      → any_of q (insert_by le r rows) ≡ (q r || any_of q rows)
  unfolding insert_by
  any_of-insert_by q le r [] = refl
  any_of-insert_by q le r (s ∷ rows) = ground (arith, any_of-insert_by q le r rows)

  pub any_of-order_by :
      (q : Row → Bool) (le : Row → Row → Bool) (rows : List Row)
      → any_of q (order_by le rows) ≡ any_of q rows
  unfolding order_by
  any_of-order_by q le [] = refl
  any_of-order_by q le (r ∷ rows) =
      ground (arith, any_of-insert_by q le r (order_by le rows), any_of-order_by q le rows)

module _ {ℓ} {Row : Type ℓ} (id : Row → ℕ) where
  abbrev pub id_in : List Row → Row → Bool
  id_in chosen row = any_of (λ c. id c == id row) chosen

  absent :
      (p : Row → Bool) (r : Row) (rows : List Row)
      → All (λ m. (id r == m) ≡ false) (map id rows)
      → id_in (select_where p rows) r ≡ false
  unfolding select_where
  absent p r [] h = refl
  absent p r (s ∷ rows) h = ground (arith, absent p r rows h.1)

  -- What the selection of the other rows says of a row.
  abbrev Picks : (Row → Bool) → List Row → Row → Type 0
  Picks p rows r = id_in (select_where p rows) r ≡ true → p r ≡ true

  Picks-self :
      (p : Row → Bool) (r : Row) (rows : List Row)
      → All (λ m. (id r == m) ≡ false) (map id rows)
      → Picks p (r ∷ rows) r
  unfolding select_where
  Picks-self p r rows h among = elim (Bool-cases (p r)) [
    | inl hit ↦ hit
    | inr miss ↦ cc (absent p r rows h, (rw miss at among))
  ]

  Picks-other :
      (p : Row → Bool) (r s : Row) (rows : List Row)
      → (id r == id s) ≡ false
      → Picks p rows s
      → Picks p (r ∷ rows) s
  unfolding select_where
  Picks-other p r s rows other h among = ground arith

  -- With distinct keys, a row whose key is among the selected ones satisfies the selection.
  pub selected :
      (p : Row → Bool) (rows : List Row) → IsNodup (map id rows) → All (Picks p rows) rows
  selected p [] h = tt
  selected p (r ∷ rows) h = (
    Picks-self p r rows h.0,
    All-both (λ s. (id r == id s) ≡ false) (Picks p rows) (Picks p (r ∷ rows)) rows
        (λ s other picked. Picks-other p r s rows other picked)
        (All-from_map (λ m. (id r == m) ≡ false) id rows h.0) (selected p rows h.1),
  )

  -- The same behind ORDER BY and LIMIT.
  pub selected_first :
      (p : Row → Bool) (le : Row → Row → Bool) (n : ℕ) (rows : List Row)
      → IsNodup (map id rows)
      → All (λ r. id_in (take n (order_by le (select_where p rows))) r ≡ true → p r ≡ true) rows
  selected_first p le n rows h =
      All-map (Picks p rows)
        (λ r. id_in (take n (order_by le (select_where p rows))) r ≡ true → p r ≡ true) rows
        (λ r picked among. picked (
          sym (any_of-order_by (λ c. id c == id r) le (select_where p rows))
          ∙ any_of-take (λ c. id c == id r) n (order_by le (select_where p rows)) among))
        (selected p rows h)
