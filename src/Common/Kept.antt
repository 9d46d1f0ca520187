-- ===== src/Common/Kept.antt =====
-- The rows that a statement leaves as they are.
use mathlib.Core.Path.{◌≡◌, refl}
use mathlib.Core.Bool.{Bool, true, false, not}
use mathlib.Core.Logic.{inl, inr}
use mathlib.Core.List.{List, [], ◌∷◌, ◌++◌}
use native.Mathlib.Omega.{arith}
use procintel.Common.Tests.{Bool-cases}
use procintel.Common.Lists.{All}
use procintel.Common.Table.{select_where, update_where}

module _ {ℓ} {Row : Type ℓ} where
  pub select_where-update_where :
      (t p : Row → Bool) (f : Row → Row) (rows : List Row)
      → ((x : Row) → p x ≡ true → t x ≡ false)
      → ((x : Row) → p x ≡ true → t (f x) ≡ false)
      → select_where t (update_where p f rows) ≡ select_where t rows
  unfolding update_where select_where
  select_where-update_where t p f [] off on = refl
  select_where-update_where t p f (x ∷ rows) off on = elim (Bool-cases (p x)) [
    | inl e ↦ rw (e, off x e, on x e) (select_where-update_where t p f rows off on)
    | inr e ↦ rw e (ground (arith, select_where-update_where t p f rows off on))
  ]

  pub select_where-append :
      (t : Row → Bool) (rows : List Row) (x : Row)
      → t x ≡ false
      → select_where t (rows ++ x ∷ []) ≡ select_where t rows
  unfolding select_where
  select_where-append t [] x off = rw off refl
  select_where-append t (y ∷ rows) x off = ground (arith, select_where-append t rows x off)

  -- DELETE with WHERE keeps the rows that the condition does not meet.
  pub select_where-delete :
      (t p : Row → Bool) (rows : List Row)
      → ((x : Row) → p x ≡ true → t x ≡ false)
      → select_where t (select_where (λ x. not (p x)) rows) ≡ select_where t rows
  unfolding select_where
  select_where-delete t p [] off = refl
  select_where-delete t p (x ∷ rows) off = elim (Bool-cases (p x)) [
    | inl e ↦ rw (e, off x e) (select_where-delete t p rows off)
    | inr e ↦ rw e (ground (arith, select_where-delete t p rows off))
  ]

  -- The same, where only the rows of the table are known not to be kept.
  pub select_where-update_known :
      (t p : Row → Bool) (f : Row → Row) (rows : List Row)
      → ((x : Row) → p x ≡ true → t x ≡ false → t (f x) ≡ false)
      → All (λ x. p x ≡ true → t x ≡ false) rows
      → select_where t (update_where p f rows) ≡ select_where t rows
  unfolding update_where select_where
  select_where-update_known t p f [] on off = refl
  select_where-update_known t p f (x ∷ rows) on off = elim (Bool-cases (p x)) [
    | inl e ↦ rw (e, off.0 e, on x e (off.0 e)) (select_where-update_known t p f rows on off.1)
    | inr e ↦ rw e (ground (arith, select_where-update_known t p f rows on off.1))
  ]

  pub select_where-delete_known :
      (t p : Row → Bool) (rows : List Row)
      → All (λ x. p x ≡ true → t x ≡ false) rows
      → select_where t (select_where (λ x. not (p x)) rows) ≡ select_where t rows
  unfolding select_where
  select_where-delete_known t p [] off = refl
  select_where-delete_known t p (x ∷ rows) off = elim (Bool-cases (p x)) [
    | inl e ↦ rw (e, off.0 e) (select_where-delete_known t p rows off.1)
    | inr e ↦ rw e (ground (arith, select_where-delete_known t p rows off.1))
  ]
