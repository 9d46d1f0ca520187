-- ===== src/Common/Pairs.antt =====
-- A relation between the rows of two tables, and an UPDATE of both.
use mathlib.Core.Bool.{Bool}
use mathlib.Core.List.{List, [], ◌∷◌}
use procintel.Common.Tests.{if◌then◌else◌}
use procintel.Common.Lists.{All}
use procintel.Common.Table.{update_where}

module _ {ℓ κ} {Row : Type ℓ} where
  abbrev pub Pairs : (Row → Row → Type κ) → List Row → List Row → Type κ
  Pairs R xs ys = All (λ x. All (R x) ys) xs

module _ {ℓ} {Row : Type ℓ} (p : Row → Bool) (f : Row → Row) where
  abbrev pub updated_row : Row → Row
  updated_row r = if p r then f r else r

module _ {ℓ κ μ} {Row : Type ℓ} (p : Row → Bool) (f : Row → Row) (Known : Row → Type μ) where
  pub All-updated_row {ν} :
      (P : Row → Type κ) (Q : Row → Type ν) (rows : List Row)
      → ((r : Row) → Known r → P r → Q (updated_row p f r))
      → All Known rows
      → All P rows
      → All Q (update_where p f rows)
  unfolding update_where
  All-updated_row P Q [] keep known h = tt
  All-updated_row P Q (r ∷ rows) keep known h =
      (keep r known.0 h.0, All-updated_row P Q rows keep known.1 h.1)

module _ {ℓ κ μ} {Row : Type ℓ} (p : Row → Bool) (f : Row → Row) (Known : Row → Type μ) where
  pub Pairs-update_where :
      (R : Row → Row → Type κ) (xs ys : List Row)
      → ((x y : Row) → Known x → Known y → R x y → R (updated_row p f x) (updated_row p f y))
      → All Known xs
      → All Known ys
      → Pairs R xs ys
      → Pairs R (update_where p f xs) (update_where p f ys)
  Pairs-update_where R xs ys keep known_x known_y h =
      All-updated_row p f Known (λ x. All (R x) ys) (λ x. All (R x) (update_where p f ys)) xs
        (λ x kx row.
          All-updated_row p f Known (R x) (R (updated_row p f x)) ys (λ y ky. keep x y kx ky)
            known_y row)
        known_x h
