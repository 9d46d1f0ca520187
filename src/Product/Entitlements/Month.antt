-- ===== src/Product/Entitlements/Month.antt =====
-- The months of `monthly_period` in services/product/entitlements.py.
use procintel.Common.{◌≤◌, ◌≡◌, Bool, true, false, ◌==◌, arith, refl, Bool-cases, inl, inr, leb}
use procintel.Common.Table.{lex}
use procintel.Product.Entitlements.{CalendarDate, monthly_period}

abbrev pub before_or_on : CalendarDate → CalendarDate → Bool
before_or_on d e = lex d.year e.year (lex d.month e.month (leb d.day e.day))

-- A day lies in its period, the end excluded, and the period that starts with that end comes next:
-- the days of a year's months are in one period each.
pub monthly_period_contains :
    (d : CalendarDate)
    → 1 ≤ d.day
    → (before_or_on (monthly_period d).0 d ≡ true)
      × (before_or_on (monthly_period d).1 d ≡ false)
      × ((monthly_period (monthly_period d).1).0 ≡ (monthly_period d).1)
unfolding monthly_period lex
monthly_period_contains d h = elim (Bool-cases (d.month == 12)) [
  | inl december ↦ rw december (ground arith, ground arith, refl)
  | inr other ↦ rw other (ground arith, ground arith, refl)
]
