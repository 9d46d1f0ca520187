-- ===== src/Product/Entitlements/Override.antt =====
-- services/product/entitlements.py: the entries of `effective_entitlements`.
use procintel.Common.{
  ◌≡◌, refl, ◌∙◌, ap, String, [], ◌∷◌, some, str_eq, eq_iff, if◌then◌else◌, arith,
}
use procintel.Product.Entitlements.{
  Entitlement, Entitlements, get_entitlement, set_entitlement, merged, effective_entitlements,
}

-- The value of the last entry for the metric, or else the given one.
unfoldable pub overridden : String → Entitlements → Entitlement → Entitlement
overridden metric [] given = given
overridden metric (e ∷ es) given = overridden metric es (if str_eq e.0 metric then e.1 else given)

get-set :
    (metric : String) (e : String × Entitlement) (es : Entitlements)
    → get_entitlement metric (set_entitlement e es)
      ≡ (if str_eq e.0 metric then e.1 else get_entitlement metric es)
unfolding get_entitlement set_entitlement
get-set metric e [] = refl
get-set metric e (f ∷ fs) =
    ground (arith, eq_iff f.0 e.0, eq_iff e.0 metric, eq_iff f.0 metric, get-set metric e fs)

-- An entry of the override replaces the plan's; every other entry is the plan's.
pub override_wins :
    (metric : String) (plan override : Entitlements)
    → get_entitlement metric (effective_entitlements plan (some override))
      ≡ overridden metric override (get_entitlement metric plan)
unfolding effective_entitlements merged overridden
override_wins metric plan [] = refl
override_wins metric plan (e ∷ es) =
    override_wins metric (set_entitlement e plan) es
    ∙ ap (overridden metric es) (get-set metric e plan)
