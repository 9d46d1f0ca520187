-- ===== src/Product/Entitlements/Tests.antt =====
-- services/product/entitlements.py on small plans.
use procintel.Common.{ℕ, ◌≤◌, ◌≡◌, refl, true, [], ◌∷◌, some}
use procintel.Common.Int.{pos}
use procintel.Product.Entitlements.{
  CalendarDate, Entitlements, amount, flag, Catalogue, Use, UsageKey, SubscriptionStatus,
  monthly_period, consume_entitlement, effective_entitlements, get_entitlement,
}
use procintel.Product.Entitlements.Limits.{limit_for, granted, granted_within_limit}
use procintel.Product.Entitlements.Override.{overridden, override_wins}

abbrev catalogue : Catalogue
catalogue = record {
  plans =
      record {
        code = "PRO";
        entitlements = ("exports", amount (pos 5)) ∷ ("search", flag true) ∷ [];
      }
      ∷ [];
  subscriptions =
      record {
        tenant_id = 7;
        plan_code = "PRO";
        status = SubscriptionStatus.active;
        entitlements_override = ("exports", amount (pos 3)) ∷ [];
      }
      ∷ [];
}

abbrev december : CalendarDate
december = record { year = 2025; month = 12; day = 24 }

abbrev export : ℕ → Use
export n = record {
  tenant_id = 7;
  metric_code = "exports";
  increment = n;
  now = 100;
  today = december;
}

abbrev exports_of_december : UsageKey
exports_of_december = record {
  tenant_id = 7;
  metric_code = "exports";
  period_start = record { year = 2025; month = 12; day = 1 };
  period_end = record { year = 2026; month = 1; day = 1 };
}

the_limit : limit_for catalogue 7 "exports" ≡ amount (pos 3)
unfolding limit_for
the_limit = refl

second_is_refused :
    granted catalogue exports_of_december (export 2 ∷ export 2 ∷ export 1 ∷ []) [] ≡ 3
unfolding granted consume_entitlement monthly_period
second_is_refused = refl

granted_within_limit_example :
    granted catalogue exports_of_december (export 2 ∷ export 2 ∷ export 1 ∷ []) [] ≤ 3
granted_within_limit_example =
    granted_within_limit catalogue exports_of_december 3 (export 2 ∷ export 2 ∷ export 1 ∷ [])
      the_limit

abbrev plan : Entitlements
plan = ("exports", amount (pos 5)) ∷ ("search", flag true) ∷ []

abbrev override : Entitlements
override = ("exports", amount (pos 3)) ∷ []

override_wins_example :
    get_entitlement "exports" (effective_entitlements plan (some override))
    ≡ overridden "exports" override (get_entitlement "exports" plan)
override_wins_example = override_wins "exports" plan override
