-- ===== src/Product/Entitlements.antt =====
-- services/product/entitlements.py: what a tenant's plan allows it, and the use it makes of it in
-- a calendar month. The tables are saas_plans, tenant_subscriptions and entitlement_usage.
pub mod Usage
pub mod Limits
pub mod Override
pub mod Month
mod Tests
use procintel.Common.{
  ℕ, ◌+◌, Bool, true, false, Option, none, some, String, List, [], ◌∷◌, ◌++◌, ◌&&◌, leb, ◌==◌,
  str_eq, if◌then◌else◌, any_of,
}
use procintel.Common.Int.{ℤ, pos, negsuc}
use procintel.Common.Table.{update_where}

pub record CalendarDate : Type 0 where
  pub year : ℕ
  pub month : ℕ
  pub day : ℕ

-- `monthly_period`: the first day of the month, and of the next.
unfoldable pub monthly_period : CalendarDate → CalendarDate × CalendarDate
monthly_period d = (
  record d { day = 1 },
  (if d.month == 12
      then record { year = d.year + 1; month = 1; day = 1 }
      else record { year = d.year; month = d.month + 1; day = 1 }),
)

-- A value of the JSON object of entitlements: null, a Boolean or an integer.
pub data Entitlement : Type 0 where
  nothing : Entitlement
  flag : Bool → Entitlement
  amount : ℤ → Entitlement

abbrev pub Entitlements : Type 0
Entitlements = List (String × Entitlement)

-- `entitlements.get(metric_code)`
unfoldable pub get_entitlement : String → Entitlements → Entitlement
get_entitlement metric [] = nothing
get_entitlement metric (e ∷ es) = if str_eq e.0 metric then e.1 else get_entitlement metric es

unfoldable pub set_entitlement : String × Entitlement → Entitlements → Entitlements
set_entitlement e [] = e ∷ []
set_entitlement e (f ∷ fs) = if str_eq f.0 e.0 then e ∷ fs else f ∷ set_entitlement e fs

-- The dict display `{**plan, **override}`, for an override that is an object.
unfoldable pub merged : Entitlements → Entitlements → Entitlements
unfolding set_entitlement
merged plan [] = plan
merged plan (e ∷ override) = merged (set_entitlement e plan) override

-- `effective_entitlements`
unfoldable pub effective_entitlements : Entitlements → Option Entitlements → Entitlements
unfolding merged
effective_entitlements plan none = plan
effective_entitlements plan (some override) = merged plan override

-- `usage_permitted`
unfoldable pub usage_permitted : Entitlement → ℕ → ℕ → Bool
usage_permitted nothing current increment = false
usage_permitted (flag b) current increment = b
usage_permitted (amount (negsuc n)) current increment = true
usage_permitted (amount (pos limit)) current increment = leb (current + increment) limit

pub data SubscriptionStatus : Type 0 where
  trialing active past_due paused canceled : SubscriptionStatus

pub record Plan : Type 0 where
  pub code : String
  pub entitlements : Entitlements

pub record Subscription : Type 0 where
  pub tenant_id : ℕ
  pub plan_code : String
  pub status : SubscriptionStatus
  pub entitlements_override : Entitlements

pub record Catalogue : Type 0 where
  pub plans : List Plan
  pub subscriptions : List Subscription

unfoldable pub is_live : SubscriptionStatus → Bool
is_live SubscriptionStatus.trialing = true
is_live SubscriptionStatus.active = true
is_live _ = false

-- The plan that the join finds, by its code.
unfoldable pub plan_of : String → List Plan → Option Plan
plan_of code [] = none
plan_of code (plan ∷ plans) = if str_eq plan.code code then some plan else plan_of code plans

-- The first row of the join: the entitlements of the plan, merged with the override.
unfoldable pub entitlements_of : ℕ → List Plan → List Subscription → Option Entitlements
unfolding plan_of is_live effective_entitlements
entitlements_of tenant_id plans [] = none
entitlements_of tenant_id plans (s ∷ subscriptions) =
    let rest = entitlements_of tenant_id plans subscriptions in
    if s.tenant_id == tenant_id && is_live s.status
    then elim (plan_of s.plan_code plans) [
      | none ↦ rest
      | some plan ↦ some (effective_entitlements plan.entitlements (some s.entitlements_override))
    ]
    else rest

-- The columns of the unique index of entitlement_usage.
pub record UsageKey : Type 0 where
  pub tenant_id : ℕ
  pub metric_code : String
  pub period_start : CalendarDate
  pub period_end : CalendarDate

pub record UsageRow : Type 0 where
  pub key : UsageKey
  pub usage_count : ℕ
  pub last_incremented_at : Option ℕ

abbrev pub same_date : CalendarDate → CalendarDate → Bool
same_date d e = d.year == e.year && (d.month == e.month && d.day == e.day)

abbrev pub same_key : UsageKey → UsageKey → Bool
same_key k l =
    k.tenant_id == l.tenant_id
    && (str_eq k.metric_code l.metric_code
        && (same_date k.period_start l.period_start && same_date k.period_end l.period_end))

abbrev pub new_usage : UsageKey → UsageRow
new_usage key = record { key = key; usage_count = 0; last_incremented_at = none }

-- INSERT … ON CONFLICT DO NOTHING
unfoldable pub ensure_usage : UsageKey → List UsageRow → List UsageRow
ensure_usage key rows =
    if any_of (λ row. same_key row.key key) rows then rows else rows ++ new_usage key ∷ []

-- SELECT usage_count …, 0 without a row
unfoldable pub usage_of : UsageKey → List UsageRow → ℕ
usage_of key [] = 0
usage_of key (row ∷ rows) = if same_key row.key key then row.usage_count else usage_of key rows

abbrev pub incremented : ℕ → ℕ → UsageRow → UsageRow
incremented now increment row = record row {
  usage_count = row.usage_count + increment;
  last_incremented_at = some now;
}

pub data Consumption : Type 0 where
  consumed : (limit : ℤ) → (usage : ℕ) → Consumption
  limit_exceeded : (limit : ℤ) → (usage : ℕ) → Consumption

pub record Use : Type 0 where
  pub tenant_id : ℕ
  pub metric_code : String
  pub increment : ℕ
  pub now : ℕ
  pub today : CalendarDate

abbrev pub key_of : Use → UsageKey
key_of u = record {
  tenant_id = u.tenant_id;
  metric_code = u.metric_code;
  period_start = (monthly_period u.today).0;
  period_end = (monthly_period u.today).1;
}

-- The second half of `consume_entitlement`, for a numeric limit.
unfoldable pub consume_amount : Use → ℤ → List UsageRow → Consumption × List UsageRow
unfolding ensure_usage usage_of usage_permitted update_where
consume_amount u limit rows =
    let rows' = ensure_usage (key_of u) rows in
    let current = usage_of (key_of u) rows' in
    if usage_permitted (amount limit) current u.increment
    then (
      consumed limit (current + u.increment),
      update_where (λ row. same_key row.key (key_of u)) (incremented u.now u.increment) rows',
    )
    else (limit_exceeded limit current, rows')

-- `int(bool(raw_limit))`
abbrev pub as_int : Bool → ℤ
as_int true = pos 1
as_int false = pos 0

unfoldable pub consume_limit : Use → Entitlement → List UsageRow → Consumption × List UsageRow
unfolding consume_amount usage_permitted
consume_limit u (amount limit) rows = consume_amount u limit rows
consume_limit u (flag b) rows = (
  (if usage_permitted (flag b) 0 u.increment
      then consumed (as_int b) 0
      else limit_exceeded (as_int b) 0),
  rows,
)
consume_limit u nothing rows = (
  (if usage_permitted nothing 0 u.increment then consumed (pos 0) 0 else limit_exceeded (pos 0) 0),
  rows,
)

-- `consume_entitlement`
unfoldable pub consume_entitlement : Catalogue → Use → List UsageRow → Consumption × List UsageRow
unfolding entitlements_of get_entitlement consume_limit
consume_entitlement catalogue u rows =
    elim (entitlements_of u.tenant_id catalogue.plans catalogue.subscriptions) [
      | none ↦ (limit_exceeded (pos 0) 0, rows)
      | some entitlements ↦ consume_limit u (get_entitlement u.metric_code entitlements) rows
    ]
