-- ===== src/Product/Entitlements/Limits.antt =====
-- services/product/entitlements.py: the use that `consume_entitlement` lets through in a month.
use procintel.Common.{
  ℕ, ◌+◌, ◌≤◌, ◌≡◌, refl, Bool, true, false, ◌&&◌, ◌∙◌, sym, ap, String, List, [], ◌∷◌,
  if◌then◌else◌, arith, max, Bool-cases, inl, inr, leb, leb→le, none, some,
}
use procintel.Common.Int.{ℤ, pos}
use procintel.Product.Entitlements.{
  UsageKey, UsageRow, same_key, ensure_usage, usage_of, Use, key_of, Consumption, consumed,
  limit_exceeded, consume_amount, consume_limit, Entitlement, amount, flag, nothing,
  consume_entitlement, Catalogue, entitlements_of, get_entitlement, usage_permitted,
}
use procintel.Product.Entitlements.Usage.{
  same_key-eq, usage_of-ensure, ensure_usage-has, usage_of-incremented, usage_of-other,
}

abbrev pub was_consumed : Consumption → Bool
was_consumed (consumed limit usage) = true
was_consumed (limit_exceeded limit usage) = false

-- The entry for the metric in the tenant's entitlements, null without a live subscription.
unfoldable pub limit_for : Catalogue → ℕ → String → Entitlement
unfolding entitlements_of get_entitlement
limit_for catalogue tenant_id metric_code =
    elim (entitlements_of tenant_id catalogue.plans catalogue.subscriptions) [
      | none ↦ nothing
      | some entitlements ↦ get_entitlement metric_code entitlements
    ]

consume-limit_for :
    (catalogue : Catalogue) (u : Use) (rows : List UsageRow)
    → consume_entitlement catalogue u rows
      ≡ consume_limit u (limit_for catalogue u.tenant_id u.metric_code) rows
unfolding consume_entitlement limit_for consume_limit usage_permitted
consume-limit_for catalogue u rows = ground arith

amount-other :
    (k : UsageKey) (u : Use) (limit : ℤ) (rows : List UsageRow)
    → same_key k (key_of u) ≡ false
    → usage_of k (consume_amount u limit rows).1 ≡ usage_of k rows
unfolding consume_amount
amount-other k u limit rows apart =
    let rows' : List UsageRow = ensure_usage (key_of u) rows in
    elim (Bool-cases (usage_permitted (amount limit) (usage_of (key_of u) rows') u.increment)) [
      | inl ok ↦ rw ok (
          usage_of-other u.now u.increment k (key_of u) rows' apart
          ∙ usage_of-ensure k (key_of u) rows)
      | inr full ↦ rw full (usage_of-ensure k (key_of u) rows)
    ]

limit-other :
    (k : UsageKey) (u : Use) (e : Entitlement) (rows : List UsageRow)
    → same_key k (key_of u) ≡ false
    → usage_of k (consume_limit u e rows).1 ≡ usage_of k rows
unfolding consume_limit
limit-other k u (amount limit) rows apart = amount-other k u limit rows apart
limit-other k u (flag b) rows apart = refl
limit-other k u nothing rows apart = refl

-- What a call does to the count of its own key, under the limit `n`.
abbrev Counted : ℕ → ℕ → ℕ → ℕ → Bool → Type 0
Counted n increment before after true = (after ≡ before + increment) × (after ≤ n)
Counted n increment before after false = after ≡ before

amount-Counted :
    (u : Use) (n : ℕ) (rows : List UsageRow)
    → Counted n u.increment
        (usage_of (key_of u) rows)
        (usage_of (key_of u) (consume_amount u (pos n) rows).1)
        (was_consumed (consume_amount u (pos n) rows).0)
unfolding consume_amount usage_permitted
amount-Counted u n rows =
    let rows' : List UsageRow = ensure_usage (key_of u) rows in
    let same : usage_of (key_of u) rows' ≡ usage_of (key_of u) rows =
      usage_of-ensure (key_of u) (key_of u) rows in
    let more : _ =
      usage_of-incremented u.now u.increment (key_of u) rows' (ensure_usage-has (key_of u) rows) in
    elim (Bool-cases (leb (usage_of (key_of u) rows' + u.increment) n)) [
      | inl ok ↦ rw ok (omega (arith, more, same), omega (arith, more, leb→le _ _ ok))
      | inr full ↦ rw full same
    ]

sum_step :
    (b : Bool) (n increment before after later : ℕ)
    → Counted n increment before after b
    → later + after ≤ max n after
    → (if b then increment + later else later) + before ≤ max n before
sum_step true n increment before after later c le = omega (arith, c.0, c.1, le)
sum_step false n increment before after later c le = omega (arith, c, le)

module _ (catalogue : Catalogue) (k : UsageKey) where
  consume-other :
      (u : Use) (rows : List UsageRow)
      → same_key k (key_of u) ≡ false
      → usage_of k (consume_entitlement catalogue u rows).1 ≡ usage_of k rows
  consume-other u rows apart =
      rw (consume-limit_for catalogue u rows)
        (limit-other k u (limit_for catalogue u.tenant_id u.metric_code) rows apart)

  consume-Counted :
      (u : Use) (n : ℕ) (rows : List UsageRow)
      → k ≡ key_of u
      → limit_for catalogue k.tenant_id k.metric_code ≡ amount (pos n)
      → Counted n u.increment
          (usage_of k rows)
          (usage_of k (consume_entitlement catalogue u rows).1)
          (was_consumed (consume_entitlement catalogue u rows).0)
  unfolding consume_limit
  consume-Counted u n rows e limited =
      let theirs : limit_for catalogue u.tenant_id u.metric_code ≡ amount (pos n) =
        ap (λ l. limit_for catalogue l.tenant_id l.metric_code) (sym e) ∙ limited in
      rw (consume-limit_for catalogue u rows) (rw theirs (rw e (amount-Counted u n rows)))

  -- The total that the calls for the tenant, metric and month of `k` get.
  unfoldable pub granted : List Use → List UsageRow → ℕ
  granted [] rows = 0
  granted (u ∷ uses) rows =
      let answer = consume_entitlement catalogue u rows in
      let later = granted uses answer.1 in
      if same_key k (key_of u) && was_consumed answer.0 then u.increment + later else later

  granted-le :
      (n : ℕ) (uses : List Use) (rows : List UsageRow)
      → limit_for catalogue k.tenant_id k.metric_code ≡ amount (pos n)
      → granted uses rows + usage_of k rows ≤ max n (usage_of k rows)
  unfolding granted
  granted-le n [] rows limited = omega arith
  granted-le n (u ∷ uses) rows limited =
      let answer : Consumption × List UsageRow = consume_entitlement catalogue u rows in
      let later : _ = granted-le n uses answer.1 limited in
      elim (Bool-cases (same_key k (key_of u))) [
        | inl ours ↦ rw ours (
            sum_step (was_consumed answer.0) n u.increment (usage_of k rows) (usage_of k answer.1)
              (granted uses answer.1)
              (consume-Counted u n rows (same_key-eq k (key_of u) ours) limited) later)
        | inr other ↦ rw other (omega (arith, later, consume-other u rows other))
      ]

-- Where a tenant's entitlement to a metric is a number that is not negative, and no use is recorded
-- at first, the calls of `consume_entitlement` in one month, in any number and mixed with calls for
-- others, get no more than that number in all, while the plans and subscriptions do not change.
pub granted_within_limit :
    (catalogue : Catalogue) (k : UsageKey) (limit : ℕ) (uses : List Use)
    → limit_for catalogue k.tenant_id k.metric_code ≡ amount (pos limit)
    → granted catalogue k uses [] ≤ limit
unfolding usage_of
granted_within_limit catalogue k limit uses limited =
    omega (arith, granted-le catalogue k limit uses [] limited)
