-- ===== src/Product/Entitlements/Usage.antt =====
-- services/product/entitlements.py: the rows of entitlement_usage, looked up by their unique index.
use procintel.Common.{
  ℕ, ◌+◌, ◌≡◌, refl, true, false, ◌∙◌, sym, ap, List, [], ◌∷◌, ◌++◌, ◌==◌, str_eq, eq_iff, arith,
  any_of, Bool-cases, inl, inr, ==→eq, and→both,
}
use procintel.Common.Table.{update_where}
use procintel.Product.Entitlements.{
  CalendarDate, UsageKey, UsageRow, same_date, same_key, new_usage, ensure_usage, usage_of,
  incremented,
}

same_date-eq : (d e : CalendarDate) → same_date d e ≡ true → d ≡ e
same_date-eq d e h =
    let y : d.year ≡ e.year = ground arith in
    let m : d.month ≡ e.month = ground arith in
    let n : d.day ≡ e.day = ground arith in
    ap (λ v. record { year = v; month = d.month; day = d.day }) y
    ∙ (ap (λ v. record { year = e.year; month = v; day = d.day }) m
        ∙ ap (λ v. record { year = e.year; month = e.month; day = v }) n)

same_date_refl : (d : CalendarDate) → same_date d d ≡ true
same_date_refl d = ground arith

pub same_key-eq : (k l : UsageKey) → same_key k l ≡ true → k ≡ l
same_key-eq k l h =
    let t : _ = and→both (k.tenant_id == l.tenant_id) _ h in
    let m : _ = and→both (str_eq k.metric_code l.metric_code) _ t.1 in
    let p : _ = and→both (same_date k.period_start l.period_start) _ m.1 in
    ap
      (λ v. record {
        tenant_id = v;
        metric_code = k.metric_code;
        period_start = k.period_start;
        period_end = k.period_end;
      })
      (==→eq k.tenant_id l.tenant_id t.0)
    ∙ (ap
          (λ v. record {
            tenant_id = l.tenant_id;
            metric_code = v;
            period_start = k.period_start;
            period_end = k.period_end;
          })
          ((eq_iff k.metric_code l.metric_code).0 m.0)
        ∙ (ap
              (λ v. record {
                tenant_id = l.tenant_id;
                metric_code = l.metric_code;
                period_start = v;
                period_end = k.period_end;
              })
              (same_date-eq k.period_start l.period_start p.0)
            ∙ ap
                (λ v. record {
                  tenant_id = l.tenant_id;
                  metric_code = l.metric_code;
                  period_start = l.period_start;
                  period_end = v;
                })
                (same_date-eq k.period_end l.period_end p.1)))

same_key_refl : (k : UsageKey) → same_key k k ≡ true
same_key_refl k =
    rw (same_date_refl k.period_start)
      (rw (same_date_refl k.period_end) (ground (arith, eq_iff k.metric_code k.metric_code)))

same_key-other :
    (k l m : UsageKey) → same_key k l ≡ false → same_key m l ≡ true → same_key m k ≡ false
same_key-other k l m apart same = elim (Bool-cases (same_key m k)) [
  | inl hit ↦ cc (sym (same_key-eq m k hit), same, apart)
  | inr miss ↦ miss
]

usage_of-new :
    (k l : UsageKey) (rows : List UsageRow)
    → usage_of k (rows ++ new_usage l ∷ []) ≡ usage_of k rows
unfolding usage_of
usage_of-new k l [] = ground arith
usage_of-new k l (row ∷ rows) = rw (usage_of-new k l rows) refl

pub usage_of-ensure :
    (k l : UsageKey) (rows : List UsageRow) → usage_of k (ensure_usage l rows) ≡ usage_of k rows
unfolding ensure_usage
usage_of-ensure k l rows = elim (Bool-cases (any_of (λ row. same_key row.key l) rows)) [
  | inl has ↦ rw has refl
  | inr missing ↦ rw missing (usage_of-new k l rows)
]

any_of-new :
    (l : UsageKey) (rows : List UsageRow)
    → any_of (λ row. same_key row.key l) (rows ++ new_usage l ∷ []) ≡ true
any_of-new l [] = rw (same_key_refl l) refl
any_of-new l (row ∷ rows) = ground (arith, any_of-new l rows)

pub ensure_usage-has :
    (l : UsageKey) (rows : List UsageRow)
    → any_of (λ row. same_key row.key l) (ensure_usage l rows) ≡ true
unfolding ensure_usage
ensure_usage-has l rows = elim (Bool-cases (any_of (λ row. same_key row.key l) rows)) [
  | inl has ↦ rw has has
  | inr missing ↦ rw missing (any_of-new l rows)
]

module _ (now n : ℕ) where
  pub usage_of-incremented :
      (k : UsageKey) (rows : List UsageRow)
      → any_of (λ row. same_key row.key k) rows ≡ true
      → usage_of k (update_where (λ row. same_key row.key k) (incremented now n) rows)
        ≡ usage_of k rows + n
  unfolding usage_of update_where
  usage_of-incremented k [] has = cc
  usage_of-incremented k (row ∷ rows) has = elim (Bool-cases (same_key row.key k)) [
    | inl hit ↦ rw hit (rw hit refl)
    | inr miss ↦ rw miss (rw miss (usage_of-incremented k rows (rw miss at has)))
  ]

  pub usage_of-other :
      (k l : UsageKey) (rows : List UsageRow)
      → same_key k l ≡ false
      → usage_of k (update_where (λ row. same_key row.key l) (incremented now n) rows)
        ≡ usage_of k rows
  unfolding usage_of update_where
  usage_of-other k l [] apart = refl
  usage_of-other k l (row ∷ rows) apart = elim (Bool-cases (same_key row.key l)) [
    | inl hit ↦ rw hit (rw (same_key-other k l row.key apart hit) (usage_of-other k l rows apart))
    | inr miss ↦ rw miss (rw (usage_of-other k l rows apart) refl)
  ]
