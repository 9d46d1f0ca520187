-- ===== src/Alerts/Rules/Calls.antt =====
-- services/alerts/evaluate.py: how the calls of the channel are counted against the events.
use procintel.Common.{
  ℕ, ◌+◌, ◌≤◌, ◌≡◌, refl, ap, ◌∙◌, Bool, true, false, ◌||◌, List, [], ◌∷◌, ◌++◌, ◌==◌, ==→eq,
  str_eq, eq_iff, arith, Bool-cases, inl, inr, and→both,
}
use procintel.Common.Table.{count_where}
use procintel.Alerts.Rules.{
  EventKey, EventRow, Delivered, World, Fired, fired, raised, same_event, is_recorded,
}

pub same_event-eq : (k l : EventKey) → same_event k l ≡ true → k ≡ l
same_event-eq k l h =
    let r : _ = and→both (k.alert_rule_id == l.alert_rule_id) _ h in
    let o : _ = and→both (k.canonical_object_id == l.canonical_object_id) _ r.1 in
    let t : _ = and→both (str_eq k.event_type l.event_type) _ o.1 in
    ap
      (λ v. record {
        alert_rule_id = v;
        canonical_object_id = k.canonical_object_id;
        event_type = k.event_type;
        material_change_hash = k.material_change_hash;
      })
      (==→eq k.alert_rule_id l.alert_rule_id r.0)
    ∙ (ap
          (λ v. record {
            alert_rule_id = l.alert_rule_id;
            canonical_object_id = v;
            event_type = k.event_type;
            material_change_hash = k.material_change_hash;
          })
          (==→eq k.canonical_object_id l.canonical_object_id o.0)
        ∙ (ap
              (λ v. record {
                alert_rule_id = l.alert_rule_id;
                canonical_object_id = l.canonical_object_id;
                event_type = v;
                material_change_hash = k.material_change_hash;
              })
              ((eq_iff k.event_type l.event_type).0 t.0)
            ∙ ap
                (λ v. record {
                  alert_rule_id = l.alert_rule_id;
                  canonical_object_id = l.canonical_object_id;
                  event_type = l.event_type;
                  material_change_hash = v;
                })
                ((eq_iff k.material_change_hash l.material_change_hash).0 t.1)))

abbrev pub record_mark : Bool → ℕ
record_mark true = 1
record_mark false = 0

-- How often the channel was called for an event.
abbrev pub times_delivered : EventKey → List Delivered → ℕ
times_delivered k = count_where (λ d. same_event d.key k)

-- The channel was called for an event once more than `n` at most, and more than `n` times only if
-- the event is in the table.
abbrev pub IsBacked : ℕ → World → Type 0
IsBacked n world =
    (k : EventKey)
    → times_delivered k world.delivered ≤ record_mark (is_recorded k world.events) + n

-- The same at the end, where an exception leaves the bound without the table.
abbrev pub IsBackedEnd : ℕ → Fired → Type 0
IsBackedEnd n (fired added world) = IsBacked n world
IsBackedEnd n (raised world) = (k : EventKey) → times_delivered k world.delivered ≤ 1 + n

pub is_recorded-append :
    (k : EventKey) (rows : List EventRow) (row : EventRow)
    → is_recorded k (rows ++ row ∷ []) ≡ (is_recorded k rows || same_event row.key k)
is_recorded-append k [] row = ground arith
is_recorded-append k (r ∷ rows) row = ground (arith, is_recorded-append k rows row)

pub delivered_one_le :
    (k : EventKey) (d : Delivered) → times_delivered k (d ∷ []) ≤ record_mark (same_event d.key k)
unfolding count_where
delivered_one_le k d = elim (Bool-cases (same_event d.key k)) [
  | inl ours ↦ rw ours (omega arith)
  | inr other ↦ rw other (omega arith)
]

pub mark-append : (a b : Bool) → record_mark a ≤ record_mark (a || b)
mark-append true b = omega arith
mark-append false true = omega arith
mark-append false false = omega arith

pub mark-new :
    (a b : Bool) → (b ≡ true → a ≡ false) → record_mark a + record_mark b ≤ record_mark (a || b)
mark-new true true apart = cc (apart refl)
mark-new true false apart = omega arith
mark-new false true apart = omega arith
mark-new false false apart = omega arith

pub record_mark_le : (b : Bool) → record_mark b ≤ 1
record_mark_le true = omega arith
record_mark_le false = omega arith
