-- ===== src/Alerts/Rules/Firing.antt =====
-- services/alerts/evaluate.py: how often `_fire_event` delivers an event.
use procintel.Common.{
  ℕ, suc, ◌+◌, ◌≤◌, ◌≡◌, refl, ap, sym, ◌∙◌, false, ◌&&◌, List, [], ◌∷◌, ◌++◌, str_eq, arith,
  if◌then◌else◌, Bool-cases, inl, inr, any_of,
}
use procintel.Common.Table.{count_where, count_where-append, select_where}
use procintel.Alerts.Matching.{Texts, rule_matches}
use procintel.Alerts.Rules.{
  Rule, EventKey, EventRow, Occurrence, Delivered, Answer, World, Fired, fired, raised, committed,
  rolled_back, same_event, is_recorded, event_key, event_row, delivery_of, evaluated, call_channel,
  fire_rule, and_then, fire_rules, fire_event, fire_events, evaluate_and_fire,
}
use procintel.Alerts.Rules.Calls.{
  same_event-eq, record_mark, IsBacked, IsBackedEnd, is_recorded-append, delivered_one_le,
  mark-append, mark-new, record_mark_le, times_delivered,
}

-- A new row and its call go together.
told-IsBacked :
    (n : ℕ) (rows : List EventRow) (calls : List Delivered) (row : EventRow) (d : Delivered)
    → d.key ≡ row.key
    → is_recorded row.key rows ≡ false
    → ((k : EventKey) → times_delivered k calls ≤ record_mark (is_recorded k rows) + n)
    → (k : EventKey)
    → times_delivered k (calls ++ d ∷ []) ≤ record_mark (is_recorded k (rows ++ row ∷ [])) + n
told-IsBacked n rows calls row d same new backed k = rw (is_recorded-append k rows row) (
    omega (
      arith,
      count_where-append (λ e. same_event e.key k) calls (d ∷ []),
      delivered_one_le k d,
      ap (λ l. record_mark (same_event l k)) same,
      backed k,
      mark-new (is_recorded k rows) (same_event row.key k)
          (λ ours. ap (λ l. is_recorded l rows) (sym (same_event-eq row.key k ours)) ∙ new),
    ))

module _ (texts : Texts) (fresh : EventKey → ℕ)
    (channel : List Delivered → Delivered → Answer) where
  call_channel-IsBacked :
      (n now : ℕ) (rule : Rule) (d : Delivered) (world : World)
      → IsBacked n (record world { delivered = world.delivered ++ d ∷ [] })
      → IsBackedEnd n (call_channel texts fresh channel now rule d world)
  unfolding call_channel
  call_channel-IsBacked n now rule d world backed =
      elim (Bool-cases (channel world.delivered d).commits) [
        | inl e ↦
            rw e (
              by_raising (committed (record world { delivered = world.delivered ++ d ∷ [] }))
                backed)
        | inr e ↦ rw e (by_raising (record world { delivered = world.delivered ++ d ∷ [] }) backed)
      ]
    where
      by_raising :
          (after : World)
          → IsBacked n after
          → IsBackedEnd n (
              if (channel world.delivered d).raises
              then raised after
              else fired 1
                  (record after { rules = evaluated texts fresh channel now rule.id after.rules }))
      by_raising after h = elim (Bool-cases (channel world.delivered d).raises) [
        | inl e ↦ rw e (λ k. omega (arith, h k, record_mark_le (is_recorded k after.events)))
        | inr e ↦ rw e h
      ]

  fire_rule-IsBacked :
      (n now : ℕ) (o : Occurrence) (rule : Rule) (world : World)
      → IsBacked n world
      → IsBackedEnd n (fire_rule texts fresh channel now o rule world)
  unfolding fire_rule
  fire_rule-IsBacked n now o rule world backed =
      let key : EventKey = event_key texts fresh channel o rule in
      let row : EventRow = event_row texts fresh channel o rule in
      let d : Delivered = delivery_of texts fresh channel o rule in
      elim (Bool-cases (rule_matches texts rule.filters o.context)) [
        | inl hit ↦ rw hit (elim (Bool-cases (is_recorded key world.events)) [
          | inl known ↦ rw known backed
          | inr new ↦ rw new (elim (Bool-cases rule.is_immediate) [
            | inl now_due ↦ rw now_due (
                call_channel-IsBacked n now rule d
                  (record world { events = world.events ++ row ∷ [] })
                  (told-IsBacked n world.events world.delivered row d refl new backed))
            | inr later ↦ rw later (λ k. rw (is_recorded-append k world.events row) (
                omega
                  (arith, backed k, mark-append (is_recorded k world.events) (same_event key k))))
          ])
        ])
        | inr miss ↦ rw miss backed
      ]

  and_then-IsBacked :
      (n : ℕ) (one : Fired) (next : World → Fired)
      → IsBackedEnd n one
      → ((world : World) → IsBacked n world → IsBackedEnd n (next world))
      → IsBackedEnd n (and_then texts fresh channel one next)
  and_then-IsBacked n (raised world) next h rest = h
  and_then-IsBacked n (fired added world) next h rest = by_end (next world) (rest world h)
    where
      by_end :
          (end : Fired)
          → IsBackedEnd n end
          → IsBackedEnd n (elim end [
            | raised world' ↦ raised world'
            | fired m world' ↦ fired (added + m) world'
          ])
      by_end (raised world') g = g
      by_end (fired m world') g = g

  fire_rules-IsBacked :
      (n now : ℕ) (o : Occurrence) (rules : List Rule) (world : World)
      → IsBacked n world
      → IsBackedEnd n (fire_rules texts fresh channel now o rules world)
  unfolding fire_rules
  fire_rules-IsBacked n now o [] world backed = backed
  fire_rules-IsBacked n now o (rule ∷ rules) world backed =
      and_then-IsBacked n (fire_rule texts fresh channel now o rule world)
        (fire_rules texts fresh channel now o rules) (fire_rule-IsBacked n now o rule world backed)
        (fire_rules-IsBacked n now o rules)

  fire_events-IsBacked :
      (n : ℕ) (os : List (ℕ × Occurrence)) (world : World)
      → IsBacked n world
      → IsBackedEnd n (fire_events texts fresh channel os world)
  unfolding fire_events fire_event
  fire_events-IsBacked n [] world backed = backed
  fire_events-IsBacked n (o ∷ os) world backed =
      and_then-IsBacked n (fire_event texts fresh channel o.0 o.1 world)
        (fire_events texts fresh channel os)
        (fire_rules-IsBacked n o.0 o.1
          (select_where (λ r. r.is_active && any_of (λ t. str_eq t o.1.event_type) r.event_types)
            world.rules)
          world backed)
        (fire_events-IsBacked n os)

  -- The reports one after another, each in a transaction: how many raise, and the world at the end.
  unfoldable pub report_all : List (List (ℕ × Occurrence)) → World → ℕ × World
  unfolding evaluate_and_fire
  report_all [] world = (0, world)
  report_all (os ∷ reports) world = elim (evaluate_and_fire texts fresh channel os world) [
    | fired n after ↦ report_all reports after
    | raised after ↦ (suc (report_all reports after).0, (report_all reports after).1)
  ]

  report_all-bounds :
      (n : ℕ) (reports : List (List (ℕ × Occurrence))) (world : World) (k : EventKey)
      → IsBacked n world
      → times_delivered k (report_all reports world).1.delivered
        ≤ 1 + (report_all reports world).0 + n
  unfolding report_all evaluate_and_fire
  report_all-bounds n [] world k backed =
      omega (arith, backed k, record_mark_le (is_recorded k world.events))
  report_all-bounds n (os ∷ reports) world k backed =
      by_end (fire_events texts fresh channel os world) (fire_events-IsBacked n os world backed)
        (λ m after. report_all-bounds m reports after k)
    where
      by_end :
          (end : Fired)
          → IsBackedEnd n end
          → ((m : ℕ) (after : World)
              → IsBacked m after
              → times_delivered k (report_all reports after).1.delivered
                ≤ 1 + (report_all reports after).0 + m)
          → let result : Fired = elim end [
            | fired m after ↦ fired m (committed after)
            | raised after ↦ raised (rolled_back after)
          ] in
            let all : ℕ × World = elim result [
              | fired m after ↦ report_all reports after
              | raised after ↦ (suc (report_all reports after).0, (report_all reports after).1)
            ] in
            times_delivered k all.1.delivered ≤ 1 + all.0 + n
      by_end (fired m after) h rest = rest n (committed after) h
      by_end (raised after) h rest =
          omega (arith, rest (suc n) (rolled_back after) (λ l. omega (arith, h l)))

-- Starting with no events and no calls, and however often the same change of an object is reported
-- among others, the channel is called for one rule, object, type of event and hash of the change at
-- most once more than reports ended by an exception of the channel, whether or not the channel
-- commits in its calls: so at most once when none raises.
pub delivered_at_most_once :
    (texts : Texts) (fresh : EventKey → ℕ) (channel : List Delivered → Delivered → Answer)
    (reports : List (List (ℕ × Occurrence))) (rules : List Rule) (k : EventKey)
    → let end : ℕ × World = report_all texts fresh channel reports (record {
      rules = rules;
      events = [];
      saved_rules = rules;
      saved_events = [];
      delivered = [];
    }) in
      times_delivered k end.1.delivered ≤ 1 + end.0
delivered_at_most_once texts fresh channel reports rules k = omega (
  arith,
  report_all-bounds texts fresh channel 0 reports
      (record {
        rules = rules;
        events = [];
        saved_rules = rules;
        saved_events = [];
        delivered = [];
      })
      k (λ l. unfold count_where in omega arith),
)
