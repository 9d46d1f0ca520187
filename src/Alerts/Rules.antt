-- ===== src/Alerts/Rules.antt =====
-- services/alerts/evaluate.py: the events that alert rules fire, `_fire_event`, and the transaction
-- around it; packages/tenancy.py: `tenant_session` rolls it back when the channel raises.
pub mod Modes
pub mod Calls
pub mod Firing
mod Tests
use procintel.Common.{
  ℕ, ◌+◌, Bool, Option, some, String, List, [], ◌∷◌, ◌++◌, ◌&&◌, ◌==◌, str_eq, if◌then◌else◌,
  any_of,
}
use procintel.Common.Table.{select_where, update_where}
use procintel.Alerts.Matching.{Context, Filters, Texts, rule_matches}

pub record Rule : Type 0 where
  pub id : ℕ
  pub tenant_id : ℕ
  pub event_types : List String
  pub filters : Filters
  pub is_immediate : Bool
  pub is_active : Bool
  pub last_evaluated_at : Option ℕ

-- The columns of the unique index of alert_events. A payload is the change and the object's id.
pub record EventKey : Type 0 where
  pub alert_rule_id : ℕ
  pub canonical_object_id : ℕ
  pub event_type : String
  pub material_change_hash : String

pub record EventRow : Type 0 where
  pub id : ℕ
  pub key : EventKey
  pub canonical_object_type : String
  pub payload : String × ℕ

-- The arguments of `_fire_event`; the payload is its JSON text.
pub record Occurrence : Type 0 where
  pub event_type : String
  pub canonical_object_type : String
  pub canonical_object_id : ℕ
  pub context : Context
  pub change_payload : String

-- A call of the delivery channel.
pub record Delivered : Type 0 where
  pub tenant_id : ℕ
  pub key : EventKey
  pub payload : String × ℕ

-- What a call of the channel does: it may commit on the connection it is given, and may raise.
pub record Answer : Type 0 where
  pub commits : Bool
  pub raises : Bool

-- The tables as this connection sees them, as they stood at its last commit, and all the calls of
-- the channel.
pub record World : Type 0 where
  pub rules : List Rule
  pub events : List EventRow
  pub saved_rules : List Rule
  pub saved_events : List EventRow
  pub delivered : List Delivered

-- How a part of the code ends: with the number of events added, or by the channel's exception.
pub data Fired : Type 0 where
  fired : ℕ → World → Fired
  raised : World → Fired

abbrev pub committed : World → World
committed world = record world { saved_rules = world.rules; saved_events = world.events }

abbrev pub rolled_back : World → World
rolled_back world = record world { rules = world.saved_rules; events = world.saved_events }

abbrev pub same_event : EventKey → EventKey → Bool
same_event k l =
    k.alert_rule_id == l.alert_rule_id
    && (k.canonical_object_id == l.canonical_object_id
        && (str_eq k.event_type l.event_type
            && str_eq k.material_change_hash l.material_change_hash))

abbrev pub is_recorded : EventKey → List EventRow → Bool
is_recorded key = any_of (λ row. same_event row.key key)

module _ (texts : Texts) (fresh : EventKey → ℕ)
    (channel : List Delivered → Delivered → Answer) where
  open texts use {hash}

  abbrev pub event_key : Occurrence → Rule → EventKey
  event_key o rule = record {
    alert_rule_id = rule.id;
    canonical_object_id = o.canonical_object_id;
    event_type = o.event_type;
    material_change_hash = hash o.change_payload;
  }

  abbrev pub event_row : Occurrence → Rule → EventRow
  event_row o rule = record {
    id = fresh (event_key o rule);
    key = event_key o rule;
    canonical_object_type = o.canonical_object_type;
    payload = (o.change_payload, o.canonical_object_id);
  }

  abbrev pub delivery_of : Occurrence → Rule → Delivered
  delivery_of o rule = record {
    tenant_id = rule.tenant_id;
    key = event_key o rule;
    payload = (o.change_payload, o.canonical_object_id);
  }

  abbrev pub evaluated : ℕ → ℕ → List Rule → List Rule
  evaluated now rule_id =
      update_where (λ r. r.id == rule_id) (λ r. record r { last_evaluated_at = some now })

  -- The event is in the table and the channel is called; `channel` knows the earlier calls.
  unfoldable pub call_channel : ℕ → Rule → Delivered → World → Fired
  unfolding update_where
  call_channel now rule d world =
      let answer = channel world.delivered d in
      let told = record world { delivered = world.delivered ++ d ∷ [] } in
      let after = if answer.commits then committed told else told in
      if answer.raises
      then raised after
      else fired 1 (record after { rules = evaluated now rule.id after.rules })

  -- One round of the loop of `_fire_event`.
  unfoldable pub fire_rule : ℕ → Occurrence → Rule → World → Fired
  unfolding call_channel update_where rule_matches
  fire_rule now o rule world =
      let marked = record world { rules = evaluated now rule.id world.rules } in
      let added = world.events ++ event_row o rule ∷ [] in
      if rule_matches texts rule.filters o.context
      then (if is_recorded (event_key o rule) world.events
          then fired 0 marked
          else if rule.is_immediate
          then call_channel now rule (delivery_of o rule) (record world { events = added })
          else fired 1 (record marked { events = added }))
      else fired 0 world

  -- One part after another: an exception of either ends both.
  abbrev pub and_then : Fired → (World → Fired) → Fired
  and_then (raised world) next = raised world
  and_then (fired n world) next = elim (next world) [
    | raised world' ↦ raised world'
    | fired m world' ↦ fired (n + m) world'
  ]

  unfoldable pub fire_rules : ℕ → Occurrence → List Rule → World → Fired
  unfolding fire_rule
  fire_rules now o [] world = fired 0 world
  fire_rules now o (rule ∷ rules) world =
      and_then (fire_rule now o rule world) (fire_rules now o rules)

  -- `_fire_event`
  unfoldable pub fire_event : ℕ → Occurrence → World → Fired
  unfolding fire_rules select_where
  fire_event now o world =
      fire_rules now o
        (select_where (λ r. r.is_active && any_of (λ t. str_eq t o.event_type) r.event_types)
          world.rules)
        world

  -- The calls of one `evaluate_…_and_fire`: one call, or one for each expiring contract.
  unfoldable pub fire_events : List (ℕ × Occurrence) → World → Fired
  unfolding fire_event
  fire_events [] world = fired 0 world
  fire_events (o ∷ os) world = and_then (fire_event o.0 o.1 world) (fire_events os)

  -- The commit at the end of `evaluate_…_and_fire`, and the rollback of `tenant_session`.
  unfoldable pub evaluate_and_fire : List (ℕ × Occurrence) → World → Fired
  unfolding fire_events
  evaluate_and_fire os world = elim (fire_events os world) [
    | fired n after ↦ fired n (committed after)
    | raised after ↦ raised (rolled_back after)
  ]
