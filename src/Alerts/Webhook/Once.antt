-- ===== src/Alerts/Webhook/Once.antt =====
-- At most one first delivery for each event and target.
use procintel.Common.{ℕ, ◌≡◌, refl, true, ◌||◌, List, [], ◌∷◌, ◌++◌, ◌==◌, arith, All, Option}
use procintel.Common.Table.{select_where, update_where}
use procintel.Alerts.Delivery.{
  Outside, ChannelType, Target, Event, Delivery, IdempotencyKey, World, same_key, has_key, key_for,
  inserted_row, first_attempt_row, first_post, deliver_target, deliver_targets, wants, deliver,
}

has_key-first_attempt :
    (tenant now id : ℕ) (key : IdempotencyKey) (response : Option ℕ) (rows : List Delivery)
    → has_key tenant key (update_where (λ d. d.id == id) (first_attempt_row now response) rows)
      ≡ has_key tenant key rows
unfolding update_where
has_key-first_attempt tenant now id key response [] = refl
has_key-first_attempt tenant now id key response (row ∷ rows) =
    ground (arith, has_key-first_attempt tenant now id key response rows)

has_key-append :
    (tenant : ℕ) (key : IdempotencyKey) (rows : List Delivery) (row : Delivery)
    → has_key tenant key (rows ++ row ∷ []) ≡ (has_key tenant key rows || same_key tenant key row)
has_key-append tenant key [] row = ground arith
has_key-append tenant key (r ∷ rows) row = ground (arith, has_key-append tenant key rows row)

module _ (out : Outside) (event : Event) (clock : ℕ → ℕ) where
  -- A key that is taken stays taken.
  deliver_target-keeps :
      (now : ℕ) (target : Target) (world : World) (tenant : ℕ) (key : IdempotencyKey)
      → has_key tenant key world.deliveries ≡ true
      → has_key tenant key (deliver_target out event now target world).deliveries ≡ true
  unfolding deliver_target
  deliver_target-keeps now target world tenant key h = ground (
    arith,
    has_key-first_attempt tenant now (out.fresh target.id) key
        (out.respond (first_post out event target now))
        (world.deliveries ++ inserted_row out event target now ∷ []),
    has_key-append tenant key world.deliveries (inserted_row out event target now),
  )

  -- After its round, the key of a target is taken.
  deliver_target-takes :
      (now : ℕ) (target : Target) (world : World)
      → has_key event.tenant_id
          (key_for event target)
          (deliver_target out event now target world).deliveries
        ≡ true
  unfolding deliver_target
  deliver_target-takes now target world = ground (
    arith,
    has_key-first_attempt event.tenant_id now (out.fresh target.id) (key_for event target)
        (out.respond (first_post out event target now))
        (world.deliveries ++ inserted_row out event target now ∷ []),
    has_key-append event.tenant_id (key_for event target) world.deliveries
        (inserted_row out event target now),
  )

  deliver_targets-keeps :
      (targets : List Target) (world : World) (tenant : ℕ) (key : IdempotencyKey)
      → has_key tenant key world.deliveries ≡ true
      → has_key tenant key (deliver_targets out event clock targets world).deliveries ≡ true
  unfolding deliver_targets
  deliver_targets-keeps [] world tenant key h = h
  deliver_targets-keeps (target ∷ targets) world tenant key h =
      deliver_targets-keeps targets (deliver_target out event (clock target.id) target world) tenant
        key (deliver_target-keeps (clock target.id) target world tenant key h)

  -- The key of the event at a target stands in the table.
  abbrev Taken : World → Target → Type 0
  Taken world target = has_key event.tenant_id (key_for event target) world.deliveries ≡ true

  deliver_targets-takes :
      (targets : List Target) (world : World)
      → All (Taken (deliver_targets out event clock targets world)) targets
  unfolding deliver_targets
  deliver_targets-takes [] world = tt
  deliver_targets-takes (target ∷ targets) world = (
    deliver_targets-keeps targets (deliver_target out event (clock target.id) target world)
        event.tenant_id (key_for event target)
        (deliver_target-takes (clock target.id) target world),
    deliver_targets-takes targets (deliver_target out event (clock target.id) target world),
  )

  -- A round for a target whose key is taken does nothing.
  deliver_target-Taken :
      (now : ℕ) (target : Target) (world : World)
      → Taken world target
      → deliver_target out event now target world ≡ world
  unfolding deliver_target
  deliver_target-Taken now target world h = rw h

  deliver_targets-Taken :
      (targets : List Target) (world : World)
      → All (Taken world) targets
      → deliver_targets out event clock targets world ≡ world
  unfolding deliver_targets
  deliver_targets-Taken [] world h = refl
  deliver_targets-Taken (target ∷ targets) world h =
      rw (deliver_target-Taken (clock target.id) target world h.0)
        (deliver_targets-Taken targets world h.1)

-- Delivering an event to the same targets a second time, at any times and whatever they answer,
-- posts nothing and leaves the table as it was.
pub deliver_again_does_nothing :
    (out : Outside) (channel : ChannelType) (targets : List Target) (event : Event)
    (clock clock' : ℕ → ℕ) (world : World)
    → deliver out channel targets event clock' (deliver out channel targets event clock world)
      ≡ deliver out channel targets event clock world
unfolding deliver
deliver_again_does_nothing out channel targets event clock clock' world =
    let chosen : List Target = select_where (wants channel event) targets in
    deliver_targets-Taken out event clock' chosen (deliver_targets out event clock chosen world)
      (deliver_targets-takes out event clock chosen world)
