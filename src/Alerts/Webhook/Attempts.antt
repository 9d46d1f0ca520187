-- ===== src/Alerts/Webhook/Attempts.antt =====
-- How often a delivery is attempted.
use procintel.Common.{
  ℕ, ◌+◌, ◌≤◌, ◌<◌, ◌≡◌, refl, Bool, true, ◌&&◌, List, [], ◌∷◌, ◌++◌, arith, ◌==◌, All, All-map,
  All-both, not, map, and→both, Bool-cases, inl, inr, Option, leb,
}
use procintel.Common.Table.{
  select_where, map-update_where, All-update_to, All-update_where, All-select_where,
}
use procintel.Common.PrimaryKey.{IsNodup, selected_first}
use procintel.Alerts.Delivery.{
  Outside, ChannelType, Target, Event, Delivery, Status, World, max_attempts, has_key, key_for,
  inserted_row, first_attempt_row, first_post, deliver_target, deliver_targets, deliver, wants,
  is_delivering,
}
use procintel.Alerts.Webhook.{
  is_due, is_stale_lease, recovered_row, recover_leases, leased_row, lease_rows, in_rows,
  retry_candidates, returned_rows, retried_row, retry_post, retry_rows, retry_pending_deliveries,
}

-- Of the attempts a row may have: a row that may still be sent has some left, and one that is
-- given up has used them all.
abbrev pub AttemptsFit : Status → ℕ → Type 0
AttemptsFit Status.pending n = n < max_attempts
AttemptsFit Status.delivering n = n < max_attempts
AttemptsFit Status.delivered n = n ≤ max_attempts
AttemptsFit Status.failed n = n ≡ max_attempts

pub record IsBounded (row : Delivery) : Type 0 where
  pub fits : AttemptsFit row.status row.attempt_count

first_attempt_row-IsBounded :
    (now : ℕ) (response : Option ℕ) (row : Delivery)
    → IsBounded (first_attempt_row now response row)
first_attempt_row-IsBounded now response row = ground arith

retried_row-IsBounded :
    (now n : ℕ) (response : Option ℕ) (row : Delivery)
    → n < max_attempts
    → IsBounded (retried_row now (n + 1) response row)
retried_row-IsBounded now n response row h = ground arith

All-append {ℓ} :
    (P : Delivery → Type ℓ) (xs : List Delivery) (x : Delivery)
    → All P xs
    → P x
    → All P (xs ++ x ∷ [])
All-append P [] x h k = (k, tt)
All-append P (y ∷ xs) x h k = (h.0, All-append P xs x h.1 k)

deliver_target-IsBounded :
    (out : Outside) (event : Event) (now : ℕ) (target : Target) (world : World)
    → All IsBounded world.deliveries
    → All IsBounded (deliver_target out event now target world).deliveries
unfolding deliver_target
deliver_target-IsBounded out event now target world h =
    elim (Bool-cases (has_key event.tenant_id (key_for event target) world.deliveries)) [
      | inl taken ↦ rw taken h
      | inr free ↦ rw free (
          All-update_where IsBounded (λ d. d.id == out.fresh target.id)
            (first_attempt_row now (out.respond (first_post out event target now)))
            (world.deliveries ++ inserted_row out event target now ∷ [])
            (λ row _ _.
              first_attempt_row-IsBounded now (out.respond (first_post out event target now)) row)
            (All-append IsBounded world.deliveries (inserted_row out event target now) h
              (record { fits = omega arith })))
    ]

deliver_targets-IsBounded :
    (out : Outside) (event : Event) (clock : ℕ → ℕ) (targets : List Target) (world : World)
    → All IsBounded world.deliveries
    → All IsBounded (deliver_targets out event clock targets world).deliveries
unfolding deliver_targets
deliver_targets-IsBounded out event clock [] world h = h
deliver_targets-IsBounded out event clock (target ∷ targets) world h =
    deliver_targets-IsBounded out event clock targets
      (deliver_target out event (clock target.id) target world)
      (deliver_target-IsBounded out event (clock target.id) target world h)

-- A leased row has an attempt left.
abbrev HasAttempt : Delivery → Type 0
HasAttempt row = row.attempt_count < max_attempts

retry_rows-IsBounded :
    (out : Outside) (now : ℕ) (rows : List Delivery) (world : World)
    → All HasAttempt rows
    → All IsBounded world.deliveries
    → All IsBounded (retry_rows out now rows world).deliveries
unfolding retry_rows
retry_rows-IsBounded out now [] world left h = h
retry_rows-IsBounded out now (row ∷ rows) world left h =
    retry_rows-IsBounded out now rows _ left.1 (
      All-update_where IsBounded (λ d. d.id == row.id && is_delivering d.status)
        (retried_row now (row.attempt_count + 1) (out.respond (retry_post out row)))
        world.deliveries
        (λ d _ _.
          retried_row-IsBounded now row.attempt_count (out.respond (retry_post out row)) d left.0)
        h)

recover-IsBounded :
    (now : ℕ) (row : Delivery)
    → is_stale_lease now row ≡ true
    → IsBounded row
    → IsBounded (recovered_row now row)
unfolding is_stale_lease
recover-IsBounded now row stale h = ground arith

due-HasAttempt : (now : ℕ) (row : Delivery) → is_due now row ≡ true → IsBounded row → HasAttempt row
unfolding is_due
due-HasAttempt now row due h = ground arith

leased_row-IsBounded : (now : ℕ) (row : Delivery) → HasAttempt row → IsBounded (leased_row now row)
leased_row-IsBounded now row h = record { fits = h }

-- A row whose number is among the candidates' is due.
pub candidates-due :
    (now limit : ℕ) (skipped : ℕ → Bool) (rows : List Delivery)
    → IsNodup (map (λ r. r.id) rows)
    → All
        (λ r. in_rows (retry_candidates now limit skipped rows) r ≡ true → is_due now r ≡ true)
        rows
unfolding retry_candidates
candidates-due now limit skipped rows distinct =
    let chosen : List Delivery = retry_candidates now limit skipped rows in
    All-map (λ r. in_rows chosen r ≡ true → (is_due now r && not (skipped r.id)) ≡ true)
      (λ r. in_rows chosen r ≡ true → is_due now r ≡ true) rows
      (λ r pick among. (and→both (is_due now r) (not (skipped r.id)) (pick among)).0)
      (selected_first (λ r. r.id) (λ r. is_due now r && not (skipped r.id))
        (λ a b. leb a.created_at b.created_at) limit rows distinct)

module _ (now limit : ℕ) (skipped : ℕ → Bool) (rows : List Delivery)
    (distinct : IsNodup (map (λ r. r.id) rows)) (bounded : All IsBounded rows) where
  abbrev chosen : List Delivery
  chosen = retry_candidates now limit skipped rows

  -- Of the leased table: every row is bounded, and a chosen one has an attempt left.
  abbrev IsLeasable : Delivery → Type 0
  IsLeasable r = IsBounded r × (in_rows chosen r ≡ true → HasAttempt r)

  lease_rows-IsLeasable : All IsLeasable (lease_rows now limit skipped rows)
  unfolding lease_rows
  lease_rows-IsLeasable =
      All-update_to IsLeasable IsLeasable (in_rows chosen) (leased_row now) rows
        (λ r among h. (leased_row-IsBounded now r (h.1 among), (λ _. h.1 among))) (λ r out h. h)
        (All-both IsBounded (λ r. in_rows chosen r ≡ true → is_due now r ≡ true) IsLeasable rows
          (λ r b due. (b, (λ among. due-HasAttempt now r (due among) b))) bounded
          (candidates-due now limit skipped rows distinct))

  lease_rows-IsBounded : All IsBounded (lease_rows now limit skipped rows)
  lease_rows-IsBounded =
      All-map IsLeasable IsBounded (lease_rows now limit skipped rows) (λ r h. h.0)
        lease_rows-IsLeasable

  returned_rows-HasAttempt : All HasAttempt (returned_rows now limit skipped rows)
  unfolding returned_rows
  returned_rows-HasAttempt =
      All-select_where IsLeasable HasAttempt (in_rows chosen) (lease_rows now limit skipped rows)
        (λ r among h. h.1 among) lease_rows-IsLeasable

pub recover_leases-ids :
    (now : ℕ) (rows : List Delivery)
    → map (λ r. r.id) (recover_leases now rows) ≡ map (λ r. r.id) rows
recover_leases-ids now rows =
    map-update_where (λ r. r.id) (is_stale_lease now) (recovered_row now) rows (λ r. refl)

-- Where the ids of the rows are distinct, a sweep keeps every row within its eight attempts, if it
-- is so before: a row that waits or is being sent has an attempt left, and a row that is given up
-- has used all of them.
pub retry-IsBounded :
    (out : Outside) (now limit : ℕ) (skipped : ℕ → Bool) (world : World)
    → IsNodup (map (λ r. r.id) world.deliveries)
    → All IsBounded world.deliveries
    → All IsBounded (retry_pending_deliveries out now limit skipped world).1.deliveries
unfolding retry_pending_deliveries
retry-IsBounded out now limit skipped world distinct h =
    let rows : List Delivery = recover_leases now world.deliveries in
    let distinct' : IsNodup (map (λ r. r.id) rows) =
      rw (recover_leases-ids now world.deliveries) distinct in
    let bounded : All IsBounded rows =
      All-update_where IsBounded (is_stale_lease now) (recovered_row now) world.deliveries
        (λ r stale b. recover-IsBounded now r stale b) h in
    retry_rows-IsBounded out now (returned_rows now limit skipped rows)
      (record { deliveries = lease_rows now limit skipped rows; posts = world.posts })
      (returned_rows-HasAttempt now limit skipped rows distinct' bounded)
      (lease_rows-IsBounded now limit skipped rows distinct' bounded)

-- A first delivery keeps every row within its eight attempts too, if it is so before.
pub deliver-IsBounded :
    (out : Outside) (channel : ChannelType) (targets : List Target) (event : Event) (clock : ℕ → ℕ)
    (world : World)
    → All IsBounded world.deliveries
    → All IsBounded (deliver out channel targets event clock world).deliveries
unfolding deliver
deliver-IsBounded out channel targets event clock world h =
    deliver_targets-IsBounded out event clock (select_where (wants channel event) targets) world h
