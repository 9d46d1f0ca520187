-- ===== src/Alerts/Webhook.antt =====
-- services/alerts/webhook_delivery.py: the sweep `retry_pending_deliveries`.
pub mod Once
pub mod Attempts
pub mod Settled
mod Tests
use procintel.Common.{
  ℕ, ◌+◌, Bool, ◌&&◌, not, Option, none, some, List, [], ◌∷◌, ◌++◌, leb, ◌==◌, if◌then◌else◌,
  length, take, any_of, null_or_le, null_or_older, str_eq,
}
use procintel.Common.Table.{select_where, update_where, order_by}
use procintel.Alerts.Delivery.{
  Delivery, DeliveryError, Outside, Post, Status, World, delivery_lease_timeout, is_delivering,
  is_pending, max_attempts, next_retry_at, succeeded,
}

unfoldable pub is_stale_lease : ℕ → Delivery → Bool
unfolding is_delivering
is_stale_lease now row =
    is_delivering row.status && null_or_older row.last_attempt_at delivery_lease_timeout now

abbrev pub recovered_row : ℕ → Delivery → Delivery
recovered_row now row = record row {
  status = Status.pending;
  next_retry_at = some now;
  last_error = some DeliveryError.recovered_stale_lease;
}

unfoldable pub is_due : ℕ → Delivery → Bool
unfolding is_pending
is_due now row = is_pending row.status && null_or_le row.next_retry_at now

-- The subquery of candidate ids; `skipped` are the rows that other transactions hold locked.
unfoldable pub retry_candidates : ℕ → ℕ → (ℕ → Bool) → List Delivery → List Delivery
unfolding is_due select_where order_by
retry_candidates now limit skipped rows = take limit (
    order_by (λ a b. leb a.created_at b.created_at)
      (select_where (λ row. is_due now row && not (skipped row.id)) rows))

abbrev pub leased_row : ℕ → Delivery → Delivery
leased_row now row = record row { status = Status.delivering; last_attempt_at = some now }

-- What the row becomes after an attempt that the sweep has made, whose count is new.
abbrev pub retried_row : ℕ → ℕ → Option ℕ → Delivery → Delivery
retried_row now new_attempt_count response row =
    if succeeded response
    then record row {
      status = Status.delivered;
      attempt_count = new_attempt_count;
      last_attempt_at = some now;
      next_retry_at = none;
      response_status = response;
      last_error = none;
    }
    else if leb max_attempts new_attempt_count
    then record row {
      status = Status.failed;
      attempt_count = new_attempt_count;
      last_attempt_at = some now;
      next_retry_at = none;
      response_status = response;
      last_error = some DeliveryError.attempts_exhausted;
    }
    else record row {
      status = Status.pending;
      attempt_count = new_attempt_count;
      last_attempt_at = some now;
      next_retry_at = some (next_retry_at now new_attempt_count);
      response_status = response;
      last_error = some DeliveryError.attempt_failed;
    }

-- A retry sends the body and the signature of the first attempt.
abbrev pub retry_post : Outside → Delivery → Post
retry_post out row = record {
  url = row.endpoint_url;
  body = elim row.request_body [
    | none ↦ out.bare_body row.idempotency_key
    | some b ↦ if str_eq b "" then out.bare_body row.idempotency_key else b
  ];
  signature = row.signature;
}

-- The loop over the leased rows.
unfoldable pub retry_rows : Outside → ℕ → List Delivery → World → World
unfolding update_where succeeded is_delivering
retry_rows out now [] world = world
retry_rows out now (row ∷ rows) world = retry_rows out now rows (record {
  deliveries =
      update_where (λ d. d.id == row.id && is_delivering d.status)
        (retried_row now (row.attempt_count + 1) (out.respond (retry_post out row)))
        world.deliveries;
  posts = world.posts ++ retry_post out row ∷ [];
})

abbrev pub recover_leases : ℕ → List Delivery → List Delivery
recover_leases now rows = update_where (is_stale_lease now) (recovered_row now) rows

abbrev pub in_rows : List Delivery → Delivery → Bool
in_rows chosen row = any_of (λ c. c.id == row.id) chosen

-- The table with its candidates leased.
unfoldable pub lease_rows : ℕ → ℕ → (ℕ → Bool) → List Delivery → List Delivery
unfolding retry_candidates update_where
lease_rows now limit skipped rows =
    update_where (in_rows (retry_candidates now limit skipped rows)) (leased_row now) rows

-- UPDATE … RETURNING: the leased candidates, as they stand after the update.
unfoldable pub returned_rows : ℕ → ℕ → (ℕ → Bool) → List Delivery → List Delivery
unfolding lease_rows retry_candidates select_where
returned_rows now limit skipped rows =
    select_where (in_rows (retry_candidates now limit skipped rows))
      (lease_rows now limit skipped rows)

-- `retry_pending_deliveries`: the number of rows retried, and the world after.
unfoldable pub retry_pending_deliveries : Outside → ℕ → ℕ → (ℕ → Bool) → World → ℕ × World
unfolding is_stale_lease update_where returned_rows lease_rows retry_rows
retry_pending_deliveries out now limit skipped world =
    let rows = recover_leases now world.deliveries in
    let retried = returned_rows now limit skipped rows in
    (
      length retried,
      retry_rows out now retried
          (record { deliveries = lease_rows now limit skipped rows; posts = world.posts }),
    )
