-- ===== src/Alerts/Webhook/Settled.antt =====
-- A row that is settled, DELIVERED or FAILED, is never touched again, and what a sweep posts.
use procintel.Common.{
  ℕ, ◌+◌, ◌≡◌, refl, Bool, true, false, ◌&&◌, List, [], ◌∷◌, ◌++◌, map, arith, ◌==◌, All, All-map,
  Bool-cases, inl, inr, length, ◌∙◌, sym,
}
use procintel.Common.Table.{update_where, All-true}
use procintel.Common.PrimaryKey.{IsNodup}
use mathlib.Core.List.{append-nil, append_assoc}
use procintel.Alerts.Delivery.{Outside, Delivery, Status, World, is_delivering}
use procintel.Alerts.Webhook.{
  is_stale_lease, recovered_row, recover_leases, leased_row, lease_rows, in_rows, retry_candidates,
  returned_rows, retried_row, retry_post, retry_rows, retry_pending_deliveries, is_due,
}
use procintel.Alerts.Webhook.Attempts.{candidates-due, recover_leases-ids}

abbrev pub is_settled : Status → Bool
is_settled Status.delivered = true
is_settled Status.failed = true
is_settled _ = false

-- Row by row, a settled row of the first table stands unchanged in the second.
abbrev pub Untouched : List Delivery → List Delivery → Type 0
Untouched [] [] = Unit
Untouched [] (s ∷ ss) = ⊥
Untouched (r ∷ rs) [] = ⊥
Untouched (r ∷ rs) (s ∷ ss) = (is_settled r.status ≡ true → s ≡ r) × Untouched rs ss

Untouched-refl : (rows : List Delivery) → Untouched rows rows
Untouched-refl [] = tt
Untouched-refl (r ∷ rows) = ((λ _. refl), Untouched-refl rows)

Untouched-trans :
    (as_ bs cs : List Delivery) → Untouched as_ bs → Untouched bs cs → Untouched as_ cs
Untouched-trans [] [] [] h k = tt
Untouched-trans [] [] (c ∷ cs) h k = k
Untouched-trans [] (b ∷ bs) cs h k = absurd h
Untouched-trans (a ∷ as_) [] cs h k = absurd h
Untouched-trans (a ∷ as_) (b ∷ bs) [] h k = k
Untouched-trans (a ∷ as_) (b ∷ bs) (c ∷ cs) h k =
    ((λ s. k.0 (rw (h.0 s) s) ∙ h.0 s), Untouched-trans as_ bs cs h.1 k.1)

-- An update whose condition no settled row meets.
update-Untouched :
    (p : Delivery → Bool) (f : Delivery → Delivery) (rows : List Delivery)
    → All (λ r. p r ≡ true → is_settled r.status ≡ false) rows
    → Untouched rows (update_where p f rows)
unfolding update_where
update-Untouched p f [] h = tt
update-Untouched p f (r ∷ rows) h = elim (Bool-cases (p r)) [
  | inl hit ↦ rw hit ((λ s. cc (h.0 hit)), update-Untouched p f rows h.1)
  | inr miss ↦ rw miss ((λ s. refl), update-Untouched p f rows h.1)
]

delivering-not-settled :
    (r row : Delivery)
    → (r.id == row.id && is_delivering r.status) ≡ true
    → is_settled r.status ≡ false
unfolding is_delivering
delivering-not-settled r row h = ground arith

stale-not-settled :
    (now : ℕ) (r : Delivery) → is_stale_lease now r ≡ true → is_settled r.status ≡ false
unfolding is_stale_lease
stale-not-settled now r h = ground arith

due-not-settled : (now : ℕ) (r : Delivery) → is_due now r ≡ true → is_settled r.status ≡ false
unfolding is_due
due-not-settled now r h = ground arith

retry_rows-Untouched :
    (out : Outside) (now : ℕ) (rows : List Delivery) (world : World)
    → Untouched world.deliveries (retry_rows out now rows world).deliveries
unfolding retry_rows
retry_rows-Untouched out now [] world = Untouched-refl world.deliveries
retry_rows-Untouched out now (row ∷ rows) world =
    let ours : Delivery → Bool = λ d. d.id == row.id && is_delivering d.status in
    let after : Delivery → Delivery =
      retried_row now (row.attempt_count + 1) (out.respond (retry_post out row)) in
    let world' : World = record {
      deliveries = update_where ours after world.deliveries;
      posts = world.posts ++ retry_post out row ∷ [];
    } in
    Untouched-trans world.deliveries world'.deliveries (retry_rows out now rows world').deliveries
      (update-Untouched ours after world.deliveries (
        All-map (λ r. Unit {0}) (λ r. ours r ≡ true → is_settled r.status ≡ false) world.deliveries
          (λ r _ h. delivering-not-settled r row h) (All-true world.deliveries)))
      (retry_rows-Untouched out now rows world')

recover_leases-Untouched :
    (now : ℕ) (rows : List Delivery) → Untouched rows (recover_leases now rows)
recover_leases-Untouched now rows = update-Untouched (is_stale_lease now) (recovered_row now) rows (
    All-map (λ r. Unit {0}) (λ r. is_stale_lease now r ≡ true → is_settled r.status ≡ false) rows
      (λ r _ h. stale-not-settled now r h) (All-true rows))

lease_rows-Untouched :
    (now limit : ℕ) (skipped : ℕ → Bool) (rows : List Delivery)
    → IsNodup (map (λ r. r.id) rows)
    → Untouched rows (lease_rows now limit skipped rows)
unfolding lease_rows
lease_rows-Untouched now limit skipped rows distinct =
    update-Untouched (in_rows (retry_candidates now limit skipped rows)) (leased_row now) rows (
      All-map
        (λ r. in_rows (retry_candidates now limit skipped rows) r ≡ true → is_due now r ≡ true)
        (λ r.
          in_rows (retry_candidates now limit skipped rows) r ≡ true → is_settled r.status ≡ false)
        rows (λ r due among. due-not-settled now r (due among))
        (candidates-due now limit skipped rows distinct))

-- Where the ids of the rows are distinct, a sweep leaves every DELIVERED and every FAILED row
-- exactly as it was.
pub retry-leaves-settled :
    (out : Outside) (now limit : ℕ) (skipped : ℕ → Bool) (world : World)
    → IsNodup (map (λ r. r.id) world.deliveries)
    → Untouched world.deliveries (retry_pending_deliveries out now limit skipped world).1.deliveries
unfolding retry_pending_deliveries
retry-leaves-settled out now limit skipped world distinct =
    let rows : List Delivery = recover_leases now world.deliveries in
    let leased : List Delivery = lease_rows now limit skipped rows in
    let distinct' : IsNodup (map (λ r. r.id) rows) =
      rw (recover_leases-ids now world.deliveries) distinct in
    let world' : World = record { deliveries = leased; posts = world.posts } in
    let retried : List Delivery = returned_rows now limit skipped rows in
    Untouched-trans world.deliveries leased (retry_rows out now retried world').deliveries
      (Untouched-trans world.deliveries rows leased (recover_leases-Untouched now world.deliveries)
        (lease_rows-Untouched now limit skipped rows distinct'))
      (retry_rows-Untouched out now retried world')

posts-retry_rows :
    (out : Outside) (now : ℕ) (rows : List Delivery) (world : World)
    → (retry_rows out now rows world).posts ≡ world.posts ++ map (retry_post out) rows
unfolding retry_rows
posts-retry_rows out now [] world = sym (append-nil world.posts)
posts-retry_rows out now (row ∷ rows) world =
    posts-retry_rows out now rows _
    ∙ append_assoc world.posts (retry_post out row ∷ []) (map (retry_post out) rows)

-- The number that a sweep returns is the number of its POSTs, and each POST repeats the stored
-- address, body and signature of a row that it leased.
pub sweep_posts :
    (out : Outside) (now limit : ℕ) (skipped : ℕ → Bool) (world : World)
    → let leased = returned_rows now limit skipped (recover_leases now world.deliveries) in
      ((retry_pending_deliveries out now limit skipped world).0 ≡ length leased)
      × ((retry_pending_deliveries out now limit skipped world).1.posts
          ≡ world.posts ++ map (retry_post out) leased)
unfolding retry_pending_deliveries
sweep_posts out now limit skipped world = (
  refl,
  posts-retry_rows out now (returned_rows now limit skipped (recover_leases now world.deliveries))
      (record {
        deliveries = lease_rows now limit skipped (recover_leases now world.deliveries);
        posts = world.posts;
      }),
)
