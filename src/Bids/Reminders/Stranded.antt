-- ===== src/Bids/Reminders/Stranded.antt =====
-- services/bids/reminders.py: a reminder whose process is lost in its last attempt.
use procintel.Common.{
  ℕ, ◌-◌, ◌≡◌, refl, Bool, true, false, not, ◌&&◌, List, [], ◌∷◌, ltb, leb, arith, ◌==◌, All,
  All-take, Bool-cases, inl, inr, and→both,
}
use procintel.Common.Table.{
  select_where, update_where, All-update_where, All-update_to, All-select_where, All-order_by,
}
use procintel.Bids.Reminders.{
  Reminder, Outside, Counts, Status, max_attempts, is_stale, is_due, is_delivering, recovered,
  leased, settled, earlier, candidates, is_candidate, is_held, counted, attempt, deliver_rows,
  recover_leases, lease_rows, deliver_tenant, deliver_due_reminders,
}
use procintel.Bids.Reminders.Attempts.{settled-id}

-- What holds of the rows with an id.
abbrev pub WhenOwn : (Reminder → Type 0) → ℕ → Reminder → Type 0
WhenOwn P id row = (row.id == id) ≡ true → P row

-- PENDING with all the attempts made.
abbrev pub Stuck : Reminder → Type 0
Stuck row = (row.status ≡ Status.pending) × (row.attempt_count ≡ max_attempts)

Stuck-not-due : (now tenant_id : ℕ) (row : Reminder) → Stuck row → is_due now tenant_id row ≡ false
unfolding is_due
Stuck-not-due now tenant_id row h = ground arith

Stuck-not-stale :
    (now tenant_id : ℕ) (row : Reminder) → Stuck row → is_stale now tenant_id row ≡ false
unfolding is_stale is_delivering
Stuck-not-stale now tenant_id row h = ground arith

Stuck-not-held : (now id : ℕ) (row : Reminder) → Stuck row → is_held now id row ≡ false
unfolding is_delivering
Stuck-not-held now id row h = ground arith

module _ (out : Outside) (now id : ℕ) where
  deliver_rows-Stuck :
      (rows : List Reminder) (counts : Counts) (table : List Reminder)
      → All (WhenOwn Stuck id) table
      → All (WhenOwn Stuck id) (deliver_rows out now rows counts table).1
  unfolding deliver_rows
  deliver_rows-Stuck [] counts table h = h
  deliver_rows-Stuck (row ∷ rows) counts table h =
      deliver_rows-Stuck rows (counted (attempt out row) counts)
        (update_where (is_held now row.id) (settled now row.attempt_count (attempt out row)) table)
        (All-update_where (WhenOwn Stuck id) (is_held now row.id)
          (settled now row.attempt_count (attempt out row)) table
          (λ r held stuck own. elim (Bool-cases (r.id == id)) [
            | inl mine ↦ cc (held, Stuck-not-held now row.id r (stuck mine))
            | inr other ↦
                cc (other, (rw (settled-id now row.attempt_count (attempt out row) r) at own))
          ])
          h)

  candidates-others :
      (tenant_id limit : ℕ) (rows : List Reminder)
      → All (WhenOwn Stuck id) rows
      → All (λ row. (row.id == id) ≡ false) (candidates out now tenant_id limit rows)
  unfolding candidates
  candidates-others tenant_id limit rows h =
      let ready : Reminder → Bool = λ r. is_due now tenant_id r && not (out.skipped r.id) in
      All-take (λ row. (row.id == id) ≡ false) limit _
        (All-order_by (λ row. (row.id == id) ≡ false) earlier _
          (All-select_where (WhenOwn Stuck id) (λ row. (row.id == id) ≡ false) ready rows
            (λ row hit stuck. elim (Bool-cases (row.id == id)) [
              | inl own ↦ cc (
                (and→both (is_due now tenant_id row) _ hit).0,
                Stuck-not-due now tenant_id row (stuck own),
              )
              | inr other ↦ other
            ])
            h))

  not_among :
      (chosen : List Reminder) (row : Reminder)
      → All (λ c. (c.id == id) ≡ false) chosen
      → (row.id == id) ≡ true
      → is_candidate chosen row ≡ false
  not_among [] row h own = refl
  not_among (c ∷ chosen) row h own = ground (arith, not_among chosen row h.1 own)

  lease_rows-Stuck :
      (chosen rows : List Reminder)
      → All (λ c. (c.id == id) ≡ false) chosen
      → All (WhenOwn Stuck id) rows
      → All (WhenOwn Stuck id) (lease_rows now chosen rows)
  lease_rows-Stuck chosen rows others h =
      All-update_where (WhenOwn Stuck id) (is_candidate chosen) (leased now) rows
        (λ row among stuck own. cc (among, not_among chosen row others own)) h

  -- What follows the recovery of the leases.
  rest-Stuck :
      (limit tenant_id : ℕ) (counts : Counts) (rows : List Reminder)
      → All (WhenOwn Stuck id) (recover_leases now tenant_id rows)
      → All (WhenOwn Stuck id) (deliver_tenant out now limit tenant_id counts rows).1
  unfolding deliver_tenant
  rest-Stuck limit tenant_id counts rows h =
      let rows' : List Reminder = recover_leases now tenant_id rows in
      let chosen : List Reminder = candidates out now tenant_id (limit - counts.processed) rows' in
      let table : List Reminder = lease_rows now chosen rows' in
      deliver_rows-Stuck (select_where (is_candidate chosen) table) counts table (
        lease_rows-Stuck chosen rows'
          (candidates-others tenant_id (limit - counts.processed) rows' h) h)

  deliver_tenant-Stuck :
      (limit tenant_id : ℕ) (counts : Counts) (rows : List Reminder)
      → All (WhenOwn Stuck id) rows
      → All (WhenOwn Stuck id) (deliver_tenant out now limit tenant_id counts rows).1
  deliver_tenant-Stuck limit tenant_id counts rows h = rest-Stuck limit tenant_id counts rows (
      All-update_where (WhenOwn Stuck id) (is_stale now tenant_id) (recovered now) rows
        (λ row stale stuck own. cc (stale, Stuck-not-stale now tenant_id row (stuck own))) h)

  -- A reminder that is lost in its last attempt is stuck after its tenant's turn.
  lost-Stuck :
      (limit tenant_id : ℕ) (counts : Counts) (rows : List Reminder)
      → All
          (WhenOwn
            (λ row. (is_stale now tenant_id row ≡ true) × (row.attempt_count ≡ max_attempts))
            id)
          rows
      → All (WhenOwn Stuck id) (deliver_tenant out now limit tenant_id counts rows).1
  lost-Stuck limit tenant_id counts rows h = rest-Stuck limit tenant_id counts rows (
      All-update_to
        (WhenOwn (λ row. (is_stale now tenant_id row ≡ true) × (row.attempt_count ≡ max_attempts))
          id)
        (WhenOwn Stuck id) (is_stale now tenant_id) (recovered now) rows
        (λ row stale lost own. (refl, (lost own).1)) (λ row miss lost own. cc (miss, (lost own).0))
        h)

  sweep-Stuck :
      (limit : ℕ) (tenants : List ℕ) (counts : Counts) (rows : List Reminder)
      → All (WhenOwn Stuck id) rows
      → All (WhenOwn Stuck id) (deliver_due_reminders out now limit tenants counts rows).1
  unfolding deliver_due_reminders
  sweep-Stuck limit [] counts rows h = h
  sweep-Stuck limit (tenant_id ∷ tenants) counts rows h =
      let one : Counts × List Reminder = deliver_tenant out now limit tenant_id counts rows in
      let stuck : All (WhenOwn Stuck id) one.1 =
        deliver_tenant-Stuck limit tenant_id counts rows h in
      elim (Bool-cases (ltb counts.processed one.0.processed && leb limit one.0.processed)) [
        | inl full ↦ rw full stuck
        | inr more ↦ rw more (sweep-Stuck limit tenants one.0 one.1 stuck)
      ]

  first-Stuck :
      (limit tenant_id : ℕ) (tenants : List ℕ) (counts : Counts) (rows : List Reminder)
      → All
          (WhenOwn
            (λ row. (is_stale now tenant_id row ≡ true) × (row.attempt_count ≡ max_attempts))
            id)
          rows
      → All
          (WhenOwn Stuck id)
          (deliver_due_reminders out now limit (tenant_id ∷ tenants) counts rows).1
  unfolding deliver_due_reminders
  first-Stuck limit tenant_id tenants counts rows h =
      let one : Counts × List Reminder = deliver_tenant out now limit tenant_id counts rows in
      let stuck : All (WhenOwn Stuck id) one.1 = lost-Stuck limit tenant_id counts rows h in
      elim (Bool-cases (ltb counts.processed one.0.processed && leb limit one.0.processed)) [
        | inl full ↦ rw full stuck
        | inr more ↦ rw more (sweep-Stuck limit tenants one.0 one.1 stuck)
      ]

-- A later sweep.
pub record Later : Type 0 where
  pub out : Outside
  pub now : ℕ
  pub limit : ℕ
  pub tenants : List ℕ

abbrev pub no_counts : Counts
no_counts = record { processed = 0; sent = 0; failed = 0 }

-- The table after the sweeps.
unfoldable pub sweep_all : List Later → List Reminder → List Reminder
unfolding deliver_due_reminders
sweep_all [] rows = rows
sweep_all (l ∷ later) rows =
    sweep_all later (deliver_due_reminders l.out l.now l.limit l.tenants no_counts rows).1

sweep_all-Stuck :
    (id : ℕ) (later : List Later) (rows : List Reminder)
    → All (WhenOwn Stuck id) rows
    → All (WhenOwn Stuck id) (sweep_all later rows)
unfolding sweep_all
sweep_all-Stuck id [] rows h = h
sweep_all-Stuck id (l ∷ later) rows h =
    sweep_all-Stuck id later (deliver_due_reminders l.out l.now l.limit l.tenants no_counts rows).1
      (sweep-Stuck l.out l.now id l.limit l.tenants no_counts rows h)

-- A reminder whose lease is stale in its eighth attempt is stranded: the sweep that comes to its
-- tenant first, and any later sweeps at any times over any tenants, with whatever the endpoints
-- answer, leave it PENDING with eight attempts, neither delivered nor FAILED.
pub last_attempt_is_stranded :
    (out : Outside) (now limit tenant_id id : ℕ) (tenants : List ℕ) (later : List Later)
    (rows : List Reminder)
    → All
        (WhenOwn
          (λ row. (is_stale now tenant_id row ≡ true) × (row.attempt_count ≡ max_attempts))
          id)
        rows
    → All (WhenOwn Stuck id) (
        sweep_all later
          (deliver_due_reminders out now limit (tenant_id ∷ tenants) no_counts rows).1)
last_attempt_is_stranded out now limit tenant_id id tenants later rows h =
    sweep_all-Stuck id later
      (deliver_due_reminders out now limit (tenant_id ∷ tenants) no_counts rows).1
      (first-Stuck out now id limit tenant_id tenants no_counts rows h)
