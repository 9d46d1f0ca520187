-- ===== src/Bids/Reminders/Attempts.antt =====
-- services/bids/reminders.py: the number of attempts at a reminder.
use procintel.Common.{
  ℕ, ◌-◌, ◌≤◌, ◌<◌, ◌≡◌, refl, ◌∙◌, Bool, true, not, ◌&&◌, List, [], ◌∷◌, ltb, leb, arith, map, All,
  All-both, Bool-cases, inl, inr, and→both,
}
use procintel.Common.PrimaryKey.{IsNodup, selected_first}
use procintel.Common.Table.{
  select_where, update_where, All-update_where, All-update_to, map-update_where,
}
use procintel.Bids.Reminders.{
  Reminder, Outside, Counts, Outcome, delivered, undelivered, max_attempts, is_stale, is_due,
  recovered, leased, settled, earlier, candidates, is_candidate, is_held, counted, attempt,
  deliver_rows, recover_leases, lease_rows, deliver_tenant, deliver_due_reminders,
}

abbrev pub IsWithin : Reminder → Type 0
IsWithin row = row.attempt_count ≤ max_attempts

abbrev pub ids_of : List Reminder → List ℕ
ids_of = map (λ r. r.id)

settled-IsWithin :
    (now attempts : ℕ) (o : Outcome) (row : Reminder)
    → IsWithin row
    → IsWithin (settled now attempts o row)
unfolding settled
settled-IsWithin now attempts delivered row h = h
settled-IsWithin now attempts (undelivered terminal error) row h = h

pub settled-id :
    (now attempts : ℕ) (o : Outcome) (row : Reminder) → (settled now attempts o row).id ≡ row.id
unfolding settled
settled-id now attempts delivered row = refl
settled-id now attempts (undelivered terminal error) row = refl

module _ (out : Outside) (now : ℕ) where
  deliver_rows-IsWithin :
      (rows : List Reminder) (counts : Counts) (table : List Reminder)
      → All IsWithin table
      → All IsWithin (deliver_rows out now rows counts table).1
  unfolding deliver_rows
  deliver_rows-IsWithin [] counts table h = h
  deliver_rows-IsWithin (row ∷ rows) counts table h =
      deliver_rows-IsWithin rows (counted (attempt out row) counts)
        (update_where (is_held now row.id) (settled now row.attempt_count (attempt out row)) table)
        (All-update_where IsWithin (is_held now row.id)
          (settled now row.attempt_count (attempt out row)) table
          (λ r _. settled-IsWithin now row.attempt_count (attempt out row) r) h)

  deliver_rows-ids :
      (rows : List Reminder) (counts : Counts) (table : List Reminder)
      → ids_of (deliver_rows out now rows counts table).1 ≡ ids_of table
  unfolding deliver_rows
  deliver_rows-ids [] counts table = refl
  deliver_rows-ids (row ∷ rows) counts table =
      deliver_rows-ids rows (counted (attempt out row) counts)
        (update_where (is_held now row.id) (settled now row.attempt_count (attempt out row)) table)
      ∙ map-update_where (λ r. r.id) (is_held now row.id)
          (settled now row.attempt_count (attempt out row)) table
          (settled-id now row.attempt_count (attempt out row))

  recover_leases-ids :
      (tenant_id : ℕ) (rows : List Reminder)
      → ids_of (recover_leases now tenant_id rows) ≡ ids_of rows
  recover_leases-ids tenant_id rows =
      map-update_where (λ r. r.id) (is_stale now tenant_id) (recovered now) rows (λ r. refl)

  due-attempts :
      (tenant_id : ℕ) (row : Reminder)
      → is_due now tenant_id row ≡ true
      → row.attempt_count < max_attempts
  unfolding is_due
  due-attempts tenant_id row h = ground arith

  lease_rows-IsWithin :
      (tenant_id limit : ℕ) (rows : List Reminder)
      → IsNodup (ids_of rows)
      → All IsWithin rows
      → All IsWithin (lease_rows now (candidates out now tenant_id limit rows) rows)
  unfolding candidates
  lease_rows-IsWithin tenant_id limit rows distinct h =
      let chosen : List Reminder = candidates out now tenant_id limit rows in
      let ready : Reminder → Bool = λ r. is_due now tenant_id r && not (out.skipped r.id) in
      All-update_to (λ r. IsWithin r × (is_candidate chosen r ≡ true → ready r ≡ true)) IsWithin
        (is_candidate chosen) (leased now) rows
        (λ r among both.
          omega (
            arith,
            due-attempts tenant_id r (and→both (is_due now tenant_id r) _ (both.1 among)).0,
          ))
        (λ r _ both. both.0)
        (All-both IsWithin (λ r. is_candidate chosen r ≡ true → ready r ≡ true)
          (λ r. IsWithin r × (is_candidate chosen r ≡ true → ready r ≡ true)) rows
          (λ r within picked. (within, picked)) h
          (selected_first (λ r. r.id) ready earlier limit rows distinct))

  deliver_tenant-IsWithin :
      (limit tenant_id : ℕ) (counts : Counts) (rows : List Reminder)
      → IsNodup (ids_of rows)
      → All IsWithin rows
      → All IsWithin (deliver_tenant out now limit tenant_id counts rows).1
  unfolding deliver_tenant
  deliver_tenant-IsWithin limit tenant_id counts rows distinct h =
      let rows' : List Reminder = recover_leases now tenant_id rows in
      let chosen : List Reminder = candidates out now tenant_id (limit - counts.processed) rows' in
      let table : List Reminder = lease_rows now chosen rows' in
      deliver_rows-IsWithin (select_where (is_candidate chosen) table) counts table (
        lease_rows-IsWithin tenant_id (limit - counts.processed) rows'
          (rw (recover_leases-ids tenant_id rows) distinct)
          (All-update_where IsWithin (is_stale now tenant_id) (recovered now) rows (λ r _ w. w) h))

  deliver_tenant-ids :
      (limit tenant_id : ℕ) (counts : Counts) (rows : List Reminder)
      → ids_of (deliver_tenant out now limit tenant_id counts rows).1 ≡ ids_of rows
  unfolding deliver_tenant
  deliver_tenant-ids limit tenant_id counts rows =
      let rows' : List Reminder = recover_leases now tenant_id rows in
      let chosen : List Reminder = candidates out now tenant_id (limit - counts.processed) rows' in
      let table : List Reminder = lease_rows now chosen rows' in
      deliver_rows-ids (select_where (is_candidate chosen) table) counts table
      ∙ (map-update_where (λ r. r.id) (is_candidate chosen) (leased now) rows' (λ r. refl)
          ∙ recover_leases-ids tenant_id rows)

  -- A sweep over any tenants keeps the attempts at every reminder within eight, where they are so
  -- before and the ids of the rows are distinct.
  pub sweep-IsWithin :
      (limit : ℕ) (tenants : List ℕ) (counts : Counts) (rows : List Reminder)
      → IsNodup (ids_of rows)
      → All IsWithin rows
      → All IsWithin (deliver_due_reminders out now limit tenants counts rows).1
  unfolding deliver_due_reminders
  sweep-IsWithin limit [] counts rows distinct h = h
  sweep-IsWithin limit (tenant_id ∷ tenants) counts rows distinct h =
      let one : Counts × List Reminder = deliver_tenant out now limit tenant_id counts rows in
      let within : All IsWithin one.1 =
        deliver_tenant-IsWithin limit tenant_id counts rows distinct h in
      elim (Bool-cases (ltb counts.processed one.0.processed && leb limit one.0.processed)) [
        | inl full ↦ rw full within
        | inr more ↦ rw more (
            sweep-IsWithin limit tenants one.0 one.1
              (rw (deliver_tenant-ids limit tenant_id counts rows) distinct) within)
      ]
