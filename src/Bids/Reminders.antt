-- ===== src/Bids/Reminders.antt =====
-- services/bids/reminders.py: the sweep `deliver_due_reminders` over the rows of bid_reminders.
pub mod Attempts
pub mod Stranded
mod Tests
use procintel.Common.{
  ℕ, ◌+◌, ◌-◌, ◌*◌, ◌^◌, Bool, true, false, not, Option, none, some, String, List, [], ◌∷◌, ◌&&◌,
  ◌||◌, ltb, leb, ◌==◌, if◌then◌else◌, min, take, any_of, null_or_le, null_or_older,
}
use procintel.Common.Table.{select_where, update_where, order_by}
use procintel.Common.Clock.{minutes, seconds}

abbrev pub max_attempts : ℕ
max_attempts = 8

abbrev pub lease_timeout : ℕ
lease_timeout = minutes 15

abbrev pub retry_base_seconds : ℕ
retry_base_seconds = 60

abbrev pub retry_cap_seconds : ℕ
retry_cap_seconds = 21_600

-- `_next_retry_at`
unfoldable pub next_retry_at : ℕ → ℕ → ℕ
next_retry_at now attempt_count =
    now + seconds (min (retry_base_seconds * 2 ^ (attempt_count - 1)) retry_cap_seconds)

pub data Channel : Type 0 where
  in_app email webhook : Channel

pub data Status : Type 0 where
  pending delivering sent failed other : Status

pub data ReminderError : Type 0 where
  recovered_stale_lease not_configured : ReminderError
  endpoint_returned : (status_code : ℕ) → ReminderError
  transport : String → ReminderError

pub record Reminder : Type 0 where
  pub id : ℕ
  pub tenant_id : ℕ
  pub channel : Channel
  pub remind_at : ℕ
  pub status : Status
  pub attempt_count : ℕ
  pub last_attempt_at : Option ℕ
  pub next_retry_at : Option ℕ
  pub last_error : Option ReminderError
  pub sent_at : Option ℕ

-- What the endpoint does with a reminder: a status code, or an `httpx.HTTPError`.
pub data Response : Type 0 where
  answered : (status_code : ℕ) → Response
  http_error : String → Response

-- Whether the environment has a URL for the channel, the endpoint, and the rows that other
-- transactions hold locked.
pub record Outside : Type 0 where
  pub has_url : Channel → Bool
  pub respond : Reminder → Response
  pub skipped : ℕ → Bool

pub record Counts : Type 0 where
  pub processed : ℕ
  pub sent : ℕ
  pub failed : ℕ

unfoldable pub is_delivering : Status → Bool
is_delivering Status.delivering = true
is_delivering _ = false

unfoldable pub is_pending : Status → Bool
is_pending Status.pending = true
is_pending _ = false

unfoldable pub is_stale : ℕ → ℕ → Reminder → Bool
unfolding is_delivering
is_stale now tenant_id row =
    row.tenant_id == tenant_id
    && (is_delivering row.status && null_or_older row.last_attempt_at lease_timeout now)

abbrev pub recovered : ℕ → Reminder → Reminder
recovered now row = record row {
  status = Status.pending;
  next_retry_at = some now;
  last_error = some recovered_stale_lease;
}

unfoldable pub is_due : ℕ → ℕ → Reminder → Bool
unfolding is_pending
is_due now tenant_id row =
    row.tenant_id == tenant_id
    && (is_pending row.status
        && (leb row.remind_at now
            && (null_or_le row.next_retry_at now && ltb row.attempt_count max_attempts)))

abbrev pub earlier : Reminder → Reminder → Bool
earlier a b = leb a.remind_at b.remind_at

unfoldable pub candidates : Outside → ℕ → ℕ → ℕ → List Reminder → List Reminder
unfolding is_due select_where order_by
candidates out now tenant_id limit rows =
    take limit
      (order_by earlier (select_where (λ r. is_due now tenant_id r && not (out.skipped r.id)) rows))

abbrev pub is_candidate : List Reminder → Reminder → Bool
is_candidate chosen row = any_of (λ c. c.id == row.id) chosen

abbrev pub leased : ℕ → Reminder → Reminder
leased now row = record row {
  status = Status.delivering;
  attempt_count = row.attempt_count + 1;
  last_attempt_at = some now;
  next_retry_at = none;
  last_error = none;
}

-- The outcome of one delivery: none when it was delivered, or else the error and whether it is
-- final.
pub data Outcome : Type 0 where
  delivered : Outcome
  undelivered : (terminal : Bool) → ReminderError → Outcome

unfoldable pub outcome_of : Response → Outcome
outcome_of (answered status_code) =
    if leb 200 status_code && ltb status_code 300
    then delivered
    else undelivered false (endpoint_returned status_code)
outcome_of (http_error message) = undelivered false (transport message)

-- A reminder in the app needs no call; a channel with no URL cannot be used.
unfoldable pub attempt : Outside → Reminder → Outcome
unfolding outcome_of
attempt out row = elim row.channel [
  | in_app ↦ delivered
  | email ↦
      if out.has_url email then outcome_of (out.respond row) else undelivered true not_configured
  | webhook ↦
      if out.has_url webhook then outcome_of (out.respond row) else undelivered true not_configured
]

-- The values of the last UPDATE; `attempts` is the count in the claimed row.
unfoldable pub settled : ℕ → ℕ → Outcome → Reminder → Reminder
unfolding next_retry_at
settled now attempts delivered row = record row {
  status = Status.sent;
  sent_at = some now;
  next_retry_at = none;
  last_error = none;
}
settled now attempts (undelivered terminal error) row = record row {
  status = if terminal || leb max_attempts attempts then Status.failed else Status.pending;
  sent_at = none;
  next_retry_at =
      if terminal || leb max_attempts attempts then none else some (next_retry_at now attempts);
  last_error = some error;
}

abbrev pub counted : Outcome → Counts → Counts
counted delivered c = record c { processed = c.processed + 1; sent = c.sent + 1 }
counted (undelivered terminal error) c = record c {
  processed = c.processed + 1;
  failed = c.failed + 1;
}

abbrev pub is_at : Option ℕ → ℕ → Bool
is_at none now = false
is_at (some t) now = t == now

abbrev pub is_held : ℕ → ℕ → Reminder → Bool
is_held now id row = row.id == id && (is_delivering row.status && is_at row.last_attempt_at now)

-- The loop over the claimed rows.
unfoldable pub deliver_rows :
    Outside → ℕ → List Reminder → Counts → List Reminder → Counts × List Reminder
unfolding attempt settled update_where
deliver_rows out now [] counts table = (counts, table)
deliver_rows out now (row ∷ rows) counts table =
    deliver_rows out now rows (counted (attempt out row) counts)
      (update_where (is_held now row.id) (settled now row.attempt_count (attempt out row)) table)

abbrev pub recover_leases : ℕ → ℕ → List Reminder → List Reminder
recover_leases now tenant_id = update_where (is_stale now tenant_id) (recovered now)

abbrev pub lease_rows : ℕ → List Reminder → List Reminder → List Reminder
lease_rows now chosen = update_where (is_candidate chosen) (leased now)

-- What the sweep does for one tenant.
unfoldable pub deliver_tenant :
    Outside → ℕ → ℕ → ℕ → Counts → List Reminder → Counts × List Reminder
unfolding is_stale candidates update_where select_where deliver_rows
deliver_tenant out now limit tenant_id counts rows =
    let recovered_rows = recover_leases now tenant_id rows in
    let chosen = candidates out now tenant_id (limit - counts.processed) recovered_rows in
    let table = lease_rows now chosen recovered_rows in
    deliver_rows out now (select_where (is_candidate chosen) table) counts table

-- `deliver_due_reminders`: the tenants in turn, until the limit is reached. A tenant for which
-- nothing is claimed, so that nothing more is processed, does not end the loop.
unfoldable pub deliver_due_reminders :
    Outside → ℕ → ℕ → List ℕ → Counts → List Reminder → Counts × List Reminder
unfolding deliver_tenant
deliver_due_reminders out now limit [] counts rows = (counts, rows)
deliver_due_reminders out now limit (tenant_id ∷ tenants) counts rows =
    let one = deliver_tenant out now limit tenant_id counts rows in
    let rest = deliver_due_reminders out now limit tenants one.0 one.1 in
    if ltb counts.processed one.0.processed && leb limit one.0.processed then one else rest
