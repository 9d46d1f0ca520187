-- ===== src/Bids/Reminders/Tests.antt =====
-- services/bids/reminders.py on two tenants.
use procintel.Common.{ℕ, ◌≡◌, refl, true, false, arith, some, none, List, [], ◌∷◌, map, All}
use procintel.Common.PrimaryKey.{IsNodup}
use procintel.Common.Clock.{minutes}
use procintel.Bids.Reminders.{
  Reminder, Channel, Status, Outside, Counts, answered, in_app, email, webhook, is_stale,
  deliver_due_reminders,
}
use procintel.Bids.Reminders.Attempts.{IsWithin, ids_of, sweep-IsWithin}
use procintel.Bids.Reminders.Stranded.{
  WhenOwn, Stuck, Later, no_counts, sweep_all, last_attempt_is_stranded,
}

abbrev reminder : ℕ → ℕ → Channel → Reminder
reminder id tenant_id channel = record {
  id = id;
  tenant_id = tenant_id;
  channel = channel;
  remind_at = 10;
  status = Status.pending;
  attempt_count = 0;
  last_attempt_at = none;
  next_retry_at = none;
  last_error = none;
  sent_at = none;
}

-- The endpoint is down, and no URL is set for the webhook.
abbrev outside : Outside
outside = record {
  has_url = λ channel. elim channel [ in_app ↦ false | email ↦ true | webhook ↦ false ];
  respond = λ row. answered 503;
  skipped = λ id. false;
}

abbrev none_yet : Counts
none_yet = record { processed = 0; sent = 0; failed = 0 }

abbrev rows : List Reminder
rows = reminder 1 7 in_app ∷ reminder 2 7 email ∷ reminder 3 8 webhook ∷ []

abbrev after : Counts × List Reminder
after = deliver_due_reminders outside 20 500 (7 ∷ 8 ∷ []) none_yet rows

statuses : map (λ r. r.status) after.1 ≡ Status.sent ∷ Status.pending ∷ Status.failed ∷ []
unfolding deliver_due_reminders
statuses = refl

rows_distinct : IsNodup (ids_of rows)
rows_distinct = ((refl, (refl, tt)), ((refl, tt), (tt, tt)))

rows-IsWithin : All IsWithin rows
rows-IsWithin = (omega arith, (omega arith, (omega arith, tt)))

sweep-IsWithin_example : All IsWithin after.1
sweep-IsWithin_example =
    sweep-IsWithin outside 20 500 (7 ∷ 8 ∷ []) none_yet rows rows_distinct rows-IsWithin

abbrev lost : Reminder
lost = record (reminder 4 7 email) {
  status = Status.delivering;
  attempt_count = 8;
  last_attempt_at = some 20;
}

abbrev later : List Later
later = record { out = outside; now = minutes 9_000; limit = 500; tenants = 8 ∷ 7 ∷ [] } ∷ []

lost-is_stale : is_stale (minutes 20) 7 lost ≡ true
unfolding is_stale
lost-is_stale = refl

last_attempt_is_stranded_example : All (WhenOwn Stuck 4) (
    sweep_all later
      (deliver_due_reminders outside (minutes 20) 500 (7 ∷ 8 ∷ []) no_counts (lost ∷ rows)).1)
last_attempt_is_stranded_example =
    last_attempt_is_stranded outside (minutes 20) 500 7 4 (8 ∷ []) later (lost ∷ rows)
      ((λ own. (lost-is_stale, refl)), ((λ own. cc), ((λ own. cc), ((λ own. cc), tt))))
