-- ===== src/Alerts/Webhook/Tests.antt =====
-- Deliveries to one endpoint that answers and one that does not.
use procintel.Common.{
  ℕ, ◌+◌, ◌≡◌, refl, Bool, true, false, none, some, String, List, [], ◌∷◌, map, All, if◌then◌else◌,
  str_eq,
}
use procintel.Common.Json
use procintel.Common.PrimaryKey.{IsNodup}
use procintel.Common.Clock.{minutes}
use procintel.Alerts.Delivery.{
  Outside, ChannelType, Target, Event, Delivery, Status, World, deliver, next_retry_at,
}
use procintel.Alerts.Webhook.{retry_pending_deliveries, recover_leases, returned_rows}
use procintel.Alerts.Webhook.Once.{deliver_again_does_nothing}
use procintel.Alerts.Webhook.Attempts.{IsBounded, retry-IsBounded, deliver-IsBounded}
use procintel.Alerts.Webhook.Settled.{Untouched, retry-leaves-settled}

abbrev outside : Outside
outside = record {
  render = λ channel event key now. "body";
  hmac = λ secret body. "mac";
  bare_body = λ key. "bare";
  respond = λ post. if str_eq post.url "https://up" then some 204 else none;
  fresh = λ target. target + 100;
}

abbrev target : ℕ → String → Target
target id url = record {
  id = id;
  alert_rule_id = 5;
  channel_type = ChannelType.webhook;
  target = url;
  secret = some "s";
  is_active = true;
}

abbrev targets : List Target
targets = target 1 "https://up" ∷ target 2 "https://down" ∷ []

abbrev event : Event
event = record {
  alert_rule_id = 5;
  tenant_id = 9;
  alert_event_id = 7;
  event_type = "contract.created";
  payload = Json.end;
}

abbrev start : World
start = record { deliveries = []; posts = [] }

abbrev hour : ℕ
hour = minutes 60

abbrev delivered_once : World
delivered_once = deliver outside ChannelType.webhook targets event (λ target. target + hour) start

abbrev free : ℕ → Bool
free id = false

first_statuses :
    map (λ d. d.status) delivered_once.deliveries ≡ Status.delivered ∷ Status.pending ∷ []
unfolding deliver
first_statuses = refl

abbrev swept : World
swept = (retry_pending_deliveries outside (hour + minutes 3) 10 free delivered_once).1

swept_attempts : map (λ d. d.attempt_count) swept.deliveries ≡ 1 ∷ 2 ∷ []
unfolding deliver retry_pending_deliveries next_retry_at
swept_attempts = refl

deliver_again_does_nothing_example :
    deliver outside ChannelType.webhook targets event (λ target. 2 + hour) delivered_once
    ≡ delivered_once
deliver_again_does_nothing_example =
    deliver_again_does_nothing outside ChannelType.webhook targets event (λ target. target + hour)
      (λ target. 2 + hour) start

distinct_ids : IsNodup (map (λ r. r.id) delivered_once.deliveries)
unfolding deliver
distinct_ids = ((refl, tt), (tt, tt))

retry-IsBounded_example : All IsBounded swept.deliveries
retry-IsBounded_example =
    retry-IsBounded outside (hour + minutes 3) 10 free delivered_once distinct_ids (
      deliver-IsBounded outside ChannelType.webhook targets event (λ target. target + hour) start
        tt)

retry-leaves-settled_example : Untouched delivered_once.deliveries swept.deliveries
retry-leaves-settled_example =
    retry-leaves-settled outside (hour + minutes 3) 10 free delivered_once distinct_ids

abbrev leased : List Delivery
leased =
    returned_rows (hour + minutes 3) 10 free
      (recover_leases (hour + minutes 3) delivered_once.deliveries)
