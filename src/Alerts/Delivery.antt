-- ===== src/Alerts/Delivery.antt =====
-- services/alerts/webhook_delivery.py: the rows of webhook_deliveries, and the first delivery of an
-- alert event to each of its targets, `deliver`. A row is addressed by its number in place of its
-- UUID, and the idempotency key `"{alert_event_id}:{target.id}"` is the pair of the two numbers.
use procintel.Common.{
  ℕ, ◌+◌, ◌*◌, ◌^◌, min, Bool, true, false, ◌&&◌, Option, none, some, String, List, [], ◌∷◌, ◌++◌,
  ltb, leb, ◌==◌, if◌then◌else◌, any_of, str_eq,
}
use procintel.Common.Table.{select_where, update_where}
use procintel.Common.Json.{Fields}
use procintel.Common.Clock.{seconds, minutes}

abbrev pub max_attempts : ℕ
max_attempts = 8

abbrev pub backoff_base_seconds : ℕ
backoff_base_seconds = 60

abbrev pub backoff_cap_seconds : ℕ
backoff_cap_seconds = 6 * 3600

abbrev pub delivery_lease_timeout : ℕ
delivery_lease_timeout = minutes 15

-- `_next_retry_at`
unfoldable pub next_retry_at : ℕ → ℕ → ℕ
next_retry_at now attempt_count =
    now + seconds (min (backoff_base_seconds * 2 ^ attempt_count) backoff_cap_seconds)

pub data ChannelType : Type 0 where
  webhook teams slack : ChannelType

pub record Target : Type 0 where
  pub id : ℕ
  pub alert_rule_id : ℕ
  pub channel_type : ChannelType
  pub target : String
  pub secret : Option String
  pub is_active : Bool

pub data Status : Type 0 where
  pending delivering delivered failed : Status

-- The fixed texts that the code stores as `last_error`.
pub data DeliveryError : Type 0 where
  initial_delivery_failed recovered_stale_lease attempts_exhausted attempt_failed : DeliveryError

abbrev pub IdempotencyKey : Type 0
IdempotencyKey = ℕ × ℕ

pub record Delivery : Type 0 where
  pub id : ℕ
  pub alert_event_id : ℕ
  pub tenant_id : ℕ
  pub endpoint_url : String
  pub idempotency_key : IdempotencyKey
  pub signature : String
  pub request_body : Option String
  pub status : Status
  pub attempt_count : ℕ
  pub last_attempt_at : Option ℕ
  pub next_retry_at : Option ℕ
  pub response_status : Option ℕ
  pub last_error : Option DeliveryError
  pub created_at : ℕ

-- The alert event that `deliver` is called with.
pub record Event : Type 0 where
  pub alert_rule_id : ℕ
  pub tenant_id : ℕ
  pub alert_event_id : ℕ
  pub event_type : String
  pub payload : Fields

-- One POST: its URL, body and signature.
pub record Post : Type 0 where
  pub url : String
  pub body : String
  pub signature : String

-- What the code calls and this model does not define: the rendering of a message as JSON text, the
-- HMAC, the text of a body that was never stored, and the network, whose answer to a POST is a
-- status code, or `none` for an httpx.HTTPError or a ValueError of the URL check.
pub record Outside : Type 0 where
  pub render : ChannelType → Event → IdempotencyKey → ℕ → String
  pub hmac : String → String → String
  pub bare_body : IdempotencyKey → String
  pub respond : Post → Option ℕ
  pub fresh : ℕ → ℕ

-- The table, and the POSTs made so far, the latest last.
pub record World : Type 0 where
  pub deliveries : List Delivery
  pub posts : List Post

unfoldable pub is_pending : Status → Bool
is_pending Status.pending = true
is_pending _ = false

unfoldable pub is_delivering : Status → Bool
is_delivering Status.delivering = true
is_delivering _ = false

unfoldable pub same_channel : ChannelType → ChannelType → Bool
same_channel ChannelType.webhook ChannelType.webhook = true
same_channel ChannelType.teams ChannelType.teams = true
same_channel ChannelType.slack ChannelType.slack = true
same_channel _ _ = false

-- `_sign`
unfoldable pub sign : Outside → Option String → String → String
sign out none body = ""
sign out (some secret) body = if str_eq secret "" then "" else out.hmac secret body

unfoldable pub succeeded : Option ℕ → Bool
succeeded none = false
succeeded (some status_code) = leb 200 status_code && ltb status_code 300

abbrev pub key_for : Event → Target → IdempotencyKey
key_for event target = (event.alert_event_id, target.id)

abbrev pub same_key : ℕ → IdempotencyKey → Delivery → Bool
same_key tenant_id key row =
    row.tenant_id == tenant_id && (row.idempotency_key.0 == key.0 && row.idempotency_key.1 == key.1)

-- INSERT … ON CONFLICT (tenant_id, idempotency_key) DO NOTHING finds the key taken.
abbrev pub has_key : ℕ → IdempotencyKey → List Delivery → Bool
has_key tenant_id key = any_of (same_key tenant_id key)

abbrev pub body_for : Outside → Event → Target → ℕ → String
body_for out event target now = out.render target.channel_type event (key_for event target) now

abbrev pub inserted_row : Outside → Event → Target → ℕ → Delivery
inserted_row out event target now = record {
  id = out.fresh target.id;
  alert_event_id = event.alert_event_id;
  tenant_id = event.tenant_id;
  endpoint_url = target.target;
  idempotency_key = key_for event target;
  signature = sign out target.secret (body_for out event target now);
  request_body = some (body_for out event target now);
  status = Status.delivering;
  attempt_count = 0;
  last_attempt_at = some now;
  next_retry_at = none;
  response_status = none;
  last_error = none;
  created_at = now;
}

abbrev pub first_attempt_row : ℕ → Option ℕ → Delivery → Delivery
first_attempt_row now response row =
    if succeeded response
    then record row {
      status = Status.delivered;
      attempt_count = 1;
      last_attempt_at = some now;
      response_status = response;
      next_retry_at = none;
      last_error = none;
    }
    else record row {
      status = Status.pending;
      attempt_count = 1;
      last_attempt_at = some now;
      next_retry_at = some (next_retry_at now 1);
      response_status = response;
      last_error = some DeliveryError.initial_delivery_failed;
    }

-- `_attempt_delivery`: the POST that it makes.
abbrev pub first_post : Outside → Event → Target → ℕ → Post
first_post out event target now = record {
  url = target.target;
  body = body_for out event target now;
  signature = sign out target.secret (body_for out event target now);
}

-- One round of the loop of `deliver`.
unfoldable pub deliver_target : Outside → Event → ℕ → Target → World → World
unfolding update_where succeeded sign
deliver_target out event now target world =
    let row = inserted_row out event target now in
    let post = first_post out event target now in
    if has_key event.tenant_id (key_for event target) world.deliveries then world else record {
      deliveries =
          update_where (λ d. d.id == row.id) (first_attempt_row now (out.respond post))
            (world.deliveries ++ row ∷ []);
      posts = world.posts ++ post ∷ [];
    }

-- `clock` is the time that is read for a target.
unfoldable pub deliver_targets : Outside → Event → (ℕ → ℕ) → List Target → World → World
unfolding deliver_target
deliver_targets out event clock [] world = world
deliver_targets out event clock (target ∷ targets) world =
    deliver_targets out event clock targets
      (deliver_target out event (clock target.id) target world)

unfoldable pub wants : ChannelType → Event → Target → Bool
unfolding same_channel
wants channel event target =
    target.alert_rule_id == event.alert_rule_id
    && (same_channel target.channel_type channel && target.is_active)

-- `WebhookLikeDeliveryChannel.deliver`
unfoldable pub deliver : Outside → ChannelType → List Target → Event → (ℕ → ℕ) → World → World
unfolding wants select_where deliver_targets
deliver out channel targets event clock world =
    deliver_targets out event clock (select_where (wants channel event) targets) world
