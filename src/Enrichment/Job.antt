-- ===== src/Enrichment/Job.antt =====
-- services/ingestion/enrichment_queue.py: a row of `enrichment_jobs`, the values that the queue
-- hands out, and the retry delay. A row is addressed by its number in place of its UUID.
use procintel.Common.{
  ℕ, ◌*◌, ◌^◌, min, max, Bool, true, false, ◌&&◌, not, Option, none, some, String,
}
use procintel.Common.Json.{Fields, get_key, as_boolean}
use procintel.Common.Clock.{minutes}

pub data Status : Type 0 where
  queued running succeeded failed blocked_config blocked_upstream dead : Status

pub record EnrichmentJob : Type 0 where
  pub id : ℕ
  pub provider : String
  pub idempotency_key : String
  pub object_type : Option String
  pub object_id : Option ℕ
  pub source_record_id : Option ℕ
  pub payload : Fields
  pub status : Status
  pub priority : ℕ
  pub attempt_count : ℕ
  pub max_attempts : ℕ
  pub available_at : ℕ
  pub locked_at : Option ℕ
  pub locked_by : Option String
  pub last_error : Option Fields
  pub result : Option Fields
  pub created_at : ℕ
  pub updated_at : ℕ
  pub finished_at : Option ℕ

-- What `enqueue_enrichment` is called with.
pub record EnqueueRequest : Type 0 where
  pub provider : String
  pub idempotency_key : String
  pub payload : Fields
  pub object_type : Option String
  pub object_id : Option ℕ
  pub source_record_id : Option ℕ
  pub priority : ℕ
  pub max_attempts : ℕ

pub record EnrichmentJobRef : Type 0 where
  pub id : ℕ
  pub provider : String
  pub idempotency_key : String
  pub status : Status
  pub attempt_count : ℕ
  pub max_attempts : ℕ

pub record ClaimedEnrichmentJob : Type 0 where
  pub id : ℕ
  pub provider : String
  pub idempotency_key : String
  pub payload : Fields
  pub object_type : Option String
  pub object_id : Option ℕ
  pub source_record_id : Option ℕ
  pub attempt_count : ℕ
  pub max_attempts : ℕ

-- `_retry_delay`
unfoldable pub retry_delay : ℕ → ℕ
retry_delay attempt_count = minutes (min (24 * 60) (2 ^ min (max attempt_count 1) 10))

-- `status IN ('QUEUED', 'FAILED')`
unfoldable pub is_runnable : Status → Bool
is_runnable Status.queued = true
is_runnable Status.failed = true
is_runnable _ = false

unfoldable pub is_blocked : Status → Bool
is_blocked Status.blocked_config = true
is_blocked Status.blocked_upstream = true
is_blocked _ = false

unfoldable pub is_running : Status → Bool
is_running Status.running = true
is_running _ = false

unfoldable pub is_failed : Status → Bool
is_failed Status.failed = true
is_failed _ = false

unfoldable pub is_dead : Status → Bool
is_dead Status.dead = true
is_dead _ = false

-- COALESCE(last_error -> 'permanent', false)
unfoldable pub marked_permanent : Option Fields → Bool
unfolding get_key as_boolean
marked_permanent none = false
marked_permanent (some e) = elim (as_boolean (get_key "permanent" e)) [ some b ↦ b | none ↦ false ]

unfoldable pub reopenable_dead : EnrichmentJob → Bool
unfolding is_dead marked_permanent
reopenable_dead job =
    is_dead job.status && not (is_dead job.status && marked_permanent job.last_error)
