-- ===== src/Orchestration/Rows.antt =====
-- services/ingestion/orchestration/scheduler.py: the reports of a run, the rows of source_cursors and
-- connector_runs, and the outcomes of a pass.
use procintel.Common.{ℕ, Bool, Option, String, List}
use procintel.Orchestration.Window.{ScheduledJob}

-- The dictionary that `run_window` returns, with 0 and [] for the keys that it leaves out.
pub record RunReport : Type 0 where
  pub records_fetched : ℕ
  pub records_upserted : ℕ
  pub records_unchanged : ℕ
  pub records_failed : ℕ
  pub enrichment_failed : ℕ
  pub enrichment_callbacks_failed : ℕ
  pub enrichment_succeeded : List (String × ℕ)
  pub enrichment_deferred : List (String × ℕ)
  pub pages_fetched : ℕ
  pub record_failures : List String
  pub enrichment_failures : List String

pub data RunWindow : Type 0 where
  returned : RunReport → RunWindow
  raised : String → RunWindow

pub data RunError : Type 0 where
  message : String → RunError
  partial : (core_failures enrichment_failures : ℕ) → (failures : List String) → RunError

-- A row of `source_cursors`; `cursor_value` as in `Window`.
pub record CursorRow : Type 0 where
  pub source_system : String
  pub resource_type : String
  pub partition_key : String
  pub cursor_value : Option ℕ
  pub last_success_at : Option ℕ
  pub last_attempt_at : Option ℕ
  pub last_error : Option RunError

pub data RunStatus : Type 0 where
  running succeeded partly failed : RunStatus

-- A row of `connector_runs`; its partition label is the pair of dates.
pub record ConnectorRun : Type 0 where
  pub id : ℕ
  pub source_system : String
  pub resource_type : String
  pub date_from : ℕ
  pub date_to : ℕ
  pub status : RunStatus
  pub finished : Bool
  pub records_fetched : ℕ
  pub records_upserted : ℕ
  pub records_unchanged : ℕ
  pub records_failed : ℕ
  pub enrichment_succeeded : ℕ
  pub enrichment_failed : ℕ
  pub enrichment_deferred : ℕ
  pub pages_fetched : ℕ
  pub metrics : Option RunReport
  pub error : Option RunError

pub record Store : Type 0 where
  pub cursors : List CursorRow
  pub runs : List ConnectorRun

pub data SkipReason : Type 0 where
  locked_by_another_scheduler not_due_yet : SkipReason

pub data JobRunOutcome : Type 0 where
  skipped : ScheduledJob → SkipReason → JobRunOutcome
  failed : ScheduledJob → (date_from date_to : ℕ) → String → JobRunOutcome
  ran : ScheduledJob → (date_from date_to : ℕ) → RunReport → JobRunOutcome

pub record Outside : Type 0 where
  pub lock_is_free : ScheduledJob → Bool
  pub run_window : ScheduledJob → ℕ → ℕ → RunWindow
  pub fresh : ScheduledJob → ℕ
