-- ===== src/Bids/Workspace.antt =====
-- apps/api/routers/bids.py: the bid workspaces of the tenants, their tasks and their comments. A
-- request runs in one transaction: an answer other than `ok` leaves the tables as they were. The
-- user whose row `ensure_workspace_user` keeps is an argument, and so is `str.upper`, which is that
-- of Unicode.
pub mod Handlers
pub mod Comments
pub mod Isolation
pub mod TaskTenants
pub mod Tenants
pub mod Authors
mod Tests
use procintel.Common.{
  ℕ, Bool, true, false, not, Option, none, some, String, List, [], ◌∷◌, ◌++◌, ◌&&◌, ◌==◌, str_eq,
  if◌then◌else◌, any_of,
}
use procintel.Common.Table.{select_where}

pub record Workspace : Type 0 where
  pub id : ℕ
  pub tenant_id : ℕ
  pub process_id : ℕ
  pub owner_user_id : Option ℕ
  pub status : String
  pub decision : String
  pub decision_rationale : Option String
  pub decision_by : Option ℕ
  pub decision_at : Option ℕ
  pub submission_due_at : Option ℕ
  pub updated_at : ℕ

pub record Task : Type 0 where
  pub id : ℕ
  pub bid_workspace_id : ℕ
  pub tenant_id : ℕ
  pub created_by : ℕ
  pub title : String
  pub description : Option String
  pub assigned_user_id : Option ℕ
  pub status : String
  pub priority : String
  pub due_at : Option ℕ
  pub updated_at : ℕ

-- The columns of bid_requirements that the comments need.
pub record Requirement : Type 0 where
  pub id : ℕ
  pub bid_workspace_id : ℕ
  pub tenant_id : ℕ

pub record Comment : Type 0 where
  pub id : ℕ
  pub tenant_id : ℕ
  pub bid_workspace_id : ℕ
  pub author_user_id : ℕ
  pub body : String
  pub task_id : Option ℕ
  pub requirement_id : Option ℕ
  pub updated_at : ℕ

-- A row of audit_log; the details are the id that the code writes into the JSON object.
pub record AuditEntry : Type 0 where
  pub id : ℕ
  pub tenant_id : ℕ
  pub actor_user_id : ℕ
  pub action : String
  pub object_id : ℕ
  pub detail_id : ℕ

pub record Tables : Type 0 where
  pub workspaces : List Workspace
  pub tasks : List Task
  pub requirements : List Requirement
  pub comments : List Comment
  -- The tenant and the user of each membership.
  pub memberships : List (ℕ × ℕ)
  pub audit_log : List AuditEntry

-- The user and the tenant of a request, the clock, and the UUIDs it draws.
pub record Request : Type 0 where
  pub tenant_id : ℕ
  pub user_id : ℕ
  pub role : String
  pub now : ℕ
  pub row_id : ℕ
  pub audit_id : ℕ

pub data Answer : Type 0 where
  ok not_found unprocessable : Answer
  -- The database refuses a NULL.
  internal_error : Answer

-- A field of a PATCH: `exclude_unset` drops those that the client has not sent.
pub data Patch {ℓ} (A : Type ℓ) : Type ℓ where
  unset : Patch A
  sent : A → Patch A

abbrev pub patched {ℓ} : {A : Type ℓ} → Patch A → A → A
patched unset old = old
patched (sent new) old = new

abbrev pub one_of : List String → String → Bool
one_of texts s = any_of (λ t. str_eq t s) texts

abbrev pub workspace_statuses : List String
workspace_statuses =
    "QUALIFYING" ∷ "PREPARING" ∷ "REVIEW" ∷ "SUBMITTED" ∷ "WON" ∷ "LOST" ∷ "ARCHIVED" ∷ []

abbrev pub decisions : List String
decisions = "PENDING" ∷ "BID" ∷ "NO_BID" ∷ "CONDITIONAL" ∷ []

abbrev pub task_statuses : List String
task_statuses = "TODO" ∷ "IN_PROGRESS" ∷ "BLOCKED" ∷ "DONE" ∷ []

abbrev pub priorities : List String
priorities = "LOW" ∷ "MEDIUM" ∷ "HIGH" ∷ "URGENT" ∷ []

-- `str(value).upper()`, where `str(None)` is "None".
abbrev pub upper_text : (String → String) → Option String → String
upper_text upper none = upper "None"
upper_text upper (some s) = upper s

-- A field that is sent must be one of the texts, in capitals.
abbrev pub valid_patch : (String → String) → List String → Patch (Option String) → Bool
valid_patch upper texts unset = true
valid_patch upper texts (sent value) = one_of texts (upper_text upper value)

abbrev pub patched_text : (String → String) → Patch (Option String) → String → String
patched_text upper unset old = old
patched_text upper (sent value) old = upper_text upper value

abbrev pub owns_process : ℕ → ℕ → Workspace → Bool
owns_process tenant_id process_id w = w.process_id == process_id && w.tenant_id == tenant_id

-- `_workspace_id_for_process`; none is the 404.
unfoldable pub workspace_id_for_process : ℕ → ℕ → List Workspace → Option ℕ
workspace_id_for_process tenant_id process_id [] = none
workspace_id_for_process tenant_id process_id (w ∷ ws) =
    let rest = workspace_id_for_process tenant_id process_id ws in
    if owns_process tenant_id process_id w then some w.id else rest

-- `_validate_tenant_user`
unfoldable pub is_tenant_user : ℕ → Option ℕ → List (ℕ × ℕ) → Bool
is_tenant_user tenant_id none memberships = true
is_tenant_user tenant_id (some user_id) memberships =
    any_of (λ m. m.0 == tenant_id && m.1 == user_id) memberships

abbrev pub valid_user_patch : ℕ → Patch (Option ℕ) → List (ℕ × ℕ) → Bool
valid_user_patch tenant_id unset memberships = true
valid_user_patch tenant_id (sent user_id) memberships = is_tenant_user tenant_id user_id memberships

-- `_audit`
abbrev pub audit : Request → String → ℕ → ℕ → List AuditEntry → List AuditEntry
audit q action object_id detail_id log =
    log
    ++ record {
      id = q.audit_id;
      tenant_id = q.tenant_id;
      actor_user_id = q.user_id;
      action = action;
      object_id = object_id;
      detail_id = detail_id;
    }
      ∷ []

abbrev pub delete_where {ℓ} : {Row : Type ℓ} → (Row → Bool) → List Row → List Row
delete_where p = select_where (λ r. not (p r))

-- The rest of a handler once the workspace of the process is known.
unfoldable pub in_workspace : Option ℕ → Tables → (ℕ → Answer × Tables) → Answer × Tables
in_workspace none t rest = (not_found, t)
in_workspace (some workspace_id) t rest = rest workspace_id

-- `if …: raise HTTPException(…)`
unfoldable pub unless : Bool → Answer → Tables → Answer × Tables → Answer × Tables
unless true answer t rest = (answer, t)
unless false answer t rest = rest
