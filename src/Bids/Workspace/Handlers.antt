-- ===== src/Bids/Workspace/Handlers.antt =====
-- apps/api/routers/bids.py: the handlers that change a workspace, its tasks and its comments.
use procintel.Common.{
  ℕ, Bool, true, false, not, Option, none, some, String, [], ◌∷◌, ◌++◌, ◌&&◌, ◌==◌, if◌then◌else◌,
  any_of,
}
use procintel.Common.Table.{select_where, update_where}
use procintel.Bids.Workspace.{
  Workspace, Task, Tables, Request, Answer, ok, not_found, unprocessable, internal_error, Patch,
  unset, sent, patched, one_of, workspace_statuses, decisions, task_statuses, priorities,
  valid_patch, patched_text, workspace_id_for_process, is_tenant_user, valid_user_patch, audit,
  delete_where, in_workspace, unless,
}

pub record WorkspaceUpdate : Type 0 where
  pub owner_user_id : Patch (Option ℕ)
  pub status : Patch (Option String)
  pub decision : Patch (Option String)
  pub decision_rationale : Patch (Option String)
  pub submission_due_at : Patch (Option ℕ)

abbrev pub is_sent {ℓ} : {A : Type ℓ} → Patch A → Bool
is_sent unset = false
is_sent (sent value) = true

abbrev pub updated_workspace : (String → String) → Request → WorkspaceUpdate → Workspace → Workspace
updated_workspace upper q body w = record w {
  owner_user_id = patched body.owner_user_id w.owner_user_id;
  status = patched_text upper body.status w.status;
  decision = patched_text upper body.decision w.decision;
  decision_rationale = patched body.decision_rationale w.decision_rationale;
  decision_by = if is_sent body.decision then some q.user_id else w.decision_by;
  decision_at = if is_sent body.decision then some q.now else w.decision_at;
  submission_due_at = patched body.submission_due_at w.submission_due_at;
  updated_at = q.now;
}

abbrev pub is_own_workspace : Request → ℕ → Workspace → Bool
is_own_workspace q workspace_id w = w.id == workspace_id && w.tenant_id == q.tenant_id

abbrev pub workspace_update_fits : (String → String) → Request → WorkspaceUpdate → Tables → Bool
workspace_update_fits upper q body t =
    valid_user_patch q.tenant_id body.owner_user_id t.memberships
    && (valid_patch upper workspace_statuses body.status
        && valid_patch upper decisions body.decision)

abbrev pub workspace_updated : (String → String) → Request → WorkspaceUpdate → Tables → ℕ → Tables
workspace_updated upper q body t wid = record t {
  workspaces = update_where (is_own_workspace q wid) (updated_workspace upper q body) t.workspaces;
  audit_log = audit q "bid.workspace.updated" wid wid t.audit_log;
}

-- `update_bid_workspace`
unfoldable pub update_bid_workspace :
    (String → String) → Request → ℕ → WorkspaceUpdate → Tables → Answer × Tables
unfolding in_workspace unless workspace_id_for_process is_tenant_user update_where
update_bid_workspace upper q process_id body t =
    in_workspace (workspace_id_for_process q.tenant_id process_id t.workspaces) t (λ wid.
      unless (not (workspace_update_fits upper q body t)) unprocessable t
        (ok, workspace_updated upper q body t wid))

pub record TaskCreate : Type 0 where
  pub title : String
  pub description : Option String
  pub assigned_user_id : Option ℕ
  pub status : String
  pub priority : String
  pub due_at : Option ℕ

abbrev pub new_task : (String → String) → Request → TaskCreate → ℕ → Task
new_task upper q body workspace_id = record {
  id = q.row_id;
  bid_workspace_id = workspace_id;
  tenant_id = q.tenant_id;
  created_by = q.user_id;
  title = body.title;
  description = body.description;
  assigned_user_id = body.assigned_user_id;
  status = upper body.status;
  priority = upper body.priority;
  due_at = body.due_at;
  updated_at = q.now;
}

abbrev pub touched : ℕ → Workspace → Workspace
touched now w = record w { updated_at = now }

abbrev pub task_fits : (String → String) → TaskCreate → Bool
task_fits upper body =
    one_of task_statuses (upper body.status) && one_of priorities (upper body.priority)

abbrev pub task_created : (String → String) → Request → TaskCreate → Tables → ℕ → Tables
task_created upper q body t wid = record t {
  tasks = t.tasks ++ new_task upper q body wid ∷ [];
  workspaces = update_where (λ w. w.id == wid) (touched q.now) t.workspaces;
  audit_log = audit q "bid.task.created" wid q.row_id t.audit_log;
}

-- `create_bid_task`: the workspace is touched by its id alone.
unfoldable pub create_bid_task :
    (String → String) → Request → ℕ → TaskCreate → Tables → Answer × Tables
unfolding in_workspace unless workspace_id_for_process is_tenant_user update_where
create_bid_task upper q process_id body t = unless (not (task_fits upper body)) unprocessable t (
    unless (not (is_tenant_user q.tenant_id body.assigned_user_id t.memberships)) unprocessable t (
      in_workspace (workspace_id_for_process q.tenant_id process_id t.workspaces) t
        (λ wid. (ok, task_created upper q body t wid))))

-- A title that is sent as null breaks the NOT NULL of the column.
pub record TaskUpdate : Type 0 where
  pub title : Patch (Option String)
  pub description : Patch (Option String)
  pub assigned_user_id : Patch (Option ℕ)
  pub status : Patch (Option String)
  pub priority : Patch (Option String)
  pub due_at : Patch (Option ℕ)

abbrev pub is_null : Patch (Option String) → Bool
is_null (sent none) = true
is_null _ = false

abbrev pub patched_title : Patch (Option String) → String → String
patched_title (sent (some title)) old = title
patched_title _ old = old

abbrev pub updated_task : (String → String) → Request → TaskUpdate → Task → Task
updated_task upper q body r = record r {
  title = patched_title body.title r.title;
  description = patched body.description r.description;
  assigned_user_id = patched body.assigned_user_id r.assigned_user_id;
  status = patched_text upper body.status r.status;
  priority = patched_text upper body.priority r.priority;
  due_at = patched body.due_at r.due_at;
  updated_at = q.now;
}

abbrev pub is_own_task : Request → ℕ → ℕ → Task → Bool
is_own_task q task_id wid r =
    r.id == task_id && (r.bid_workspace_id == wid && r.tenant_id == q.tenant_id)

abbrev pub task_update_fits : (String → String) → Request → TaskUpdate → Tables → Bool
task_update_fits upper q body t =
    valid_user_patch q.tenant_id body.assigned_user_id t.memberships
    && (valid_patch upper task_statuses body.status && valid_patch upper priorities body.priority)

abbrev pub task_updated : (String → String) → Request → ℕ → TaskUpdate → Tables → ℕ → Tables
task_updated upper q task_id body t wid = record t {
  tasks = update_where (is_own_task q task_id wid) (updated_task upper q body) t.tasks;
  audit_log = audit q "bid.task.updated" wid task_id t.audit_log;
}

-- `update_bid_task`
unfoldable pub update_bid_task :
    (String → String) → Request → ℕ → ℕ → TaskUpdate → Tables → Answer × Tables
unfolding in_workspace unless workspace_id_for_process is_tenant_user update_where
update_bid_task upper q process_id task_id body t =
    in_workspace (workspace_id_for_process q.tenant_id process_id t.workspaces) t (λ wid.
      unless (not (task_update_fits upper q body t)) unprocessable t (
        unless (not (any_of (is_own_task q task_id wid) t.tasks)) not_found t (
          unless (is_null body.title) internal_error t
            (ok, task_updated upper q task_id body t wid))))

abbrev pub refers_to : ℕ → Option ℕ → Bool
refers_to id none = false
refers_to id (some wanted) = wanted == id

-- The comments on a deleted task go with it, ON DELETE CASCADE.
abbrev pub task_deleted : Request → ℕ → Tables → ℕ → Tables
task_deleted q task_id t wid = record t {
  tasks = delete_where (is_own_task q task_id wid) t.tasks;
  comments = delete_where (λ c. refers_to task_id c.task_id) t.comments;
  audit_log = audit q "bid.task.deleted" wid task_id t.audit_log;
}

-- `delete_bid_task`
unfoldable pub delete_bid_task : Request → ℕ → ℕ → Tables → Answer × Tables
unfolding in_workspace unless workspace_id_for_process select_where
delete_bid_task q process_id task_id t =
    in_workspace (workspace_id_for_process q.tenant_id process_id t.workspaces) t (λ wid.
      unless (not (any_of (is_own_task q task_id wid) t.tasks)) not_found t
        (ok, task_deleted q task_id t wid))
