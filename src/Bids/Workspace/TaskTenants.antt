-- ===== src/Bids/Workspace/TaskTenants.antt =====
-- apps/api/routers/bids.py: the handlers for workspaces and tasks keep to their tenant.
use procintel.Common.{
  ℕ, ◌≡◌, refl, Bool, true, false, not, Option, none, some, String, List, [], ◌∷◌, ◌==◌, any_of,
  arith, All, All-map, Bool-cases, inl, inr, eq→==,
}
use procintel.Common.Kept.{
  select_where-update_where, select_where-append, select_where-delete, select_where-update_known,
  select_where-delete_known,
}
use procintel.Bids.Workspace.{
  Task, AuditEntry, Tables, Request, Answer, workspace_id_for_process, unprocessable, not_found,
  internal_error, ok, is_tenant_user, in_workspace, unless, audit,
}
use procintel.Bids.Workspace.Handlers.{
  WorkspaceUpdate, updated_workspace, is_own_workspace, update_bid_workspace, TaskCreate, new_task,
  touched, create_bid_task, TaskUpdate, updated_task, is_own_task, update_bid_task, refers_to,
  delete_bid_task, workspace_update_fits, workspace_updated, task_fits, task_created,
  task_update_fits, task_updated, is_null, task_deleted,
}
use procintel.Bids.Workspace.Isolation.{
  theirs, KeepsTo, IsLinked, HasTaskTenant, OwnId, in_workspace-KeepsTo, unless-KeepsTo,
  found-OwnId,
}

pub audit-theirs :
    (q : Request) (action : String) (object_id detail_id : ℕ) (log : List AuditEntry)
    → theirs (λ r. r.tenant_id) q.tenant_id (audit q action object_id detail_id log)
      ≡ theirs (λ r. r.tenant_id) q.tenant_id log
audit-theirs q action object_id detail_id log =
    select_where-append (λ r. not (r.tenant_id == q.tenant_id)) log _
      (rw (eq→== q.tenant_id q.tenant_id refl) refl)

-- A comment on a task that the request may delete is the tenant's own.
own_comment :
    (q : Request) (task_id wid tenant_id : ℕ) (refers : Option ℕ) (tasks : List Task)
    → any_of (is_own_task q task_id wid) tasks ≡ true
    → All (λ r. refers_to r.id refers ≡ true → (r.tenant_id == tenant_id) ≡ true) tasks
    → refers_to task_id refers ≡ true
    → not (tenant_id == q.tenant_id) ≡ false
own_comment q task_id wid tenant_id refers [] has links hit = cc
own_comment q task_id wid tenant_id none (r ∷ tasks) has links hit = cc
own_comment q task_id wid tenant_id (some k) (r ∷ tasks) has links hit =
    elim (Bool-cases (is_own_task q task_id wid r)) [
      | inl e ↦ ground (arith, links.0)
      | inr e ↦ own_comment q task_id wid tenant_id (some k) tasks (rw e at has) links.1 hit
    ]

unguarded : (b : Bool) → not b ≡ false → b ≡ true
unguarded true h = refl
unguarded false h = cc

module _ (upper : String → String) (q : Request) (t : Tables) (linked : IsLinked t) where
  -- A handler keeps to its tenant if it does once it has found the tenant's workspace.
  pub found-KeepsTo :
      (process_id : ℕ) (rest : ℕ → Answer × Tables)
      → ((wid : ℕ) → OwnId q.tenant_id t.workspaces wid → KeepsTo q.tenant_id t (rest wid))
      → KeepsTo q.tenant_id t
          (in_workspace (workspace_id_for_process q.tenant_id process_id t.workspaces) t rest)
  found-KeepsTo process_id rest =
      in_workspace-KeepsTo q.tenant_id (OwnId q.tenant_id t.workspaces)
        (workspace_id_for_process q.tenant_id process_id t.workspaces) t rest
        (found-OwnId q.tenant_id process_id t.workspaces linked.keys)

  pub patch_workspace-KeepsTo :
      (process_id : ℕ) (body : WorkspaceUpdate)
      → KeepsTo q.tenant_id t (update_bid_workspace upper q process_id body t)
  unfolding update_bid_workspace
  patch_workspace-KeepsTo process_id body = found-KeepsTo process_id _ (λ wid own.
      unless-KeepsTo q.tenant_id (not (workspace_update_fits upper q body t)) unprocessable t
        (ok, workspace_updated upper q body t wid)
        (λ _. record {
          kept = record {
            workspaces =
                select_where-update_where (λ r. not (r.tenant_id == q.tenant_id))
                  (is_own_workspace q wid) (updated_workspace upper q body) t.workspaces
                  (λ x hit. ground arith) (λ x hit. ground arith);
            audit_log = audit-theirs q "bid.workspace.updated" wid wid t.audit_log;
            tasks = refl;
            comments = refl;
            requirements = refl;
            memberships = refl;
          };
        }))

  pub post_task-KeepsTo :
      (process_id : ℕ) (body : TaskCreate)
      → KeepsTo q.tenant_id t (create_bid_task upper q process_id body t)
  unfolding create_bid_task
  post_task-KeepsTo process_id body =
      unless-KeepsTo q.tenant_id (not (task_fits upper body)) unprocessable t
        (unless (not (is_tenant_user q.tenant_id body.assigned_user_id t.memberships)) unprocessable
          t
          (in_workspace (workspace_id_for_process q.tenant_id process_id t.workspaces) t
            (λ wid. (ok, task_created upper q body t wid))))
        (λ _.
          unless-KeepsTo q.tenant_id
            (not (is_tenant_user q.tenant_id body.assigned_user_id t.memberships)) unprocessable t
            (in_workspace (workspace_id_for_process q.tenant_id process_id t.workspaces) t
              (λ wid. (ok, task_created upper q body t wid)))
            (λ _.
              found-KeepsTo process_id (λ wid. (ok, task_created upper q body t wid))
                (λ wid own. record {
                  kept = record {
                    workspaces =
                        select_where-update_known (λ r. not (r.tenant_id == q.tenant_id))
                          (λ w. w.id == wid) (touched q.now) t.workspaces (λ x hit off. off)
                          (All-map (λ w. (w.id == wid) ≡ true → (w.tenant_id == q.tenant_id) ≡ true)
                            (λ w. (w.id == wid) ≡ true → not (w.tenant_id == q.tenant_id) ≡ false)
                            t.workspaces (λ w mine hit. rw (mine hit) refl) own);
                    tasks =
                        select_where-append (λ r. not (r.tenant_id == q.tenant_id)) t.tasks
                          (new_task upper q body wid)
                          (rw (eq→== q.tenant_id q.tenant_id refl) refl);
                    audit_log = audit-theirs q "bid.task.created" wid q.row_id t.audit_log;
                    comments = refl;
                    requirements = refl;
                    memberships = refl;
                  };
                })))

  pub patch_task-KeepsTo :
      (process_id task_id : ℕ) (body : TaskUpdate)
      → KeepsTo q.tenant_id t (update_bid_task upper q process_id task_id body t)
  unfolding update_bid_task
  patch_task-KeepsTo process_id task_id body = found-KeepsTo process_id _ (λ wid own.
      unless-KeepsTo q.tenant_id (not (task_update_fits upper q body t)) unprocessable t
        (unless (not (any_of (is_own_task q task_id wid) t.tasks)) not_found t (
          unless (is_null body.title) internal_error t
            (ok, task_updated upper q task_id body t wid)))
        (λ _.
          unless-KeepsTo q.tenant_id (not (any_of (is_own_task q task_id wid) t.tasks)) not_found t
            (unless (is_null body.title) internal_error t
              (ok, task_updated upper q task_id body t wid))
            (λ _.
              unless-KeepsTo q.tenant_id (is_null body.title) internal_error t
                (ok, task_updated upper q task_id body t wid)
                (λ _. record {
                  kept = record {
                    tasks =
                        select_where-update_where (λ r. not (r.tenant_id == q.tenant_id))
                          (is_own_task q task_id wid) (updated_task upper q body) t.tasks
                          (λ x hit. ground arith) (λ x hit. ground arith);
                    audit_log = audit-theirs q "bid.task.updated" wid task_id t.audit_log;
                    workspaces = refl;
                    comments = refl;
                    requirements = refl;
                    memberships = refl;
                  };
                }))))

  pub delete_task-KeepsTo :
      (process_id task_id : ℕ) → KeepsTo q.tenant_id t (delete_bid_task q process_id task_id t)
  unfolding delete_bid_task
  delete_task-KeepsTo process_id task_id = found-KeepsTo process_id _ (λ wid own.
      unless-KeepsTo q.tenant_id (not (any_of (is_own_task q task_id wid) t.tasks)) not_found t
        (ok, task_deleted q task_id t wid)
        (λ there. record {
          kept = record {
            tasks =
                select_where-delete (λ r. not (r.tenant_id == q.tenant_id))
                  (is_own_task q task_id wid) t.tasks (λ x hit. ground arith);
            comments =
                select_where-delete_known (λ c. not (c.tenant_id == q.tenant_id))
                  (λ c. refers_to task_id c.task_id) t.comments
                  (All-map (HasTaskTenant t.tasks)
                    (λ c.
                      refers_to task_id c.task_id ≡ true → not (c.tenant_id == q.tenant_id) ≡ false)
                    t.comments
                    (λ c links.
                      own_comment q task_id wid c.tenant_id c.task_id t.tasks
                        (unguarded (any_of (is_own_task q task_id wid) t.tasks) there) links)
                    linked.comments);
            audit_log = audit-theirs q "bid.task.deleted" wid task_id t.audit_log;
            workspaces = refl;
            requirements = refl;
            memberships = refl;
          };
        }))
