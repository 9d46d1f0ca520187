-- ===== src/Bids/Workspace/Comments.antt =====
-- apps/api/routers/bids.py: the handlers that change the comments of a workspace.
use procintel.Common.{
  ℕ, Bool, true, not, Option, none, some, String, [], ◌∷◌, ◌++◌, ◌&&◌, ◌||◌, ◌==◌, any_of,
}
use procintel.Common.Table.{select_where, update_where}
use procintel.Bids.Workspace.Handlers.{is_own_task}
use procintel.Bids.Workspace.{
  Requirement, Comment, Tables, Request, Answer, ok, not_found, unprocessable, one_of,
  workspace_id_for_process, audit, delete_where, in_workspace, unless,
}

pub record CommentCreate : Type 0 where
  pub body : String
  pub task_id : Option ℕ
  pub requirement_id : Option ℕ

abbrev pub is_own_requirement : Request → ℕ → ℕ → Requirement → Bool
is_own_requirement q id wid r =
    r.id == id && (r.bid_workspace_id == wid && r.tenant_id == q.tenant_id)

abbrev pub has_task : Request → ℕ → Option ℕ → Tables → Bool
has_task q wid none t = true
has_task q wid (some id) t = any_of (is_own_task q id wid) t.tasks

abbrev pub has_requirement : Request → ℕ → Option ℕ → Tables → Bool
has_requirement q wid none t = true
has_requirement q wid (some id) t = any_of (is_own_requirement q id wid) t.requirements

abbrev pub new_comment : Request → CommentCreate → ℕ → Comment
new_comment q body wid = record {
  id = q.row_id;
  tenant_id = q.tenant_id;
  bid_workspace_id = wid;
  author_user_id = q.user_id;
  body = body.body;
  task_id = body.task_id;
  requirement_id = body.requirement_id;
  updated_at = q.now;
}

-- `_validate_workspace_child`
abbrev pub comment_fits : Request → CommentCreate → Tables → ℕ → Bool
comment_fits q body t wid =
    has_task q wid body.task_id t && has_requirement q wid body.requirement_id t

abbrev pub comment_created : Request → CommentCreate → Tables → ℕ → Tables
comment_created q body t wid = record t {
  comments = t.comments ++ new_comment q body wid ∷ [];
  audit_log = audit q "bid.comment.created" wid q.row_id t.audit_log;
}

-- `create_bid_comment`
unfoldable pub create_bid_comment : Request → ℕ → CommentCreate → Tables → Answer × Tables
unfolding in_workspace unless workspace_id_for_process
create_bid_comment q process_id body t =
    in_workspace (workspace_id_for_process q.tenant_id process_id t.workspaces) t (λ wid.
      unless (not (comment_fits q body t wid)) unprocessable t (ok, comment_created q body t wid))

-- Owners and administrators reach every comment of the workspace, others their own.
abbrev pub may_edit : Request → ℕ → ℕ → Comment → Bool
may_edit q comment_id wid c =
    c.id == comment_id
    && (c.bid_workspace_id == wid
        && (c.tenant_id == q.tenant_id
            && (one_of ("OWNER" ∷ "ADMIN" ∷ []) q.role || c.author_user_id == q.user_id)))

abbrev pub comment_updated : Request → ℕ → String → Tables → ℕ → Tables
comment_updated q comment_id body t wid = record t {
  comments =
      update_where (may_edit q comment_id wid) (λ c. record c { body = body; updated_at = q.now })
        t.comments;
}

-- `update_bid_comment`
unfoldable pub update_bid_comment : Request → ℕ → ℕ → String → Tables → Answer × Tables
unfolding in_workspace unless workspace_id_for_process update_where
update_bid_comment q process_id comment_id body t =
    in_workspace (workspace_id_for_process q.tenant_id process_id t.workspaces) t (λ wid.
      unless (not (any_of (may_edit q comment_id wid) t.comments)) not_found t
        (ok, comment_updated q comment_id body t wid))

abbrev pub comment_deleted : Request → ℕ → Tables → ℕ → Tables
comment_deleted q comment_id t wid = record t {
  comments = delete_where (may_edit q comment_id wid) t.comments;
}

-- `delete_bid_comment`
unfoldable pub delete_bid_comment : Request → ℕ → ℕ → Tables → Answer × Tables
unfolding in_workspace unless workspace_id_for_process select_where
delete_bid_comment q process_id comment_id t =
    in_workspace (workspace_id_for_process q.tenant_id process_id t.workspaces) t (λ wid.
      unless (not (any_of (may_edit q comment_id wid) t.comments)) not_found t
        (ok, comment_deleted q comment_id t wid))
