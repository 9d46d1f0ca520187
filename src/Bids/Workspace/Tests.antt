-- ===== src/Bids/Workspace/Tests.antt =====
-- Requests of two tenants on one set of tables.
use procintel.Common.{ℕ, ◌≡◌, refl, none, some, String, [], ◌∷◌, map}
use procintel.Bids.Workspace.{
  Workspace, Task, Comment, Tables, Request, ok, not_found, unprocessable, unset, sent,
}
use procintel.Bids.Workspace.Handlers.{update_bid_task, delete_bid_task}
use procintel.Bids.Workspace.Comments.{update_bid_comment, delete_bid_comment}
use procintel.Bids.Workspace.Authors.{of_others, comments_of_others_stay}

abbrev workspace : ℕ → ℕ → Workspace
workspace id tenant_id = record {
  id = id;
  tenant_id = tenant_id;
  process_id = 50;
  owner_user_id = none;
  status = "QUALIFYING";
  decision = "PENDING";
  decision_rationale = none;
  decision_by = none;
  decision_at = none;
  submission_due_at = none;
  updated_at = 1;
}

abbrev task : ℕ → ℕ → ℕ → Task
task id workspace_id tenant_id = record {
  id = id;
  bid_workspace_id = workspace_id;
  tenant_id = tenant_id;
  created_by = 7;
  title = "Prepare";
  description = none;
  assigned_user_id = none;
  status = "TODO";
  priority = "HIGH";
  due_at = none;
  updated_at = 1;
}

abbrev comment : ℕ → ℕ → ℕ → ℕ → Comment
comment id workspace_id tenant_id author = record {
  id = id;
  tenant_id = tenant_id;
  bid_workspace_id = workspace_id;
  author_user_id = author;
  body = "Check the deadline";
  task_id = some 21;
  requirement_id = none;
  updated_at = 1;
}

abbrev tables : Tables
tables = record {
  workspaces = workspace 11 1 ∷ workspace 12 2 ∷ [];
  tasks = task 21 11 1 ∷ task 22 12 2 ∷ [];
  requirements = [];
  comments = comment 31 11 1 7 ∷ record (comment 32 12 2 8) { task_id = some 22 } ∷ [];
  memberships = (1, 7) ∷ (2, 8) ∷ [];
  audit_log = [];
}

abbrev request : ℕ → ℕ → String → Request
request tenant_id user_id role = record {
  tenant_id = tenant_id;
  user_id = user_id;
  role = role;
  now = 9;
  row_id = 40;
  audit_id = 41;
}

abbrev same_text : String → String
same_text s = s

task_goes_with_comment :
    ((delete_bid_task (request 1 7 "SALES") 50 21 tables).0 ≡ ok)
    × (map (λ c. c.id) (delete_bid_task (request 1 7 "SALES") 50 21 tables).1.comments ≡ 32 ∷ [])
unfolding delete_bid_task
task_goes_with_comment = (refl, refl)

others_task_is_not_found : (delete_bid_task (request 2 8 "SALES") 50 21 tables).0 ≡ not_found
unfolding delete_bid_task
others_task_is_not_found = refl

null_status_is_refused :
    (update_bid_task same_text
      (request 1 7 "SALES")
      50
      21
      (record {
        title = unset;
        description = unset;
        assigned_user_id = unset;
        status = sent none;
        priority = unset;
        due_at = unset;
      })
      tables).0
    ≡ unprocessable
unfolding update_bid_task
null_status_is_refused = refl

others_comment_is_not_found :
    (update_bid_comment (request 1 9 "ANALYST") 50 31 "No" tables).0 ≡ not_found
unfolding update_bid_comment
others_comment_is_not_found = refl

owner_edits : (update_bid_comment (request 1 9 "OWNER") 50 31 "No" tables).0 ≡ ok
unfolding update_bid_comment
owner_edits = refl

comments_of_others_stay_example :
    (of_others
        (request 1 9 "ANALYST")
        (update_bid_comment (request 1 9 "ANALYST") 50 31 "No" tables).1.comments
      ≡ of_others (request 1 9 "ANALYST") tables.comments)
    × (of_others
          (request 1 9 "ANALYST")
          (delete_bid_comment (request 1 9 "ANALYST") 50 31 tables).1.comments
        ≡ of_others (request 1 9 "ANALYST") tables.comments)
comments_of_others_stay_example =
    comments_of_others_stay (request 1 9 "ANALYST") 50 31 "No" tables refl
