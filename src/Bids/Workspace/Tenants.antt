-- ===== src/Bids/Workspace/Tenants.antt =====
-- apps/api/routers/bids.py: each handler for workspaces, tasks and comments keeps to its tenant.
use procintel.Common.{ℕ, String}
use procintel.Bids.Workspace.{Tables, Request, Answer}
use procintel.Bids.Workspace.Handlers.{
  WorkspaceUpdate, update_bid_workspace, TaskCreate, create_bid_task, TaskUpdate, update_bid_task,
  delete_bid_task,
}
use procintel.Bids.Workspace.Comments.{
  CommentCreate, create_bid_comment, update_bid_comment, delete_bid_comment,
}

-- A request to one of the handlers, with the id in its path and its body.
pub data BidRequest : Type 0 where
  patch_workspace : (process_id : ℕ) → WorkspaceUpdate → BidRequest
  post_task : (process_id : ℕ) → TaskCreate → BidRequest
  patch_task : (process_id task_id : ℕ) → TaskUpdate → BidRequest
  delete_task : (process_id task_id : ℕ) → BidRequest
  post_comment : (process_id : ℕ) → CommentCreate → BidRequest
  patch_comment : (process_id comment_id : ℕ) → (body : String) → BidRequest
  delete_comment : (process_id comment_id : ℕ) → BidRequest

unfoldable pub serve_bid : (String → String) → Request → BidRequest → Tables → Answer × Tables
unfolding update_bid_workspace create_bid_task update_bid_task delete_bid_task create_bid_comment
    update_bid_comment delete_bid_comment
serve_bid upper q (patch_workspace process_id body) = update_bid_workspace upper q process_id body
serve_bid upper q (post_task process_id body) = create_bid_task upper q process_id body
serve_bid upper q (patch_task process_id task_id body) =
    update_bid_task upper q process_id task_id body
serve_bid upper q (delete_task process_id task_id) = delete_bid_task q process_id task_id
serve_bid upper q (post_comment process_id body) = create_bid_comment q process_id body
serve_bid upper q (patch_comment process_id comment_id body) =
    update_bid_comment q process_id comment_id body
serve_bid upper q (delete_comment process_id comment_id) =
    delete_bid_comment q process_id comment_id
