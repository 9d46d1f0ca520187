-- ===== src/Bids/Workspace/Authors.antt =====
-- apps/api/routers/bids.py: who may change a comment.
use procintel.Common.{
  ℕ, ◌≡◌, refl, Bool, true, false, not, Option, none, some, String, List, [], ◌∷◌, ◌==◌, any_of,
  arith, Bool-cases, inl, inr,
}
use procintel.Common.Table.{select_where}
use procintel.Common.Kept.{select_where-update_where, select_where-delete}
use procintel.Bids.Workspace.{
  Comment, Tables, Request, ok, not_found, one_of, workspace_id_for_process, in_workspace, unless,
}
use procintel.Bids.Workspace.Comments.{
  may_edit, update_bid_comment, delete_bid_comment, comment_updated, comment_deleted,
}

abbrev pub of_others : Request → List Comment → List Comment
of_others q = select_where (λ c. not (c.author_user_id == q.user_id))

-- The user is neither an owner nor an administrator.
abbrev pub IsOrdinary : Request → Type 0
IsOrdinary q = one_of ("OWNER" ∷ "ADMIN" ∷ []) q.role ≡ false

-- A handler that guards a change of the comments changes those of others only if the change does.
guarded_comments :
    (q : Request) (found : Option ℕ) (t : Tables) (denied : ℕ → Bool) (change : ℕ → Tables)
    → ((wid : ℕ) → of_others q (change wid).comments ≡ of_others q t.comments)
    → of_others q
        (in_workspace found t (λ wid. unless (denied wid) not_found t (ok, change wid))).1.comments
      ≡ of_others q t.comments
unfolding in_workspace unless
guarded_comments q none t denied change same = refl
guarded_comments q (some wid) t denied change same = elim (Bool-cases (denied wid)) [
  | inl e ↦ rw e refl
  | inr e ↦ rw e (same wid)
]

not_their_author :
    (q : Request) (comment_id wid : ℕ) (c : Comment)
    → IsOrdinary q
    → may_edit q comment_id wid c ≡ true
    → not (c.author_user_id == q.user_id) ≡ false
not_their_author q comment_id wid c ordinary hit = ground arith

-- A user who is neither an owner nor an administrator changes no comment of another author:
-- neither the update nor the deletion of a comment, whatever its id, touches the others' comments.
pub comments_of_others_stay :
    (q : Request) (process_id comment_id : ℕ) (body : String) (t : Tables)
    → IsOrdinary q
    → (of_others q (update_bid_comment q process_id comment_id body t).1.comments
        ≡ of_others q t.comments)
      × (of_others q (delete_bid_comment q process_id comment_id t).1.comments
          ≡ of_others q t.comments)
unfolding update_bid_comment delete_bid_comment
comments_of_others_stay q process_id comment_id body t ordinary = (
  guarded_comments q (workspace_id_for_process q.tenant_id process_id t.workspaces) t
      (λ wid. not (any_of (may_edit q comment_id wid) t.comments))
      (comment_updated q comment_id body t)
      (λ wid.
        select_where-update_where (λ c. not (c.author_user_id == q.user_id))
          (may_edit q comment_id wid) (λ c. record c { body = body; updated_at = q.now }) t.comments
          (λ c hit. not_their_author q comment_id wid c ordinary hit)
          (λ c hit. not_their_author q comment_id wid c ordinary hit)),
  guarded_comments q (workspace_id_for_process q.tenant_id process_id t.workspaces) t
      (λ wid. not (any_of (may_edit q comment_id wid) t.comments)) (comment_deleted q comment_id t)
      (λ wid.
        select_where-delete (λ c. not (c.author_user_id == q.user_id)) (may_edit q comment_id wid)
          t.comments (λ c hit. not_their_author q comment_id wid c ordinary hit)),
)
