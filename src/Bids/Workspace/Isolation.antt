-- ===== src/Bids/Workspace/Isolation.antt =====
-- apps/api/routers/bids.py: a request of one tenant leaves the rows of the others as they are.
use procintel.Common.{
  ℕ, ◌≡◌, refl, Bool, true, false, not, Option, none, some, List, [], ◌∷◌, ◌==◌, arith, All,
  All-map, All-from_map, Bool-cases, inl, inr, map,
}
use procintel.Common.Table.{select_where}
use procintel.Common.PrimaryKey.{IsNodup}
use procintel.Bids.Workspace.{
  Workspace, Task, Comment, Tables, Answer, owns_process, workspace_id_for_process, in_workspace,
  unless,
}
use procintel.Bids.Workspace.Handlers.{refers_to}

module _ {ℓ} {Row : Type ℓ} (tenant_of : Row → ℕ) where
  abbrev pub theirs : ℕ → List Row → List Row
  theirs tenant_id = select_where (λ r. not (tenant_of r == tenant_id))

-- The rows of every other tenant, and all memberships, are the same in both.
pub record Untouched (tenant_id : ℕ) (t t' : Tables) : Type 0 where
  pub workspaces :
      theirs (λ r. r.tenant_id) tenant_id t'.workspaces
      ≡ theirs (λ r. r.tenant_id) tenant_id t.workspaces
  pub tasks :
      theirs (λ r. r.tenant_id) tenant_id t'.tasks ≡ theirs (λ r. r.tenant_id) tenant_id t.tasks
  pub comments :
      theirs (λ r. r.tenant_id) tenant_id t'.comments
      ≡ theirs (λ r. r.tenant_id) tenant_id t.comments
  pub requirements : t'.requirements ≡ t.requirements
  pub memberships : t'.memberships ≡ t.memberships
  pub audit_log :
      theirs (λ r. r.tenant_id) tenant_id t'.audit_log
      ≡ theirs (λ r. r.tenant_id) tenant_id t.audit_log

-- The same of a handler's result.
pub record KeepsTo (tenant_id : ℕ) (t : Tables) (result : Answer × Tables) : Type 0 where
  pub kept : Untouched tenant_id t result.1

-- The comment has the tenant of the task that it refers to.
abbrev pub HasTaskTenant : List Task → Comment → Type 0
HasTaskTenant tasks c =
    All (λ r. refers_to r.id c.task_id ≡ true → (r.tenant_id == c.tenant_id) ≡ true) tasks

-- Keys are distinct, and a comment has the tenant of the task that it refers to.
pub record IsLinked (t : Tables) : Type 0 where
  pub keys : IsNodup (map (λ w. w.id) t.workspaces)
  pub comments : All (HasTaskTenant t.tasks) t.comments

pub Untouched-same : (tenant_id : ℕ) (t : Tables) → Untouched tenant_id t t
Untouched-same tenant_id t = record {
  workspaces = refl;
  tasks = refl;
  comments = refl;
  requirements = refl;
  memberships = refl;
  audit_log = refl;
}

abbrev pub WhenFound {ℓ} : (ℕ → Type ℓ) → Option ℕ → Type ℓ
WhenFound P none = Unit
WhenFound P (some id) = P id

pub in_workspace-KeepsTo {ℓ} :
    (tenant_id : ℕ) (P : ℕ → Type ℓ) (found : Option ℕ) (t : Tables) (rest : ℕ → Answer × Tables)
    → WhenFound P found
    → ((wid : ℕ) → P wid → KeepsTo tenant_id t (rest wid))
    → KeepsTo tenant_id t (in_workspace found t rest)
unfolding in_workspace
in_workspace-KeepsTo tenant_id P none t rest h step = record { kept = Untouched-same tenant_id t }
in_workspace-KeepsTo tenant_id P (some wid) t rest h step = step wid h

pub unless-KeepsTo :
    (tenant_id : ℕ) (b : Bool) (answer : Answer) (t : Tables) (result : Answer × Tables)
    → (b ≡ false → KeepsTo tenant_id t result)
    → KeepsTo tenant_id t (unless b answer t result)
unfolding unless
unless-KeepsTo tenant_id true answer t result h = record { kept = Untouched-same tenant_id t }
unless-KeepsTo tenant_id false answer t result h = h refl

-- The workspace that is found for a process is the tenant's, and its id is no other's.
abbrev pub OwnId : ℕ → List Workspace → ℕ → Type 0
OwnId tenant_id ws wid = All (λ w. (w.id == wid) ≡ true → (w.tenant_id == tenant_id) ≡ true) ws

found-other :
    (tenant_id process_id n : ℕ) (ws : List Workspace)
    → All (λ m. (n == m) ≡ false) (map (λ w. w.id) ws)
    → WhenFound (λ wid. (n == wid) ≡ false) (workspace_id_for_process tenant_id process_id ws)
unfolding workspace_id_for_process
found-other tenant_id process_id n [] h = tt
found-other tenant_id process_id n (w ∷ ws) h =
    elim (Bool-cases (owns_process tenant_id process_id w)) [
      | inl e ↦ rw e h.0
      | inr e ↦ rw e (found-other tenant_id process_id n ws h.1)
    ]

OwnId-cons :
    (tenant_id : ℕ) (w : Workspace) (ws : List Workspace) (found : Option ℕ)
    → WhenFound (λ wid. (w.id == wid) ≡ false) found
    → WhenFound (OwnId tenant_id ws) found
    → WhenFound (OwnId tenant_id (w ∷ ws)) found
OwnId-cons tenant_id w ws none other h = tt
OwnId-cons tenant_id w ws (some wid) other h = (λ same. cc, h)

pub found-OwnId :
    (tenant_id process_id : ℕ) (ws : List Workspace)
    → IsNodup (map (λ w. w.id) ws)
    → WhenFound (OwnId tenant_id ws) (workspace_id_for_process tenant_id process_id ws)
unfolding workspace_id_for_process
found-OwnId tenant_id process_id [] h = tt
found-OwnId tenant_id process_id (w ∷ ws) h =
    elim (Bool-cases (owns_process tenant_id process_id w)) [
      | inl e ↦ rw e (
        λ same. ground arith,
        All-map (λ v. (w.id == v.id) ≡ false)
            (λ v. (v.id == w.id) ≡ true → (v.tenant_id == tenant_id) ≡ true) ws
            (λ v other same. ground arith)
            (All-from_map (λ m. (w.id == m) ≡ false) (λ v. v.id) ws h.0),
      )
      | inr e ↦ rw e (
          OwnId-cons tenant_id w ws (workspace_id_for_process tenant_id process_id ws)
            (found-other tenant_id process_id w.id ws h.0)
            (found-OwnId tenant_id process_id ws h.1))
    ]
