-- ===== src/Operator/Cluster.antt =====
-- A cluster between the calls of Reconcile: its states, what its API server answers in each, and
-- what a request does to it. The API server is not part of the repository: `Cluster` is what the
-- operator relies on, for a server that accepts the writes.
pub mod Effects
pub mod Builds
pub mod Stages
pub mod Serving
pub mod Progress
pub mod Runs
use dev_plane.Base.{ℕ, suc, Option, none, some, List, [], ◌∷◌, ◌++◌, ◌≡◌, refl, false, All}
use dev_plane.Base.Text.{Text}
use dev_plane.Base.Result.{Result, ok}
use dev_plane.Api.{Workspace, WorkspaceStatus}
use dev_plane.Platform.{Pvc, Pod, PodStatus, Platform}
use dev_plane.Operator.Env.{
  Config, Request, Object, ApiServer, Action, update_workspace, patch_status, create_pvc,
  create_pod, delete_pod, apply, count_patch_failure, count_transition, emit_event,
}
use dev_plane.Operator.PodStages.{ignore_not_found}
use dev_plane.Operator.Reconcile.{reconcile}
use dev_plane.Operator.Reconcile.Permitted.{IsMissing}

-- The actions that do not write a workspace, a claim, or a pod.
abbrev pub KeepsWorkspace : Action → Type 0
KeepsWorkspace (update_workspace w) = ⊥
KeepsWorkspace (patch_status w) = ⊥
KeepsWorkspace _ = Unit

abbrev pub KeepsClaim : Action → Type 0
KeepsClaim (create_pvc pvc) = ⊥
KeepsClaim _ = Unit

abbrev pub KeepsPod : Action → Type 0
KeepsPod (create_pod pod) = ⊥
KeepsPod (delete_pod pod) = ⊥
KeepsPod _ = Unit

-- The workspace with another status, or other finalizers.
abbrev pub with_status : WorkspaceStatus → Workspace → Workspace
with_status st ws = record ws { status = st }

abbrev pub with_finalizers : List Text → Workspace → Workspace
with_finalizers fs ws = record ws { finalizers = fs }

pub record Cluster : Type 1 where
  pub State : Type 0
  pub server : State → ApiServer
  pub perform : Action → State → State
  -- Writes are accepted, and answered with what was sent.
  pub updates : (s : State) (w : Workspace) → (server s).update w ≡ ok w
  pub patches : (s : State) (w : Workspace) → (server s).patch_status w ≡ ok w
  pub applies : (s : State) (o : Object) → (server s).create_or_update o ≡ none
  pub claims : (s : State) (pvc : Pvc) → (server s).create_pvc pvc ≡ none
  pub starts : (s : State) (pod : Pod) → (server s).create_pod pod ≡ none
  pub deletes : (s : State) (pod : Pod) → ignore_not_found ((server s).delete_pod pod) ≡ none
  -- What is read after a write.
  pub updated :
      (s : State) (r : Request) (ws : Workspace) (fs : List Text)
      → (server s).get_workspace r ≡ ok ws
      → ws.deleting ≡ false
      → (server (perform (update_workspace (with_finalizers fs ws)) s)).get_workspace r
        ≡ ok (with_finalizers fs ws)
  pub patched :
      (s : State) (r : Request) (ws : Workspace) (st : WorkspaceStatus)
      → (server s).get_workspace r ≡ ok ws
      → (server (perform (patch_status (with_status st ws)) s)).get_workspace r
        ≡ ok (with_status st ws)
  pub claimed :
      (s : State) (pvc : Pvc)
      → IsMissing ((server s).get_pvc pvc.meta.namespace pvc.meta.name)
      → (server (perform (create_pvc pvc) s)).get_pvc pvc.meta.namespace pvc.meta.name ≡ ok pvc
  pub started :
      (s : State) (pod : Pod)
      → IsMissing ((server s).get_pod pod.meta.namespace pod.meta.name)
      → (server (perform (create_pod pod) s)).get_pod pod.meta.namespace pod.meta.name ≡ ok pod
  -- A write to one kind of object leaves the others alone.
  pub workspace_kept :
      (a : Action) (s : State) (r : Request)
      → KeepsWorkspace a
      → (server (perform a s)).get_workspace r ≡ (server s).get_workspace r
  pub claim_kept :
      (a : Action) (s : State) (ns name : Text)
      → KeepsClaim a
      → (server (perform a s)).get_pvc ns name ≡ (server s).get_pvc ns name
  pub pod_kept :
      (a : Action) (s : State) (ns name : Text)
      → KeepsPod a
      → (server (perform a s)).get_pod ns name ≡ (server s).get_pod ns name

module _ (c : Cluster) where
  unfoldable pub perform_all : List Action → c.State → c.State
  perform_all [] s = s
  perform_all (a ∷ rest) s = perform_all rest (c.perform a s)

  -- The cluster after one call of Reconcile.
  abbrev pub reconciled : Platform → Config → Request → c.State → c.State
  reconciled k cfg req s = perform_all (reconcile k cfg (c.server s) req).actions s

  -- What others do between two calls: the gateway sets lastAccessed, the kubelet changes the
  -- status of a pod, time passes. None of them creates or deletes the objects, or loses a volume.
  pub record IsOutside (req : Request) (s t : c.State) : Type 0 where
    pub accessed :
        (ws : Workspace)
        → (c.server s).get_workspace req ≡ ok ws
        → (seen : Option ℕ) × ((c.server t).get_workspace req
            ≡ ok (with_status (record (ws.status) { last_accessed = seen }) ws))
    pub unclaimed :
        (ns name : Text)
        → IsMissing ((c.server s).get_pvc ns name)
        → IsMissing ((c.server t).get_pvc ns name)
    pub bound :
        (ns name : Text) (pvc : Pvc)
        → (c.server s).get_pvc ns name ≡ ok pvc
        → pvc.lost ≡ false
        → (pvc' : Pvc) × ((c.server t).get_pvc ns name ≡ ok pvc') × (pvc'.lost ≡ false)
    pub unstarted :
        (ns name : Text)
        → IsMissing ((c.server s).get_pod ns name)
        → IsMissing ((c.server t).get_pod ns name)
    pub moved :
        (ns name : Text) (pod : Pod)
        → (c.server s).get_pod ns name ≡ ok pod
        → (st : PodStatus) × ((c.server t).get_pod ns name ≡ ok (record pod { status = st }))

  -- Calls of Reconcile, with what others do in between; the index counts the calls.
  pub data Run (k : Platform) (cfg : Config) (req : Request) : ℕ → c.State → c.State → Type 0 where
    done : (s : c.State) → Run k cfg req 0 s s
    outside :
        {n : ℕ} {s t u : c.State} → IsOutside req s t → Run k cfg req n t u → Run k cfg req n s u
    call :
        {n : ℕ} {s u : c.State}
        → Run k cfg req n (reconciled k cfg req s) u
        → Run k cfg req (suc n) s u
