-- ===== src/Gateway/Lifecycle/Provides.antt =====
-- The gateway and the operator in one cluster: a workspace that the gateway creates, and one that it
-- starts again.
use dev_plane.Base.{ℕ, ◌≤◌, true, false, none, [], ◌∷◌, ◌≡◌, ◌≢◌, refl}
use dev_plane.Base.Text.{Text}
use dev_plane.Base.Result.{Error, Result, ok, fail}
use dev_plane.Api.{Workspace, stopped, phase_eq}
use dev_plane.Platform.{Pvc, Pod, Platform, IsOwning}
use dev_plane.Resources.Validate.{validate_spec}
use dev_plane.Operator.Env.{Config, Request, patch_status}
use dev_plane.Operator.PodStages.{contains_finalizer}
use dev_plane.Operator.Reconcile.Permitted.{IsMissing}
use dev_plane.Operator.Cluster.{Cluster, Run, reconciled}
use dev_plane.Operator.Cluster.Effects.{Holds, patch-Holds}
use dev_plane.Operator.Cluster.Stages.{IsRegistered, IsRun, starts}
use dev_plane.Operator.Cluster.Serving.{IsSettled}
use dev_plane.Operator.Cluster.Progress.{calls-IsSettled}
use dev_plane.Gateway.UserId.{sanitize_user_id}
use dev_plane.Gateway.Lifecycle.{
  LifecycleConfig, Server, create, patch, new_workspace, restarted_copy, ensure_exists,
}
use dev_plane.Gateway.Lifecycle.Creates.{claims_of, IsUsable, ensure_exists_created}
use dev_plane.Gateway.Lifecycle.Restarts.{restart_writes}

-- The key of a user's workspace.
abbrev pub user_request : Platform → (ns sub : Text) → Request
user_request k ns sub = record { namespace = ns; name = sanitize_user_id k.unicode_lower sub }

new_workspace-IsRegistered :
    (c : Cluster) (k : Platform) (gateway : LifecycleConfig) (ns sub email : Text) (cfg : Config)
    (s : c.State) (claim : Result Pvc) (pod : Result Pod)
    → Holds c
        (user_request k ns sub)
        s
        (new_workspace k gateway ns (claims_of k sub email))
        claim
        pod
    → IsMissing claim
    → IsMissing pod
    → validate_spec k (new_workspace k gateway ns (claims_of k sub email)).spec ≡ none
    → IsRegistered c k cfg (user_request k ns sub) s
unfolding new_workspace contains_finalizer phase_eq
new_workspace-IsRegistered c k gateway ns sub email cfg s claim pod h m n v = record {
  ws = new_workspace k gateway ns (claims_of k sub email);
  claim = claim;
  pod = pod;
  holds = h;
  wanted = record { kept = refl; valid = v; live = refl; placed = refl };
  bare = refl;
  unclaimed = m;
  unstarted = n;
}

-- A user with no workspace, whose subject has a user ID, whose token has an email, and a gateway
-- whose defaults are usable. EnsureExists asks for one workspace to be created. In a cluster that
-- accepts the operator's writes, from a state that holds that workspace and no claim or pod of the
-- user, and through any sequence of calls of Reconcile with what others do in between: after three
-- calls or more, the workspace has its finalizer, a claim, and a pod that is not being deleted,
-- whose one container runs the configured image with the claim mounted at /workspace; or it was
-- stopped, and idle shutdown is on for it.
pub created_settles :
    (c : Cluster) (k : Platform) (gateway : LifecycleConfig) (server : Server) (ns sub email : Text)
    (err : Error) (cfg : Config) {n : ℕ} {s t : c.State} (claim : Result Pvc) (pod : Result Pod)
    → IsOwning k
    → sanitize_user_id k.unicode_lower sub ≢ []
    → email ≢ []
    → IsUsable k gateway
    → server.get ns (sanitize_user_id k.unicode_lower sub) ≡ fail err
    → err.not_found ≡ true
    → Holds c
        (user_request k ns sub)
        s
        (new_workspace k gateway ns (claims_of k sub email))
        claim
        pod
    → IsMissing claim
    → IsMissing pod
    → Run c k cfg (user_request k ns sub) n s t
    → 3 ≤ n
    → ((ensure_exists k gateway server ns (claims_of k sub email)).writes
        ≡ create (new_workspace k gateway ns (claims_of k sub email)) ∷ [])
      × IsSettled c k cfg (user_request k ns sub) t
created_settles c k gateway server ns sub email err cfg {n = n} {s = s} {t = t} claim pod owning h e
      u g m holds unclaimed unstarted run enough =
    let (writes, valid) = ensure_exists_created k gateway server ns sub email err h g m in
    let start =
      new_workspace-IsRegistered c k gateway ns sub email cfg s claim pod holds unclaimed unstarted
        (valid.1 (e, u)) in
    (writes, calls-IsSettled c k cfg (user_request k ns sub) owning start run enough)

-- A workspace that is stopped, with its finalizer, its claim and no pod. EnsureExists asks for one
-- patch, and in a cluster that has taken it the next call of Reconcile creates a pod: the workspace
-- has its finalizer, its claim and a pod that is not being deleted, whose one container runs the
-- configured image with the claim mounted at /workspace, and is not stopped.
pub restart_provides :
    (c : Cluster) (k : Platform) (gateway : LifecycleConfig) (server : Server) (ns sub email : Text)
    (cfg : Config) (s : c.State) (ws : Workspace) (pvc : Pvc) (pod : Result Pod)
    → IsOwning k
    → server.get ns (sanitize_user_id k.unicode_lower sub) ≡ ok ws
    → Holds c (user_request k ns sub) s ws (ok pvc) pod
    → ws.deleting ≡ false
    → validate_spec k ws.spec ≡ none
    → ws.namespace ≡ ns
    → contains_finalizer ws ≡ true
    → phase_eq ws.status.phase stopped ≡ true
    → pvc.lost ≡ false
    → IsMissing pod
    → ((ensure_exists k gateway server ns (claims_of k sub email)).writes
        ≡ patch (restarted_copy ws) ∷ [])
      × IsRun c k cfg (user_request k ns sub) (
          reconciled c k cfg
            (user_request k ns sub)
            (c.perform (patch_status (restarted_copy ws)) s))
unfolding restarted_copy contains_finalizer phase_eq
restart_provides c k gateway server ns sub email cfg s ws pvc pod owning e h d v p f st usable m = (
  restart_writes k gateway server ns (claims_of k sub email) ws e st,
  starts c k cfg (user_request k ns sub) owning _ (record {
    ws = restarted_copy ws;
    pvc = pvc;
    pod = pod;
    holds = patch-Holds c (user_request k ns sub) (restarted_copy ws).status h;
    wanted = record { kept = d; valid = v; live = refl; placed = p };
    finalizer = f;
    usable = usable;
    unstarted = m;
  }),
)
