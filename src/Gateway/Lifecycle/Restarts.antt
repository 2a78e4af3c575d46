-- ===== src/Gateway/Lifecycle/Restarts.antt =====
-- A stopped workspace that the gateway starts again, and the operator's next call for it.
use dev_plane.Base.{ℕ, ◌+◌, ◌<◌, true, false, none, [], ◌∷◌, ◌≡◌, refl, on_true}
use dev_plane.Base.Text.{Text, lit}
use dev_plane.Base.Result.{ok}
use dev_plane.Api.{Workspace, unset, stopped, phase_eq}
use dev_plane.Platform.{Pod, Platform}
use dev_plane.Operator.Env.{Config, Request, ApiServer, delete_pod, no_requeue}
use dev_plane.Operator.Helpers.{effective_idle_timeout, max_duration}
use dev_plane.Operator.PodStages.{ignore_not_found}
use dev_plane.Operator.Reconcile.{reconcile}
use dev_plane.Operator.Reconcile.Reported.{IsReported}
use dev_plane.Operator.Reconcile.Idle.{IsServed, IsTimed, reconcile_stops_idle}
use dev_plane.Gateway.Lifecycle.{
  Claims, LifecycleConfig, patch, Server, Ensured, restarted_copy, ensure_exists,
}

pub restart_writes :
    (k : Platform) (cfg : LifecycleConfig) (srv : Server) (ns : Text) (claims : Claims)
    (ws : Workspace)
    → srv.get ns claims.user_id ≡ ok ws
    → phase_eq ws.status.phase stopped ≡ true
    → (ensure_exists k cfg srv ns claims).writes ≡ patch (restarted_copy ws) ∷ []
unfolding ensure_exists
restart_writes k cfg srv ns claims ws e s =
    rw (e, ensure_exists)
      (on_true (λ (r : Ensured). r.writes ≡ patch (restarted_copy ws) ∷ []) _ _ s refl)

-- A copy with the phase, the message and the pod's name cleared, and the rest as it was.
pub record IsCleared (ws copy : Workspace) : Type 0 where
  pub phase : copy.status.phase ≡ unset
  pub message : copy.status.message ≡ []
  pub pod_name : copy.status.pod_name ≡ []
  pub endpoint : copy.status.service_endpoint ≡ ws.status.service_endpoint
  pub conditions : copy.status.conditions ≡ ws.status.conditions
  pub accessed : copy.status.last_accessed ≡ ws.status.last_accessed
  pub spec : copy.spec ≡ ws.spec
  pub name : copy.name ≡ ws.name
  pub namespace : copy.namespace ≡ ws.namespace
  pub finalizers : copy.finalizers ≡ ws.finalizers

restarted_copy-IsCleared : (ws : Workspace) → IsCleared ws (restarted_copy ws)
unfolding restarted_copy
restarted_copy-IsCleared ws = record {
  phase = refl;
  message = refl;
  pod_name = refl;
  endpoint = refl;
  conditions = refl;
  accessed = refl;
  spec = refl;
  name = refl;
  namespace = refl;
  finalizers = refl;
}

-- A workspace that was stopped because it was idle, and that the gateway starts again with
-- EnsureExists: the gateway writes a copy with the phase, the message and the pod's name cleared,
-- and the time of the last access as it was. If the operator then reads that copy with every object
-- in place and the pod ready, and the delete of the pod succeeds or finds none, it deletes the pod
-- and asks for the phase Stopped again, with no pod and not Ready.
pub restart_undone :
    (k : Platform) (gateway : LifecycleConfig) (server : Server) (ns : Text) (claims : Claims)
    (cfg : Config) (srv : ApiServer) (req : Request) (ws : Workspace) (pod : Pod) (d t : ℕ)
    → server.get ns claims.user_id ≡ ok ws
    → phase_eq ws.status.phase stopped ≡ true
    → IsTimed k cfg srv req ws pod d t
    → IsServed k cfg srv req (restarted_copy ws) pod
    → d < max_duration
    → t + d < srv.now
    → ignore_not_found (srv.delete_pod pod) ≡ none
    → ((ensure_exists k gateway server ns claims).writes ≡ patch (restarted_copy ws) ∷ [])
      × IsCleared ws (restarted_copy ws)
      × IsReported k cfg srv
          (restarted_copy ws)
          (delete_pod pod ∷ [])
          stopped
          []
          []
          (lit "Workspace stopped due to inactivity")
          false
          no_requeue
          (reconcile k cfg srv req)
unfolding restarted_copy effective_idle_timeout
restart_undone k gateway server ns claims cfg srv req ws pod d t e s h i b late gone = (
  restart_writes k gateway server ns claims ws e s,
  restarted_copy-IsCleared ws,
  reconcile_stops_idle k cfg srv req (restarted_copy ws) pod d t i
      (record { ready = h.ready; enabled = h.enabled; on = h.on; seen = h.seen }) b late gone,
)
