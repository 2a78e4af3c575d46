-- ===== src/Examples/Reconciles.antt =====
-- Calls of the operator.
use dev_plane.Base.{ℕ, true, false, ◌∷◌, [], ◌≡◌, refl, arith, All, any, ◌/◌}
use dev_plane.Base.Text.{lit, text_eq, trim_space}
use dev_plane.Base.Result.{ok, fail}
use dev_plane.Api.{Workspace, running, stopped, phase_eq}
use dev_plane.Operator.Env.{ApiServer, no_requeue, requeue_after, delete_pod}
use dev_plane.Operator.Helpers.{effective_idle_timeout}
use dev_plane.Resources.Names.{pod_name, dns_label}
use dev_plane.Resources.Build.{build_pod}
use dev_plane.Resources.Validate.{validate_spec}
use dev_plane.Security.Netpol.{
  build_deny_all_network_policy, build_egress_network_policy,
  build_ingress_from_gateway_network_policy,
}
use dev_plane.Security.Rbac.{build_role}
use dev_plane.Operator.Ensure.{ensure_rbac, ensure_network_policies}
use dev_plane.Operator.PodStages.{
  contains_finalizer, is_outdated, is_running_and_ready, service_endpoint,
}
use dev_plane.Operator.Reconcile.{
  create_missing_pod, reconcile_pod, reconcile_pvc, reconcile_network, reconcile_rbac,
  reconcile_valid, reconcile_workspace, reconcile,
}
use dev_plane.Operator.Reconcile.Permitted.{Permitted, IsActive}
use dev_plane.Operator.Reconcile.Requests.{reconcile-Permitted}
use dev_plane.Operator.Reconcile.FirstPod.{is_create_pod}
use dev_plane.Operator.Reconcile.Order.{IsProtected, reconcile-IsProtected}
use dev_plane.Operator.Reconcile.Reported.{IsReported}
use dev_plane.Operator.Reconcile.Idle.{
  IsServed, IsTimed, reconcile_keeps_fresh, reconcile_stops_idle,
}
use dev_plane.Examples.Cluster.{
  platform, workspace_in, config, request, missing, claim, ready_pod, server,
}

abbrev jane : Workspace
jane = workspace_in running

-- The pod is missing.
abbrev fresh_server : ApiServer
fresh_server = server jane (fail missing) 2000

abbrev pod_server : ℕ → ApiServer
pod_server time = server jane (ok ready_pod) time

reconcile-Permitted_example :
    All
      (Permitted platform config fresh_server request jane)
      (reconcile platform config fresh_server request).actions
reconcile-Permitted_example = reconcile-Permitted platform config fresh_server request jane refl

creates_pod : any is_create_pod (reconcile platform config fresh_server request).actions ≡ true
unfolding reconcile reconcile_workspace reconcile_valid reconcile_rbac reconcile_network
    reconcile_pvc reconcile_pod create_missing_pod ensure_rbac ensure_network_policies build_role
    build_deny_all_network_policy build_egress_network_policy
    build_ingress_from_gateway_network_policy build_pod validate_spec dns_label trim_space
    contains_finalizer phase_eq text_eq lit
creates_pod = refl

reconcile-IsProtected_example :
    IsProtected platform config fresh_server request jane
      (reconcile platform config fresh_server request).actions
reconcile-IsProtected_example =
    reconcile-IsProtected platform config fresh_server request jane refl creates_pod

jane-IsActive : (time : ℕ) → IsActive platform config (pod_server time) request jane
unfolding validate_spec dns_label trim_space contains_finalizer phase_eq text_eq lit
jane-IsActive time = record { kept = refl; valid = refl; finalizer = refl; live = refl }

jane-IsServed : (time : ℕ) → IsServed platform config (pod_server time) request jane ready_pod
unfolding ensure_rbac ensure_network_policies build_role build_deny_all_network_policy
    build_egress_network_policy build_ingress_from_gateway_network_policy is_outdated
jane-IsServed time = record {
  read = refl;
  active = jane-IsActive time;
  rbac = refl;
  policies = refl;
  pvc = claim;
  claimed = refl;
  usable = refl;
  found = refl;
  current = refl;
  service = refl;
}

jane-IsTimed :
    (time : ℕ) → IsTimed platform config (pod_server time) request jane ready_pod 5000 1000
unfolding is_running_and_ready effective_idle_timeout trim_space text_eq lit
jane-IsTimed time = record { ready = refl; enabled = refl; on = omega arith; seen = refl }

reconcile_stops_idle_example :
    IsReported platform config
      (pod_server 9000)
      jane
      (delete_pod ready_pod ∷ [])
      stopped
      []
      []
      (lit "Workspace stopped due to inactivity")
      false
      no_requeue
      (reconcile platform config (pod_server 9000) request)
reconcile_stops_idle_example =
    reconcile_stops_idle platform config (pod_server 9000) request jane ready_pod 5000 1000
      (jane-IsServed 9000) (jane-IsTimed 9000) (omega arith) (omega arith) refl

reconcile_keeps_fresh_example :
    IsReported platform config
      (pod_server 2000)
      jane
      []
      running
      (pod_name (lit "jane"))
      (service_endpoint (lit "jane") request.namespace)
      []
      true
      (requeue_after (5000 / 4))
      (reconcile platform config (pod_server 2000) request)
reconcile_keeps_fresh_example =
    reconcile_keeps_fresh platform config (pod_server 2000) request jane ready_pod 5000 1000
      (jane-IsServed 2000) (jane-IsTimed 2000) (omega arith)
