-- ===== src/Examples/Tunnels.antt =====
-- Tunnels, and the activity of a session.
use dev_plane.Base.{arith, true, ◌/◌, none, some, [], ◌∷◌, List, map, length, ◌≡◌, refl}
use dev_plane.Base.Int.{pos}
use dev_plane.Base.Text.{lit, text_eq, trim_space}
use dev_plane.Api.{Workspace, running, phase_eq}
use dev_plane.Operator.Env.{Config, ApiServer, requeue_after}
use dev_plane.Operator.Helpers.{effective_idle_timeout}
use dev_plane.Resources.Names.{pod_name, dns_label}
use dev_plane.Resources.Validate.{validate_spec}
use dev_plane.Security.Netpol.{
  build_deny_all_network_policy, build_egress_network_policy,
  build_ingress_from_gateway_network_policy,
}
use dev_plane.Security.Rbac.{build_role}
use dev_plane.Operator.Ensure.{ensure_rbac, ensure_network_policies}
use dev_plane.Operator.PodStages.{
  contains_finalizer, is_outdated, is_running_and_ready, service_endpoint,
}
use dev_plane.Operator.Reconcile.{reconcile}
use dev_plane.Operator.Reconcile.Permitted.{IsActive}
use dev_plane.Operator.Reconcile.Reported.{IsReported}
use dev_plane.Operator.Reconcile.Idle.{IsServed, IsTimed}
use dev_plane.Base.Result.{ok}
use dev_plane.Gateway.Lifecycle.{Server, touch_last_accessed, accessed_at}
use dev_plane.Gateway.Activity.{Moment, on_activity, on_activities}
use dev_plane.Gateway.Activity.Keeps.{IsReadBack, latest, on_activity_keeps_running}
use dev_plane.Gateway.Web.Manager.{touched}
use dev_plane.Gateway.Proxy.Ends.{IsClosed, AllClosed, advance_all, closed_loops_end}
use dev_plane.Gateway.Proxy.{
  Answer, Direction, ended, backend_to_client, client_to_backend, opened, advance, Tunnel, start,
  advanced,
}
use dev_plane.Gateway.Proxy.Frames.{IsKept, Reach-IsKept}
use dev_plane.Examples.Connections.{defaults, holding}
use dev_plane.Examples.Cluster.{platform, workspace_in, config, request, claim, ready_pod, server}

-- The library reads a message and writes it.
abbrev answer : Answer
answer = record {
  read_error = none;
  read = record { message_type = 1; data_bytes = lit "ls" };
  write_error = none;
}

-- A message of the pod has arrived at the client.
abbrev tunnel : Tunnel
tunnel = advance client_to_backend answer (advance client_to_backend answer opened)

Reach-IsKept_example : IsKept tunnel
Reach-IsKept_example =
    Reach-IsKept {t = tunnel}
      (advanced (advanced start client_to_backend answer) client_to_backend answer)

abbrev jane : Workspace
jane = workspace_in running

-- An operator that stops workspaces after an hour.
abbrev hourly : Config
hourly = record config { idle_timeout = pos 3600000000000 }

abbrev pod_server : ApiServer
pod_server = server jane (ok ready_pod) 2000

jane-IsActive : IsActive platform hourly pod_server request jane
unfolding validate_spec dns_label trim_space contains_finalizer phase_eq text_eq lit
jane-IsActive = record { kept = refl; valid = refl; finalizer = refl; live = refl }

jane-IsServed : IsServed platform hourly pod_server request jane ready_pod
unfolding ensure_rbac ensure_network_policies build_role build_deny_all_network_policy
    build_egress_network_policy build_ingress_from_gateway_network_policy is_outdated
jane-IsServed = record {
  read = refl;
  active = jane-IsActive;
  rbac = refl;
  policies = refl;
  pvc = claim;
  claimed = refl;
  usable = refl;
  found = refl;
  current = refl;
  service = refl;
}

jane-IsTimed : IsTimed platform hourly pod_server request jane ready_pod 3600000000000 1000
unfolding is_running_and_ready effective_idle_timeout trim_space text_eq lit
jane-IsTimed = record { ready = refl; enabled = refl; on = omega arith; seen = refl }

-- The first frame of a session is written to the cluster, the second one is not.
abbrev first_frame : Moment
first_frame = record { tested = 1000; stamped = 1001; touched = 1002 }

abbrev second_frame : Moment
second_frame = record { tested = 1500; stamped = 1501; touched = 1502 }

abbrev server_of_gateway : Server
server_of_gateway = holding (ok jane)

frames_read :
    IsReadBack
      (latest none
        (on_activities
          (touched platform defaults server_of_gateway)
          (first_frame ∷ second_frame ∷ [])
          (record { last_touch = none; ws = jane })).0)
      1000
unfolding on_activities on_activity touched touch_last_accessed accessed_at
frames_read = omega arith

on_activity_keeps_running_example :
    IsReported platform hourly pod_server jane [] running
      (pod_name (lit "jane"))
      (service_endpoint (lit "jane") request.namespace)
      []
      true
      (requeue_after (3600000000000 / 4))
      (reconcile platform hourly pod_server request)
on_activity_keeps_running_example =
    on_activity_keeps_running platform defaults server_of_gateway hourly pod_server request jane
      jane ready_pod (first_frame ∷ []) second_frame 3600000000000 1000
      ((omega arith, omega arith), tt) (omega arith, omega arith) jane-IsServed jane-IsTimed
      frames_read (omega arith)

-- The connections are closed while a message of the pod is being handed on.
abbrev closed : Answer
closed = record answer {
  read_error = some (record { text = lit "closed"; close_code = none });
  write_error = some (record { text = lit "closed"; close_code = none });
}

abbrev closed_step : Direction → Direction × Answer
closed_step d = (d, closed)

abbrev five_each : List (Direction × Answer)
five_each = map closed_step (
    client_to_backend ∷ backend_to_client ∷ client_to_backend ∷ client_to_backend
    ∷ backend_to_client ∷ backend_to_client ∷ client_to_backend ∷ backend_to_client
    ∷ backend_to_client ∷ client_to_backend ∷ [])

closed_fails : IsClosed closed
closed_fails = ((_, refl), (_, refl))

five_each-AllClosed : AllClosed five_each
five_each-AllClosed = let c = closed_fails in (c, (c, (c, (c, (c, (c, (c, (c, (c, (c, tt))))))))))

closed_loops_end_example :
    ((advance_all five_each tunnel).to_client.position ≡ ended)
    × ((advance_all five_each tunnel).to_backend.position ≡ ended)
    × (length (advance_all five_each tunnel).errors ≡ 2)
closed_loops_end_example =
    closed_loops_end {t = tunnel} five_each
      (advanced (advanced start client_to_backend answer) client_to_backend answer)
      five_each-AllClosed (omega arith) (omega arith)
