-- ===== src/Operator/PodStages.antt =====
-- The parts of Reconcile that look at the pod: whether it is outdated, idle, running or failing, and
-- the status that is reported for it.
use dev_plane.Base.{
  ℕ, ◌/◌, Bool, true, false, Option, none, some, List, [], ◌∷◌, ◌++◌, ◌&&◌, ◌||◌, not, is_empty,
  any, if◌then◌else◌,
}
use dev_plane.Base.Int.{ℤ, pos, negsuc, ltb_ℤ}
use dev_plane.Base.Text.{Text, lit, text_eq}
use dev_plane.Base.Result.{Error, ok, fail, wrap}
use dev_plane.Api.{creating, running, stopped, Workspace}
use dev_plane.Platform.{
  tcp, Container, PodPhase, phase_unset, phase_pending, phase_running, phase_succeeded,
  phase_failed, phase_unknown, phase_other, Waiting, Pod, Platform,
}
use dev_plane.Resources.Names.{pod_name, service_name, labels, ttyd_port}
use dev_plane.Resources.Build.{BuildOpts}
use dev_plane.Diagnostics.{
  Details, remediation_pod_failed, remediation_pod_unknown, reason_running, reason_progressing,
  reason_stopped, reason_pod_failed, reason_pod_unknown, remediation_for_pod_waiting_reason,
}
use dev_plane.Status.{StatusSummary}
use dev_plane.Operator.Env.{
  Config, Request, Object, service, ApiServer, patch_status, delete_pod, Requeue, no_requeue,
  requeue_after, Outcome, return_error, after,
}
use dev_plane.Operator.Helpers.{
  effective_idle_timeout, is_pod_ready, since, report, summary, summary_failed,
}
use dev_plane.Operator.Ensure.{owned_meta}

abbrev pub workspace_finalizer : Text
workspace_finalizer = lit "workspace.devplane.io/finalizer"

-- 2 and 5 seconds, in nanoseconds
abbrev pub two_seconds : ℕ
two_seconds = 2000000000

abbrev pub five_seconds : ℕ
five_seconds = 5000000000

unfoldable pub contains_finalizer : Workspace → Bool
contains_finalizer ws = any (λ f. text_eq f workspace_finalizer) ws.finalizers

unfoldable pub without : Text → List Text → List Text
without t [] = []
without t (f ∷ fs) = let rest = without t fs in if text_eq f t then rest else f ∷ rest

-- The workspace that reconcileDelete sends.
unfoldable pub remove_finalizer : Workspace → Workspace
unfolding without
remove_finalizer ws = record ws { finalizers = without workspace_finalizer ws.finalizers }

-- The answer to a delete, where "not found" counts as done.
abbrev pub ignore_not_found : Option Error → Option Error
ignore_not_found none = none
ignore_not_found (some err) = if err.not_found then none else some err

unfoldable pub desired_image : Config → Text
desired_image cfg =
    if is_empty cfg.workspace_image then lit "workspace:latest" else cfg.workspace_image

abbrev pub build_opts : Config → BuildOpts
build_opts cfg = record {
  default_ca_bundle = cfg.default_ca_bundle;
  pip_index_url = cfg.pip_index_url;
  pip_trusted_host = cfg.pip_trusted_host;
  npm_registry = cfg.npm_registry;
}

unfoldable pub image_differs : Text → List Container → Bool
image_differs image [] = false
image_differs image (c ∷ cs) = not (text_eq c.image image)

-- The first container's image is another one, and the pod is not being deleted.
unfoldable pub is_outdated : Config → Pod → Bool
unfolding image_differs desired_image
is_outdated cfg pod = image_differs (desired_image cfg) pod.spec.containers && not pod.deleting

abbrev pub is_phase_running : PodPhase → Bool
is_phase_running phase_running = true
is_phase_running _ = false

-- `pod.Status.Phase == corev1.PodRunning && isPodReady(&pod)`
unfoldable pub is_running_and_ready : Pod → Bool
unfolding is_pod_ready
is_running_and_ready pod = is_phase_running pod.status.phase && is_pod_ready pod

-- The waiting reasons that count as failures.
unfoldable pub is_stuck_reason : Text → Bool
is_stuck_reason reason =
    text_eq reason (lit "CrashLoopBackOff")
    || text_eq reason (lit "ImagePullBackOff")
    || text_eq reason (lit "ErrImagePull")
    || text_eq reason (lit "InvalidImageName")

-- The first container that waits for such a reason.
unfoldable pub first_stuck : List (Option Waiting) → Option Waiting
unfolding is_stuck_reason
first_stuck [] = none
first_stuck (none ∷ ws) = first_stuck ws
first_stuck (some w ∷ ws) =
    let rest = first_stuck ws in if is_stuck_reason w.reason then some w else rest

-- "Pod phase: %s", or "Pod starting" where there is no phase yet.
unfoldable pub starting_message : PodPhase → Text
starting_message phase_unset = lit "Pod starting"
starting_message phase_pending = lit "Pod phase: Pending"
starting_message phase_running = lit "Pod phase: Running"
starting_message phase_succeeded = lit "Pod phase: Succeeded"
starting_message phase_failed = lit "Pod phase: Failed"
starting_message phase_unknown = lit "Pod phase: Unknown"
starting_message (phase_other s) = lit "Pod phase: " ++ s

unfoldable pub unknown_message : Text → Text
unknown_message message =
    if is_empty message
    then lit "Pod phase Unknown — cluster node or kubelet may be unavailable"
    else lit "Pod phase Unknown: " ++ message

unfoldable pub service_endpoint : Text → Text → Text
service_endpoint user_id namespace =
    service_name user_id ++ lit "." ++ namespace ++ lit ".svc.cluster.local"

unfoldable pub desired_service : Workspace → Object
desired_service ws = service (record {
  meta = owned_meta (service_name ws.spec.user.id) ws;
  headless = true;
  selector = labels ws.spec.user.id;
  ports = record { name = lit "ttyd"; port = ttyd_port; protocol = tcp } ∷ [];
})

-- `RequeueAfter: idle / 4`, where idle is positive
unfoldable pub requeue_for_idle : ℤ → Requeue
requeue_for_idle (pos n) = if ltb_ℤ (pos 0) (pos n) then requeue_after (n / 4) else no_requeue
requeue_for_idle (negsuc n) = no_requeue

-- The workspace with lastAccessed set to a reading of the clock.
unfoldable pub seeded : ℕ → Workspace → Workspace
seeded time ws = record ws { status = record (ws.status) { last_accessed = some time } }

unfoldable pub with_finalizer : Workspace → Workspace
with_finalizer ws = record ws { finalizers = ws.finalizers ++ workspace_finalizer ∷ [] }

module _ (k : Platform) (cfg : Config) (srv : ApiServer) (req : Request) where
  -- Still creating.
  unfoldable pub reconcile_starting : Workspace → Pod → Outcome
  unfolding starting_message
  reconcile_starting ws pod =
      report k cfg srv ws
        (record (summary creating) {
          pod_name = pod_name ws.spec.user.id;
          service_endpoint = service_endpoint ws.spec.user.id req.namespace;
          message = starting_message pod.status.phase;
          ready_reason = reason_progressing;
        })
        (requeue_after five_seconds)

  unfoldable pub failed_pod_summary : Workspace → Text → Details → StatusSummary
  failed_pod_summary ws message details = record (summary_failed message details) {
    pod_name = pod_name ws.spec.user.id;
  }

  -- The waiting reasons of the containers.
  unfoldable pub reconcile_waiting : Workspace → Pod → Outcome
  unfolding reconcile_starting failed_pod_summary
  reconcile_waiting ws pod = elim (first_stuck pod.status.container_statuses) [
    | none ↦ reconcile_starting ws pod
    | some w ↦
        report k cfg srv ws
          (failed_pod_summary ws (lit "Pod stuck: " ++ w.reason ++ lit " — " ++ w.message)
            (remediation_for_pod_waiting_reason w.reason))
          no_requeue
  ]

  -- A pod that is not both running and ready, by its phase.
  unfoldable pub reconcile_unready : PodPhase → Workspace → Pod → Outcome
  unfolding reconcile_waiting failed_pod_summary unknown_message
  reconcile_unready phase_failed ws pod =
      report k cfg srv ws
        (failed_pod_summary ws (lit "Pod failed: " ++ pod.status.reason)
          (record { remediation = remediation_pod_failed; reason = reason_pod_failed }))
        no_requeue
  reconcile_unready phase_unknown ws pod =
      report k cfg srv ws
        (failed_pod_summary ws (unknown_message pod.status.message)
          (record { remediation = remediation_pod_unknown; reason = reason_pod_unknown }))
        no_requeue
  reconcile_unready _ ws pod = reconcile_waiting ws pod

  unfoldable pub running_summary : Workspace → StatusSummary
  running_summary ws = record (summary running) {
    pod_name = pod_name ws.spec.user.id;
    service_endpoint = service_endpoint ws.spec.user.id req.namespace;
    ready_reason = reason_running;
  }

  -- The status from the pod's state, after the idle check.
  unfoldable pub reconcile_status : Workspace → Pod → ℤ → Outcome
  unfolding reconcile_unready running_summary
  reconcile_status ws pod idle =
      if is_running_and_ready pod
      then report k cfg srv ws (running_summary ws) (requeue_for_idle idle)
      else reconcile_unready pod.status.phase ws pod

  unfoldable pub stopped_summary : StatusSummary
  stopped_summary = record (summary stopped) {
    message = lit "Workspace stopped due to inactivity";
    ready_reason = reason_stopped;
  }

  -- The pod of a workspace that has been idle for too long is deleted.
  unfoldable pub stop_idle : Workspace → Pod → Outcome
  unfolding stopped_summary
  stop_idle ws pod = after (delete_pod pod ∷ []) (elim (ignore_not_found (srv.delete_pod pod)) [
    | some err ↦ return_error [] (wrap (lit "delete idle pod") err)
    | none ↦ report k cfg srv ws stopped_summary no_requeue
  ])

  -- `time.Since(lastAccessed) > idle`
  unfoldable pub check_idle : Workspace → Pod → ℤ → Outcome
  unfolding stop_idle
  check_idle ws pod idle =
      if ltb_ℤ idle (since srv.now ws.status.last_accessed)
      then stop_idle ws pod
      else reconcile_status ws pod idle

  -- lastAccessed is seeded where it is missing.
  unfoldable pub seed_and_check : Option ℕ → Workspace → Pod → ℤ → Outcome
  unfolding check_idle
  seed_and_check (some t) ws pod idle = check_idle ws pod idle
  seed_and_check none ws pod idle =
      after (patch_status (seeded srv.seed_time ws) ∷ [])
        (elim (srv.patch_status (seeded srv.seed_time ws)) [
          | fail err ↦ return_error [] (wrap (lit "seed lastAccessed") err)
          | ok ws' ↦ check_idle ws' pod idle
        ])

  -- The idle check and what follows. The timeout is read before the seeding.
  unfoldable pub reconcile_idle : Workspace → Pod → Outcome
  unfolding seed_and_check
  reconcile_idle ws pod =
      let idle = effective_idle_timeout k ws cfg.idle_timeout in
      if is_running_and_ready pod && ltb_ℤ (pos 0) idle
      then seed_and_check ws.status.last_accessed ws pod idle
      else reconcile_status ws pod idle
