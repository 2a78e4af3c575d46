-- ===== src/Operator/Reconcile.antt =====
-- Reconcile and reconcileDelete, one function for each stage: a stage makes its calls, returns
-- where the source returns, and goes on to the next stage otherwise.
pub mod Permitted
pub mod Active
pub mod Creates
pub mod Settles
pub mod Reported
pub mod Requests
pub mod FirstPod
pub mod Order
pub mod Idle
use dev_plane.Operator.PodStages.{
  build_opts, check_idle, contains_finalizer, desired_image, desired_service, failed_pod_summary,
  first_stuck, five_seconds, ignore_not_found, image_differs, is_outdated, is_phase_running,
  is_running_and_ready, is_stuck_reason, reconcile_idle, reconcile_starting, reconcile_status,
  reconcile_unready, reconcile_waiting, remove_finalizer, requeue_for_idle, running_summary,
  seed_and_check, seeded, service_endpoint, starting_message, stop_idle, stopped_summary,
  two_seconds, unknown_message, with_finalizer, without, workspace_finalizer,
}
use dev_plane.Base.{
  ℕ, ◌/◌, Bool, true, false, Option, none, some, List, [], ◌∷◌, ◌++◌, ◌&&◌, ◌||◌, not, is_empty,
  any, if◌then◌else◌,
}
use dev_plane.Base.Int.{ℤ, pos, negsuc, ltb_ℤ}
use dev_plane.Base.Text.{Text, lit, text_eq}
use dev_plane.Base.Result.{Error, Result, ok, fail, wrap}
use dev_plane.Api.{creating, running, failed, stopped, phase_eq, Workspace}
use dev_plane.Platform.{
  Pvc, tcp, Container, PodPhase, phase_unset, phase_pending, phase_running, phase_succeeded,
  phase_failed, phase_unknown, phase_other, Waiting, Pod, Platform,
}
use dev_plane.Resources.Names.{pvc_name, pod_name, service_name, labels, ttyd_port}
use dev_plane.Resources.Build.{BuildOpts, build_pvc, build_pod}
use dev_plane.Resources.Validate.{validate_spec}
use dev_plane.Diagnostics.{
  Details, remediation_validation, remediation_pvc_lost, remediation_pod_failed,
  remediation_pod_unknown, reason_running, reason_progressing, reason_stopped,
  reason_validation_failed, reason_pvc_lost, reason_pod_failed, reason_pod_unknown,
  error_details_for_rbac, error_details_for_network_policy, error_details_for_pvc_get,
  error_details_for_pvc_create, error_details_for_pod_get, error_details_for_pod_create,
  error_details_for_service, remediation_for_pod_waiting_reason,
}
use dev_plane.Status.{StatusSummary}
use dev_plane.Operator.Env.{
  Config, Request, Object, service, ApiServer, Action, update_workspace, patch_status, create_pvc,
  create_pod, delete_pod, apply, Requeue, no_requeue, requeue, requeue_after, Outcome, return_error,
  return_ok, after,
}
use dev_plane.Operator.Helpers.{
  effective_idle_timeout, is_pod_ready, since, report, report_error, summary, summary_keeping,
  summary_failed,
}
use dev_plane.Operator.Ensure.{owned_meta, ensure_rbac, ensure_network_policies}

module _ (k : Platform) (cfg : Config) (srv : ApiServer) (req : Request) where
  unfoldable pub reconcile_service : Workspace → Pod → Outcome
  unfolding desired_service
  reconcile_service ws pod =
      after (apply (desired_service ws) ∷ []) (elim (srv.create_or_update (desired_service ws)) [
        | none ↦ reconcile_idle k cfg srv req ws pod
        | some err ↦
            report k cfg srv ws (summary_failed err.text (error_details_for_service k err))
              no_requeue
      ])

  invalid : Text → StatusSummary
  invalid message =
      summary_failed message
        (record { remediation = remediation_validation; reason = reason_validation_failed })

  -- The pod is missing.
  unfoldable pub create_missing_pod : Workspace → Outcome
  unfolding invalid
  create_missing_pod ws =
      elim (build_pod k ws (pvc_name ws.spec.user.id) (desired_image cfg) (build_opts cfg)) [
        | fail err ↦ report k cfg srv ws (invalid err.text) no_requeue
        | ok pod ↦ after (create_pod pod ∷ []) (elim (srv.create_pod pod) [
          | none ↦ return_ok [] (requeue_after two_seconds)
          | some err ↦
              report k cfg srv ws (summary_failed err.text (error_details_for_pod_create k err))
                no_requeue
        ])
      ]

  -- The pod runs another image.
  unfoldable pub replace_pod : Pod → Outcome
  replace_pod pod = after (delete_pod pod ∷ []) (elim (ignore_not_found (srv.delete_pod pod)) [
    | some err ↦ return_error [] (wrap (lit "delete outdated pod") err)
    | none ↦ return_ok [] (requeue_after two_seconds)
  ])

  unfoldable pub reconcile_pod : Workspace → Outcome
  reconcile_pod ws = elim (srv.get_pod req.namespace (pod_name ws.spec.user.id)) [
    | ok pod ↦ if is_outdated cfg pod then replace_pod pod else reconcile_service ws pod
    | fail err ↦
        if err.not_found
        then create_missing_pod ws
        else report_error k cfg srv ws
            (summary_keeping creating ws (lit "Failed to read Pod: " ++ err.text)
              (error_details_for_pod_get k err))
            (lit "get Pod") err
  ]

  -- The volume claim is missing.
  unfoldable pub create_missing_pvc : Workspace → Outcome
  unfolding invalid
  create_missing_pvc ws = elim (build_pvc k ws) [
    | fail err ↦ report k cfg srv ws (invalid err.text) no_requeue
    | ok pvc ↦ after (create_pvc pvc ∷ []) (elim (srv.create_pvc pvc) [
      | none ↦
          report k cfg srv ws
            (summary_keeping creating ws
              (lit "PersistentVolumeClaim created; waiting for volume to bind")
              (record { remediation = []; reason = reason_progressing }))
            (requeue_after two_seconds)
      | some err ↦
          report k cfg srv ws (summary_failed err.text (error_details_for_pvc_create k err))
            no_requeue
    ])
  ]

  -- A claim that is there: only a lost one blocks.
  check_pvc : Workspace → Pvc → Outcome
  check_pvc ws pvc =
      if pvc.lost
      then report k cfg srv ws
          (summary_failed (lit "PVC lost — manual intervention required")
            (record { remediation = remediation_pvc_lost; reason = reason_pvc_lost }))
          no_requeue
      else reconcile_pod ws

  unfoldable pub reconcile_pvc : Workspace → Outcome
  unfolding check_pvc
  reconcile_pvc ws = elim (srv.get_pvc req.namespace (pvc_name ws.spec.user.id)) [
    | ok pvc ↦ check_pvc ws pvc
    | fail err ↦
        if err.not_found
        then create_missing_pvc ws
        else report_error k cfg srv ws
            (summary_keeping creating ws (lit "Failed to read PersistentVolumeClaim: " ++ err.text)
              (error_details_for_pvc_get k err))
            (lit "get PVC") err
  ]

  unfoldable pub reconcile_network : Workspace → Outcome
  reconcile_network ws =
      let (actions, failure) = ensure_network_policies k cfg srv ws in
      after actions (elim failure [
        | none ↦ reconcile_pvc ws
        | some err ↦
            report_error k cfg srv ws
              (summary_keeping creating ws (lit "NetworkPolicy reconcile failed: " ++ err.text)
                (error_details_for_network_policy k err))
              (lit "ensure NetworkPolicies") err
      ])

  unfoldable pub reconcile_rbac : Workspace → Outcome
  reconcile_rbac ws =
      let (actions, failure) = ensure_rbac k cfg srv ws in
      after actions (elim failure [
        | none ↦ reconcile_network ws
        | some err ↦
            report_error k cfg srv ws
              (summary_keeping creating ws (lit "RBAC reconcile failed: " ++ err.text)
                (error_details_for_rbac k err))
              (lit "ensure RBAC") err
      ])

  add_finalizer : Workspace → Outcome
  unfolding with_finalizer
  add_finalizer ws =
      after (update_workspace (with_finalizer ws) ∷ []) (elim (srv.update (with_finalizer ws)) [
        | fail err ↦ return_error [] (wrap (lit "add finalizer") err)
        | ok ws' ↦ return_ok [] requeue
      ])

  unfoldable pub reconcile_delete : Workspace → Outcome
  reconcile_delete ws =
      after (update_workspace (remove_finalizer ws) ∷ []) (elim (srv.update (remove_finalizer ws)) [
        | fail err ↦ return_error [] (wrap (lit "remove finalizer") err)
        | ok ws' ↦ return_ok [] no_requeue
      ])

  -- A workspace that is valid: its finalizer, and whether it is stopped.
  unfoldable pub reconcile_valid : Workspace → Outcome
  unfolding add_finalizer
  reconcile_valid ws =
      if not (contains_finalizer ws)
      then add_finalizer ws
      else if phase_eq ws.status.phase stopped
      then return_ok [] no_requeue
      else reconcile_rbac ws

  -- A workspace as it was read.
  unfoldable pub reconcile_workspace : Workspace → Outcome
  unfolding invalid
  reconcile_workspace ws =
      if ws.deleting then reconcile_delete ws else elim (validate_spec k ws.spec) [
        | some err ↦ report k cfg srv ws (invalid err.text) no_requeue
        | none ↦ reconcile_valid ws
      ]

  -- `client.IgnoreNotFound(err)` after a failed read
  unfoldable pub reconcile : Outcome
  reconcile = elim (srv.get_workspace req) [
    | ok ws ↦ reconcile_workspace ws
    | fail err ↦ record { actions = []; result = no_requeue; error = ignore_not_found (some err) }
  ]
