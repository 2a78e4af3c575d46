-- ===== src/Diagnostics.antt =====
-- Remediation hints and Ready reasons (pkg/workspace/diagnostics.go).
use dev_plane.Base.{Option, none, some, ◌||◌, not, is_empty, if◌then◌else◌}
use dev_plane.Base.Text.{Text, lit, text_eq, contains, to_lower}
use dev_plane.Base.Result.{Error}
use dev_plane.Platform.{Platform}

abbrev pub remediation_rbac : Text
remediation_rbac =
    lit
      "Confirm the operator ServiceAccount has RBAC to manage ServiceAccounts, Roles, and RoleBindings in this namespace (see DevPlane operator ClusterRole/RoleBinding)."

abbrev pub remediation_net_pol : Text
remediation_net_pol =
    lit "Confirm the operator can create and update NetworkPolicies in this namespace."

abbrev pub remediation_pvc_get : Text
remediation_pvc_get =
    lit
      "Check API server connectivity. If errors mention timeout, investigate apiserver load and admission webhook latency."

abbrev pub remediation_pvc_create : Text
remediation_pvc_create =
    lit
      "Confirm the operator can create PersistentVolumeClaims in this namespace and that spec.persistence.storageClass exists."

abbrev pub remediation_pvc_lost : Text
remediation_pvc_lost =
    lit
      "PVC entered Lost — check storage backend, reclaim policy, and underlying volume health; you may need to delete the PVC and recreate the Workspace."

abbrev pub remediation_pod_get : Text
remediation_pod_get =
    lit "Check API server connectivity and that the operator can read Pods in this namespace."

abbrev pub remediation_pod_create : Text
remediation_pod_create =
    lit
      "Confirm the operator can create Pods. If an admission webhook is mentioned, review that webhook's logs and failurePolicy."

abbrev pub remediation_service : Text
remediation_service =
    lit
      "Confirm the operator can create Services and that the Workspace namespace allows ClusterIP=None headless services."

abbrev pub remediation_image_pull : Text
remediation_image_pull =
    lit
      "Verify WORKSPACE_IMAGE (or the image in the pod spec) exists, is pullable from nodes, and registry credentials are configured if the registry is private."

abbrev pub remediation_crash_loop : Text
remediation_crash_loop =
    lit
      "Inspect pod logs and previous container logs; fix startup command, config, or resource limits in the workspace image or Workspace spec."

abbrev pub remediation_pod_failed : Text
remediation_pod_failed =
    lit "Inspect pod status and logs; adjust resource limits or fix the workload."

abbrev pub remediation_pod_unknown : Text
remediation_pod_unknown =
    lit
      "Check node and kubelet health; Unknown often means the node is unreachable or the kubelet stopped reporting."

abbrev pub remediation_validation : Text
remediation_validation =
    lit "Fix the Workspace spec fields shown in status.message and re-apply the manifest."

abbrev pub remediation_forbidden : Text
remediation_forbidden =
    lit
      "Kubernetes returned Forbidden — grant the operator RBAC required for the resource in this namespace."

abbrev pub remediation_timeout : Text
remediation_timeout =
    lit "Request timed out — check apiserver connectivity, etcd health, and cluster load."

abbrev pub remediation_webhook : Text
remediation_webhook =
    lit
      "An admission webhook rejected or blocked the request — inspect validating/mutating webhook configuration and webhook pod logs."

abbrev pub remediation_api_error : Text
remediation_api_error = lit "See status.message for the Kubernetes API error details."

abbrev pub reason_running : Text
reason_running = lit "Running"

abbrev pub reason_progressing : Text
reason_progressing = lit "Progressing"

abbrev pub reason_stopped : Text
reason_stopped = lit "Stopped"

abbrev pub reason_failed : Text
reason_failed = lit "Failed"

abbrev pub reason_validation_failed : Text
reason_validation_failed = lit "ValidationFailed"

abbrev pub reason_rbac_reconcile_failed : Text
reason_rbac_reconcile_failed = lit "RBACReconcileFailed"

abbrev pub reason_net_pol_reconcile_failed : Text
reason_net_pol_reconcile_failed = lit "NetworkPolicyReconcileFailed"

abbrev pub reason_pvc_read_failed : Text
reason_pvc_read_failed = lit "PVCReadFailed"

abbrev pub reason_pvc_create_failed : Text
reason_pvc_create_failed = lit "PVCCreateFailed"

abbrev pub reason_pvc_lost : Text
reason_pvc_lost = lit "PVCLost"

abbrev pub reason_pod_read_failed : Text
reason_pod_read_failed = lit "PodReadFailed"

abbrev pub reason_pod_create_failed : Text
reason_pod_create_failed = lit "PodCreateFailed"

abbrev pub reason_service_failed : Text
reason_service_failed = lit "ServiceEnsureFailed"

abbrev pub reason_pod_failed : Text
reason_pod_failed = lit "PodFailed"

abbrev pub reason_pod_unknown : Text
reason_pod_unknown = lit "PodUnknown"

abbrev pub reason_image_pull_back_off : Text
reason_image_pull_back_off = lit "ImagePullBackOff"

abbrev pub reason_err_image_pull : Text
reason_err_image_pull = lit "ErrImagePull"

abbrev pub reason_invalid_image_name : Text
reason_invalid_image_name = lit "InvalidImageName"

abbrev pub reason_crash_loop_back_off : Text
reason_crash_loop_back_off = lit "CrashLoopBackOff"

abbrev pub reason_forbidden : Text
reason_forbidden = lit "Forbidden"

abbrev pub reason_timeout : Text
reason_timeout = lit "Timeout"

abbrev pub reason_admission_webhook : Text
reason_admission_webhook = lit "AdmissionWebhook"

abbrev pub reason_api_error : Text
reason_api_error = lit "APIError"

-- What a classification answers: the remediation hint, and the Ready reason.
pub record Details : Type 0 where
  pub remediation : Text
  pub reason : Text

-- What the source's `r != ReasonAPIError` tests, with the specific default on the other side.
prefer : Details → Text → Text → Details
prefer d remediation reason =
    if not (text_eq d.reason reason_api_error)
    then d
    else record { remediation = remediation; reason = reason }

module _ (k : Platform) where
  unfoldable pub classify_api_error : Option Error → Details
  classify_api_error none = record { remediation = lit ""; reason = reason_api_error }
  classify_api_error (some err) =
      if err.forbidden
      then record { remediation = remediation_forbidden; reason = reason_forbidden }
      else if err.timeout || err.deadline
      then record { remediation = remediation_timeout; reason = reason_timeout }
      else if err.unavailable
      then record { remediation = remediation_timeout; reason = reason_timeout }
      else let msg = to_lower k.unicode_lower err.text in
        if contains (lit "webhook") msg || contains (lit "admission") msg
        then record { remediation = remediation_webhook; reason = reason_admission_webhook }
        else record { remediation = remediation_api_error; reason = reason_api_error }

  unfoldable pub error_details_for_service : Error → Details
  unfolding prefer
  error_details_for_service err =
      prefer (classify_api_error (some err)) remediation_service reason_service_failed

  unfoldable pub error_details_for_rbac : Error → Details
  unfolding prefer
  error_details_for_rbac err =
      prefer (classify_api_error (some err)) remediation_rbac reason_rbac_reconcile_failed

  unfoldable pub error_details_for_network_policy : Error → Details
  unfolding prefer
  error_details_for_network_policy err =
      prefer (classify_api_error (some err)) remediation_net_pol reason_net_pol_reconcile_failed

  unfoldable pub error_details_for_pvc_get : Error → Details
  unfolding prefer
  error_details_for_pvc_get err =
      prefer (classify_api_error (some err)) remediation_pvc_get reason_pvc_read_failed

  unfoldable pub error_details_for_pvc_create : Error → Details
  unfolding prefer
  error_details_for_pvc_create err =
      prefer (classify_api_error (some err)) remediation_pvc_create reason_pvc_create_failed

  unfoldable pub error_details_for_pod_get : Error → Details
  unfolding prefer
  error_details_for_pod_get err =
      prefer (classify_api_error (some err)) remediation_pod_get reason_pod_read_failed

  unfoldable pub error_details_for_pod_create : Error → Details
  unfolding prefer
  error_details_for_pod_create err =
      prefer (classify_api_error (some err)) remediation_pod_create reason_pod_create_failed

unfoldable pub remediation_for_pod_waiting_reason : Text → Details
remediation_for_pod_waiting_reason waiting =
    if text_eq waiting (lit "ImagePullBackOff")
    then record { remediation = remediation_image_pull; reason = reason_image_pull_back_off }
    else if text_eq waiting (lit "ErrImagePull")
    then record { remediation = remediation_image_pull; reason = reason_err_image_pull }
    else if text_eq waiting (lit "InvalidImageName")
    then record { remediation = remediation_image_pull; reason = reason_invalid_image_name }
    else if text_eq waiting (lit "CrashLoopBackOff")
    then record { remediation = remediation_crash_loop; reason = reason_crash_loop_back_off }
    else if not (is_empty waiting)
    then record { remediation = remediation_pod_failed; reason = waiting }
    else record { remediation = remediation_pod_failed; reason = reason_failed }
