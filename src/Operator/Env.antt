-- ===== src/Operator/Env.antt =====
-- The state of a reconciler and the surroundings of one call of Reconcile: its configuration, the
-- answers of the API server, and the requests that it makes, in their order.
use dev_plane.Base.{ℕ, Bool, Option, none, some, List, ◌++◌}
use dev_plane.Base.Int.{ℤ}
use dev_plane.Base.Text.{Text}
use dev_plane.Base.Result.{Error, Result}
use dev_plane.Api.{Workspace}
use dev_plane.Observability.{LogLine}
use dev_plane.Platform.{Meta, Pvc, Pod, Service}
use dev_plane.Security.Policy.{NetworkPolicy}
use dev_plane.Security.Rbac.{Role, RoleBinding}

-- WorkspaceReconciler without its client, scheme and logger; `recorder` is whether there is one.
pub record Config : Type 0 where
  pub workspace_image : Text
  pub llm_namespaces : List Text
  pub egress_ports : List ℤ
  pub idle_timeout : ℤ
  pub gateway_namespace : Text
  pub default_ca_bundle : Text
  pub pip_index_url : Text
  pub pip_trusted_host : Text
  pub npm_registry : Text
  pub recorder : Bool

-- ctrl.Request: the key of the workspace.
pub record Request : Type 0 where
  pub namespace : Text
  pub name : Text

-- An object that CreateOrUpdate is given, as the closure fills it in. The closure also makes the
-- workspace its owner; an error there is one of the errors of the call.
pub data Object : Type 0 where
  service_account : Meta → Object
  role : Role → Object
  role_binding : RoleBinding → Object
  network_policy : NetworkPolicy → Object
  service : Service → Object

-- What the API server answers during one call, whatever the cluster's state is, and the readings
-- of the clock, in nanoseconds. Update and Patch decode the server's copy into the object.
pub record ApiServer : Type 0 where
  pub get_workspace : Request → Result Workspace
  pub update : Workspace → Result Workspace
  pub patch_status : Workspace → Result Workspace
  pub get_pvc : (namespace name : Text) → Result Pvc
  pub create_pvc : Pvc → Option Error
  pub get_pod : (namespace name : Text) → Result Pod
  pub create_pod : Pod → Option Error
  pub delete_pod : Pod → Option Error
  pub create_or_update : Object → Option Error
  pub seed_time : ℕ
  pub now : ℕ

-- A request that changes the cluster, a metric, an event, or the audit line of a change of phase.
-- Reads and the other log lines are left out.
pub data Action : Type 0 where
  update_workspace : Workspace → Action
  patch_status : Workspace → Action
  create_pvc : Pvc → Action
  create_pod : Pod → Action
  delete_pod : Pod → Action
  apply : Object → Action
  count_patch_failure : Action
  log_transition : LogLine → Action
  count_transition : (from to : Text) → Action
  emit_event : (reason message : Text) → Action

-- ctrl.Result; the delay is in nanoseconds.
pub data Requeue : Type 0 where
  no_requeue : Requeue
  requeue : Requeue
  requeue_after : ℕ → Requeue

-- A call of Reconcile: what it asked for, and what it returned.
pub record Outcome : Type 0 where
  pub actions : List Action
  pub result : Requeue
  pub error : Option Error

-- `return ctrl.Result{}, err`
abbrev pub return_error : List Action → Error → Outcome
return_error actions err = record { actions = actions; result = no_requeue; error = some err }

-- `return result, nil`
abbrev pub return_ok : List Action → Requeue → Outcome
return_ok actions result = record { actions = actions; result = result; error = none }

-- Actions that were asked for before.
abbrev pub after : List Action → Outcome → Outcome
after actions out = record out { actions = actions ++ out.actions }
