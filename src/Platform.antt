-- ===== src/Platform.antt =====
-- The code that the program calls and does not contain: Kubernetes object types, the helpers of
-- apimachinery and controller-runtime, and the parts of Go's standard library that go by large
-- tables or formats. Types hold the fields that the source writes or reads.
use dev_plane.Base.{ℕ, Bool, Option, none, some, List, ◌≡◌}
use dev_plane.Base.Int.{ℤ}
use dev_plane.Base.Text.{Text}
use dev_plane.Base.Result.{Error, Result, ok}
use dev_plane.Api.{Labels, AiProvider, Condition, Workspace}

-- metav1.ObjectMeta; `owner` names the controlling Workspace, where one is set.
pub record Meta : Type 0 where
  pub name : Text
  pub namespace : Text
  pub labels : Labels
  pub owner : Option Text

-- corev1.PersistentVolumeClaim; `lost` is whether its phase is ClaimLost.
pub record Pvc : Type 0 where
  pub meta : Meta
  pub access_modes : List Text
  pub storage : Text
  pub storage_class_name : Option Text
  pub lost : Bool

pub record EnvVar : Type 0 where
  pub name : Text
  pub value : Text

pub record VolumeMount : Type 0 where
  pub name : Text
  pub mount_path : Text
  pub read_only : Bool

pub data VolumeSource : Type 0 where
  claim : Text → VolumeSource
  empty_dir : VolumeSource
  config_map : Text → VolumeSource

pub record Volume : Type 0 where
  pub name : Text
  pub source : VolumeSource

pub data Protocol : Type 0 where
  tcp udp : Protocol

pub record NamedPort : Type 0 where
  pub name : Text
  pub port : ℕ
  pub protocol : Protocol

-- A TCP readiness probe.
pub record Probe : Type 0 where
  pub port : ℕ
  pub initial_delay_seconds : ℕ
  pub period_seconds : ℕ

pub record SecurityContext : Type 0 where
  pub read_only_root_filesystem : Bool
  pub allow_privilege_escalation : Bool
  pub drop : List Text

pub record Container : Type 0 where
  pub name : Text
  pub image : Text
  pub security : SecurityContext
  pub requests : Labels
  pub limits : Labels
  pub ports : List NamedPort
  pub readiness : Probe
  pub volume_mounts : List VolumeMount
  pub env : List EnvVar

pub record PodSecurityContext : Type 0 where
  pub run_as_non_root : Bool
  pub run_as_user : ℕ
  pub fs_group : ℕ
  pub fs_group_change_policy : Text
  pub seccomp : Text

pub record PodSpec : Type 0 where
  pub service_account : Text
  pub security : PodSecurityContext
  pub containers : List Container
  pub volumes : List Volume

-- corev1.PodPhase; `phase_other` is any text that is none of the constants.
pub data PodPhase : Type 0 where
  phase_unset phase_pending phase_running phase_succeeded phase_failed phase_unknown : PodPhase
  phase_other : Text → PodPhase

pub record PodCondition : Type 0 where
  pub kind : Text
  pub status : Bool

-- The state of a container that waits: its reason and message.
pub record Waiting : Type 0 where
  pub reason : Text
  pub message : Text

pub record PodStatus : Type 0 where
  pub phase : PodPhase
  pub reason : Text
  pub message : Text
  pub conditions : List PodCondition
  pub container_statuses : List (Option Waiting)

-- `deleting` is whether DeletionTimestamp is set.
pub record Pod : Type 0 where
  pub meta : Meta
  pub deleting : Bool
  pub spec : PodSpec
  pub status : PodStatus

pub record Service : Type 0 where
  pub meta : Meta
  pub headless : Bool
  pub selector : Labels
  pub ports : List NamedPort

-- The calls whose results do not depend on the cluster.
pub record Platform : Type 0 where
  -- resource.ParseQuantity: the error, if the text is no quantity
  pub parse_quantity : Text → Option Error
  -- time.ParseDuration, in nanoseconds
  pub parse_duration : Text → Result ℤ
  -- json.Marshal of the providers
  pub marshal_providers : List AiProvider → Text
  -- the %q verb
  pub quote : Text → Text
  -- strings.ToLower on text that is not all ASCII
  pub unicode_lower : Text → Text
  -- controllerutil.SetControllerReference(workspace, object, scheme)
  pub set_controller_reference : Workspace → Meta → Result Meta
  -- meta.SetStatusCondition
  pub set_status_condition : Condition → List Condition → List Condition

-- SetControllerReference, for an object that has no other controller.
abbrev pub IsOwning : Platform → Type 0
IsOwning k =
    (ws : Workspace) (m : Meta)
    → m.owner ≡ none
    → k.set_controller_reference ws m ≡ ok (record m { owner = some ws.name })
