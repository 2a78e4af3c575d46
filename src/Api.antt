-- ===== src/Api.antt =====
-- The Workspace resource (api/v1alpha1/workspace_types.go). JSON tags and the type metadata are
-- left out; of the object metadata, the fields that the operator and the gateway read or write.
use dev_plane.Base.{ℕ, Bool, true, false, Option, List}
use dev_plane.Base.Int.{ℤ}
use dev_plane.Base.Text.{Text, lit, text_eq}

-- Go's map[string]string, as its entries.
abbrev pub Labels : Type 0
Labels = List (Text × Text)

pub record UserInfo : Type 0 where
  pub id : Text
  pub email : Text

-- Quantities are kept as the texts that they are parsed from.
pub record ResourceRequirements : Type 0 where
  pub cpu : Text
  pub memory : Text
  pub storage : Text

pub record AiProvider : Type 0 where
  pub name : Text
  pub endpoint : Text
  pub models : List Text

pub record AiConfiguration : Type 0 where
  pub providers : List AiProvider
  pub egress_namespaces : List Text
  pub egress_ports : List ℤ  -- int32

pub record CaBundleRef : Type 0 where
  pub name : Text

pub record TlsConfig : Type 0 where
  pub custom_ca_bundle : Option CaBundleRef

pub record PersistenceConfig : Type 0 where
  pub storage_class : Text

pub record WorkspaceLifecycleSpec : Type 0 where
  pub idle_timeout : Text

pub record WorkspaceSpec : Type 0 where
  pub user : UserInfo
  pub resources : ResourceRequirements
  pub ai_config : AiConfiguration
  pub persistence : PersistenceConfig
  pub tls : TlsConfig
  pub lifecycle : WorkspaceLifecycleSpec

-- `unset` is the empty text; `other` is any text that is none of the constants.
pub data WorkspacePhase : Type 0 where
  unset pending creating running failed stopped : WorkspacePhase
  other : Text → WorkspacePhase

-- `a == b` of two phases
unfoldable pub phase_eq : WorkspacePhase → WorkspacePhase → Bool
phase_eq unset unset = true
phase_eq pending pending = true
phase_eq creating creating = true
phase_eq running running = true
phase_eq failed failed = true
phase_eq stopped stopped = true
phase_eq (other s) (other t) = text_eq s t
phase_eq _ _ = false

-- `string(phase)`
unfoldable pub phase_text : WorkspacePhase → Text
phase_text unset = lit ""
phase_text pending = lit "Pending"
phase_text creating = lit "Creating"
phase_text running = lit "Running"
phase_text failed = lit "Failed"
phase_text stopped = lit "Stopped"
phase_text (other s) = s

-- metav1.Condition; `status` is whether it is ConditionTrue. The transition time is the API
-- helper's.
pub record Condition : Type 0 where
  pub kind : Text
  pub status : Bool
  pub observed_generation : ℕ
  pub reason : Text
  pub message : Text

-- `last_accessed` is in nanoseconds since the epoch; `none` is the zero time.
pub record WorkspaceStatus : Type 0 where
  pub phase : WorkspacePhase
  pub pod_name : Text
  pub service_endpoint : Text
  pub message : Text
  pub remediation_hint : Text
  pub conditions : List Condition
  pub last_accessed : Option ℕ

-- `deleting` is whether DeletionTimestamp is set.
pub record Workspace : Type 0 where
  pub name : Text
  pub namespace : Text
  pub labels : Labels
  pub generation : ℕ
  pub deleting : Bool
  pub finalizers : List Text
  pub spec : WorkspaceSpec
  pub status : WorkspaceStatus
