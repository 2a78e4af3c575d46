-- ===== src/Observability.antt =====
-- The operator's metrics labels and its audit line for a change of phase (pkg/observability).
use dev_plane.Base.{List, [], ◌∷◌, is_empty, if◌then◌else◌}
use dev_plane.Base.Text.{Text, lit}
use dev_plane.Api.{WorkspacePhase, phase_text, Workspace}

-- PhaseLabel
unfoldable pub phase_label : Text → Text
phase_label p = if is_empty p then lit "None" else p

abbrev log_key_component : Text
log_key_component = lit "devplane.component"

abbrev log_key_event : Text
log_key_event = lit "devplane.event"

abbrev log_key_workspace : Text
log_key_workspace = lit "workspace"

abbrev log_key_namespace : Text
log_key_namespace = lit "namespace"

abbrev log_key_user_id : Text
log_key_user_id = lit "userId"

abbrev log_key_from_phase : Text
log_key_from_phase = lit "fromPhase"

abbrev log_key_to_phase : Text
log_key_to_phase = lit "toPhase"

abbrev log_key_audit_schema : Text
log_key_audit_schema = lit "devplane.audit.schema_version"

abbrev audit_schema_version : Text
audit_schema_version = lit "1"

abbrev component_workspace_controller : Text
component_workspace_controller = lit "workspace-controller"

abbrev event_phase_transition : Text
event_phase_transition = lit "devplane.audit.workspace.phase_transition"

-- A structured log line: its message, and its keys and values in their order.
pub record LogLine : Type 0 where
  pub message : Text
  pub fields : List (Text × Text)

-- LogWorkspacePhaseTransition, of a workspace that is not nil.
unfoldable pub log_workspace_phase_transition :
    Workspace → (from to : WorkspacePhase) → (pod_name service_endpoint message : Text) → LogLine
log_workspace_phase_transition ws from to pod_name service_endpoint message = record {
  message = lit "workspace phase transition";
  fields =
      (log_key_audit_schema, audit_schema_version)
      ∷ (log_key_component, component_workspace_controller)
      ∷ (log_key_event, event_phase_transition)
      ∷ (log_key_workspace, ws.name)
      ∷ (log_key_namespace, ws.namespace)
      ∷ (log_key_user_id, ws.spec.user.id)
      ∷ (log_key_from_phase, phase_text from)
      ∷ (log_key_to_phase, phase_text to)
      ∷ (lit "pod", pod_name)
      ∷ (lit "serviceEndpoint", service_endpoint)
      ∷ (lit "message", message)
      ∷ [];
}
