-- ===== src/Status.antt =====
-- The status summary of one reconcile (pkg/workspace/status_summary.go).
pub mod Ready
use dev_plane.Base.{Bool, true, false, ◌&&◌, not, is_empty, if◌then◌else◌}
use dev_plane.Base.Text.{Text, lit}
use dev_plane.Api.{
  WorkspacePhase, unset, pending, creating, running, failed, stopped, other, phase_eq, Condition,
  Workspace,
}
use dev_plane.Platform.{Platform}
use dev_plane.Diagnostics.{reason_running, reason_progressing, reason_failed, reason_stopped}

pub record StatusSummary : Type 0 where
  pub phase : WorkspacePhase
  pub pod_name : Text
  pub service_endpoint : Text
  pub message : Text
  pub message_override : Text
  pub remediation_hint : Text
  pub ready_reason : Text

unfoldable pub default_ready_reason : WorkspacePhase → Text
default_ready_reason running = reason_running
default_ready_reason creating = reason_progressing
default_ready_reason failed = reason_failed
default_ready_reason stopped = reason_stopped
default_ready_reason unset = reason_progressing
default_ready_reason pending = reason_progressing
default_ready_reason (other s) = reason_progressing

-- The Ready condition that a summary asks for.
unfoldable pub ready_condition : Workspace → StatusSummary → Text → Condition
unfolding default_ready_reason
ready_condition ws sum message = record {
  kind = lit "Ready";
  status = phase_eq sum.phase running;
  observed_generation = ws.generation;
  reason = if is_empty sum.ready_reason then default_ready_reason sum.phase else sum.ready_reason;
  message =
      if is_empty message && phase_eq sum.phase running
      then lit "Workspace pod is ready."
      else message;
}

module _ (k : Platform) where
  unfoldable pub sync_ready_condition : Workspace → StatusSummary → Text → Workspace
  unfolding ready_condition
  sync_ready_condition ws sum message = record ws {
    status = record (ws.status) {
      conditions = k.set_status_condition (ready_condition ws sum message) ws.status.conditions;
    };
  }

  unfoldable pub apply_status_summary : Workspace → StatusSummary → Workspace
  unfolding sync_ready_condition
  apply_status_summary ws sum =
      let msg = if is_empty sum.message_override then sum.message else sum.message_override in
      sync_ready_condition
        (record ws {
          status = record (ws.status) {
            phase = sum.phase;
            pod_name = sum.pod_name;
            service_endpoint = sum.service_endpoint;
            message = msg;
            remediation_hint = sum.remediation_hint;
          };
        })
        sum msg
