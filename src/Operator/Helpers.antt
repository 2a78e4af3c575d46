-- ===== src/Operator/Helpers.antt =====
-- updateStatus, effectiveIdleTimeout and isPodReady, and the ways in which Reconcile returns after
-- a status update.
pub mod Reports
use Prim.Native.Nat.{min}
use dev_plane.Base.{
  ℕ, ◌-◌, Bool, true, false, Option, none, some, List, [], ◌∷◌, ◌++◌, ◌&&◌, not, is_empty, ltb,
  if◌then◌else◌,
}
use dev_plane.Base.Int.{ℤ, pos, negsuc}
use dev_plane.Base.Text.{Text, lit, text_eq, trim_space}
use dev_plane.Base.Result.{Error, Result, ok, fail}
use dev_plane.Api.{WorkspacePhase, failed, phase_eq, phase_text, Workspace}
use dev_plane.Platform.{PodCondition, Pod, Platform}
use dev_plane.Diagnostics.{reason_failed, Details}
use dev_plane.Status.{StatusSummary, apply_status_summary}
use dev_plane.Observability.{phase_label, log_workspace_phase_transition}
use dev_plane.Operator.Env.{
  Config, ApiServer, Action, patch_status, count_patch_failure, log_transition, count_transition,
  emit_event, Requeue, Outcome, return_error, return_ok,
}

module _ (k : Platform) where
  -- effectiveIdleTimeout, in nanoseconds
  unfoldable pub effective_idle_timeout : Workspace → ℤ → ℤ
  effective_idle_timeout ws operator_default =
      let raw = trim_space ws.spec.lifecycle.idle_timeout in
      if is_empty raw
      then operator_default
      else if text_eq raw (lit "0")
      then pos 0
      else elim (k.parse_duration raw) [ ok d ↦ d | fail err ↦ operator_default ]

-- The first Ready condition decides.
ready_in : List PodCondition → Bool
ready_in [] = false
ready_in (c ∷ cs) =
    let rest = ready_in cs in if text_eq c.kind (lit "Ready") then c.status else rest

unfoldable pub is_pod_ready : Pod → Bool
unfolding ready_in
is_pod_ready pod = ready_in pod.status.conditions

abbrev pub max_duration : ℕ
max_duration = 9223372036854775807

-- time.Since, which stops at the ends of int64; the zero time lies further back than those.
unfoldable pub since : ℕ → Option ℕ → ℤ
since now none = pos max_duration
since now (some t) =
    if ltb now t then negsuc (min (t - now - 1) max_duration) else pos (min (now - t) max_duration)

-- The audit line and the metric of a phase that changed; the test is whether it stayed the same,
-- and the workspace is the server's copy.
transition_report : Bool → Workspace → WorkspacePhase → StatusSummary → List Action
transition_report true ws old sum = []
transition_report false ws old sum =
    log_transition (
      log_workspace_phase_transition ws old sum.phase sum.pod_name sum.service_endpoint
        ws.status.message)
    ∷ count_transition (phase_label (phase_text old)) (phase_label (phase_text sum.phase))
    ∷ []

-- The event of a failure, if there is to be one.
failure_event : Bool → Text → Text → List Action
failure_event false reason message = []
failure_event true reason message =
    emit_event (if is_empty reason then reason_failed else reason) message ∷ []

-- What follows a patch, for the phase before it and the server's copy.
transition_actions : Config → WorkspacePhase → StatusSummary → Workspace → List Action
unfolding transition_report failure_event
transition_actions cfg old sum ws =
    let same = phase_eq old sum.phase in
    transition_report same ws old sum
    ++ failure_event (cfg.recorder && phase_eq sum.phase failed && not same) sum.ready_reason
        ws.status.message

module _ (k : Platform) (cfg : Config) (srv : ApiServer) where
  -- updateStatus: the actions, and the error of the patch. The event has the patched message.
  unfoldable pub update_status : Workspace → StatusSummary → List Action × Option Error
  unfolding transition_actions
  update_status ws sum =
      let desired = apply_status_summary k ws sum in
      elim (srv.patch_status desired) [
        | fail err ↦ (patch_status desired ∷ count_patch_failure ∷ [], some err)
        | ok ws' ↦ (patch_status desired ∷ transition_actions cfg ws.status.phase sum ws', none)
      ]

  -- `if updateErr := r.updateStatus(...); updateErr != nil { return updateErr }; return result, nil`
  unfoldable pub report : Workspace → StatusSummary → Requeue → Outcome
  unfolding update_status
  report ws sum result =
      let (actions, failure) = update_status ws sum in
      elim failure [ none ↦ return_ok actions result | some err ↦ return_error actions err ]

  -- The same where an error is returned in any case; the context stands in front of both.
  unfoldable pub report_error : Workspace → StatusSummary → Text → Error → Outcome
  unfolding update_status
  report_error ws sum context err =
      let (actions, failure) = update_status ws sum in
      elim failure [
        | none ↦ return_error actions err
        | some update_err ↦ return_error actions (record err {
          text =
              context
              ++ (lit ": "
                  ++ (err.text ++ (lit " (status patch: " ++ (update_err.text ++ lit ")"))));
        })
      ]

-- A summary with a phase and nothing else.
abbrev pub summary : WorkspacePhase → StatusSummary
summary phase = record {
  phase = phase;
  pod_name = [];
  service_endpoint = [];
  message = [];
  message_override = [];
  remediation_hint = [];
  ready_reason = [];
}

-- A summary that keeps the pod and the endpoint of the status.
abbrev pub summary_keeping : WorkspacePhase → Workspace → Text → Details → StatusSummary
summary_keeping phase ws message details = record (summary phase) {
  pod_name = ws.status.pod_name;
  service_endpoint = ws.status.service_endpoint;
  message = message;
  remediation_hint = details.remediation;
  ready_reason = details.reason;
}

-- A failure: its message, hint and reason.
abbrev pub summary_failed : Text → Details → StatusSummary
summary_failed message details = record (summary failed) {
  message_override = message;
  remediation_hint = details.remediation;
  ready_reason = details.reason;
}
