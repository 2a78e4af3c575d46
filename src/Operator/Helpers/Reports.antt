-- ===== src/Operator/Helpers/Reports.antt =====
-- The actions of a status update: a patch, a metric and an event, and nothing else.
use dev_plane.Base.{
  Bool, true, false, Option, none, some, List, [], ◌∷◌, ◌++◌, ◌≡◌, refl, ap, inl, inr, ◌&&◌, not,
  arith, All,
}
use dev_plane.Base.Result.{Error, Result, ok, fail, Result-cases}
use dev_plane.Base.Text.{Text}
use dev_plane.Api.{Workspace, WorkspacePhase, phase_eq, failed}
use dev_plane.Platform.{Platform}
use dev_plane.Status.{StatusSummary, apply_status_summary}
use dev_plane.Operator.Env.{
  Config, ApiServer, Action, update_workspace, patch_status, create_pvc, create_pod, delete_pod,
  apply, count_patch_failure, count_transition, emit_event, log_transition, Requeue, Outcome,
  return_ok, return_error,
}
use dev_plane.Operator.Helpers.{
  transition_report, failure_event, transition_actions, update_status, report, report_error,
}

pub All-append {ℓ κ} :
    {A : Type ℓ} (P : A → Type κ) (xs ys : List A) → All P xs → All P ys → All P (xs ++ ys)
All-append P [] ys hx hy = hy
All-append P (x ∷ xs) ys hx hy = (hx.0, All-append P xs ys hx.1 hy)

-- The actions that change no object but the workspace's status.
abbrev pub IsReporting : Action → Type 0
IsReporting (patch_status ws) = Unit
IsReporting count_patch_failure = Unit
IsReporting (count_transition a b) = Unit
IsReporting (emit_event r m) = Unit
IsReporting (log_transition l) = Unit
IsReporting (update_workspace ws) = ⊥
IsReporting (create_pvc pvc) = ⊥
IsReporting (create_pod pod) = ⊥
IsReporting (delete_pod pod) = ⊥
IsReporting (apply o) = ⊥

-- Of these, the metrics and the events.
abbrev pub IsMeasure : Action → Type 0
IsMeasure count_patch_failure = Unit
IsMeasure (count_transition a b) = Unit
IsMeasure (emit_event r m) = Unit
IsMeasure (log_transition l) = Unit
IsMeasure (patch_status ws) = ⊥
IsMeasure (update_workspace ws) = ⊥
IsMeasure (create_pvc pvc) = ⊥
IsMeasure (create_pod pod) = ⊥
IsMeasure (delete_pod pod) = ⊥
IsMeasure (apply o) = ⊥

IsMeasure-IsReporting : (a : Action) → IsMeasure a → IsReporting a
IsMeasure-IsReporting count_patch_failure h = tt
IsMeasure-IsReporting (count_transition a b) h = tt
IsMeasure-IsReporting (emit_event r m) h = tt
IsMeasure-IsReporting (log_transition l) h = tt
IsMeasure-IsReporting (patch_status ws) h = tt
IsMeasure-IsReporting (update_workspace ws) h = h
IsMeasure-IsReporting (create_pvc pvc) h = h
IsMeasure-IsReporting (create_pod pod) h = h
IsMeasure-IsReporting (delete_pod pod) h = h
IsMeasure-IsReporting (apply o) h = h

module _ (k : Platform) (cfg : Config) (srv : ApiServer) where
  -- A report asks for nothing but the status update, whether or not that fails.
  pub report-actions :
      (ws : Workspace) (sum : StatusSummary) (r : Requeue)
      → (report k cfg srv ws sum r).actions ≡ (update_status k cfg srv ws sum).0
  unfolding report
  report-actions ws sum r = ground arith

  pub report_error-actions :
      (ws : Workspace) (sum : StatusSummary) (context : Text) (err : Error)
      → (report_error k cfg srv ws sum context err).actions ≡ (update_status k cfg srv ws sum).0
  unfolding report_error
  report_error-actions ws sum context err = ground arith

module _ (P : Action → Type 0) (measure : (a : Action) → IsMeasure a → P a) where
  transition_report-All :
      (same : Bool) (ws : Workspace) (old : WorkspacePhase) (sum : StatusSummary)
      → All P (transition_report same ws old sum)
  unfolding transition_report
  transition_report-All true ws old sum = tt
  transition_report-All false ws old sum = (measure _ tt, (measure _ tt, tt))

  failure_event-All :
      (fails : Bool) (reason message : Text) → All P (failure_event fails reason message)
  unfolding failure_event
  failure_event-All false reason message = tt
  failure_event-All true reason message = (measure _ tt, tt)

  transition_actions-All :
      (cfg : Config) (old : WorkspacePhase) (sum : StatusSummary) (ws : Workspace)
      → All P (transition_actions cfg old sum ws)
  unfolding transition_actions
  transition_actions-All cfg old sum ws =
      let same = phase_eq old sum.phase in
      All-append P (transition_report same ws old sum)
        (failure_event (cfg.recorder && phase_eq sum.phase failed && not same) sum.ready_reason
          ws.status.message)
        (transition_report-All same ws old sum)
        (failure_event-All _ sum.ready_reason ws.status.message)

module _ (P : Action → Type 0) (reporting : (a : Action) → IsReporting a → P a) (k : Platform)
    (cfg : Config) (srv : ApiServer) where
  update_status-All :
      (ws : Workspace) (sum : StatusSummary) → All P (update_status k cfg srv ws sum).0
  unfolding update_status
  update_status-All ws sum =
      elim (Result-cases (srv.patch_status (apply_status_summary k ws sum))) [
        | inl (ws', e) ↦
            rw (e, update_status)
              (
                reporting _ tt,
                transition_actions-All P (λ a m. reporting a (IsMeasure-IsReporting a m)) cfg
                    ws.status.phase sum ws',
              )
        | inr (err, e) ↦ rw (e, update_status) (reporting _ tt, (reporting _ tt, tt))
      ]

  pub report-All :
      (ws : Workspace) (sum : StatusSummary) (r : Requeue)
      → All P (report k cfg srv ws sum r).actions
  report-All ws sum r = rw (report-actions k cfg srv ws sum r) (update_status-All ws sum)

  pub report_error-All :
      (ws : Workspace) (sum : StatusSummary) (context : Text) (err : Error)
      → All P (report_error k cfg srv ws sum context err).actions
  report_error-All ws sum context err =
      rw (report_error-actions k cfg srv ws sum context err) (update_status-All ws sum)

module _ (k : Platform) (cfg : Config) (srv : ApiServer)
    (patches : (w : Workspace) → srv.patch_status w ≡ ok w) (ws : Workspace)
    (sum : StatusSummary) where
  update_accepted : update_status k cfg srv ws sum ≡ (
    patch_status (apply_status_summary k ws sum)
        ∷ transition_actions cfg ws.status.phase sum (apply_status_summary k ws sum),
    none,
  )
  unfolding update_status
  update_accepted = rw (patches (apply_status_summary k ws sum), update_status) refl

  -- A report is then the patch, with metrics and events after it.
  pub report_accepted :
      (r : Requeue)
      → (rest : List Action) × (report k cfg srv ws sum r
          ≡ return_ok (patch_status (apply_status_summary k ws sum) ∷ rest) r)
        × All IsMeasure rest
  unfolding report
  report_accepted r =
      let ws' = apply_status_summary k ws sum in
      (
        transition_actions cfg ws.status.phase sum ws',
        ap
            (λ (p : List Action × Option Error). elim p.1 [
              | none ↦ return_ok p.0 r
              | some err ↦ return_error p.0 err
            ])
            update_accepted,
        transition_actions-All IsMeasure (λ a m. m) cfg ws.status.phase sum ws',
      )

-- A call ends with the result if the patch was accepted, and with its error if not.
abbrev pub Concludes : Result Workspace → Requeue → Requeue → Option Error → Type 0
Concludes (ok w) expected result error = (result ≡ expected) × (error ≡ none)
Concludes (fail err) expected result error = error ≡ some err

module _ (k : Platform) (cfg : Config) (srv : ApiServer) (ws : Workspace)
    (sum : StatusSummary) where
  concluded : Requeue → List Action × Option Error → Outcome
  concluded r p = elim p.1 [ none ↦ return_ok p.0 r | some err ↦ return_error p.0 err ]

  report-concluded :
      (r : Requeue) → report k cfg srv ws sum r ≡ concluded r (update_status k cfg srv ws sum)
  unfolding report concluded
  report-concluded r = refl

  -- Whatever the server answers, a report is the patch, with metrics and events after it.
  pub report_patches :
      (r : Requeue) (answer : Result Workspace)
      → srv.patch_status (apply_status_summary k ws sum) ≡ answer
      → (rest : List Action) × ((report k cfg srv ws sum r).actions
          ≡ patch_status (apply_status_summary k ws sum) ∷ rest)
        × All IsMeasure rest
        × Concludes answer r (report k cfg srv ws sum r).result (report k cfg srv ws sum r).error
  unfolding update_status concluded
  report_patches r (ok w) e = rw (report-concluded r) (
      rw (e, update_status)
        (
          _,
          refl,
          transition_actions-All IsMeasure (λ a m. m) cfg ws.status.phase sum w,
          (refl, refl),
        ))
  report_patches r (fail err) e =
      rw (report-concluded r) (rw (e, update_status) (_, refl, (tt, tt), refl))
