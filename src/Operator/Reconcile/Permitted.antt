-- ===== src/Operator/Reconcile/Permitted.antt =====
-- What one call of Reconcile may ask the API server for, and under which conditions.
use dev_plane.Base.{
  ℕ, ◌+◌, ◌<◌, true, false, Option, none, some, ◌≡◌, refl, ◌⊎◌, inl, inr, arith, All, Bool-cases,
  Option-cases,
}
use dev_plane.Base.Int.{ℤ, pos, ltb_ℤ}
use dev_plane.Base.Result.{Error, Result, ok, fail, Result-cases}
use dev_plane.Api.{Workspace, stopped, phase_eq}
use dev_plane.Platform.{Pod, Pvc, PodPhase, phase_failed, phase_unknown, Platform}
use dev_plane.Resources.Names.{pod_name, pvc_name}
use dev_plane.Resources.Build.{build_pod, build_pvc}
use dev_plane.Resources.Validate.{validate_spec}
use dev_plane.Operator.Env.{
  Config, Request, ApiServer, Action, update_workspace, patch_status, create_pvc, create_pod,
  delete_pod, apply, count_patch_failure, count_transition, emit_event, log_transition, Requeue,
  Outcome,
}
use dev_plane.Operator.Helpers.{effective_idle_timeout, since, report}
use dev_plane.Status.{StatusSummary}
use dev_plane.Operator.Helpers.Reports.{IsReporting, report-All}
use dev_plane.Operator.PodStages.{
  contains_finalizer, with_finalizer, remove_finalizer, desired_image, build_opts, is_outdated,
  is_running_and_ready, ignore_not_found, seeded, reconcile_status, reconcile_waiting,
  reconcile_unready, reconcile_starting, first_stuck, stop_idle, check_idle, seed_and_check,
}

-- More than `d` nanoseconds have passed since the last access; a missing one lies back further.
abbrev pub IsOverdue : ℕ → Option ℕ → ℕ → Type 0
IsOverdue d none now = Unit
IsOverdue d (some t) now = t + d < now

since-IsOverdue :
    (d now : ℕ) (seen : Option ℕ) → ltb_ℤ (pos d) (since now seen) ≡ true → IsOverdue d seen now
unfolding since
since-IsOverdue d now none h = tt
since-IsOverdue d now (some t) h = ground arith

-- A read that found nothing.
abbrev pub IsMissing {ℓ} : {A : Type ℓ} → Result A → Type ℓ
IsMissing r = (err : Error) × (r ≡ fail err) × (err.not_found ≡ true)

module _ (k : Platform) (cfg : Config) (srv : ApiServer) (req : Request) where
  -- The workspace is not being deleted, its spec is valid, it has the finalizer and is not stopped.
  pub record IsActive (ws : Workspace) : Type 0 where
    pub kept : ws.deleting ≡ false
    pub valid : validate_spec k ws.spec ≡ none
    pub finalizer : contains_finalizer ws ≡ true
    pub live : phase_eq ws.status.phase stopped ≡ false

  -- The pod is running and ready, idle shutdown is on, and the workspace, as it was read or as the
  -- server returned it with a fresh lastAccessed, was not used for longer than the timeout.
  pub record IsIdle (ws : Workspace) (pod : Pod) : Type 0 where
    pub ready : is_running_and_ready pod ≡ true
    pub timeout : ℕ
    pub enabled : effective_idle_timeout k ws cfg.idle_timeout ≡ pos timeout
    pub on : 0 < timeout
    pub seen : Workspace
    pub source :
        (seen ≡ ws)
        ⊎ ((ws.status.last_accessed ≡ none)
            × (srv.patch_status (seeded srv.seed_time ws) ≡ ok seen))
    pub overdue : IsOverdue timeout seen.status.last_accessed srv.now

  abbrev pub Permitted : Workspace → Action → Type 0
  Permitted ws (patch_status w) = Unit
  Permitted ws count_patch_failure = Unit
  Permitted ws (count_transition a b) = Unit
  Permitted ws (emit_event r m) = Unit
  Permitted ws (log_transition l) = Unit
  Permitted ws (update_workspace w) =
      ((ws.deleting ≡ true) × (w ≡ remove_finalizer ws))
      ⊎ ((ws.deleting ≡ false)
          × (validate_spec k ws.spec ≡ none)
          × (contains_finalizer ws ≡ false)
          × (w ≡ with_finalizer ws))
  Permitted ws (apply o) = IsActive ws
  Permitted ws (create_pvc pvc) =
      IsActive ws
      × (build_pvc k ws ≡ ok pvc)
      × IsMissing (srv.get_pvc req.namespace (pvc_name ws.spec.user.id))
  Permitted ws (create_pod pod) =
      IsActive ws
      × (build_pod k ws (pvc_name ws.spec.user.id) (desired_image cfg) (build_opts cfg) ≡ ok pod)
      × IsMissing (srv.get_pod req.namespace (pod_name ws.spec.user.id))
      × ((pvc : Pvc) × (srv.get_pvc req.namespace (pvc_name ws.spec.user.id) ≡ ok pvc)
          × (pvc.lost ≡ false))
  Permitted ws (delete_pod pod) =
      IsActive ws
      × (srv.get_pod req.namespace (pod_name ws.spec.user.id) ≡ ok pod)
      × ((is_outdated cfg pod ≡ true) ⊎ IsIdle ws pod)

  -- A status update is permitted whatever the workspace.
  pub report_action-Permitted : (ws : Workspace) (a : Action) → IsReporting a → Permitted ws a
  report_action-Permitted ws (patch_status w) h = tt
  report_action-Permitted ws count_patch_failure h = tt
  report_action-Permitted ws (count_transition a b) h = tt
  report_action-Permitted ws (emit_event r m) h = tt
  report_action-Permitted ws (log_transition l) h = tt
  report_action-Permitted ws (update_workspace w) h = elim h [ ]
  report_action-Permitted ws (apply o) h = elim h [ ]
  report_action-Permitted ws (create_pvc p) h = elim h [ ]
  report_action-Permitted ws (create_pod p) h = elim h [ ]
  report_action-Permitted ws (delete_pod p) h = elim h [ ]

  abbrev pub AllPermitted : Workspace → Outcome → Type 0
  AllPermitted ws out = All (Permitted ws) out.actions

  module _ (ws : Workspace) where
    -- The workspace that a summary is written to may be another copy.
    pub report_permitted :
        (w : Workspace) (sum : StatusSummary) (r : Requeue)
        → AllPermitted ws (report k cfg srv w sum r)
    report_permitted w sum r =
        report-All (Permitted ws) (report_action-Permitted ws) k cfg srv w sum r

    waiting_permitted :
        (w : Workspace) (pod : Pod) → AllPermitted ws (reconcile_waiting k cfg srv req w pod)
    unfolding reconcile_waiting reconcile_starting
    waiting_permitted w pod = elim (Option-cases (first_stuck pod.status.container_statuses)) [
      | inl e ↦ rw (e, reconcile_waiting) (report_permitted _ _ _)
      | inr (c, e) ↦ rw (e, reconcile_waiting) (report_permitted _ _ _)
    ]

    unready_permitted :
        (phase : PodPhase) (w : Workspace) (pod : Pod)
        → AllPermitted ws (reconcile_unready k cfg srv req phase w pod)
    unfolding reconcile_unready
    unready_permitted phase_failed w pod = report_permitted _ _ _
    unready_permitted phase_unknown w pod = report_permitted _ _ _
    unready_permitted _ w pod = waiting_permitted w pod

    pub status_permitted :
        (w : Workspace) (pod : Pod) (idle : ℤ)
        → AllPermitted ws (reconcile_status k cfg srv req w pod idle)
    unfolding reconcile_status
    status_permitted w pod idle = elim (Bool-cases (is_running_and_ready pod)) [
      | inl e ↦ rw (e, reconcile_status) (report_permitted _ _ _)
      | inr e ↦ rw (e, reconcile_status) (unready_permitted pod.status.phase w pod)
    ]

  module _ (ws : Workspace) (active : IsActive ws) where
    stop-Permitted :
        (w : Workspace) (pod : Pod)
        → Permitted ws (delete_pod pod)
        → AllPermitted ws (stop_idle k cfg srv req w pod)
    unfolding stop_idle
    stop-Permitted w pod h = elim (Option-cases (ignore_not_found (srv.delete_pod pod))) [
      | inl e ↦ rw (e, stop_idle) (h, report_permitted ws _ _ _)
      | inr (err, e) ↦ rw (e, stop_idle) (h, tt)
    ]

    -- What is known of a pod when the idle check is reached.
    check_permitted :
        (w : Workspace) (pod : Pod) (timeout : ℕ)
        → srv.get_pod req.namespace (pod_name ws.spec.user.id) ≡ ok pod
        → is_running_and_ready pod ≡ true
        → effective_idle_timeout k ws cfg.idle_timeout ≡ pos timeout
        → 0 < timeout
        → (w ≡ ws)
          ⊎ ((ws.status.last_accessed ≡ none) × (srv.patch_status (seeded srv.seed_time ws) ≡ ok w))
        → AllPermitted ws (check_idle k cfg srv req w pod (pos timeout))
    unfolding check_idle
    check_permitted w pod d found ready enabled on source =
        elim (Bool-cases (ltb_ℤ (pos d) (since srv.now w.status.last_accessed))) [
          | inl e ↦
              rw (e, check_idle)
                (stop-Permitted w pod (
                  active,
                  found,
                  inr (record {
                    ready = ready;
                    timeout = d;
                    enabled = enabled;
                    on = on;
                    seen = w;
                    source = source;
                    overdue = since-IsOverdue d srv.now w.status.last_accessed e;
                  }),
                ))
          | inr e ↦ rw (e, check_idle) (status_permitted ws w pod (pos d))
        ]

    pub seed_permitted :
        (seen : Option ℕ) (pod : Pod) (timeout : ℕ)
        → ws.status.last_accessed ≡ seen
        → srv.get_pod req.namespace (pod_name ws.spec.user.id) ≡ ok pod
        → is_running_and_ready pod ≡ true
        → effective_idle_timeout k ws cfg.idle_timeout ≡ pos timeout
        → 0 < timeout
        → AllPermitted ws (seed_and_check k cfg srv req seen ws pod (pos timeout))
    unfolding seed_and_check
    seed_permitted (some t) pod d s found ready enabled on =
        check_permitted ws pod d found ready enabled on (inl refl)
    seed_permitted none pod d s found ready enabled on =
        elim (Result-cases (srv.patch_status (seeded srv.seed_time ws))) [
          | inl (w, e) ↦
              rw (e, seed_and_check)
                (tt, check_permitted w pod d found ready enabled on (inr (s, e)))
          | inr (err, e) ↦ rw (e, seed_and_check) (tt, tt)
        ]
