-- ===== src/Operator/Reconcile/Settles.antt =====
-- What a call reports of a pod that is there, and that it stops only an idle one.
use dev_plane.Base.{
  false, none, [], ◌∷◌, ◌≡◌, refl, inl, inr, Bool-cases, Option-cases, on_true, on_false,
}
use dev_plane.Base.Int.{ℤ}
use dev_plane.Base.Result.{ok}
use dev_plane.Api.{Workspace, stopped, phase_eq}
use dev_plane.Platform.{
  Pod, PodPhase, phase_unset, phase_pending, phase_running, phase_succeeded, phase_failed,
  phase_unknown, phase_other, Platform,
}
use dev_plane.Status.{StatusSummary}
use dev_plane.Operator.Env.{
  Config, Request, ApiServer, patch_status, delete_pod, Requeue, no_requeue, Outcome, after,
}
use dev_plane.Operator.Helpers.{report}
use dev_plane.Operator.PodStages.{
  first_stuck, ignore_not_found, is_running_and_ready, seeded, stopped_summary, failed_pod_summary,
  running_summary, reconcile_starting, reconcile_waiting, reconcile_unready, reconcile_status,
  stop_idle, check_idle, seed_and_check,
}

module _ (k : Platform) (cfg : Config) (srv : ApiServer) (req : Request) (ws : Workspace)
    (pod : Pod) where
  -- A report of a phase other than Stopped, and nothing else.
  pub record Reports (out : Outcome) : Type 0 where
    pub sum : StatusSummary
    pub result : Requeue
    pub live : phase_eq sum.phase stopped ≡ false
    pub made : out ≡ report k cfg srv ws sum result

  waiting-Reports : Reports (reconcile_waiting k cfg srv req ws pod)
  unfolding reconcile_waiting reconcile_starting failed_pod_summary phase_eq
  waiting-Reports = elim (Option-cases (first_stuck pod.status.container_statuses)) [
    | inl e ↦ rw (e, reconcile_waiting) (record { sum = _; result = _; live = refl; made = refl })
    | inr (w, e) ↦
        rw (e, reconcile_waiting) (record { sum = _; result = _; live = refl; made = refl })
  ]

  unready-Reports : (phase : PodPhase) → Reports (reconcile_unready k cfg srv req phase ws pod)
  unfolding reconcile_unready failed_pod_summary phase_eq
  unready-Reports phase_failed = record { sum = _; result = _; live = refl; made = refl }
  unready-Reports phase_unknown = record { sum = _; result = _; live = refl; made = refl }
  unready-Reports phase_unset = waiting-Reports
  unready-Reports phase_pending = waiting-Reports
  unready-Reports phase_running = waiting-Reports
  unready-Reports phase_succeeded = waiting-Reports
  unready-Reports (phase_other s) = waiting-Reports

  pub status-Reports : (idle : ℤ) → Reports (reconcile_status k cfg srv req ws pod idle)
  unfolding reconcile_status running_summary phase_eq
  status-Reports idle = elim (Bool-cases (is_running_and_ready pod)) [
    | inl r ↦ on_true Reports _ _ r (record { sum = _; result = _; live = refl; made = refl })
    | inr r ↦ on_false Reports _ _ r (unready-Reports pod.status.phase)
  ]

  pub idle_stopped :
      ignore_not_found (srv.delete_pod pod) ≡ none
      → stop_idle k cfg srv req ws pod
        ≡ after
            (delete_pod pod ∷ [])
            (report k cfg srv ws (stopped_summary k cfg srv req) no_requeue)
  unfolding stop_idle
  idle_stopped gone = rw (gone, stop_idle) refl

  pub access_seeded :
      (idle : ℤ)
      → srv.patch_status (seeded srv.seed_time ws) ≡ ok (seeded srv.seed_time ws)
      → seed_and_check k cfg srv req none ws pod idle
        ≡ after
            (patch_status (seeded srv.seed_time ws) ∷ [])
            (check_idle k cfg srv req (seeded srv.seed_time ws) pod idle)
  unfolding seed_and_check
  access_seeded idle e = rw (e, seed_and_check) refl
