-- ===== src/Operator/Cluster/Serving.antt =====
-- Calls on a workspace whose pod is there, or that is stopped.
use dev_plane.Base.{
  arith, true, false, Option, none, some, [], ◌∷◌, ◌≡◌, refl, sym, subst, ap, ◌∙◌, ◌⊎◌, inl, inr,
  ◌&&◌, Bool-cases, on_true, on_false,
}
use dev_plane.Base.Int.{ℤ, pos, ltb_ℤ}
use dev_plane.Base.Result.{ok}
use dev_plane.Api.{Workspace, phase_eq}
use dev_plane.Platform.{Pvc, Pod, Platform, IsOwning}
use dev_plane.Status.{apply_status_summary}
use dev_plane.Operator.Env.{
  Config, Request, delete_pod, apply, no_requeue, Outcome, return_ok, after,
}
use dev_plane.Operator.Helpers.{effective_idle_timeout, since}
use dev_plane.Operator.PodStages.{
  contains_finalizer, is_outdated, is_running_and_ready, seeded, desired_service, stopped_summary,
  reconcile_idle, seed_and_check, check_idle, stop_idle,
}
use dev_plane.Operator.Reconcile.{reconcile_valid, reconcile_workspace, reconcile}
use dev_plane.Operator.Reconcile.Active.{secured}
use dev_plane.Operator.Reconcile.Creates.{found_claim, found_pod, service_applied}
use dev_plane.Operator.Reconcile.Settles.{Reports, status-Reports, idle_stopped, access_seeded}
use dev_plane.Operator.Cluster.{Cluster, perform_all, reconciled}
use dev_plane.Operator.Cluster.Effects.{
  Holds, patch-Holds, behind_quiet, secured_effect, report_effect,
}
use dev_plane.Operator.Cluster.Stages.{
  RunsImage, IsRun, IsWanted, IsProvided, IsStopped, active_call,
}

module _ (c : Cluster) (k : Platform) (cfg : Config) (req : Request) where
  -- What a call leaves of a workspace that was provided.
  abbrev pub IsSettled : c.State → Type 0
  IsSettled s = IsRun c k cfg req s ⊎ IsStopped c k cfg req s

  module _ (s : c.State) (pvc : Pvc) (pod : Pod) (usable : pvc.lost ≡ false)
      (current : is_outdated cfg pod ≡ false) where
    -- The facts about a workspace that stay as its status changes.
    record Lasts (ws : Workspace) : Type 0 where
      runs : RunsImage c k cfg req ws.spec.user.id pod
      wanted : IsWanted k req ws
      finalizer : contains_finalizer ws ≡ true

    report-IsSettled :
        (ws : Workspace) (out : Outcome) (t : c.State)
        → Reports k cfg (c.server s) req ws pod out
        → Lasts ws
        → Holds c req t ws (ok pvc) (ok pod)
        → IsSettled (perform_all c out.actions t)
    unfolding apply_status_summary contains_finalizer
    report-IsSettled ws out t r l h =
        subst (λ (o : Outcome). IsSettled (perform_all c o.actions t)) (sym r.made)
          (inl (record {
            runs = l.runs;
            provided = record {
              ws = apply_status_summary k ws r.sum;
              pvc = pvc;
              pod = pod;
              holds = report_effect c req k cfg s t ws r.sum r.result h;
              wanted = record {
                kept = l.wanted.kept;
                valid = l.wanted.valid;
                live = r.live;
                placed = l.wanted.placed;
              };
              finalizer = l.finalizer;
              usable = usable;
              current = current;
            };
          }))

    stop_idle-IsSettled :
        (ws : Workspace) (t : c.State)
        → ltb_ℤ (pos 0) (effective_idle_timeout k ws cfg.idle_timeout) ≡ true
        → Lasts ws
        → Holds c req t ws (ok pvc) (ok pod)
        → IsSettled (perform_all c (stop_idle k cfg (c.server s) req ws pod).actions t)
    unfolding apply_status_summary contains_finalizer perform_all stopped_summary phase_eq
        effective_idle_timeout
    stop_idle-IsSettled ws t on l h =
        let srv = c.server s in
        let u = c.perform (delete_pod pod) t in
        let gone =
          report_effect c req k cfg s u ws (stopped_summary k cfg srv req) no_requeue (record {
            workspace = c.workspace_kept (delete_pod pod) t _ tt ∙ h.workspace;
            claims = refl;
            pods = refl;
          }) in
        subst (λ (o : Outcome). IsSettled (perform_all c o.actions t))
          (sym (idle_stopped k cfg srv req ws pod (c.deletes s pod)))
          (inr (record {
            ws = apply_status_summary k ws (stopped_summary k cfg srv req);
            read = gone.workspace;
            kept = l.wanted.kept;
            valid = l.wanted.valid;
            finalizer = l.finalizer;
            ended = refl;
            enabled = on;
          }))

    check_idle-IsSettled :
        (ws : Workspace) (idle : ℤ) (t : c.State)
        → ltb_ℤ (pos 0) (effective_idle_timeout k ws cfg.idle_timeout) ≡ true
        → Lasts ws
        → Holds c req t ws (ok pvc) (ok pod)
        → IsSettled (perform_all c (check_idle k cfg (c.server s) req ws pod idle).actions t)
    unfolding check_idle
    check_idle-IsSettled ws idle t on l h =
        let P : Outcome → Type 0 = λ o. IsSettled (perform_all c o.actions t) in
        elim (Bool-cases (ltb_ℤ idle (since (c.server s).now ws.status.last_accessed))) [
          | inl e ↦ on_true P _ _ e (stop_idle-IsSettled ws t on l h)
          | inr e ↦
              on_false P _ _ e
                (report-IsSettled ws _ t (status-Reports k cfg (c.server s) req ws pod idle) l h)
        ]

    seed_and_check-IsSettled :
        (seen : Option _) (ws : Workspace) (idle : ℤ) (t : c.State)
        → ltb_ℤ (pos 0) (effective_idle_timeout k ws cfg.idle_timeout) ≡ true
        → Lasts ws
        → Holds c req t ws (ok pvc) (ok pod)
        → IsSettled
            (perform_all c (seed_and_check k cfg (c.server s) req seen ws pod idle).actions t)
    unfolding seed_and_check seeded contains_finalizer perform_all effective_idle_timeout
    seed_and_check-IsSettled (some time) ws idle t on l h = check_idle-IsSettled ws idle t on l h
    seed_and_check-IsSettled none ws idle t on l h =
        let srv = c.server s in
        let w = seeded srv.seed_time ws in
        subst (λ (o : Outcome). IsSettled (perform_all c o.actions t))
          (sym (access_seeded k cfg srv req ws pod idle (c.patches s w)))
          (check_idle-IsSettled w idle _ on
            (record {
              runs = l.runs;
              wanted = record {
                kept = l.wanted.kept;
                valid = l.wanted.valid;
                live = l.wanted.live;
                placed = l.wanted.placed;
              };
              finalizer = l.finalizer;
            })
            (patch-Holds c req w.status h))

    both_on :
        (idle : ℤ)
        → (is_running_and_ready pod && ltb_ℤ (pos 0) idle) ≡ true
        → ltb_ℤ (pos 0) idle ≡ true
    both_on idle e = ground arith

    reconcile_idle-IsSettled :
        (ws : Workspace) (t : c.State)
        → Lasts ws
        → Holds c req t ws (ok pvc) (ok pod)
        → IsSettled (perform_all c (reconcile_idle k cfg (c.server s) req ws pod).actions t)
    unfolding reconcile_idle
    reconcile_idle-IsSettled ws t l h =
        let srv = c.server s in
        let idle = effective_idle_timeout k ws cfg.idle_timeout in
        let P : Outcome → Type 0 = λ o. IsSettled (perform_all c o.actions t) in
        elim (Bool-cases (is_running_and_ready pod && ltb_ℤ (pos 0) idle)) [
          | inl e ↦
              on_true P _ _ e
                (seed_and_check-IsSettled ws.status.last_accessed ws idle t (both_on idle e) l h)
          | inr e ↦
              on_false P _ _ e
                (report-IsSettled ws _ t (status-Reports k cfg srv req ws pod idle) l h)
        ]

  -- A call on a workspace that is provided, up to the idle check.
  pub served_call :
      (s : c.State)
      → IsOwning k
      → (h : IsProvided c k cfg req s)
      → reconcile k cfg (c.server s) req
        ≡ secured k cfg (c.server s) req h.ws (
            after
              (apply (desired_service h.ws) ∷ [])
              (reconcile_idle k cfg (c.server s) req h.ws h.pod))
  served_call s owning h =
      let srv = c.server s in
      active_call c k cfg req owning h.holds h.wanted h.finalizer
      ∙ ap (secured k cfg srv req h.ws) (
          found_claim k cfg srv req h.ws h.pvc h.holds.claims h.usable
          ∙ found_pod k cfg srv req h.ws h.pod h.holds.pods h.current
          ∙ service_applied k cfg srv req h.ws h.pod (c.applies s _))

  -- It keeps the workspace provided, or stops it.
  pub serves :
      (s : c.State) → IsOwning k → IsRun c k cfg req s → IsSettled (reconciled c k cfg req s)
  serves s owning r =
      let h = r.provided in
      let srv = c.server s in
      let out = reconcile_idle k cfg srv req h.ws h.pod in
      subst (λ (o : Outcome). IsSettled (perform_all c o.actions s)) (sym (served_call s owning h))
        (secured_effect c req k cfg srv h.ws (after (apply (desired_service h.ws) ∷ []) out)
          IsSettled s
          (λ t g.
            behind_quiet c req IsSettled (apply (desired_service h.ws) ∷ []) out.actions t (tt, tt)
              (λ u f.
                reconcile_idle-IsSettled s h.pvc h.pod h.usable h.current h.ws u
                  (record { runs = r.runs; wanted = h.wanted; finalizer = h.finalizer }) f)
              g)
          h.holds)

  stopped_call :
      (s : c.State)
      → (h : IsStopped c k cfg req s) → reconcile k cfg (c.server s) req ≡ return_ok [] no_requeue
  unfolding reconcile reconcile_workspace reconcile_valid
  stopped_call s h =
      rw (h.read, reconcile)
        (on_false (λ out. out ≡ return_ok [] no_requeue) _ _ h.kept
          (rw h.valid (rw (h.finalizer, h.ended, reconcile_valid) refl)))

  -- A workspace that is stopped is left as it is.
  pub rests :
      (s : c.State) → IsStopped c k cfg req s → IsStopped c k cfg req (reconciled c k cfg req s)
  unfolding perform_all
  rests s h =
      subst (λ (o : Outcome). IsStopped c k cfg req (perform_all c o.actions s))
        (sym (stopped_call s h)) h
