-- ===== src/Operator/Reconcile/Idle.antt =====
-- What Reconcile does with a workspace whose objects are all in place and whose pod is ready.
use dev_plane.Base.{
  ℕ, ◌+◌, ◌<◌, ◌≤◌, ◌/◌, true, false, Option, none, some, [], ◌∷◌, ◌≡◌, refl, sym, subst, ap, ◌∙◌,
  arith, on_true, on_false,
}
use dev_plane.Base.Int.{ℤ, pos, ltb_ℤ}
use dev_plane.Base.Result.{ok}
use dev_plane.Base.Text.{lit}
use dev_plane.Api.{Workspace, running, stopped, phase_eq}
use dev_plane.Platform.{Pod, Pvc, Platform}
use dev_plane.Resources.Names.{pod_name, pvc_name}
use dev_plane.Operator.Env.{
  Config, Request, ApiServer, delete_pod, apply, no_requeue, requeue_after, Outcome, after,
}
use dev_plane.Operator.Helpers.{effective_idle_timeout, since, report, max_duration}
use dev_plane.Operator.Ensure.{ensure_rbac, ensure_network_policies}
use dev_plane.Operator.PodStages.{
  is_outdated, is_running_and_ready, ignore_not_found, desired_service, requeue_for_idle,
  service_endpoint, running_summary, stopped_summary, reconcile_idle, seed_and_check, check_idle,
  reconcile_status,
}
use dev_plane.Operator.Reconcile.{reconcile}
use dev_plane.Operator.Reconcile.Permitted.{IsActive}
use dev_plane.Operator.Reconcile.Creates.{found_claim, found_pod, service_applied}
use dev_plane.Operator.Reconcile.Settles.{idle_stopped}
use dev_plane.Operator.Reconcile.Reported.{IsReported, report-IsReported}
use dev_plane.Operator.Reconcile.Active.{secured, reconcile_active}

module _ (k : Platform) (cfg : Config) (srv : ApiServer) (req : Request) where
  -- The workspace is active, every object is in place or accepted, and the pod runs the image.
  pub record IsServed (ws : Workspace) (pod : Pod) : Type 0 where
    pub read : srv.get_workspace req ≡ ok ws
    pub active : IsActive k cfg srv req ws
    pub rbac : (ensure_rbac k cfg srv ws).1 ≡ none
    pub policies : (ensure_network_policies k cfg srv ws).1 ≡ none
    pub pvc : Pvc
    pub claimed : srv.get_pvc req.namespace (pvc_name ws.spec.user.id) ≡ ok pvc
    pub usable : pvc.lost ≡ false
    pub found : srv.get_pod req.namespace (pod_name ws.spec.user.id) ≡ ok pod
    pub current : is_outdated cfg pod ≡ false
    pub service : srv.create_or_update (desired_service ws) ≡ none

  -- An outcome behind the objects that such a call applies: RBAC, policies, Service.
  abbrev pub served : Workspace → Outcome → Outcome
  served ws out = secured k cfg srv req ws (after (apply (desired_service ws) ∷ []) out)

  module _ (ws : Workspace) (pod : Pod) (s : IsServed ws pod) where
    -- Such a call applies its objects and goes on to the idle check.
    pub reconcile-served : reconcile k cfg srv req ≡ served ws (reconcile_idle k cfg srv req ws pod)
    reconcile-served =
        reconcile_active k cfg srv req ws s.active s.read s.rbac s.policies
        ∙ ap (secured k cfg srv req ws) (
            found_claim k cfg srv req ws s.pvc s.claimed s.usable
            ∙ found_pod k cfg srv req ws pod s.found s.current
            ∙ service_applied k cfg srv req ws pod s.service)

-- The other side of the idle check, under the 292 years that a duration can hold.
overdue_test :
    (d now t : ℕ) (seen : Option ℕ)
    → seen ≡ some t
    → d < max_duration
    → t + d < now
    → ltb_ℤ (pos d) (since now seen) ≡ true
unfolding since
overdue_test d now t none e b h = cc
overdue_test d now t (some u) e b h = ground arith

pub fresh_test :
    (d now t : ℕ) (seen : Option ℕ)
    → seen ≡ some t
    → now ≤ t + d
    → ltb_ℤ (pos d) (since now seen) ≡ false
unfolding since
fresh_test d now t none e h = cc
fresh_test d now t (some u) e h = ground arith

positive_test : (d : ℕ) → 0 < d → ltb_ℤ (pos 0) (pos d) ≡ true
positive_test d h = ground arith

module _ (k : Platform) (cfg : Config) (srv : ApiServer) (req : Request) (ws : Workspace)
    (pod : Pod) where
  seed_skipped :
      (idle : ℤ) (seen : Option ℕ) {t : ℕ}
      → seen ≡ some t
      → seed_and_check k cfg srv req seen ws pod idle ≡ check_idle k cfg srv req ws pod idle
  unfolding seed_and_check
  seed_skipped idle none e = cc
  seed_skipped idle (some u) e = refl

  -- A ready pod, an idle timeout, and a last access: the idle check decides.
  pub record IsTimed (d t : ℕ) : Type 0 where
    pub ready : is_running_and_ready pod ≡ true
    pub enabled : effective_idle_timeout k ws cfg.idle_timeout ≡ pos d
    pub on : 0 < d
    pub seen : ws.status.last_accessed ≡ some t

  idle_checked :
      (d t : ℕ)
      → IsTimed d t
      → reconcile_idle k cfg srv req ws pod ≡ check_idle k cfg srv req ws pod (pos d)
  unfolding reconcile_idle
  idle_checked d t h =
      rw (h.ready, h.enabled, reconcile_idle)
        (on_true (λ out. out ≡ check_idle k cfg srv req ws pod (pos d)) _ _ (positive_test d h.on)
          (seed_skipped (pos d) ws.status.last_accessed h.seen))

  -- Past the timeout the pod is deleted and the workspace reported as stopped.
  pub reconcile_idle_overdue :
      (d t : ℕ)
      → IsTimed d t
      → d < max_duration
      → t + d < srv.now
      → ignore_not_found (srv.delete_pod pod) ≡ none
      → reconcile_idle k cfg srv req ws pod
        ≡ after
            (delete_pod pod ∷ [])
            (report k cfg srv ws (stopped_summary k cfg srv req) no_requeue)
  unfolding check_idle
  reconcile_idle_overdue d t h b late gone =
      let out =
        after (delete_pod pod ∷ [])
          (report k cfg srv ws (stopped_summary k cfg srv req) no_requeue) in
      idle_checked d t h
      ∙ on_true (λ o. o ≡ out) _ _ (overdue_test d srv.now t _ h.seen b late)
          (idle_stopped k cfg srv req ws pod gone)

  fresh_status :
      (d : ℕ)
      → is_running_and_ready pod ≡ true
      → 0 < d
      → reconcile_status k cfg srv req ws pod (pos d)
        ≡ report k cfg srv ws (running_summary k cfg srv req ws) (requeue_after (d / 4))
  unfolding reconcile_status requeue_for_idle
  fresh_status d r on = rw (r, positive_test d on, reconcile_status, requeue_for_idle) refl

  -- Before that it is reported as running, to be looked at again after a quarter of the timeout.
  pub reconcile_idle_fresh :
      (d t : ℕ)
      → IsTimed d t
      → srv.now ≤ t + d
      → reconcile_idle k cfg srv req ws pod
        ≡ report k cfg srv ws (running_summary k cfg srv req ws) (requeue_after (d / 4))
  unfolding check_idle
  reconcile_idle_fresh d t h early =
      let out = report k cfg srv ws (running_summary k cfg srv req ws) (requeue_after (d / 4)) in
      idle_checked d t h
      ∙ on_false (λ o. o ≡ out) _ _ (fresh_test d srv.now t _ h.seen early)
          (fresh_status d h.ready h.on)

-- A workspace in use: all its objects in place, its pod ready and its last access no longer ago
-- than the idle timeout. Reconcile applies the objects, makes no other change but one status patch,
-- which asks for the phase Running with the user's pod and endpoint, no message and Ready, and asks
-- to be called again after a quarter of the timeout, if the patch is accepted.
pub reconcile_keeps_fresh :
    (k : Platform) (cfg : Config) (srv : ApiServer) (req : Request) (ws : Workspace) (pod : Pod)
    (d t : ℕ)
    → IsServed k cfg srv req ws pod
    → IsTimed k cfg srv req ws pod d t
    → srv.now ≤ t + d
    → IsReported k cfg srv ws [] running
        (pod_name ws.spec.user.id)
        (service_endpoint ws.spec.user.id req.namespace)
        []
        true
        (requeue_after (d / 4))
        (reconcile k cfg srv req)
unfolding running_summary phase_eq
reconcile_keeps_fresh k cfg srv req ws pod d t s h early =
    subst
      (λ (out : Outcome).
        IsReported k cfg srv ws [] running (pod_name ws.spec.user.id)
          (service_endpoint ws.spec.user.id req.namespace) [] true (requeue_after (d / 4)) out)
      (sym (
        reconcile-served k cfg srv req ws pod s
        ∙ ap (served k cfg srv req ws) (reconcile_idle_fresh k cfg srv req ws pod d t h early)))
      (report-IsReported k cfg srv req ws [] (running_summary k cfg srv req ws) _ refl refl)

-- A workspace that is idle: all its objects in place, its pod ready and its last access longer ago
-- than the idle timeout, and the delete of the pod succeeds or finds no pod. Reconcile applies the
-- objects, deletes the pod, and then makes one status patch, which asks for the phase Stopped with
-- no pod and no endpoint, the message that it was stopped for inactivity, and not Ready; if that is
-- accepted, it does not ask to be called again. The phase that the status had before plays no
-- part, but that it was not Stopped.
pub reconcile_stops_idle :
    (k : Platform) (cfg : Config) (srv : ApiServer) (req : Request) (ws : Workspace) (pod : Pod)
    (d t : ℕ)
    → IsServed k cfg srv req ws pod
    → IsTimed k cfg srv req ws pod d t
    → d < max_duration
    → t + d < srv.now
    → ignore_not_found (srv.delete_pod pod) ≡ none
    → IsReported k cfg srv ws
        (delete_pod pod ∷ [])
        stopped
        []
        []
        (lit "Workspace stopped due to inactivity")
        false
        no_requeue
        (reconcile k cfg srv req)
unfolding stopped_summary phase_eq
reconcile_stops_idle k cfg srv req ws pod d t s h b late gone =
    subst
      (λ (out : Outcome).
        IsReported k cfg srv ws (delete_pod pod ∷ []) stopped [] []
          (lit "Workspace stopped due to inactivity") false no_requeue out)
      (sym (
        reconcile-served k cfg srv req ws pod s
        ∙ ap (served k cfg srv req ws)
            (reconcile_idle_overdue k cfg srv req ws pod d t h b late gone)))
      (report-IsReported k cfg srv req ws (delete_pod pod ∷ []) (stopped_summary k cfg srv req) _
        refl refl)
