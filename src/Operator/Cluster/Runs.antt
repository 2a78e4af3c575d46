-- ===== src/Operator/Cluster/Runs.antt =====
-- A provided workspace whose pod becomes ready is reported as running.
use dev_plane.Base.{
  ℕ, ◌+◌, ◌≤◌, true, false, Option, none, some, [], ◌∷◌, ◌≡◌, refl, sym, subst, ap, ◌∙◌, ◌⊎◌, inl,
  inr, arith, ◌&&◌, Bool-cases, on_true, on_false,
}
use dev_plane.Base.Int.{ℤ, pos, ltb_ℤ}
use dev_plane.Base.Result.{ok}
use dev_plane.Base.Text.{Text}
use dev_plane.Api.{Workspace, running}
use dev_plane.Platform.{Pvc, Pod, Platform, IsOwning}
use dev_plane.Resources.Names.{pod_name}
use dev_plane.Status.{apply_status_summary}
use dev_plane.Operator.Env.{Config, Request, ApiServer, apply, Outcome, after}
use dev_plane.Operator.Helpers.{effective_idle_timeout}
use dev_plane.Operator.PodStages.{
  is_running_and_ready, seeded, desired_service, running_summary, requeue_for_idle,
  service_endpoint, reconcile_idle, reconcile_status, seed_and_check, check_idle,
}
use dev_plane.Operator.Reconcile.Idle.{fresh_test}
use dev_plane.Operator.Reconcile.Settles.{access_seeded}
use dev_plane.Operator.Cluster.{Cluster, perform_all, reconciled}
use dev_plane.Operator.Cluster.Effects.{
  Holds, patch-Holds, behind_quiet, secured_effect, report_effect,
}
use dev_plane.Operator.Cluster.Stages.{IsProvided}
use dev_plane.Operator.Cluster.Serving.{served_call}

-- Idle shutdown is off, or the last access, or the seeding of a missing one, is not longer ago
-- than the timeout.
pub record IsRecent (k : Platform) (cfg : Config) (srv : ApiServer) (ws : Workspace) (d t : ℕ)
    : Type 0 where
  pub enabled : effective_idle_timeout k ws cfg.idle_timeout ≡ pos d
  pub seen :
      (ws.status.last_accessed ≡ some t) ⊎ ((ws.status.last_accessed ≡ none) × (srv.seed_time ≡ t))
  pub recent : srv.now ≤ t + d

abbrev pub IsInUse : Platform → Config → ApiServer → Workspace → Type 0
IsInUse k cfg srv ws =
    (ltb_ℤ (pos 0) (effective_idle_timeout k ws cfg.idle_timeout) ≡ false)
    ⊎ ((d : ℕ) × (t : ℕ) × IsRecent k cfg srv ws d t)

module _ (c : Cluster) (k : Platform) (cfg : Config) (req : Request) where
  -- The workspace is Running, with the pod and the endpoint of the user, and the pod is there.
  pub record IsRunning (user : Text) (pod : Pod) (s : c.State) : Type 0 where
    pub ws : Workspace
    pub read : (c.server s).get_workspace req ≡ ok ws
    pub phase : ws.status.phase ≡ running
    pub named : ws.status.pod_name ≡ pod_name user
    pub endpoint : ws.status.service_endpoint ≡ service_endpoint user req.namespace
    pub found : (c.server s).get_pod req.namespace (pod_name user) ≡ ok pod

  module _ (s : c.State) (pvc : Pvc) (pod : Pod) (ready : is_running_and_ready pod ≡ true) where
    runs_status :
        (ws : Workspace) (idle : ℤ) (t : c.State)
        → Holds c req t ws (ok pvc) (ok pod)
        → IsRunning ws.spec.user.id pod
            (perform_all c (reconcile_status k cfg (c.server s) req ws pod idle).actions t)
    unfolding reconcile_status apply_status_summary running_summary
    runs_status ws idle t h =
        let sum = running_summary k cfg (c.server s) req ws in
        let g = report_effect c req k cfg s t ws sum (requeue_for_idle idle) h in
        on_true (λ (o : Outcome). IsRunning ws.spec.user.id pod (perform_all c o.actions t)) _ _
          ready
          (record {
            ws = apply_status_summary k ws sum;
            read = g.workspace;
            phase = refl;
            named = refl;
            endpoint = refl;
            found = g.pods;
          })

    runs_check :
        (ws : Workspace) (d time : ℕ) (t : c.State)
        → ws.status.last_accessed ≡ some time
        → (c.server s).now ≤ time + d
        → Holds c req t ws (ok pvc) (ok pod)
        → IsRunning ws.spec.user.id pod
            (perform_all c (check_idle k cfg (c.server s) req ws pod (pos d)).actions t)
    unfolding check_idle
    runs_check ws d time t e early h =
        on_false (λ (o : Outcome). IsRunning ws.spec.user.id pod (perform_all c o.actions t)) _ _
          (fresh_test d (c.server s).now time _ e early) (runs_status ws (pos d) t h)

    runs_seed :
        (seen : Option ℕ) (ws : Workspace) (d time : ℕ) (t : c.State)
        → seen ≡ ws.status.last_accessed
        → (seen ≡ some time) ⊎ ((seen ≡ none) × ((c.server s).seed_time ≡ time))
        → (c.server s).now ≤ time + d
        → Holds c req t ws (ok pvc) (ok pod)
        → IsRunning ws.spec.user.id pod
            (perform_all c (seed_and_check k cfg (c.server s) req seen ws pod (pos d)).actions t)
    unfolding seed_and_check seeded perform_all
    runs_seed (some u) ws d time t e (inl f) early h = runs_check ws d time t (sym e ∙ f) early h
    runs_seed (some u) ws d time t e (inr f) early h = cc
    runs_seed none ws d time t e (inl f) early h = cc
    runs_seed none ws d time t e (inr f) early h =
        let srv = c.server s in
        let w = seeded srv.seed_time ws in
        subst (λ (o : Outcome). IsRunning ws.spec.user.id pod (perform_all c o.actions t))
          (sym (access_seeded k cfg srv req ws pod (pos d) (c.patches s w)))
          (runs_check w d time _ (ap some f.1) early (patch-Holds c req w.status h))

    if_off :
        (idle : ℤ)
        → ltb_ℤ (pos 0) idle ≡ false
        → (is_running_and_ready pod && ltb_ℤ (pos 0) idle) ≡ false
    if_off idle off = ground arith

    if_on :
        (idle : ℤ)
        → ltb_ℤ (pos 0) idle ≡ true
        → (is_running_and_ready pod && ltb_ℤ (pos 0) idle) ≡ true
    if_on idle on = ground arith

    runs_idle :
        (ws : Workspace) (t : c.State)
        → IsInUse k cfg (c.server s) ws
        → Holds c req t ws (ok pvc) (ok pod)
        → IsRunning ws.spec.user.id pod
            (perform_all c (reconcile_idle k cfg (c.server s) req ws pod).actions t)
    unfolding reconcile_idle
    runs_idle ws t u h =
        let idle = effective_idle_timeout k ws cfg.idle_timeout in
        let P : Outcome → Type 0 = λ o. IsRunning ws.spec.user.id pod (perform_all c o.actions t) in
        elim (Bool-cases (ltb_ℤ (pos 0) idle)) [
          | inr off ↦ on_false P _ _ (if_off idle off) (runs_status ws idle t h)
          | inl on ↦ elim u [
            | inl off ↦ cc
            | inr (d, time, r) ↦ on_true P _ _ (if_on idle on) (
                rw r.enabled (runs_seed ws.status.last_accessed ws d time t refl r.seen r.recent h))
          ]
        ]

  -- A workspace with the finalizer, a claim and a pod of the configured image, valid and not
  -- stopped, in a cluster that accepts the writes. If the pod is running and ready, and the
  -- workspace is not idle for longer than its timeout, the next call of Reconcile leaves it in the
  -- phase Running, with the names of the user's pod and of the service, and with the pod in place.
  pub call-IsRunning :
      (s : c.State)
      → IsOwning k
      → (h : IsProvided c k cfg req s) → is_running_and_ready h.pod ≡ true
      → IsInUse k cfg (c.server s) h.ws
      → IsRunning h.ws.spec.user.id h.pod (reconciled c k cfg req s)
  call-IsRunning s owning h ready u =
      let srv = c.server s in
      let P = IsRunning h.ws.spec.user.id h.pod in
      let out = reconcile_idle k cfg srv req h.ws h.pod in
      subst (λ (o : Outcome). P (perform_all c o.actions s))
        (sym (served_call c k cfg req s owning h))
        (secured_effect c req k cfg srv h.ws (after (apply (desired_service h.ws) ∷ []) out) P s
          (λ t g.
            behind_quiet c req P (apply (desired_service h.ws) ∷ []) out.actions t (tt, tt)
              (λ v f. runs_idle s h.pvc h.pod ready h.ws v u f) g)
          h.holds)
