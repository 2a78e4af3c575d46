-- ===== src/Operator/Reconcile/Requests.antt =====
-- Every request of one call of Reconcile is permitted, stage by stage.
use dev_plane.Base.{
  ◌<◌, ℕ, Bool, true, false, none, ◌≡◌, refl, arith, inl, inr, All, Bool-cases, Option-cases,
  on_true, on_false,
}
use dev_plane.Base.Int.{ℤ, pos, negsuc, ltb_ℤ}
use dev_plane.Base.Text.{Text}
use dev_plane.Base.Result.{Error, ok, Result-cases}
use dev_plane.Api.{Workspace, stopped, phase_eq}
use dev_plane.Platform.{Pod, Pvc, Platform}
use dev_plane.Resources.Names.{pod_name, pvc_name}
use dev_plane.Resources.Build.{build_pod, build_pvc}
use dev_plane.Resources.Validate.{validate_spec}
use dev_plane.Operator.Env.{
  Config, Request, ApiServer, update_workspace, create_pod, create_pvc, delete_pod,
}
use dev_plane.Operator.Helpers.{effective_idle_timeout}
use dev_plane.Status.{StatusSummary}
use dev_plane.Operator.Helpers.Reports.{All-append, report_error-All}
use dev_plane.Operator.Ensure.{ensure_rbac, ensure_network_policies}
use dev_plane.Operator.Ensure.Applies.{ensure_rbac-All, ensure_network_policies-All}
use dev_plane.Operator.Helpers.{report_error}
use dev_plane.Operator.PodStages.{
  contains_finalizer, with_finalizer, remove_finalizer, desired_image, build_opts, is_outdated,
  is_running_and_ready, ignore_not_found, desired_service, reconcile_idle,
}
use dev_plane.Operator.Reconcile.{
  replace_pod, create_missing_pod, create_missing_pvc, check_pvc, reconcile_service, reconcile_pod,
  reconcile_pvc, reconcile_network, reconcile_rbac, reconcile_delete, add_finalizer,
  reconcile_valid, reconcile_workspace, reconcile,
}
use dev_plane.Operator.Reconcile.Permitted.{
  IsActive, Permitted, AllPermitted, report_action-Permitted, report_permitted, status_permitted,
  seed_permitted,
}

negsuc_not_positive : (n : ℕ) → ltb_ℤ (pos 0) (negsuc n) ≡ false
negsuc_not_positive n = ground arith

positive : (n : ℕ) → ltb_ℤ (pos 0) (pos n) ≡ true → 0 < n
positive n h = ground arith

module _ (k : Platform) (cfg : Config) (srv : ApiServer) (req : Request) (ws : Workspace) where
  pub report_error_permitted :
      (sum : StatusSummary) (context : Text) (err : Error)
      → AllPermitted k cfg srv req ws (report_error k cfg srv ws sum context err)
  report_error_permitted sum context err =
      report_error-All (Permitted k cfg srv req ws) (report_action-Permitted k cfg srv req ws) k cfg
        srv ws sum context err

module _ (k : Platform) (cfg : Config) (srv : ApiServer) (req : Request) (ws : Workspace)
    (active : IsActive k cfg srv req ws) where
  -- The idle check runs for a running and ready pod with a positive timeout.
  idle_permitted :
      (pod : Pod)
      → srv.get_pod req.namespace (pod_name ws.spec.user.id) ≡ ok pod
      → AllPermitted k cfg srv req ws (reconcile_idle k cfg srv req ws pod)
  unfolding reconcile_idle
  idle_permitted pod found =
      cases (effective_idle_timeout k ws cfg.idle_timeout) (is_running_and_ready pod) refl refl
    where
      cases :
          (idle : ℤ) (ready : Bool)
          → effective_idle_timeout k ws cfg.idle_timeout ≡ idle
          → is_running_and_ready pod ≡ ready
          → AllPermitted k cfg srv req ws (reconcile_idle k cfg srv req ws pod)
      cases idle false e r = rw (r, reconcile_idle) (status_permitted k cfg srv req ws ws pod _)
      cases (negsuc n) true e r =
          rw (r, e, reconcile_idle)
            (on_false (AllPermitted k cfg srv req ws) _ _ (negsuc_not_positive n)
              (status_permitted k cfg srv req ws ws pod (negsuc n)))
      cases (pos n) true e r =
          rw (r, e, reconcile_idle)
            (elim (Bool-cases (ltb_ℤ (pos 0) (pos n))) [
              | inl on ↦ on_true (AllPermitted k cfg srv req ws) _ _ on (
                  seed_permitted k cfg srv req ws active ws.status.last_accessed pod n refl found r
                    e (positive n on))
              | inr off ↦
                  on_false (AllPermitted k cfg srv req ws) _ _ off
                    (status_permitted k cfg srv req ws ws pod (pos n))
            ])

  pub service_permitted :
      (pod : Pod)
      → srv.get_pod req.namespace (pod_name ws.spec.user.id) ≡ ok pod
      → AllPermitted k cfg srv req ws (reconcile_service k cfg srv req ws pod)
  unfolding reconcile_service
  service_permitted pod found = elim (Option-cases (srv.create_or_update (desired_service ws))) [
    | inl e ↦ rw (e, reconcile_service) (active, idle_permitted pod found)
    | inr (err, e) ↦ rw (e, reconcile_service) (active, report_permitted k cfg srv req ws ws _ _)
  ]

  pub replace-Permitted :
      (pod : Pod)
      → Permitted k cfg srv req ws (delete_pod pod)
      → AllPermitted k cfg srv req ws (replace_pod k cfg srv req pod)
  unfolding replace_pod
  replace-Permitted pod h = elim (Option-cases (ignore_not_found (srv.delete_pod pod))) [
    | inl e ↦ rw (e, replace_pod) (h, tt)
    | inr (err, e) ↦ rw (e, replace_pod) (h, tt)
  ]

  create-Permitted :
      ((pod : Pod)
        → build_pod k ws (pvc_name ws.spec.user.id) (desired_image cfg) (build_opts cfg) ≡ ok pod
        → Permitted k cfg srv req ws (create_pod pod))
      → AllPermitted k cfg srv req ws (create_missing_pod k cfg srv req ws)
  unfolding create_missing_pod
  create-Permitted h =
      elim (Result-cases
        (build_pod k ws (pvc_name ws.spec.user.id) (desired_image cfg) (build_opts cfg))) [
          | inr (err, e) ↦ rw (e, create_missing_pod) (report_permitted k cfg srv req ws ws _ _)
          | inl (pod, e) ↦ elim (Option-cases (srv.create_pod pod)) [
            | inl c ↦ rw (e, create_missing_pod) (rw c (h pod e, tt))
            | inr (err, c) ↦
                rw (e, create_missing_pod)
                  (rw c (h pod e, report_permitted k cfg srv req ws ws _ _))
          ]
        ]

  pod_permitted :
      (pvc : Pvc)
      → srv.get_pvc req.namespace (pvc_name ws.spec.user.id) ≡ ok pvc
      → pvc.lost ≡ false
      → AllPermitted k cfg srv req ws (reconcile_pod k cfg srv req ws)
  unfolding reconcile_pod
  pod_permitted pvc claimed usable =
      elim (Result-cases (srv.get_pod req.namespace (pod_name ws.spec.user.id))) [
        | inl (pod, e) ↦ elim (Bool-cases (is_outdated cfg pod)) [
          | inl o ↦ rw (e, reconcile_pod) (rw o (replace-Permitted pod (active, e, inl o)))
          | inr o ↦ rw (e, reconcile_pod) (rw o (service_permitted pod e))
        ]
        | inr (err, e) ↦ elim (Bool-cases err.not_found) [
          | inl m ↦
              rw (e, reconcile_pod)
                (on_true (AllPermitted k cfg srv req ws) _ _ m (
                  create-Permitted
                    λ pod built. (active, built, (err, e, m), (pvc, claimed, usable))))
          | inr m ↦
              rw (e, reconcile_pod)
                (on_false (AllPermitted k cfg srv req ws) _ _ m
                  (report_error_permitted k cfg srv req ws _ _ _))
        ]
      ]

  pub claim-Permitted :
      ((pvc : Pvc) → build_pvc k ws ≡ ok pvc → Permitted k cfg srv req ws (create_pvc pvc))
      → AllPermitted k cfg srv req ws (create_missing_pvc k cfg srv req ws)
  unfolding create_missing_pvc
  claim-Permitted h = elim (Result-cases (build_pvc k ws)) [
    | inr (err, e) ↦ rw (e, create_missing_pvc) (report_permitted k cfg srv req ws ws _ _)
    | inl (pvc, e) ↦ elim (Option-cases (srv.create_pvc pvc)) [
      | inl c ↦
          rw (e, create_missing_pvc) (rw c (h pvc e, report_permitted k cfg srv req ws ws _ _))
      | inr (err, c) ↦
          rw (e, create_missing_pvc) (rw c (h pvc e, report_permitted k cfg srv req ws ws _ _))
    ]
  ]

  pvc_permitted : AllPermitted k cfg srv req ws (reconcile_pvc k cfg srv req ws)
  unfolding reconcile_pvc check_pvc
  pvc_permitted = elim (Result-cases (srv.get_pvc req.namespace (pvc_name ws.spec.user.id))) [
    | inl (pvc, e) ↦ elim (Bool-cases pvc.lost) [
      | inl l ↦
          rw (e, reconcile_pvc)
            (on_true (AllPermitted k cfg srv req ws) _ _ l
              (report_permitted k cfg srv req ws ws _ _))
      | inr l ↦
          rw (e, reconcile_pvc)
            (on_false (AllPermitted k cfg srv req ws) _ _ l (pod_permitted pvc e l))
    ]
    | inr (err, e) ↦ elim (Bool-cases err.not_found) [
      | inl m ↦
          rw (e, reconcile_pvc)
            (on_true (AllPermitted k cfg srv req ws) _ _ m
              (claim-Permitted λ pvc built. (active, built, (err, e, m))))
      | inr m ↦
          rw (e, reconcile_pvc)
            (on_false (AllPermitted k cfg srv req ws) _ _ m
              (report_error_permitted k cfg srv req ws _ _ _))
    ]
  ]

  network_permitted : AllPermitted k cfg srv req ws (reconcile_network k cfg srv req ws)
  unfolding reconcile_network
  network_permitted =
      All-append (Permitted k cfg srv req ws) (ensure_network_policies k cfg srv ws).0 _
        (ensure_network_policies-All (Permitted k cfg srv req ws) (λ o. active) k cfg srv ws)
        (elim (Option-cases (ensure_network_policies k cfg srv ws).1) [
          | inl e ↦ rw e pvc_permitted
          | inr (err, e) ↦ rw e (report_error_permitted k cfg srv req ws _ _ _)
        ])

  rbac_permitted : AllPermitted k cfg srv req ws (reconcile_rbac k cfg srv req ws)
  unfolding reconcile_rbac
  rbac_permitted =
      All-append (Permitted k cfg srv req ws) (ensure_rbac k cfg srv ws).0 _
        (ensure_rbac-All (Permitted k cfg srv req ws) (λ o. active) k cfg srv ws)
        (elim (Option-cases (ensure_rbac k cfg srv ws).1) [
          | inl e ↦ rw e network_permitted
          | inr (err, e) ↦ rw e (report_error_permitted k cfg srv req ws _ _ _)
        ])

module _ (k : Platform) (cfg : Config) (srv : ApiServer) (req : Request) (ws : Workspace) where
  delete_permitted :
      ws.deleting ≡ true → AllPermitted k cfg srv req ws (reconcile_delete k cfg srv req ws)
  unfolding reconcile_delete
  delete_permitted d = elim (Result-cases (srv.update (remove_finalizer ws))) [
    | inl (w, e) ↦ rw (e, reconcile_delete) (inl (d, refl), tt)
    | inr (err, e) ↦ rw (e, reconcile_delete) (inl (d, refl), tt)
  ]

  add-Permitted :
      Permitted k cfg srv req ws (update_workspace (with_finalizer ws))
      → AllPermitted k cfg srv req ws (add_finalizer k cfg srv req ws)
  unfolding add_finalizer
  add-Permitted h = elim (Result-cases (srv.update (with_finalizer ws))) [
    | inl (w, e) ↦ rw (e, add_finalizer) (h, tt)
    | inr (err, e) ↦ rw (e, add_finalizer) (h, tt)
  ]

  valid_permitted :
      ws.deleting ≡ false
      → validate_spec k ws.spec ≡ none
      → AllPermitted k cfg srv req ws (reconcile_valid k cfg srv req ws)
  unfolding reconcile_valid
  valid_permitted d v = elim (Bool-cases (contains_finalizer ws)) [
    | inr f ↦ rw (f, reconcile_valid) (add-Permitted (inr (d, v, f, refl)))
    | inl f ↦ elim (Bool-cases (phase_eq ws.status.phase stopped)) [
      | inl s ↦ rw (f, s, reconcile_valid) tt
      | inr s ↦
          rw (f, s, reconcile_valid)
            (rbac_permitted k cfg srv req ws
              (record { kept = d; valid = v; finalizer = f; live = s }))
    ]
  ]

  workspace_permitted : AllPermitted k cfg srv req ws (reconcile_workspace k cfg srv req ws)
  unfolding reconcile_workspace
  workspace_permitted = elim (Bool-cases ws.deleting) [
    | inl d ↦ on_true (AllPermitted k cfg srv req ws) _ _ d (delete_permitted d)
    | inr d ↦
        on_false (AllPermitted k cfg srv req ws) _ _ d
          (elim (Option-cases (validate_spec k ws.spec)) [
            | inl v ↦ rw v (valid_permitted d v)
            | inr (err, v) ↦ rw v (report_permitted k cfg srv req ws ws _ _)
          ])
  ]

-- Every change that one call of Reconcile asks for is permitted for the workspace that it read:
-- metadata is only changed to drop the finalizer of a workspace being deleted or to add a missing
-- one to a valid workspace; objects are applied, claims and pods created and pods deleted only
-- for a valid, finalized workspace that is neither being deleted nor stopped; a claim or a pod is
-- created only as it is built and where the read found none, a pod only with a claim that is not
-- lost; and a pod is deleted only if it was read and is outdated, or is running and ready, and idle
-- for longer than a timeout that is more than 0.
pub reconcile-Permitted :
    (k : Platform) (cfg : Config) (srv : ApiServer) (req : Request) (ws : Workspace)
    → srv.get_workspace req ≡ ok ws
    → All (Permitted k cfg srv req ws) (reconcile k cfg srv req).actions
unfolding reconcile
reconcile-Permitted k cfg srv req ws e = rw (e, reconcile) (workspace_permitted k cfg srv req ws)
