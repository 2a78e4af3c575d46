-- ===== src/Operator/Reconcile/Creates.antt =====
-- How Reconcile goes on from what it reads: it adds the finalizer, the claim and the pod, and comes
-- to the idle check.
use dev_plane.Base.{false, none, [], ◌∷◌, ◌≡◌, refl, on_true, on_false}
use dev_plane.Base.Text.{lit}
use dev_plane.Base.Result.{ok}
use dev_plane.Api.{Workspace, creating}
use dev_plane.Platform.{Pvc, Pod, Platform}
use dev_plane.Resources.Names.{pvc_name, pod_name}
use dev_plane.Resources.Build.{build_pvc, build_pod}
use dev_plane.Resources.Validate.{validate_spec}
use dev_plane.Diagnostics.{reason_progressing}
use dev_plane.Status.{StatusSummary}
use dev_plane.Operator.Env.{
  Config, Request, ApiServer, update_workspace, create_pvc, create_pod, apply, requeue,
  requeue_after, return_ok, after,
}
use dev_plane.Operator.Helpers.{report, summary_keeping}
use dev_plane.Operator.PodStages.{
  contains_finalizer, with_finalizer, desired_image, build_opts, two_seconds, is_outdated,
  desired_service, reconcile_idle,
}
use dev_plane.Operator.Reconcile.{
  create_missing_pvc, create_missing_pod, check_pvc, reconcile_pvc, reconcile_pod,
  reconcile_service, add_finalizer, reconcile_valid, reconcile_workspace, reconcile,
}
use dev_plane.Operator.Reconcile.Permitted.{IsMissing}

module _ (k : Platform) (cfg : Config) (srv : ApiServer) (req : Request) (ws : Workspace) where
  pub finalizer_added :
      srv.get_workspace req ≡ ok ws
      → ws.deleting ≡ false
      → validate_spec k ws.spec ≡ none
      → contains_finalizer ws ≡ false
      → srv.update (with_finalizer ws) ≡ ok (with_finalizer ws)
      → reconcile k cfg srv req ≡ return_ok (update_workspace (with_finalizer ws) ∷ []) requeue
  unfolding reconcile reconcile_workspace reconcile_valid add_finalizer
  finalizer_added e d v f u =
      rw (e, reconcile)
        (on_false (λ out. out ≡ return_ok (update_workspace (with_finalizer ws) ∷ []) requeue) _ _ d
          (rw v (rw (f, reconcile_valid) (rw (u, add_finalizer) refl))))

  pub missing_claim :
      IsMissing (srv.get_pvc req.namespace (pvc_name ws.spec.user.id))
      → reconcile_pvc k cfg srv req ws ≡ create_missing_pvc k cfg srv req ws
  unfolding reconcile_pvc
  missing_claim (err, e, m) =
      rw (e, reconcile_pvc) (on_true (λ out. out ≡ create_missing_pvc k cfg srv req ws) _ _ m refl)

  -- The status after the claim was created.
  abbrev pub claim_summary : StatusSummary
  claim_summary =
      summary_keeping creating ws (lit "PersistentVolumeClaim created; waiting for volume to bind")
        (record { remediation = []; reason = reason_progressing })

  pub claim_created :
      (pvc : Pvc)
      → build_pvc k ws ≡ ok pvc
      → srv.create_pvc pvc ≡ none
      → create_missing_pvc k cfg srv req ws
        ≡ after
            (create_pvc pvc ∷ [])
            (report k cfg srv ws claim_summary (requeue_after two_seconds))
  unfolding create_missing_pvc
  claim_created pvc b a = rw (b, create_missing_pvc) (rw a refl)

  pub found_claim :
      (pvc : Pvc)
      → srv.get_pvc req.namespace (pvc_name ws.spec.user.id) ≡ ok pvc
      → pvc.lost ≡ false
      → reconcile_pvc k cfg srv req ws ≡ reconcile_pod k cfg srv req ws
  unfolding reconcile_pvc check_pvc
  found_claim pvc e l =
      rw (e, reconcile_pvc) (on_false (λ out. out ≡ reconcile_pod k cfg srv req ws) _ _ l refl)

  pub missing_pod :
      IsMissing (srv.get_pod req.namespace (pod_name ws.spec.user.id))
      → reconcile_pod k cfg srv req ws ≡ create_missing_pod k cfg srv req ws
  unfolding reconcile_pod
  missing_pod (err, e, m) =
      rw (e, reconcile_pod) (on_true (λ out. out ≡ create_missing_pod k cfg srv req ws) _ _ m refl)

  pub pod_created :
      (pod : Pod)
      → build_pod k ws (pvc_name ws.spec.user.id) (desired_image cfg) (build_opts cfg) ≡ ok pod
      → srv.create_pod pod ≡ none
      → create_missing_pod k cfg srv req ws
        ≡ return_ok (create_pod pod ∷ []) (requeue_after two_seconds)
  unfolding create_missing_pod
  pod_created pod b a = rw (b, create_missing_pod) (rw a refl)

  pub found_pod :
      (pod : Pod)
      → srv.get_pod req.namespace (pod_name ws.spec.user.id) ≡ ok pod
      → is_outdated cfg pod ≡ false
      → reconcile_pod k cfg srv req ws ≡ reconcile_service k cfg srv req ws pod
  unfolding reconcile_pod
  found_pod pod e o =
      rw (e, reconcile_pod)
        (on_false (λ out. out ≡ reconcile_service k cfg srv req ws pod) _ _ o refl)

  pub service_applied :
      (pod : Pod)
      → srv.create_or_update (desired_service ws) ≡ none
      → reconcile_service k cfg srv req ws pod
        ≡ after (apply (desired_service ws) ∷ []) (reconcile_idle k cfg srv req ws pod)
  unfolding reconcile_service
  service_applied pod a = rw (a, reconcile_service) refl
