-- ===== src/Operator/Cluster/Stages.antt =====
-- The stages of a workspace in a cluster, and the calls that lead from one to the next: finalizer,
-- claim, pod.
use dev_plane.Base.{
  ◌≢◌, ◌⊎◌, inl, inr, List-cases, List, true, false, none, [], ◌∷◌, ◌++◌, ◌≡◌, refl, sym, subst, ap,
  ◌∙◌, arith, any-append,
}
use dev_plane.Base.Int.{pos, ltb_ℤ}
use dev_plane.Base.Text.{Text, lit, text_eq, text_eq_iff}
use dev_plane.Base.Result.{Result, ok}
use dev_plane.Api.{Workspace, stopped, phase_eq}
use dev_plane.Platform.{Pvc, Pod, Container, Volume, VolumeMount, claim, Platform, IsOwning}
use dev_plane.Resources.Names.{pvc_name}
use dev_plane.Resources.Build.{pod_spec}
use dev_plane.Resources.Validate.{validate_spec}
use dev_plane.Status.{apply_status_summary}
use dev_plane.Operator.Env.{
  Config, Request, create_pvc, create_pod, requeue_after, Outcome, return_ok, after,
}
use dev_plane.Operator.Helpers.{effective_idle_timeout, report}
use dev_plane.Operator.Ensure.Accepted.{rbac_applied, policies_applied}
use dev_plane.Operator.PodStages.{
  contains_finalizer, with_finalizer, workspace_finalizer, desired_image, build_opts, image_differs,
  is_outdated, two_seconds,
}
use dev_plane.Operator.Reconcile.{reconcile_pvc, reconcile}
use dev_plane.Operator.Reconcile.Permitted.{IsMissing}
use dev_plane.Operator.Reconcile.Active.{secured, reconcile_active}
use dev_plane.Operator.Reconcile.Creates.{
  finalizer_added, missing_claim, claim_summary, claim_created, found_claim, missing_pod,
  pod_created,
}
use dev_plane.Operator.Cluster.{Cluster, perform_all, reconciled}
use dev_plane.Operator.Cluster.Effects.{
  Holds, update-Holds, create_pvc-Holds, create_pod-Holds, secured_effect, report_effect,
}
use dev_plane.Operator.Cluster.Builds.{build_pvc_valid, build_pod_valid}

-- A workspace that is to be served, in the namespace that it is read from.
pub record IsWanted (k : Platform) (req : Request) (ws : Workspace) : Type 0 where
  pub kept : ws.deleting ≡ false
  pub valid : validate_spec k ws.spec ≡ none
  pub live : phase_eq ws.status.phase stopped ≡ false
  pub placed : ws.namespace ≡ req.namespace

module _ (c : Cluster) (k : Platform) (cfg : Config) (req : Request) where
  -- Without the finalizer, a claim and a pod, as it was created.
  pub record IsRegistered (s : c.State) : Type 0 where
    pub ws : Workspace
    pub claim : Result Pvc
    pub pod : Result Pod
    pub holds : Holds c req s ws claim pod
    pub wanted : IsWanted k req ws
    pub bare : contains_finalizer ws ≡ false
    pub unclaimed : IsMissing claim
    pub unstarted : IsMissing pod

  -- With the finalizer.
  pub record IsFinalized (s : c.State) : Type 0 where
    pub ws : Workspace
    pub claim : Result Pvc
    pub pod : Result Pod
    pub holds : Holds c req s ws claim pod
    pub wanted : IsWanted k req ws
    pub finalizer : contains_finalizer ws ≡ true
    pub unclaimed : IsMissing claim
    pub unstarted : IsMissing pod

  -- With a claim that is not lost.
  pub record IsClaimed (s : c.State) : Type 0 where
    pub ws : Workspace
    pub pvc : Pvc
    pub pod : Result Pod
    pub holds : Holds c req s ws (ok pvc) pod
    pub wanted : IsWanted k req ws
    pub finalizer : contains_finalizer ws ≡ true
    pub usable : pvc.lost ≡ false
    pub unstarted : IsMissing pod

  -- With a pod that is not outdated: its first container has the configured image, or it is
  -- being deleted.
  pub record IsProvided (s : c.State) : Type 0 where
    pub ws : Workspace
    pub pvc : Pvc
    pub pod : Pod
    pub holds : Holds c req s ws (ok pvc) (ok pod)
    pub wanted : IsWanted k req ws
    pub finalizer : contains_finalizer ws ≡ true
    pub usable : pvc.lost ≡ false
    pub current : is_outdated cfg pod ≡ false

  -- The image of the configuration, workspace:latest where it has none.
  abbrev pub IsConfigured : Text → Type 0
  IsConfigured image =
      ((cfg.workspace_image ≢ []) × (image ≡ cfg.workspace_image))
      ⊎ ((cfg.workspace_image ≡ []) × (image ≡ lit "workspace:latest"))

  -- The pod is not being deleted, and has one container, which runs that image with the claim of
  -- the user mounted.
  pub record RunsImage (user : Text) (pod : Pod) : Type 0 where
    pub kept : pod.deleting ≡ false
    pub container : Container
    pub only : pod.spec.containers ≡ container ∷ []
    pub image : IsConfigured container.image
    pub volume : Volume
    pub volumes : List Volume
    pub backed : pod.spec.volumes ≡ volume ∷ volumes
    pub source : volume.source ≡ claim (pvc_name user)
    pub mount : VolumeMount
    pub mounts : List VolumeMount
    pub mounted : container.volume_mounts ≡ mount ∷ mounts
    pub from : mount.name ≡ volume.name
    pub path : mount.mount_path ≡ lit "/workspace"

  desired_image-IsConfigured : IsConfigured (desired_image cfg)
  unfolding desired_image
  desired_image-IsConfigured = elim (List-cases cfg.workspace_image) [
    | inl e ↦ inr (e, rw (e, desired_image) refl)
    | inr (b, bs, e) ↦ inl ((λ f. cc), rw (e, desired_image) refl)
  ]

  -- The same, and that is what the pod runs.
  pub record IsRun (s : c.State) : Type 0 where
    pub provided : IsProvided s
    pub runs : RunsImage provided.ws.spec.user.id provided.pod

  -- Stopped, with an idle timeout that is on.
  pub record IsStopped (s : c.State) : Type 0 where
    pub ws : Workspace
    pub read : (c.server s).get_workspace req ≡ ok ws
    pub kept : ws.deleting ≡ false
    pub valid : validate_spec k ws.spec ≡ none
    pub finalizer : contains_finalizer ws ≡ true
    pub ended : phase_eq ws.status.phase stopped ≡ true
    pub enabled : ltb_ℤ (pos 0) (effective_idle_timeout k ws cfg.idle_timeout) ≡ true

  finalizer_contained : (ws : Workspace) → contains_finalizer (with_finalizer ws) ≡ true
  unfolding contains_finalizer with_finalizer
  finalizer_contained ws =
      let same = (text_eq_iff workspace_finalizer workspace_finalizer).1 refl in
      ground (
        arith,
        any-append (λ f. text_eq f workspace_finalizer) ws.finalizers (workspace_finalizer ∷ []),
      )

  image_current :
      (ws : Workspace) (pvc : Text)
      → image_differs
          (desired_image cfg)
          (pod_spec k ws pvc (desired_image cfg) (build_opts cfg)).containers
        ≡ false
  unfolding image_differs pod_spec
  image_current ws pvc =
      let same = (text_eq_iff (desired_image cfg) (desired_image cfg)).1 refl in ground arith

  built_current :
      (ws : Workspace) (pvc : Text) (pod : Pod)
      → pod.spec ≡ pod_spec k ws pvc (desired_image cfg) (build_opts cfg)
      → is_outdated cfg pod ≡ false
  unfolding is_outdated
  built_current ws pvc pod e =
      let same =
        ap (λ spec. image_differs (desired_image cfg) spec.containers) e ∙ image_current ws pvc in
      ground arith

  built-RunsImage :
      (ws : Workspace) (pod : Pod)
      → pod.deleting ≡ false
      → pod.spec ≡ pod_spec k ws (pvc_name ws.spec.user.id) (desired_image cfg) (build_opts cfg)
      → RunsImage ws.spec.user.id pod
  unfolding pod_spec
  built-RunsImage ws pod kept e = record {
    kept = kept;
    container = _;
    only = ap (λ spec. spec.containers) e;
    image = desired_image-IsConfigured;
    volume = _;
    volumes = _;
    backed = ap (λ spec. spec.volumes) e;
    source = refl;
    mount = _;
    mounts = _;
    mounted = refl;
    from = refl;
    path = refl;
  }

  -- The first call adds the finalizer.
  pub finalizes : (s : c.State) → IsRegistered s → IsFinalized (reconciled c k cfg req s)
  unfolding with_finalizer perform_all
  finalizes s h =
      subst (λ (out : Outcome). IsFinalized (perform_all c out.actions s))
        (sym (
          finalizer_added k cfg (c.server s) req h.ws h.holds.workspace h.wanted.kept h.wanted.valid
            h.bare (c.updates s _)))
        (record {
          ws = with_finalizer h.ws;
          claim = h.claim;
          pod = h.pod;
          holds =
              update-Holds c req (h.ws.finalizers ++ workspace_finalizer ∷ []) h.wanted.kept
                h.holds;
          wanted = record {
            kept = h.wanted.kept;
            valid = h.wanted.valid;
            live = h.wanted.live;
            placed = h.wanted.placed;
          };
          finalizer = finalizer_contained h.ws;
          unclaimed = h.unclaimed;
          unstarted = h.unstarted;
        })

  module _ (owning : IsOwning k) where
    -- A call on a workspace that is wanted comes to the claim.
    pub active_call :
        {s : c.State} {ws : Workspace} {claim : Result Pvc} {pod : Result Pod}
        → Holds c req s ws claim pod
        → IsWanted k req ws
        → contains_finalizer ws ≡ true
        → reconcile k cfg (c.server s) req
          ≡ secured k cfg (c.server s) req ws (reconcile_pvc k cfg (c.server s) req ws)
    active_call {s} {ws} h w f =
        reconcile_active k cfg (c.server s) req ws
          (record { kept = w.kept; valid = w.valid; finalizer = f; live = w.live }) h.workspace
          (rbac_applied k owning cfg (c.server s) (c.applies s) ws)
          (policies_applied k owning cfg (c.server s) (c.applies s) ws)

    -- The next call creates the claim.
    pub claims : (s : c.State) → IsFinalized s → IsClaimed (reconciled c k cfg req s)
    unfolding perform_all apply_status_summary phase_eq contains_finalizer
    claims s h =
        let srv = c.server s in
        let (pvc, built, named, usable) = build_pvc_valid k owning h.ws h.wanted.valid in
        let out =
          report k cfg srv h.ws (claim_summary k cfg srv req h.ws) (requeue_after two_seconds) in
        subst (λ (o : Outcome). IsClaimed (perform_all c o.actions s))
          (sym (
            active_call h.holds h.wanted h.finalizer
            ∙ ap (secured k cfg srv req h.ws) (
                missing_claim k cfg srv req h.ws (subst IsMissing (sym h.holds.claims) h.unclaimed)
                ∙ claim_created k cfg srv req h.ws pvc built (c.claims s pvc))))
          (secured_effect c req k cfg srv h.ws (after (create_pvc pvc ∷ []) out) IsClaimed s
            (λ t g. record {
              ws = apply_status_summary k h.ws (claim_summary k cfg srv req h.ws);
              pvc = pvc;
              pod = h.pod;
              holds =
                  report_effect c req k cfg s _ h.ws (claim_summary k cfg srv req h.ws)
                    (requeue_after two_seconds)
                    (create_pvc-Holds c req pvc (ap (λ m. m.namespace) named ∙ h.wanted.placed)
                      (ap (λ m. m.name) named) h.unclaimed g);
              wanted = record {
                kept = h.wanted.kept;
                valid = h.wanted.valid;
                live = refl;
                placed = h.wanted.placed;
              };
              finalizer = h.finalizer;
              usable = usable;
              unstarted = h.unstarted;
            })
            h.holds)

    -- And the one after that the pod.
    pub starts : (s : c.State) → IsClaimed s → IsRun (reconciled c k cfg req s)
    unfolding perform_all
    starts s h =
        let srv = c.server s in
        let (pod, built, named, kept, runs) =
          build_pod_valid k owning h.ws (pvc_name h.ws.spec.user.id) (desired_image cfg)
            (build_opts cfg) h.wanted.valid in
        subst (λ (o : Outcome). IsRun (perform_all c o.actions s))
          (sym (
            active_call h.holds h.wanted h.finalizer
            ∙ ap (secured k cfg srv req h.ws) (
                found_claim k cfg srv req h.ws h.pvc h.holds.claims h.usable
                ∙ missing_pod k cfg srv req h.ws (subst IsMissing (sym h.holds.pods) h.unstarted)
                ∙ pod_created k cfg srv req h.ws pod built (c.starts s pod))))
          (secured_effect c req k cfg srv h.ws
            (return_ok (create_pod pod ∷ []) (requeue_after two_seconds)) IsRun s
            (λ t g. record {
              runs = built-RunsImage h.ws pod kept runs;
              provided = record {
                ws = h.ws;
                pvc = h.pvc;
                pod = pod;
                holds =
                    create_pod-Holds c req pod (ap (λ m. m.namespace) named ∙ h.wanted.placed)
                      (ap (λ m. m.name) named) h.unstarted g;
                wanted = h.wanted;
                finalizer = h.finalizer;
                usable = h.usable;
                current = built_current h.ws _ pod runs;
              };
            })
            h.holds)
