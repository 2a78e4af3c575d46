-- ===== src/Operator/Reconcile/FirstPod.antt =====
-- If the stages from the claim on create a pod, that is their first request.
use dev_plane.Base.{
  Bool, true, false, List, [], ◌∷◌, ◌≡◌, refl, inl, inr, All, any, any_of_none, Bool-cases, on_true,
  on_false, if◌then◌else◌,
}
use dev_plane.Base.Text.{Text}
use dev_plane.Base.Result.{Error, ok, Result-cases}
use dev_plane.Api.{Workspace}
use dev_plane.Platform.{Pod, Platform}
use dev_plane.Resources.Names.{pod_name, pvc_name}
use dev_plane.Resources.Build.{build_pod}
use dev_plane.Status.{StatusSummary}
use dev_plane.Operator.Env.{
  Config, Request, ApiServer, Action, update_workspace, patch_status, create_pvc, create_pod,
  delete_pod, apply, count_patch_failure, count_transition, emit_event, log_transition, Outcome,
  Requeue,
}
use dev_plane.Operator.Helpers.{report, report_error}
use dev_plane.Operator.Helpers.Reports.{IsReporting, report-All, report_error-All}
use dev_plane.Operator.PodStages.{desired_image, build_opts, is_outdated}
use dev_plane.Operator.Reconcile.{
  replace_pod, create_missing_pod, create_missing_pvc, check_pvc, reconcile_service, reconcile_pod,
  reconcile_pvc,
}
use dev_plane.Operator.Reconcile.Permitted.{IsActive, Permitted, IsMissing}
use dev_plane.Operator.Reconcile.Requests.{service_permitted, claim-Permitted, replace-Permitted}

abbrev pub is_create_pod : Action → Bool
is_create_pod (create_pod pod) = true
is_create_pod (update_workspace w) = false
is_create_pod (patch_status w) = false
is_create_pod (create_pvc pvc) = false
is_create_pod (delete_pod pod) = false
is_create_pod (apply o) = false
is_create_pod count_patch_failure = false
is_create_pod (count_transition a b) = false
is_create_pod (emit_event r m) = false
is_create_pod (log_transition l) = false

reporting_no_pod : (a : Action) → IsReporting a → is_create_pod a ≡ false
reporting_no_pod (patch_status w) h = refl
reporting_no_pod (create_pod p) h = elim h [ ]
reporting_no_pod (update_workspace w) h = refl
reporting_no_pod (create_pvc p) h = refl
reporting_no_pod (delete_pod p) h = refl
reporting_no_pod (apply o) h = refl
reporting_no_pod count_patch_failure h = refl
reporting_no_pod (count_transition a b) h = refl
reporting_no_pod (emit_event r m) h = refl
reporting_no_pod (log_transition l) h = refl

-- If the actions create a pod, they begin with that.
abbrev pub PodFirst : Outcome → Type 0
PodFirst out =
    any is_create_pod out.actions ≡ true
    → (pod : Pod) × (rest : List Action) × (out.actions ≡ create_pod pod ∷ rest)

vacuous : (out : Outcome) → any is_create_pod out.actions ≡ false → PodFirst out
vacuous out e h = cc

module _ (k : Platform) (cfg : Config) (srv : ApiServer) (req : Request) (ws : Workspace) where
  pub report_no_pod :
      (sum : StatusSummary) (r : Requeue)
      → any is_create_pod (report k cfg srv ws sum r).actions ≡ false
  report_no_pod sum r =
      any_of_none is_create_pod _ (report-All _ reporting_no_pod k cfg srv ws sum r)

  pub report_error_no_pod :
      (sum : StatusSummary) (context : Text) (err : Error)
      → any is_create_pod (report_error k cfg srv ws sum context err).actions ≡ false
  report_error_no_pod sum context err =
      any_of_none is_create_pod _ (report_error-All _ reporting_no_pod k cfg srv ws sum context err)

  -- Permitted actions create no pod where the read found one, or found no claim.
  no_pod_of_found :
      (pod : Pod) (actions : List Action)
      → srv.get_pod req.namespace (pod_name ws.spec.user.id) ≡ ok pod
      → All (Permitted k cfg srv req ws) actions
      → any is_create_pod actions ≡ false
  no_pod_of_found pod [] f h = refl
  no_pod_of_found pod (create_pod p ∷ xs) f h = let (err, e, _) = h.0.2 in cc
  no_pod_of_found pod (update_workspace w ∷ xs) f h = no_pod_of_found pod xs f h.1
  no_pod_of_found pod (patch_status w ∷ xs) f h = no_pod_of_found pod xs f h.1
  no_pod_of_found pod (create_pvc p ∷ xs) f h = no_pod_of_found pod xs f h.1
  no_pod_of_found pod (delete_pod p ∷ xs) f h = no_pod_of_found pod xs f h.1
  no_pod_of_found pod (apply o ∷ xs) f h = no_pod_of_found pod xs f h.1
  no_pod_of_found pod (count_patch_failure ∷ xs) f h = no_pod_of_found pod xs f h.1
  no_pod_of_found pod (count_transition a b ∷ xs) f h = no_pod_of_found pod xs f h.1
  no_pod_of_found pod (emit_event r m ∷ xs) f h = no_pod_of_found pod xs f h.1
  no_pod_of_found pod (log_transition l ∷ xs) f h = no_pod_of_found pod xs f h.1

  -- Nor where the read found no claim.
  no_pod_of_unclaimed :
      (actions : List Action)
      → IsMissing (srv.get_pvc req.namespace (pvc_name ws.spec.user.id))
      → All (Permitted k cfg srv req ws) actions
      → any is_create_pod actions ≡ false
  no_pod_of_unclaimed [] m h = refl
  no_pod_of_unclaimed (create_pod p ∷ xs) (e, f, _) h = let (pvc, g, _) = h.0.3 in cc
  no_pod_of_unclaimed (update_workspace w ∷ xs) m h = no_pod_of_unclaimed xs m h.1
  no_pod_of_unclaimed (patch_status w ∷ xs) m h = no_pod_of_unclaimed xs m h.1
  no_pod_of_unclaimed (create_pvc p ∷ xs) m h = no_pod_of_unclaimed xs m h.1
  no_pod_of_unclaimed (delete_pod p ∷ xs) m h = no_pod_of_unclaimed xs m h.1
  no_pod_of_unclaimed (apply o ∷ xs) m h = no_pod_of_unclaimed xs m h.1
  no_pod_of_unclaimed (count_patch_failure ∷ xs) m h = no_pod_of_unclaimed xs m h.1
  no_pod_of_unclaimed (count_transition a b ∷ xs) m h = no_pod_of_unclaimed xs m h.1
  no_pod_of_unclaimed (emit_event r n ∷ xs) m h = no_pod_of_unclaimed xs m h.1
  no_pod_of_unclaimed (log_transition l ∷ xs) m h = no_pod_of_unclaimed xs m h.1

  report-PodFirst : (sum : StatusSummary) (r : Requeue) → PodFirst (report k cfg srv ws sum r)
  report-PodFirst sum r = vacuous (report k cfg srv ws sum r) (report_no_pod sum r)

  report_error-PodFirst :
      (sum : StatusSummary) (context : Text) (err : Error)
      → PodFirst (report_error k cfg srv ws sum context err)
  report_error-PodFirst sum context err =
      vacuous (report_error k cfg srv ws sum context err) (report_error_no_pod sum context err)

  missing_pod-PodFirst : PodFirst (create_missing_pod k cfg srv req ws)
  unfolding create_missing_pod
  missing_pod-PodFirst =
      elim (Result-cases
        (build_pod k ws (pvc_name ws.spec.user.id) (desired_image cfg) (build_opts cfg))) [
          | inl (pod, e) ↦ rw (e, create_missing_pod) (λ _. (pod, _, refl))
          | inr (err, e) ↦ rw (e, create_missing_pod) (report-PodFirst _ _)
        ]

  module _ (active : IsActive k cfg srv req ws) where
    found_pod-PodFirst :
        (pod : Pod)
        → srv.get_pod req.namespace (pod_name ws.spec.user.id) ≡ ok pod
        → PodFirst (
            if is_outdated cfg pod
            then replace_pod k cfg srv req pod
            else reconcile_service k cfg srv req ws pod)
    found_pod-PodFirst pod e = elim (Bool-cases (is_outdated cfg pod)) [
      | inl o ↦
          let out = replace_pod k cfg srv req pod in
          on_true PodFirst out _ o (
            vacuous out (
              no_pod_of_found pod out.actions e
                (replace-Permitted k cfg srv req ws active pod (active, e, inl o))))
      | inr o ↦
          let out = reconcile_service k cfg srv req ws pod in
          on_false PodFirst _ out o (
            vacuous out
              (no_pod_of_found pod out.actions e (service_permitted k cfg srv req ws active pod e)))
    ]

    pod-PodFirst : PodFirst (reconcile_pod k cfg srv req ws)
    unfolding reconcile_pod
    pod-PodFirst = elim (Result-cases (srv.get_pod req.namespace (pod_name ws.spec.user.id))) [
      | inl (pod, e) ↦ rw (e, reconcile_pod) (found_pod-PodFirst pod e)
      | inr (err, e) ↦
          rw (e, reconcile_pod)
            (elim (Bool-cases err.not_found) [
              | inl m ↦ on_true PodFirst _ _ m missing_pod-PodFirst
              | inr m ↦ on_false PodFirst _ _ m (report_error-PodFirst _ _ _)
            ])
    ]

    pub pvc-PodFirst : PodFirst (reconcile_pvc k cfg srv req ws)
    unfolding reconcile_pvc check_pvc
    pvc-PodFirst = elim (Result-cases (srv.get_pvc req.namespace (pvc_name ws.spec.user.id))) [
      | inl (pvc, e) ↦
          rw (e, reconcile_pvc)
            (elim (Bool-cases pvc.lost) [
              | inl l ↦ on_true PodFirst _ _ l (report-PodFirst _ _)
              | inr l ↦ on_false PodFirst _ _ l pod-PodFirst
            ])
      | inr (err, e) ↦
          rw (e, reconcile_pvc)
            (elim (Bool-cases err.not_found) [
              | inl m ↦
                  let out = create_missing_pvc k cfg srv req ws in
                  on_true PodFirst out _ m (
                    vacuous out (
                      no_pod_of_unclaimed out.actions (err, e, m)
                        (claim-Permitted k cfg srv req ws active
                          λ pvc built. (active, built, (err, e, m)))))
              | inr m ↦ on_false PodFirst _ _ m (report_error-PodFirst _ _ _)
            ])
    ]
