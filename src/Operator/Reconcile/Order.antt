-- ===== src/Operator/Reconcile/Order.antt =====
-- A pod is created only behind its access rules: the RBAC objects and the three network policies.
use dev_plane.Base.{
  true, false, Option, none, some, List, ◌∷◌, ◌++◌, ◌≡◌, refl, inl, inr, ap, arith, All, any,
  any-append, any_of_none, Bool-cases, Option-cases, on_true, on_false,
}
use dev_plane.Base.Text.{lit}
use dev_plane.Base.Result.{Error, ok}
use dev_plane.Api.{Workspace, creating, stopped, phase_eq}
use dev_plane.Platform.{Pod, Platform}
use dev_plane.Resources.Validate.{validate_spec}
use dev_plane.Operator.Env.{
  Config, Request, ApiServer, Action, create_pod, Outcome, no_requeue, after,
}
use dev_plane.Operator.Helpers.{report, report_error, summary_keeping}
use dev_plane.Diagnostics.{error_details_for_network_policy, error_details_for_rbac}
use dev_plane.Operator.Ensure.{ensure_rbac, ensure_network_policies}
use dev_plane.Operator.Ensure.Applies.{ensure_rbac-All, ensure_network_policies-All}
use dev_plane.Operator.Ensure.Complete.{
  RbacApplied, PoliciesApplied, ensure_rbac-RbacApplied, ensure_network_policies-PoliciesApplied,
}
use dev_plane.Operator.PodStages.{contains_finalizer}
use dev_plane.Operator.Reconcile.{
  reconcile_pvc, reconcile_network, reconcile_rbac, reconcile_delete, add_finalizer,
  reconcile_valid, reconcile_workspace, reconcile, invalid,
}
use dev_plane.Operator.Reconcile.Permitted.{IsActive}
use dev_plane.Operator.Reconcile.FirstPod.{
  is_create_pod, report_no_pod, report_error_no_pod, pvc-PodFirst,
}

module _ (k : Platform) (cfg : Config) (srv : ApiServer) (req : Request) (ws : Workspace) where
  -- The actions are the three RBAC objects, the three policies, a pod and more, and the server
  -- accepted each object before the next one.
  pub record IsProtected (actions : List Action) : Type 0 where
    pub rbac_actions : List Action
    pub policy_actions : List Action
    pub rbac : RbacApplied k cfg srv ws rbac_actions
    pub policies : PoliciesApplied k cfg srv ws policy_actions
    pub pod : Pod
    pub rest : List Action
    pub order : actions ≡ rbac_actions ++ (policy_actions ++ create_pod pod ∷ rest)

  -- Where the objects applied first create no pod, the rest does.
  later_creates :
      (first later : List Action)
      → All (λ a. is_create_pod a ≡ false) first
      → any is_create_pod (first ++ later) ≡ true
      → any is_create_pod later ≡ true
  later_creates first later h c =
      ground (arith, any-append is_create_pod first later, any_of_none is_create_pod first h)

  -- A stage that goes on after its calls creates a pod only if they succeeded, and later.
  sequel :
      (first : List Action) (failure : Option Error) (next : Outcome) (stop : Error → Outcome)
      → All (λ a. is_create_pod a ≡ false) first
      → ((err : Error) → any is_create_pod (stop err).actions ≡ false)
      → any is_create_pod (after first (elim failure [ none ↦ next | some err ↦ stop err ])).actions
        ≡ true
      → (failure ≡ none) × (any is_create_pod next.actions ≡ true)
  sequel first none next stop quiet halts c = (refl, later_creates first next.actions quiet c)
  sequel first (some err) next stop quiet halts c =
      let d = later_creates first (stop err).actions quiet c in
      let n = halts err in absurd (ground arith)

  module _ (active : IsActive k cfg srv req ws) where
    -- The network stage: with a pod come the policies.
    network_cases :
        any is_create_pod (reconcile_network k cfg srv req ws).actions ≡ true
        → (pod : Pod) × (rest : List Action) × PoliciesApplied k cfg srv ws
            (ensure_network_policies k cfg srv ws).0
          × ((reconcile_network k cfg srv req ws).actions
              ≡ (ensure_network_policies k cfg srv ws).0 ++ create_pod pod ∷ rest)
    unfolding reconcile_network
    network_cases h =
        let acts = (ensure_network_policies k cfg srv ws).0 in
        let (e, c) =
          sequel acts (ensure_network_policies k cfg srv ws).1 (reconcile_pvc k cfg srv req ws)
            (λ err.
              report_error k cfg srv ws
                (summary_keeping creating ws (lit "NetworkPolicy reconcile failed: " ++ err.text)
                  (error_details_for_network_policy k err))
                (lit "ensure NetworkPolicies") err)
            (ensure_network_policies-All _ (λ o. refl) k cfg srv ws)
            (λ err. report_error_no_pod k cfg srv req ws _ _ err) h in
        let (pod, rest, q) = pvc-PodFirst k cfg srv req ws active c in
        (
          pod,
          rest,
          ensure_network_policies-PoliciesApplied k cfg srv ws e,
          rw (e, reconcile_network) (ap (λ xs. acts ++ xs) q),
        )

    rbac-IsProtected :
        any is_create_pod (reconcile_rbac k cfg srv req ws).actions ≡ true
        → IsProtected (reconcile_rbac k cfg srv req ws).actions
    unfolding reconcile_rbac
    rbac-IsProtected h =
        let acts = (ensure_rbac k cfg srv ws).0 in
        let (e, c) =
          sequel acts (ensure_rbac k cfg srv ws).1 (reconcile_network k cfg srv req ws)
            (λ err.
              report_error k cfg srv ws
                (summary_keeping creating ws (lit "RBAC reconcile failed: " ++ err.text)
                  (error_details_for_rbac k err))
                (lit "ensure RBAC") err)
            (ensure_rbac-All _ (λ o. refl) k cfg srv ws)
            (λ err. report_error_no_pod k cfg srv req ws _ _ err) h in
        let (pod', rest', applied, q) = network_cases c in
        record {
          rbac_actions = acts;
          policy_actions = (ensure_network_policies k cfg srv ws).0;
          rbac = ensure_rbac-RbacApplied k cfg srv ws e;
          policies = applied;
          pod = pod';
          rest = rest';
          order = rw (e, reconcile_rbac) (ap (λ xs. acts ++ xs) q);
        }

  -- The claim for the whole of a stage.
  abbrev Protects : Outcome → Type 0
  Protects out = any is_create_pod out.actions ≡ true → IsProtected out.actions

  nothing-Protects : (out : Outcome) → any is_create_pod out.actions ≡ false → Protects out
  nothing-Protects out e h = cc

  delete_no_pod : any is_create_pod (reconcile_delete k cfg srv req ws).actions ≡ false
  unfolding reconcile_delete
  delete_no_pod = ground arith

  add_no_pod : any is_create_pod (add_finalizer k cfg srv req ws).actions ≡ false
  unfolding add_finalizer
  add_no_pod = ground arith

  valid-Protects :
      ws.deleting ≡ false
      → validate_spec k ws.spec ≡ none
      → Protects (reconcile_valid k cfg srv req ws)
  unfolding reconcile_valid
  valid-Protects d v = elim (Bool-cases (contains_finalizer ws)) [
    | inr f ↦ rw (f, reconcile_valid) (nothing-Protects (add_finalizer k cfg srv req ws) add_no_pod)
    | inl f ↦ elim (Bool-cases (phase_eq ws.status.phase stopped)) [
      | inl s ↦ rw (f, s, reconcile_valid) (λ h. cc)
      | inr s ↦
          rw (f, s, reconcile_valid)
            (rbac-IsProtected (record { kept = d; valid = v; finalizer = f; live = s }))
    ]
  ]

  workspace-Protects : Protects (reconcile_workspace k cfg srv req ws)
  unfolding reconcile_workspace
  workspace-Protects = elim (Bool-cases ws.deleting) [
    | inl d ↦
        on_true Protects (reconcile_delete k cfg srv req ws) _ d
          (nothing-Protects (reconcile_delete k cfg srv req ws) delete_no_pod)
    | inr d ↦ on_false Protects _ _ d (elim (Option-cases (validate_spec k ws.spec)) [
      | inl v ↦ rw v (valid-Protects d v)
      | inr (err, v) ↦ rw v (
          nothing-Protects (report k cfg srv ws (invalid k cfg srv req err.text) no_requeue)
            (report_no_pod k cfg srv req ws _ _))
    ])
  ]

-- A call of Reconcile that creates a pod has first applied the ServiceAccount, the Role and the
-- RoleBinding, then the deny-all, the egress and the ingress policy as they are built from the
-- workspace and the configuration, the server having accepted each; its next request is the pod.
pub reconcile-IsProtected :
    (k : Platform) (cfg : Config) (srv : ApiServer) (req : Request) (ws : Workspace)
    → srv.get_workspace req ≡ ok ws
    → any is_create_pod (reconcile k cfg srv req).actions ≡ true
    → IsProtected k cfg srv req ws (reconcile k cfg srv req).actions
unfolding reconcile
reconcile-IsProtected k cfg srv req ws e = rw (e, reconcile) (workspace-Protects k cfg srv req ws)
