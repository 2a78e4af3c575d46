-- ===== src/Operator/Reconcile/Reported.antt =====
-- What a call of Reconcile asks for that applies the objects, removes pods, and reports a status.
use dev_plane.Base.{Bool, List, [], ◌∷◌, ◌++◌, ◌≡◌, refl, sym, ap, ◌∙◌, All}
use dev_plane.Base.Text.{Text, lit}
use dev_plane.Api.{Workspace, WorkspacePhase, Condition, phase_eq, running}
use dev_plane.Platform.{Platform}
use dev_plane.Status.{StatusSummary, apply_status_summary}
use dev_plane.Operator.Env.{
  Config, Request, ApiServer, Action, update_workspace, patch_status, create_pvc, create_pod,
  delete_pod, apply, count_patch_failure, count_transition, emit_event, log_transition, Requeue,
  Outcome, after,
}
use dev_plane.Operator.Helpers.{report}
use dev_plane.Operator.Helpers.Reports.{All-append, IsMeasure, Concludes, report_patches}
use dev_plane.Operator.Ensure.{ensure_rbac, ensure_network_policies}
use dev_plane.Operator.Ensure.Applies.{ensure_rbac-All, ensure_network_policies-All}
use dev_plane.Operator.PodStages.{desired_service}
use dev_plane.Operator.Reconcile.Active.{secured}

-- The actions that create or update one of the objects around the pod.
abbrev pub IsApply : Action → Type 0
IsApply (apply o) = Unit
IsApply (update_workspace w) = ⊥
IsApply (patch_status w) = ⊥
IsApply (create_pvc pvc) = ⊥
IsApply (create_pod pod) = ⊥
IsApply (delete_pod pod) = ⊥
IsApply count_patch_failure = ⊥
IsApply (count_transition a b) = ⊥
IsApply (emit_event r m) = ⊥
IsApply (log_transition l) = ⊥

module _ (k : Platform) (cfg : Config) (srv : ApiServer) (ws : Workspace) where
  -- The status that is asked for: the workspace as it was but for the phase, the pod, the endpoint,
  -- the message, no hint, and the Ready condition.
  pub record IsAsked (expected : WorkspacePhase) (pod address text : Text) (available : Bool)
      (asked : Workspace) : Type 0 where
    pub phase : asked.status.phase ≡ expected
    pub pod_name : asked.status.pod_name ≡ pod
    pub endpoint : asked.status.service_endpoint ≡ address
    pub message : asked.status.message ≡ text
    pub hint : asked.status.remediation_hint ≡ []
    pub condition : Condition
    pub conditions : asked.status.conditions ≡ k.set_status_condition condition ws.status.conditions
    pub kind : condition.kind ≡ lit "Ready"
    pub ready : condition.status ≡ available
    pub accessed : asked.status.last_accessed ≡ ws.status.last_accessed
    pub spec : asked.spec ≡ ws.spec
    pub name : asked.name ≡ ws.name
    pub namespace : asked.namespace ≡ ws.namespace

  -- A call that applies the RBAC objects, the policies and the service, then makes the given requests, then one status patch, and behind
  -- it only counts, logs and events.
  pub record IsReported (made : List Action) (phase : WorkspacePhase)
      (pod_name endpoint message : Text) (ready : Bool) (result : Requeue) (out : Outcome)
      : Type 0 where
    pub before : List Action
    pub asked : Workspace
    pub behind : List Action
    pub order : out.actions ≡ before ++ (made ++ (patch_status asked ∷ behind))
    pub objects :
        before
        ≡ (ensure_rbac k cfg srv ws).0
          ++ ((ensure_network_policies k cfg srv ws).0 ++ (apply (desired_service ws) ∷ []))
    pub applies : All IsApply before
    pub measures : All IsMeasure behind
    pub status : IsAsked phase pod_name endpoint message ready asked
    pub concludes : Concludes (srv.patch_status asked) result out.result out.error

module _ (k : Platform) (cfg : Config) (srv : ApiServer) (req : Request) (ws : Workspace) where
  append_assoc {ℓ} : {A : Type ℓ} (xs ys zs : List A) → (xs ++ ys) ++ zs ≡ xs ++ (ys ++ zs)
  append_assoc [] ys zs = refl
  append_assoc (x ∷ xs) ys zs = ap (λ t. x ∷ t) (append_assoc xs ys zs)

  -- A summary with a message and no override or hint is asked for as it is.
  applied-IsAsked :
      (sum : StatusSummary)
      → sum.message_override ≡ []
      → sum.remediation_hint ≡ []
      → IsAsked k cfg srv ws sum.phase sum.pod_name sum.service_endpoint sum.message
          (phase_eq sum.phase running)
          (apply_status_summary k ws sum)
  unfolding apply_status_summary
  applied-IsAsked sum o h = record {
    phase = refl;
    pod_name = refl;
    endpoint = refl;
    message = rw (o, apply_status_summary) refl;
    hint = h;
    condition = _;
    conditions = refl;
    kind = refl;
    ready = refl;
    accessed = refl;
    spec = refl;
    name = refl;
    namespace = refl;
  }

  -- Behind the objects that are applied, and the requests.
  pub report-IsReported :
      (made : List Action) (sum : StatusSummary) (result : Requeue)
      → sum.message_override ≡ []
      → sum.remediation_hint ≡ []
      → IsReported k cfg srv ws made sum.phase sum.pod_name sum.service_endpoint sum.message
          (phase_eq sum.phase running)
          result
          (secured k cfg srv req ws
            (after (apply (desired_service ws) ∷ []) (after made (report k cfg srv ws sum result))))
  report-IsReported made sum result o h =
      let (behind, e, measures, end) = report_patches k cfg srv ws sum result _ refl in
      let rbac = (ensure_rbac k cfg srv ws).0 in
      let policies = (ensure_network_policies k cfg srv ws).0 in
      let patched = patch_status (apply_status_summary k ws sum) ∷ behind in
      let service = apply (desired_service ws) ∷ [] in
      record {
        before = rbac ++ (policies ++ service);
        asked = apply_status_summary k ws sum;
        behind = behind;
        order =
            ap (λ acts. rbac ++ (policies ++ (service ++ (made ++ acts)))) e
            ∙ ap (λ acts. rbac ++ acts) (sym (append_assoc policies service (made ++ patched)))
            ∙ sym (append_assoc rbac (policies ++ service) (made ++ patched));
        objects = refl;
        applies = All-append IsApply rbac _ (ensure_rbac-All IsApply (λ o. tt) k cfg srv ws) (
            All-append IsApply policies _
              (ensure_network_policies-All IsApply (λ o. tt) k cfg srv ws) (tt, tt));
        measures = measures;
        status = applied-IsAsked sum o h;
        concludes = end;
      }
