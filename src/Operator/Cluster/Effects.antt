-- ===== src/Operator/Cluster/Effects.antt =====
-- What lists of actions do to the workspace, the claim and the pod that a call reads.
use dev_plane.Base.{List, [], ◌∷◌, ◌++◌, ◌≡◌, refl, sym, subst, ◌∙◌, false, All}
use dev_plane.Base.Text.{Text}
use dev_plane.Base.Result.{Result, ok}
use dev_plane.Api.{Workspace, WorkspaceStatus}
use dev_plane.Platform.{Pvc, Pod, Platform}
use dev_plane.Resources.Names.{pvc_name, pod_name}
use dev_plane.Status.{StatusSummary, apply_status_summary}
use dev_plane.Operator.Env.{
  Config, ApiServer, Requeue, Outcome, Request, Action, update_workspace, patch_status, create_pvc,
  create_pod, delete_pod, apply, count_patch_failure, count_transition, emit_event, log_transition,
}
use dev_plane.Operator.Helpers.{report}
use dev_plane.Operator.Helpers.Reports.{IsMeasure, report_accepted}
use dev_plane.Operator.Ensure.{ensure_rbac, ensure_network_policies}
use dev_plane.Operator.Ensure.Applies.{ensure_rbac-All, ensure_network_policies-All}
use dev_plane.Operator.Reconcile.Permitted.{IsMissing}
use dev_plane.Operator.Reconcile.Active.{secured}
use dev_plane.Operator.Cluster.{
  Cluster, KeepsWorkspace, KeepsClaim, KeepsPod, with_status, with_finalizers, perform_all,
}

-- The actions that write none of the three.
abbrev pub IsQuiet : Action → Type 0
IsQuiet (apply o) = Unit
IsQuiet count_patch_failure = Unit
IsQuiet (count_transition a b) = Unit
IsQuiet (emit_event r m) = Unit
IsQuiet (log_transition l) = Unit
IsQuiet (update_workspace w) = ⊥
IsQuiet (patch_status w) = ⊥
IsQuiet (create_pvc p) = ⊥
IsQuiet (create_pod p) = ⊥
IsQuiet (delete_pod p) = ⊥

quiet_keeps : (a : Action) → IsQuiet a → KeepsWorkspace a × KeepsClaim a × KeepsPod a
quiet_keeps (apply o) h = (tt, tt, tt)
quiet_keeps count_patch_failure h = (tt, tt, tt)
quiet_keeps (count_transition a b) h = (tt, tt, tt)
quiet_keeps (emit_event r m) h = (tt, tt, tt)
quiet_keeps (log_transition l) h = (tt, tt, tt)
quiet_keeps (update_workspace w) h = elim h [ ]
quiet_keeps (patch_status w) h = elim h [ ]
quiet_keeps (create_pvc p) h = elim h [ ]
quiet_keeps (create_pod p) h = elim h [ ]
quiet_keeps (delete_pod p) h = elim h [ ]

measure-IsQuiet : (a : Action) → IsMeasure a → IsQuiet a
measure-IsQuiet count_patch_failure h = tt
measure-IsQuiet (count_transition a b) h = tt
measure-IsQuiet (emit_event r m) h = tt
measure-IsQuiet (log_transition l) h = tt
measure-IsQuiet (apply o) h = tt
measure-IsQuiet (patch_status w) h = h
measure-IsQuiet (update_workspace w) h = h
measure-IsQuiet (create_pvc p) h = h
measure-IsQuiet (create_pod p) h = h
measure-IsQuiet (delete_pod p) h = h

measures-IsQuiet : (xs : List Action) → All IsMeasure xs → All IsQuiet xs
measures-IsQuiet [] h = tt
measures-IsQuiet (x ∷ xs) h = (measure-IsQuiet x h.0, measures-IsQuiet xs h.1)

module _ (c : Cluster) (req : Request) where
  pub perform_all-append :
      (xs ys : List Action) (s : c.State)
      → perform_all c (xs ++ ys) s ≡ perform_all c ys (perform_all c xs s)
  unfolding perform_all
  perform_all-append [] ys s = refl
  perform_all-append (x ∷ xs) ys s = perform_all-append xs ys (c.perform x s)

  -- What a call reads in a state: the workspace, its claim and its pod.
  pub record Holds (s : c.State) (ws : Workspace) (claim : Result Pvc) (pod : Result Pod)
      : Type 0 where
    pub workspace : (c.server s).get_workspace req ≡ ok ws
    pub claims : (c.server s).get_pvc req.namespace (pvc_name ws.spec.user.id) ≡ claim
    pub pods : (c.server s).get_pod req.namespace (pod_name ws.spec.user.id) ≡ pod

  quiet-Holds :
      {s : c.State} {ws : Workspace} {claim : Result Pvc} {pod : Result Pod} (a : Action)
      → IsQuiet a
      → Holds s ws claim pod
      → Holds (c.perform a s) ws claim pod
  quiet-Holds {s} a q h = record {
    workspace = c.workspace_kept a s _ (quiet_keeps a q).0 ∙ h.workspace;
    claims = c.claim_kept a s _ _ (quiet_keeps a q).1 ∙ h.claims;
    pods = c.pod_kept a s _ _ (quiet_keeps a q).2 ∙ h.pods;
  }

  pub quiet_actions-Holds :
      {ws : Workspace} {claim : Result Pvc} {pod : Result Pod} (xs : List Action) {s : c.State}
      → All IsQuiet xs
      → Holds s ws claim pod
      → Holds (perform_all c xs s) ws claim pod
  unfolding perform_all
  quiet_actions-Holds [] q h = h
  quiet_actions-Holds (x ∷ xs) q h = quiet_actions-Holds xs q.1 (quiet-Holds x q.0 h)

  pub patch-Holds :
      {s : c.State} {ws : Workspace} {claim : Result Pvc} {pod : Result Pod} (st : WorkspaceStatus)
      → Holds s ws claim pod
      → Holds (c.perform (patch_status (with_status st ws)) s) (with_status st ws) claim pod
  patch-Holds {s} {ws} st h = record {
    workspace = c.patched s req ws st h.workspace;
    claims = c.claim_kept (patch_status (with_status st ws)) s _ _ tt ∙ h.claims;
    pods = c.pod_kept (patch_status (with_status st ws)) s _ _ tt ∙ h.pods;
  }

  pub update-Holds :
      {s : c.State} {ws : Workspace} {claim : Result Pvc} {pod : Result Pod} (fs : List Text)
      → ws.deleting ≡ false
      → Holds s ws claim pod
      → Holds
          (c.perform (update_workspace (with_finalizers fs ws)) s)
          (with_finalizers fs ws)
          claim
          pod
  update-Holds {s} {ws} fs d h = record {
    workspace = c.updated s req ws fs h.workspace d;
    claims = c.claim_kept (update_workspace (with_finalizers fs ws)) s _ _ tt ∙ h.claims;
    pods = c.pod_kept (update_workspace (with_finalizers fs ws)) s _ _ tt ∙ h.pods;
  }

  -- Quiet actions in front of others.
  pub behind_quiet :
      {ws : Workspace} {claim : Result Pvc} {pod : Result Pod} (P : c.State → Type 0)
      (xs ys : List Action) (s : c.State)
      → All IsQuiet xs
      → ((t : c.State) → Holds t ws claim pod → P (perform_all c ys t))
      → Holds s ws claim pod
      → P (perform_all c (xs ++ ys) s)
  behind_quiet P xs ys s q f h =
      subst P (sym (perform_all-append xs ys s)) (f _ (quiet_actions-Holds xs q h))

  -- Behind the RBAC objects and the policies.
  pub secured_effect :
      {claim : Result Pvc} {pod : Result Pod} (k : Platform) (cfg : Config) (srv : ApiServer)
      (ws : Workspace) (out : Outcome) (P : c.State → Type 0) (s : c.State)
      → ((t : c.State) → Holds t ws claim pod → P (perform_all c out.actions t))
      → Holds s ws claim pod
      → P (perform_all c (secured k cfg srv req ws out).actions s)
  secured_effect k cfg srv ws out P s f h =
      behind_quiet P (ensure_rbac k cfg srv ws).0
        ((ensure_network_policies k cfg srv ws).0 ++ out.actions) s
        (ensure_rbac-All IsQuiet (λ o. tt) k cfg srv ws)
        (λ t g.
          behind_quiet P (ensure_network_policies k cfg srv ws).0 out.actions t
            (ensure_network_policies-All IsQuiet (λ o. tt) k cfg srv ws) f g)
        h

  -- A status report leaves the workspace with the summary applied.
  pub report_effect :
      {claim : Result Pvc} {pod : Result Pod} (k : Platform) (cfg : Config) (s t : c.State)
      (ws : Workspace) (sum : StatusSummary) (r : Requeue)
      → Holds t ws claim pod
      → Holds
          (perform_all c (report k cfg (c.server s) ws sum r).actions t)
          (apply_status_summary k ws sum)
          claim
          pod
  unfolding perform_all apply_status_summary
  report_effect {claim} {pod} k cfg s t ws sum r h =
      let (rest, e, m) = report_accepted k cfg (c.server s) (c.patches s) ws sum r in
      subst
        (λ (out : Outcome).
          Holds (perform_all c out.actions t) (apply_status_summary k ws sum) claim pod)
        (sym e)
        (quiet_actions-Holds rest (measures-IsQuiet rest m)
          (patch-Holds (apply_status_summary k ws sum).status h))

  claimed_at :
      (s : c.State) (pvc : Pvc) (ns name : Text)
      → pvc.meta.namespace ≡ ns
      → pvc.meta.name ≡ name
      → IsMissing ((c.server s).get_pvc ns name)
      → (c.server (c.perform (create_pvc pvc) s)).get_pvc ns name ≡ ok pvc
  claimed_at s pvc ns name e f =
      let after_create = c.server (c.perform (create_pvc pvc) s) in
      subst (λ n. IsMissing ((c.server s).get_pvc n name) → after_create.get_pvc n name ≡ ok pvc) e
        (subst
          (λ m.
            IsMissing ((c.server s).get_pvc pvc.meta.namespace m)
            → after_create.get_pvc pvc.meta.namespace m ≡ ok pvc)
          f (c.claimed s pvc))

  pub create_pvc-Holds :
      {s : c.State} {ws : Workspace} {claim : Result Pvc} {pod : Result Pod} (pvc : Pvc)
      → pvc.meta.namespace ≡ req.namespace
      → pvc.meta.name ≡ pvc_name ws.spec.user.id
      → IsMissing claim
      → Holds s ws claim pod
      → Holds (c.perform (create_pvc pvc) s) ws (ok pvc) pod
  create_pvc-Holds {s} {ws} pvc e f m h = record {
    workspace = c.workspace_kept (create_pvc pvc) s _ tt ∙ h.workspace;
    claims =
        claimed_at s pvc req.namespace (pvc_name ws.spec.user.id) e f
          (subst IsMissing (sym h.claims) m);
    pods = c.pod_kept (create_pvc pvc) s _ _ tt ∙ h.pods;
  }

  started_at :
      (s : c.State) (pod : Pod) (ns name : Text)
      → pod.meta.namespace ≡ ns
      → pod.meta.name ≡ name
      → IsMissing ((c.server s).get_pod ns name)
      → (c.server (c.perform (create_pod pod) s)).get_pod ns name ≡ ok pod
  started_at s pod ns name e f =
      let after_create = c.server (c.perform (create_pod pod) s) in
      subst (λ n. IsMissing ((c.server s).get_pod n name) → after_create.get_pod n name ≡ ok pod) e
        (subst
          (λ m.
            IsMissing ((c.server s).get_pod pod.meta.namespace m)
            → after_create.get_pod pod.meta.namespace m ≡ ok pod)
          f (c.started s pod))

  pub create_pod-Holds :
      {s : c.State} {ws : Workspace} {claim : Result Pvc} {missing : Result Pod} (pod : Pod)
      → pod.meta.namespace ≡ req.namespace
      → pod.meta.name ≡ pod_name ws.spec.user.id
      → IsMissing missing
      → Holds s ws claim missing
      → Holds (c.perform (create_pod pod) s) ws claim (ok pod)
  create_pod-Holds {s} {ws} pod e f m h = record {
    workspace = c.workspace_kept (create_pod pod) s _ tt ∙ h.workspace;
    claims = c.claim_kept (create_pod pod) s _ _ tt ∙ h.claims;
    pods =
        started_at s pod req.namespace (pod_name ws.spec.user.id) e f
          (subst IsMissing (sym h.pods) m);
  }
