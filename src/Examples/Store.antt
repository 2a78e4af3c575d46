-- ===== src/Examples/Store.antt =====
-- A cluster as a store: a workspace, claims and pods by namespace and name, and a clock.
use dev_plane.Base.{ℕ, none, ◌≡◌, refl, ap, ◌&&◌, if◌then◌else◌}
use dev_plane.Base.Text.{Text, text_eq, text_eq_iff}
use dev_plane.Base.Result.{Result, ok, fail}
use dev_plane.Api.{Workspace}
use dev_plane.Platform.{Pvc, Pod}
use dev_plane.Operator.Env.{
  ApiServer, Action, update_workspace, patch_status, create_pvc, create_pod, delete_pod, apply,
  count_patch_failure, count_transition, emit_event, log_transition,
}
use dev_plane.Operator.Cluster.{Cluster, KeepsWorkspace, KeepsClaim, KeepsPod}
use dev_plane.Examples.Cluster.{missing}

pub record Stored : Type 0 where
  pub workspace : Result Workspace
  pub claims : Text → Text → Result Pvc
  pub pods : Text → Text → Result Pod
  pub time : ℕ

-- A map with one key set.
abbrev pub set_key {ℓ} : {A : Type ℓ} → Text → Text → A → (Text → Text → A) → Text → Text → A
set_key ns name a f ns' name' =
    let old = f ns' name' in if text_eq ns' ns && text_eq name' name then a else old

pub set_key_same {ℓ} :
    {A : Type ℓ} (ns name : Text) (a : A) (f : Text → Text → A) → set_key ns name a f ns name ≡ a
set_key_same ns name a f =
    let e = (text_eq_iff ns ns).1 refl in let n = (text_eq_iff name name).1 refl in rw (e, n) refl

-- A write to a workspace that is not there changes nothing.
abbrev pub put : Workspace → Result Workspace → Result Workspace
put w (ok old) = ok w
put w (fail err) = fail err

abbrev pub perform_on : Action → Stored → Stored
perform_on (update_workspace w) s = record s { workspace = put w s.workspace }
perform_on (patch_status w) s = record s { workspace = put w s.workspace }
perform_on (create_pvc pvc) s = record s {
  claims = set_key pvc.meta.namespace pvc.meta.name (ok pvc) s.claims;
}
perform_on (create_pod pod) s = record s {
  pods = set_key pod.meta.namespace pod.meta.name (ok pod) s.pods;
}
perform_on (delete_pod pod) s = record s {
  pods = set_key pod.meta.namespace pod.meta.name (fail missing) s.pods;
}
perform_on (apply o) s = s
perform_on count_patch_failure s = s
perform_on (count_transition a b) s = s
perform_on (emit_event r m) s = s
perform_on (log_transition l) s = s

abbrev pub answers_of : Stored → ApiServer
answers_of s = record {
  get_workspace = λ req. s.workspace;
  update = λ w. ok w;
  patch_status = λ w. ok w;
  get_pvc = s.claims;
  create_pvc = λ pvc. none;
  get_pod = s.pods;
  create_pod = λ p. none;
  delete_pod = λ p. none;
  create_or_update = λ o. none;
  seed_time = s.time;
  now = s.time;
}

pub put_there : (w ws : Workspace) (r : Result Workspace) → r ≡ ok ws → put w r ≡ ok w
put_there w ws (ok old) e = refl
put_there w ws (fail err) e = cc

pub keeps_workspace :
    (a : Action) (s : Stored) → KeepsWorkspace a → (perform_on a s).workspace ≡ s.workspace
keeps_workspace (update_workspace w) s h = elim h [ ]
keeps_workspace (patch_status w) s h = elim h [ ]
keeps_workspace (create_pvc p) s h = refl
keeps_workspace (create_pod p) s h = refl
keeps_workspace (delete_pod p) s h = refl
keeps_workspace (apply o) s h = refl
keeps_workspace count_patch_failure s h = refl
keeps_workspace (count_transition a b) s h = refl
keeps_workspace (emit_event r m) s h = refl
keeps_workspace (log_transition l) s h = refl

pub keeps_claims : (a : Action) (s : Stored) → KeepsClaim a → (perform_on a s).claims ≡ s.claims
keeps_claims (create_pvc p) s h = elim h [ ]
keeps_claims (update_workspace w) s h = refl
keeps_claims (patch_status w) s h = refl
keeps_claims (create_pod p) s h = refl
keeps_claims (delete_pod p) s h = refl
keeps_claims (apply o) s h = refl
keeps_claims count_patch_failure s h = refl
keeps_claims (count_transition a b) s h = refl
keeps_claims (emit_event r m) s h = refl
keeps_claims (log_transition l) s h = refl

pub keeps_pods : (a : Action) (s : Stored) → KeepsPod a → (perform_on a s).pods ≡ s.pods
keeps_pods (create_pod p) s h = elim h [ ]
keeps_pods (delete_pod p) s h = elim h [ ]
keeps_pods (update_workspace w) s h = refl
keeps_pods (patch_status w) s h = refl
keeps_pods (create_pvc p) s h = refl
keeps_pods (apply o) s h = refl
keeps_pods count_patch_failure s h = refl
keeps_pods (count_transition a b) s h = refl
keeps_pods (emit_event r m) s h = refl
keeps_pods (log_transition l) s h = refl

abbrev pub stored_cluster : Cluster
stored_cluster = record {
  State = Stored;
  server = answers_of;
  perform = perform_on;
  updates = λ s w. refl;
  patches = λ s w. refl;
  applies = λ s o. refl;
  claims = λ s pvc. refl;
  starts = λ s pod. refl;
  deletes = λ s pod. refl;
  updated = λ s r ws fs e d. put_there _ ws s.workspace e;
  patched = λ s r ws st e. put_there _ ws s.workspace e;
  claimed = λ s pvc m. set_key_same pvc.meta.namespace pvc.meta.name (ok pvc) s.claims;
  started = λ s pod m. set_key_same pod.meta.namespace pod.meta.name (ok pod) s.pods;
  workspace_kept = λ a s r h. keeps_workspace a s h;
  claim_kept = λ a s ns name h. ap (λ f. f ns name) (keeps_claims a s h);
  pod_kept = λ a s ns name h. ap (λ f. f ns name) (keeps_pods a s h);
}
