-- ===== src/Examples/Specs.antt =====
-- Names and specs.
use dev_plane.Base.{true, false, none, some, [], ◌∷◌, ◌++◌, ◌≡◌, refl, ◌↔◌, ◌⊎◌, ◌≤◌, length}
use dev_plane.Base.Text.{lit}
use dev_plane.Resources.Names.{dns_label, pod_name}
use dev_plane.Resources.Validate.{validate_spec}
use dev_plane.Resources.Validate.Accepts.{IsValidSpec, validate_spec_iff}
use dev_plane.Base.Text.{text_eq_refl}
use dev_plane.Api.{Workspace, running}
use dev_plane.Platform.{Pod, phase_unset}
use dev_plane.Resources.Build.{BuildOpts, pod_spec, build_pod, object_meta}
use dev_plane.Resources.Build.Pods.{IsRestricted, build_pod-IsRestricted}
use dev_plane.Status.{StatusSummary}
use dev_plane.Status.Ready.{SetsConditions}
use dev_plane.Gateway.UserId.{sanitize_user_id}
use dev_plane.Gateway.UserId.Label.{sanitize_user_id-label}
use dev_plane.Gateway.UserId.Shared.{sanitize_user_id_shared}
use dev_plane.Examples.Cluster.{platform, spec, workspace_in}

validate_spec_iff_example : (validate_spec platform spec ≡ none) ↔ IsValidSpec platform spec
validate_spec_iff_example = validate_spec_iff platform spec

sanitize_user_id-label_example :
    ((sanitize_user_id (λ s. s) (lit "8f3__A.") ≡ [])
      ⊎ (dns_label (sanitize_user_id (λ s. s) (lit "8f3__A.")) ≡ true))
    × (length (sanitize_user_id (λ s. s) (lit "8f3__A.")) ≤ 49)
sanitize_user_id-label_example = sanitize_user_id-label (λ s. s) (lit "8f3__A.")

sanitize_user_id_shared_example :
    sanitize_user_id (λ s. s) (lit "auth0" ++ b'|' ∷ lit "jane")
    ≡ sanitize_user_id (λ s. s) (lit "auth0" ++ b'.' ∷ lit "jane")
unfolding lit
sanitize_user_id_shared_example =
    sanitize_user_id_shared (λ s. s) (lit "auth0") (lit "jane") refl refl b'|' b'.' (refl, refl)
      (refl, refl)

abbrev jane : Workspace
jane = workspace_in running

abbrev opts : BuildOpts
opts = record {
  default_ca_bundle = lit "corporate-ca";
  pip_index_url = [];
  pip_trusted_host = [];
  npm_registry = [];
}

abbrev jane_pod : Pod
jane_pod = record {
  meta = record (object_meta (pod_name (lit "jane")) jane) { owner = some (lit "jane") };
  deleting = false;
  spec = pod_spec platform jane (lit "jane-workspace-pvc") (lit "workspace:1") opts;
  status = record {
    phase = phase_unset;
    reason = [];
    message = [];
    conditions = [];
    container_statuses = [];
  };
}

build_pod-IsRestricted_example : IsRestricted jane_pod.spec
unfolding build_pod lit
build_pod-IsRestricted_example =
    build_pod-IsRestricted platform jane (lit "jane-workspace-pvc") (lit "workspace:1") opts
      jane_pod refl

platform-SetsConditions : SetsConditions platform.set_status_condition
platform-SetsConditions c cs = rw (text_eq_refl c.kind) refl

abbrev summary : StatusSummary
summary = record {
  phase = running;
  pod_name = lit "jane-workspace-pod";
  service_endpoint = [];
  message = [];
  message_override = [];
  remediation_hint = [];
  ready_reason = [];
}
