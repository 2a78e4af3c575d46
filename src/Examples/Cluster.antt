-- ===== src/Examples/Cluster.antt =====
-- Concrete parameters: a platform, an operator, an API server, and a workspace.
use dev_plane.Base.{ℕ, true, false, none, some, [], ◌∷◌, ◌++◌, is_empty, if◌then◌else◌}
use dev_plane.Base.Int.{pos}
use dev_plane.Base.Text.{lit}
use dev_plane.Base.Result.{Error, Result, ok, fail, new_error}
use dev_plane.Api.{WorkspacePhase, WorkspaceSpec, Workspace}
use dev_plane.Platform.{Meta, Pvc, Pod, phase_running, Platform}
use dev_plane.Operator.Env.{Config, Request, ApiServer}
use dev_plane.Operator.PodStages.{workspace_finalizer}

abbrev pub platform : Platform
platform = record {
  parse_quantity = λ t. if is_empty t then some (new_error (lit "empty quantity")) else none;
  parse_duration =
      λ t. if is_empty t then fail (new_error (lit "invalid duration")) else ok (pos 5000);
  marshal_providers = λ ps. lit "[]";
  quote = λ t. b'"' ∷ (t ++ b'"' ∷ []);
  unicode_lower = λ t. t;
  set_controller_reference = λ ws meta. ok (record meta { owner = some ws.name });
  set_status_condition = λ c cs. c ∷ cs;
}

abbrev pub spec : WorkspaceSpec
spec = record {
  user = record { id = lit "jane"; email = lit "jane@example.com" };
  resources = record { cpu = lit "1"; memory = lit "2Gi"; storage = lit "10Gi" };
  ai_config = record {
    providers =
        record { name = lit "local"; endpoint = lit "http://llm"; models = lit "coder" ∷ [] } ∷ [];
    egress_namespaces = [];
    egress_ports = [];
  };
  persistence = record { storage_class = [] };
  tls = record { custom_ca_bundle = none };
  lifecycle = record { idle_timeout = [] };
}

-- Last used at time 1000.
abbrev pub workspace_in : WorkspacePhase → Workspace
workspace_in p = record {
  name = lit "jane";
  namespace = lit "dev";
  labels = [];
  generation = 1;
  deleting = false;
  finalizers = workspace_finalizer ∷ [];
  spec = spec;
  status = record {
    phase = p;
    pod_name = [];
    service_endpoint = [];
    message = [];
    remediation_hint = [];
    conditions = [];
    last_accessed = some 1000;
  };
}

abbrev pub config : Config
config = record {
  workspace_image = [];
  llm_namespaces = [];
  egress_ports = [];
  idle_timeout = pos 5000;
  gateway_namespace = lit "gateway";
  default_ca_bundle = [];
  pip_index_url = [];
  pip_trusted_host = [];
  npm_registry = [];
  recorder = false;
}

abbrev pub request : Request
request = record { namespace = lit "dev"; name = lit "jane" }

abbrev pub missing : Error
missing = record (new_error (lit "not found")) { not_found = true }

abbrev meta : Meta
meta = record { name = lit "jane"; namespace = lit "dev"; labels = []; owner = none }

abbrev pub claim : Pvc
claim = record {
  meta = meta;
  access_modes = [];
  storage = [];
  storage_class_name = none;
  lost = false;
}

-- A ready pod; without containers none of them is outdated.
abbrev pub ready_pod : Pod
ready_pod = record {
  meta = meta;
  deleting = false;
  spec = record {
    service_account = [];
    security = record {
      run_as_non_root = true;
      run_as_user = 1000;
      fs_group = 1000;
      fs_group_change_policy = [];
      seccomp = [];
    };
    containers = [];
    volumes = [];
  };
  status = record {
    phase = phase_running;
    reason = [];
    message = [];
    conditions = record { kind = lit "Ready"; status = true } ∷ [];
    container_statuses = [];
  };
}

-- The server accepts all requests; it holds the workspace, the claim and what `pod` says, at a time.
abbrev pub server : Workspace → Result Pod → ℕ → ApiServer
server ws pod time = record {
  get_workspace = λ req. ok ws;
  update = λ w. ok w;
  patch_status = λ w. ok w;
  get_pvc = λ ns name. ok claim;
  create_pvc = λ pvc. none;
  get_pod = λ ns name. pod;
  create_pod = λ p. none;
  delete_pod = λ p. none;
  create_or_update = λ o. none;
  seed_time = time;
  now = time;
}
