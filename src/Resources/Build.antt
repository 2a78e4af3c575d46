-- ===== src/Resources/Build.antt =====
-- The builders of pkg/workspace/resources.go.
pub mod Pods
use dev_plane.Base.{
  ℕ, Bool, true, false, Option, none, some, List, [], ◌∷◌, ◌++◌, is_empty, if◌then◌else◌,
}
use dev_plane.Base.Text.{Text, lit}
use dev_plane.Base.Result.{Error, Result, ok, fail, wrap, ◌>>=◌}
use dev_plane.Api.{Workspace, CaBundleRef}
use dev_plane.Platform.{
  Meta, Pvc, EnvVar, VolumeMount, VolumeSource, claim, empty_dir, config_map, Volume, tcp,
  NamedPort, Container, PodSpec, phase_unset, Pod, Service, Platform,
}
use dev_plane.Resources.Names.{
  pvc_name, pod_name, service_name, service_account_name, labels, ttyd_port,
}

-- `if err != nil { return fmt.Errorf("<context>: %w", err) }` after a call that returns an error
abbrev pub check : Text → Option Error → Result (Unit {0})
check context none = ok tt
check context (some err) = fail (wrap context err)

abbrev pub in_context {ℓ} : {A : Type ℓ} → Text → Result A → Result A
in_context context (ok a) = ok a
in_context context (fail err) = fail (wrap context err)

-- The operator-level defaults that every workspace pod gets.
pub record BuildOpts : Type 0 where
  pub default_ca_bundle : Text
  pub pip_index_url : Text
  pub pip_trusted_host : Text
  pub npm_registry : Text

-- The metadata of an object before its owner is set.
abbrev pub object_meta : Text → Workspace → Meta
object_meta name workspace = record {
  name = name;
  namespace = workspace.namespace;
  labels = labels workspace.spec.user.id;
  owner = none;
}

infixl 5 ◌>>◌
abbrev pub ◌>>◌ {ℓ} : {B : Type ℓ} → Result (Unit {0}) → Result B → Result B
m >> k = m >>= λ _. k

module _ (k : Platform) where
  unfoldable pub build_pvc : Workspace → Result Pvc
  build_pvc workspace = do
    check (lit "parse storage quantity " ++ k.quote workspace.spec.resources.storage)
        (k.parse_quantity workspace.spec.resources.storage)
    meta ← in_context (lit "set PVC owner reference") (
        k.set_controller_reference workspace
          (object_meta (pvc_name workspace.spec.user.id) workspace))
    ok (record {
      meta = meta;
      access_modes = lit "ReadWriteOnce" ∷ [];
      storage = workspace.spec.resources.storage;
      storage_class_name =
          if is_empty workspace.spec.persistence.storage_class
          then none
          else some workspace.spec.persistence.storage_class;
      lost = false;
    })

  unfoldable pub build_env_vars : Workspace → List EnvVar
  build_env_vars workspace =
      record {
        name = lit "AI_PROVIDERS_JSON";
        value = k.marshal_providers workspace.spec.ai_config.providers;
      }
      ∷ record { name = lit "USER_EMAIL"; value = workspace.spec.user.email }
      ∷ record { name = lit "USER_ID"; value = workspace.spec.user.id }
      ∷ []

  -- The container of the pod literal, before the optional CA bundle and mirrors.
  workspace_container : Workspace → Text → Container
  workspace_container workspace image = record {
    name = lit "workspace";
    image = image;
    security = record {
      read_only_root_filesystem = true;
      allow_privilege_escalation = false;
      drop = lit "ALL" ∷ [];
    };
    requests =
        (lit "cpu", workspace.spec.resources.cpu)
        ∷ (lit "memory", workspace.spec.resources.memory)
        ∷ [];
    limits =
        (lit "cpu", workspace.spec.resources.cpu)
        ∷ (lit "memory", workspace.spec.resources.memory)
        ∷ [];
    ports = record { name = lit "ttyd"; port = ttyd_port; protocol = tcp } ∷ [];
    readiness = record { port = ttyd_port; initial_delay_seconds = 5; period_seconds = 5 };
    volume_mounts =
        record { name = lit "workspace-data"; mount_path = lit "/workspace"; read_only = false }
        ∷ record { name = lit "tmp"; mount_path = lit "/tmp"; read_only = false }
        ∷ [];
    env = build_env_vars workspace;
  }

-- The ConfigMap to mount: the workspace's own, else the operator's; empty for none.
pub ca_config_map : Option CaBundleRef → BuildOpts → Text
ca_config_map none opts = opts.default_ca_bundle
ca_config_map (some bundle) opts =
    if is_empty bundle.name then opts.default_ca_bundle else bundle.name

-- `if caConfigMap != "" { append the volume }`
ca_volumes : Text → List Volume
ca_volumes name =
    if is_empty name
    then []
    else record { name = lit "custom-ca-certs"; source = config_map name } ∷ []

ca_mounts : Text → List VolumeMount
ca_mounts name =
    if is_empty name
    then []
    else record {
      name = lit "custom-ca-certs";
      mount_path = lit "/etc/ssl/certs/custom";
      read_only = true;
    }
      ∷ []

-- `if value != "" { append the variable }`
env_if : Text → Text → Text → List EnvVar
env_if name test value = if is_empty test then [] else record { name = name; value = value } ∷ []

-- The variables that the CA bundle and the package mirrors append, in the source's order.
extra_env : Text → BuildOpts → List EnvVar
unfolding env_if
extra_env ca opts =
    env_if (lit "CUSTOM_CA_MOUNTED") ca (lit "true")
    ++ (env_if (lit "PIP_INDEX_URL") opts.pip_index_url opts.pip_index_url
        ++ (env_if (lit "PIP_TRUSTED_HOST") opts.pip_trusted_host opts.pip_trusted_host
            ++ env_if (lit "npm_config_registry") opts.npm_registry opts.npm_registry))

module _ (k : Platform) where
  -- The pod spec: the literal, then what the options append.
  unfoldable pub pod_spec : Workspace → Text → Text → BuildOpts → PodSpec
  unfolding workspace_container ca_config_map ca_volumes ca_mounts extra_env build_env_vars
  pod_spec workspace pvc image opts =
      let ca = ca_config_map workspace.spec.tls.custom_ca_bundle opts in
      let base = workspace_container k workspace image in
      record {
        service_account = service_account_name workspace.spec.user.id;
        security = record {
          run_as_non_root = true;
          run_as_user = 1000;
          fs_group = 1000;
          fs_group_change_policy = lit "OnRootMismatch";
          seccomp = lit "RuntimeDefault";
        };
        containers =
            record base {
              volume_mounts = base.volume_mounts ++ ca_mounts ca;
              env = base.env ++ extra_env ca opts;
            }
            ∷ [];
        volumes =
            record { name = lit "workspace-data"; source = claim pvc }
            ∷ record { name = lit "tmp"; source = empty_dir }
            ∷ ca_volumes ca;
      }

  unfoldable pub build_pod : Workspace → Text → Text → BuildOpts → Result Pod
  unfolding pod_spec
  build_pod workspace pvc image opts = do
    check (lit "parse CPU quantity " ++ k.quote workspace.spec.resources.cpu)
        (k.parse_quantity workspace.spec.resources.cpu)
    check (lit "parse memory quantity " ++ k.quote workspace.spec.resources.memory)
        (k.parse_quantity workspace.spec.resources.memory)
    meta ← in_context (lit "set Pod owner reference") (
        k.set_controller_reference workspace
          (object_meta (pod_name workspace.spec.user.id) workspace))
    ok (record {
      meta = meta;
      deleting = false;
      spec = pod_spec workspace pvc image opts;
      status = record {
        phase = phase_unset;
        reason = [];
        message = [];
        conditions = [];
        container_statuses = [];
      };
    })

  unfoldable pub build_headless_service : Workspace → Result Service
  build_headless_service workspace = do
    meta ← in_context (lit "set Service owner reference") (
        k.set_controller_reference workspace
          (object_meta (service_name workspace.spec.user.id) workspace))
    ok (record {
      meta = meta;
      headless = true;
      selector = labels workspace.spec.user.id;
      ports = record { name = lit "ttyd"; port = ttyd_port; protocol = tcp } ∷ [];
    })
