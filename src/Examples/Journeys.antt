-- ===== src/Examples/Journeys.antt =====
-- A workspace on its way through a cluster: created, provided, running, stopped and started again.
use dev_plane.Base.{[], ◌∷◌, ◌≡◌, refl, inl, inr, arith}
use dev_plane.Base.Text.{lit, text_eq, trim_space, to_lower}
use dev_plane.Base.Result.{Result, ok, fail}
use dev_plane.Api.{Workspace, creating, stopped, phase_eq}
use dev_plane.Platform.{Pvc, Pod, IsOwning}
use dev_plane.Resources.Names.{dns_label}
use dev_plane.Resources.Validate.{validate_spec}
use dev_plane.Operator.Env.{Request, patch_status}
use dev_plane.Operator.Helpers.{effective_idle_timeout, is_pod_ready}
use dev_plane.Operator.PodStages.{contains_finalizer, is_outdated, is_running_and_ready}
use dev_plane.Operator.Cluster.{Run, done, call, reconciled}
use dev_plane.Operator.Cluster.Stages.{IsRegistered, IsProvided, IsRun}
use dev_plane.Operator.Cluster.Serving.{IsSettled}
use dev_plane.Operator.Cluster.Progress.{calls-IsSettled}
use dev_plane.Operator.Cluster.Runs.{IsRunning, call-IsRunning}
use dev_plane.Gateway.UserId.{sanitize_user_id}
use dev_plane.Gateway.Lifecycle.{create, patch, new_workspace, restarted_copy, ensure_exists}
use dev_plane.Gateway.Lifecycle.Creates.{claims_of, IsUsable}
use dev_plane.Gateway.Lifecycle.Provides.{user_request, created_settles, restart_provides}
use dev_plane.Examples.Cluster.{platform, workspace_in, config, request, missing, claim, ready_pod}
use dev_plane.Examples.Connections.{defaults, holding, jane_has_id}
use dev_plane.Examples.Store.{Stored, stored_cluster}

platform-IsOwning : IsOwning platform
platform-IsOwning ws m e = refl

-- A store that holds a workspace, and what is said of its claim and its pod.
abbrev with_workspace : Workspace → Result Pvc → Result Pod → Stored
with_workspace ws pvc pod = record {
  workspace = ok ws;
  claims = λ ns name. pvc;
  pods = λ ns name. pod;
  time = 2000;
}

abbrev bare_workspace : Workspace
bare_workspace = record (workspace_in creating) { finalizers = [] }

abbrev bare : Stored
bare = with_workspace bare_workspace (fail missing) (fail missing)

bare-IsRegistered : IsRegistered stored_cluster platform config request bare
unfolding validate_spec dns_label trim_space contains_finalizer phase_eq text_eq lit
bare-IsRegistered = record {
  ws = bare_workspace;
  claim = fail missing;
  pod = fail missing;
  holds = record { workspace = refl; claims = refl; pods = refl };
  wanted = record { kept = refl; valid = refl; live = refl; placed = refl };
  bare = refl;
  unclaimed = (missing, refl, refl);
  unstarted = (missing, refl, refl);
}

-- Three calls and nothing in between.
abbrev call_once : Request → Stored → Stored
call_once req s = reconciled stored_cluster platform config req s

three_calls :
    (req : Request) (s : Stored)
    → Run stored_cluster platform config req 3 s (call_once req (call_once req (call_once req s)))
three_calls req s = call (call (call (done _)))

calls-IsSettled_example :
    IsSettled stored_cluster platform config request
      (call_once request (call_once request (call_once request bare)))
calls-IsSettled_example =
    calls-IsSettled stored_cluster platform config request platform-IsOwning bare-IsRegistered
      (three_calls request bare) (omega arith)

abbrev provided : Stored
provided = with_workspace (workspace_in creating) (ok claim) (ok ready_pod)

provided-IsProvided : IsProvided stored_cluster platform config request provided
unfolding validate_spec dns_label trim_space contains_finalizer phase_eq text_eq lit is_outdated
provided-IsProvided = record {
  ws = workspace_in creating;
  pvc = claim;
  pod = ready_pod;
  holds = record { workspace = refl; claims = refl; pods = refl };
  wanted = record { kept = refl; valid = refl; live = refl; placed = refl };
  finalizer = refl;
  usable = refl;
  current = refl;
}

-- Last used at time 1000, and looked at at 2000.
call-IsRunning_example :
    IsRunning stored_cluster platform config request
      (lit "jane")
      ready_pod
      (call_once request provided)
unfolding provided-IsProvided effective_idle_timeout is_running_and_ready is_pod_ready trim_space
    text_eq lit
call-IsRunning_example =
    call-IsRunning stored_cluster platform config request provided platform-IsOwning
      provided-IsProvided refl
      (inr (5000, 1000, record { enabled = refl; seen = inl refl; recent = omega arith }))

abbrev jane_key : Request
jane_key = user_request platform (lit "dev") (lit "jane")

abbrev jane_workspace : Workspace
jane_workspace =
    new_workspace platform defaults (lit "dev")
      (claims_of platform (lit "jane") (lit "jane@example.com"))

abbrev created_store : Stored
created_store = with_workspace jane_workspace (fail missing) (fail missing)

defaults-IsUsable : IsUsable platform defaults
unfolding lit
defaults-IsUsable = record {
  cpu = ((λ e. cc), refl);
  memory = ((λ e. cc), refl);
  storage = ((λ e. cc), refl);
  some_provider = λ e. cc;
  providers = (record { named = λ e. cc; reachable = λ e. cc; serving = λ e. cc }, tt);
}

created_settles_example :
    ((ensure_exists platform defaults
        (holding (fail missing))
        (lit "dev")
        (claims_of platform (lit "jane") (lit "jane@example.com"))).writes
      ≡ create jane_workspace ∷ [])
    × IsSettled stored_cluster platform config jane_key
        (call_once jane_key (call_once jane_key (call_once jane_key created_store)))
unfolding lit
created_settles_example =
    created_settles stored_cluster platform defaults (holding (fail missing)) (lit "dev")
      (lit "jane") (lit "jane@example.com") missing config (fail missing) (fail missing)
      platform-IsOwning jane_has_id (λ e. cc) defaults-IsUsable refl refl
      (record { workspace = refl; claims = refl; pods = refl }) (missing, refl, refl)
      (missing, refl, refl) (three_calls jane_key created_store) (omega arith)

abbrev stopped_store : Stored
stopped_store = with_workspace (workspace_in stopped) (ok claim) (fail missing)

restart_provides_example :
    ((ensure_exists platform defaults
        (holding (ok (workspace_in stopped)))
        (lit "dev")
        (claims_of platform (lit "jane") (lit "jane@example.com"))).writes
      ≡ patch (restarted_copy (workspace_in stopped)) ∷ [])
    × IsRun stored_cluster platform config jane_key (
        reconciled stored_cluster platform config jane_key (
          stored_cluster.perform
            (patch_status (restarted_copy (workspace_in stopped)))
            stopped_store))
unfolding validate_spec dns_label trim_space contains_finalizer phase_eq text_eq lit
    sanitize_user_id to_lower
restart_provides_example =
    restart_provides stored_cluster platform defaults (holding (ok (workspace_in stopped)))
      (lit "dev") (lit "jane") (lit "jane@example.com") config stopped_store (workspace_in stopped)
      claim (fail missing) platform-IsOwning refl
      (record { workspace = refl; claims = refl; pods = refl }) refl refl refl refl refl refl
      (missing, refl, refl)
