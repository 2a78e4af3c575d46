-- ===== src/Examples/Connections.antt =====
-- Calls of the gateway's lifecycle manager.
use dev_plane.Base.{
  false, ltb, if◌then◌else◌, ℕ, ◌*◌, none, some, [], ◌∷◌, ◌≡◌, ◌≢◌, ◌↔◌, refl, arith,
}
use dev_plane.Base.Text.{lit, to_lower, text_eq, trim_space}
use dev_plane.Base.Result.{Result, ok, fail, OnOk}
use dev_plane.Api.{Workspace, running, stopped, unset, phase_eq}
use dev_plane.Operator.Env.{ApiServer, no_requeue, delete_pod}
use dev_plane.Operator.Helpers.{effective_idle_timeout}
use dev_plane.Resources.Names.{dns_label}
use dev_plane.Resources.Validate.{validate_spec}
use dev_plane.Security.Netpol.{
  build_deny_all_network_policy, build_egress_network_policy,
  build_ingress_from_gateway_network_policy,
}
use dev_plane.Security.Rbac.{build_role}
use dev_plane.Operator.Ensure.{ensure_rbac, ensure_network_policies}
use dev_plane.Operator.PodStages.{contains_finalizer, is_outdated, is_running_and_ready}
use dev_plane.Operator.Reconcile.{reconcile}
use dev_plane.Operator.Reconcile.Permitted.{IsActive}
use dev_plane.Operator.Reconcile.Reported.{IsReported}
use dev_plane.Operator.Reconcile.Idle.{IsServed, IsTimed}
use dev_plane.Gateway.UserId.{sanitize_user_id}
use dev_plane.Gateway.Lifecycle.{
  Poll, Server, Claims, LifecycleConfig, create, patch, Waited, restarted_copy, ready_poll,
  ready_rounds, new_workspace, ensure_exists, wait_for_running,
}
use dev_plane.Gateway.Lifecycle.Waits.{IsPaced, IsSeenRunning, wait_for_running_ends}
use dev_plane.Gateway.Lifecycle.Creates.{IsUsable, claims_of, ensure_exists_created}
use dev_plane.Gateway.Lifecycle.Restarts.{IsCleared, restart_undone}
use dev_plane.Examples.Cluster.{
  platform, spec, workspace_in, config, request, missing, claim, ready_pod, server,
}

abbrev pub defaults : LifecycleConfig
defaults = record {
  providers = spec.ai_config.providers;
  default_cpu = lit "1";
  default_memory = lit "2Gi";
  default_storage = lit "10Gi";
  storage_class = [];
}

-- The server accepts all writes; what it holds is given.
abbrev pub holding : Result Workspace → Server
holding ws = record { get = λ ns name. ws; create = λ w. ok w; patch = λ w. ok w; now = 9000 }

-- Rounds two seconds apart; the workspace runs from round 2 on.
abbrev polls : ℕ → Poll
polls i = record {
  elapsed = 2000000000 * i;
  get = if ltb i 2 then ok (workspace_in unset) else ok (workspace_in running);
  patch = λ w. ok w;
  done = none;
}

polls-IsPaced : IsPaced polls
unfolding ready_poll
polls-IsPaced i = omega arith

wait_for_running_ends_example :
    (w : Waited) × (wait_for_running platform defaults ready_rounds polls 0 (lit "jane") ≡ some w)
    × OnOk (IsSeenRunning polls) w.workspace
wait_for_running_ends_example =
    wait_for_running_ends platform defaults polls (lit "jane") polls-IsPaced

abbrev jane : Claims
jane = claims_of platform (lit "jane") (lit "jane@example.com")

pub jane_has_id : sanitize_user_id platform.unicode_lower (lit "jane") ≢ []
unfolding sanitize_user_id to_lower lit
jane_has_id e = cc

ensure_exists_created_example :
    ((ensure_exists platform defaults (holding (fail missing)) (lit "dev") jane).writes
      ≡ create (new_workspace platform defaults (lit "dev") jane) ∷ [])
    × ((validate_spec platform (new_workspace platform defaults (lit "dev") jane).spec ≡ none)
        ↔ ((lit "jane@example.com" ≢ []) × IsUsable platform defaults))
ensure_exists_created_example =
    ensure_exists_created platform defaults (holding (fail missing)) (lit "dev") (lit "jane")
      (lit "jane@example.com") missing jane_has_id refl refl

abbrev idle : Workspace
idle = workspace_in stopped

-- The operator reads the copy that the gateway wrote.
abbrev later : ApiServer
later = server (restarted_copy idle) (ok ready_pod) 9000

copy-IsActive : IsActive platform config later request (restarted_copy idle)
unfolding restarted_copy validate_spec dns_label trim_space contains_finalizer phase_eq text_eq lit
copy-IsActive = record { kept = refl; valid = refl; finalizer = refl; live = refl }

copy-IsServed : IsServed platform config later request (restarted_copy idle) ready_pod
unfolding ensure_rbac ensure_network_policies build_role build_deny_all_network_policy
    build_egress_network_policy build_ingress_from_gateway_network_policy is_outdated
copy-IsServed = record {
  read = refl;
  active = copy-IsActive;
  rbac = refl;
  policies = refl;
  pvc = claim;
  claimed = refl;
  usable = refl;
  found = refl;
  current = refl;
  service = refl;
}

idle-IsTimed : IsTimed platform config later request idle ready_pod 5000 1000
unfolding is_running_and_ready effective_idle_timeout trim_space text_eq lit
idle-IsTimed = record { ready = refl; enabled = refl; on = omega arith; seen = refl }

restart_undone_example :
    ((ensure_exists platform defaults (holding (ok idle)) (lit "dev") jane).writes
      ≡ patch (restarted_copy idle) ∷ [])
    × IsCleared idle (restarted_copy idle)
    × IsReported platform config later
        (restarted_copy idle)
        (delete_pod ready_pod ∷ [])
        stopped
        []
        []
        (lit "Workspace stopped due to inactivity")
        false
        no_requeue
        (reconcile platform config later request)
unfolding phase_eq
restart_undone_example =
    restart_undone platform defaults (holding (ok idle)) (lit "dev") jane config later request idle
      ready_pod 5000 1000 refl refl idle-IsTimed copy-IsServed (omega arith) (omega arith) refl
