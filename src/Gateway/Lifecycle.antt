-- ===== src/Gateway/Lifecycle.antt =====
-- The LifecycleManager of pkg/gateway/lifecycle.go: it gets or creates a user's workspace and starts
-- a stopped one again. A call returns what it wrote and what it answers.
pub mod Waits
pub mod Restarts
pub mod Creates
pub mod Connects
pub mod Named
pub mod Provides
use mathlib.Core.Option
use dev_plane.Base.{
  ℕ, zero, suc, ◌*◌, Bool, true, false, Option, none, some, List, [], ◌∷◌, ◌++◌, ltb, if◌then◌else◌,
  ◌||◌,
}
use dev_plane.Base.Text.{Text, lit}
use dev_plane.Base.Result.{Error, Result, ok, fail, new_error, wrap}
use dev_plane.Api.{
  AiProvider, WorkspacePhase, WorkspaceStatus, Workspace, unset, pending, creating, running, failed,
  stopped, other, phase_eq,
}
use dev_plane.Platform.{Platform}
use dev_plane.Resources.Names.{labels}

-- Claims (pkg/gateway/auth.go)
pub record Claims : Type 0 where
  pub sub : Text
  pub email : Text
  pub user_id : Text

pub record LifecycleConfig : Type 0 where
  pub providers : List AiProvider
  pub default_cpu : Text
  pub default_memory : Text
  pub default_storage : Text
  pub storage_class : Text

-- A request that changes a workspace.
pub data Write : Type 0 where
  create : Workspace → Write
  patch : Workspace → Write

-- A returned workspace or error, with EnsureDetails in front.
pub record Ensured : Type 0 where
  pub writes : List Write
  pub created : Bool
  pub restarted_from_stopped : Bool
  pub workspace : Result Workspace

-- The API server's answers during one call. Create and Patch decode the server's copy into the
-- object; `now` is what metav1.Now returns.
pub record Server : Type 0 where
  pub get : (namespace name : Text) → Result Workspace
  pub create : Workspace → Result Workspace
  pub patch : Workspace → Result Workspace
  pub now : ℕ

-- A round of waitForRunning: the nanoseconds since the call, what the server answers, and the
-- context's error if it ends before the next round.
pub record Poll : Type 0 where
  pub elapsed : ℕ
  pub get : Result Workspace
  pub patch : Workspace → Result Workspace
  pub done : Option Error

-- The status that re-triggers the operator.
unfoldable pub restarted_copy : Workspace → Workspace
restarted_copy ws = record ws {
  status = record ws.status { phase = unset; message = []; pod_name = [] };
}

-- The workspace with the time of its last access.
unfoldable pub accessed_at : ℕ → Workspace → Workspace
accessed_at now ws = record ws { status = record ws.status { last_accessed = some now } }

unfoldable pub ready_timeout : ℕ
ready_timeout = 60 * 1000000000

unfoldable pub ready_poll : ℕ
ready_poll = 2 * 1000000000

-- Rounds of two seconds at least in a minute: no more than thirty begin, and one finds the end.
abbrev pub ready_rounds : ℕ
ready_rounds = 31

abbrev empty_status : WorkspaceStatus
empty_status = record {
  phase = unset;
  pod_name = [];
  service_endpoint = [];
  message = [];
  remediation_hint = [];
  conditions = [];
  last_accessed = none;
}

-- How a round ends: with what the call returns, or after the pause.
pub data Pass : Type 0 where
  returned : Result Workspace → Pass
  paused : Pass

-- What waitForRunning leaves behind.
pub record Waited : Type 0 where
  pub writes : List Write
  pub restarted_from_stopped : Bool
  pub workspace : Result Workspace

module _ (k : Platform) (cfg : LifecycleConfig) where
  -- The resource that both entry points create.
  unfoldable pub new_workspace : Text → Claims → Workspace
  new_workspace ns claims = record {
    name = claims.user_id;
    namespace = ns;
    labels = labels claims.user_id;
    generation = 0;
    deleting = false;
    finalizers = [];
    spec = record {
      user = record { id = claims.user_id; email = claims.email };
      resources = record {
        cpu = cfg.default_cpu;
        memory = cfg.default_memory;
        storage = cfg.default_storage;
      };
      ai_config = record { providers = cfg.providers; egress_namespaces = []; egress_ports = [] };
      persistence = record { storage_class = cfg.storage_class };
      tls = record { custom_ca_bundle = none };
      lifecycle = record { idle_timeout = [] };
    };
    status = empty_status;
  }

  -- fmt.Errorf("<verb> workspace %q: %w", name, err)
  abbrev pub workspace_error : Text → Text → Error → Error
  workspace_error verb name err = wrap (verb ++ lit " workspace " ++ k.quote name) err

  module _ (srv : Server) where
    create_workspace : Text → Claims → Ensured
    create_workspace ns claims =
        let ws = new_workspace ns claims in
        record {
          writes = create ws ∷ [];
          created = true;
          restarted_from_stopped = false;
          workspace = elim (srv.create ws) [
            | ok w ↦ ok w
            | fail err ↦ fail (workspace_error (lit "create") claims.user_id err)
          ];
        }

    restart_stopped : Workspace → Text → Ensured
    unfolding restarted_copy
    restart_stopped ws name = record {
      writes = patch (restarted_copy ws) ∷ [];
      created = false;
      restarted_from_stopped = true;
      workspace = elim (srv.patch (restarted_copy ws)) [
        | ok w ↦ ok w
        | fail err ↦ fail (workspace_error (lit "restart stopped") name err)
      ];
    }

    -- A call that wrote nothing.
    abbrev untouched : Result Workspace → Ensured
    untouched r = record {
      writes = [];
      created = false;
      restarted_from_stopped = false;
      workspace = r;
    }

    unfoldable pub ensure_exists : Text → Claims → Ensured
    unfolding create_workspace restart_stopped
    ensure_exists ns claims = elim (srv.get ns claims.user_id) [
      | ok ws ↦
          if phase_eq ws.status.phase stopped
          then restart_stopped ws claims.user_id
          else untouched (ok ws)
      | fail err ↦
          if err.not_found
          then create_workspace ns claims
          else untouched (fail (workspace_error (lit "get") claims.user_id err))
    ]

    -- TouchLastAccessed, and the last step of EnsureWorkspace: the outcome of the patch is only logged.
    unfoldable pub touch_last_accessed : Workspace → Write
    unfolding accessed_at
    touch_last_accessed ws = patch (accessed_at srv.now ws)

  -- The pause at the end of a round.
  pause : Poll → Pass
  pause p = elim p.done [ none ↦ paused | some err ↦ returned (fail err) ]

  -- The body of the loop: what it writes, whether it restarted the workspace, and how it ends.
  unfoldable pub poll_pass : Poll → Text → List Write × Bool × Pass
  unfolding pause restarted_copy
  poll_pass p name = elim p.get [
    | fail err ↦ ([], false, returned (fail (workspace_error (lit "get") name err)))
    | ok ws ↦
        if phase_eq ws.status.phase running
        then ([], false, returned (ok ws))
        else if phase_eq ws.status.phase failed
        then (
          [],
          false,
          returned (
              fail (
                new_error
                  (lit "workspace " ++ k.quote name ++ lit " failed: " ++ ws.status.message))),
        )
        else if phase_eq ws.status.phase stopped
        then (
          patch (restarted_copy ws) ∷ [],
          true,
          elim (p.patch (restarted_copy ws)) [
            | ok w ↦ pause p
            | fail err ↦ returned (fail (workspace_error (lit "restart stopped") name err))
          ],
        )
        else ([], false, pause p)
  ]

  abbrev not_ready : Text → Error
  not_ready name = new_error (lit "workspace " ++ k.quote name ++ lit " not ready after 1m0s")

  -- What came before a round, in front of what comes of it.
  abbrev earlier : List Write → Bool → Waited → Waited
  earlier writes restarted w = record {
    writes = writes ++ w.writes;
    restarted_from_stopped = restarted || w.restarted_from_stopped;
    workspace = w.workspace;
  }

  -- A round that ended, or the rounds behind it.
  next_round : List Write → Bool → Pass → Option Waited → Option Waited
  next_round writes restarted (returned r) rest =
      some (record { writes = writes; restarted_from_stopped = restarted; workspace = r })
  next_round writes restarted paused rest = Option.map (earlier writes restarted) rest

  -- The loop from round `i` on; `none` is that the fuel is used up.
  unfoldable pub wait_for_running : ℕ → (ℕ → Poll) → ℕ → Text → Option Waited
  unfolding poll_pass next_round
  wait_for_running zero polls i name = none
  wait_for_running (suc fuel) polls i name =
      let rest = wait_for_running fuel polls (suc i) name in
      let p = poll_pass (polls i) name in
      if ltb (polls i).elapsed ready_timeout
      then next_round p.0 p.1 p.2 rest
      else some (record {
        writes = [];
        restarted_from_stopped = false;
        workspace = fail (not_ready name);
      })

  module _ (srv : Server) where
    -- The stamp of the last access: the server's copy, or the local one if the patch fails.
    stamped : Workspace → Workspace
    unfolding accessed_at
    stamped ws = elim (srv.patch (accessed_at srv.now ws)) [
      | ok w ↦ w
      | fail err ↦ accessed_at srv.now ws
    ]

    -- The end of EnsureWorkspace, behind what it wrote before it waited.
    connected : List Write → Bool → Waited → Ensured
    unfolding stamped touch_last_accessed
    connected writes created w = elim w.workspace [
      | ok ws ↦ record {
        writes = writes ++ (w.writes ++ touch_last_accessed srv ws ∷ []);
        created = created;
        restarted_from_stopped = w.restarted_from_stopped;
        workspace = ok (stamped ws);
      }
      | fail err ↦ record {
        writes = writes ++ w.writes;
        created = created;
        restarted_from_stopped = w.restarted_from_stopped;
        workspace = fail err;
      }
    ]

    unfoldable pub ensure_workspace : (ℕ → Poll) → Text → Claims → Option Ensured
    unfolding create_workspace connected
    ensure_workspace polls ns claims =
        let wait = wait_for_running ready_rounds polls 0 claims.user_id in
        elim (srv.get ns claims.user_id) [
          | ok ws ↦ Option.map (connected [] false) wait
          | fail err ↦
              if err.not_found
              then elim (srv.create (new_workspace ns claims)) [
                | ok w ↦ Option.map (connected (create (new_workspace ns claims) ∷ []) true) wait
                | fail e ↦ some (create_workspace srv ns claims)
              ]
              else some (untouched srv (fail (workspace_error (lit "get") claims.user_id err)))
        ]
