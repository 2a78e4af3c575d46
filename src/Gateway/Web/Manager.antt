-- ===== src/Gateway/Web/Manager.antt =====
-- The lifecycle manager of pkg/gateway/lifecycle.go as the handlers' workspaceLifecycle.
use dev_plane.Base.{ℕ, Option, none, some, [], refl, subst, inl, inr, false}
use dev_plane.Base.Text.{Text, lit}
use dev_plane.Base.Result.{ok, fail, new_error, Result-cases}
use dev_plane.Api.{Workspace}
use dev_plane.Platform.{Platform}
use dev_plane.Gateway.Lifecycle.{
  Claims, LifecycleConfig, Server, Poll, Ensured, Write, ensure_exists, ensure_workspace,
  touch_last_accessed, accessed_at,
}
use dev_plane.Gateway.Lifecycle.Named.{
  HasName, Returns, IsFaithful, KeepsTo, OnEnsured, ensure_exists-KeepsTo,
  ensure_workspace-OnEnsured,
}
use dev_plane.Gateway.Web.{WorkspaceLifecycle}
use dev_plane.Gateway.Web.Confined.{IsConfined}

-- What EnsureWorkspace ends with. It has fuel enough, so there is an answer.
abbrev settled : Option Ensured → Ensured
settled (some e) = e
settled none = record {
  writes = [];
  created = false;
  restarted_from_stopped = false;
  workspace = fail (new_error (lit ""));
}

module _ (k : Platform) (cfg : LifecycleConfig) (srv : Server) where
  -- TouchLastAccessed, with the workspace as the patch leaves it.
  unfoldable pub touched : ℕ → Workspace → Write × Workspace
  unfolding touch_last_accessed accessed_at
  touched now ws = (
    touch_last_accessed k cfg (record srv { now = now }) ws,
    elim (srv.patch (accessed_at now ws)) [ ok w ↦ w | fail err ↦ accessed_at now ws ],
  )

  -- The manager; the rounds of a wait depend on the name that is waited for.
  abbrev pub lifecycle_manager : (Text → ℕ → Poll) → WorkspaceLifecycle
  lifecycle_manager polls = record {
    ensure_exists = ensure_exists k cfg srv;
    ensure_workspace =
        λ ns claims. settled (ensure_workspace k cfg srv (polls claims.user_id) ns claims);
    touch_last_accessed = touched;
  }

  touched-HasName : (now : ℕ) (ws : Workspace) → IsFaithful srv → HasName ws.name (touched now ws).1
  unfolding touched accessed_at
  touched-HasName now ws h = elim (Result-cases (srv.patch (accessed_at now ws))) [
    | inl (w, e) ↦ rw (touched, e) (subst (Returns ws.name) e (h.patched (accessed_at now ws)))
    | inr (err, e) ↦ rw (touched, e) refl
  ]

  settled-KeepsTo : (name : Text) (o : Option Ensured) → OnEnsured name o → KeepsTo name (settled o)
  settled-KeepsTo name none h = (tt, tt)
  settled-KeepsTo name (some e) h = h

  -- Against an API server that answers with the workspace that it is asked for, the gateway's
  -- lifecycle manager keeps to the user's own: EnsureExists, EnsureWorkspace, with the restarts while
  -- it waits, and TouchLastAccessed write only to the workspace whose name is the user ID of the
  -- claims, and hand out no other.
  pub lifecycle_manager-IsConfined :
      (polls : Text → ℕ → Poll)
      → IsFaithful srv
      → ((name : Text) (j : ℕ) → Returns name (polls name j).get)
      → IsConfined (lifecycle_manager polls)
  unfolding touched touch_last_accessed accessed_at
  lifecycle_manager-IsConfined polls h p =
      let ensured : (ns : Text) (claims : Claims)
          → KeepsTo claims.user_id ((lifecycle_manager polls).ensure_workspace ns claims) =
        λ ns claims. settled-KeepsTo claims.user_id _ (
          ensure_workspace-OnEnsured k cfg srv h (polls claims.user_id) ns claims
            (p claims.user_id)) in
      record {
        exists_writes = λ ns claims. (ensure_exists-KeepsTo k cfg srv h ns claims).0;
        exists_named = λ ns claims. (ensure_exists-KeepsTo k cfg srv h ns claims).1;
        workspace_writes = λ ns claims. (ensured ns claims).0;
        workspace_named = λ ns claims. (ensured ns claims).1;
        touch_write = λ now ws. refl;
        touch_named = λ now ws. touched-HasName now ws h;
      }
