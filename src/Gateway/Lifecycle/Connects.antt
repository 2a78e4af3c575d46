-- ===== src/Gateway/Lifecycle/Connects.antt =====
-- EnsureWorkspace answers.
use mathlib.Core.Option
use dev_plane.Base.{ℕ, Option, none, some, ◌≡◌, refl, inl, inr, Bool-cases, on_true, on_false}
use dev_plane.Base.Text.{Text}
use dev_plane.Base.Result.{Result-cases}
use dev_plane.Platform.{Platform}
use dev_plane.Gateway.Lifecycle.{
  Poll, Claims, LifecycleConfig, Waited, Server, Ensured, new_workspace, ensure_workspace,
}
use dev_plane.Gateway.Lifecycle.Waits.{IsPaced, wait_for_running_ends}

abbrev Answered : Option Ensured → Type 0
Answered out = (e : Ensured) × (out ≡ some e)

connected_answers :
    (f : Waited → Ensured) (out : Option Waited) (w : Waited)
    → out ≡ some w
    → Answered (Option.map f out)
connected_answers f (some v) w e = (f v, refl)
connected_answers f none w e = cc

-- EnsureWorkspace returns: if the rounds of its wait are at least two seconds apart, it has an
-- answer, whatever the server and the context answer.
pub ensure_workspace_answers :
    (k : Platform) (cfg : LifecycleConfig) (srv : Server) (polls : ℕ → Poll) (ns : Text)
    (claims : Claims)
    → IsPaced polls
    → (e : Ensured) × (ensure_workspace k cfg srv polls ns claims ≡ some e)
unfolding ensure_workspace
ensure_workspace_answers k cfg srv polls ns claims paced =
    let (w, e, a) = wait_for_running_ends k cfg polls claims.user_id paced in
    elim (Result-cases (srv.get ns claims.user_id)) [
      | inl (ws, g) ↦ rw (g, ensure_workspace) (connected_answers _ _ w e)
      | inr (err, g) ↦
          rw (g, ensure_workspace)
            (elim (Bool-cases err.not_found) [
              | inr m ↦ on_false Answered _ _ m (_, refl)
              | inl m ↦
                  on_true Answered _ _ m
                    (elim (Result-cases (srv.create (new_workspace k cfg ns claims))) [
                      | inl (c, h) ↦ rw h (connected_answers _ _ w e)
                      | inr (f, h) ↦ rw h (_, refl)
                    ])
            ])
    ]
