-- ===== src/Gateway/Web/Confined.antt =====
-- What the handlers ask of the lifecycle manager: that it keeps to the workspace of the user.
use dev_plane.Base.{ℕ, List, [], ◌∷◌, ◌≡◌, subst, ◌∙◌, All, some, Bool-cases, inl, inr}
use dev_plane.Base.Text.{Text}
use dev_plane.Base.Result.{OnOk}
use dev_plane.Api.{Workspace}
use dev_plane.Gateway.Lifecycle.{Claims}
use dev_plane.Gateway.Lifecycle.Named.{IsOn}
use dev_plane.Gateway.Activity.{Activity, Moment, is_recent, on_activities}
use dev_plane.Gateway.Activity.Throttle.{on_activity_recent, on_activity_touches}
use dev_plane.Gateway.Web.{WorkspaceLifecycle}

pub record IsConfined (l : WorkspaceLifecycle) : Type 0 where
  pub exists_writes :
      (ns : Text) (claims : Claims) → All (IsOn claims.user_id) (l.ensure_exists ns claims).writes
  pub exists_named :
      (ns : Text) (claims : Claims)
      → OnOk (λ ws. ws.name ≡ claims.user_id) (l.ensure_exists ns claims).workspace
  pub workspace_writes :
      (ns : Text) (claims : Claims)
      → All (IsOn claims.user_id) (l.ensure_workspace ns claims).writes
  pub workspace_named :
      (ns : Text) (claims : Claims)
      → OnOk (λ ws. ws.name ≡ claims.user_id) (l.ensure_workspace ns claims).workspace
  pub touch_write : (now : ℕ) (ws : Workspace) → IsOn ws.name (l.touch_last_accessed now ws).0
  pub touch_named : (now : ℕ) (ws : Workspace) → (l.touch_last_accessed now ws).1.name ≡ ws.name

pub on_activities-IsOn :
    (l : WorkspaceLifecycle) (name : Text) (ms : List Moment) (a : Activity)
    → IsConfined l
    → a.ws.name ≡ name
    → All (IsOn name) (on_activities l.touch_last_accessed ms a).0
unfolding on_activities
on_activities-IsOn l name [] a h e = tt
on_activities-IsOn l name (m ∷ ms) a h e = elim (Bool-cases (is_recent m.tested a.last_touch)) [
  | inl recent ↦
      rw (on_activity_recent l.touch_last_accessed m a recent) (on_activities-IsOn l name ms a h e)
  | inr due ↦
      let touched = l.touch_last_accessed m.touched a.ws in
      rw (on_activity_touches l.touch_last_accessed m a due) (
        subst (λ n. IsOn n touched.0) e (h.touch_write m.touched a.ws),
        on_activities-IsOn l name ms (record { last_touch = some m.stamped; ws = touched.1 }) h
            (h.touch_named m.touched a.ws ∙ e),
      )
]
