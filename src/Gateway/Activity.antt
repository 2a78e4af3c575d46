-- ===== src/Gateway/Activity.antt =====
-- The activity callback of handleWS (cmd/gateway/main.go): each forwarded frame may touch the
-- workspace, once a minute at most. Calls come one after the other.
pub mod Throttle
pub mod Keeps
use dev_plane.Base.{
  ℕ, ◌+◌, Bool, false, Option, none, some, List, [], ◌∷◌, ◌++◌, ltb, if◌then◌else◌,
}
use dev_plane.Api.{Workspace}
use dev_plane.Gateway.Lifecycle.{Write}

abbrev pub minute : ℕ
minute = 60000000000

-- The variables that the callback shares: `none` is the zero time.
pub record Activity : Type 0 where
  pub last_touch : Option ℕ
  pub ws : Workspace

-- The clock during a call, in nanoseconds: at the test, at the stamp and in TouchLastAccessed.
pub record Moment : Type 0 where
  pub tested : ℕ
  pub stamped : ℕ
  pub touched : ℕ

abbrev pub is_recent : ℕ → Option ℕ → Bool
is_recent now none = false
is_recent now (some t) = ltb now (t + minute)

-- TouchLastAccessed: what it writes, and the workspace afterwards.
module _ (touch_last_accessed : ℕ → Workspace → Write × Workspace) where
  unfoldable pub on_activity : Moment → Activity → List Write × Activity
  on_activity m a =
      let touched = touch_last_accessed m.touched a.ws in
      if is_recent m.tested a.last_touch
      then ([], a)
      else (touched.0 ∷ [], record { last_touch = some m.stamped; ws = touched.1 })

  unfoldable pub on_activities : List Moment → Activity → List Write × Activity
  unfolding on_activity
  on_activities [] a = ([], a)
  on_activities (m ∷ ms) a =
      let first = on_activity m a in
      let rest = on_activities ms first.1 in (first.0 ++ rest.0, rest.1)
