-- ===== src/Gateway/Activity/Throttle.antt =====
-- How often activity is written to the cluster.
use dev_plane.Base.{
  arith, ℕ, ◌+◌, ◌*◌, ◌≤◌, true, false, none, some, List, [], ◌∷◌, ◌≡◌, refl, All, length,
  Bool-cases, inl, inr, on_true, on_false,
}
use dev_plane.Api.{Workspace}
use dev_plane.Gateway.Lifecycle.{Write}
use dev_plane.Gateway.Activity.{minute, Activity, Moment, is_recent, on_activity, on_activities}

-- The clock during a call stands between two times, and runs forward.
unfoldable pub IsWithin : ℕ → ℕ → Moment → Type 0
IsWithin from until m = (from ≤ m.tested) × (m.tested ≤ m.stamped) × (m.stamped ≤ until)

module _ (touch : ℕ → Workspace → Write × Workspace) where
  -- What a call does where the last touch was less than a minute ago, and where it was not.
  pub on_activity_recent :
      (m : Moment) (a : Activity)
      → is_recent m.tested a.last_touch ≡ true
      → on_activity touch m a ≡ ([], a)
  unfolding on_activity
  on_activity_recent m a e = on_true (λ (x : List Write × Activity). x ≡ ([], a)) _ _ e refl

  pub on_activity_touches :
      (m : Moment) (a : Activity)
      → is_recent m.tested a.last_touch ≡ false
      → on_activity touch m a ≡ (
        (touch m.touched a.ws).0 ∷ [],
        record { last_touch = some m.stamped; ws = (touch m.touched a.ws).1 },
      )
  unfolding on_activity
  on_activity_touches m a e =
      on_false
        (λ (x : List Write × Activity). x ≡ (
          (touch m.touched a.ws).0 ∷ [],
          record { last_touch = some m.stamped; ws = (touch m.touched a.ws).1 },
        ))
        _ _ e refl

  on_activities_sparse :
      (from until t : ℕ) (ms : List Moment) (a : Activity)
      → All (IsWithin from until) ms
      → a.last_touch ≡ some t
      → t ≤ until
      → length (on_activities touch ms a).0 * minute + t ≤ until
  unfolding on_activities IsWithin
  on_activities_sparse from until t [] a h last bound = omega arith
  on_activities_sparse from until t (m ∷ ms) a h last bound =
      elim (Bool-cases (is_recent m.tested a.last_touch)) [
        | inl e ↦
            rw (on_activity_recent m a e) (on_activities_sparse from until t ms a h.1 last bound)
        | inr e ↦
            let later : t + minute ≤ m.tested = let f = rw last at e in ground arith in
            let next = (on_activity touch m a).1 in
            rw (on_activity_touches m a e) (
              let ih =
                on_activities_sparse from until m.stamped ms
                  (record { last_touch = some m.stamped; ws = (touch m.touched a.ws).1 }) h.1 refl
                  h.0.2 in
              omega arith)
      ]

  -- The writes of a new session's activity between two times are at most one more than the minutes
  -- between them, however many frames there are.
  pub on_activities_throttled :
      (from until : ℕ) (ms : List Moment) (ws : Workspace)
      → from ≤ until
      → All (IsWithin from until) ms
      → length (on_activities touch ms (record { last_touch = none; ws = ws })).0 * minute + from
        ≤ until + minute
  unfolding on_activities on_activity IsWithin
  on_activities_throttled from until [] ws bound h = omega arith
  on_activities_throttled from until (m ∷ ms) ws bound h =
      let ih =
        on_activities_sparse from until m.stamped ms
          (record { last_touch = some m.stamped; ws = (touch m.touched ws).1 }) h.1 refl h.0.2 in
      omega arith
