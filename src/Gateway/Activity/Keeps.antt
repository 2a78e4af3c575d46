-- ===== src/Gateway/Activity/Keeps.antt =====
-- The activity of a session, through the cluster, keeps the operator from stopping the workspace.
use dev_plane.Base.{
  arith, ℕ, ◌+◌, ◌/◌, ◌≤◌, ◌<◌, true, Option, none, some, List, [], ◌∷◌, ◌++◌, ◌≡◌, refl, subst, ap,
  ◌∙◌, All, Bool-cases, inl, inr, Option-cases,
}
use dev_plane.Api.{Workspace, running}
use dev_plane.Platform.{Platform, Pod}
use dev_plane.Resources.Names.{pod_name}
use dev_plane.Operator.Env.{Config, ApiServer, Request, requeue_after}
use dev_plane.Operator.PodStages.{service_endpoint}
use dev_plane.Operator.Reconcile.{reconcile}
use dev_plane.Operator.Reconcile.Reported.{IsReported}
use dev_plane.Operator.Reconcile.Idle.{IsServed, IsTimed, reconcile_keeps_fresh}
use dev_plane.Gateway.Lifecycle.{
  LifecycleConfig, Server, Write, create, patch, touch_last_accessed, accessed_at,
}
use dev_plane.Gateway.Web.Manager.{touched}
use dev_plane.Gateway.Activity.{minute, Activity, Moment, is_recent, on_activity, on_activities}
use dev_plane.Gateway.Activity.Throttle.{on_activity_recent, on_activity_touches}

abbrev pub second : ℕ
second = 1000000000

-- The time of the last access that the workspace has after the writes.
abbrev pub written : Write → Option ℕ
written (create w) = w.status.last_accessed
written (patch w) = w.status.last_accessed

abbrev pub latest : Option ℕ → List Write → Option ℕ
latest seen [] = seen
latest seen (x ∷ xs) = latest (written x) xs

-- A time that is read back is the one that was written, to the second.
abbrev pub IsReadBack : Option ℕ → ℕ → Type 0
IsReadBack none t = Unit
IsReadBack (some u) t = u ≤ t + second

-- The clock runs forward during a call.
abbrev pub IsForward : Moment → Type 0
IsForward m = (m.tested ≤ m.stamped) × (m.stamped ≤ m.touched)

latest-append :
    (seen : Option ℕ) (xs ys : List Write) → latest seen (xs ++ ys) ≡ latest (latest seen xs) ys
latest-append seen [] ys = refl
latest-append seen (x ∷ xs) ys = latest-append (written x) xs ys

-- What was written is not before the last touch that the callback remembers.
abbrev Agrees : Option ℕ → Option ℕ → Type 0
Agrees none seen = Unit
Agrees (some t) none = ⊥
Agrees (some t) (some u) = t ≤ u

module _ (k : Platform) (gateway : LifecycleConfig) (server : Server) where
  abbrev touch : ℕ → Workspace → Write × Workspace
  touch = touched k gateway server

  touch_written : (now : ℕ) (ws : Workspace) → written (touch now ws).0 ≡ some now
  unfolding touched touch_last_accessed accessed_at
  touch_written now ws = refl

  -- A call leaves the two in agreement, and a write that is less than a minute old.
  record Leaves (m : Moment) (a : Activity) (seen : Option ℕ) : Type 0 where
    last : ℕ
    time : ℕ
    remembered : (on_activity touch m a).1.last_touch ≡ some last
    reached : latest seen (on_activity touch m a).0 ≡ some time
    agrees : last ≤ time
    recent : m.tested < time + minute

  agreed :
      (t : ℕ) (last seen : Option ℕ)
      → last ≡ some t
      → Agrees last seen
      → (u : ℕ) × (seen ≡ some u) × (t ≤ u)
  agreed t none seen e h = cc
  agreed t (some s) none e h = elim h [ ]
  agreed t (some s) (some u) e h = let same : s ≡ t = cc in (u, refl, subst (λ x. x ≤ u) same h)

  on_activity-Leaves :
      (m : Moment) (a : Activity) (seen : Option ℕ)
      → IsForward m
      → Agrees a.last_touch seen
      → Leaves m a seen
  on_activity-Leaves m a seen (f, g) h = elim (Bool-cases (is_recent m.tested a.last_touch)) [
    | inr e ↦ record {
      last = m.stamped;
      time = m.touched;
      remembered =
          ap (λ (x : List Write × Activity). x.1.last_touch) (on_activity_touches touch m a e);
      reached =
          ap (λ (x : List Write × Activity). latest seen x.0) (on_activity_touches touch m a e)
          ∙ touch_written m.touched a.ws;
      agrees = g;
      recent = omega arith;
    }
    | inl e ↦ elim (Option-cases a.last_touch) [
      | inl n ↦ let z = rw n at e in cc
      | inr (t, n) ↦
          let z = rw n at e in
          let (u, p, q) = agreed t a.last_touch seen n h in
          record {
            last = t;
            time = u;
            remembered =
                ap (λ (x : List Write × Activity). x.1.last_touch) (on_activity_recent touch m a e)
                ∙ n;
            reached =
                ap (λ (x : List Write × Activity). latest seen x.0) (on_activity_recent touch m a e)
                ∙ p;
            agrees = q;
            recent = ground arith;
          }
    ]
  ]

  Leaves-Agrees :
      {m : Moment} {a : Activity} {seen : Option ℕ}
      → Leaves m a seen
      → Agrees (on_activity touch m a).1.last_touch (latest seen (on_activity touch m a).0)
  Leaves-Agrees h = rw (h.remembered, h.reached) h.agrees

  -- After the calls of a session the newest write is less than a minute older than the last call.
  on_activities_written :
      (ms : List Moment) (m : Moment) (a : Activity) (seen : Option ℕ)
      → All IsForward ms
      → IsForward m
      → Agrees a.last_touch seen
      → (time : ℕ) × (latest seen (on_activities touch (ms ++ m ∷ []) a).0 ≡ some time)
        × (m.tested < time + minute)
  unfolding on_activities
  on_activities_written [] m a seen fs f h =
      let l = on_activity-Leaves m a seen f h in
      (l.time, latest-append seen (on_activity touch m a).0 [] ∙ l.reached, l.recent)
  on_activities_written (x ∷ ms) m a seen fs f h =
      let l = on_activity-Leaves x a seen fs.0 h in
      let first = on_activity touch x a in
      let (time, e, recent) =
        on_activities_written ms m first.1 (latest seen first.0) fs.1 f (Leaves-Agrees l) in
      (time, latest-append seen first.0 _ ∙ e, recent)

-- A session whose calls of the activity callback come one after the other, with a clock that runs
-- forward. The operator reads the time of the last access that the session's writes leave, to the
-- second. If the workspace's objects are in place and its pod is ready, then for as long after the
-- last activity as the idle timeout, less a minute and a second, Reconcile deletes nothing and asks
-- for the phase Running with the user's pod and endpoint, to be called again after a quarter of the
-- timeout.
pub on_activity_keeps_running :
    (k : Platform) (gateway : LifecycleConfig) (server : Server) (cfg : Config) (srv : ApiServer)
    (req : Request) (session ws : Workspace) (pod : Pod) (ms : List Moment) (m : Moment) (d t : ℕ)
    → All IsForward ms
    → IsForward m
    → IsServed k cfg srv req ws pod
    → IsTimed k cfg srv req ws pod d t
    → IsReadBack
        (latest none
          (on_activities
            (touched k gateway server)
            (ms ++ m ∷ [])
            (record { last_touch = none; ws = session })).0)
        t
    → srv.now + minute + second ≤ m.tested + d
    → IsReported k cfg srv ws [] running
        (pod_name ws.spec.user.id)
        (service_endpoint ws.spec.user.id req.namespace)
        []
        true
        (requeue_after (d / 4))
        (reconcile k cfg srv req)
on_activity_keeps_running k gateway server cfg srv req session ws pod ms m d t fs f s h read early =
    let (u, e, recent) =
      on_activities_written k gateway server ms m (record { last_touch = none; ws = session }) none
        fs f tt in
    let read' : u ≤ t + second = subst (λ l. IsReadBack l t) e read in
    reconcile_keeps_fresh k cfg srv req ws pod d t s h (omega arith)
