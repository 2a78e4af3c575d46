-- ===== src/Gateway/Lifecycle/Named.antt =====
-- The lifecycle manager writes only to the workspace with the user ID as its name.
use mathlib.Core.Option
use dev_plane.Base.{
  ℕ, zero, suc, Bool, true, false, Option, none, some, List, [], ◌∷◌, ◌++◌, ◌≡◌, refl, ◌∙◌, All,
  Bool-cases, inl, inr, Option-cases, ltb, subst,
}
use dev_plane.Base.Text.{Text}
use dev_plane.Base.Result.{Error, Result, ok, fail, OnOk, Result-cases}
use dev_plane.Api.{Workspace, running, failed, stopped, phase_eq}
use dev_plane.Platform.{Platform}
use dev_plane.Gateway.Lifecycle.{
  Claims, Write, create, patch, Server, Poll, Pass, returned, paused, Waited, Ensured,
  LifecycleConfig, ready_timeout, ready_rounds, restarted_copy, accessed_at, new_workspace,
  create_workspace, restart_stopped, ensure_exists, poll_pass, pause, next_round, wait_for_running,
  stamped, connected, ensure_workspace, touch_last_accessed,
}

abbrev pub HasName : Text → Workspace → Type 0
HasName name ws = ws.name ≡ name

-- The write is of the workspace with the name.
abbrev pub IsOn : Text → Write → Type 0
IsOn name (create ws) = HasName name ws
IsOn name (patch ws) = HasName name ws

-- What is returned, if anything, has the name.
abbrev pub Returns : Text → Result Workspace → Type 0
Returns name = OnOk (HasName name)

-- The API server answers with the workspace that it is asked for.
pub record IsFaithful (srv : Server) : Type 0 where
  pub got : (ns name : Text) → Returns name (srv.get ns name)
  pub created : (ws : Workspace) → Returns ws.name (srv.create ws)
  pub patched : (ws : Workspace) → Returns ws.name (srv.patch ws)

-- Writes and a result that keep to the name.
abbrev pub KeepsTo : Text → Ensured → Type 0
KeepsTo name e = All (IsOn name) e.writes × Returns name e.workspace

Named-All :
    (name : Text) (ws vs : List Write)
    → All (IsOn name) ws
    → All (IsOn name) vs
    → All (IsOn name) (ws ++ vs)
Named-All name [] vs h g = g
Named-All name (w ∷ ws) vs h g = (h.0, Named-All name ws vs h.1 g)

abbrev OnPass : Text → Pass → Type 0
OnPass name (returned r) = Returns name r
OnPass name paused = Unit

abbrev OnWaited : Text → Option Waited → Type 0
OnWaited name none = Unit
OnWaited name (some w) = All (IsOn name) w.writes × Returns name w.workspace

abbrev pub OnEnsured : Text → Option Ensured → Type 0
OnEnsured name none = Unit
OnEnsured name (some e) = KeepsTo name e

-- A result whose error is wrapped.
wrapped_named :
    (name : Text) (f : Error → Error) (r : Result Workspace)
    → Returns name r
    → Returns name (elim r [ ok w ↦ ok w | fail err ↦ fail (f err) ])
wrapped_named name f (ok w) h = h
wrapped_named name f (fail err) h = tt

module _ (k : Platform) (cfg : LifecycleConfig) where
  module _ (srv : Server) (h : IsFaithful srv) where
    restart_stopped-KeepsTo :
        (ws : Workspace) (name : Text)
        → HasName name ws
        → KeepsTo name (restart_stopped k cfg srv ws name)
    unfolding restart_stopped restarted_copy
    restart_stopped-KeepsTo ws name e = (
      (e, tt),
      wrapped_named name _ (srv.patch (restarted_copy ws)) (
          subst (λ n. Returns n (srv.patch (restarted_copy ws))) e (h.patched (restarted_copy ws))),
    )

    create_workspace-KeepsTo :
        (ns : Text) (claims : Claims)
        → KeepsTo claims.user_id (create_workspace k cfg srv ns claims)
    unfolding create_workspace new_workspace
    create_workspace-KeepsTo ns claims = (
      (refl, tt),
      wrapped_named claims.user_id _ (srv.create (new_workspace k cfg ns claims))
          (h.created (new_workspace k cfg ns claims)),
    )

    pub ensure_exists-KeepsTo :
        (ns : Text) (claims : Claims) → KeepsTo claims.user_id (ensure_exists k cfg srv ns claims)
    unfolding ensure_exists
    ensure_exists-KeepsTo ns claims = elim (Result-cases (srv.get ns claims.user_id)) [
      | inl (ws, e) ↦
          let named = subst (Returns claims.user_id) e (h.got ns claims.user_id) in
          elim (Bool-cases (phase_eq ws.status.phase stopped)) [
            | inl f ↦ rw (e, ensure_exists, f) (restart_stopped-KeepsTo ws claims.user_id named)
            | inr f ↦ rw (e, ensure_exists, f) (tt, named)
          ]
      | inr (err, e) ↦ elim (Bool-cases err.not_found) [
        | inl f ↦ rw (e, ensure_exists, f) (create_workspace-KeepsTo ns claims)
        | inr f ↦ rw (e, ensure_exists, f) (tt, tt)
      ]
    ]

  pause-OnPass : (name : Text) (p : Poll) → OnPass name (pause k cfg p)
  unfolding pause
  pause-OnPass name p = elim (Option-cases p.done) [
    | inl e ↦ rw (e, pause) tt
    | inr (err, e) ↦ rw (e, pause) tt
  ]

  restarted-OnPass :
      (name : Text) (p : Poll) (f : Error → Error) (r : Result Workspace)
      → OnPass name (elim r [ ok w ↦ pause k cfg p | fail err ↦ returned (fail (f err)) ])
  restarted-OnPass name p f (ok w) = pause-OnPass name p
  restarted-OnPass name p f (fail err) = tt

  abbrev TripleOn : Text → List Write × Bool × Pass → Type 0
  TripleOn name t = All (IsOn name) t.0 × OnPass name t.2

  poll_pass-TripleOn :
      (name : Text) (p : Poll) → Returns name p.get → TripleOn name (poll_pass k cfg p name)
  unfolding poll_pass restarted_copy
  poll_pass-TripleOn name p h = elim (Result-cases p.get) [
    | inr (err, e) ↦ rw (e, poll_pass) (tt, tt)
    | inl (ws, e) ↦
        let named = subst (Returns name) e h in
        elim (Bool-cases (phase_eq ws.status.phase running)) [
          | inl f ↦ rw (e, poll_pass, f) (tt, named)
          | inr f ↦ elim (Bool-cases (phase_eq ws.status.phase failed)) [
            | inl g ↦ rw (e, poll_pass, f, g) (tt, tt)
            | inr g ↦ elim (Bool-cases (phase_eq ws.status.phase stopped)) [
              | inl s ↦
                  rw (e, poll_pass, f, g, s)
                    ((named, tt), restarted-OnPass name p _ (p.patch (restarted_copy ws)))
              | inr s ↦ rw (e, poll_pass, f, g, s) (tt, pause-OnPass name p)
            ]
          ]
        ]
  ]

  next_round-OnWaited :
      (name : Text) (writes : List Write) (restarted : Bool) (p : Pass) (rest : Option Waited)
      → All (IsOn name) writes
      → OnPass name p
      → OnWaited name rest
      → OnWaited name (next_round k cfg writes restarted p rest)
  unfolding next_round
  next_round-OnWaited name writes restarted (returned r) rest h g f = (h, g)
  next_round-OnWaited name writes restarted paused none h g f = tt
  next_round-OnWaited name writes restarted paused (some w) h g f =
      (Named-All name writes w.writes h f.0, f.1)

  wait_for_running-OnWaited :
      (name : Text) (fuel i : ℕ) (polls : ℕ → Poll)
      → ((j : ℕ) → Returns name (polls j).get)
      → OnWaited name (wait_for_running k cfg fuel polls i name)
  unfolding wait_for_running
  wait_for_running-OnWaited name zero i polls h = tt
  wait_for_running-OnWaited name (suc fuel) i polls h =
      let pass = poll_pass-TripleOn name (polls i) (h i) in
      let rest = wait_for_running-OnWaited name fuel (suc i) polls h in
      elim (Bool-cases (ltb (polls i).elapsed ready_timeout)) [
        | inl e ↦ rw e (next_round-OnWaited name _ _ _ _ pass.0 pass.1 rest)
        | inr e ↦ rw e (tt, tt)
      ]

  module _ (srv : Server) (h : IsFaithful srv) where
    stamped-HasName :
        (name : Text) (ws : Workspace) → HasName name ws → HasName name (stamped k cfg srv ws)
    unfolding stamped accessed_at
    stamped-HasName name ws e = elim (Result-cases (srv.patch (accessed_at srv.now ws))) [
      | inl (w, f) ↦
          rw (stamped, f) (subst (Returns ws.name) f (h.patched (accessed_at srv.now ws)) ∙ e)
      | inr (err, f) ↦ rw (stamped, f) e
    ]

    connected-KeepsTo :
        (name : Text) (writes : List Write) (created : Bool) (w : Waited)
        → All (IsOn name) writes
        → OnWaited name (some w)
        → KeepsTo name (connected k cfg srv writes created w)
    unfolding connected touch_last_accessed accessed_at
    connected-KeepsTo name writes created w a b = elim (Result-cases w.workspace) [
      | inr (err, e) ↦ rw (e, connected) (Named-All name writes w.writes a b.0, tt)
      | inl (ws, e) ↦
          let named = subst (Returns name) e b.1 in
          rw (e, connected)
            (
              Named-All name writes _ a (Named-All name w.writes _ b.0 (named, tt)),
              stamped-HasName name ws named,
            )
    ]

    waited-OnEnsured :
        (name : Text) (writes : List Write) (created : Bool) (o : Option Waited)
        → All (IsOn name) writes
        → OnWaited name o
        → OnEnsured name (Option.map (connected k cfg srv writes created) o)
    waited-OnEnsured name writes created none a b = tt
    waited-OnEnsured name writes created (some w) a b = connected-KeepsTo name writes created w a b

    pub ensure_workspace-OnEnsured :
        (polls : ℕ → Poll) (ns : Text) (claims : Claims)
        → ((j : ℕ) → Returns claims.user_id (polls j).get)
        → OnEnsured claims.user_id (ensure_workspace k cfg srv polls ns claims)
    unfolding ensure_workspace new_workspace
    ensure_workspace-OnEnsured polls ns claims p =
        let name = claims.user_id in
        let wait = wait_for_running-OnWaited name ready_rounds 0 polls p in
        elim (Result-cases (srv.get ns claims.user_id)) [
          | inl (ws, e) ↦ rw (e, ensure_workspace) (waited-OnEnsured name [] false _ tt wait)
          | inr (err, e) ↦ elim (Bool-cases err.not_found) [
            | inr f ↦ rw (e, ensure_workspace, f) (tt, tt)
            | inl f ↦ elim (Result-cases (srv.create (new_workspace k cfg ns claims))) [
              | inl (w, g) ↦
                  rw (e, ensure_workspace, f, g)
                    (waited-OnEnsured name (create (new_workspace k cfg ns claims) ∷ []) true _
                      (refl, tt) wait)
              | inr (e2, g) ↦
                  rw (e, ensure_workspace, f, g) (create_workspace-KeepsTo srv h ns claims)
            ]
          ]
        ]
