-- ===== src/Gateway/Lifecycle/Waits.antt =====
-- Waiting for a workspace ends, and what it returns is running.
use dev_plane.Base.{
  sym, subst, on_true, on_false, ◌<◌, ℕ, zero, suc, ◌+◌, ◌*◌, ◌≤◌, Bool, true, Option, none, some,
  List, ◌≡◌, refl, inl, inr, arith, Bool-cases, Option-cases, ltb,
}
use dev_plane.Base.Text.{Text}
use dev_plane.Base.Result.{Error, Result, ok, fail, OnOk, Result-cases}
use dev_plane.Api.{Workspace, running, failed, stopped, phase_eq}
use dev_plane.Platform.{Platform}
use dev_plane.Gateway.Lifecycle.{
  Poll, Pass, returned, paused, Waited, Write, LifecycleConfig, pause, poll_pass, next_round,
  wait_for_running, ready_timeout, ready_poll, ready_rounds,
}

-- The pauses between rounds are no shorter than the poll interval.
abbrev pub IsPaced : (ℕ → Poll) → Type 0
IsPaced polls = (i : ℕ) → (polls i).elapsed + ready_poll ≤ (polls (suc i)).elapsed

-- The server returned the workspace in some round, in the phase Running.
abbrev pub IsSeenRunning : (ℕ → Poll) → Workspace → Type 0
IsSeenRunning polls ws =
    (phase_eq ws.status.phase running ≡ true) × (i : ℕ) × ((polls i).get ≡ ok ws)

-- There is an answer, and a workspace in it was seen running.
abbrev Answers : (ℕ → Poll) → Option Waited → Type 0
Answers polls out = (w : Waited) × (out ≡ some w) × OnOk (IsSeenRunning polls) w.workspace

abbrev PassOk : (ℕ → Poll) → Pass → Type 0
PassOk polls (returned r) = OnOk (IsSeenRunning polls) r
PassOk polls paused = Unit

module _ (k : Platform) (cfg : LifecycleConfig) (polls : ℕ → Poll) where
  pause-PassOk : (p : Poll) → PassOk polls (pause k cfg p)
  unfolding pause
  pause-PassOk p = elim (Option-cases p.done) [
    | inl e ↦ rw (e, pause) tt
    | inr (err, e) ↦ rw (e, pause) tt
  ]

  abbrev AnsweredOk : Option Waited → Type 0
  AnsweredOk none = Unit
  AnsweredOk (some w) = OnOk (IsSeenRunning polls) w.workspace

  next_round-Answers :
      (writes : List Write) (restarted : Bool) (step : Pass) (rest : Option Waited)
      → PassOk polls step
      → Answers polls rest
      → Answers polls (next_round k cfg writes restarted step rest)
  unfolding next_round
  next_round-Answers writes restarted (returned r) rest h a = (_, refl, h)
  next_round-Answers writes restarted paused (some w) h (w', e, a) =
      (_, refl, subst AnsweredOk (sym e) a)
  next_round-Answers writes restarted paused none h (w', e, a) = cc

  abbrev TripleOk : List Write × Bool × Pass → Type 0
  TripleOk t = PassOk polls t.2

  stopped_pass :
      (i : ℕ) (r : Result Workspace) (f : Error → Error)
      → PassOk polls (elim r [ ok w ↦ pause k cfg (polls i) | fail err ↦ returned (fail (f err)) ])
  stopped_pass i (ok w) f = pause-PassOk (polls i)
  stopped_pass i (fail err) f = tt

  poll_pass-PassOk : (i : ℕ) (name : Text) → TripleOk (poll_pass k cfg (polls i) name)
  unfolding poll_pass
  poll_pass-PassOk i name = elim (Result-cases (polls i).get) [
    | inr (err, e) ↦ rw (e, poll_pass) tt
    | inl (ws, e) ↦
        rw (e, poll_pass)
          (elim (Bool-cases (phase_eq ws.status.phase running)) [
            | inl r ↦ on_true TripleOk _ _ r (r, i, e)
            | inr r ↦ on_false TripleOk _ _ r (elim (Bool-cases (phase_eq ws.status.phase failed)) [
              | inl f ↦ on_true TripleOk _ _ f tt
              | inr f ↦
                  on_false TripleOk _ _ f (elim (Bool-cases (phase_eq ws.status.phase stopped)) [
                    | inl s ↦ on_true TripleOk _ _ s (stopped_pass i _ _)
                    | inr s ↦ on_false TripleOk _ _ s (pause-PassOk (polls i))
                  ])
            ])
          ])
  ]

  -- A round whose successors answer if it begins in time.
  round-Answers :
      (fuel i : ℕ) (name : Text)
      → ((polls i).elapsed < ready_timeout
          → Answers polls (wait_for_running k cfg fuel polls (suc i) name))
      → Answers polls (wait_for_running k cfg (suc fuel) polls i name)
  unfolding wait_for_running
  round-Answers fuel i name rest = elim (Bool-cases (ltb (polls i).elapsed ready_timeout)) [
    | inl t ↦ rw t (
        next_round-Answers _ _ (poll_pass k cfg (polls i) name).2 _ (poll_pass-PassOk i name)
          (rest (ground arith)))
    | inr t ↦ rw t (_, refl, tt)
  ]

  wait-Answers :
      (fuel i : ℕ) (name : Text)
      → IsPaced polls
      → ready_timeout ≤ (polls i).elapsed + ready_poll * fuel
      → Answers polls (wait_for_running k cfg (suc fuel) polls i name)
  wait-Answers zero i name paced late = round-Answers zero i name (λ t. absurd (omega arith))
  wait-Answers (suc fuel) i name paced late =
      let p = paced i in
      round-Answers (suc fuel) i name (λ t. wait-Answers fuel (suc i) name paced (omega arith))

-- EnsureWorkspace's wait, for a name: rounds at least two seconds apart end within thirty-one of
-- them, with an answer; and if the answer is a workspace, the server returned it in some round, in
-- the phase Running.
pub wait_for_running_ends :
    (k : Platform) (cfg : LifecycleConfig) (polls : ℕ → Poll) (name : Text)
    → IsPaced polls
    → (w : Waited) × (wait_for_running k cfg ready_rounds polls 0 name ≡ some w)
      × OnOk (IsSeenRunning polls) w.workspace
unfolding ready_timeout ready_poll
wait_for_running_ends k cfg polls name paced =
    wait-Answers k cfg polls 30 0 name paced (omega arith)
