-- ===== src/Status/Ready.antt =====
-- The Ready condition agrees with the phase.
use dev_plane.Base.{Option, none, some, List, [], ◌∷◌, ◌≡◌, ◌≢◌, refl, is_empty, if◌then◌else◌}
use dev_plane.Base.Text.{Text, lit, text_eq}
use dev_plane.Api.{WorkspacePhase, running, phase_eq, Condition, Workspace}
use dev_plane.Platform.{Platform}
use dev_plane.Status.{StatusSummary, default_ready_reason, ready_condition, apply_status_summary}

-- The first condition of a type.
abbrev pub find_condition : Text → List Condition → Option Condition
find_condition kind [] = none
find_condition kind (c ∷ cs) = if text_eq c.kind kind then some c else find_condition kind cs

-- meta.SetStatusCondition as documented: the list then holds the condition for its type.
abbrev pub SetsConditions : (Condition → List Condition → List Condition) → Type 0
SetsConditions set =
    (c : Condition) (cs : List Condition) → find_condition c.kind (set c cs) ≡ some c

default_reason_given : (p : WorkspacePhase) → default_ready_reason p ≢ []
unfolding default_ready_reason lit
default_reason_given running h = cc
default_reason_given _ h = cc

reason_given :
    (reason : Text) (p : WorkspacePhase)
    → (if is_empty reason then default_ready_reason p else reason) ≢ []
reason_given [] p = default_reason_given p
reason_given (c ∷ s) p = λ h. cc

-- The status that ApplyStatusSummary leaves has a Ready condition: it is true exactly if the phase
-- is Running, is for the workspace's generation, and gives a reason; if meta.SetStatusCondition
-- keeps the condition that it is given.
pub apply_status_summary_ready :
    (k : Platform) (ws : Workspace) (sum : StatusSummary)
    → SetsConditions k.set_status_condition
    → (c : Condition) × (find_condition
          (lit "Ready")
          (apply_status_summary k ws sum).status.conditions
        ≡ some c)
      × (c.status ≡ phase_eq (apply_status_summary k ws sum).status.phase running)
      × (c.observed_generation ≡ ws.generation)
      × (c.reason ≢ [])
unfolding apply_status_summary ready_condition
apply_status_summary_ready k ws sum sets =
    (_, sets _ _, refl, refl, reason_given sum.ready_reason sum.phase)
