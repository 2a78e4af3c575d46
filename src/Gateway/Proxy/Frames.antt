-- ===== src/Gateway/Proxy/Frames.antt =====
-- What the two loops of the tunnel keep, however they are interleaved.
use dev_plane.Base.{
  arith, ℕ, ◌+◌, Bool, true, false, none, some, List, [], ◌∷◌, ◌++◌, ◌≡◌, refl, ap, length,
  if◌then◌else◌, Bool-cases, inl, inr, ◌⊎◌, ◌≤◌, subst, sym,
}
use dev_plane.Gateway.Proxy.{
  WsError, Message, Direction, client_to_backend, backend_to_client, Position, reading, writing,
  notifying, observing, failing, sending, ended, Loop, Tunnel, Answer, Shown, nothing, active, saw,
  failed, copy_frames, shown, advance, Reach, start, advanced, returned, is_normal_close,
}

-- The message that a loop has delivered and that onFrame has not seen yet.
abbrev pub pending : Position → List Message
pending (notifying m) = m ∷ []
pending (observing m) = m ∷ []
pending reading = []
pending (writing m) = []
pending (failing e) = []
pending (sending e) = []
pending ended = []

-- Whether a loop stands between onActivity and onFrame.
abbrev late : Position → ℕ
late (observing m) = 1
late (notifying m) = 0
late reading = 0
late (writing m) = 0
late (failing e) = 0
late (sending e) = 0
late ended = 0

-- Whether a loop has returned.
abbrev pub over : Position → ℕ
over ended = 1
over (observing m) = 0
over (notifying m) = 0
over reading = 0
over (writing m) = 0
over (failing e) = 0
over (sending e) = 0

abbrev pub same_direction : Direction → Direction → Bool
same_direction client_to_backend client_to_backend = true
same_direction backend_to_client backend_to_client = true
same_direction client_to_backend backend_to_client = false
same_direction backend_to_client client_to_backend = false

-- The frames of one direction that onFrame saw.
abbrev pub seen : Direction → List (Direction × Message) → List Message
seen d [] = []
seen d (o ∷ os) = let rest = seen d os in if same_direction o.0 d then o.1 ∷ rest else rest

abbrev saw_of : Shown → List Message
saw_of (saw m) = m ∷ []
saw_of nothing = []
saw_of active = []
saw_of (failed e) = []

abbrev active_of : Shown → ℕ
active_of active = 1
active_of (saw m) = 0
active_of nothing = 0
active_of (failed e) = 0

abbrev failed_of : Shown → ℕ
failed_of (failed e) = 1
failed_of active = 0
failed_of (saw m) = 0
failed_of nothing = 0

-- What a step of a loop that stands at `p` does, beside what it shows.
IsStep : Position → List Message → Loop × Shown → Type 0
IsStep p delivered s =
    ((ss : List Message)
      → delivered ≡ pending p ++ ss
      → s.0.delivered ≡ pending s.0.position ++ (saw_of s.1 ++ ss))
    × (late s.0.position + length (saw_of s.1) ≡ active_of s.1 + late p)
    × (over s.0.position ≡ failed_of s.1 + over p)

copy_frames-IsStep :
    (a : Answer) (p : Position) (delivered : List Message) (closes : ℕ)
    → IsStep p delivered
        (copy_frames a (record { position = p; delivered = delivered; closes = closes }))
unfolding copy_frames IsStep
copy_frames-IsStep a reading delivered closes =
    elim a.read_error
      as (λ o. IsStep reading delivered (
        copy_frames (record a { read_error = o })
          (record { position = reading; delivered = delivered; closes = closes }))) [
            | none ↦ ((λ ss h. h), refl, refl)
            | some err ↦ ((λ ss h. h), refl, refl)
          ]
copy_frames-IsStep a (writing m) delivered closes =
    elim a.write_error
      as (λ o. IsStep (writing m) delivered (
        copy_frames (record a { write_error = o })
          (record { position = writing m; delivered = delivered; closes = closes }))) [
            | none ↦ ((λ ss h. ap (λ ms. m ∷ ms) h), refl, refl)
            | some err ↦ ((λ ss h. h), refl, refl)
          ]
copy_frames-IsStep a (failing err) delivered closes = elim (Bool-cases (is_normal_close err)) [
  | inl e ↦ rw e ((λ ss h. h), refl, refl)
  | inr e ↦ rw e ((λ ss h. h), refl, refl)
]
copy_frames-IsStep a (notifying m) delivered closes = ((λ ss h. h), refl, refl)
copy_frames-IsStep a (observing m) delivered closes = ((λ ss h. h), refl, refl)
copy_frames-IsStep a (sending err) delivered closes = ((λ ss h. h), refl, refl)
copy_frames-IsStep a ended delivered closes = ((λ ss h. h), refl, refl)

-- What ServeWS keeps.
pub record IsKept (t : Tunnel) : Type 0 where
  pub to_client :
      t.to_client.delivered ≡ pending t.to_client.position ++ seen client_to_backend t.observed
  pub to_backend :
      t.to_backend.delivered ≡ pending t.to_backend.position ++ seen backend_to_client t.observed
  pub activities :
      t.activities ≡ length t.observed + late t.to_client.position + late t.to_backend.position
  pub errors : length t.errors ≡ over t.to_client.position + over t.to_backend.position
  pub over_first : (t.is_returned ≡ false) ⊎ (1 ≤ length t.errors)

shown-IsKept_to_client :
    (s : Shown) (t : Tunnel) (l : Loop)
    → IsKept t
    → IsStep t.to_client.position t.to_client.delivered (l, s)
    → IsKept (shown client_to_backend s (record t { to_client = l }))
unfolding IsStep
shown-IsKept_to_client nothing t l k (delivered, counts, ends) = record {
  to_client = delivered _ k.to_client;
  to_backend = k.to_backend;
  activities = omega (arith, k.activities, counts);
  errors = omega (arith, k.errors, ends);
  over_first = k.over_first;
}
shown-IsKept_to_client active t l k (delivered, counts, ends) = record {
  to_client = delivered _ k.to_client;
  to_backend = k.to_backend;
  activities = omega (arith, k.activities, counts);
  errors = omega (arith, k.errors, ends);
  over_first = k.over_first;
}
shown-IsKept_to_client (saw m) t l k (delivered, counts, ends) = record {
  to_client = delivered _ k.to_client;
  to_backend = k.to_backend;
  activities = omega (arith, k.activities, counts);
  errors = omega (arith, k.errors, ends);
  over_first = k.over_first;
}
shown-IsKept_to_client (failed e) t l k (delivered, counts, ends) = record {
  to_client = delivered _ k.to_client;
  to_backend = k.to_backend;
  activities = omega (arith, k.activities, counts);
  errors = omega (arith, k.errors, ends);
  over_first = inr (omega arith);
}

shown-IsKept_to_backend :
    (s : Shown) (t : Tunnel) (l : Loop)
    → IsKept t
    → IsStep t.to_backend.position t.to_backend.delivered (l, s)
    → IsKept (shown backend_to_client s (record t { to_backend = l }))
unfolding IsStep
shown-IsKept_to_backend nothing t l k (delivered, counts, ends) = record {
  to_client = k.to_client;
  to_backend = delivered _ k.to_backend;
  activities = omega (arith, k.activities, counts);
  errors = omega (arith, k.errors, ends);
  over_first = k.over_first;
}
shown-IsKept_to_backend active t l k (delivered, counts, ends) = record {
  to_client = k.to_client;
  to_backend = delivered _ k.to_backend;
  activities = omega (arith, k.activities, counts);
  errors = omega (arith, k.errors, ends);
  over_first = k.over_first;
}
shown-IsKept_to_backend (saw m) t l k (delivered, counts, ends) = record {
  to_client = k.to_client;
  to_backend = delivered _ k.to_backend;
  activities = omega (arith, k.activities, counts);
  errors = omega (arith, k.errors, ends);
  over_first = k.over_first;
}
shown-IsKept_to_backend (failed e) t l k (delivered, counts, ends) = record {
  to_client = k.to_client;
  to_backend = delivered _ k.to_backend;
  activities = omega (arith, k.activities, counts);
  errors = omega (arith, k.errors, ends);
  over_first = inr (omega arith);
}

advance-IsKept : (d : Direction) (a : Answer) (t : Tunnel) → IsKept t → IsKept (advance d a t)
unfolding advance
advance-IsKept client_to_backend a t k =
    shown-IsKept_to_client _ t _ k
      (copy_frames-IsStep a t.to_client.position t.to_client.delivered t.to_client.closes)
advance-IsKept backend_to_client a t k =
    shown-IsKept_to_backend _ t _ k
      (copy_frames-IsStep a t.to_backend.position t.to_backend.delivered t.to_backend.closes)

-- However the two loops of a tunnel are interleaved, and whichever calls fail: the client was sent
-- what onFrame saw with the label client_to_backend, in that order, and at most one message more,
-- which stands at onActivity or onFrame, and the pod was sent what onFrame saw with the label
-- backend_to_client, in the same way; onActivity was called once for each frame that onFrame saw, and
-- for those that stand before onFrame; there was one error on the channel for each loop that has
-- ended; and where ServeWS has returned there was one at least.
pub Reach-IsKept : {t : Tunnel} → Reach t → IsKept t
Reach-IsKept start = record {
  to_client = refl;
  to_backend = refl;
  activities = refl;
  errors = refl;
  over_first = inl refl;
}
Reach-IsKept (advanced {t} h d a) = advance-IsKept d a t (Reach-IsKept h)
Reach-IsKept (returned {t} err errs h e) =
    let k = Reach-IsKept h in
    record {
      to_client = k.to_client;
      to_backend = k.to_backend;
      activities = k.activities;
      errors = k.errors;
      over_first = inr (subst (λ (es : List WsError). 1 ≤ length es) (sym e) (omega arith));
    }
