-- ===== src/Gateway/Proxy/Ends.antt =====
-- The two loops end once the connections are closed, whatever their order.
use dev_plane.Base.{
  ℕ, ◌+◌, ◌-◌, ◌≤◌, some, List, [], ◌∷◌, ◌≡◌, refl, arith, length, Bool-cases, inl, inr,
  if◌then◌else◌, All, subst, sym,
}
use dev_plane.Gateway.Proxy.Frames.{same_direction, over, Reach-IsKept}
use dev_plane.Gateway.Proxy.{
  WsError, Direction, client_to_backend, backend_to_client, Position, reading, writing, notifying,
  observing, failing, sending, ended, Loop, Tunnel, Answer, Shown, nothing, active, saw, failed,
  copy_frames, shown, advance, Reach, advanced, is_normal_close,
}

-- An answer of a closed connection: each call fails.
abbrev pub IsClosed : Answer → Type 0
IsClosed a = ((e : WsError) × (a.read_error ≡ some e)) × ((e : WsError) × (a.write_error ≡ some e))

-- How many steps a loop has still to take once its connections are closed.
abbrev pub left : Position → ℕ
left (notifying m) = 5
left (observing m) = 4
left reading = 3
left (failing e) = 2
left (writing m) = 2
left (sending e) = 1
left ended = 0

-- A step of a loop whose connections are closed.
closed_step :
    (a : Answer) (p : Position) (l : Loop)
    → IsClosed a
    → l.position ≡ p
    → left (copy_frames a l).0.position ≤ left p - 1
unfolding copy_frames
closed_step a reading l ((r, e), w) q = rw (q, copy_frames, e) (omega arith)
closed_step a (writing m) l (r, (w, e)) q = rw (q, copy_frames, e) (omega arith)
closed_step a (notifying m) l c q = rw (q, copy_frames) (omega arith)
closed_step a (observing m) l c q = rw (q, copy_frames) (omega arith)
closed_step a (failing err) l c q = elim (Bool-cases (is_normal_close err)) [
  | inl n ↦ rw (q, copy_frames, n) (omega arith)
  | inr n ↦ rw (q, copy_frames, n) (omega arith)
]
closed_step a (sending err) l c q = rw (q, copy_frames) (omega arith)
closed_step a ended l c q = rw (q, copy_frames, q) (omega arith)

-- What a step shows leaves the loops as they are.
shown_loops :
    (d : Direction) (s : Shown) (t : Tunnel)
    → ((shown d s t).to_client ≡ t.to_client) × ((shown d s t).to_backend ≡ t.to_backend)
shown_loops d nothing t = (refl, refl)
shown_loops d active t = (refl, refl)
shown_loops d (saw m) t = (refl, refl)
shown_loops d (failed err) t = (refl, refl)

-- Steps of the two goroutines, in their order.
abbrev pub advance_all : List (Direction × Answer) → Tunnel → Tunnel
advance_all [] t = t
advance_all (x ∷ xs) t = advance_all xs (advance x.0 x.1 t)

-- How many of them are of one goroutine.
abbrev pub steps : Direction → List (Direction × Answer) → ℕ
steps d [] = 0
steps d (x ∷ xs) = let rest = steps d xs in if same_direction x.0 d then rest + 1 else rest

-- A step brings its own loop nearer to the end, and leaves the other one.
advance-to_client :
    (d : Direction) (a : Answer) (t : Tunnel)
    → IsClosed a
    → left (advance d a t).to_client.position
      ≤ left t.to_client.position - (if same_direction d client_to_backend then 1 else 0)
unfolding advance
advance-to_client client_to_backend a t c =
    subst (λ (l : Loop). left l.position ≤ left t.to_client.position - 1)
      (sym (shown_loops client_to_backend (copy_frames a t.to_client).1 _).0)
      (closed_step a t.to_client.position t.to_client c refl)
advance-to_client backend_to_client a t c =
    subst (λ (l : Loop). left l.position ≤ left t.to_client.position - 0)
      (sym (shown_loops backend_to_client (copy_frames a t.to_backend).1 _).0) (omega arith)

advance-to_backend :
    (d : Direction) (a : Answer) (t : Tunnel)
    → IsClosed a
    → left (advance d a t).to_backend.position
      ≤ left t.to_backend.position - (if same_direction d backend_to_client then 1 else 0)
unfolding advance
advance-to_backend backend_to_client a t c =
    subst (λ (l : Loop). left l.position ≤ left t.to_backend.position - 1)
      (sym (shown_loops backend_to_client (copy_frames a t.to_backend).1 _).1)
      (closed_step a t.to_backend.position t.to_backend c refl)
advance-to_backend client_to_backend a t c =
    subst (λ (l : Loop). left l.position ≤ left t.to_backend.position - 0)
      (sym (shown_loops client_to_backend (copy_frames a t.to_client).1 _).1) (omega arith)

-- All answers are those of closed connections.
abbrev pub AllClosed : List (Direction × Answer) → Type 0
AllClosed xs = All (λ (x : Direction × Answer). IsClosed x.1) xs

advance_all-to_client :
    (xs : List (Direction × Answer)) (t : Tunnel)
    → AllClosed xs
    → left (advance_all xs t).to_client.position
      ≤ left t.to_client.position - steps client_to_backend xs
advance_all-to_client [] t h = omega arith
advance_all-to_client (x ∷ xs) t h =
    let one = advance-to_client x.0 x.1 t h.0 in
    let rest = advance_all-to_client xs (advance x.0 x.1 t) h.1 in ground arith

advance_all-to_backend :
    (xs : List (Direction × Answer)) (t : Tunnel)
    → AllClosed xs
    → left (advance_all xs t).to_backend.position
      ≤ left t.to_backend.position - steps backend_to_client xs
advance_all-to_backend [] t h = omega arith
advance_all-to_backend (x ∷ xs) t h =
    let one = advance-to_backend x.0 x.1 t h.0 in
    let rest = advance_all-to_backend xs (advance x.0 x.1 t) h.1 in ground arith

advance_all-Reach :
    (xs : List (Direction × Answer)) {t : Tunnel} → Reach t → Reach (advance_all xs t)
advance_all-Reach [] r = r
advance_all-Reach (x ∷ xs) r = advance_all-Reach xs (advanced r x.0 x.1)

left_most : (p : Position) → left p ≤ 5
left_most (notifying m) = omega arith
left_most (observing m) = omega arith
left_most reading = omega arith
left_most (failing e) = omega arith
left_most (writing m) = omega arith
left_most (sending e) = omega arith
left_most ended = omega arith

none_left : (p : Position) → left p ≤ 0 → (p ≡ ended) × (over p ≡ 1)
none_left ended h = (refl, refl)
none_left (notifying m) h = absurd (omega arith)
none_left (observing m) h = absurd (omega arith)
none_left reading h = absurd (omega arith)
none_left (failing e) h = absurd (omega arith)
none_left (writing m) h = absurd (omega arith)
none_left (sending e) h = absurd (omega arith)

-- A tunnel in any state that it can reach, whose connections are closed from there on, so that each
-- call on them fails. Once each loop has taken five steps, in any order, both have ended, and there
-- are two errors on the channel in all, which is its capacity: no loop waits for ever.
pub closed_loops_end :
    {t : Tunnel} (xs : List (Direction × Answer))
    → Reach t
    → AllClosed xs
    → 5 ≤ steps client_to_backend xs
    → 5 ≤ steps backend_to_client xs
    → ((advance_all xs t).to_client.position ≡ ended)
      × ((advance_all xs t).to_backend.position ≡ ended)
      × (length (advance_all xs t).errors ≡ 2)
closed_loops_end {t} xs r h m n =
    let c = advance_all-to_client xs t h in
    let b = advance_all-to_backend xs t h in
    let cl = left_most t.to_client.position in
    let bl = left_most t.to_backend.position in
    let u = advance_all xs t in
    let (ce, co) = none_left u.to_client.position (omega arith) in
    let (be, bo) = none_left u.to_backend.position (omega arith) in
    let k = Reach-IsKept (advance_all-Reach xs r) in (ce, be, omega (arith, k.errors, co, bo))
