-- ===== src/Gateway/Recording/Replays.antt =====
-- What a recording keeps of the frames in full mode.
use dev_plane.Base.{
  ℕ, true, false, List, [], ◌∷◌, ◌&&◌, if◌then◌else◌, ◌≡◌, refl, ap, ◌∙◌, map, Bool-cases, on_true,
  on_false, inl, inr,
}
use dev_plane.Base.Text.{Text}
use dev_plane.Gateway.Recording.{
  full, SessionFrameRecord, SessionRecorder, Frame, Codec, record_frame, record_frames,
  frame_record,
}

-- What a line says of the frame it is about, by the decoder of the payload.
abbrev pub Seen : Type 0
Seen = (Text × Text) × (ℕ × Text)

abbrev pub seen_line : (Text → Text) → SessionFrameRecord → Seen
seen_line decode l = ((l.timestamp_utc, l.direction), (l.message_type, decode l.payload_b64))

abbrev pub seen_frame : Frame → Seen
seen_frame f = ((f.timestamp, f.direction), (f.message_type, f.payload))

-- Newest first, in front of what was there.
abbrev pub replay : List Frame → List Seen → List Seen
replay [] acc = acc
replay (f ∷ fs) acc = replay fs (if f.written then seen_frame f ∷ acc else acc)

-- What a frame leaves as it is.
record_frame_fixed :
    (c : Codec) (r : SessionRecorder) (f : Frame)
    → ((record_frame c r f).is_open ≡ r.is_open) × ((record_frame c r f).mode ≡ r.mode)
unfolding record_frame
record_frame_fixed c r f = elim (Bool-cases (f.written && r.is_open)) [
  | inl e ↦
      on_true (λ (s : SessionRecorder). (s.is_open ≡ r.is_open) × (s.mode ≡ r.mode)) _ _ e
        (refl, refl)
  | inr e ↦
      on_false (λ (s : SessionRecorder). (s.is_open ≡ r.is_open) × (s.mode ≡ r.mode)) _ _ e
        (refl, refl)
]

-- A frame adds its line to an open file if it is written, and none otherwise.
record_frame_adds :
    (c : Codec) (r : SessionRecorder) (f : Frame)
    → r.is_open ≡ true
    → f.written ≡ true
    → (record_frame c r f).lines ≡ frame_record c r f ∷ r.lines
unfolding record_frame
record_frame_adds c r f h e =
    on_true (λ (s : SessionRecorder). s.lines ≡ frame_record c r f ∷ r.lines)
      {b = f.written && r.is_open} _ _ (ap (λ b. b && r.is_open) e ∙ h) refl

record_frame_skips :
    (c : Codec) (r : SessionRecorder) (f : Frame)
    → f.written ≡ false
    → (record_frame c r f).lines ≡ r.lines
unfolding record_frame
record_frame_skips c r f e =
    on_false (λ (s : SessionRecorder). s.lines ≡ r.lines) {b = f.written && r.is_open} _ _
      (ap (λ b. b && r.is_open) e) refl

-- In full mode, whoever undoes base64 reads from the lines of an open recorder, newest first, the
-- time, the direction, the type and the payload of each frame that was written, in the order in
-- which they were observed, in front of what the file held before.
pub record_frames-replay :
    (c : Codec) (decode : Text → Text) (fs : List Frame) (r : SessionRecorder)
    → ((t : Text) → decode (c.base64 t) ≡ t)
    → r.is_open ≡ true
    → r.mode ≡ full
    → map (seen_line decode) (record_frames c r fs).lines
      ≡ replay fs (map (seen_line decode) r.lines)
unfolding record_frames frame_record
record_frames-replay c decode [] r d open_file mode = refl
record_frames-replay c decode (f ∷ fs) r d open_file mode =
    let fixed = record_frame_fixed c r f in
    let ih =
      record_frames-replay c decode fs (record_frame c r f) d (fixed.0 ∙ open_file)
        (fixed.1 ∙ mode) in
    let all_seen = map (seen_line decode) (record_frames c (record_frame c r f) fs).lines in
    elim (Bool-cases f.written) [
      | inl e ↦
          on_true (λ (x : List Seen). all_seen ≡ replay fs x) _ _ e
            (ih ∙ rw (record_frame_adds c r f open_file e, mode, d) refl)
      | inr e ↦
          on_false (λ (x : List Seen). all_seen ≡ replay fs x) _ _ e
            (ih ∙ rw (record_frame_skips c r f e) refl)
    ]
