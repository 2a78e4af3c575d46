-- ===== src/Gateway/Recording/Chain.antt =====
-- What the hash chain of a recording shows: an auditor checks the lines against the final hash.
use dev_plane.Base.{
  Bool, Option, none, some, List, [], ◌∷◌, ◌&&◌, if◌then◌else◌, ◌≡◌, inl, inr, refl, sym, ap,
  Bool-cases, on_true, on_false, if_some, subst,
}
use dev_plane.Base.Result.{Error}
use dev_plane.Base.Text.{Text, text_eq, text_eq_iff, text_eq_refl}
use dev_plane.Gateway.Recording.{
  SessionFrameRecord, SessionRecorder, SessionManifest, SessionRecordingConfig, SessionMeta, Frame,
  Codec, sum_input, frame_record, record_frame, record_frames, new_session_recorder, close,
}

-- The final hash that lines lead to, newest first, or nothing where a link is broken.
unfoldable pub verify : Codec → List SessionFrameRecord → Option Text
verify c [] = some []
verify c (l ∷ ls) = elim (verify c ls) [
  | none ↦ none
  | some prev ↦
      if text_eq l.prev_hash prev
        && text_eq l.entry_hash (
            c.sha256_hex
              (sum_input prev l.seq l.direction l.message_type l.payload_sha l.timestamp_utc))
      then some l.entry_hash
      else none
]

verify_link :
    (c : Codec) (l : SessionFrameRecord) (ls : List SessionFrameRecord)
    → verify c ls ≡ some l.prev_hash
    → l.entry_hash
      ≡ c.sha256_hex
          (sum_input l.prev_hash l.seq l.direction l.message_type l.payload_sha l.timestamp_utc)
    → verify c (l ∷ ls) ≡ some l.entry_hash
unfolding verify
verify_link c l ls h e = rw (h, text_eq_refl l.prev_hash, (text_eq_iff l.entry_hash _).1 e) refl

record_frame-verify :
    (c : Codec) (r : SessionRecorder) (f : Frame)
    → verify c r.lines ≡ some r.prev
    → verify c (record_frame c r f).lines ≡ some (record_frame c r f).prev
unfolding record_frame frame_record
record_frame-verify c r f h = elim (Bool-cases (f.written && r.is_open)) [
  | inl e ↦
      on_true (λ (s : SessionRecorder). verify c s.lines ≡ some s.prev) _ _ e
        (verify_link c (frame_record c r f) r.lines h refl)
  | inr e ↦ on_false (λ (s : SessionRecorder). verify c s.lines ≡ some s.prev) _ _ e h
]

record_frames-verify :
    (c : Codec) (fs : List Frame) (r : SessionRecorder)
    → verify c r.lines ≡ some r.prev
    → verify c (record_frames c r fs).lines ≡ some (record_frames c r fs).prev
unfolding record_frames
record_frames-verify c [] r h = h
record_frames-verify c (f ∷ fs) r h =
    record_frames-verify c fs (record_frame c r f) (record_frame-verify c r f h)

new_session_recorder-verify :
    (c : Codec) (cfg : SessionRecordingConfig) (meta : SessionMeta) (session_id now : Text)
    (dir_made file_made : Bool) (r : SessionRecorder)
    → new_session_recorder cfg meta session_id now dir_made file_made ≡ some r
    → verify c r.lines ≡ some r.prev
unfolding new_session_recorder verify
new_session_recorder-verify c cfg meta session_id now dir_made file_made r h =
    let e = if_some _ h in subst (λ (s : SessionRecorder). verify c s.lines ≡ some s.prev) e refl

close-final_hash :
    (now : Text) (opened : Bool) (failure : Option Error) (r : SessionRecorder)
    (m : SessionManifest)
    → (close now opened failure r).1 ≡ some m
    → r.prev ≡ m.final_hash
unfolding close
close-final_hash now opened failure r m h = elim (Bool-cases r.is_open) [
  | inl e ↦ let h' = rw e at h in ap (λ (x : SessionManifest). x.final_hash) (if_some _ h')
  | inr e ↦ let h' = rw e at h in cc
]

-- The lines of a recorder check out against the final hash of its manifest, whichever frames were
-- observed, whether or not each of them could be written, and for each hash function.
pub record_frames-verify_manifest :
    (c : Codec) (cfg : SessionRecordingConfig) (meta : SessionMeta) (session_id started now : Text)
    (dir_made file_made opened : Bool) (failure : Option Error) (r : SessionRecorder)
    (fs : List Frame) (m : SessionManifest)
    → new_session_recorder cfg meta session_id started dir_made file_made ≡ some r
    → (close now opened failure (record_frames c r fs)).1 ≡ some m
    → verify c (record_frames c r fs).lines ≡ some m.final_hash
record_frames-verify_manifest c cfg meta session_id started now dir_made file_made opened failure r
      fs m hr hm =
    rw (sym (close-final_hash now opened failure _ m hm)) (
      record_frames-verify c fs r
        (new_session_recorder-verify c cfg meta session_id started dir_made file_made r hr))
