-- ===== src/Examples/Recordings.antt =====
-- Recordings of a session with two frames, of which the second is not written.
use dev_plane.Base.{arith, ◌+◌, true, false, none, some, List, [], ◌∷◌, ◌≡◌, ◌⊎◌, refl, map}
use dev_plane.Base.Text.{Text, lit, text_eq, decimal}
use dev_plane.Base.Text.Split.{Without}
use dev_plane.Gateway.Recording.{
  Codec, SessionRecordingConfig, SessionMeta, SessionFrameRecord, SessionManifest, SessionRecorder,
  Frame, full, new_session_recorder, frame_record, record_frame, record_frames, close, sum_input,
}
use dev_plane.Gateway.Recording.Chain.{verify, record_frames-verify_manifest}
use dev_plane.Gateway.Recording.Tamper.{
  Collision, HasHexDigests, IsRegular, chained, verify-Collision,
}
use dev_plane.Gateway.Recording.Replays.{seen_line, replay, record_frames-replay}

-- A hash without the separator, and an encoding.
abbrev codec : Codec
codec = record { sha256_hex = λ t. b'h' ∷ map (λ c. c + 125) t; base64 = λ t. b'=' ∷ t }

abbrev decode : Text → Text
decode [] = []
decode (c ∷ t) = t

abbrev config : SessionRecordingConfig
config = record { enabled = true; mode = full; dir = lit "/tmp" }

abbrev meta : SessionMeta
meta = record {
  session_id = lit "s1";
  request_id = lit "r1";
  subject = lit "jane";
  user_id = lit "jane";
  namespace = lit "dev";
  workspace = lit "jane";
  backend = lit "jane-svc";
  remote = lit "10.0.0.1";
  started_at = lit "t0";
}

abbrev recorder : SessionRecorder
recorder = record { mode = full; meta = meta; is_open = true; seq = 0; prev = []; lines = [] }

abbrev frames : List Frame
frames =
    record {
      timestamp = lit "t1";
      direction = lit "client_to_backend";
      message_type = 1;
      payload = lit "ls";
      written = true;
    }
    ∷ record {
      timestamp = lit "t2";
      direction = lit "backend_to_client";
      message_type = 1;
      payload = lit "a";
      written = false;
    }
    ∷ []

abbrev manifest : SessionManifest
manifest = record {
  schema_version = lit "1";
  mode = full;
  meta = meta;
  frame_count = 2;
  final_hash = (record_frames codec recorder frames).prev;
  closed_at = lit "t3";
  close_reason = [];
}

recorder_made : new_session_recorder config meta (lit "u") (lit "t") true true ≡ some recorder
unfolding new_session_recorder lit
recorder_made = refl

closed : (close (lit "t3") true none (record_frames codec recorder frames)).1 ≡ some manifest
unfolding close record_frames record_frame frame_record
closed = refl

record_frames-verify_manifest_example :
    verify codec (record_frames codec recorder frames).lines ≡ some manifest.final_hash
record_frames-verify_manifest_example =
    record_frames-verify_manifest codec config meta (lit "u") (lit "t") (lit "t3") true true true
      none recorder frames manifest recorder_made closed

shifted-Without : (t : Text) → Without b'|' (map (λ c. c + 125) t)
shifted-Without [] = tt
shifted-Without (c ∷ t) = ((λ e. omega arith), shifted-Without t)

codec-HasHexDigests : HasHexDigests codec
unfolding HasHexDigests
codec-HasHexDigests t = (((λ e. omega arith), shifted-Without t), refl)

abbrev line : SessionFrameRecord
line = record {
  timestamp_utc = lit "t1";
  seq = 1;
  direction = [];
  message_type = 1;
  payload_bytes = 0;
  payload_sha = [];
  prev_hash = [];
  entry_hash = codec.sha256_hex (sum_input [] 1 [] 1 [] (lit "t1"));
  payload_b64 = [];
}

line-IsRegular : IsRegular line
unfolding IsRegular
line-IsRegular = (omega arith, omega arith, tt, tt)

line_checks : verify codec (line ∷ []) ≡ some line.entry_hash
unfolding verify text_eq sum_input lit decimal
line_checks = refl

-- A copy of the line with another payload size, which the hash does not cover.
verify-Collision_example :
    (map chained (line ∷ []) ≡ map chained (record line { payload_bytes = 7 } ∷ []))
    ⊎ Collision codec
unfolding IsRegular verify
verify-Collision_example =
    verify-Collision codec (line ∷ []) (record line { payload_bytes = 7 } ∷ []) line.entry_hash
      codec-HasHexDigests (line-IsRegular, tt) (line-IsRegular, tt) line_checks line_checks

record_frames-replay_example :
    map (seen_line decode) (record_frames codec recorder frames).lines ≡ replay frames []
record_frames-replay_example =
    record_frames-replay codec decode frames recorder (λ t. refl) refl refl
