-- ===== src/Gateway/Recording.antt =====
-- The SessionRecorder of pkg/gateway/session_recording.go. SHA-256 in hexadecimal, base64 and
-- time.Format are parameters. The file's lines stand newest first.
pub mod Chain
pub mod Tamper
pub mod Replays
use dev_plane.Base.{
  ℕ, suc, ◌+◌, ◌%◌, ◌^◌, Bool, true, false, Option, none, some, List, [], ◌∷◌, ◌++◌, ◌&&◌, not,
  is_empty, length, if◌then◌else◌,
}
use dev_plane.Base.Text.{Text, lit, text_eq, to_lower, trim_space, decimal}
use dev_plane.Base.Result.{Error}

pub data SessionRecordingMode : Type 0 where
  off metadata full : SessionRecordingMode

pub record SessionRecordingConfig : Type 0 where
  pub enabled : Bool
  pub mode : SessionRecordingMode
  pub dir : Text

-- SessionMeta, whose texts are written to the manifest as they are.
pub record SessionMeta : Type 0 where
  pub session_id : Text
  pub request_id : Text
  pub subject : Text
  pub user_id : Text
  pub namespace : Text
  pub workspace : Text
  pub backend : Text
  pub remote : Text
  pub started_at : Text

pub record SessionFrameRecord : Type 0 where
  pub timestamp_utc : Text
  pub seq : ℕ
  pub direction : Text
  pub message_type : ℕ
  pub payload_bytes : ℕ
  pub payload_sha : Text
  pub prev_hash : Text
  pub entry_hash : Text
  pub payload_b64 : Text

pub record SessionManifest : Type 0 where
  pub schema_version : Text
  pub mode : SessionRecordingMode
  pub meta : SessionMeta
  pub frame_count : ℕ
  pub final_hash : Text
  pub closed_at : Text
  pub close_reason : Text

-- The recorder, with what its file holds; `is_open` is whether `file` is not nil.
pub record SessionRecorder : Type 0 where
  pub mode : SessionRecordingMode
  pub meta : SessionMeta
  pub is_open : Bool
  pub seq : ℕ
  pub prev : Text
  pub lines : List SessionFrameRecord

abbrev mode_of : Text → SessionRecordingMode
mode_of t = if text_eq t (lit "full") then full else if text_eq t (lit "off") then off else metadata

abbrev is_off : SessionRecordingMode → Bool
is_off off = true
is_off metadata = false
is_off full = false

-- SessionRecordingConfigFromEnv, on the values of the three variables. EqualFold with "true" is
-- equality of the lower case, since no other rune folds to one of its letters.
unfoldable pub config_from_env : (Text → Text) → (enabled mode dir : Text) → SessionRecordingConfig
config_from_env unicode_lower enabled mode dir =
    let is_enabled = text_eq (to_lower unicode_lower (trim_space enabled)) (lit "true") in
    let chosen = mode_of (to_lower unicode_lower (trim_space mode)) in
    let effective = if is_enabled then chosen else off in
    record {
      enabled = is_enabled && not (is_off effective);
      mode = effective;
      dir = if is_empty (trim_space dir) then lit "/tmp/devplane-sessions" else trim_space dir;
    }

-- NewSessionRecorder; `session_id` and `now` are a fresh UUID and the time, and the two flags are
-- whether the directory and the file could be made.
unfoldable pub new_session_recorder :
    SessionRecordingConfig
    → SessionMeta
    → (session_id now : Text) (dir_made file_made : Bool) → Option SessionRecorder
new_session_recorder cfg meta session_id now dir_made file_made =
    if cfg.enabled && not (is_off cfg.mode) && dir_made && file_made
    then some (record {
      mode = cfg.mode;
      meta = record meta {
        session_id = if is_empty meta.session_id then session_id else meta.session_id;
        started_at = if is_empty meta.started_at then now else meta.started_at;
      };
      is_open = true;
      seq = 0;
      prev = [];
      lines = [];
    })
    else none

-- A call of RecordFrame: the time as it is formatted, and whether the line is written.
pub record Frame : Type 0 where
  pub timestamp : Text
  pub direction : Text
  pub message_type : ℕ
  pub payload : Text
  pub written : Bool

-- Digests and encodings of the standard library.
pub record Codec : Type 0 where
  pub sha256_hex : Text → Text
  pub base64 : Text → Text

-- "%s|%d|%s|%d|%s|%s"
unfoldable pub sum_input : (prev : Text) (seq : ℕ) (direction : Text) → ℕ → (sha ts : Text) → Text
sum_input prev seq direction message_type sha ts =
    prev
    ++ (b'|'
        ∷ (decimal seq
            ++ (b'|'
                ∷ (direction ++ (b'|' ∷ (decimal message_type ++ (b'|' ∷ (sha ++ (b'|' ∷ ts)))))))))

module _ (c : Codec) where
  unfoldable pub frame_record : SessionRecorder → Frame → SessionFrameRecord
  frame_record r f =
      let seq = (r.seq + 1) % 2 ^ 64 in
      let sha = c.sha256_hex f.payload in
      record {
        timestamp_utc = f.timestamp;
        seq = seq;
        direction = f.direction;
        message_type = f.message_type;
        payload_bytes = length f.payload;
        payload_sha = sha;
        prev_hash = r.prev;
        entry_hash = c.sha256_hex (sum_input r.prev seq f.direction f.message_type sha f.timestamp);
        payload_b64 = elim r.mode [ full ↦ c.base64 f.payload | metadata ↦ [] | off ↦ [] ];
      }

  -- RecordFrame. A write to the file fails when it is closed.
  unfoldable pub record_frame : SessionRecorder → Frame → SessionRecorder
  unfolding frame_record
  record_frame r f =
      let line = frame_record r f in
      if f.written && r.is_open
      then record r { seq = line.seq; prev = line.entry_hash; lines = line ∷ r.lines }
      else record r { seq = line.seq }

  -- A nil recorder ignores frames.
  unfoldable pub record_frame_any : Option SessionRecorder → Frame → Option SessionRecorder
  unfolding record_frame
  record_frame_any none f = none
  record_frame_any (some r) f = some (record_frame r f)

  unfoldable pub record_frames : SessionRecorder → List Frame → SessionRecorder
  unfolding record_frame
  record_frames r [] = r
  record_frames r (f ∷ fs) = record_frames (record_frame r f) fs

-- Close: the recorder afterwards and the manifest, if it was written; the flag is whether its file
-- could be opened.
unfoldable pub close :
    (now : Text) (opened : Bool)
    → Option Error
    → SessionRecorder
    → SessionRecorder × Option SessionManifest
close now opened failure r =
    let manifest : SessionManifest = record {
      schema_version = lit "1";
      mode = r.mode;
      meta = r.meta;
      frame_count = r.seq;
      final_hash = r.prev;
      closed_at = now;
      close_reason = elim failure [ none ↦ [] | some err ↦ err.text ];
    } in
    if r.is_open
    then (record r { is_open = false }, if opened then some manifest else none)
    else (r, none)
