-- ===== src/Gateway/Web/Sessions.antt =====
-- The WebSocket handler: handleWS of cmd/gateway/main.go.
use dev_plane.Base.{Bool, Option, none, some, List, [], ◌∷◌, ◌++◌, if◌then◌else◌}
use dev_plane.Base.Text.{Text, lit}
use dev_plane.Base.Result.{Error, ok, fail}
use dev_plane.Api.{Workspace}
use dev_plane.Gateway.Lifecycle.{Claims, Ensured}
use dev_plane.Gateway.RateLimit.{Verdict}
use dev_plane.Gateway.Auth.{Request, Validated, accepted, rejected, extract_token}
use dev_plane.Gateway.Audit.Keys.{event_workspace_ensure_running}
use dev_plane.Gateway.Audit.{request_id, log_workspace_lifecycle_audit, session_start, session_end}
use dev_plane.Gateway.Activity.{on_activities}
use dev_plane.Gateway.Recording.{
  Codec, SessionRecordingConfig, SessionMeta, SessionRecorder, new_session_recorder, record_frames,
  close,
}
use dev_plane.Gateway.Proxy.{backend_url}
use dev_plane.Gateway.Web.{
  Effect, header_set, audited, tunnelled, recorded, TokenValidator, WorkspaceLifecycle, WsProxy,
  Served, writes, write_json_error, missing_token, invalid_token, rate_limited,
}

-- What the handler is built with, and what it asks of its surroundings: BackendReady, the URL's
-- String, the recording's configuration, a fresh UUID for a session, the times at which the
-- recording starts and ends, and whether its directory and files can be made.
pub record WsContext : Type 0 where
  pub validator : TokenValidator
  pub lifecycle : WorkspaceLifecycle
  pub proxy : WsProxy
  pub namespace : Text
  pub allow : Text → Verdict
  pub backend_ready : Text → Bool
  pub url_string : (scheme host : Text) → Text
  pub codec : Codec
  pub recording : SessionRecordingConfig
  pub session_id : Text
  pub started_at : Text
  pub closed_at : Text
  pub dir_made : Bool
  pub file_made : Bool
  pub manifest_made : Bool

unfoldable pub session_meta :
    (request_id namespace remote : Text) → Claims → Workspace → SessionMeta
session_meta id namespace remote claims ws = record {
  session_id = [];
  request_id = id;
  subject = claims.sub;
  user_id = claims.user_id;
  namespace = namespace;
  workspace = ws.name;
  backend = ws.status.service_endpoint;
  remote = remote;
  started_at = [];
}

module _ (x : WsContext) where
  -- The recorder's file and manifest at the end, if there is a recorder.
  unfoldable pub recording_of : Served → Option SessionRecorder → List Effect
  recording_of served none = []
  recording_of served (some r) =
      let closed =
        close x.closed_at x.manifest_made served.failure (record_frames x.codec r served.frames) in
      recorded closed.0 closed.1 ∷ []

  -- What is written at the end of a session: nothing where ServeWS has no error.
  unfoldable pub session_ended :
      (request_id : Text) → Claims → Workspace → Option Error → List Effect
  session_ended id claims ws none = []
  session_ended id claims ws (some err) =
      audited (session_end id x.namespace claims ws err.text) ∷ []

  -- From the recorder on.
  unfoldable pub run_session : (request_id remote : Text) → Claims → Workspace → List Effect
  unfolding session_meta recording_of session_ended
  run_session id remote claims ws =
      let target = backend_url x.url_string ws.status.service_endpoint in
      let served = x.proxy.serve_ws target in
      let touches =
        on_activities x.lifecycle.touch_last_accessed served.moments
          (record { last_touch = none; ws = ws }) in
      let recorder =
        new_session_recorder x.recording (session_meta id x.namespace remote claims ws) x.session_id
          x.started_at x.dir_made x.file_made in
      audited (session_start id x.namespace claims ws)
      ∷ tunnelled target
      ∷ (writes touches.0
          ++ (recording_of served recorder ++ session_ended id claims touches.1.ws served.failure))

  -- From EnsureWorkspace on.
  unfoldable pub connect : (request_id remote : Text) → Claims → Ensured → List Effect
  unfolding run_session
  connect id remote claims ensured = writes ensured.writes ++ (elim ensured.workspace [
    | fail err ↦ write_json_error 500 (lit "workspace_unavailable")
    | ok ws ↦
        audited (
          log_workspace_lifecycle_audit (lit "audit: workspace ensure (WebSocket)") id
            event_workspace_ensure_running x.namespace claims ws ensured)
        ∷ (if x.backend_ready ws.status.service_endpoint
            then run_session id remote claims ws
            else write_json_error 503 (lit "workspace_not_ready"))
  ])

  -- From the answer of the validator on.
  unfoldable pub authorize : (request_id remote : Text) → Validated → List Effect
  unfolding connect
  authorize id remote (rejected err) = invalid_token id remote err
  authorize id remote (accepted claims) =
      let ensured = x.lifecycle.ensure_workspace x.namespace claims in
      if (x.allow claims.sub).allowed
      then connect id remote claims ensured
      else rate_limited id (lit "websocket") (x.allow claims.sub) claims

  -- handleWS
  unfoldable pub handle_ws : (uuid : Text) → Request → List Effect
  unfolding authorize
  handle_ws uuid r =
      let id = request_id r.request_id uuid in
      header_set (lit "X-Request-ID") id ∷ (elim (extract_token r) [
        | none ↦ missing_token id r.remote_addr
        | some raw_token ↦ authorize id r.remote_addr (x.validator.validate raw_token)
      ])
