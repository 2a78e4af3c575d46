-- ===== src/Gateway/Web.antt =====
-- What the handlers of cmd/gateway/main.go do: the effects of a request, in their order. Log lines
-- other than audit records are left out.
pub mod Login
pub mod Workspaces
pub mod Sessions
pub mod Css
pub mod Confined
pub mod Manager
pub mod Behind
pub mod Admission
pub mod Measures
pub mod Answers
pub mod Secrets
pub mod Grants
pub mod Ends
use dev_plane.Base.{
  ℕ, Bool, true, false, Option, none, some, List, [], ◌∷◌, ◌++◌, map, is_empty, if◌then◌else◌,
}
use dev_plane.Base.Int.{ℤ, pos, negsuc}
use dev_plane.Base.Text.{Text, lit}
use dev_plane.Base.Result.{Error, Result}
use dev_plane.Api.{Workspace}
use dev_plane.Gateway.Lifecycle.{Claims, Write, Ensured}
use dev_plane.Gateway.RateLimit.{Verdict}
use dev_plane.Gateway.Auth.{Validated, AuthError, Request, auth_error_response}
use dev_plane.Gateway.Audit.{AuditRecord, log_auth_token_rejected, log_rate_limit_audit}
use dev_plane.Gateway.Activity.{Moment}
use dev_plane.Gateway.Recording.{Frame, SessionRecorder, SessionManifest}

pub record Cookie : Type 0 where
  pub name : Text
  pub value : Text
  pub path : Text
  pub max_age : ℤ
  pub expires : Option ℕ
  pub http_only : Bool
  pub secure : Bool
  pub same_site_lax : Bool

-- workspaceAPIResponse
pub record WorkspaceApiResponse : Type 0 where
  pub name : Text
  pub namespace : Text
  pub user_id : Text
  pub email : Text
  pub phase : Text
  pub service_endpoint : Text
  pub pod_name : Text
  pub message : Text
  pub ttyd_ready : Bool

-- The body of a response: {"error": code}, a workspace, the text of http.Error or a constant, or the
-- loading page.
pub data Body : Type 0 where
  error_code : Text → Body
  workspace_json : WorkspaceApiResponse → Body
  plain : Text → Body
  loading_page : (display_name phase : Text) → Body

pub data Effect : Type 0 where
  header_set : (key value : Text) → Effect
  cookie_set : Cookie → Effect
  audited : AuditRecord → Effect
  error_counted : ℕ → Text → Effect
  rate_limit_counted : (endpoint scope : Text) → Effect
  written : Write → Effect
  responded : ℕ → Body → Effect
  redirected : Text → Effect
  forwarded : (target : Text) → Effect
  tunnelled : (target : Text) → Effect
  recorded : SessionRecorder → Option SessionManifest → Effect

-- The interfaces tokenValidator, workspaceLifecycle, wsProxy and oauthConfig: what a call answers.
pub record TokenValidator : Type 0 where
  pub validate : Text → Validated

pub record WorkspaceLifecycle : Type 0 where
  pub ensure_exists : (namespace : Text) → Claims → Ensured
  pub ensure_workspace : (namespace : Text) → Claims → Ensured
  pub touch_last_accessed : ℕ → Workspace → Write × Workspace

-- ServeWS: its error, the frames that onFrame is given, and the times of the calls of onActivity.
pub record Served : Type 0 where
  pub failure : Option Error
  pub frames : List Frame
  pub moments : List Moment

pub record WsProxy : Type 0 where
  pub serve_ws : (backend_url : Text) → Served

-- A token of the identity provider: `id_token` is none where token.Extra is not a string, `expiry`
-- is none for the zero time.
pub record OauthToken : Type 0 where
  pub id_token : Option Text
  pub expiry : Option ℕ

pub record OauthConfig : Type 0 where
  pub auth_code_url : (state : Text) → Text
  pub exchange : (code : Text) → Result OauthToken

-- The writes to the cluster, as effects.
abbrev pub writes : List Write → List Effect
writes ws = map written ws

-- WriteJSONError with RecordJSONAPIError; WriteJSONAuthError is the same.
unfoldable pub write_json_error : ℕ → Text → List Effect
write_json_error status code =
    error_counted status code
    ∷ header_set (lit "Content-Type") (lit "application/json; charset=utf-8")
    ∷ responded status (error_code code)
    ∷ []

-- http.Error
abbrev pub http_error : Text → ℕ → List Effect
http_error message status = responded status (plain message) ∷ []

-- The cookie that removes another one.
abbrev pub cleared : Text → Bool → Cookie
cleared name secure = record {
  name = name;
  value = [];
  path = lit "/";
  max_age = negsuc 0;
  expires = none;
  http_only = true;
  secure = secure;
  same_site_lax = false;
}

-- serveLoadingPage
unfoldable pub serve_loading_page : (display_name phase : Text) → List Effect
serve_loading_page display_name phase =
    header_set (lit "Content-Type") (lit "text/html; charset=utf-8")
    ∷ responded 200 (loading_page display_name phase)
    ∷ []

-- handleHealth
unfoldable pub handle_health : List Effect
handle_health = responded 200 (plain (lit "ok")) ∷ []

-- The answer of the JSON handlers where the request has no token.
unfoldable pub missing_token : (request_id remote : Text) → List Effect
unfolding write_json_error
missing_token id remote =
    audited (log_auth_token_rejected id remote (lit "missing_token") 401 (lit "unauthorized"))
    ∷ write_json_error 401 (lit "unauthorized")

-- And where the validator rejects it.
unfoldable pub invalid_token : (request_id remote : Text) → AuthError → List Effect
unfolding write_json_error
invalid_token id remote err =
    let answer = auth_error_response (some err) in
    audited (log_auth_token_rejected id remote (lit "invalid_token") answer.0 answer.1)
    ∷ write_json_error answer.0 answer.1

-- And where the user's rate is exceeded.
unfoldable pub rate_limited : (request_id endpoint : Text) → Verdict → Claims → List Effect
unfolding write_json_error
rate_limited id endpoint v claims =
    rate_limit_counted endpoint v.scope
    ∷ audited (log_rate_limit_audit id endpoint v.scope claims.user_id)
    ∷ write_json_error 429 (lit "rate_limited")
