-- ===== src/Gateway/Web/Workspaces.antt =====
-- The handlers behind the login that use HTTP: handleWorkspaceAPI and handleProxy of
-- cmd/gateway/main.go.
use dev_plane.Base.{Bool, none, some, List, [], ◌∷◌, ◌++◌, ◌||◌, ◌&&◌, not, is_empty, if◌then◌else◌}
use dev_plane.Base.Text.{Text, lit, text_eq}
use dev_plane.Base.Result.{ok, fail}
use dev_plane.Api.{Workspace, running, phase_eq, phase_text}
use dev_plane.Gateway.Lifecycle.{Claims, Ensured}
use dev_plane.Gateway.RateLimit.{Verdict}
use dev_plane.Gateway.Auth.{Request, Validated, accepted, rejected, extract_token}
use dev_plane.Gateway.Audit.Keys.{event_workspace_ensure_exists}
use dev_plane.Gateway.Audit.{request_id, log_workspace_lifecycle_audit}
use dev_plane.Gateway.Proxy.{backend_http_url}
use dev_plane.Gateway.Web.{
  Effect, header_set, cookie_set, audited, responded, redirected, forwarded, workspace_json,
  TokenValidator, WorkspaceLifecycle, WorkspaceApiResponse, writes, write_json_error, http_error,
  cleared, serve_loading_page, missing_token, invalid_token, rate_limited,
}

-- The response of the API; the flag is what BackendReady answers for an endpoint.
unfoldable pub workspace_response :
    (backend_ready : Text → Bool) → Claims → Workspace → WorkspaceApiResponse
workspace_response backend_ready claims ws = record {
  name = ws.name;
  namespace = ws.namespace;
  user_id = claims.user_id;
  email = claims.email;
  phase = phase_text ws.status.phase;
  service_endpoint = ws.status.service_endpoint;
  pod_name = ws.status.pod_name;
  message = ws.status.message;
  ttyd_ready =
      phase_eq ws.status.phase running
      && not (is_empty ws.status.service_endpoint)
      && backend_ready ws.status.service_endpoint;
}

-- handleWorkspaceAPI from EnsureExists on.
unfoldable pub ensure_for_api :
    (backend_ready : Text → Bool) → (request_id namespace : Text) → Claims → Ensured → List Effect
unfolding workspace_response
ensure_for_api backend_ready id namespace claims ensured =
    writes ensured.writes ++ (elim ensured.workspace [
      | fail err ↦ write_json_error 500 (lit "workspace_unavailable")
      | ok ws ↦
          audited (
            log_workspace_lifecycle_audit (lit "audit: workspace ensure (API)") id
              event_workspace_ensure_exists namespace claims ws ensured)
          ∷ header_set (lit "Content-Type") (lit "application/json; charset=utf-8")
          ∷ responded 200 (workspace_json (workspace_response backend_ready claims ws))
          ∷ []
    ])

module _ (validator : TokenValidator) (lifecycle : WorkspaceLifecycle) (backend_ready : Text → Bool)
    (allow : Text → Verdict) (namespace : Text) (secure : Bool) where
  -- handleWorkspaceAPI from the answer of the validator on; `allow` is what the limiter answers.
  unfoldable pub authorize_api : (request_id remote : Text) → Validated → List Effect
  unfolding ensure_for_api
  authorize_api id remote (rejected err) =
      cookie_set (cleared (lit "devplane_token") secure) ∷ invalid_token id remote err
  authorize_api id remote (accepted claims) =
      if (allow claims.sub).allowed
      then ensure_for_api backend_ready id namespace claims
          (lifecycle.ensure_exists namespace claims)
      else rate_limited id (lit "lifecycle") (allow claims.sub) claims

  -- handleWorkspaceAPI
  unfoldable pub handle_workspace_api : (uuid : Text) → Request → List Effect
  unfolding authorize_api
  handle_workspace_api uuid r =
      let id = request_id r.request_id uuid in
      if not (text_eq r.method (lit "GET")) && not (text_eq r.method (lit "POST"))
      then http_error (lit "Method not allowed") 405
      else header_set (lit "X-Request-ID") id ∷ (elim (extract_token r) [
        | none ↦ missing_token id r.remote_addr
        | some raw_token ↦ authorize_api id r.remote_addr (validator.validate raw_token)
      ])

-- The name on the loading page.
unfoldable pub display_name : Claims → Text
display_name claims = if is_empty claims.email then claims.user_id else claims.email

-- handleProxy from EnsureExists on; `reachable` is whether the reverse proxy gets an answer that it can send on.
unfoldable pub proxy_for :
    (url_string : (scheme host : Text) → Text)
    → (reachable : Text → Bool) → Claims
    → Ensured
    → List Effect
unfolding display_name
proxy_for url_string reachable claims ensured = writes ensured.writes ++ (elim ensured.workspace [
  | fail err ↦ http_error (lit "Failed to provision workspace") 500
  | ok ws ↦
      let loading = serve_loading_page (display_name claims) (phase_text ws.status.phase) in
      let target = backend_http_url url_string ws.status.service_endpoint in
      if not (phase_eq ws.status.phase running) || is_empty ws.status.service_endpoint
      then loading
      else if reachable target
      then forwarded target ∷ []
      else loading
])

-- handleProxy
unfoldable pub handle_proxy :
    TokenValidator
    → WorkspaceLifecycle
    → (url_string : (scheme host : Text) → Text) → (reachable : Text → Bool) → (namespace : Text)
    → Bool
    → Request
    → List Effect
unfolding proxy_for
handle_proxy validator lifecycle url_string reachable namespace secure r = elim (extract_token r) [
  | none ↦ redirected (lit "/login") ∷ []
  | some raw_token ↦ elim (validator.validate raw_token) [
    | rejected err ↦
        cookie_set (cleared (lit "devplane_token") secure) ∷ redirected (lit "/login") ∷ []
    | accepted claims ↦
        proxy_for url_string reachable claims (lifecycle.ensure_exists namespace claims)
  ]
]
