-- ===== src/Gateway/Web/Login.antt =====
-- The browser's login: handleLogin and handleCallback of cmd/gateway/main.go.
use dev_plane.Base.{
  ℕ, ◌+◌, ◌*◌, Bool, true, Option, none, some, List, [], ◌∷◌, is_empty, if◌then◌else◌,
}
use dev_plane.Base.Int.{pos}
use dev_plane.Base.Text.{Text, lit, text_eq}
use dev_plane.Base.Result.{ok, fail}
use dev_plane.Gateway.Auth.{Request, accepted, rejected}
use dev_plane.Gateway.Audit.{
  request_id, login_redirect, log_oidc_callback_failure, log_oidc_callback_success,
}
use dev_plane.Gateway.Web.{
  Cookie, Effect, header_set, cookie_set, audited, redirected, TokenValidator, OauthConfig,
  http_error, cleared,
}

-- handleLogin; the state and the ID of a request without one are fresh UUIDs.
unfoldable pub handle_login : OauthConfig → Bool → (state uuid : Text) → Request → List Effect
handle_login cfg secure state uuid r =
    let id = request_id r.request_id uuid in
    header_set (lit "X-Request-ID") id
    ∷ cookie_set (record {
      name = lit "devplane_state";
      value = state;
      path = lit "/";
      max_age = pos 600;
      expires = none;
      http_only = true;
      secure = secure;
      same_site_lax = true;
    })
    ∷ audited (login_redirect id r.remote_addr)
    ∷ redirected (cfg.auth_code_url state)
    ∷ []

-- The cookie with the ID token, which expires with it, or in an hour.
unfoldable pub token_cookie : (raw_id_token : Text) → Option ℕ → ℕ → Bool → Cookie
token_cookie raw_id_token expiry now secure = record {
  name = lit "devplane_token";
  value = raw_id_token;
  path = lit "/";
  max_age = pos 0;
  expires = some (elim expiry [ some t ↦ t | none ↦ now + 3600 * 1000000000 ]);
  http_only = true;
  secure = secure;
  same_site_lax = true;
}

-- A failure of the callback: its audit record and its answer.
unfoldable pub callback_failure : (request_id reason message : Text) → ℕ → List Effect
callback_failure id reason message status =
    audited (log_oidc_callback_failure id reason) ∷ http_error message status

-- The end of handleCallback, from the ID token on.
unfoldable pub complete_login :
    TokenValidator → Bool → ℕ → (request_id : Text) → (raw_id_token : Text) → Option ℕ → List Effect
unfolding callback_failure token_cookie
complete_login validator secure now id raw_id_token expiry =
    elim (validator.validate raw_id_token) [
      | rejected err ↦ callback_failure id (lit "invalid_id_token") (lit "Invalid ID token") 401
      | accepted claims ↦
          cookie_set (token_cookie raw_id_token expiry now secure)
          ∷ audited (log_oidc_callback_success id claims)
          ∷ redirected (lit "/")
          ∷ []
    ]

-- From the exchange on.
unfoldable pub exchange_code :
    OauthConfig → TokenValidator → Bool → ℕ → (request_id : Text) → Request → List Effect
unfolding callback_failure complete_login
exchange_code cfg validator secure now id r =
    let missing =
      callback_failure id (lit "missing_id_token") (lit "Missing id_token in token response") 502 in
    elim (cfg.exchange r.query_code) [
      | fail err ↦
          callback_failure id (lit "token_exchange_failed") (lit "Token exchange failed") 502
      | ok token ↦ elim token.id_token [
        | none ↦ missing
        | some raw ↦
            if is_empty raw
            then missing
            else complete_login validator secure now id raw token.expiry
      ]
    ]

-- handleCallback
unfoldable pub handle_callback :
    OauthConfig → TokenValidator → Bool → ℕ → (uuid : Text) → Request → List Effect
unfolding callback_failure exchange_code
handle_callback cfg validator secure now uuid r =
    let id = request_id r.request_id uuid in
    header_set (lit "X-Request-ID") id ∷ (elim r.state_cookie [
      | none ↦ callback_failure id (lit "missing_state_cookie") (lit "Missing state cookie") 400
      | some state ↦
          if text_eq r.query_state state
          then cookie_set (cleared (lit "devplane_state") secure)
            ∷ exchange_code cfg validator secure now id r
          else callback_failure id (lit "state_mismatch") (lit "State mismatch") 400
    ])
