-- ===== src/Gateway/Web/Answers.antt =====
-- Each request gets one answer, and each JSON error is counted.
use dev_plane.Base.{
  ℕ, Bool, Option, none, some, List, ◌++◌, ◌≡◌, refl, Bool-cases, Option-cases, inl, inr, not, ◌&&◌,
  ◌||◌, is_empty,
}
use dev_plane.Base.Text.{Text, lit, text_eq}
use dev_plane.Base.Result.{Error, Result-cases}
use dev_plane.Api.{Workspace, phase_eq, running}
use dev_plane.Gateway.Lifecycle.{Claims, Ensured}
use dev_plane.Gateway.Auth.{Request, extract_token}
use dev_plane.Gateway.Auth.Genuine.{Validated-cases}
use dev_plane.Gateway.Audit.{request_id}
use dev_plane.Gateway.Proxy.{backend_http_url}
use dev_plane.Gateway.Recording.{SessionRecorder}
use dev_plane.Gateway.Web.Measures.{
  answers, counted_errors, answered_errors, IsAnswered, writes-IsAnswered, answers-writes,
  counted_errors-writes, answered_errors-writes,
}
use dev_plane.Gateway.Web.{
  Effect, TokenValidator, WorkspaceLifecycle, OauthConfig, Served, write_json_error, missing_token,
  invalid_token, rate_limited, serve_loading_page,
}
use dev_plane.Gateway.Web.Login.{
  handle_login, handle_callback, exchange_code, complete_login, callback_failure,
}
use dev_plane.Gateway.Web.Workspaces.{
  handle_workspace_api, authorize_api, ensure_for_api, handle_proxy, proxy_for,
}
use dev_plane.Gateway.Web.Sessions.{
  WsContext, handle_ws, authorize, connect, run_session, recording_of, session_ended,
}

complete_login-IsAnswered :
    (validator : TokenValidator) (secure : Bool) (now : ℕ) (id raw : Text) (expiry : Option ℕ)
    → IsAnswered (complete_login validator secure now id raw expiry)
unfolding complete_login callback_failure
complete_login-IsAnswered validator secure now id raw expiry =
    elim (Validated-cases (validator.validate raw)) [
      | inl (claims, e) ↦ rw (e, complete_login) (refl, refl)
      | inr (err, e) ↦ rw (e, complete_login) (refl, refl)
    ]

exchange_code-IsAnswered :
    (cfg : OauthConfig) (validator : TokenValidator) (secure : Bool) (now : ℕ) (id : Text)
    (r : Request)
    → IsAnswered (exchange_code cfg validator secure now id r)
unfolding exchange_code callback_failure
exchange_code-IsAnswered cfg validator secure now id r =
    elim (Result-cases (cfg.exchange r.query_code)) [
      | inr (err, e) ↦ rw (e, exchange_code) (refl, refl)
      | inl (token, e) ↦ elim (Option-cases token.id_token) [
        | inl f ↦ rw (e, exchange_code, f) (refl, refl)
        | inr (raw, f) ↦ elim (Bool-cases (is_empty raw)) [
          | inl g ↦ rw (e, exchange_code, f, g) (refl, refl)
          | inr g ↦
              rw (e, exchange_code, f, g)
                (complete_login-IsAnswered validator secure now id raw token.expiry)
        ]
      ]
    ]

pub handle_callback-IsAnswered :
    (cfg : OauthConfig) (validator : TokenValidator) (secure : Bool) (now : ℕ) (uuid : Text)
    (r : Request)
    → IsAnswered (handle_callback cfg validator secure now uuid r)
unfolding handle_callback callback_failure
handle_callback-IsAnswered cfg validator secure now uuid r = elim (Option-cases r.state_cookie) [
  | inl e ↦ rw e (refl, refl)
  | inr (state, e) ↦ elim (Bool-cases (text_eq r.query_state state)) [
    | inl same ↦ rw (e, same) (exchange_code-IsAnswered cfg validator secure now _ r)
    | inr differs ↦ rw (e, differs) (refl, refl)
  ]
]

ensure_for_api-IsAnswered :
    (backend_ready : Text → Bool) (id namespace : Text) (claims : Claims) (ensured : Ensured)
    → IsAnswered (ensure_for_api backend_ready id namespace claims ensured)
unfolding ensure_for_api write_json_error
ensure_for_api-IsAnswered backend_ready id namespace claims ensured =
    writes-IsAnswered ensured.writes _ (elim (Result-cases ensured.workspace) [
      | inl (ws, e) ↦ rw e (refl, refl)
      | inr (err, e) ↦ rw e (refl, refl)
    ])

pub handle_workspace_api-IsAnswered :
    (x : WsContext) (secure : Bool) (uuid : Text) (r : Request)
    → IsAnswered (
        handle_workspace_api x.validator x.lifecycle x.backend_ready x.allow x.namespace secure uuid
          r)
unfolding handle_workspace_api authorize_api write_json_error missing_token invalid_token
    rate_limited
handle_workspace_api-IsAnswered x secure uuid r =
    elim (Bool-cases (not (text_eq r.method (lit "GET")) && not (text_eq r.method (lit "POST")))) [
      | inl other_method ↦ rw (other_method, handle_workspace_api) (refl, refl)
      | inr known ↦ elim (Option-cases (extract_token r)) [
        | inl none_found ↦ rw (known, handle_workspace_api, none_found) (refl, refl)
        | inr (raw_token, found) ↦ elim (Validated-cases (x.validator.validate raw_token)) [
          | inr (err, refusal) ↦ rw (known, handle_workspace_api, found, refusal) (refl, refl)
          | inl (claims, valid) ↦ elim (Bool-cases (x.allow claims.sub).allowed) [
            | inl allowed ↦
                rw (known, handle_workspace_api, found, valid, allowed)
                  (ensure_for_api-IsAnswered x.backend_ready (request_id r.request_id uuid)
                    x.namespace claims (x.lifecycle.ensure_exists x.namespace claims))
            | inr limited ↦ rw (known, handle_workspace_api, found, valid, limited) (refl, refl)
          ]
        ]
      ]
    ]

proxy_for-IsAnswered :
    (url_string : (scheme host : Text) → Text) (reachable : Text → Bool) (claims : Claims)
    (ensured : Ensured)
    → IsAnswered (proxy_for url_string reachable claims ensured)
unfolding proxy_for serve_loading_page
proxy_for-IsAnswered url_string reachable claims ensured =
    writes-IsAnswered ensured.writes _ (elim (Result-cases ensured.workspace) [
      | inr (err, e) ↦ rw e (refl, refl)
      | inl (ws, e) ↦
          elim (Bool-cases
            (not (phase_eq ws.status.phase running) || is_empty ws.status.service_endpoint)) [
              | inl loading ↦ rw (e, loading) (refl, refl)
              | inr up ↦
                  elim (Bool-cases
                    (reachable (backend_http_url url_string ws.status.service_endpoint))) [
                      | inl reached ↦ rw (e, up, reached) (refl, refl)
                      | inr down ↦ rw (e, up, down) (refl, refl)
                    ]
            ]
    ])

pub handle_proxy-IsAnswered :
    (validator : TokenValidator) (lifecycle : WorkspaceLifecycle)
    (url_string : (scheme host : Text) → Text) (reachable : Text → Bool) (namespace : Text)
    (secure : Bool) (r : Request)
    → IsAnswered (handle_proxy validator lifecycle url_string reachable namespace secure r)
unfolding handle_proxy
handle_proxy-IsAnswered validator lifecycle url_string reachable namespace secure r =
    elim (Option-cases (extract_token r)) [
      | inl none_found ↦ rw (none_found, handle_proxy) (refl, refl)
      | inr (raw_token, found) ↦ elim (Validated-cases (validator.validate raw_token)) [
        | inr (err, refusal) ↦ rw (found, handle_proxy, refusal) (refl, refl)
        | inl (claims, valid) ↦
            rw (found, handle_proxy, valid)
              (proxy_for-IsAnswered url_string reachable claims
                (lifecycle.ensure_exists namespace claims))
      ]
    ]

module _ (x : WsContext) where
  answers-recording_of :
      (served : Served) (r : Option SessionRecorder) (es : List Effect)
      → answers (recording_of x served r ++ es) ≡ answers es
  unfolding recording_of
  answers-recording_of served none es = refl
  answers-recording_of served (some r) es = refl

  answers-session_ended :
      (id : Text) (claims : Claims) (ws : Workspace) (failure : Option Error)
      → answers (session_ended x id claims ws failure) ≡ 0
  unfolding session_ended
  answers-session_ended id claims ws none = refl
  answers-session_ended id claims ws (some err) = refl

  counted_errors-recording_of :
      (served : Served) (r : Option SessionRecorder) (es : List Effect)
      → counted_errors (recording_of x served r ++ es) ≡ counted_errors es
  unfolding recording_of
  counted_errors-recording_of served none es = refl
  counted_errors-recording_of served (some r) es = refl

  answered_errors-recording_of :
      (served : Served) (r : Option SessionRecorder) (es : List Effect)
      → answered_errors (recording_of x served r ++ es) ≡ answered_errors es
  unfolding recording_of
  answered_errors-recording_of served none es = refl
  answered_errors-recording_of served (some r) es = refl

  ended_errors :
      (id : Text) (claims : Claims) (ws : Workspace) (failure : Option Error)
      → counted_errors (session_ended x id claims ws failure)
        ≡ answered_errors (session_ended x id claims ws failure)
  unfolding session_ended
  ended_errors id claims ws none = refl
  ended_errors id claims ws (some err) = refl

  run_session-IsAnswered :
      (id remote : Text) (claims : Claims) (ws : Workspace)
      → IsAnswered (run_session x id remote claims ws)
  unfolding run_session
  run_session-IsAnswered id remote claims ws = (
    rw (answers-writes, answers-recording_of, answers-session_ended) refl,
    rw
        (
          counted_errors-writes, answered_errors-writes, counted_errors-recording_of,
          answered_errors-recording_of,
        )
        (ended_errors id claims _ _),
  )

  connect-IsAnswered :
      (id remote : Text) (claims : Claims) (ensured : Ensured)
      → IsAnswered (connect x id remote claims ensured)
  unfolding connect write_json_error
  connect-IsAnswered id remote claims ensured =
      writes-IsAnswered ensured.writes _ (elim (Result-cases ensured.workspace) [
        | inr (err, e) ↦ rw e (refl, refl)
        | inl (ws, e) ↦ elim (Bool-cases (x.backend_ready ws.status.service_endpoint)) [
          | inl ready ↦ rw (e, ready) (run_session-IsAnswered id remote claims ws)
          | inr waits ↦ rw (e, waits) (refl, refl)
        ]
      ])

  pub handle_ws-IsAnswered : (uuid : Text) (r : Request) → IsAnswered (handle_ws x uuid r)
  unfolding handle_ws authorize write_json_error missing_token invalid_token rate_limited
  handle_ws-IsAnswered uuid r = elim (Option-cases (extract_token r)) [
    | inl none_found ↦ rw (none_found, handle_ws) (refl, refl)
    | inr (raw_token, found) ↦ elim (Validated-cases (x.validator.validate raw_token)) [
      | inr (err, refusal) ↦ rw (found, handle_ws, refusal) (refl, refl)
      | inl (claims, valid) ↦ elim (Bool-cases (x.allow claims.sub).allowed) [
        | inl allowed ↦
            rw (found, handle_ws, valid, allowed)
              (connect-IsAnswered (request_id r.request_id uuid) r.remote_addr claims
                (x.lifecycle.ensure_workspace x.namespace claims))
        | inr limited ↦ rw (found, handle_ws, valid, limited) (refl, refl)
      ]
    ]
  ]

-- Every handler answers its request once: with a response, a redirect, or by handing it on to the
-- pod, whatever the validator, the limiter, the cluster, the identity provider and the pod answer.
pub handlers_answer_once :
    (x : WsContext) (cfg : OauthConfig) (reachable : Text → Bool) (secure : Bool) (now : ℕ)
    (state uuid : Text) (r : Request)
    → (answers (handle_login cfg secure state uuid r) ≡ 1)
      × (answers (handle_callback cfg x.validator secure now uuid r) ≡ 1)
      × (answers (
            handle_workspace_api x.validator x.lifecycle x.backend_ready x.allow x.namespace secure
              uuid r)
          ≡ 1)
      × (answers (handle_proxy x.validator x.lifecycle x.url_string reachable x.namespace secure r)
          ≡ 1)
      × (answers (handle_ws x uuid r) ≡ 1)
unfolding handle_login
handlers_answer_once x cfg reachable secure now state uuid r = (
  refl,
  (handle_callback-IsAnswered cfg x.validator secure now uuid r).0,
  (handle_workspace_api-IsAnswered x secure uuid r).0,
  (handle_proxy-IsAnswered x.validator x.lifecycle x.url_string reachable x.namespace secure r).0,
  (handle_ws-IsAnswered x uuid r).0,
)
