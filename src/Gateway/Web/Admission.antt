-- ===== src/Gateway/Web/Admission.antt =====
-- Which requests reach the cluster or a workspace's pod.
use dev_plane.Base.{
  Bool, true, none, some, subst, refl, List, [], ◌∷◌, ◌≡◌, All, Bool-cases, not, ◌&&◌, Option-cases,
  inl, inr,
}
use dev_plane.Base.Text.{Text, lit, text_eq}
use dev_plane.Base.Result.{ok, OnOk}
use dev_plane.Api.{Workspace}
use dev_plane.Gateway.Lifecycle.{Claims, Write}
use dev_plane.Gateway.Activity.{Moment, on_activities}
use dev_plane.Gateway.Audit.{request_id}
use dev_plane.Gateway.RateLimit.{Verdict}
use dev_plane.Gateway.Auth.{Request, accepted, extract_token}
use dev_plane.Gateway.Auth.Genuine.{Validated-cases}
use dev_plane.Gateway.Web.{
  TokenValidator, WorkspaceLifecycle, write_json_error, missing_token, invalid_token, rate_limited,
}
use dev_plane.Gateway.Lifecycle.Named.{IsOn}
use dev_plane.Gateway.Web.Confined.{IsConfined, on_activities-IsOn}
use dev_plane.Gateway.Web.Behind.{
  NeedsLogin, ensure_for_api-NeedsLogin, proxy_for-NeedsLogin, connect-NeedsLogin,
}
use dev_plane.Gateway.Web.Workspaces.{handle_workspace_api, authorize_api, handle_proxy}
use dev_plane.Gateway.Web.Sessions.{WsContext, handle_ws, authorize}

-- The request has a token that the validator accepts.
unfoldable pub IsAuthenticated : TokenValidator → (Claims → Type 0) → Request → Type 0
IsAuthenticated validator P r =
    (raw_token : Text) × (claims : Claims) × (extract_token r ≡ some raw_token)
    × (validator.validate raw_token ≡ accepted claims)
    × P claims

-- The token was accepted and its subject is within the rate.
abbrev pub IsAdmitted : TokenValidator → (Text → Verdict) → Request → Type 0
IsAdmitted validator allow r =
    IsAuthenticated validator (λ claims. (allow claims.sub).allowed ≡ true) r

-- So it was, and the write is of the workspace that the claims name.
abbrev pub IsOwnWrite : TokenValidator → (Text → Verdict) → Request → Write → Type 0
IsOwnWrite validator allow r w =
    IsAuthenticated validator
      (λ claims. ((allow claims.sub).allowed ≡ true) × IsOn claims.user_id w) r

-- Whom the limiter lets pass, where there is none.
abbrev pub no_limit : Text → Verdict
no_limit sub = record { allowed = true; scope = [] }

module _ (validator : TokenValidator) (allow : Text → Verdict) (r : Request) (raw_token : Text)
    (claims : Claims) (found : extract_token r ≡ some raw_token)
    (valid : validator.validate raw_token ≡ accepted claims)
    (allowed : (allow claims.sub).allowed ≡ true) where
  admitted : IsAdmitted validator allow r
  unfolding IsAuthenticated
  admitted = (raw_token, claims, found, valid, allowed)

  own_writes :
      (ws : List Write) → All (IsOn claims.user_id) ws → All (IsOwnWrite validator allow r) ws
  unfolding IsAuthenticated
  own_writes [] h = tt
  own_writes (w ∷ ws) h = ((raw_token, claims, found, valid, (allowed, h.0)), own_writes ws h.1)

module _ (x : WsContext) (confined : IsConfined x.lifecycle) (uuid : Text) (r : Request) where
  pub api_admission :
      (secure : Bool)
      → All (NeedsLogin (IsAdmitted x.validator x.allow r) (IsOwnWrite x.validator x.allow r)) (
          handle_workspace_api x.validator x.lifecycle x.backend_ready x.allow x.namespace secure
            uuid r)
  unfolding handle_workspace_api authorize_api write_json_error missing_token invalid_token
      rate_limited
  api_admission secure =
      elim (Bool-cases
        (not (text_eq r.method (lit "GET")) && not (text_eq r.method (lit "POST")))) [
          | inl other_method ↦ rw (other_method, handle_workspace_api) (tt, tt)
          | inr known ↦ elim (Option-cases (extract_token r)) [
            | inl none_found ↦
                rw (known, handle_workspace_api, none_found) (tt, (tt, (tt, (tt, (tt, tt)))))
            | inr (raw_token, found) ↦ elim (Validated-cases (x.validator.validate raw_token)) [
              | inr (err, refusal) ↦
                  rw (known, handle_workspace_api, found, refusal)
                    (tt, (tt, (tt, (tt, (tt, (tt, tt))))))
              | inl (claims, valid) ↦ elim (Bool-cases (x.allow claims.sub).allowed) [
                | inl allowed ↦
                    rw (known, handle_workspace_api, found, valid, allowed)
                      (
                        tt,
                        ensure_for_api-NeedsLogin _ _
                            (admitted x.validator x.allow r raw_token claims found valid allowed)
                            x.backend_ready (request_id r.request_id uuid) x.namespace claims
                            (x.lifecycle.ensure_exists x.namespace claims)
                            (own_writes x.validator x.allow r raw_token claims found valid allowed _
                              (confined.exists_writes x.namespace claims)),
                      )
                | inr limited ↦
                    rw (known, handle_workspace_api, found, valid, limited)
                      (tt, (tt, (tt, (tt, (tt, (tt, tt))))))
              ]
            ]
          ]
        ]

  -- The touches of a session are the user's own.
  own_touches :
      (ms : List Moment) (claims : Claims) (ws : Workspace)
      → (x.lifecycle.ensure_workspace x.namespace claims).workspace ≡ ok ws
      → All
          (IsOn claims.user_id)
          (on_activities x.lifecycle.touch_last_accessed ms
            (record { last_touch = none; ws = ws })).0
  own_touches ms claims ws e =
      on_activities-IsOn x.lifecycle claims.user_id ms (record { last_touch = none; ws = ws })
        confined
        (subst (OnOk (λ (w : Workspace). w.name ≡ claims.user_id)) e
          (confined.workspace_named x.namespace claims))

  pub ws_admission :
      All
        (NeedsLogin (IsAdmitted x.validator x.allow r) (IsOwnWrite x.validator x.allow r))
        (handle_ws x uuid r)
  unfolding handle_ws authorize write_json_error missing_token invalid_token rate_limited
  ws_admission = elim (Option-cases (extract_token r)) [
    | inl none_found ↦ rw (none_found, handle_ws) (tt, (tt, (tt, (tt, (tt, tt)))))
    | inr (raw_token, found) ↦ elim (Validated-cases (x.validator.validate raw_token)) [
      | inr (err, refusal) ↦ rw (found, handle_ws, refusal) (tt, (tt, (tt, (tt, (tt, tt)))))
      | inl (claims, valid) ↦ elim (Bool-cases (x.allow claims.sub).allowed) [
        | inl allowed ↦
            let own = own_writes x.validator x.allow r raw_token claims found valid allowed in
            rw (found, handle_ws, valid, allowed)
              (
                tt,
                connect-NeedsLogin _ _
                    (admitted x.validator x.allow r raw_token claims found valid allowed) x
                    (request_id r.request_id uuid) r.remote_addr claims
                    (x.lifecycle.ensure_workspace x.namespace claims)
                    (own _ (confined.workspace_writes x.namespace claims))
                    (λ ws e. own _ (own_touches _ claims ws e)),
              )
        | inr limited ↦ rw (found, handle_ws, valid, limited) (tt, (tt, (tt, (tt, (tt, (tt, tt))))))
      ]
    ]
  ]

-- Over a lifecycle manager that keeps to the workspace of the user, handleWorkspaceAPI and handleWS
-- open a tunnel or record a session only for a request whose token the validator accepts, for claims
-- that the rate limiter lets pass, and each of their writes to the cluster, those of the session's
-- activity included, is of the workspace with the user ID of such claims as its name.
pub admission :
    (x : WsContext) (secure : Bool) (uuid : Text) (r : Request)
    → IsConfined x.lifecycle
    → All (NeedsLogin (IsAdmitted x.validator x.allow r) (IsOwnWrite x.validator x.allow r)) (
        handle_workspace_api x.validator x.lifecycle x.backend_ready x.allow x.namespace secure uuid
          r)
      × All
          (NeedsLogin (IsAdmitted x.validator x.allow r) (IsOwnWrite x.validator x.allow r))
          (handle_ws x uuid r)
admission x secure uuid r confined =
    (api_admission x confined uuid r secure, ws_admission x confined uuid r)

-- Over a lifecycle manager that keeps to the workspace of the user, handleProxy forwards a request
-- only where the validator accepts its token, whatever the rate limiters say, and each of its writes
-- to the cluster is of the workspace with the user ID of the accepted claims as its name.
pub proxy_admission :
    (validator : TokenValidator) (lifecycle : WorkspaceLifecycle)
    (url_string : (scheme host : Text) → Text) (reachable : Text → Bool) (namespace : Text)
    (secure : Bool) (r : Request)
    → IsConfined lifecycle
    → All
        (NeedsLogin (IsAdmitted validator no_limit r) (IsOwnWrite validator no_limit r))
        (handle_proxy validator lifecycle url_string reachable namespace secure r)
unfolding handle_proxy
proxy_admission validator lifecycle url_string reachable namespace secure r confined =
    elim (Option-cases (extract_token r)) [
      | inl none_found ↦ rw (none_found, handle_proxy) (tt, tt)
      | inr (raw_token, found) ↦ elim (Validated-cases (validator.validate raw_token)) [
        | inr (err, refusal) ↦ rw (found, handle_proxy, refusal) (tt, (tt, tt))
        | inl (claims, valid) ↦
            rw (found, handle_proxy, valid)
              (proxy_for-NeedsLogin _ _
                (admitted validator no_limit r raw_token claims found valid refl) url_string
                reachable claims (lifecycle.ensure_exists namespace claims)
                (own_writes validator no_limit r raw_token claims found valid refl _
                  (confined.exists_writes namespace claims)))
      ]
    ]
