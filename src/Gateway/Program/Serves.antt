-- ===== src/Gateway/Program/Serves.antt =====
-- The gateway as a whole: what any request to any path may bring about.
use dev_plane.Base.{ℕ, Bool, List, [], ◌∷◌, All, Bool-cases, Option-cases, inl, inr, is_empty, refl}
use dev_plane.Base.Text.{Text, text_eq}
use dev_plane.Base.Result.{Result-cases}
use dev_plane.Gateway.Lifecycle.{Write}
use dev_plane.Gateway.RateLimit.{Verdict}
use dev_plane.Gateway.Auth.{Request}
use dev_plane.Gateway.Auth.Genuine.{Validated-cases}
use dev_plane.Gateway.Web.{
  Effect, header_set, cookie_set, audited, error_counted, rate_limit_counted, written, responded,
  redirected, forwarded, tunnelled, recorded, TokenValidator, OauthConfig, handle_health,
}
use dev_plane.Gateway.Web.Login.{
  handle_login, handle_callback, exchange_code, complete_login, callback_failure,
}
use dev_plane.Gateway.Web.Behind.{NeedsLogin}
use dev_plane.Gateway.Web.Confined.{IsConfined}
use dev_plane.Gateway.Web.Admission.{
  IsAuthenticated, IsAdmitted, IsOwnWrite, no_limit, api_admission, ws_admission, proxy_admission,
}
use dev_plane.Gateway.Program.{
  Surroundings, Route, metrics, health, workspace_api, web_socket, login, callback, proxy, route,
  serve_route, serve,
}

NeedsLogin-map :
    (C D : Type 0) (V W : Write → Type 0) (e : Effect)
    → (C → D)
    → ((w : Write) → V w → W w)
    → NeedsLogin C V e
    → NeedsLogin D W e
NeedsLogin-map C D V W (written w) f g h = g w h
NeedsLogin-map C D V W (forwarded target) f g h = f h
NeedsLogin-map C D V W (tunnelled target) f g h = f h
NeedsLogin-map C D V W (recorded r m) f g h = f h
NeedsLogin-map C D V W (header_set k v) f g h = tt
NeedsLogin-map C D V W (cookie_set c) f g h = tt
NeedsLogin-map C D V W (audited a) f g h = tt
NeedsLogin-map C D V W (error_counted n t) f g h = tt
NeedsLogin-map C D V W (rate_limit_counted e s) f g h = tt
NeedsLogin-map C D V W (responded n b) f g h = tt
NeedsLogin-map C D V W (redirected t) f g h = tt

-- Admission, whatever the rate limiters say.
abbrev pub Admitted : TokenValidator → Request → Effect → Type 0
Admitted validator r =
    NeedsLogin (IsAdmitted validator no_limit r) (IsOwnWrite validator no_limit r)

unlimited :
    (validator : TokenValidator) (allow : Text → Verdict) (r : Request) (es : List Effect)
    → All (NeedsLogin (IsAdmitted validator allow r) (IsOwnWrite validator allow r)) es
    → All (Admitted validator r) es
unfolding IsAuthenticated
unlimited validator allow r [] h = tt
unlimited validator allow r (e ∷ es) h = (
  NeedsLogin-map _ _ _ _ e (λ (raw, claims, found, valid, ok). (raw, claims, found, valid, refl))
      (λ w (raw, claims, found, valid, (ok, own)). (raw, claims, found, valid, (refl, own))) h.0,
  unlimited validator allow r es h.1,
)

module _ (C : Type 0) (W : Write → Type 0) (cfg : OauthConfig) (validator : TokenValidator)
    (secure : Bool) (now : ℕ) where
  exchange_code-NeedsLogin :
      (id : Text) (r : Request) → All (NeedsLogin C W) (exchange_code cfg validator secure now id r)
  unfolding exchange_code complete_login callback_failure
  exchange_code-NeedsLogin id r = elim (Result-cases (cfg.exchange r.query_code)) [
    | inr (err, e) ↦ rw (e, exchange_code) (tt, (tt, tt))
    | inl (token, e) ↦ elim (Option-cases token.id_token) [
      | inl f ↦ rw (e, exchange_code, f) (tt, (tt, tt))
      | inr (raw, f) ↦ elim (Bool-cases (is_empty raw)) [
        | inl g ↦ rw (e, exchange_code, f, g) (tt, (tt, tt))
        | inr g ↦ elim (Validated-cases (validator.validate raw)) [
          | inr (err, h) ↦ rw (e, exchange_code, f, g, complete_login, h) (tt, (tt, tt))
          | inl (claims, h) ↦ rw (e, exchange_code, f, g, complete_login, h) (tt, (tt, (tt, tt)))
        ]
      ]
    ]
  ]

  handle_callback-NeedsLogin :
      (uuid : Text) (r : Request)
      → All (NeedsLogin C W) (handle_callback cfg validator secure now uuid r)
  unfolding handle_callback callback_failure
  handle_callback-NeedsLogin uuid r = elim (Option-cases r.state_cookie) [
    | inl e ↦ rw e (tt, (tt, (tt, tt)))
    | inr (state, e) ↦ elim (Bool-cases (text_eq r.query_state state)) [
      | inl same ↦ rw (e, same) (tt, (tt, exchange_code-NeedsLogin _ r))
      | inr differs ↦ rw (e, differs) (tt, (tt, (tt, tt)))
    ]
  ]

  handle_login-NeedsLogin :
      (state uuid : Text) (r : Request)
      → All (NeedsLogin C W) (handle_login cfg secure state uuid r)
  unfolding handle_login
  handle_login-NeedsLogin state uuid r = (tt, (tt, (tt, (tt, tt))))

module _ (y : Surroundings) (confined : IsConfined y.sessions.lifecycle) (uuid : Text) where
  serve_route-Admitted :
      (p : Route) (r : Request) → All (Admitted y.sessions.validator r) (serve_route y uuid p r)
  unfolding serve_route handle_health
  serve_route-Admitted metrics r = (tt, tt)
  serve_route-Admitted health r = (tt, tt)
  serve_route-Admitted workspace_api r = unlimited y.sessions.validator y.allow_lifecycle r _ (
      api_admission (record y.sessions { allow = y.allow_lifecycle }) confined uuid r
        y.cookie_secure)
  serve_route-Admitted web_socket r =
      unlimited y.sessions.validator y.sessions.allow r _ (ws_admission y.sessions confined uuid r)
  serve_route-Admitted login r =
      handle_login-NeedsLogin _ _ y.oauth y.sessions.validator y.cookie_secure y.now y.state uuid r
  serve_route-Admitted callback r =
      handle_callback-NeedsLogin _ _ y.oauth y.sessions.validator y.cookie_secure y.now uuid r
  serve_route-Admitted proxy r =
      proxy_admission y.sessions.validator y.sessions.lifecycle y.sessions.url_string y.reachable
        y.sessions.namespace y.cookie_secure r confined

-- The gateway, over a lifecycle manager that keeps to the workspace of the user: whatever the path
-- of a request, it is forwarded, tunnelled or recorded only if the validator accepts its token, and
-- each of its writes to the cluster is of the workspace with the user ID of the accepted claims as
-- its name.
pub serve-Admitted :
    (y : Surroundings) (uuid path : Text) (r : Request)
    → IsConfined y.sessions.lifecycle
    → All (Admitted y.sessions.validator r) (serve y uuid path r)
unfolding serve
serve-Admitted y uuid path r confined = serve_route-Admitted y confined uuid (route path) r
