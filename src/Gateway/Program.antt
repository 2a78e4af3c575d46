-- ===== src/Gateway/Program.antt =====
-- The main program of cmd/gateway/main.go: what it makes of its environment before it serves, and
-- which handler it gives a path to.
pub mod Starts
pub mod Serves
use dev_plane.Base.{ℕ, Bool, Option, none, some, List, [], ◌∷◌, ◌++◌, is_empty, if◌then◌else◌}
use dev_plane.Base.Int.{ℤ}
use dev_plane.Base.Text.{Text, lit, text_eq, trim_space, has_prefix}
use dev_plane.Base.Result.{Error, Result, ok, fail, new_error, wrap, ◌>>=◌}
use dev_plane.Api.{AiProvider}
use dev_plane.Platform.{Platform}
use dev_plane.Resources.Build.{in_context, check, ◌>>◌}
use dev_plane.Gateway.Lifecycle.{Claims, LifecycleConfig}
use dev_plane.Gateway.RateLimit.{Verdict}
use dev_plane.Gateway.Auth.{
  Request, new_validator_with_oidc, new_fixed_identity_validator, env_or, parse_oidc_clock_skew,
  oidc_config,
}
use dev_plane.Gateway.Web.{Effect, responded, plain, OauthConfig, handle_health}
use dev_plane.Gateway.Web.Login.{handle_login, handle_callback}
use dev_plane.Gateway.Web.Workspaces.{handle_workspace_api, handle_proxy}
use dev_plane.Gateway.Web.Sessions.{WsContext, handle_ws}

-- The variables: os.Getenv, which is empty where one is not set.
abbrev pub Environment : Type 0
Environment = Text → Text

-- What main asks of libraries: json.Unmarshal of the providers, the errors of the discovery of an
-- identity provider, for the validator and for the OAuth2 flow, and of the Kubernetes client.
pub record Libraries : Type 0 where
  pub unmarshal_providers : Text → Result (List AiProvider)
  pub discovery : (issuer : Text) → Option Error
  pub oauth_discovery : (issuer : Text) → Option Error
  pub kubernetes : Option Error

-- The validator: one identity for every token, or the audience that is demanded of a token and by
-- how many nanoseconds the verifier's clock is behind.
pub data Authentication : Type 0 where
  fixed_identity : Claims → Authentication
  verifying : (audience : Text) → ℕ → Authentication

-- What main serves with.
pub record GatewaySettings : Type 0 where
  pub authentication : Authentication
  pub client_id : Text
  pub client_secret : Text
  pub redirect_url : Text
  pub cookie_secure : Bool
  pub namespace : Text
  pub port : Text
  pub lifecycle : LifecycleConfig

abbrev pub default_providers : Text
default_providers =
    lit
      "[{\"name\":\"local\",\"endpoint\":\"http://vllm.ai-system.svc:8000\",\"models\":[\"deepseek-coder-33b-instruct\"]}]"

module _ (k : Platform) (env : Environment) where
  -- mustEnv, where an exit is a failure.
  unfoldable pub must_env : Text → Result Text
  must_env key =
      let v = env key in
      if is_empty v
      then fail (new_error (lit "required env var " ++ k.quote key ++ lit " is not set"))
      else ok v

  module _ (libraries : Libraries) where
    -- The validator that verifies tokens.
    unfoldable pub oidc_authentication : (issuer client : Text) → Result Authentication
    oidc_authentication issuer client = do
      skew ←
          in_context (lit "invalid OIDC_CLOCK_SKEW")
            (parse_oidc_clock_skew k.parse_duration (env (lit "OIDC_CLOCK_SKEW")))
      validator ← in_context (lit "Failed to initialize OIDC validator") (
          new_validator_with_oidc (oidc_config issuer client (env (lit "OIDC_AUDIENCE")) skew)
            (k.quote issuer) (libraries.discovery issuer))
      ok (verifying validator.0 validator.1)

    unfoldable pub authentication_for : (issuer client : Text) → Result Authentication
    unfolding oidc_authentication
    authentication_for issuer client =
        if text_eq (env (lit "GATEWAY_DEV_INSECURE_FIXED_IDENTITY")) (lit "1")
        then ok (
            fixed_identity (
              new_fixed_identity_validator k.unicode_lower
                (env_or (env (lit "GATEWAY_DEV_USER_SUB")) (lit "dev-user"))
                (env_or (env (lit "GATEWAY_DEV_USER_EMAIL")) (lit "dev@localhost"))))
        else oidc_authentication issuer client

    unfoldable pub lifecycle_config : List AiProvider → LifecycleConfig
    lifecycle_config providers = record {
      providers = providers;
      default_cpu = env_or (env (lit "DEFAULT_CPU")) (lit "2");
      default_memory = env_or (env (lit "DEFAULT_MEMORY")) (lit "4Gi");
      default_storage = env_or (env (lit "DEFAULT_STORAGE")) (lit "20Gi");
      storage_class = env (lit "DEFAULT_STORAGE_CLASS");
    }

    -- main from the providers on, up to the listener. It exits at the first failure.
    unfoldable pub settings_for : (issuer client secret redirect : Text) → Result GatewaySettings
    unfolding authentication_for lifecycle_config
    settings_for issuer client secret redirect = do
      providers ←
          in_context (lit "failed to parse AI_PROVIDERS_JSON") (
            libraries.unmarshal_providers
              (env_or (env (lit "AI_PROVIDERS_JSON")) default_providers))
      authentication ← authentication_for issuer client
      check (lit "Failed to initialize OIDC provider for OAuth2 flow")
          (libraries.oauth_discovery issuer)
      check (lit "Failed to create Kubernetes client") libraries.kubernetes
      ok (record {
        authentication = authentication;
        client_id = client;
        client_secret = secret;
        redirect_url = redirect;
        cookie_secure = has_prefix (lit "https://") redirect;
        namespace = env_or (env (lit "NAMESPACE")) (lit "default");
        port = env_or (env (lit "PORT")) (lit "8080");
        lifecycle = lifecycle_config providers;
      })

    -- main, with the variables that have no default first.
    unfoldable pub start_gateway : Result GatewaySettings
    unfolding must_env settings_for
    start_gateway = do
      issuer ← must_env (lit "OIDC_ISSUER_URL")
      client ← must_env (lit "OIDC_CLIENT_ID")
      secret ← must_env (lit "OIDC_CLIENT_SECRET")
      redirect ← must_env (lit "OIDC_REDIRECT_URL")
      settings_for issuer client secret redirect

-- The patterns of the multiplexer, of which only "/" matches other paths too.
pub data Route : Type 0 where
  metrics health workspace_api web_socket login callback proxy : Route

unfoldable pub route : Text → Route
route path =
    if text_eq path (lit "/metrics")
    then metrics
    else if text_eq path (lit "/health")
    then health
    else if text_eq path (lit "/api/workspace")
    then workspace_api
    else if text_eq path (lit "/ws")
    then web_socket
    else if text_eq path (lit "/login")
    then login
    else if text_eq path (lit "/callback")
    then callback
    else proxy

-- What the handlers are built with beside the context of handleWS: the limiter of the API, the
-- cookies' Secure flag, the OAuth2 client, whether a pod answers the reverse proxy, the clock, a
-- fresh state, and the text of the metrics page.
pub record Surroundings : Type 0 where
  pub sessions : WsContext
  pub allow_lifecycle : Text → Verdict
  pub cookie_secure : Bool
  pub oauth : OauthConfig
  pub reachable : Text → Bool
  pub now : ℕ
  pub state : Text
  pub metrics_page : Text

-- The handler of a route.
unfoldable pub serve_route : Surroundings → (uuid : Text) → Route → Request → List Effect
serve_route y uuid metrics r = responded 200 (plain y.metrics_page) ∷ []
serve_route y uuid health r = handle_health
serve_route y uuid workspace_api r =
    handle_workspace_api y.sessions.validator y.sessions.lifecycle y.sessions.backend_ready
      y.allow_lifecycle y.sessions.namespace y.cookie_secure uuid r
serve_route y uuid web_socket r = handle_ws y.sessions uuid r
serve_route y uuid login r = handle_login y.oauth y.cookie_secure y.state uuid r
serve_route y uuid callback r =
    handle_callback y.oauth y.sessions.validator y.cookie_secure y.now uuid r
serve_route y uuid proxy r =
    handle_proxy y.sessions.validator y.sessions.lifecycle y.sessions.url_string y.reachable
      y.sessions.namespace y.cookie_secure r

-- A request for a path that is clean, as the multiplexer leaves it.
unfoldable pub serve : Surroundings → (uuid path : Text) → Request → List Effect
unfolding route serve_route
serve y uuid path r = serve_route y uuid (route path) r
