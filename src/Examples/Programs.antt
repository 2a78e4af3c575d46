-- ===== src/Examples/Programs.antt =====
-- A gateway's environment, and a request to it.
use dev_plane.Base.{
  ℕ, ◌+◌, true, none, List, [], ◌∷◌, ◌≡◌, ◌≢◌, refl, inl, inr, All, Bool-cases, if◌then◌else◌,
}
use dev_plane.Base.Text.{Text, lit, text_eq, trim_space, has_prefix, decimal}
use dev_plane.Base.Result.{ok}
use dev_plane.Gateway.Auth.{
  Request, new_validator_with_oidc, env_or, parse_oidc_clock_skew, oidc_config,
}
use dev_plane.Gateway.Program.{
  Environment, Libraries, verifying, GatewaySettings, Surroundings, web_socket, proxy, route,
  start_gateway, serve,
}
use dev_plane.Gateway.Program.Starts.{IsSecured, start_gateway-IsSecured}
use dev_plane.Gateway.Program.Serves.{Admitted, serve-Admitted}
use dev_plane.Gateway.Web.Measures.{answers, answered_errors}
use dev_plane.Gateway.Metrics.{CounterVec, count_errors}
use dev_plane.Gateway.Metrics.Errors.{
  labels_eq, labels_eq_refl, labels_eq_sound, times, serve_counts_errors,
}
use dev_plane.Examples.Cluster.{platform}
use dev_plane.Examples.Handlers.{context, request, oauth, validator, confined}

-- The variables without a default are set, the others are not.
abbrev env : Environment
env key =
    if text_eq key (lit "OIDC_ISSUER_URL")
    then lit "https://idp"
    else if text_eq key (lit "OIDC_CLIENT_ID")
    then lit "devplane"
    else if text_eq key (lit "OIDC_CLIENT_SECRET")
    then lit "s"
    else if text_eq key (lit "OIDC_REDIRECT_URL")
    then lit "https://dev/callback"
    else []

abbrev libraries : Libraries
libraries = record {
  unmarshal_providers = λ t. ok [];
  discovery = λ issuer. none;
  oauth_discovery = λ issuer. none;
  kubernetes = none;
}

abbrev settings : GatewaySettings
settings = record {
  authentication = verifying (lit "devplane") 60000000000;
  client_id = lit "devplane";
  client_secret = lit "s";
  redirect_url = lit "https://dev/callback";
  cookie_secure = true;
  namespace = lit "default";
  port = lit "8080";
  lifecycle = record {
    providers = [];
    default_cpu = lit "2";
    default_memory = lit "4Gi";
    default_storage = lit "20Gi";
    storage_class = [];
  };
}

start_gateway-settings : start_gateway platform env libraries ≡ ok settings
unfolding start_gateway new_validator_with_oidc env_or parse_oidc_clock_skew oidc_config text_eq
    trim_space has_prefix lit
start_gateway-settings = refl

start_gateway-IsSecured_example : IsSecured platform env libraries settings
start_gateway-IsSecured_example =
    start_gateway-IsSecured platform env libraries settings start_gateway-settings

abbrev gateway : Surroundings
gateway = record {
  sessions = context;
  allow_lifecycle = context.allow;
  cookie_secure = true;
  oauth = oauth;
  reachable = λ target. true;
  now = 5;
  state = lit "s";
  metrics_page = [];
}

serve-Admitted_example :
    All (Admitted validator request) (serve gateway (lit "u") (lit "/ws") request)
serve-Admitted_example = serve-Admitted gateway (lit "u") (lit "/ws") request confined

-- Only the exact paths have handlers of their own.
ws_route : route (lit "/ws") ≡ web_socket
unfolding route text_eq lit
ws_route = refl

below_ws_route : route (lit "/ws/") ≡ proxy
unfolding route text_eq lit
below_ws_route = refl

-- Counters as a function of the label values.
counted_same :
    (labels : List Text) (s : List Text → ℕ)
    → (if labels_eq labels labels then s labels + 1 else s labels) ≡ s labels + 1
counted_same labels s = rw (labels_eq_refl labels) refl

counted_other :
    (labels others : List Text) (s : List Text → ℕ)
    → labels ≢ others
    → (if labels_eq labels others then s labels + 1 else s labels) ≡ s labels
counted_other labels others s d = elim (Bool-cases (labels_eq labels others)) [
  | inl e ↦ absurd (d (labels_eq_sound labels others e))
  | inr e ↦ rw e refl
]

abbrev counters : CounterVec
counters = record {
  State = List Text → ℕ;
  inc = λ labels s l. if labels_eq l labels then s l + 1 else s l;
  value = λ labels s. s labels;
  inc_same = λ labels s. counted_same labels s;
  inc_other = λ labels others s d. counted_other labels others s d;
}

-- A request without a token.
abbrev anonymous : Request
anonymous = record request { authorization = [] }

serve_counts_errors_example :
    (answers (serve gateway (lit "u") (lit "/ws") anonymous) ≡ 1)
    × (counters.value
          (decimal 401 ∷ lit "unauthorized" ∷ [])
          (count_errors counters (serve gateway (lit "u") (lit "/ws") anonymous) (λ l. 0))
        ≡ 0
          + times
              (decimal 401 ∷ lit "unauthorized" ∷ [])
              (answered_errors (serve gateway (lit "u") (lit "/ws") anonymous)))
serve_counts_errors_example =
    serve_counts_errors counters gateway (lit "u") (lit "/ws") anonymous 401 (lit "unauthorized")
      (λ l. 0)
