-- ===== src/Examples/Handlers.antt =====
-- Requests to the gateway's handlers.
use dev_plane.Base.{ℕ, ◌*◌, true, none, some, [], ◌∷◌, ◌++◌, ◌≡◌, refl, All}
use dev_plane.Base.Text.{Text, lit, contains, has_prefix}
use dev_plane.Base.Result.{ok}
use dev_plane.Api.{Workspace, running}
use dev_plane.Gateway.Lifecycle.{Claims, LifecycleConfig, Server, Poll}
use dev_plane.Gateway.Auth.{Request, accepted, extract_token}
use dev_plane.Gateway.Recording.{Frame, full}
use dev_plane.Gateway.Web.{TokenValidator, WorkspaceLifecycle, OauthConfig}
use dev_plane.Gateway.Web.Login.{handle_callback}
use dev_plane.Gateway.Web.Workspaces.{handle_workspace_api}
use dev_plane.Gateway.Web.Sessions.{WsContext, handle_ws}
use dev_plane.Gateway.Web.Css.{HttpResponse, head_close}
use dev_plane.Gateway.Web.Admission.{IsAdmitted, IsOwnWrite, admission}
use dev_plane.Gateway.Web.Behind.{NeedsLogin}
use dev_plane.Gateway.Web.Confined.{IsConfined}
use dev_plane.Gateway.Web.Manager.{lifecycle_manager, lifecycle_manager-IsConfined}
use dev_plane.Gateway.Lifecycle.Named.{IsFaithful}
use dev_plane.Gateway.Web.Grants.{CookieIsGranted, handle_callback-IsGranted}
use dev_plane.Gateway.Web.Secrets.{tokens_hidden}
use dev_plane.Gateway.Web.Ends.{IsAccounted, handle_ws-IsAccounted}
use dev_plane.Examples.Cluster.{platform, workspace_in}

abbrev pub jane : Claims
jane = record { sub = lit "jane"; email = lit "jane@example.com"; user_id = lit "jane" }

abbrev pub validator : TokenValidator
validator = record { validate = λ token. accepted jane }

abbrev pub defaults : LifecycleConfig
defaults = record {
  providers = [];
  default_cpu = lit "1";
  default_memory = lit "2Gi";
  default_storage = lit "10Gi";
  storage_class = [];
}

-- The server has every workspace that it is asked for, and accepts all writes.
abbrev pub named : Text → Workspace
named name = record (workspace_in running) { name = name }

abbrev pub api_server : Server
api_server = record {
  get = λ ns name. ok (named name);
  create = λ w. ok w;
  patch = λ w. ok w;
  now = 9;
}

abbrev pub polls : Text → ℕ → Poll
polls name i = record {
  elapsed = 2000000000 * i;
  get = ok (named name);
  patch = λ w. ok w;
  done = none;
}

abbrev pub lifecycle : WorkspaceLifecycle
lifecycle = lifecycle_manager platform defaults api_server polls

api_server-IsFaithful : IsFaithful api_server
api_server-IsFaithful = record { got = λ ns name. refl; created = λ w. refl; patched = λ w. refl }

lifecycle_manager-IsConfined_example :
    IsConfined (lifecycle_manager platform defaults api_server polls)
lifecycle_manager-IsConfined_example =
    lifecycle_manager-IsConfined platform defaults api_server polls api_server-IsFaithful
      (λ name j. refl)

pub confined : IsConfined lifecycle
confined =
    lifecycle_manager-IsConfined platform defaults api_server polls api_server-IsFaithful
      (λ name j. refl)

abbrev pub frame : Frame
frame = record {
  timestamp = lit "t1";
  direction = lit "client_to_backend";
  message_type = 1;
  payload = lit "ls";
  written = true;
}

abbrev pub context : WsContext
context = record {
  validator = validator;
  lifecycle = lifecycle;
  proxy = record {
    serve_ws = λ target. record {
      failure = none;
      frames = frame ∷ [];
      moments = record { tested = 1; stamped = 2; touched = 3 } ∷ [];
    };
  };
  namespace = lit "dev";
  allow = λ sub. record { allowed = true; scope = [] };
  backend_ready = λ endpoint. true;
  url_string = λ scheme host. scheme ++ lit "://" ++ host;
  codec = record { sha256_hex = λ t. t; base64 = λ t. t };
  recording = record { enabled = true; mode = full; dir = lit "/tmp" };
  session_id = lit "s1";
  started_at = lit "t0";
  closed_at = lit "t9";
  dir_made = true;
  file_made = true;
  manifest_made = true;
}

abbrev pub request : Request
request = record {
  method = lit "GET";
  request_id = [];
  authorization = lit "Bearer t1";
  token_cookie = none;
  state_cookie = some (lit "s");
  query_token = [];
  query_state = lit "s";
  query_code = lit "c";
  remote_addr = lit "10.0.0.1";
}

-- The same request with its token in the query.
abbrev by_query : Request
by_query = record request { authorization = []; query_token = lit "t2" }

abbrev pub oauth : OauthConfig
oauth = record {
  auth_code_url = λ state. lit "https://idp/?state=" ++ state;
  exchange = λ code. ok (record { id_token = some (lit "t1"); expiry = none });
}

admission_example :
    All
      (NeedsLogin
        (IsAdmitted validator context.allow request)
        (IsOwnWrite validator context.allow request))
      (handle_workspace_api validator lifecycle context.backend_ready context.allow
        (lit "dev")
        true
        (lit "u")
        request)
    × All
        (NeedsLogin
          (IsAdmitted validator context.allow request)
          (IsOwnWrite validator context.allow request))
        (handle_ws context (lit "u") request)
admission_example = admission context true (lit "u") request confined

handle_callback-IsGranted_example :
    All
      (CookieIsGranted oauth validator true 5 request)
      (handle_callback oauth validator true 5 (lit "u") request)
handle_callback-IsGranted_example =
    handle_callback-IsGranted oauth validator true 5 (lit "u") request

header_token : extract_token request ≡ some (lit "t1")
unfolding extract_token has_prefix lit
header_token = refl

query_token : extract_token by_query ≡ some (lit "t2")
unfolding extract_token has_prefix lit
query_token = refl

tokens_hidden_example :
    (handle_workspace_api validator lifecycle context.backend_ready context.allow
        (lit "dev")
        true
        (lit "u")
        request
      ≡ handle_workspace_api validator lifecycle context.backend_ready context.allow
          (lit "dev")
          true
          (lit "u")
          by_query)
    × (handle_ws context (lit "u") request ≡ handle_ws context (lit "u") by_query)
tokens_hidden_example =
    tokens_hidden context true (lit "u") request by_query (lit "t1") (lit "t2") header_token
      query_token refl refl refl refl

handle_ws-IsAccounted_example : IsAccounted context (handle_ws context (lit "u") request)
handle_ws-IsAccounted_example = handle_ws-IsAccounted context (lit "u") request

abbrev page : HttpResponse
page = record {
  status_code = 200;
  content_type = lit "text/html; charset=utf-8";
  body = lit "<head></head>";
  content_length = 13;
  content_length_header = some (lit "13");
  transfer_encoding = none;
}

is_html : contains (lit "text/html") page.content_type ≡ true
unfolding contains has_prefix lit
is_html = refl

has_head : contains head_close page.body ≡ true
unfolding contains has_prefix lit
has_head = refl
