-- ===== src/Gateway/Web/Secrets.antt =====
-- What the handlers show of a token.
use dev_plane.Base.{Bool, not, ◌&&◌, if◌then◌else◌, some, List, ◌∷◌, ◌≡◌, refl}
use dev_plane.Base.Text.{Text, lit, text_eq}
use dev_plane.Gateway.Auth.{Request, extract_token}
use dev_plane.Gateway.Audit.{request_id}
use dev_plane.Gateway.Web.{Effect, header_set, http_error}
use dev_plane.Gateway.Web.Workspaces.{handle_workspace_api, authorize_api}
use dev_plane.Gateway.Web.Sessions.{WsContext, handle_ws, authorize}

ap2 : (f : Text → Text → List Effect) {a b c d : Text} → a ≡ b → c ≡ d → f a c ≡ f b d
ap2 f p q = rw (p, q) refl

api_hidden :
    (x : WsContext) (secure : Bool) (uuid : Text) (r s : Request) (token other : Text)
    → extract_token r ≡ some token
    → extract_token s ≡ some other
    → x.validator.validate token ≡ x.validator.validate other
    → r.request_id ≡ s.request_id
    → r.remote_addr ≡ s.remote_addr
    → r.method ≡ s.method
    → handle_workspace_api x.validator x.lifecycle x.backend_ready x.allow x.namespace secure uuid r
      ≡ handle_workspace_api x.validator x.lifecycle x.backend_ready x.allow x.namespace secure uuid
          s
unfolding handle_workspace_api authorize_api
api_hidden x secure uuid r s token other er es same ids remotes methods =
    let answer = x.validator.validate other in
    rw (handle_workspace_api, er, es, same, methods)
      (ap2
        (λ id remote.
          if not (text_eq s.method (lit "GET")) && not (text_eq s.method (lit "POST"))
          then http_error (lit "Method not allowed") 405
          else header_set (lit "X-Request-ID") (request_id id uuid)
            ∷ authorize_api x.validator x.lifecycle x.backend_ready x.allow x.namespace secure
                (request_id id uuid) remote answer)
        ids remotes)

ws_hidden :
    (x : WsContext) (uuid : Text) (r s : Request) (token other : Text)
    → extract_token r ≡ some token
    → extract_token s ≡ some other
    → x.validator.validate token ≡ x.validator.validate other
    → r.request_id ≡ s.request_id
    → r.remote_addr ≡ s.remote_addr
    → handle_ws x uuid r ≡ handle_ws x uuid s
unfolding handle_ws authorize
ws_hidden x uuid r s token other er es same ids remotes =
    let answer = x.validator.validate other in
    rw (handle_ws, er, es, same)
      (ap2
        (λ id remote.
          header_set (lit "X-Request-ID") (request_id id uuid)
          ∷ authorize x (request_id id uuid) remote answer)
        ids remotes)

-- Two requests that differ in their tokens, however these are passed, have the same effects in
-- handleWorkspaceAPI and handleWS if the validator answers the same for both: no response, audit
-- record, recording, write or counter tells the tokens apart.
pub tokens_hidden :
    (x : WsContext) (secure : Bool) (uuid : Text) (r s : Request) (token other : Text)
    → extract_token r ≡ some token
    → extract_token s ≡ some other
    → x.validator.validate token ≡ x.validator.validate other
    → r.request_id ≡ s.request_id
    → r.remote_addr ≡ s.remote_addr
    → r.method ≡ s.method
    → (handle_workspace_api x.validator x.lifecycle x.backend_ready x.allow x.namespace secure uuid
          r
        ≡ handle_workspace_api x.validator x.lifecycle x.backend_ready x.allow x.namespace secure
            uuid s)
      × (handle_ws x uuid r ≡ handle_ws x uuid s)
tokens_hidden x secure uuid r s token other er es same ids remotes methods = (
  api_hidden x secure uuid r s token other er es same ids remotes methods,
  ws_hidden x uuid r s token other er es same ids remotes,
)
