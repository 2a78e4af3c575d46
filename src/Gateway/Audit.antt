-- ===== src/Gateway/Audit.antt =====
-- The audit records of pkg/gateway/audit.go and RequestID of requestid.go. What a record is written
-- with beside its own fields, the logger's, is left out.
pub mod Keys
use dev_plane.Base.{ℕ, Bool, List, [], ◌∷◌, ◌++◌, is_empty, if◌then◌else◌}
use dev_plane.Base.Text.{Text, lit}
use dev_plane.Api.{Workspace}
use dev_plane.Gateway.Lifecycle.{Claims, Ensured}
use dev_plane.Gateway.Audit.Keys.{
  audit_schema_version, log_key_audit_schema, log_key_actor_subject, log_key_audit_action,
  log_key_audit_outcome, log_key_audit_reason, outcome_success, outcome_failure, outcome_denied,
  event_oidc_login_redirect, event_oidc_callback_success, event_oidc_callback_failure,
  event_ws_session_start, event_ws_session_end, event_auth_token_rejected,
  event_rate_limit_exceeded, log_key_component, log_key_event, log_key_user_id, log_key_namespace,
  log_key_workspace, component_gateway, log_key_request_id,
}

-- The value of a field.
pub data FieldValue : Type 0 where
  text_value : Text → FieldValue
  number_value : ℕ → FieldValue

-- A line of the audit log: its message, and its keys and values in their order.
pub record AuditRecord : Type 0 where
  pub message : Text
  pub fields : List (Text × FieldValue)

abbrev field : Text → Text → Text × FieldValue
field key value = (key, text_value value)

abbrev outcome : Text → Text × FieldValue
outcome value = field log_key_audit_outcome value

-- LogAudit
unfoldable pub log_audit :
    (message request_id event : Text) → List (Text × FieldValue) → AuditRecord
log_audit message request_id event keys_and_values =
    let id : List (Text × FieldValue) =
      if is_empty request_id then [] else field log_key_request_id request_id ∷ [] in
    record {
      message = message;
      fields =
          field log_key_audit_schema audit_schema_version
          ∷ field log_key_component component_gateway
          ∷ field log_key_event event
          ∷ (id ++ keys_and_values);
    }

-- EnsureAction, on the two fields of EnsureDetails.
unfoldable pub ensure_action : (created restarted_from_stopped : Bool) → Text
ensure_action created restarted =
    if created then lit "create" else if restarted then lit "restart" else lit "get"

-- LogWorkspaceLifecycleAudit, whose callers pass claims and a workspace that are not nil.
unfoldable pub log_workspace_lifecycle_audit :
    (message request_id event namespace : Text) → Claims → Workspace → Ensured → AuditRecord
unfolding log_audit ensure_action
log_workspace_lifecycle_audit message request_id event namespace claims ws d =
    log_audit message request_id event (
      field log_key_actor_subject claims.sub
      ∷ field log_key_user_id claims.user_id
      ∷ field log_key_namespace namespace
      ∷ field log_key_workspace ws.name
      ∷ field log_key_audit_action (ensure_action d.created d.restarted_from_stopped)
      ∷ outcome outcome_success
      ∷ [])

-- LogOIDCCallbackSuccess
unfoldable pub log_oidc_callback_success : Text → Claims → AuditRecord
unfolding log_audit
log_oidc_callback_success request_id claims =
    log_audit (lit "audit: OIDC callback succeeded") request_id event_oidc_callback_success (
      field log_key_actor_subject claims.sub
      ∷ field log_key_user_id claims.user_id
      ∷ outcome outcome_success
      ∷ [])

-- LogOIDCCallbackFailure
unfoldable pub log_oidc_callback_failure : (request_id reason : Text) → AuditRecord
unfolding log_audit
log_oidc_callback_failure request_id reason =
    log_audit (lit "audit: OIDC callback failed") request_id event_oidc_callback_failure
      (outcome outcome_failure ∷ field log_key_audit_reason reason ∷ [])

-- LogAuthTokenRejected
unfoldable pub log_auth_token_rejected :
    (request_id remote reason : Text) → ℕ → (code : Text) → AuditRecord
unfolding log_audit
log_auth_token_rejected request_id remote reason http_status code =
    log_audit (lit "audit: token rejected") request_id event_auth_token_rejected (
      outcome outcome_denied
      ∷ field (lit "remote") remote
      ∷ field log_key_audit_reason reason
      ∷ (lit "httpStatus", number_value http_status)
      ∷ field (lit "errorCode") code
      ∷ [])

-- LogRateLimitAudit
unfoldable pub log_rate_limit_audit : (request_id endpoint scope user_id : Text) → AuditRecord
unfolding log_audit
log_rate_limit_audit request_id endpoint scope user_id =
    log_audit (lit "audit: rate limit exceeded") request_id event_rate_limit_exceeded (
      outcome outcome_denied
      ∷ field (lit "endpoint") endpoint
      ∷ field (lit "scope") scope
      ∷ field log_key_user_id user_id
      ∷ [])

-- The start of a WebSocket session, in handleWS.
unfoldable pub session_start : (request_id namespace : Text) → Claims → Workspace → AuditRecord
unfolding log_audit
session_start request_id namespace claims ws =
    log_audit (lit "audit: WebSocket session start") request_id event_ws_session_start (
      field log_key_actor_subject claims.sub
      ∷ field log_key_user_id claims.user_id
      ∷ field log_key_namespace namespace
      ∷ field log_key_workspace ws.name
      ∷ outcome outcome_success
      ∷ field (lit "backendHost") ws.status.service_endpoint
      ∷ [])

-- Its end.
unfoldable pub session_end :
    (request_id namespace : Text) → Claims → Workspace → (reason : Text) → AuditRecord
unfolding log_audit
session_end request_id namespace claims ws reason =
    log_audit (lit "audit: WebSocket session end") request_id event_ws_session_end (
      field log_key_actor_subject claims.sub
      ∷ field log_key_user_id claims.user_id
      ∷ field log_key_namespace namespace
      ∷ field log_key_workspace ws.name
      ∷ outcome outcome_success
      ∷ field log_key_audit_reason reason
      ∷ [])

-- The redirect to the identity provider, in handleLogin.
unfoldable pub login_redirect : (request_id remote : Text) → AuditRecord
unfolding log_audit
login_redirect request_id remote =
    log_audit (lit "audit: OIDC login redirect") request_id event_oidc_login_redirect
      (outcome outcome_success ∷ field (lit "remote") remote ∷ [])

-- RequestID, on the request's header and a fresh UUID.
unfoldable pub request_id : (header uuid : Text) → Text
request_id header uuid = if is_empty header then uuid else header
