-- ===== src/Gateway/Audit/Keys.antt =====
-- The keys, events and outcomes of the audit log (pkg/gateway/audit.go and metrics.go).
use dev_plane.Base.Text.{Text, lit}

abbrev pub audit_schema_version : Text
audit_schema_version = lit "1"

abbrev pub log_key_audit_schema : Text
log_key_audit_schema = lit "devplane.audit.schema_version"

abbrev pub log_key_actor_subject : Text
log_key_actor_subject = lit "actor.subject"

abbrev pub log_key_audit_action : Text
log_key_audit_action = lit "action"

abbrev pub log_key_audit_outcome : Text
log_key_audit_outcome = lit "outcome"

abbrev pub log_key_audit_reason : Text
log_key_audit_reason = lit "reason"

abbrev pub outcome_success : Text
outcome_success = lit "success"

abbrev pub outcome_failure : Text
outcome_failure = lit "failure"

abbrev pub outcome_denied : Text
outcome_denied = lit "denied"

abbrev pub event_oidc_login_redirect : Text
event_oidc_login_redirect = lit "devplane.audit.oidc.login.redirect"

abbrev pub event_oidc_callback_success : Text
event_oidc_callback_success = lit "devplane.audit.oidc.callback.success"

abbrev pub event_oidc_callback_failure : Text
event_oidc_callback_failure = lit "devplane.audit.oidc.callback.failure"

abbrev pub event_workspace_ensure_exists : Text
event_workspace_ensure_exists = lit "devplane.audit.workspace.ensure_exists"

abbrev pub event_workspace_ensure_running : Text
event_workspace_ensure_running = lit "devplane.audit.workspace.ensure_running"

abbrev pub event_ws_session_start : Text
event_ws_session_start = lit "devplane.audit.ws.session.start"

abbrev pub event_ws_session_end : Text
event_ws_session_end = lit "devplane.audit.ws.session.end"

abbrev pub event_auth_token_rejected : Text
event_auth_token_rejected = lit "devplane.audit.auth.token.rejected"

abbrev pub event_rate_limit_exceeded : Text
event_rate_limit_exceeded = lit "devplane.audit.rate_limit.exceeded"

abbrev pub log_key_component : Text
log_key_component = lit "devplane.component"

abbrev pub log_key_event : Text
log_key_event = lit "devplane.event"

abbrev pub log_key_user_id : Text
log_key_user_id = lit "userId"

abbrev pub log_key_namespace : Text
log_key_namespace = lit "namespace"

abbrev pub log_key_workspace : Text
log_key_workspace = lit "workspace"

abbrev pub component_gateway : Text
component_gateway = lit "gateway"

abbrev pub log_key_request_id : Text
log_key_request_id = lit "devplane.request_id"
