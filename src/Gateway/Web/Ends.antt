-- ===== src/Gateway/Web/Ends.antt =====
-- The audit records of WebSocket sessions.
use dev_plane.Base.{
  ℕ, suc, Bool, true, false, Option, none, some, List, [], ◌∷◌, ◌++◌, ◌≡◌, refl, ap, sym, ◌∙◌,
  Bool-cases, on_true, on_false, Option-cases, inl, inr, if◌then◌else◌,
}
use dev_plane.Base.Text.{Text, lit, text_eq}
use dev_plane.Base.Result.{Error, Result-cases}
use dev_plane.Api.{Workspace}
use dev_plane.Gateway.Lifecycle.{Claims, Write, Ensured}
use dev_plane.Gateway.Auth.{Request, extract_token}
use dev_plane.Gateway.Auth.Genuine.{Validated-cases}
use dev_plane.Gateway.Audit.{
  request_id, log_audit, session_start, session_end, log_workspace_lifecycle_audit,
  log_auth_token_rejected, log_rate_limit_audit,
}
use dev_plane.Gateway.Proxy.{backend_url}
use dev_plane.Gateway.Recording.{SessionRecorder}
use dev_plane.Gateway.Web.{
  Effect, audited, tunnelled, writes, Served, write_json_error, missing_token, invalid_token,
  rate_limited,
}
use dev_plane.Gateway.Web.Sessions.{
  WsContext, handle_ws, authorize, connect, run_session, recording_of, session_ended,
}

-- The audit records with a message.
abbrev pub audits_of : Text → List Effect → ℕ
audits_of message [] = 0
audits_of message (audited a ∷ es) =
    let rest = audits_of message es in if text_eq a.message message then suc rest else rest
audits_of message (e ∷ es) = audits_of message es

-- The tunnels whose target passes the test.
abbrev pub tunnels_of : (Text → Bool) → List Effect → ℕ
tunnels_of test [] = 0
tunnels_of test (tunnelled target ∷ es) =
    let rest = tunnels_of test es in if test target then suc rest else rest
tunnels_of test (e ∷ es) = tunnels_of test es

abbrev pub start_message : Text
start_message = lit "audit: WebSocket session start"

abbrev pub end_message : Text
end_message = lit "audit: WebSocket session end"

module _ (x : WsContext) where
  -- Whether ServeWS has an error for the target.
  abbrev pub fails : Text → Bool
  fails target = elim (x.proxy.serve_ws target).failure [ none ↦ false | some err ↦ true ]

  -- Each tunnel has an audit record of its start, and one of its end only where ServeWS fails.
  pub IsAccounted : List Effect → Type 0
  IsAccounted es =
      (audits_of start_message es ≡ tunnels_of (λ target. true) es)
      × (audits_of end_message es ≡ tunnels_of fails es)

  writes-IsAccounted :
      (ws : List Write) (es : List Effect) → IsAccounted es → IsAccounted (writes ws ++ es)
  unfolding IsAccounted
  writes-IsAccounted [] es h = h
  writes-IsAccounted (w ∷ ws) es h = writes-IsAccounted ws es h

  -- The rest of a session, behind the tunnel.
  session_rest :
      (ws : List Write) (served : Served) (r : Option SessionRecorder) (id : Text) (claims : Claims)
      (w : Workspace) (failure : Option Error)
      → (audits_of start_message
            (writes ws ++ (recording_of x served r ++ session_ended x id claims w failure))
          ≡ 0)
        × (audits_of end_message
              (writes ws ++ (recording_of x served r ++ session_ended x id claims w failure))
            ≡ elim failure [ none ↦ 0 | some err ↦ 1 ])
        × ((test : Text → Bool)
            → tunnels_of test
                (writes ws ++ (recording_of x served r ++ session_ended x id claims w failure))
              ≡ 0)
  unfolding recording_of session_ended session_end log_audit text_eq lit
  session_rest [] served none id claims w none = (refl, refl, λ test. refl)
  session_rest [] served none id claims w (some err) = (refl, refl, λ test. refl)
  session_rest [] served (some r) id claims w none = (refl, refl, λ test. refl)
  session_rest [] served (some r) id claims w (some err) = (refl, refl, λ test. refl)
  session_rest (t ∷ ws) served r id claims w failure = session_rest ws served r id claims w failure

  session-IsAccounted :
      (target : Text) (failure : Option Error) (ws : List Write) (served : Served)
      (r : Option SessionRecorder) (id : Text) (claims : Claims) (before w : Workspace)
      → (x.proxy.serve_ws target).failure ≡ failure
      → IsAccounted (
          audited (session_start id x.namespace claims before)
          ∷ tunnelled target
          ∷ (writes ws ++ (recording_of x served r ++ session_ended x id claims w failure)))
  unfolding IsAccounted session_start log_audit text_eq lit
  session-IsAccounted target none ws served r id claims before w e =
      let s = session_rest ws served r id claims w none in
      let test : fails target ≡ false = rw (e, fails) refl in
      (ap suc (s.0 ∙ sym (s.2 (λ t. true))), s.1 ∙ on_false (λ n. 0 ≡ n) _ _ test (sym (s.2 fails)))
  session-IsAccounted target (some err) ws served r id claims before w e =
      let s = session_rest ws served r id claims w (some err) in
      let test : fails target ≡ true = rw (e, fails) refl in
      (
        ap suc (s.0 ∙ sym (s.2 (λ t. true))),
        s.1 ∙ on_true (λ n. 1 ≡ n) _ _ test (ap suc (sym (s.2 fails))),
      )

  run_session-IsAccounted :
      (id remote : Text) (claims : Claims) (ws : Workspace)
      → IsAccounted (run_session x id remote claims ws)
  unfolding run_session
  run_session-IsAccounted id remote claims ws =
      let target = backend_url x.url_string ws.status.service_endpoint in
      let served = x.proxy.serve_ws target in
      session-IsAccounted target served.failure _ served _ id claims ws _ refl

  connect-IsAccounted :
      (id remote : Text) (claims : Claims) (ensured : Ensured)
      → IsAccounted (connect x id remote claims ensured)
  unfolding IsAccounted connect write_json_error log_workspace_lifecycle_audit log_audit text_eq lit
  connect-IsAccounted id remote claims ensured =
      writes-IsAccounted ensured.writes _ (elim (Result-cases ensured.workspace) [
        | inr (err, e) ↦ rw e (refl, refl)
        | inl (ws, e) ↦ elim (Bool-cases (x.backend_ready ws.status.service_endpoint)) [
          | inl ready ↦ rw (e, ready) (run_session-IsAccounted id remote claims ws)
          | inr waits ↦ rw (e, waits) (refl, refl)
        ]
      ])

  -- Whatever the validator, the limiter, the cluster and the pod answer, handleWS writes one audit
  -- record of the start of a session for each tunnel that it hands a request to, and a record of a
  -- session's end only for a tunnel for which ServeWS returns an error.
  pub handle_ws-IsAccounted : (uuid : Text) (r : Request) → IsAccounted (handle_ws x uuid r)
  unfolding IsAccounted handle_ws authorize write_json_error missing_token invalid_token
      rate_limited log_auth_token_rejected log_rate_limit_audit log_audit text_eq lit
  handle_ws-IsAccounted uuid r = elim (Option-cases (extract_token r)) [
    | inl none_found ↦ rw (none_found, handle_ws) (refl, refl)
    | inr (raw_token, found) ↦ elim (Validated-cases (x.validator.validate raw_token)) [
      | inr (err, refusal) ↦ rw (found, handle_ws, refusal) (refl, refl)
      | inl (claims, valid) ↦ elim (Bool-cases (x.allow claims.sub).allowed) [
        | inl allowed ↦
            rw (found, handle_ws, valid, allowed)
              (connect-IsAccounted (request_id r.request_id uuid) r.remote_addr claims
                (x.lifecycle.ensure_workspace x.namespace claims))
        | inr limited ↦ rw (found, handle_ws, valid, limited) (refl, refl)
      ]
    ]
  ]
