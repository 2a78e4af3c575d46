-- ===== src/Gateway/Web/Behind.antt =====
-- What the handlers do once a request is let in.
use dev_plane.Base.{
  Bool, Option, none, some, List, [], ◌∷◌, ◌++◌, ◌||◌, not, is_empty, ◌≡◌, All, Bool-cases, inl,
  inr,
}
use dev_plane.Base.Text.{Text}
use dev_plane.Base.Result.{Error, Result-cases, ok}
use dev_plane.Api.{Workspace, phase_eq, running}
use dev_plane.Gateway.Lifecycle.{Claims, Write, Ensured}
use dev_plane.Gateway.Activity.{on_activities}
use dev_plane.Gateway.Proxy.{backend_url, backend_http_url}
use dev_plane.Gateway.Recording.{SessionRecorder}
use dev_plane.Gateway.Web.{
  Effect, header_set, cookie_set, audited, error_counted, rate_limit_counted, written, responded,
  redirected, forwarded, tunnelled, recorded, Served, writes, write_json_error, serve_loading_page,
}
use dev_plane.Gateway.Web.Workspaces.{ensure_for_api, proxy_for}
use dev_plane.Gateway.Web.Sessions.{WsContext, connect, run_session, recording_of, session_ended}

-- Effects that reach a pod or record a session stand only behind a condition, and each write to the
-- cluster behind one of its own.
abbrev pub NeedsLogin : Type 0 → (Write → Type 0) → Effect → Type 0
NeedsLogin C W (written w) = W w
NeedsLogin C W (forwarded target) = C
NeedsLogin C W (tunnelled target) = C
NeedsLogin C W (recorded r m) = C
NeedsLogin C W (header_set k v) = Unit
NeedsLogin C W (cookie_set c) = Unit
NeedsLogin C W (audited a) = Unit
NeedsLogin C W (error_counted n t) = Unit
NeedsLogin C W (rate_limit_counted e s) = Unit
NeedsLogin C W (responded n b) = Unit
NeedsLogin C W (redirected t) = Unit

module _ (C : Type 0) (W : Write → Type 0) (c : C) where
  writes-NeedsLogin :
      (ws : List Write) (es : List Effect)
      → All W ws
      → All (NeedsLogin C W) es
      → All (NeedsLogin C W) (writes ws ++ es)
  writes-NeedsLogin [] es h g = g
  writes-NeedsLogin (w ∷ ws) es h g = (h.0, writes-NeedsLogin ws es h.1 g)

  pub ensure_for_api-NeedsLogin :
      (backend_ready : Text → Bool) (id namespace : Text) (claims : Claims) (ensured : Ensured)
      → All W ensured.writes
      → All (NeedsLogin C W) (ensure_for_api backend_ready id namespace claims ensured)
  unfolding ensure_for_api write_json_error
  ensure_for_api-NeedsLogin backend_ready id namespace claims ensured h =
      writes-NeedsLogin ensured.writes _ h (elim (Result-cases ensured.workspace) [
        | inl (ws, e) ↦ rw e (tt, (tt, (tt, tt)))
        | inr (err, e) ↦ rw e (tt, (tt, (tt, tt)))
      ])

  pub proxy_for-NeedsLogin :
      (url_string : (scheme host : Text) → Text) (reachable : Text → Bool) (claims : Claims)
      (ensured : Ensured)
      → All W ensured.writes
      → All (NeedsLogin C W) (proxy_for url_string reachable claims ensured)
  unfolding proxy_for serve_loading_page
  proxy_for-NeedsLogin url_string reachable claims ensured h =
      writes-NeedsLogin ensured.writes _ h (elim (Result-cases ensured.workspace) [
        | inr (err, e) ↦ rw e (tt, tt)
        | inl (ws, e) ↦
            elim (Bool-cases
              (not (phase_eq ws.status.phase running) || is_empty ws.status.service_endpoint)) [
                | inl loading ↦ rw (e, loading) (tt, (tt, tt))
                | inr up ↦
                    elim (Bool-cases
                      (reachable (backend_http_url url_string ws.status.service_endpoint))) [
                        | inl reached ↦ rw (e, up, reached) (c, tt)
                        | inr down ↦ rw (e, up, down) (tt, (tt, tt))
                      ]
              ]
      ])

  session_rest-NeedsLogin :
      (x : WsContext) (served : Served) (r : Option SessionRecorder) (id : Text) (claims : Claims)
      (w : Workspace) (failure : Option Error)
      → All (NeedsLogin C W) (recording_of x served r ++ session_ended x id claims w failure)
  unfolding recording_of session_ended
  session_rest-NeedsLogin x served none id claims w none = tt
  session_rest-NeedsLogin x served none id claims w (some err) = (tt, tt)
  session_rest-NeedsLogin x served (some r) id claims w none = (c, tt)
  session_rest-NeedsLogin x served (some r) id claims w (some err) = (c, (tt, tt))

  run_session-NeedsLogin :
      (x : WsContext) (id remote : Text) (claims : Claims) (ws : Workspace)
      → All W
          (on_activities x.lifecycle.touch_last_accessed
            (x.proxy.serve_ws (backend_url x.url_string ws.status.service_endpoint)).moments
            (record { last_touch = none; ws = ws })).0
      → All (NeedsLogin C W) (run_session x id remote claims ws)
  unfolding run_session
  run_session-NeedsLogin x id remote claims ws h =
      let served = x.proxy.serve_ws (backend_url x.url_string ws.status.service_endpoint) in
      (
        tt,
        (
          c,
          writes-NeedsLogin _ _ h (session_rest-NeedsLogin x served _ id claims _ served.failure),
        ),
      )

  pub connect-NeedsLogin :
      (x : WsContext) (id remote : Text) (claims : Claims) (ensured : Ensured)
      → All W ensured.writes
      → ((ws : Workspace)
          → ensured.workspace ≡ ok ws
          → All W
              (on_activities x.lifecycle.touch_last_accessed
                (x.proxy.serve_ws (backend_url x.url_string ws.status.service_endpoint)).moments
                (record { last_touch = none; ws = ws })).0)
      → All (NeedsLogin C W) (connect x id remote claims ensured)
  unfolding connect write_json_error
  connect-NeedsLogin x id remote claims ensured h touches =
      writes-NeedsLogin ensured.writes _ h (elim (Result-cases ensured.workspace) [
        | inr (err, e) ↦ rw e (tt, (tt, (tt, tt)))
        | inl (ws, e) ↦ elim (Bool-cases (x.backend_ready ws.status.service_endpoint)) [
          | inl ready ↦
              rw (e, ready) (tt, run_session-NeedsLogin x id remote claims ws (touches ws e))
          | inr waits ↦ rw (e, waits) (tt, (tt, (tt, (tt, tt))))
        ]
      ])
