-- ===== src/Gateway/Web/Grants.antt =====
-- When the callback gives the browser a token.
use dev_plane.Base.{
  ℕ, Bool, true, some, [], ◌≡◌, refl, sym, ap, ◌∙◌, All, ◌⊎◌, inl, inr, Bool-cases, Option-cases,
  is_empty,
}
use dev_plane.Base.Text.{Text, text_eq, text_eq_iff}
use dev_plane.Base.Result.{ok, Result-cases}
use dev_plane.Gateway.Auth.{Request, accepted}
use dev_plane.Gateway.Auth.Genuine.{Validated-cases}
use dev_plane.Gateway.Lifecycle.{Claims}
use dev_plane.Gateway.Audit.{request_id}
use dev_plane.Gateway.Web.{
  Cookie, Effect, header_set, cookie_set, audited, error_counted, rate_limit_counted, written,
  responded, redirected, forwarded, tunnelled, recorded, TokenValidator, OauthConfig, OauthToken,
}
use dev_plane.Gateway.Web.Login.{
  handle_callback, exchange_code, complete_login, callback_failure, token_cookie,
}

module _ (cfg : OauthConfig) (validator : TokenValidator) (secure : Bool) (now : ℕ) where
  -- The cookie has the ID token that the identity provider gave for the request's code, which the
  -- validator accepts, and the request's state is that of its state cookie; scripts cannot read it.
  pub IsGranted : Request → Cookie → Type 0
  IsGranted r c =
      (r.state_cookie ≡ some r.query_state)
      × (token : OauthToken) × (claims : Claims) × (cfg.exchange r.query_code ≡ ok token)
      × (token.id_token ≡ some c.value)
      × (validator.validate c.value ≡ accepted claims)
      × (c.http_only ≡ true)
      × (c.secure ≡ secure)

  abbrev pub CookieIsGranted : Request → Effect → Type 0
  CookieIsGranted r (cookie_set c) = (c.value ≡ []) ⊎ IsGranted r c
  CookieIsGranted r (header_set k v) = Unit
  CookieIsGranted r (audited a) = Unit
  CookieIsGranted r (error_counted n t) = Unit
  CookieIsGranted r (rate_limit_counted e s) = Unit
  CookieIsGranted r (written w) = Unit
  CookieIsGranted r (responded n b) = Unit
  CookieIsGranted r (redirected t) = Unit
  CookieIsGranted r (forwarded t) = Unit
  CookieIsGranted r (tunnelled t) = Unit
  CookieIsGranted r (recorded x m) = Unit

  exchange_code-IsGranted :
      (id : Text) (r : Request)
      → r.state_cookie ≡ some r.query_state
      → All (CookieIsGranted r) (exchange_code cfg validator secure now id r)
  unfolding exchange_code complete_login callback_failure token_cookie IsGranted
  exchange_code-IsGranted id r state = elim (Result-cases (cfg.exchange r.query_code)) [
    | inr (err, e) ↦ rw (e, exchange_code) (tt, (tt, tt))
    | inl (token, e) ↦ elim (Option-cases token.id_token) [
      | inl f ↦ rw (e, exchange_code, f) (tt, (tt, tt))
      | inr (raw, f) ↦ elim (Bool-cases (is_empty raw)) [
        | inl g ↦ rw (e, exchange_code, f, g) (tt, (tt, tt))
        | inr g ↦ elim (Validated-cases (validator.validate raw)) [
          | inr (err, h) ↦ rw (e, exchange_code, f, g, complete_login, h) (tt, (tt, tt))
          | inl (claims, h) ↦
              rw (e, exchange_code, f, g, complete_login, h)
                (inr (state, token, claims, e, f, h, refl, refl), (tt, (tt, tt)))
        ]
      ]
    ]
  ]

  -- Each cookie that handleCallback sets is empty, or has the ID token that the identity provider
  -- gave for the request's code; then the request's state equals its state cookie, the validator
  -- accepts the token, and the cookie is HttpOnly, and Secure as configured.
  pub handle_callback-IsGranted :
      (uuid : Text) (r : Request)
      → All (CookieIsGranted r) (handle_callback cfg validator secure now uuid r)
  unfolding handle_callback callback_failure IsGranted
  handle_callback-IsGranted uuid r = elim (Option-cases r.state_cookie) [
    | inl e ↦ rw (e, handle_callback) (tt, (tt, (tt, tt)))
    | inr (state, e) ↦ elim (Bool-cases (text_eq r.query_state state)) [
      | inr differs ↦ rw (e, handle_callback, differs) (tt, (tt, (tt, tt)))
      | inl same ↦
          let state_matches = e ∙ ap some (sym ((text_eq_iff r.query_state state).0 same)) in
          rw (e, handle_callback, same)
            (tt, (inl refl, exchange_code-IsGranted (request_id r.request_id uuid) r state_matches))
    ]
  ]
