-- ===== src/Gateway/Program/Starts.antt =====
-- What the gateway serves with, if it gets through its start.
use dev_plane.Base.{
  ℕ, Option, none, some, ◌||◌, false, [], ◌∷◌, ◌≡◌, ◌≢◌, refl, ap, subst, ◌⊎◌, inl, inr, is_empty,
  List-cases, Bool-cases, Option-cases, if◌then◌else◌,
}
use dev_plane.Base.Text.{Text, lit, text_eq, text_eq_iff, trim_space, has_prefix}
use dev_plane.Base.Result.{Error, Result, OnOk, ok, fail, Result-cases}
use dev_plane.Platform.{Platform}
use dev_plane.Gateway.Lifecycle.{Claims}
use dev_plane.Gateway.Auth.{
  unauthorized, auth_error, accepted, rejected, validate_fixed, env_or, new_validator_with_oidc,
  oidc_config, parse_oidc_clock_skew,
}
use dev_plane.Gateway.Program.{
  Environment, Libraries, Authentication, fixed_identity, verifying, GatewaySettings, must_env,
  oidc_authentication, authentication_for, settings_for, start_gateway, default_providers,
}

-- The audience that tokens must have: OIDC_AUDIENCE, or the client where that is blank.
abbrev pub demanded : (client audience : Text) → Text
demanded client audience = if is_empty (trim_space audience) then client else trim_space audience

OnOk-map {ℓ κ μ} :
    {A : Type ℓ} (P : A → Type κ) (Q : A → Type μ) (r : Result A)
    → ((a : A) → P a → Q a)
    → OnOk P r
    → OnOk Q r
OnOk-map P Q (ok a) f h = f a h
OnOk-map P Q (fail e) f h = tt

-- The audience of a validator that was built.
audience-OnOk :
    (issuer client audience : Text) (skew : ℕ) (quoted : Text) (discovery : Option Error)
    → OnOk
        (λ (v : Text × ℕ). v.0 ≡ demanded client audience)
        (new_validator_with_oidc (oidc_config issuer client audience skew) quoted discovery)
unfolding new_validator_with_oidc oidc_config
audience-OnOk issuer client audience skew quoted none =
    elim (Bool-cases (is_empty issuer || is_empty client)) [
      | inl m ↦ rw (m, new_validator_with_oidc) tt
      | inr m ↦ rw (m, new_validator_with_oidc) refl
    ]
audience-OnOk issuer client audience skew quoted (some err) =
    elim (Bool-cases (is_empty issuer || is_empty client)) [
      | inl m ↦ rw (m, new_validator_with_oidc) tt
      | inr m ↦ rw (m, new_validator_with_oidc) tt
    ]

audience_of :
    (issuer client audience : Text) (skew : ℕ) (quoted : Text) (discovery : Option Error)
    (v : Text × ℕ)
    → new_validator_with_oidc (oidc_config issuer client audience skew) quoted discovery ≡ ok v
    → v.0 ≡ demanded client audience
audience_of issuer client audience skew quoted discovery v e =
    subst (OnOk (λ (v : Text × ℕ). v.0 ≡ demanded client audience)) e
      (audience-OnOk issuer client audience skew quoted discovery)

module _ (k : Platform) (env : Environment) where
  not_empty : (v : Text) → is_empty v ≡ false → v ≢ []
  not_empty [] e h = cc
  not_empty (b ∷ v) e h = cc

  must_env-OnOk : (key : Text) → OnOk (λ v. v ≢ []) (must_env k env key)
  unfolding must_env
  must_env-OnOk key = elim (Bool-cases (is_empty (env key))) [
    | inl m ↦ rw (m, must_env) tt
    | inr m ↦ rw (m, must_env) (not_empty (env key) m)
  ]

  given : (key v : Text) → must_env k env key ≡ ok v → v ≢ []
  given key v e = subst (OnOk (λ v. v ≢ [])) e (must_env-OnOk key)

  module _ (libraries : Libraries) where
    -- The identity of each token that is not blank.
    abbrev pub IsIdentity : Claims → Type 0
    IsIdentity claims =
        (raw_token : Text)
        → ((trim_space raw_token ≡ [])
            × (validate_fixed claims raw_token
                ≡ rejected (auth_error unauthorized (lit "empty token"))))
          ⊎ ((trim_space raw_token ≢ []) × (validate_fixed claims raw_token ≡ accepted claims))

    fixed-IsIdentity : (claims : Claims) → IsIdentity claims
    unfolding validate_fixed
    fixed-IsIdentity claims raw_token = elim (List-cases (trim_space raw_token)) [
      | inl blank ↦ inl (blank, rw (blank, validate_fixed) refl)
      | inr (b, bs, e) ↦ inr ((λ f. cc), rw (e, validate_fixed) refl)
    ]

    -- What the start settles about the validator.
    abbrev pub Settled : (client : Text) → Authentication → Type 0
    Settled client a =
        ((env (lit "GATEWAY_DEV_INSECURE_FIXED_IDENTITY") ≡ lit "1")
          × ((claims : Claims) × (a ≡ fixed_identity claims) × IsIdentity claims))
        ⊎ ((env (lit "GATEWAY_DEV_INSECURE_FIXED_IDENTITY") ≢ lit "1")
            × ((skew : ℕ) × (a ≡ verifying (demanded client (env (lit "OIDC_AUDIENCE"))) skew)))

    module _ (issuer client : Text) where
      verifying-OnOk :
          OnOk
            (λ a. (skew : ℕ) × (a ≡ verifying (demanded client (env (lit "OIDC_AUDIENCE"))) skew))
            (oidc_authentication k env libraries issuer client)
      unfolding oidc_authentication
      verifying-OnOk =
          elim (Result-cases
            (parse_oidc_clock_skew k.parse_duration (env (lit "OIDC_CLOCK_SKEW")))) [
              | inr (err, e) ↦ rw (e, oidc_authentication) tt
              | inl (skew, e) ↦
                  rw (e, oidc_authentication)
                    (elim (Result-cases (
                      new_validator_with_oidc
                        (oidc_config issuer client (env (lit "OIDC_AUDIENCE")) skew)
                        (k.quote issuer) (libraries.discovery issuer))) [
                          | inr (err, f) ↦ rw f tt
                          | inl (v, f) ↦ rw f (
                            v.1,
                            ap (λ aud. verifying aud v.1)
                                (audience_of issuer client _ skew _ _ v f),
                          )
                        ])
            ]

      not_one :
          text_eq (env (lit "GATEWAY_DEV_INSECURE_FIXED_IDENTITY")) (lit "1") ≡ false
          → env (lit "GATEWAY_DEV_INSECURE_FIXED_IDENTITY") ≢ lit "1"
      not_one f e =
          let g = (text_eq_iff (env (lit "GATEWAY_DEV_INSECURE_FIXED_IDENTITY")) (lit "1")).1 e in
          cc

      authentication-OnOk : OnOk (Settled client) (authentication_for k env libraries issuer client)
      unfolding authentication_for
      authentication-OnOk =
          elim (Bool-cases (text_eq (env (lit "GATEWAY_DEV_INSECURE_FIXED_IDENTITY")) (lit "1"))) [
            | inl dev ↦
                rw (dev, authentication_for)
                  (inl ((text_eq_iff _ _).0 dev, (_, refl, fixed-IsIdentity _)))
            | inr real ↦
                rw (real, authentication_for)
                  (OnOk-map
                    (λ a.
                      (skew : ℕ) × (a
                        ≡ verifying (demanded client (env (lit "OIDC_AUDIENCE"))) skew))
                    (Settled client) (oidc_authentication k env libraries issuer client)
                    (λ a h. inr (not_one real, h)) verifying-OnOk)
          ]

    -- What is known of the settings.
    pub record IsSecured (p : GatewaySettings) : Type 0 where
      pub client : p.client_id ≢ []
      pub secret : p.client_secret ≢ []
      pub validator : Settled p.client_id p.authentication
      pub audience : demanded p.client_id (env (lit "OIDC_AUDIENCE")) ≢ []
      pub cookies : p.cookie_secure ≡ has_prefix (lit "https://") p.redirect_url

    demanded_given : (client audience : Text) → client ≢ [] → demanded client audience ≢ []
    demanded_given client audience given_client =
        elim (Bool-cases (is_empty (trim_space audience))) [
          | inl m ↦ rw m given_client
          | inr m ↦ rw m (not_empty (trim_space audience) m)
        ]

    settings_for-OnOk :
        (issuer client secret redirect : Text)
        → client ≢ []
        → secret ≢ []
        → OnOk IsSecured (settings_for k env libraries issuer client secret redirect)
    unfolding settings_for
    settings_for-OnOk issuer client secret redirect c s =
        let providers =
          libraries.unmarshal_providers
            (env_or (env (lit "AI_PROVIDERS_JSON")) default_providers) in
        elim (Result-cases providers) [
          | inr (err, e) ↦ rw (e, settings_for) tt
          | inl (ps, e) ↦ elim (Result-cases (authentication_for k env libraries issuer client)) [
            | inr (err, f) ↦ rw (e, f, settings_for) tt
            | inl (a, f) ↦ elim (Option-cases (libraries.oauth_discovery issuer)) [
              | inr (err, g) ↦ rw (e, f, g, settings_for) tt
              | inl g ↦ elim (Option-cases libraries.kubernetes) [
                | inr (err, h) ↦ rw (e, f, g, h, settings_for) tt
                | inl h ↦
                    rw (e, f, g, h, settings_for)
                      (record {
                        client = c;
                        secret = s;
                        validator =
                            subst (OnOk (Settled client)) f (authentication-OnOk issuer client);
                        audience = demanded_given client (env (lit "OIDC_AUDIENCE")) c;
                        cookies = refl;
                      })
              ]
            ]
          ]
        ]

    start_gateway-OnOk : OnOk IsSecured (start_gateway k env libraries)
    unfolding start_gateway
    start_gateway-OnOk = elim (Result-cases (must_env k env (lit "OIDC_ISSUER_URL"))) [
      | inr (err, e) ↦ rw (e, start_gateway) tt
      | inl (issuer, e) ↦ elim (Result-cases (must_env k env (lit "OIDC_CLIENT_ID"))) [
        | inr (err, f) ↦ rw (e, f, start_gateway) tt
        | inl (client, f) ↦ elim (Result-cases (must_env k env (lit "OIDC_CLIENT_SECRET"))) [
          | inr (err, g) ↦ rw (e, f, g, start_gateway) tt
          | inl (secret, g) ↦ elim (Result-cases (must_env k env (lit "OIDC_REDIRECT_URL"))) [
            | inr (err, h) ↦ rw (e, f, g, h, start_gateway) tt
            | inl (redirect, h) ↦
                rw (e, f, g, h, start_gateway)
                  (settings_for-OnOk issuer client secret redirect
                    (given (lit "OIDC_CLIENT_ID") client f)
                    (given (lit "OIDC_CLIENT_SECRET") secret g))
          ]
        ]
      ]
    ]

-- A gateway that gets through its start has a client ID and a secret; exactly if
-- GATEWAY_DEV_INSECURE_FIXED_IDENTITY is "1" its validator is the one that accepts each token that
-- is not blank as one fixed identity and refuses the blank ones, and otherwise it is the OIDC
-- validator, with OIDC_AUDIENCE without the blanks around it as its audience, or the client ID where
-- that is blank, which is never an empty audience; and its cookies are Secure exactly if the
-- redirect URL begins with "https://".
pub start_gateway-IsSecured :
    (k : Platform) (env : Environment) (libraries : Libraries) (p : GatewaySettings)
    → start_gateway k env libraries ≡ ok p
    → IsSecured k env libraries p
start_gateway-IsSecured k env libraries p e =
    subst (OnOk (IsSecured k env libraries)) e (start_gateway-OnOk k env libraries)
