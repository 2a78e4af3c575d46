-- ===== src/Gateway/Auth.antt =====
-- Who a request is from: the Validator of pkg/gateway/auth.go, the FixedIdentityValidator of
-- auth_dev.go, the answer to a rejected token of auth_http.go, and extractToken, envOr and
-- parseOIDCClockSkew of cmd/gateway/main.go. The OIDC library is a parameter.
pub mod Genuine
pub mod Rejects
use dev_plane.Base.{
  ℕ, ◌*◌, ◌<◌, Bool, true, false, Option, none, some, List, [], ◌∷◌, ◌++◌, ◌||◌, is_empty,
  if◌then◌else◌, not, ltb, ◌&&◌,
}
use dev_plane.Base.Int.{ℤ, pos, negsuc}
use dev_plane.Base.Text.{Text, lit, text_eq, has_prefix, contains, to_lower, trim_space}
use dev_plane.Base.Result.{Error, Result, ok, fail, new_error, wrap}
use dev_plane.Gateway.Lifecycle.{Claims}
use dev_plane.Gateway.UserId.{sanitize_user_id}
use dev_plane.Gateway.TokenCache.{Cache, lookup, insert}
use dev_plane.Gateway.TokenCache.Steps.{Op, run}

pub record OidcConfig : Type 0 where
  pub issuer_url : Text
  pub client_id : Text
  pub audience : Text
  pub clock_skew : ℤ

-- What errors.Is tells of an error of a validator: ErrUnauthorized, ErrForbidden or ErrTokenExpired.
pub data AuthKind : Type 0 where
  unauthorized forbidden token_expired : AuthKind

pub record AuthError : Type 0 where
  pub kind : AuthKind
  pub text : Text

-- The texts of the three errors.
abbrev pub kind_text : AuthKind → Text
kind_text unauthorized = lit "unauthenticated"
kind_text forbidden = lit "forbidden"
kind_text token_expired = lit "token expired"

-- fmt.Errorf("%w: %v", kind, err)
abbrev pub auth_error : AuthKind → Text → AuthError
auth_error kind text = record { kind = kind; text = kind_text kind ++ lit ": " ++ text }

-- What a validator answers.
pub data Validated : Type 0 where
  accepted : Claims → Validated
  rejected : AuthError → Validated

-- An error of the OIDC library: its text, and whether it is a TokenExpiredError.
pub record VerifyError : Type 0 where
  pub text : Text
  pub is_expired : Bool

-- A verified token: its subject, and the email in its claims or why they cannot be decoded.
pub record IdToken : Type 0 where
  pub subject : Text
  pub email : Result Text

pub data Verified : Type 0 where
  verified : IdToken → Verified
  refused : VerifyError → Verified

-- NewValidatorWithOIDC: the audience that the verifier demands and by how many nanoseconds its clock
-- is behind; `discovery` is the error of the provider's discovery, and `quoted` is %q of the URL.
unfoldable pub new_validator_with_oidc :
    OidcConfig → (quoted : Text) → (discovery : Option Error) → Result (Text × ℕ)
new_validator_with_oidc cfg quoted discovery =
    let audience = if is_empty cfg.audience then cfg.client_id else cfg.audience in
    if is_empty cfg.issuer_url || is_empty cfg.client_id
    then fail (new_error (lit "OIDC IssuerURL and ClientID are required"))
    else elim discovery [
      | some err ↦ fail (wrap (lit "OIDC provider discovery " ++ quoted) err)
      | none ↦ ok (audience, elim cfg.clock_skew [ pos n ↦ n | negsuc n ↦ 0 ])
    ]

module _ (unicode_lower : Text → Text) where
  unfoldable pub classify_oidc_verify_error : VerifyError → AuthError
  classify_oidc_verify_error err =
      let msg = to_lower unicode_lower err.text in
      if err.is_expired
      then auth_error token_expired err.text
      else if contains (lit "aud") msg || contains (lit "audience") msg
      then auth_error forbidden err.text
      else auth_error unauthorized err.text

  -- The part of Validate between its two sections.
  unfoldable pub check_verified : Verified → Validated
  unfolding classify_oidc_verify_error
  check_verified (refused err) = rejected (classify_oidc_verify_error err)
  check_verified (verified token) = elim token.email [
    | fail err ↦ rejected (auth_error unauthorized (lit "extract claims: " ++ err.text))
    | ok email ↦ accepted (record {
      sub = token.subject;
      email = email;
      user_id = sanitize_user_id unicode_lower token.subject;
    })
  ]

  -- Validate: the times of its two sections, hashToken, the library's answer for the token, the
  -- sections of other calls that come between its own, the token and the cache.
  unfoldable pub validate :
      (first second : ℕ)
      → (Text → Text)
      → (Text → Verified)
      → List Op
      → Text
      → Cache
      → Validated × Cache
  unfolding check_verified
  validate first second hash_token verify between raw_token c =
      let key = hash_token raw_token in
      let looked = lookup first key c in
      let others = run between looked.1 in
      elim looked.0 [
        | some claims ↦ (accepted claims, looked.1)
        | none ↦ elim (check_verified (verify raw_token)) [
          | rejected err ↦ (rejected err, others)
          | accepted claims ↦ (accepted claims, insert second key claims others)
        ]
      ]

  -- NewFixedIdentityValidator: its claims.
  unfoldable pub new_fixed_identity_validator : (sub email : Text) → Claims
  new_fixed_identity_validator sub email =
      let name = if is_empty (trim_space sub) then lit "dev-user" else sub in
      record { sub = name; email = email; user_id = sanitize_user_id unicode_lower name }

-- The Validate of a FixedIdentityValidator.
unfoldable pub validate_fixed : Claims → Text → Validated
validate_fixed claims raw_token =
    if is_empty (trim_space raw_token)
    then rejected (auth_error unauthorized (lit "empty token"))
    else accepted claims

-- AuthErrorResponse; `none` is the nil error.
unfoldable pub auth_error_response : Option AuthError → ℕ × Text
auth_error_response none = (200, [])
auth_error_response (some err) = elim err.kind [
  | forbidden ↦ (403, lit "forbidden")
  | token_expired ↦ (401, lit "token_expired")
  | unauthorized ↦ (401, lit "unauthorized")
]

-- What the handlers read of a request: its method, the header X-Request-ID and the header
-- Authorization ([] where they are missing), its cookies, its query parameters and its address.
pub record Request : Type 0 where
  pub method : Text
  pub request_id : Text
  pub authorization : Text
  pub token_cookie : Option Text
  pub state_cookie : Option Text
  pub query_token : Text
  pub query_state : Text
  pub query_code : Text
  pub remote_addr : Text

-- strings.TrimPrefix(s, p), `p` first, where `s` has the prefix.
abbrev drop_text : Text → Text → Text
drop_text [] s = s
drop_text (a ∷ p) [] = []
drop_text (a ∷ p) (b ∷ s) = drop_text p s

-- The query parameter, if it is not empty.
abbrev from_query : Request → Option Text
from_query r = if is_empty r.query_token then none else some r.query_token

unfoldable pub extract_token : Request → Option Text
extract_token r =
    if has_prefix (lit "Bearer ") r.authorization
    then some (drop_text (lit "Bearer ") r.authorization)
    else elim r.token_cookie [
      | none ↦ from_query r
      | some value ↦ if is_empty value then from_query r else some value
    ]

-- envOr, on the value of the variable.
unfoldable pub env_or : Text → Text → Text
env_or v def = if is_empty v then def else v

-- parseOIDCClockSkew, on the value of the variable; `parse_duration` is time.ParseDuration.
unfoldable pub parse_oidc_clock_skew : (Text → Result ℤ) → Text → Result ℕ
parse_oidc_clock_skew parse_duration v =
    let s = trim_space v in
    if is_empty s then ok (60 * 1000000000) else elim (parse_duration s) [
      | fail err ↦ fail err
      | ok (pos n) ↦ ok n
      | ok (negsuc n) ↦ fail (new_error (lit "duration must be >= 0"))
    ]

-- The audience and the clock skew that main gives to NewValidatorWithOIDC.
unfoldable pub oidc_config : (issuer client audience : Text) → ℕ → OidcConfig
oidc_config issuer client audience skew = record {
  issuer_url = issuer;
  client_id = client;
  audience = trim_space audience;
  clock_skew = pos skew;
}
