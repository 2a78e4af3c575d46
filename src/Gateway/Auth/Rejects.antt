-- ===== src/Gateway/Auth/Rejects.antt =====
-- How a token that the OIDC library refuses is answered.
use dev_plane.Base.{
  arith, ℕ, Bool, true, false, Option, none, some, List, [], ◌∷◌, ◌++◌, ◌||◌, ◌≡◌, refl,
  if◌then◌else◌,
}
use dev_plane.Base.Text.{Text, lit, has_prefix, contains, to_lower}
use dev_plane.Gateway.TokenCache.{Cache, lookup}
use dev_plane.Gateway.TokenCache.Steps.{Op, run}
use dev_plane.Gateway.Auth.{
  Validated, accepted, rejected, Verified, VerifyError, refused, AuthError, check_verified,
  validate, classify_oidc_verify_error, auth_error_response, auth_error, token_expired, forbidden,
  unauthorized,
}

-- The error of what a validator answers.
abbrev pub error_of : Validated → Option AuthError
error_of (accepted claims) = none
error_of (rejected err) = some err

has_prefix-append : (p q s : Text) → has_prefix (p ++ q) s ≡ true → has_prefix p s ≡ true
unfolding has_prefix
has_prefix-append [] q s h = refl
has_prefix-append (a ∷ p) q [] h = cc
has_prefix-append (a ∷ p) q (b ∷ s) h = let ih = has_prefix-append p q s in ground (arith, ih)

contains-append : (p q s : Text) → contains (p ++ q) s ≡ true → contains p s ≡ true
unfolding contains
contains-append p q [] h = has_prefix-append p q [] h
contains-append p q (b ∷ s) h =
    let ih = contains-append p q s in
    let front = has_prefix-append p q (b ∷ s) in ground (arith, ih, front)

-- The second test for the audience adds nothing.
contains_aud :
    (s : Text) → (contains (lit "aud") s || contains (lit "audience") s) ≡ contains (lit "aud") s
unfolding lit
contains_aud s = let h = contains-append (lit "aud") (lit "ience") s in ground (arith, h)

answered :
    (is_expired names_aud : Bool) (text : Text)
    → auth_error_response (
        some (
          if is_expired
          then auth_error token_expired text
          else if names_aud
          then auth_error forbidden text
          else auth_error unauthorized text))
      ≡ (if is_expired
          then (401, lit "token_expired")
          else if names_aud
          then (403, lit "forbidden")
          else (401, lit "unauthorized"))
unfolding auth_error_response
answered true names_aud text = refl
answered false true text = refl
answered false false text = refl

classify-auth_error_response :
    (unicode_lower : Text → Text) (e : VerifyError)
    → auth_error_response (some (classify_oidc_verify_error unicode_lower e)) ≡ (
        if e.is_expired
        then (401, lit "token_expired")
        else if contains (lit "aud") (to_lower unicode_lower e.text)
        then (403, lit "forbidden")
        else (401, lit "unauthorized"))
unfolding classify_oidc_verify_error
classify-auth_error_response unicode_lower e =
    rw (contains_aud (to_lower unicode_lower e.text)) (answered e.is_expired _ e.text)

-- Where no claims are cached and the OIDC library refuses the token, the answer is 401
-- token_expired for an expired token; else it is 403 forbidden exactly if the error's text contains
-- the letters aud in some case, and 401 unauthorized if not; and the call adds nothing to the cache.
pub validate-auth_error_response :
    (unicode_lower : Text → Text) (first second : ℕ) (hash_token : Text → Text)
    (verify : Text → Verified) (between : List Op) (raw_token : Text) (c : Cache) (e : VerifyError)
    → (lookup first (hash_token raw_token) c).0 ≡ none
    → verify raw_token ≡ refused e
    → let result = validate unicode_lower first second hash_token verify between raw_token c in
      (auth_error_response (error_of result.0) ≡ (
        if e.is_expired
        then (401, lit "token_expired")
        else if contains (lit "aud") (to_lower unicode_lower e.text)
        then (403, lit "forbidden")
        else (401, lit "unauthorized")))
      × (result.1 ≡ run between (lookup first (hash_token raw_token) c).1)
unfolding validate check_verified
validate-auth_error_response unicode_lower first second hash_token verify between raw_token c e miss
      refusal =
    rw (miss, validate, refusal) (classify-auth_error_response unicode_lower e, refl)
