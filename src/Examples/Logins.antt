-- ===== src/Examples/Logins.antt =====
-- Tokens, through the cache and the login.
use dev_plane.Base.{arith, ℕ, ◌+◌, ◌<◌, ◌≤◌, false, none, [], ◌≡◌, refl, if◌then◌else◌}
use dev_plane.Base.Text.{Text, lit, to_lower, contains, text_eq}
use dev_plane.Base.Result.{ok}
use dev_plane.Gateway.Lifecycle.{Claims}
use dev_plane.Gateway.UserId.{sanitize_user_id}
use dev_plane.Gateway.TokenCache.{
  Cache, empty_cache, lookup, index_get, insert, evict_back, index_delete, token_cache_ttl,
}
use dev_plane.Gateway.TokenCache.Steps.{run}
use dev_plane.Gateway.Auth.{
  Validated, accepted, Verified, verified, refused, VerifyError, check_verified, validate,
  auth_error_response,
}
use dev_plane.Gateway.Auth.Genuine.{IsGiven, IsTrusted, validate-IsTrusted, validate-WasVerified}
use dev_plane.Gateway.Auth.Rejects.{error_of, validate-auth_error_response}

abbrev same : Text → Text
same t = t

-- The library accepts every token as Jane.
abbrev verify : ℕ → Text → Verified
verify at token = verified (record { subject = lit "jane"; email = ok (lit "jane@example.com") })

abbrev jane : Claims
jane = record {
  sub = lit "jane";
  email = lit "jane@example.com";
  user_id = sanitize_user_id same (lit "jane");
}

empty-IsTrusted : IsTrusted same same verify 1 1 empty_cache
unfolding IsTrusted
empty-IsTrusted = tt

abbrev filled_cache : Cache
filled_cache = (validate same 1 3 same (verify 2) [] (lit "t1") empty_cache).1

validate-IsTrusted_example :
    IsTrusted same same verify 1 3 (validate same 1 3 same (verify 2) [] (lit "t1") empty_cache).1
validate-IsTrusted_example =
    validate-IsTrusted same same verify 1 1 2 3 [] (lit "t1") empty_cache (omega arith)
      (omega arith) (omega arith) tt empty-IsTrusted

filled-IsTrusted : IsTrusted same same verify 1 3 filled_cache
filled-IsTrusted =
    validate-IsTrusted same same verify 1 1 2 3 [] (lit "t1") empty_cache (omega arith)
      (omega arith) (omega arith) tt empty-IsTrusted

-- The second call finds the claims in the cache.
answered : (validate same 3 5 same (verify 4) [] (lit "t1") filled_cache).0 ≡ accepted jane
unfolding validate check_verified lookup index_get insert evict_back index_delete lit text_eq
answered = refl

validate-WasVerified_example :
    (time : ℕ) × IsGiven same same verify 1 (lit "t1") jane time
    × (time ≤ 4)
    × (3 < time + 1 + token_cache_ttl)
validate-WasVerified_example =
    validate-WasVerified same same verify 1 3 4 5 [] (lit "t1") filled_cache jane (omega arith)
      filled-IsTrusted answered

abbrev wrong_audience : VerifyError
wrong_audience = record { text = lit "oidc: expected audience gateway"; is_expired = false }

abbrev refuse : Text → Verified
refuse token = refused wrong_audience

abbrev refused_call : Validated × Cache
refused_call = validate same 1 3 same refuse [] (lit "t1") empty_cache

no_claims : (lookup 1 (lit "t1") empty_cache).0 ≡ none
unfolding lookup index_get
no_claims = refl

validate-auth_error_response_example :
    (auth_error_response (error_of refused_call.0) ≡ (
      if false
      then (401, lit "token_expired")
      else if contains (lit "aud") (to_lower same wrong_audience.text)
      then (403, lit "forbidden")
      else (401, lit "unauthorized")))
    × (refused_call.1 ≡ run [] (lookup 1 (lit "t1") empty_cache).1)
validate-auth_error_response_example =
    validate-auth_error_response same 1 3 same refuse [] (lit "t1") empty_cache wrong_audience
      no_claims refl
