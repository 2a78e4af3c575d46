-- ===== src/Gateway/Auth/Genuine.antt =====
-- The claims that Validate answers are the OIDC verifier's, through the cache.
use dev_plane.Base.{
  arith, ℕ, ◌+◌, ◌<◌, ◌≤◌, some, List, [], ◌∷◌, ◌≡◌, refl, ap, ◌∙◌, All, Option-cases, ◌⊎◌, inl,
  inr,
}
use dev_plane.Base.Text.{Text}
use dev_plane.Gateway.Lifecycle.{Claims}
use dev_plane.Gateway.TokenCache.{Element, Cache, lookup, token_cache_ttl}
use dev_plane.Gateway.TokenCache.Steps.{Op, keep, run, step}
use dev_plane.Gateway.TokenCache.Fresh.{
  IsKept, IsGenuine, lookup-IsKept, step-IsKept, run-IsKept, hit-IsKept,
}
use dev_plane.Gateway.Auth.{
  Validated, accepted, rejected, AuthError, Verified, check_verified, validate,
}

pub Validated-cases :
    (v : Validated) → ((c : Claims) × (v ≡ accepted c)) ⊎ ((e : AuthError) × (v ≡ rejected e))
Validated-cases (accepted c) = inl (c, refl)
Validated-cases (rejected e) = inr (e, refl)

-- What the verifier answers may change with the time: the key of an issuer, or the token's expiry.
-- A call of Validate puts claims into the cache at most `gap` after the verifier gave them.
module _ (unicode_lower : Text → Text) (hash_token : Text → Text) (verify : ℕ → Text → Verified)
    (gap : ℕ) where
  -- At the time, the verifier gave the claims for a token with this hash.
  unfoldable pub IsGiven : Text → Claims → ℕ → Type 0
  IsGiven key claims at =
      (raw_token : Text) × (hash_token raw_token ≡ key)
      × (check_verified unicode_lower (verify at raw_token) ≡ accepted claims)

  -- It did so at most `gap` before the time, which is not after `until`.
  unfoldable pub WasVerified : ℕ → Text → Claims → ℕ → Type 0
  WasVerified until key claims time =
      (at : ℕ) × IsGiven key claims at × (at ≤ time) × (time ≤ at + gap) × (time ≤ until)

  -- Each entry of the cache has claims that were verified for its key, and expires tokenCacheTTL
  -- after it was put there.
  unfoldable pub IsTrusted : ℕ → Cache → Type 0
  IsTrusted until c = All (IsKept (WasVerified until)) c.index

  later-IsKept :
      (first second : ℕ) (ps : List (Text × Element))
      → first ≤ second
      → All (IsKept (WasVerified first)) ps
      → All (IsKept (WasVerified second)) ps
  unfolding WasVerified
  later-IsKept first second [] order h = tt
  later-IsKept first second (p ∷ ps) order ((time, (at, given, a, b, c), e), h) =
      ((time, (at, given, a, b, omega arith), e), later-IsKept first second ps order h)

  -- A cache whose entries each have claims that the verifier gave for a token with the entry's key
  -- as its hash, at most `gap` before they were put there, which was no later than the call, and
  -- expire tokenCacheTTL after that. A call of Validate, with a clock that runs forward, that takes
  -- no longer than `gap` from the verifier's answer to the cache leaves such a cache at its end, if
  -- the sections of other calls that come between its own put only such claims.
  pub validate-IsTrusted :
      (first at second : ℕ) (between : List Op) (raw_token : Text) (c : Cache)
      → first ≤ second
      → at ≤ second
      → second ≤ at + gap
      → All (IsGenuine (WasVerified second)) between
      → IsTrusted first c
      → IsTrusted second
          (validate unicode_lower first second hash_token (verify at) between raw_token c).1
  unfolding validate WasVerified IsGiven IsTrusted step
  validate-IsTrusted first at second between raw_token c forward order soon g trusted =
      let key = hash_token raw_token in
      let P = WasVerified second in
      let looked =
        lookup-IsKept P first key c (later-IsKept first second c.index forward trusted) in
      let others = run-IsKept P between _ g looked in
      elim (Option-cases (lookup first key c).0) [
        | inr (claims, hit) ↦ rw (hit, validate) looked
        | inl miss ↦ elim (Validated-cases (check_verified unicode_lower (verify at raw_token))) [
          | inr (err, e) ↦ rw (miss, validate, e) others
          | inl (claims, e) ↦
              rw (miss, validate, e)
                (step-IsKept P (keep second key claims) (run between (lookup first key c).1)
                  (at, (raw_token, refl, e), order, soon, omega arith) others)
        ]
      ]

  -- The claims that Validate answers, from a cache as `validate-IsTrusted` keeps it, are those that
  -- the OIDC verifier gave for a token with the same hash, at a time that is not after the one at
  -- which it is asked in this call, and that is less than tokenCacheTTL and `gap` together before
  -- the call; the verifier is asked no earlier than the call begins.
  pub validate-WasVerified :
      (first at second : ℕ) (between : List Op) (raw_token : Text) (c : Cache) (claims : Claims)
      → first ≤ at
      → IsTrusted first c
      → (validate unicode_lower first second hash_token (verify at) between raw_token c).0
        ≡ accepted claims
      → (time : ℕ) × IsGiven (hash_token raw_token) claims time
        × (time ≤ at)
        × (first < time + gap + token_cache_ttl)
  unfolding validate WasVerified IsGiven IsTrusted
  validate-WasVerified first at second between raw_token c claims order trusted h =
      let key = hash_token raw_token in
      elim (Option-cases (lookup first key c).0) [
        | inr (found, hit) ↦
            let h' = rw (hit, validate) at h in
            let same : found ≡ claims = cc in
            let (put, (time, given, a, b, early), fresh) =
              hit-IsKept (WasVerified first) first key claims c trusted (hit ∙ ap some same) in
            (time, given, omega arith, omega arith)
        | inl miss ↦
            let h' = rw (miss, validate) at h in
            elim (Validated-cases (check_verified unicode_lower (verify at raw_token))) [
              | inr (err, e) ↦ let h2 = rw e at h' in cc
              | inl (given, e) ↦
                  let h2 = rw e at h' in
                  let same : given ≡ claims = cc in
                  (at, (raw_token, refl, e ∙ ap accepted same), omega arith, omega arith)
            ]
      ]
