-- ===== src/Examples/Tokens.antt =====
-- The token cache.
use dev_plane.Base.{arith, ℕ, ◌+◌, ◌≤◌, ◌<◌, some, List, [], ◌∷◌, ◌≡◌, refl, length}
use dev_plane.Base.Text.{Text, lit, text_eq}
use dev_plane.Gateway.Lifecycle.{Claims}
use dev_plane.Gateway.TokenCache.{
  token_cache_max, token_cache_ttl, empty_cache, index_get, index_delete, evict_back, lookup,
  insert,
}
use dev_plane.Gateway.TokenCache.Steps.{Op, look, keep, run}
use dev_plane.Gateway.TokenCache.Bounded.{cache_bounded}
use dev_plane.Gateway.TokenCache.Fresh.{cache_fresh}

abbrev jane : Claims
jane = record { sub = lit "jane"; email = lit "jane@example.com"; user_id = lit "jane" }

abbrev ops : List Op
ops = look 1 (lit "t1") ∷ keep 2 (lit "t1") jane ∷ keep 3 (lit "t2") jane ∷ look 4 (lit "t1") ∷ []

cache_bounded_example : length (run ops empty_cache).lru ≤ token_cache_max
cache_bounded_example = cache_bounded ops

-- The verifier answers Jane's claims, at times after 1.
abbrev IsVerified : Text → Claims → ℕ → Type 0
IsVerified key claims t = (claims ≡ jane) × (1 < t)

cached : (lookup 5 (lit "t1") (run ops empty_cache)).0 ≡ some jane
unfolding run lookup insert evict_back index_get index_delete text_eq lit
cached = refl

cache_fresh_example : (t : ℕ) × IsVerified (lit "t1") jane t × (5 < t + token_cache_ttl)
cache_fresh_example =
    cache_fresh IsVerified ops 5 (lit "t1") jane
      (tt, ((refl, omega arith), ((refl, omega arith), (tt, tt)))) cached
