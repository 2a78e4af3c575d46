-- ===== src/Examples/Limits.antt =====
-- The rate limiter with counting buckets.
use dev_plane.Base.{ℕ, ◌-◌, none, [], ◌∷◌, ◌≡◌, refl, ltb, leb, true}
use dev_plane.Base.Text.{lit, text_eq}
use dev_plane.Gateway.RateLimit.{Buckets, EndpointLimiter, load_or_fresh, store, allow}
use dev_plane.Gateway.RateLimit.Isolated.{Requests, verdicts, only, allow_isolated}

-- Buckets that are never filled again.
abbrev counting : Buckets
counting = record {
  Rate = ℕ;
  is_positive = λ r. ltb 0 r;
  is_nonpositive = λ r. leb r 0;
  Bucket = ℕ;
  fresh = λ rate burst. burst;
  take = λ time n. (ltb 0 n, n - 1);
}

abbrev limiter : EndpointLimiter counting
limiter = record { global = none; user_rps = 1; user_burst = 1; users = [] }

abbrev requests : Requests counting
requests = (1, lit "jane") ∷ (2, lit "joe") ∷ (3, lit "jane") ∷ []

verdicts_test :
    verdicts counting (lit "jane") requests limiter
    ≡ record { allowed = true; scope = [] } ∷ record { allowed = ltb 0 0; scope = lit "user" } ∷ []
unfolding verdicts allow load_or_fresh store text_eq lit
verdicts_test = refl

allow_isolated_example :
    verdicts counting (lit "jane") requests limiter
    ≡ verdicts counting (lit "jane") (only counting (lit "jane") requests) limiter
allow_isolated_example = allow_isolated counting limiter (lit "jane") requests refl
