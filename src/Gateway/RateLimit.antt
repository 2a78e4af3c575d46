-- ===== src/Gateway/RateLimit.antt =====
-- The EndpointLimiter of pkg/gateway/ratelimit.go. golang.org/x/time/rate and the rates' type are
-- parameters: `fresh` is rate.NewLimiter, and `take` is Allow at a time, with the bucket it leaves.
pub mod Isolated
use dev_plane.Base.Int.{pos_part}
use dev_plane.Base.Text.Parse.{parse_int}
use dev_plane.Base.{
  ℕ, ◌^◌, is_empty, Bool, true, false, Option, none, some, List, [], ◌∷◌, ◌&&◌, ◌||◌, not, ltb,
  if◌then◌else◌,
}
use dev_plane.Base.Text.{Text, lit, text_eq}

-- The rate library.
pub record Buckets : Type 1 where
  pub Rate : Type 0
  -- `> 0` and `<= 0`, which are both false of NaN
  pub is_positive : Rate → Bool
  pub is_nonpositive : Rate → Bool
  pub Bucket : Type 0
  pub fresh : Rate → ℕ → Bucket
  pub take : ℕ → Bucket → Bool × Bucket

-- What Allow returns.
pub record Verdict : Type 0 where
  pub allowed : Bool
  pub scope : Text

-- parseIntEnv, on the value of the variable: the positive part of an int of 64 bits, 0 where it
-- cannot be read.
unfoldable pub parse_int_env : Text → ℕ
parse_int_env v =
    if is_empty v then 0 else elim (parse_int (2 ^ 63) v) [ none ↦ 0 | some n ↦ pos_part n ]

module _ (b : Buckets) where
  -- The sync.Map of the users is its entries.
  pub record EndpointLimiter : Type 0 where
    pub global : Option b.Bucket
    pub user_rps : b.Rate
    pub user_burst : ℕ
    pub users : List (Text × b.Bucket)

  -- NewEndpointLimiter; `none` is the nil limiter. A burst is the positive part of Go's int.
  unfoldable pub new_endpoint_limiter : b.Rate → ℕ → b.Rate → ℕ → Option EndpointLimiter
  new_endpoint_limiter global_rps global_burst user_rps user_burst =
      let g : Option b.Bucket =
        if b.is_positive global_rps && ltb 0 global_burst
        then some (b.fresh global_rps global_burst)
        else none in
      let limiter : EndpointLimiter = record {
        global = g;
        user_rps = user_rps;
        user_burst = if ltb 0 user_burst then user_burst else 1;
        users = [];
      } in
      elim g [
        | some _ ↦ some limiter
        | none ↦ if b.is_nonpositive user_rps then none else some limiter
      ]

  -- parseFloatEnv, on the value of the variable; `zero` is 0 and `parse` is ParseFloat, where an error
  -- is none.
  unfoldable pub parse_float_env : (zero : b.Rate) → (Text → Option b.Rate) → Text → b.Rate
  parse_float_env zero parse v =
      if is_empty v then zero else elim (parse v) [ none ↦ zero | some f ↦ f ]

  -- LoadEndpointLimiterFromEnv, on the values of the four variables.
  unfoldable pub load_endpoint_limiter_from_env :
      (zero : b.Rate)
      → (Text → Option b.Rate)
      → (global_rps global_burst user_rps user_burst : Text) → Option EndpointLimiter
  unfolding new_endpoint_limiter parse_float_env parse_int_env
  load_endpoint_limiter_from_env zero parse global_rps global_burst user_rps user_burst =
      new_endpoint_limiter (parse_float_env zero parse global_rps) (parse_int_env global_burst)
        (parse_float_env zero parse user_rps) (parse_int_env user_burst)

  -- The bucket of a key, or a fresh one.
  unfoldable pub load_or_fresh : b.Bucket → Text → List (Text × b.Bucket) → b.Bucket
  load_or_fresh new key [] = new
  load_or_fresh new key (e ∷ es) =
      let rest = load_or_fresh new key es in if text_eq e.0 key then e.1 else rest

  -- The entries with the bucket that a key has from now on.
  unfoldable pub store : Text → b.Bucket → List (Text × b.Bucket) → List (Text × b.Bucket)
  store key bucket [] = (key, bucket) ∷ []
  store key bucket (e ∷ es) =
      let rest = store key bucket es in if text_eq e.0 key then (key, bucket) ∷ es else e ∷ rest

  abbrev pub user_verdict : Bool → Verdict
  user_verdict ok = record { allowed = ok; scope = if ok then [] else lit "user" }

  -- The part of Allow behind the global bucket.
  unfoldable pub allow_user : ℕ → Text → EndpointLimiter → Verdict × EndpointLimiter
  allow_user time key e =
      let taken = b.take time (load_or_fresh (b.fresh e.user_rps e.user_burst) key e.users) in
      if b.is_nonpositive e.user_rps
      then (record { allowed = true; scope = [] }, e)
      else (user_verdict taken.0, record e { users = store key taken.1 e.users })

  -- Allow of a limiter that is not nil.
  unfoldable pub allow : ℕ → Text → EndpointLimiter → Verdict × EndpointLimiter
  unfolding allow_user
  allow time key e = elim e.global [
    | none ↦ allow_user time key e
    | some g ↦
        let (ok, g') = b.take time g in
        let e' = record e { global = some g' } in
        if ok
        then allow_user time key e'
        else (record { allowed = false; scope = lit "global" }, e')
  ]

  -- A nil limiter allows all.
  unfoldable pub allow_any : ℕ → Text → Option EndpointLimiter → Verdict × Option EndpointLimiter
  unfolding allow
  allow_any time key none = (record { allowed = true; scope = [] }, none)
  allow_any time key (some e) = let (v, e') = allow time key e in (v, some e')
