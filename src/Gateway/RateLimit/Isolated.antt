-- ===== src/Gateway/RateLimit/Isolated.antt =====
-- Without a global bucket, users do not take from each other.
use dev_plane.Base.{
  ℕ, false, Option, none, List, [], ◌∷◌, ◌≡◌, refl, ap, sym, subst, ◌∙◌, Bool-cases, inl, inr,
  if◌then◌else◌,
}
use dev_plane.Base.Text.{Text, text_eq, text_eq_iff, text_eq_refl}
use dev_plane.Gateway.RateLimit.{
  Buckets, Verdict, user_verdict, EndpointLimiter, load_or_fresh, store, allow_user, allow,
}

module _ (b : Buckets) where
  -- The requests: when, and for which key.
  abbrev pub Requests : Type 0
  Requests = List (ℕ × Text)

  -- The verdicts of a key, in a run of Allow over the requests.
  unfoldable pub verdicts : Text → Requests → EndpointLimiter b → List Verdict
  verdicts key [] e = []
  verdicts key (r ∷ rs) e =
      let (v, e') = allow b r.0 r.1 e in
      let rest = verdicts key rs e' in if text_eq r.1 key then v ∷ rest else rest

  -- The requests of a key.
  unfoldable pub only : Text → Requests → Requests
  only key [] = []
  only key (r ∷ rs) = let rest = only key rs in if text_eq r.1 key then r ∷ rest else rest

  load-store_same :
      (new bucket : b.Bucket) (key : Text) (es : List (Text × b.Bucket))
      → load_or_fresh b new key (store b key bucket es) ≡ bucket
  unfolding load_or_fresh store
  load-store_same new bucket key [] = rw (text_eq_refl key) refl
  load-store_same new bucket key (e ∷ es) = elim (Bool-cases (text_eq e.0 key)) [
    | inl h ↦ rw h (rw (text_eq_refl key) refl)
    | inr h ↦ rw h (rw h (load-store_same new bucket key es))
  ]

  load-store_other :
      (new bucket : b.Bucket) (key other : Text) (es : List (Text × b.Bucket))
      → text_eq other key ≡ false
      → load_or_fresh b new key (store b other bucket es) ≡ load_or_fresh b new key es
  unfolding load_or_fresh store
  load-store_other new bucket key other [] n = rw n refl
  load-store_other new bucket key other (e ∷ es) n = elim (Bool-cases (text_eq e.0 other)) [
    | inl h ↦
        let q = (text_eq_iff e.0 other).0 h in
        let n' : text_eq e.0 key ≡ false = subst (λ t. text_eq t key ≡ false) (sym q) n in
        rw h (rw (n, n') refl)
    | inr h ↦ rw h (rw (load-store_other new bucket key other es n) refl)
  ]

  module _ (rps : b.Rate) (burst : ℕ) where
    -- A limiter without a global bucket.
    abbrev per_user : List (Text × b.Bucket) → EndpointLimiter b
    per_user users = record { global = none; user_rps = rps; user_burst = burst; users = users }

    -- The bucket of a key.
    abbrev bucket_of : Text → List (Text × b.Bucket) → b.Bucket
    bucket_of key users = load_or_fresh b (b.fresh rps burst) key users

    -- The users behind a request.
    abbrev next_users : ℕ → Text → List (Text × b.Bucket) → List (Text × b.Bucket)
    next_users time k users =
        if b.is_nonpositive rps then users else store b k (b.take time (bucket_of k users)).1 users

    allow-per_user :
        (time : ℕ) (k : Text) (users : List (Text × b.Bucket))
        → (allow b time k (per_user users)).1 ≡ per_user (next_users time k users)
    unfolding allow allow_user
    allow-per_user time k users = elim (Bool-cases (b.is_nonpositive rps)) [
      | inr h ↦ rw h refl
      | inl h ↦ rw h refl
    ]

    same_verdict :
        (time : ℕ) (k : Text) (us vs : List (Text × b.Bucket))
        → bucket_of k us ≡ bucket_of k vs
        → (allow b time k (per_user us)).0 ≡ (allow b time k (per_user vs)).0
    unfolding allow allow_user
    same_verdict time k us vs h = elim (Bool-cases (b.is_nonpositive rps)) [
      | inr p ↦ rw p (ap (λ x. user_verdict b (b.take time x).0) h)
      | inl p ↦ rw p refl
    ]

    -- A request of another key leaves a key's bucket as it was.
    next_users_other :
        (time : ℕ) (key k : Text) (us : List (Text × b.Bucket))
        → text_eq k key ≡ false
        → bucket_of key (next_users time k us) ≡ bucket_of key us
    next_users_other time key k us n = elim (Bool-cases (b.is_nonpositive rps)) [
      | inr p ↦ rw p (load-store_other _ _ key k us n)
      | inl p ↦ rw p refl
    ]

    -- A request of the key takes from its bucket in both.
    next_users_same :
        (time : ℕ) (key : Text) (us vs : List (Text × b.Bucket))
        → bucket_of key us ≡ bucket_of key vs
        → bucket_of key (next_users time key us) ≡ bucket_of key (next_users time key vs)
    next_users_same time key us vs h = elim (Bool-cases (b.is_nonpositive rps)) [
      | inr p ↦ rw p (
          load-store_same _ _ key us
          ∙ ap (λ x. (b.take time x).1) h
          ∙ sym (load-store_same _ _ key vs))
      | inl p ↦ rw p h
    ]

    verdicts-only :
        (key : Text) (rs : Requests) (us vs : List (Text × b.Bucket))
        → bucket_of key us ≡ bucket_of key vs
        → verdicts key rs (per_user us) ≡ verdicts key (only key rs) (per_user vs)
    unfolding verdicts only
    verdicts-only key [] us vs h = refl
    verdicts-only key ((t, k) ∷ rs) us vs h = elim (Bool-cases (text_eq k key)) [
      | inl e ↦
          let q = sym ((text_eq_iff k key).0 e) in
          let same = subst (λ x. bucket_of x us ≡ bucket_of x vs) q h in
          let next =
            subst (λ x. bucket_of key (next_users t x us) ≡ bucket_of key (next_users t x vs)) q
              (next_users_same t key us vs h) in
          rw e (
            rw (e, same_verdict t k us vs same, allow-per_user t k us, allow-per_user t k vs)
              (ap (λ l. (allow b t k (per_user vs)).0 ∷ l) (verdicts-only key rs _ _ next)))
      | inr e ↦
          rw (e, allow-per_user t k us)
            (verdicts-only key rs (next_users t k us) vs (next_users_other t key k us e ∙ h))
    ]

-- A limiter without a global bucket, at any users' buckets, and any requests in any order: the
-- verdicts that a key gets are those that it gets if only its own requests are made.
pub allow_isolated :
    (b : Buckets) (e : EndpointLimiter b) (key : Text) (rs : Requests b)
    → e.global ≡ none
    → verdicts b key rs e ≡ verdicts b key (only b key rs) e
allow_isolated b e key rs h =
    let p : e ≡ record e { global = none } =
      ap (λ (g : Option b.Bucket). record e { global = g }) h in
    subst (λ x. verdicts b key rs x ≡ verdicts b key (only b key rs) x) (sym p)
      (verdicts-only b e.user_rps e.user_burst key rs e.users e.users refl)
