-- ===== src/Gateway/TokenCache/Fresh.antt =====
-- What the cache answers was verified not long ago.
use dev_plane.Base.{
  List-cases, subst, on_true, on_false, ℕ, zero, suc, ◌+◌, ◌<◌, Option, none, some, List, [], ◌∷◌,
  ◌≡◌, refl, arith, All, ltb, leb, length, Bool-cases, Option-cases, inl, inr,
}
use dev_plane.Base.Text.{Text, text_eq, text_eq_iff}
use dev_plane.Gateway.Lifecycle.{Claims}
use dev_plane.Gateway.TokenCache.{
  token_cache_max, token_cache_ttl, Element, Cache, empty_cache, index_get, index_delete, lookup,
  evict_back, insert, sweep_entries, sweep,
}
use dev_plane.Gateway.TokenCache.Steps.{Op, look, keep, clean, step, run}

module _ (P : Text → Claims → ℕ → Type 0) where
  -- The entry of a key has claims that were verified for the key, and expires as long after.
  abbrev pub IsKept : Text × Element → Type 0
  IsKept p = (t : ℕ) × P p.0 p.1.value.claims t × (p.1.value.expiry ≡ t + token_cache_ttl)

  abbrev IsKeptFor : Text → Option Element → Type 0
  IsKeptFor key none = Unit
  IsKeptFor key (some e) = IsKept (key, e)

  index_get-IsKept :
      (key : Text) (ps : List (Text × Element)) (e : Element)
      → All IsKept ps
      → index_get key ps ≡ some e
      → IsKept (key, e)
  unfolding index_get
  index_get-IsKept key [] e h g = cc
  index_get-IsKept key ((k, x) ∷ ps) e h g = elim (Bool-cases (text_eq k key)) [
    | inl q ↦
        let kept = subst (λ t. IsKept (t, x)) ((text_eq_iff k key).0 q) h.0 in
        subst (IsKeptFor key) (rw q at g) kept
    | inr q ↦ index_get-IsKept key ps e h.1 (rw q at g)
  ]

  index_delete-IsKept :
      (key : Text) (ps : List (Text × Element)) → All IsKept ps → All IsKept (index_delete key ps)
  unfolding index_delete
  index_delete-IsKept key [] h = tt
  index_delete-IsKept key (p ∷ ps) h = elim (Bool-cases (text_eq p.0 key)) [
    | inl q ↦ rw q (index_delete-IsKept key ps h.1)
    | inr q ↦ rw q (h.0, index_delete-IsKept key ps h.1)
  ]

  evict_back-IsKept :
      (fuel : ℕ) (c : Cache) → All IsKept c.index → All IsKept (evict_back fuel c).index
  unfolding evict_back
  evict_back-IsKept zero c h = h
  evict_back-IsKept (suc fuel) c h = elim (List-cases c.lru) [
    | inl e ↦ rw (e, evict_back) h
    | inr (x, xs, e) ↦
        rw (e, evict_back)
          (elim (Bool-cases (leb token_cache_max (length (x ∷ xs)))) [
            | inl full ↦
                on_true (λ (d : Cache). All IsKept d.index) _ c full
                  (evict_back-IsKept fuel _ (index_delete-IsKept _ c.index h))
            | inr free ↦ on_false (λ (d : Cache). All IsKept d.index) _ c free h
          ])
  ]

  sweep_entries-IsKept :
      (now : ℕ) (ps : List (Text × Element)) (c : Cache)
      → All IsKept c.index
      → All IsKept (sweep_entries now ps c).index
  unfolding sweep_entries
  sweep_entries-IsKept now [] c h = h
  sweep_entries-IsKept now (p ∷ ps) c h = elim (Bool-cases (ltb p.1.value.expiry now)) [
    | inl q ↦
        on_true (λ (d : Cache). All IsKept d.index) _ (sweep_entries now ps c) q
          (index_delete-IsKept p.0 _ (sweep_entries-IsKept now ps c h))
    | inr q ↦
        on_false (λ (d : Cache). All IsKept d.index) _ (sweep_entries now ps c) q
          (sweep_entries-IsKept now ps c h)
  ]

  pub lookup-IsKept :
      (now : ℕ) (key : Text) (c : Cache)
      → All IsKept c.index
      → All IsKept (lookup now key c).1.index
  unfolding lookup
  lookup-IsKept now key c h = elim (Option-cases (index_get key c.index)) [
    | inl e ↦ rw (e, lookup) h
    | inr (x, e) ↦
        rw (e, lookup)
          (elim (Bool-cases (ltb now x.value.expiry)) [
            | inl fresh ↦ on_true (λ (t : Option Claims × Cache). All IsKept t.1.index) _ _ fresh h
            | inr old ↦
                on_false (λ (t : Option Claims × Cache). All IsKept t.1.index) _ _ old
                  (index_delete-IsKept key c.index h)
          ])
  ]

  -- Claims are kept only when they were verified for the key at that time.
  abbrev pub IsGenuine : Op → Type 0
  IsGenuine (look now key) = Unit
  IsGenuine (keep now key claims) = P key claims now
  IsGenuine (clean now) = Unit

  pub step-IsKept :
      (o : Op) (c : Cache) → IsGenuine o → All IsKept c.index → All IsKept (step o c).index
  unfolding step insert sweep
  step-IsKept (look now key) c g h = lookup-IsKept now key c h
  step-IsKept (keep now key claims) c g h =
      ((now, g, refl), index_delete-IsKept key _ (evict_back-IsKept (length c.lru) c h))
  step-IsKept (clean now) c g h = sweep_entries-IsKept now c.index c h

  pub run-IsKept :
      (os : List Op) (c : Cache)
      → All IsGenuine os
      → All IsKept c.index
      → All IsKept (run os c).index
  unfolding run
  run-IsKept [] c g h = h
  run-IsKept (o ∷ os) c g h = run-IsKept os (step o c) g.1 (step-IsKept o c g.0 h)

  pub hit-IsKept :
      (now : ℕ) (key : Text) (claims : Claims) (c : Cache)
      → All IsKept c.index
      → (lookup now key c).0 ≡ some claims
      → (t : ℕ) × P key claims t × (now < t + token_cache_ttl)
  unfolding lookup
  hit-IsKept now key claims c h g = elim (Option-cases (index_get key c.index)) [
    | inl e ↦ let g1 = rw (e, lookup) at g in cc
    | inr (x, e) ↦
        let g1 = rw (e, lookup) at g in
        let (t, p, q) = index_get-IsKept key c.index x h e in
        elim (Bool-cases (ltb now x.value.expiry)) [
          | inl fresh ↦
              let g2 = rw fresh at g1 in
              let same : x.value.claims ≡ claims = cc in
              (t, subst (λ y. P key y t) same p, ground arith)
          | inr old ↦ let g2 = rw old at g1 in cc
        ]
  ]

-- However the sections of the requests and of the background loop follow each other, if claims are
-- put into the cache only when they were verified for their key, then the claims that the cache
-- answers for a key were verified for that key, less than tokenCacheTTL ago.
pub cache_fresh :
    (P : Text → Claims → ℕ → Type 0) (os : List Op) (now : ℕ) (key : Text) (claims : Claims)
    → All (IsGenuine P) os
    → (lookup now key (run os empty_cache)).0 ≡ some claims
    → (t : ℕ) × P key claims t × (now < t + token_cache_ttl)
cache_fresh P os now key claims g h =
    hit-IsKept P now key claims (run os empty_cache) (run-IsKept P os empty_cache g tt) h
