-- ===== src/Gateway/TokenCache/Bounded.antt =====
-- The cache never grows over its maximum.
use dev_plane.Base.{
  List-cases, ap, on_true, on_false, ℕ, zero, suc, ◌≤◌, ◌<◌, true, Option, List, [], ◌∷◌, ◌≡◌, refl,
  arith, ltb, leb, ◌==◌, length, Bool-cases, Option-cases, inl, inr, any,
}
use dev_plane.Base.Text.{Text}
use dev_plane.Gateway.Lifecycle.{Claims}
use dev_plane.Gateway.TokenCache.{
  token_cache_max, Element, Cache, empty_cache, index_get, lru_remove, move_to_front, lookup,
  split_back, evict_back, insert, sweep_entries, sweep,
}
use dev_plane.Gateway.TokenCache.Steps.{Op, look, keep, clean, step, run}

length-lru_remove : (id : ℕ) (es : List Element) → length (lru_remove id es) ≤ length es
unfolding lru_remove
length-lru_remove id [] = omega arith
length-lru_remove id (e ∷ es) = ground (arith, length-lru_remove id es)

length-lru_remove_present :
    (id : ℕ) (es : List Element)
    → any (λ x. x.id == id) es ≡ true
    → length (lru_remove id es) < length es
unfolding lru_remove
length-lru_remove_present id [] h = cc
length-lru_remove_present id (e ∷ es) h = ground (arith, length-lru_remove_present id es)

length-move_to_front : (e : Element) (es : List Element) → length (move_to_front e es) ≤ length es
unfolding move_to_front
length-move_to_front e es = ground (arith, length-lru_remove_present e.id es)

length-split_back : (x : Element) (xs : List Element) → length (split_back x xs).0 ≡ length xs
unfolding split_back
length-split_back x [] = refl
length-split_back x (y ∷ ys) = ground (arith, length-split_back y ys)

-- With fuel for the list, fewer elements than the maximum are left.
length-evict_back :
    (fuel : ℕ) (c : Cache) → length c.lru ≤ fuel → length (evict_back fuel c).lru < token_cache_max
unfolding evict_back
length-evict_back zero c h = omega arith
length-evict_back (suc fuel) c h = elim (List-cases c.lru) [
  | inl e ↦ rw (e, evict_back) (rw e (omega arith))
  | inr (x, xs, e) ↦
      let shorter : length (split_back x xs).0 ≤ fuel =
        omega (arith, length-split_back x xs, ap length e) in
      rw (e, evict_back)
        (elim (Bool-cases (leb token_cache_max (length (x ∷ xs)))) [
          | inl full ↦
              on_true (λ (d : Cache). length d.lru < token_cache_max) _ c full
                (length-evict_back fuel _ shorter)
          | inr free ↦
              on_false (λ (d : Cache). length d.lru < token_cache_max) _ c free
                (rw e (ground arith))
        ])
]

length-sweep_entries :
    (now : ℕ) (ps : List (Text × Element)) (c : Cache)
    → length (sweep_entries now ps c).lru ≤ length c.lru
unfolding sweep_entries
length-sweep_entries now [] c = omega arith
length-sweep_entries now (p ∷ ps) c =
    ground
      (arith, length-sweep_entries now ps c, length-lru_remove p.1.id (sweep_entries now ps c).lru)

length-lookup : (now : ℕ) (key : Text) (c : Cache) → length (lookup now key c).1.lru ≤ length c.lru
unfolding lookup
length-lookup now key c = elim (Option-cases (index_get key c.index)) [
  | inl e ↦ rw (e, lookup) (omega arith)
  | inr (x, e) ↦
      rw (e, lookup)
        (elim (Bool-cases (ltb now x.value.expiry)) [
          | inl fresh ↦
              on_true (λ (t : Option Claims × Cache). length t.1.lru ≤ length c.lru) _ _ fresh
                (length-move_to_front x c.lru)
          | inr old ↦
              on_false (λ (t : Option Claims × Cache). length t.1.lru ≤ length c.lru) _ _ old
                (length-lru_remove x.id c.lru)
        ])
]

length-insert :
    (now : ℕ) (key : Text) (claims : Claims) (c : Cache)
    → length (insert now key claims c).lru ≤ token_cache_max
unfolding insert
length-insert now key claims c = omega (arith, length-evict_back (length c.lru) c (omega arith))

length-step :
    (o : Op) (c : Cache) → length c.lru ≤ token_cache_max → length (step o c).lru ≤ token_cache_max
unfolding step sweep
length-step (look now key) c h = omega (arith, length-lookup now key c)
length-step (keep now key claims) c h = length-insert now key claims c
length-step (clean now) c h = omega (arith, length-sweep_entries now c.index c)

length-run :
    (os : List Op) (c : Cache)
    → length c.lru ≤ token_cache_max
    → length (run os c).lru ≤ token_cache_max
unfolding run
length-run [] c h = h
length-run (o ∷ os) c h = length-run os (step o c) (length-step o c h)

-- However the sections of the requests and of the background loop follow each other, the cache that
-- began empty never holds more than tokenCacheMax elements.
pub cache_bounded : (os : List Op) → length (run os empty_cache).lru ≤ token_cache_max
cache_bounded os = length-run os empty_cache (omega arith)
