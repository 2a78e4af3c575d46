-- ===== src/Gateway/TokenCache.antt =====
-- The token cache of the Validator (pkg/gateway/auth.go). Each section that the mutex protects is
-- one function, so that calls of several requests are sequences of these in any order.
pub mod Steps
pub mod Bounded
pub mod Fresh
use dev_plane.Base.{
  ℕ, zero, suc, ◌+◌, ◌*◌, Bool, true, false, Option, none, some, List, [], ◌∷◌, ◌||◌, ltb, leb,
  ◌==◌, length, any, is_empty, if◌then◌else◌, not,
}
use dev_plane.Base.Text.{Text, text_eq}
use dev_plane.Gateway.Lifecycle.{Claims}

abbrev pub token_cache_max : ℕ
token_cache_max = 10000

-- Five minutes, in nanoseconds.
abbrev pub token_cache_ttl : ℕ
token_cache_ttl = 300000000000

pub record CachedEntry : Type 0 where
  pub key : Text
  pub claims : Claims
  pub expiry : ℕ

-- An element of the list: its identity and its value.
pub record Element : Type 0 where
  pub id : ℕ
  pub value : CachedEntry

-- The index, the list from its front, and the identity of the next element.
pub record Cache : Type 0 where
  pub index : List (Text × Element)
  pub lru : List Element
  pub next : ℕ

abbrev pub empty_cache : Cache
empty_cache = record { index = []; lru = []; next = 0 }

unfoldable pub index_get : Text → List (Text × Element) → Option Element
index_get key [] = none
index_get key (p ∷ ps) = let rest = index_get key ps in if text_eq p.0 key then some p.1 else rest

unfoldable pub index_delete : Text → List (Text × Element) → List (Text × Element)
index_delete key [] = []
index_delete key (p ∷ ps) =
    let rest = index_delete key ps in if text_eq p.0 key then rest else p ∷ rest

-- (*list.List).Remove, which does nothing to an element that was removed before.
unfoldable pub lru_remove : ℕ → List Element → List Element
lru_remove id [] = []
lru_remove id (e ∷ es) = let rest = lru_remove id es in if e.id == id then es else e ∷ rest

-- (*list.List).MoveToFront
unfoldable pub move_to_front : Element → List Element → List Element
unfolding lru_remove
move_to_front e es = if any (λ x. x.id == e.id) es then e ∷ lru_remove e.id es else es

-- The first section of Validate: the claims of an entry that has not expired.
unfoldable pub lookup : ℕ → Text → Cache → Option Claims × Cache
unfolding move_to_front
lookup now key c = elim (index_get key c.index) [
  | none ↦ (none, c)
  | some e ↦
      if ltb now e.value.expiry
      then (some e.value.claims, record c { lru = move_to_front e c.lru })
      else (none, record c { lru = lru_remove e.id c.lru; index = index_delete key c.index })
]

-- The last element and the list without it.
unfoldable pub split_back : Element → List Element → List Element × Element
split_back e [] = ([], e)
split_back e (x ∷ xs) = let rest = split_back x xs in (e ∷ rest.0, rest.1)

-- The loop that evicts at the back, one round for each unit of fuel.
unfoldable pub evict_back : ℕ → Cache → Cache
unfolding split_back
evict_back zero c = c
evict_back (suc fuel) c = elim c.lru [
  | [] ↦ c
  | x ∷ xs ↦
      let parts = split_back x xs in
      let rest =
        evict_back fuel
          (record c { lru = parts.0; index = index_delete parts.1.value.key c.index }) in
      if leb token_cache_max (length (x ∷ xs)) then rest else c
]

-- The second section of Validate: the claims are kept for a while. The list's length is fuel enough.
unfoldable pub insert : ℕ → Text → Claims → Cache → Cache
unfolding evict_back
insert now key claims c =
    let d = evict_back (length c.lru) c in
    let e : Element = record {
      id = d.next;
      value = record { key = key; claims = claims; expiry = now + token_cache_ttl };
    } in
    record { index = (key, e) ∷ index_delete key d.index; lru = e ∷ d.lru; next = suc d.next }

-- The loop of evictExpired over the entries of the index.
unfoldable pub sweep_entries : ℕ → List (Text × Element) → Cache → Cache
sweep_entries now [] c = c
sweep_entries now (p ∷ ps) c =
    let kept = sweep_entries now ps c in
    if ltb p.1.value.expiry now
    then record kept { lru = lru_remove p.1.id kept.lru; index = index_delete p.0 kept.index }
    else kept

unfoldable pub sweep : ℕ → Cache → Cache
unfolding sweep_entries
sweep now c = sweep_entries now c.index c
