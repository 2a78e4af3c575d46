-- ===== src/Gateway/Recording/Tamper.antt =====
-- Tamper evidence of a recording's hash chain.
use dev_plane.Base.{
  arith, ℕ, ◌^◌, ◌<◌, false, none, some, List, [], ◌∷◌, ◌≡◌, ◌≢◌, ◌⊎◌, inl, inr, refl, sym, ap, ◌∙◌,
  map, All, Bool-cases, if_and_some, Option-cases, is_empty, subst,
}
use dev_plane.Base.Text.{Text, text_eq, text_eq_iff, decimal}
use dev_plane.Base.Text.Decimal.{decimal-injective, decimal-IsDigit, IsDigit}
use dev_plane.Base.Text.Split.{Without, split_unique}
use dev_plane.Gateway.Recording.{SessionFrameRecord, Codec, sum_input}
use dev_plane.Gateway.Recording.Chain.{verify}

-- Two texts with one digest.
pub Collision : Codec → Type 0
Collision c = (s : Text) × (t : Text) × (s ≢ t) × (c.sha256_hex s ≡ c.sha256_hex t)

-- Hexadecimal digests: not empty, and without the separator of the chained fields.
unfoldable pub HasHexDigests : Codec → Type 0
HasHexDigests c = (s : Text) → Without b'|' (c.sha256_hex s) × (is_empty (c.sha256_hex s) ≡ false)

-- A line whose numbers have at most twenty digits, and whose direction and payload digest are
-- without the separator.
unfoldable pub IsRegular : SessionFrameRecord → Type 0
IsRegular l =
    (l.seq < 10 ^ 20)
    × (l.message_type < 10 ^ 20)
    × Without b'|' l.direction
    × Without b'|' l.payload_sha

abbrev pub Chained : Type 0
Chained = (Text × ℕ) × ((Text × ℕ) × (Text × Text))

-- The fields of a line that its entry hash covers.
abbrev pub chained : SessionFrameRecord → Chained
chained l =
    ((l.prev_hash, l.seq), ((l.direction, l.message_type), (l.payload_sha, l.timestamp_utc)))

digits-Without : (s : Text) → All IsDigit s → Without b'|' s
digits-Without [] h = tt
digits-Without (x ∷ s) h = ((λ e. omega arith), digits-Without s h.1)

sum_input-injective :
    (l m : SessionFrameRecord)
    → IsRegular l
    → IsRegular m
    → Without b'|' l.prev_hash
    → Without b'|' m.prev_hash
    → sum_input l.prev_hash l.seq l.direction l.message_type l.payload_sha l.timestamp_utc
      ≡ sum_input m.prev_hash m.seq m.direction m.message_type m.payload_sha m.timestamp_utc
    → chained l ≡ chained m
unfolding IsRegular sum_input
sum_input-injective l m rl rm pl pm e =
    let bar : ℕ = b'|' in
    let h1 = split_unique bar l.prev_hash m.prev_hash pl pm e in
    let h2 =
      split_unique bar (decimal l.seq) (decimal m.seq) (digits-Without _ (decimal-IsDigit l.seq))
        (digits-Without _ (decimal-IsDigit m.seq)) h1.1 in
    let h3 = split_unique bar l.direction m.direction rl.2 rm.2 h2.1 in
    let h4 =
      split_unique bar (decimal l.message_type) (decimal m.message_type)
        (digits-Without _ (decimal-IsDigit l.message_type))
        (digits-Without _ (decimal-IsDigit m.message_type)) h3.1 in
    let h5 = split_unique bar l.payload_sha m.payload_sha rl.3 rm.3 h4.1 in
    let seqs = decimal-injective l.seq m.seq rl.0 rm.0 h2.0 in
    let types = decimal-injective l.message_type m.message_type rl.1 rm.1 h4.0 in
    let p = h1.0 in
    let d = h3.0 in let s = h5.0 in let t = h5.1 in rw (p, seqs, d, types, s, t) refl

-- What a checked line shows.
verify-cons :
    (c : Codec) (l : SessionFrameRecord) (ls : List SessionFrameRecord) (final : Text)
    → verify c (l ∷ ls) ≡ some final
    → (verify c ls ≡ some l.prev_hash)
      × (c.sha256_hex
            (sum_input l.prev_hash l.seq l.direction l.message_type l.payload_sha l.timestamp_utc)
          ≡ final)
unfolding verify
verify-cons c l ls final h = elim (Option-cases (verify c ls)) [
  | inl e ↦ let h' = rw e at h in cc
  | inr (prev, e) ↦
      let h' = rw e at h in
      let parts = if_and_some _ _ h' in
      let p = (text_eq_iff l.prev_hash prev).0 parts.0 in
      let q = (text_eq_iff l.entry_hash _).0 parts.1 in
      (e ∙ ap some (sym p), rw p (sym q ∙ parts.2))
]

verify-Without :
    (c : Codec)
    → HasHexDigests c
    → (ls : List SessionFrameRecord) (final : Text) → verify c ls ≡ some final
    → Without b'|' final
unfolding HasHexDigests verify
verify-Without c hex [] final h = subst (λ o. elim o [ none ↦ Unit | some t ↦ Without b'|' t ]) h tt
verify-Without c hex (l ∷ ls) final h =
    subst (Without b'|') (verify-cons c l ls final h).1 (hex _).0

-- A chain that has a line does not end where the empty chain does.
not_start :
    (c : Codec)
    → HasHexDigests c
    → (l : SessionFrameRecord) (ls : List SessionFrameRecord) (final : Text)
    → verify c (l ∷ ls) ≡ some final
    → final ≢ []
unfolding HasHexDigests
not_start c hex l ls final h e =
    let p = (verify-cons c l ls final h).1 ∙ e in
    let q =
      (hex
        (sum_input l.prev_hash l.seq l.direction l.message_type l.payload_sha l.timestamp_utc)).1 in
    cc

-- One step: the two newest lines agree, or their inputs collide.
same_line :
    (c : Codec) (l m : SessionFrameRecord) (ls ms : List SessionFrameRecord) (final : Text)
    → HasHexDigests c
    → IsRegular l
    → IsRegular m
    → verify c (l ∷ ls) ≡ some final
    → verify c (m ∷ ms) ≡ some final
    → (l.prev_hash ≡ m.prev_hash → (map chained ls ≡ map chained ms) ⊎ Collision c)
    → (map chained (l ∷ ls) ≡ map chained (m ∷ ms)) ⊎ Collision c
unfolding Collision
same_line c l m ls ms final hex rl rm hl hm rest =
    let pl = verify-cons c l ls final hl in
    let pm = verify-cons c m ms final hm in
    let s = sum_input l.prev_hash l.seq l.direction l.message_type l.payload_sha l.timestamp_utc in
    let t = sum_input m.prev_hash m.seq m.direction m.message_type m.payload_sha m.timestamp_utc in
    elim (Bool-cases (text_eq s t)) [
      | inr differ ↦ inr (s, t, (λ e. let y = (text_eq_iff s t).1 e in cc), pl.1 ∙ sym pm.1)
      | inl same ↦
          let e =
            sum_input-injective l m rl rm (verify-Without c hex ls l.prev_hash pl.0)
              (verify-Without c hex ms m.prev_hash pm.0) ((text_eq_iff s t).0 same) in
          elim (rest (ap (λ (x : Chained). x.0.0) e)) [
            | inl es ↦ inl (rw (e, es) refl)
            | inr collision ↦ inr collision
          ]
    ]

-- Two recordings whose lines check out against the same final hash agree, line by line and in their
-- number, on all the fields that the hashes cover; otherwise two texts with the same SHA-256 are at
-- hand. Directions and payload digests are without the separator, numbers have at most twenty
-- digits, and digests are hexadecimal.
pub verify-Collision :
    (c : Codec) (ls ms : List SessionFrameRecord) (final : Text)
    → HasHexDigests c
    → All IsRegular ls
    → All IsRegular ms
    → verify c ls ≡ some final
    → verify c ms ≡ some final
    → (map chained ls ≡ map chained ms) ⊎ Collision c
unfolding verify
verify-Collision c [] [] final hex rl rm hl hm = inl refl
verify-Collision c [] (m ∷ ms) final hex rl rm hl hm = elim (not_start c hex m ms final hm cc) [ ]
verify-Collision c (l ∷ ls) [] final hex rl rm hl hm = elim (not_start c hex l ls final hl cc) [ ]
verify-Collision c (l ∷ ls) (m ∷ ms) final hex rl rm hl hm =
    same_line c l m ls ms final hex rl.0 rm.0 hl hm (λ prevs.
      verify-Collision c ls ms l.prev_hash hex rl.1 rm.1 (verify-cons c l ls final hl).0
        (rw prevs (verify-cons c m ms final hm).0))
