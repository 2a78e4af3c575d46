-- ===== src/Gateway/UserId/Label.antt =====
-- The result of sanitizeUserID is empty or a DNS label of at most 49 bytes.
use dev_plane.Base.{
  ℕ, zero, suc, ◌≤◌, Bool, true, false, [], ◌∷◌, ◌&&◌, ◌||◌, ◌≡◌, refl, ◌⊎◌, inl, inr, arith, All,
  Bool-cases, is_empty, length, ltb, ◌==◌, if◌then◌else◌,
}
use dev_plane.Base.Text.{Text, to_lower}
use dev_plane.Resources.Names.{is_lower, is_alnum, label_rest, dns_label}
use dev_plane.Gateway.UserId.{
  replace_runs, trim_left, trim_right, take, letter_first, bounded, sanitize_user_id,
}

-- A byte that may stand inside of a label.
abbrev IsLabelByte : ℕ → Type 0
IsLabelByte c = (is_alnum c || c == b'-') ≡ true

dropped-All :
    (b : Bool) (s : Text) → All IsLabelByte s → All IsLabelByte (if b then s else b'-' ∷ s)
dropped-All true s h = h
dropped-All false s h = (refl, h)

replace_runs-All : (b : Bool) (s : Text) → All IsLabelByte (replace_runs b s)
unfolding replace_runs
replace_runs-All b [] = tt
replace_runs-All b (c ∷ s) = elim (Bool-cases (is_alnum c)) [
  | inl a ↦ rw a (rw a refl, replace_runs-All false s)
  | inr a ↦ rw a (dropped-All b (replace_runs true s) (replace_runs-All true s))
]

trim_left-All : (s : Text) → All IsLabelByte s → All IsLabelByte (trim_left s)
unfolding trim_left
trim_left-All [] h = tt
trim_left-All (c ∷ s) h = ground (arith, trim_left-All s h.1)

take-All : (n : ℕ) (s : Text) → All IsLabelByte s → All IsLabelByte (take n s)
unfolding take
take-All zero s h = tt
take-All (suc n) [] h = tt
take-All (suc n) (c ∷ s) h = (h.0, take-All n s h.1)

length-take : (n : ℕ) (s : Text) → length (take n s) ≤ n
unfolding take
length-take zero s = omega arith
length-take (suc n) [] = omega arith
length-take (suc n) (c ∷ s) = omega (arith, length-take n s)

length-trim_right : (s : Text) → length (trim_right s) ≤ length s
unfolding trim_right
length-trim_right [] = omega arith
length-trim_right (c ∷ s) = ground (arith, length-trim_right s)

trim_step :
    (c : ℕ) (r : Text)
    → IsLabelByte c
    → label_rest r ≡ true
    → label_rest (if is_empty r && c == b'-' then [] else c ∷ r) ≡ true
unfolding label_rest
trim_step c [] h k = ground arith
trim_step c (d ∷ r) h k = ground arith

label_rest-trim_right : (s : Text) → All IsLabelByte s → label_rest (trim_right s) ≡ true
unfolding trim_right
label_rest-trim_right [] h = trim_nil
  where
    trim_nil : label_rest [] ≡ true
    trim_nil = unfold label_rest in refl
label_rest-trim_right (c ∷ s) h = trim_step c (trim_right s) h.0 (label_rest-trim_right s h.1)

-- A text that is empty or begins with a byte of [a-z0-9].
abbrev IsHeaded : Text → Type 0
IsHeaded [] = Unit
IsHeaded (c ∷ s) = is_alnum c ≡ true

trim_left-IsHeaded : (s : Text) → All IsLabelByte s → IsHeaded (trim_left s)
unfolding trim_left
trim_left-IsHeaded [] h = tt
trim_left-IsHeaded (c ∷ s) h = elim (Bool-cases (c == b'-')) [
  | inl d ↦ rw d (trim_left-IsHeaded s h.1)
  | inr d ↦ rw d (ground arith)
]

trim_right-IsHeaded : (s : Text) → IsHeaded s → IsHeaded (trim_right s)
unfolding trim_right
trim_right-IsHeaded [] h = tt
trim_right-IsHeaded (c ∷ s) h = elim (Bool-cases (is_empty (trim_right s) && c == b'-')) [
  | inl e ↦ rw e tt
  | inr e ↦ rw e h
]

-- A label before its length is bounded, or nothing.
abbrev IsLabelOrEmpty : Text → Type 0
IsLabelOrEmpty s = (s ≡ []) ⊎ (dns_label s ≡ true)

letter_first-IsLabelOrEmpty :
    (s : Text) → IsHeaded s → label_rest s ≡ true → IsLabelOrEmpty (letter_first s)
unfolding letter_first dns_label
letter_first-IsLabelOrEmpty [] h r = inl refl
letter_first-IsLabelOrEmpty (c ∷ []) h r = ground arith
letter_first-IsLabelOrEmpty (c ∷ d ∷ s) h r = ground arith

-- The bytes of a label.
label_rest-bytes : (s : Text) → label_rest s ≡ true → All IsLabelByte s
unfolding label_rest
label_rest-bytes [] h = tt
label_rest-bytes (c ∷ []) h = (ground arith, tt)
label_rest-bytes (c ∷ d ∷ s) h = (ground arith, label_rest-bytes (d ∷ s) (ground arith))

cut-dns_label :
    (c : ℕ) (s : Text)
    → is_lower c ≡ true
    → All IsLabelByte s
    → dns_label (trim_right (c ∷ s)) ≡ true
unfolding trim_right dns_label
cut-dns_label c s l h = ground (arith, label_rest-trim_right s h)

dns_label-parts :
    (c : ℕ) (s : Text) → dns_label (c ∷ s) ≡ true → (is_lower c ≡ true) × (label_rest s ≡ true)
unfolding dns_label
dns_label-parts c s h = ground arith

cut_long :
    (c : ℕ) (s : Text) → dns_label (c ∷ s) ≡ true → dns_label (trim_right (take 49 (c ∷ s))) ≡ true
unfolding take
cut_long c s h =
    let (l, r) = dns_label-parts c s h in
    cut-dns_label c (take 48 s) l (take-All 48 s (label_rest-bytes s r))

bounded-IsLabelOrEmpty : (s : Text) → IsLabelOrEmpty s → IsLabelOrEmpty (bounded s)
unfolding bounded
bounded-IsLabelOrEmpty [] h = inl refl
bounded-IsLabelOrEmpty (c ∷ s) h = elim (Bool-cases (ltb 49 (length (c ∷ s)))) [
  | inl long ↦ rw long (elim h [ inl e ↦ cc | inr e ↦ inr (cut_long c s e) ])
  | inr short ↦ rw short h
]

bounded-le : (s : Text) → length (bounded s) ≤ 49
unfolding bounded
bounded-le s = ground (arith, length-trim_right (take 49 s), length-take 49 s)

-- Whatever the subject, and whatever Unicode's lower case is, the user ID is empty, or a DNS label
-- that begins with a letter; and it has at most 49 bytes.
pub sanitize_user_id-label :
    (unicode_lower : Text → Text) (sub : Text)
    → ((sanitize_user_id unicode_lower sub ≡ [])
        ⊎ (dns_label (sanitize_user_id unicode_lower sub) ≡ true))
      × (length (sanitize_user_id unicode_lower sub) ≤ 49)
unfolding sanitize_user_id
sanitize_user_id-label unicode_lower sub =
    let s = replace_runs false (to_lower unicode_lower sub) in
    let bytes = replace_runs-All false (to_lower unicode_lower sub) in
    (
      bounded-IsLabelOrEmpty (letter_first (trim_right (trim_left s))) (
          letter_first-IsLabelOrEmpty (trim_right (trim_left s))
            (trim_right-IsHeaded (trim_left s) (trim_left-IsHeaded s bytes))
            (label_rest-trim_right (trim_left s) (trim_left-All s bytes))),
      bounded-le (letter_first (trim_right (trim_left s))),
    )
