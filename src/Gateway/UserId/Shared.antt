-- ===== src/Gateway/UserId/Shared.antt =====
-- Different subjects can get the same user ID.
use dev_plane.Base.{ℕ, Bool, true, false, [], ◌∷◌, ◌++◌, ◌≡◌, ◌∙◌, sym, ap, arith, all, map, ltb}
use mathlib.Core.List.{map-append}
use dev_plane.Base.Text.{Text, to_lower, lower_byte}
use dev_plane.Resources.Names.{is_alnum}
use dev_plane.Gateway.UserId.{
  replace_runs, trim_left, trim_right, letter_first, bounded, sanitize_user_id,
}

-- A separator: an ASCII byte that is neither a letter nor a digit.
abbrev pub IsSeparator : ℕ → Type 0
IsSeparator c = (ltb c 0x80 ≡ true) × (is_alnum (lower_byte c) ≡ false)

abbrev pub is_ascii : Text → Bool
is_ascii s = all (λ c. ltb c 0x80) s

replace_runs_same :
    (b : Bool) (before after : Text) (x y : ℕ)
    → is_alnum x ≡ false
    → is_alnum y ≡ false
    → replace_runs b (before ++ x ∷ after) ≡ replace_runs b (before ++ y ∷ after)
unfolding replace_runs
replace_runs_same b [] after x y hx hy = ground arith
replace_runs_same b (c ∷ before) after x y hx hy = ground (
  arith,
  replace_runs_same true before after x y hx hy,
  replace_runs_same false before after x y hx hy,
)

is_ascii-append : (s t : Text) → is_ascii s ≡ true → is_ascii t ≡ true → is_ascii (s ++ t) ≡ true
is_ascii-append [] t h k = k
is_ascii-append (c ∷ s) t h k = ground (arith, is_ascii-append s t (ground arith) k)

to_lower_ascii :
    (unicode_lower : Text → Text) (s : Text)
    → is_ascii s ≡ true
    → to_lower unicode_lower s ≡ map lower_byte s
unfolding to_lower
to_lower_ascii unicode_lower s h = rw h

module _ (unicode_lower : Text → Text) (before after : Text) (plain : is_ascii before ≡ true)
    (plain' : is_ascii after ≡ true) where
  lowered :
      (x : ℕ)
      → IsSeparator x
      → to_lower unicode_lower (before ++ x ∷ after)
        ≡ map lower_byte before ++ lower_byte x ∷ map lower_byte after
  lowered x h =
      to_lower_ascii unicode_lower (before ++ x ∷ after)
        (is_ascii-append before (x ∷ after) plain (ground arith))
      ∙ map-append lower_byte before (x ∷ after)

  -- Two subjects that differ in one separator, be it "|", "_", "." or "-", have the same user ID,
  -- in ASCII subjects.
  pub sanitize_user_id_shared :
      (x y : ℕ)
      → IsSeparator x
      → IsSeparator y
      → sanitize_user_id unicode_lower (before ++ x ∷ after)
        ≡ sanitize_user_id unicode_lower (before ++ y ∷ after)
  unfolding sanitize_user_id
  sanitize_user_id_shared x y hx hy =
      ap (λ s. bounded (letter_first (trim_right (trim_left s))))
        (ap (replace_runs false) (lowered x hx)
          ∙ replace_runs_same false (map lower_byte before) (map lower_byte after) (lower_byte x)
              (lower_byte y) hx.1 hy.1
          ∙ sym (ap (replace_runs false) (lowered y hy)))
