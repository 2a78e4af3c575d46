-- ===== src/Base/Text/Split.antt =====
-- Texts cut at a separator that the first part does not contain.
use dev_plane.Base.Lists.{All}
use dev_plane.Base.Text.{Text}
use Prim.Native.Nat.{ℕ}
use mathlib.Core.Path.{◌≡◌, refl, sym, ap}
use mathlib.Core.Logic.{◌≢◌}
use mathlib.Core.List.{[], ◌∷◌, ◌++◌}

head_or : ℕ → Text → ℕ
head_or d [] = d
head_or d (x ∷ xs) = x

tail_of : Text → Text
tail_of [] = []
tail_of (x ∷ xs) = xs

pub cons-injective : {x y : ℕ} {s t : Text} → x ∷ s ≡ y ∷ t → (x ≡ y) × (s ≡ t)
unfolding head_or tail_of
cons-injective {x} e = (ap (head_or x) e, ap tail_of e)

-- No byte of the text is the separator.
abbrev pub Without : ℕ → Text → Type 0
Without sep = All (λ c. c ≢ sep)

pub split_unique :
    (sep : ℕ) (a b : Text) {s t : Text}
    → Without sep a
    → Without sep b
    → a ++ (sep ∷ s) ≡ b ++ (sep ∷ t)
    → (a ≡ b) × (s ≡ t)
split_unique sep [] [] ha hb e = (refl, (cons-injective e).1)
split_unique sep [] (y ∷ b) ha hb e = elim (hb.0 (sym (cons-injective e).0)) [ ]
split_unique sep (x ∷ a) [] ha hb e = elim (ha.0 (cons-injective e).0) [ ]
split_unique sep (x ∷ a) (y ∷ b) ha hb e =
    let h = cons-injective e in let rest = split_unique sep a b ha.1 hb.1 h.1 in (cc, rest.1)
