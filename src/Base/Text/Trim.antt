-- ===== src/Base/Text/Trim.antt =====
-- TrimSpace leaves a text of digits as it is.
use dev_plane.Base.Lists.{All, length}
use dev_plane.Base.Text.{Text, trim_space, skip_space, skip_space_back, skip_all}
use dev_plane.Base.Text.Decimal.{IsDigit}
use Prim.Native.Nat.{ℕ, zero, suc}
use mathlib.Core.Path.{◌≡◌, refl}
use mathlib.Core.Option.{Option, none}
use mathlib.Core.List.{[], ◌∷◌, reverse, reverse_aux, reverse-reverse}
use native.Mathlib.Omega.{arith}

skip_space-none : (s : Text) → All IsDigit s → skip_space s ≡ none
unfolding skip_space
skip_space-none [] h = refl
skip_space-none (a ∷ []) h = ground arith
skip_space-none (a ∷ b ∷ []) h = ground arith
skip_space-none (a ∷ b ∷ c ∷ s) h = ground arith

skip_space_back-none : (s : Text) → All IsDigit s → skip_space_back s ≡ none
unfolding skip_space_back
skip_space_back-none [] h = refl
skip_space_back-none (a ∷ []) h = ground arith
skip_space_back-none (a ∷ b ∷ []) h = ground arith
skip_space_back-none (a ∷ b ∷ c ∷ s) h = ground arith

skip_all-none :
    (skip : Text → Option Text) (fuel : ℕ) (s : Text) → skip s ≡ none → skip_all skip fuel s ≡ s
unfolding skip_all
skip_all-none skip zero s h = refl
skip_all-none skip (suc fuel) s h = rw (h, skip_all) refl

reverse_aux-IsDigit :
    (s acc : Text) → All IsDigit s → All IsDigit acc → All IsDigit (reverse_aux s acc)
reverse_aux-IsDigit [] acc h g = g
reverse_aux-IsDigit (x ∷ s) acc h g = reverse_aux-IsDigit s (x ∷ acc) h.1 (h.0, g)

pub trim_space-digits : (s : Text) → All IsDigit s → trim_space s ≡ s
unfolding trim_space
trim_space-digits s h =
    let front = skip_all-none skip_space (length s) s (skip_space-none s h) in
    let back =
      skip_all-none skip_space_back (length s) (reverse s)
        (skip_space_back-none (reverse s) (reverse_aux-IsDigit s [] h tt)) in
    rw (front, back) (reverse-reverse s)
