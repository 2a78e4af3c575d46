-- ===== src/Base/Text.antt =====
-- Go strings: lists of bytes, with the operations of package strings that the source calls.
pub mod Decimal
pub mod Split
pub mod Trim
pub mod Parse
use Prim.Native.Nat.{ℕ, zero, suc, ◌+◌, ◌/◌, ◌%◌}
use Prim.Native.Char.{code}
use Prim.Native.String.{String, [], ◌∷◌}
use mathlib.Core.Path.{◌≡◌, refl}
use mathlib.Core.Logic.{◌↔◌}
use mathlib.Core.Bool.{Bool, true, false, ◌&&◌, ◌||◌}
use mathlib.Core.List.{List, [], ◌∷◌, map, reverse}
use mathlib.Core.Option.{Option, none, some}
use native.Mathlib.Omega.{arith}
use dev_plane.Base.Tests.{◌==◌, ltb, leb, if◌then◌else◌}
use dev_plane.Base.Lists.{length, all}

abbrev pub Text : Type 0
Text = List ℕ

-- The UTF-8 encoding of a code point, in front of a text.
abbrev encode_rune : ℕ → Text → Text
encode_rune c s =
    if ltb c 0x80
    then c ∷ s
    else if ltb c 0x800
    then (0xC0 + c / 64) ∷ (0x80 + c % 64) ∷ s
    else if ltb c 0x10000
    then (0xE0 + c / 4096) ∷ (0x80 + c / 64 % 64) ∷ (0x80 + c % 64) ∷ s
    else (0xF0 + c / 262144) ∷ (0x80 + c / 4096 % 64) ∷ (0x80 + c / 64 % 64) ∷ (0x80 + c % 64) ∷ s

-- A string literal of the source, as its bytes.
unfoldable pub lit : String → Text
lit [] = []
lit (c ∷ s) = encode_rune (code c) (lit s)

-- `a == b`
unfoldable pub text_eq : Text → Text → Bool
text_eq [] [] = true
text_eq (a ∷ s) (b ∷ t) = a == b && text_eq s t
text_eq _ _ = false

pub text_eq_iff : (s t : Text) → (text_eq s t ≡ true) ↔ (s ≡ t)
unfolding text_eq
text_eq_iff [] [] = ((λ _. refl), λ _. refl)
text_eq_iff [] (b ∷ t) = ((λ h. cc), λ h. cc)
text_eq_iff (a ∷ s) [] = ((λ h. cc), λ h. cc)
text_eq_iff (a ∷ s) (b ∷ t) = ground (arith, text_eq_iff s t)

pub text_eq_refl : (s : Text) → text_eq s s ≡ true
text_eq_refl s = (text_eq_iff s s).1 refl

-- `strings.HasPrefix(s, p)`, `p` first.
unfoldable pub has_prefix : Text → Text → Bool
has_prefix [] s = true
has_prefix (a ∷ p) [] = false
has_prefix (a ∷ p) (b ∷ s) = a == b && has_prefix p s

-- `strings.Contains(s, p)`, `p` first.
unfoldable pub contains : Text → Text → Bool
unfolding has_prefix
contains p [] = has_prefix p []
contains p (b ∷ s) = has_prefix p (b ∷ s) || contains p s

-- `strings.ToLower` on ASCII text is bytewise; on other text it goes by the Unicode tables, the
-- argument `unicode_lower`.
abbrev pub lower_byte : ℕ → ℕ
lower_byte c = if leb b'A' c && leb c b'Z' then c + 32 else c

unfoldable pub to_lower : (Text → Text) → Text → Text
to_lower unicode_lower s = if all (λ c. ltb c 0x80) s then map lower_byte s else unicode_lower s

-- The white space runes of Unicode, by the length of their encodings.
abbrev space1 : ℕ → Bool
space1 a = (leb 9 a && leb a 13) || a == 32

abbrev space2 : ℕ → ℕ → Bool
space2 a b = a == 0xC2 && (b == 0x85 || b == 0xA0)

abbrev space3 : ℕ → ℕ → ℕ → Bool
space3 a b c =
    (a == 0xE1 && b == 0x9A && c == 0x80)
    || (a == 0xE2
        && b == 0x80
        && ((leb 0x80 c && leb c 0x8A) || c == 0xA8 || c == 0xA9 || c == 0xAF))
    || (a == 0xE2 && b == 0x81 && c == 0x9F)
    || (a == 0xE3 && b == 0x80 && c == 0x80)

-- One round: the rest after a white space rune at the front, if there is one.
skip_space : Text → Option Text
skip_space (a ∷ b ∷ c ∷ s) =
    if space1 a
    then some (b ∷ c ∷ s)
    else if space2 a b
    then some (c ∷ s)
    else if space3 a b c
    then some s
    else none
skip_space (a ∷ b ∷ []) = if space1 a then some (b ∷ []) else if space2 a b then some [] else none
skip_space (a ∷ []) = if space1 a then some [] else none
skip_space [] = none

-- The same at the back, on the reversed text.
skip_space_back : Text → Option Text
skip_space_back (a ∷ b ∷ c ∷ s) =
    if space1 a
    then some (b ∷ c ∷ s)
    else if space2 b a
    then some (c ∷ s)
    else if space3 c b a
    then some s
    else none
skip_space_back (a ∷ b ∷ []) =
    if space1 a then some (b ∷ []) else if space2 b a then some [] else none
skip_space_back (a ∷ []) = if space1 a then some [] else none
skip_space_back [] = none

skip_all : (Text → Option Text) → ℕ → Text → Text
skip_all skip zero s = s
skip_all skip (suc fuel) s = elim (skip s) [ none ↦ s | some r ↦ skip_all skip fuel r ]

-- `strings.TrimSpace`. Each round drops a byte at least, so the length is fuel enough.
unfoldable pub trim_space : Text → Text
unfolding skip_space skip_space_back skip_all
trim_space s =
    let t = skip_all skip_space (length s) s in
    reverse (skip_all skip_space_back (length t) (reverse t))

-- `%d` of a number: its decimal digits, one for each unit of fuel at most. A number below 2 ^ 64
-- has twenty digits.
digits : ℕ → ℕ → Text → Text
digits zero n acc = acc
digits (suc fuel) n acc =
    let acc' : Text = (b'0' + n % 10) ∷ acc in
    let rest = digits fuel (n / 10) acc' in if ltb n 10 then acc' else rest

unfoldable pub decimal : ℕ → Text
unfolding digits
decimal n = digits 20 n []
