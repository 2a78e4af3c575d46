-- ===== src/Base/Text/Parse.antt =====
-- Reading an integer from its decimal text.
use dev_plane.Base.Tests.{ltb, leb, ◌==◌, if◌then◌else◌}
use dev_plane.Base.Lists.{all, is_empty}
use dev_plane.Base.Int.{ℤ, pos, negsuc}
use dev_plane.Base.Text.{Text}
use dev_plane.Base.Text.Decimal.{value_from}
use Prim.Native.Nat.{ℕ, zero, suc}
use mathlib.Core.Bool.{Bool, ◌&&◌, not}
use mathlib.Core.Option.{Option, none, some}
use mathlib.Core.List.{[], ◌∷◌}

abbrev pub is_digit : ℕ → Bool
is_digit c = leb b'0' c && leb c b'9'

-- The negation of a number.
abbrev minus : ℕ → ℤ
minus zero = pos 0
minus (suc n) = negsuc n

-- The number that decimal digits stand for, if there are any and nothing else.
unfoldable pub parse_digits : Text → Option ℕ
parse_digits s = if not (is_empty s) && all is_digit s then some (value_from 0 s) else none

-- strconv.ParseInt(s, 10, bits), where an error is none; `limit` is 2 ^ (bits - 1).
unfoldable pub parse_int : ℕ → Text → Option ℤ
unfolding parse_digits
parse_int limit [] = none
parse_int limit (c ∷ s) =
    if c == b'-'
    then elim (parse_digits s) [
      | none ↦ none
      | some n ↦ if leb n limit then some (minus n) else none
    ]
    else elim (parse_digits (if c == b'+' then s else c ∷ s)) [
      | none ↦ none
      | some n ↦ if ltb n limit then some (pos n) else none
    ]
