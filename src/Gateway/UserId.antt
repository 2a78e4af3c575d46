-- ===== src/Gateway/UserId.antt =====
-- sanitizeUserID (pkg/gateway/auth.go): from an OIDC subject to a name for Kubernetes.
--
-- Go's regular expressions read runes. A rune that is not ASCII, or a byte that is no rune, is
-- outside of [a-z0-9] in all its bytes, and runs are replaced whole, so bytes give the same.
pub mod Label
pub mod Shared
use dev_plane.Base.{
  ℕ, zero, suc, Bool, true, false, List, [], ◌∷◌, ◌++◌, ◌&&◌, ◌≡◌, refl, is_empty, length, ltb,
  ◌==◌, if◌then◌else◌,
}
use dev_plane.Base.Text.{Text, lit, to_lower}
use dev_plane.Resources.Names.{is_digit, is_alnum}

-- nonAlphaNum.ReplaceAllString(s, "-"); the flag is whether a run has begun.
replace_runs : Bool → Text → Text
replace_runs in_run [] = []
replace_runs in_run (c ∷ s) =
    let kept = replace_runs false s in
    let dropped = replace_runs true s in
    if is_alnum c then c ∷ kept else if in_run then dropped else b'-' ∷ dropped

-- strings.TrimLeft(s, "-") and strings.TrimRight(s, "-")
trim_left : Text → Text
trim_left [] = []
trim_left (c ∷ s) = let rest = trim_left s in if c == b'-' then rest else c ∷ s

trim_right : Text → Text
trim_right [] = []
trim_right (c ∷ s) = let rest = trim_right s in if is_empty rest && c == b'-' then [] else c ∷ rest

take : ℕ → Text → Text
take zero s = []
take (suc n) [] = []
take (suc n) (c ∷ s) = c ∷ take n s

-- A leading digit gets the prefix "u-".
letter_first : Text → Text
letter_first [] = []
letter_first (c ∷ s) = if is_digit c then b'u' ∷ b'-' ∷ c ∷ s else c ∷ s

-- At most 49 bytes, and no dash at the end.
bounded : Text → Text
unfolding take trim_right
bounded s = if ltb 49 (length s) then trim_right (take 49 s) else s

unfoldable pub sanitize_user_id : (Text → Text) → Text → Text
unfolding replace_runs trim_left trim_right letter_first bounded
sanitize_user_id unicode_lower sub =
    let s = replace_runs false (to_lower unicode_lower sub) in
    bounded (letter_first (trim_right (trim_left s)))
