-- ===== src/Resources/Names.antt =====
-- Names and labels of a user's resources (pkg/workspace/resources.go), and the DNS label format.
pub mod Format
use dev_plane.Base.{ℕ, Bool, true, false, ◌&&◌, ◌||◌, List, [], ◌∷◌, ◌++◌, leb, ◌==◌}
use dev_plane.Base.Text.{Text, lit}
use dev_plane.Api.{Labels}

unfoldable pub pvc_name : Text → Text
pvc_name user_id = user_id ++ lit "-workspace-pvc"

unfoldable pub pod_name : Text → Text
pod_name user_id = user_id ++ lit "-workspace-pod"

unfoldable pub service_name : Text → Text
service_name user_id = user_id ++ lit "-workspace-svc"

unfoldable pub service_account_name : Text → Text
service_account_name user_id = user_id ++ lit "-workspace"

unfoldable pub labels : Text → Labels
labels user_id =
    (lit "app", lit "workspace") ∷ (lit "user", user_id) ∷ (lit "managed-by", lit "devplane") ∷ []

abbrev pub ttyd_port : ℕ
ttyd_port = 7681

abbrev pub is_lower : ℕ → Bool
is_lower c = leb b'a' c && leb c b'z'

abbrev pub is_digit : ℕ → Bool
is_digit c = leb b'0' c && leb c b'9'

-- [a-z0-9]
abbrev pub is_alnum : ℕ → Bool
is_alnum c = is_lower c || is_digit c

-- [a-z0-9\-]*[a-z0-9] or nothing
unfoldable pub label_rest : Text → Bool
label_rest [] = true
label_rest (c ∷ []) = is_alnum c
label_rest (c ∷ d ∷ s) = (is_alnum c || c == b'-') && label_rest (d ∷ s)

-- dnsLabelRegex.MatchString: ^[a-z]([a-z0-9\-]*[a-z0-9])?$
unfoldable pub dns_label : Text → Bool
unfolding label_rest
dns_label [] = false
dns_label (c ∷ s) = is_lower c && label_rest s
