-- ===== src/Examples/Strings.antt =====
-- Texts.
use dev_plane.Base.{true, ◌≡◌, refl}
use dev_plane.Base.Text.{lit, to_lower, trim_space, contains, decimal}
use dev_plane.Gateway.UserId.{sanitize_user_id}

decimal_test : decimal 7681 ≡ lit "7681"
unfolding decimal lit
decimal_test = refl

trim_space_test : trim_space (lit "  a b—\t ") ≡ lit "a b—"
unfolding trim_space lit
trim_space_test = refl

contains_test : contains (lit "web") (lit "a webhook") ≡ true
unfolding contains lit
contains_test = refl

sanitize_test : sanitize_user_id (λ s. s) (lit "User|12345") ≡ lit "user-12345"
unfolding sanitize_user_id to_lower lit
sanitize_test = refl

uuid_test : sanitize_user_id (λ s. s) (lit "8f3__A.") ≡ lit "u-8f3-a"
unfolding sanitize_user_id to_lower lit
uuid_test = refl
