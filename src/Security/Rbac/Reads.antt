-- ===== src/Security/Rbac/Reads.antt =====
-- What the role of pkg/security/rbac.go lets a workspace's service account do.
use dev_plane.Base.{true, false, List, [], ◌∷◌, ◌≡◌, ◌≢◌, refl, ◌⊎◌, arith, subst}
use dev_plane.Base.Text.{Text, lit, text_eq, text_eq_iff}
use dev_plane.Base.Result.{ok, ok_of_bind}
use dev_plane.Api.{Workspace}
use dev_plane.Platform.{Platform}
use dev_plane.Security.Rbac.{PolicyRule, Role, role_rules, lists, grants, build_role}

-- Reading verbs.
abbrev pub IsRead : Text → Type 0
IsRead verb = (verb ≡ lit "get") ⊎ (verb ≡ lit "list") ⊎ (verb ≡ lit "watch")

-- A list of verbs for reading, without a wildcard.
lists-IsRead :
    (verb : Text) → lists verb (lit "get" ∷ lit "list" ∷ lit "watch" ∷ []) ≡ true → IsRead verb
unfolding lists text_eq lit
lists-IsRead verb h = ground (
  arith,
  text_eq_iff (lit "get") verb,
  text_eq_iff (lit "list") verb,
  text_eq_iff (lit "watch") verb,
)

read_verbs :
    (group resource verb : Text)
    → grants role_rules group resource verb ≡ true
    → lists verb (lit "get" ∷ lit "list" ∷ lit "watch" ∷ []) ≡ true
unfolding grants role_rules lists
read_verbs group resource verb h = ground arith

no_secrets : (group verb : Text) → grants role_rules group (lit "secrets") verb ≡ false
unfolding grants role_rules lists text_eq lit
no_secrets group verb = ground arith

abbrev HasRules : List PolicyRule → Role → Type 0
HasRules rules r = r.rules ≡ rules

-- Whatever the role built for a workspace grants is a read, in no API group of secrets.
pub role_reads :
    (k : Platform) (w : Workspace) (r : Role)
    → build_role k w ≡ ok r
    → (group resource verb : Text) → grants r.rules group resource verb ≡ true
    → IsRead verb × (resource ≢ lit "secrets")
unfolding build_role
role_reads k w r b group resource verb h =
    let e = ok_of_bind (HasRules role_rules) _ _ r (λ m. refl) b in
    let h' = subst (λ rules. grants rules group resource verb ≡ true) e h in
    (
      lists-IsRead verb (read_verbs group resource verb h'),
      λ q. let n = no_secrets group verb in cc,
    )
