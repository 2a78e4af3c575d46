-- ===== src/Gateway/Lifecycle/Creates.antt =====
-- The workspaces that the gateway creates, against the operator's validation.
use dev_plane.Base.{true, none, [], ◌∷◌, ◌≡◌, ◌≢◌, refl, ◌↔◌, inl, inr, All, on_true}
use dev_plane.Base.Text.{Text, trim_space}
use dev_plane.Base.Result.{Error, fail}
use dev_plane.Platform.{Platform}
use dev_plane.Resources.Names.{dns_label}
use dev_plane.Resources.Names.Format.{dns_label_iff}
use dev_plane.Resources.Validate.{validate_spec}
use dev_plane.Resources.Validate.Accepts.{IsProvider, IsQuantity, IsValidSpec, validate_spec_iff}
use dev_plane.Gateway.UserId.{sanitize_user_id}
use dev_plane.Gateway.UserId.Label.{sanitize_user_id-label}
use dev_plane.Gateway.Lifecycle.{
  Claims, LifecycleConfig, create, Server, Ensured, new_workspace, create_workspace, ensure_exists,
}

-- The defaults for new workspaces are usable.
pub record IsUsable (k : Platform) (cfg : LifecycleConfig) : Type 0 where
  pub cpu : IsQuantity k cfg.default_cpu
  pub memory : IsQuantity k cfg.default_memory
  pub storage : IsQuantity k cfg.default_storage
  pub some_provider : cfg.providers ≢ []
  pub providers : All IsProvider cfg.providers

-- The claims of a validated token: the user ID comes from the subject.
abbrev pub claims_of : Platform → Text → Text → Claims
claims_of k sub email = record {
  sub = sub;
  email = email;
  user_id = sanitize_user_id k.unicode_lower sub;
}

module _ (k : Platform) (cfg : LifecycleConfig) (srv : Server) (ns : Text) where
  create_writes :
      (claims : Claims) (err : Error)
      → srv.get ns claims.user_id ≡ fail err
      → err.not_found ≡ true
      → (ensure_exists k cfg srv ns claims).writes ≡ create (new_workspace k cfg ns claims) ∷ []
  unfolding ensure_exists create_workspace
  create_writes claims err e m =
      rw (e, ensure_exists)
        (on_true (λ (r : Ensured). r.writes ≡ create (new_workspace k cfg ns claims) ∷ []) _ _ m
          refl)

  label_of_user_id :
      (sub : Text)
      → sanitize_user_id k.unicode_lower sub ≢ []
      → dns_label (sanitize_user_id k.unicode_lower sub) ≡ true
  label_of_user_id sub h = elim (sanitize_user_id-label k.unicode_lower sub).0 [
    | inl e ↦ absurd (h e)
    | inr l ↦ l
  ]

  created_IsValidSpec :
      (sub email : Text)
      → sanitize_user_id k.unicode_lower sub ≢ []
      → email ≢ []
      → IsUsable k cfg
      → IsValidSpec k (new_workspace k cfg ns (claims_of k sub email)).spec
  unfolding new_workspace trim_space
  created_IsValidSpec sub email h m u = record {
    short = (sanitize_user_id-label k.unicode_lower sub).1;
    label = (dns_label_iff (sanitize_user_id k.unicode_lower sub)).0 (label_of_user_id sub h);
    email = m;
    cpu = u.cpu;
    memory = u.memory;
    storage = u.storage;
    some_provider = u.some_provider;
    providers = u.providers;
    timeout = inl refl;
  }

  created-IsUsable :
      (sub email : Text)
      → IsValidSpec k (new_workspace k cfg ns (claims_of k sub email)).spec
      → (email ≢ []) × IsUsable k cfg
  unfolding new_workspace
  created-IsUsable sub email v = (
    v.email,
    record {
      cpu = v.cpu;
      memory = v.memory;
      storage = v.storage;
      some_provider = v.some_provider;
      providers = v.providers;
    },
  )

-- A user with no workspace, whose subject has a user ID. EnsureExists asks for one workspace to be
-- created, and the operator accepts its spec exactly if the token had an email and the gateway's
-- defaults are usable: quantities that parse, and a provider at least, each one complete.
pub ensure_exists_created :
    (k : Platform) (cfg : LifecycleConfig) (srv : Server) (ns sub email : Text) (err : Error)
    → sanitize_user_id k.unicode_lower sub ≢ []
    → srv.get ns (sanitize_user_id k.unicode_lower sub) ≡ fail err
    → err.not_found ≡ true
    → ((ensure_exists k cfg srv ns (claims_of k sub email)).writes
        ≡ create (new_workspace k cfg ns (claims_of k sub email)) ∷ [])
      × ((validate_spec k (new_workspace k cfg ns (claims_of k sub email)).spec ≡ none)
          ↔ ((email ≢ []) × IsUsable k cfg))
ensure_exists_created k cfg srv ns sub email err h e m = (
  create_writes k cfg srv ns (claims_of k sub email) err e m,
  (
    (λ v.
        created-IsUsable k cfg srv ns sub email
          ((validate_spec_iff k (new_workspace k cfg ns (claims_of k sub email)).spec).0 v)),
    λ u.
        (validate_spec_iff k (new_workspace k cfg ns (claims_of k sub email)).spec).1
          (created_IsValidSpec k cfg srv ns sub email h u.0 u.1),
  ),
)
