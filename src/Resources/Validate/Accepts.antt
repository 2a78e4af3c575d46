-- ===== src/Resources/Validate/Accepts.antt =====
-- ValidateSpec accepts exactly the valid specs.
use dev_plane.Base.{
  ℕ, suc, ◌≤◌, Bool, true, false, Option, none, some, List, [], ◌∷◌, ◌≡◌, ◌≢◌, refl, ◌↔◌, ◌⊎◌, inl,
  inr, arith, All, Bool-cases, is_empty, length,
}
use dev_plane.Base.Int.{ℤ}
use dev_plane.Base.Text.{Text, lit, text_eq, text_eq_iff, trim_space}
use dev_plane.Base.Result.{Error, ok, Result-cases}
use dev_plane.Api.{AiProvider, ResourceRequirements, WorkspaceSpec}
use dev_plane.Platform.{Platform}
use dev_plane.Resources.Names.{dns_label}
use dev_plane.Resources.Names.Format.{IsDnsLabel, dns_label_iff}
use dev_plane.Resources.Validate.{
  reject, reject_error, validate_user_id, validate_providers, validate_resources,
  validate_idle_timeout, validate_spec,
}

reject_iff :
    (b : Bool) (t : Text) (rest : Option Error)
    → (reject b t rest ≡ none) ↔ ((b ≡ false) × (rest ≡ none))
reject_iff true t rest = ((λ h. cc), λ h. cc)
reject_iff false t rest = ((λ h. (refl, h)), λ h. h.1)

reject_error_iff :
    (t : Text) (failure rest : Option Error)
    → (reject_error t failure rest ≡ none) ↔ ((failure ≡ none) × (rest ≡ none))
reject_error_iff t none rest = ((λ h. (refl, h)), λ h. h.1)
reject_error_iff t (some e) rest = ((λ h. cc), λ h. cc)

user_id_iff :
    (id : Text) (rest : Option Error)
    → (validate_user_id id rest ≡ none) ↔ ((length id ≤ 49) × (dns_label id ≡ true) × (rest ≡ none))
unfolding validate_user_id dns_label
user_id_iff [] rest = ((λ h. cc), λ h. cc)
user_id_iff (c ∷ s) rest = ground arith

-- A provider with a name, an endpoint and a model.
pub record IsProvider (p : AiProvider) : Type 0 where
  pub named : p.name ≢ []
  pub reachable : p.endpoint ≢ []
  pub serving : p.models ≢ []

providers_iff :
    (i : ℕ) (ps : List AiProvider) (rest : Option Error)
    → (validate_providers i ps rest ≡ none) ↔ (All IsProvider ps × (rest ≡ none))
unfolding validate_providers
providers_iff i [] rest = ((λ h. (tt, h)), λ h. h.1)
providers_iff i (p ∷ ps) rest = ground (arith, providers_iff (suc i) ps rest)

module _ (k : Platform) where
  -- A quantity that is given and parses.
  abbrev pub IsQuantity : Text → Type 0
  IsQuantity t = (t ≢ []) × (k.parse_quantity t ≡ none)

  resources_iff :
      (r : ResourceRequirements) (rest : Option Error)
      → (validate_resources k r rest ≡ none)
        ↔ (IsQuantity r.cpu × IsQuantity r.memory × IsQuantity r.storage × (rest ≡ none))
  unfolding validate_resources
  resources_iff r rest = ground arith

  -- No timeout, "0", or a duration.
  abbrev pub IsTimeout : Text → Type 0
  IsTimeout t =
      (trim_space t ≡ [])
      ⊎ (trim_space t ≡ lit "0")
      ⊎ ((d : ℤ) × (k.parse_duration (trim_space t) ≡ ok d))

  validate-IsTimeout : (t : Text) → validate_idle_timeout k t ≡ none → IsTimeout t
  unfolding validate_idle_timeout
  validate-IsTimeout t h = elim (Result-cases (k.parse_duration (trim_space t))) [
    | inl (d, e) ↦ inr (inr (d, e))
    | inr (err, e) ↦ elim (Bool-cases (text_eq (trim_space t) (lit "0"))) [
      | inl z ↦ inr (inl ((text_eq_iff _ _).0 z))
      | inr z ↦ inl (ground arith)
    ]
  ]

  IsTimeout-validates : (t : Text) → IsTimeout t → validate_idle_timeout k t ≡ none
  unfolding validate_idle_timeout
  IsTimeout-validates t (inl e) = rw e
  IsTimeout-validates t (inr (inl e)) = ground (arith, text_eq_iff (trim_space t) (lit "0"))
  IsTimeout-validates t (inr (inr (d, e))) = ground arith

  -- A spec that can be served.
  pub record IsValidSpec (s : WorkspaceSpec) : Type 0 where
    pub short : length s.user.id ≤ 49
    pub label : IsDnsLabel s.user.id
    pub email : s.user.email ≢ []
    pub cpu : IsQuantity s.resources.cpu
    pub memory : IsQuantity s.resources.memory
    pub storage : IsQuantity s.resources.storage
    pub some_provider : s.ai_config.providers ≢ []
    pub providers : All IsProvider s.ai_config.providers
    pub timeout : IsTimeout s.lifecycle.idle_timeout

  validate_sound : (s : WorkspaceSpec) → validate_spec k s ≡ none → IsValidSpec s
  unfolding validate_spec
  validate_sound s h =
      let (b, l, h1) = (user_id_iff s.user.id _).0 h in
      let (e, h2) = (reject_iff (is_empty s.user.email) _ _).0 h1 in
      let (c, m, st, h3) = (resources_iff s.resources _).0 h2 in
      let (p, h4) = (reject_iff (is_empty s.ai_config.providers) _ _).0 h3 in
      let (ps, h5) = (providers_iff 0 s.ai_config.providers _).0 h4 in
      record {
        short = b;
        label = (dns_label_iff s.user.id).0 l;
        email = ground arith;
        cpu = c;
        memory = m;
        storage = st;
        some_provider = ground arith;
        providers = ps;
        timeout = validate-IsTimeout s.lifecycle.idle_timeout h5;
      }

  not_empty {ℓ} : {A : Type ℓ} (xs : List A) → xs ≢ [] → is_empty xs ≡ false
  not_empty [] h = absurd (h refl)
  not_empty (x ∷ xs) h = refl

  validate_complete : (s : WorkspaceSpec) → IsValidSpec s → validate_spec k s ≡ none
  unfolding validate_spec
  validate_complete s v = (user_id_iff s.user.id _).1 (
    v.short,
    (dns_label_iff s.user.id).1 v.label,
    (reject_iff (is_empty s.user.email) _ _).1 (
      not_empty s.user.email v.email,
      (resources_iff s.resources _).1 (
        v.cpu,
        v.memory,
        v.storage,
        (reject_iff (is_empty s.ai_config.providers) _ _).1 (
          not_empty s.ai_config.providers v.some_provider,
          (providers_iff 0 s.ai_config.providers _).1
              (v.providers, IsTimeout-validates s.lifecycle.idle_timeout v.timeout),
        ),
      ),
    ),
  )

-- ValidateSpec returns no error exactly for the valid specs: a user ID of at most 49 bytes that is
-- a DNS label, an email, quantities for CPU, memory and storage that parse, a provider at least,
-- each with a name, an endpoint and a model, and an idle timeout that is blank, "0" or a duration.
pub validate_spec_iff :
    (k : Platform) (s : WorkspaceSpec) → (validate_spec k s ≡ none) ↔ IsValidSpec k s
validate_spec_iff k s = (validate_sound k s, validate_complete k s)
