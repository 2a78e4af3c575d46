-- ===== src/Resources/Validate.antt =====
-- ValidateSpec (pkg/workspace/resources.go). Its nil check is the model's: a Workspace is given.
pub mod Accepts
use dev_plane.Base.{
  ℕ, suc, Bool, true, false, Option, none, some, List, [], ◌∷◌, ◌++◌, ◌||◌, not, is_empty, length,
  ltb, if◌then◌else◌,
}
use dev_plane.Base.Text.{Text, lit, text_eq, trim_space, decimal}
use dev_plane.Base.Result.{Error, Result, ok, fail, new_error, wrap}
use dev_plane.Api.{AiProvider, UserInfo, ResourceRequirements, WorkspaceSpec}
use dev_plane.Platform.{Platform}
use dev_plane.Resources.Names.{dns_label}

-- `if bad { return errors.New(text) }`, then the rest; the result is the error, or none.
abbrev pub reject : Bool → Text → Option Error → Option Error
reject true text rest = some (new_error text)
reject false text rest = rest

-- `if err != nil { return fmt.Errorf("<context>: %w", err) }`, then the rest.
abbrev pub reject_error : Text → Option Error → Option Error → Option Error
reject_error context none rest = rest
reject_error context (some err) rest = some (wrap context err)

unfoldable pub validate_user_id : Text → Option Error → Option Error
validate_user_id id rest = reject (is_empty id) (lit "spec.user.id is required") (
    reject (ltb 49 (length id))
      (lit "spec.user.id must be 49 characters or fewer (got " ++ decimal (length id) ++ lit ")")
      (reject (not (dns_label id))
        (lit
          "spec.user.id must be a valid DNS label: must start with a lowercase letter, lowercase alphanumeric and hyphens only, must end with alphanumeric")
        rest))

provider_field : ℕ → Text → Text
provider_field i field = lit "spec.aiConfig.providers[" ++ decimal i ++ lit "]." ++ field

-- The loop over the providers, from index i on.
unfoldable pub validate_providers : ℕ → List AiProvider → Option Error → Option Error
unfolding provider_field
validate_providers i [] rest = rest
validate_providers i (p ∷ ps) rest =
    reject (is_empty p.name) (provider_field i (lit "name is required")) (
      reject (is_empty p.endpoint) (provider_field i (lit "endpoint is required")) (
        reject (is_empty p.models) (provider_field i (lit "models must have at least one entry"))
          (validate_providers (suc i) ps rest)))

abbrev error_of {ℓ} : {A : Type ℓ} → Result A → Option Error
error_of (ok a) = none
error_of (fail err) = some err

module _ (k : Platform) where
  unfoldable pub validate_resources : ResourceRequirements → Option Error → Option Error
  validate_resources r rest =
      reject (is_empty r.storage) (lit "spec.resources.storage is required") (
        reject (is_empty r.cpu) (lit "spec.resources.cpu is required") (
          reject (is_empty r.memory) (lit "spec.resources.memory is required") (
            reject_error (lit "spec.resources.cpu invalid") (k.parse_quantity r.cpu) (
              reject_error (lit "spec.resources.memory invalid") (k.parse_quantity r.memory) (
                reject_error (lit "spec.resources.storage invalid") (k.parse_quantity r.storage)
                  rest)))))

  unfoldable pub validate_idle_timeout : Text → Option Error
  validate_idle_timeout idle_timeout =
      let raw = trim_space idle_timeout in
      if is_empty raw || text_eq raw (lit "0")
      then none
      else reject_error (lit "spec.lifecycle.idleTimeout invalid") (error_of (k.parse_duration raw))
          none

  unfoldable pub validate_spec : WorkspaceSpec → Option Error
  unfolding validate_user_id validate_resources validate_providers validate_idle_timeout
  validate_spec s = validate_user_id s.user.id (
      reject (is_empty s.user.email) (lit "spec.user.email is required") (
        validate_resources s.resources (
          reject (is_empty s.ai_config.providers)
            (lit "spec.aiConfig.providers must have at least one entry")
            (validate_providers 0 s.ai_config.providers
              (validate_idle_timeout s.lifecycle.idle_timeout)))))
