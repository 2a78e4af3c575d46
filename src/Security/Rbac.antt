-- ===== src/Security/Rbac.antt =====
-- pkg/security/rbac.go, and the documented meaning of a role: which requests its rules grant.
pub mod Reads
use dev_plane.Base.{Bool, List, [], ◌∷◌, ◌++◌, ◌&&◌, ◌||◌, any}
use dev_plane.Base.Text.{Text, lit, text_eq}
use dev_plane.Base.Result.{Error, Result, ok, fail, ◌>>=◌}
use dev_plane.Api.{Workspace}
use dev_plane.Platform.{Meta, Platform}
use dev_plane.Resources.Build.{in_context, object_meta}

pub record PolicyRule : Type 0 where
  pub api_groups : List Text
  pub resources : List Text
  pub verbs : List Text

pub record Role : Type 0 where
  pub meta : Meta
  pub rules : List PolicyRule

pub record Subject : Type 0 where
  pub kind : Text
  pub name : Text
  pub namespace : Text

pub record RoleRef : Type 0 where
  pub api_group : Text
  pub kind : Text
  pub name : Text

pub record RoleBinding : Type 0 where
  pub meta : Meta
  pub subjects : List Subject
  pub role_ref : RoleRef

unfoldable pub service_account_name : Text → Text
service_account_name user_id = user_id ++ lit "-workspace"

-- The rules of every workspace role.
unfoldable pub role_rules : List PolicyRule
role_rules =
    record {
      api_groups = lit "" ∷ [];
      resources =
          lit "pods" ∷ lit "services" ∷ lit "configmaps" ∷ lit "events" ∷ lit "endpoints" ∷ [];
      verbs = lit "get" ∷ lit "list" ∷ lit "watch" ∷ [];
    }
    ∷ record {
      api_groups = lit "" ∷ [];
      resources = lit "pods/log" ∷ [];
      verbs = lit "get" ∷ lit "list" ∷ [];
    }
    ∷ record {
      api_groups = lit "apps" ∷ [];
      resources =
          lit "deployments" ∷ lit "replicasets" ∷ lit "statefulsets" ∷ lit "daemonsets" ∷ [];
      verbs = lit "get" ∷ lit "list" ∷ lit "watch" ∷ [];
    }
    ∷ record {
      api_groups = lit "workspace.devplane.io" ∷ [];
      resources = lit "workspaces" ∷ [];
      verbs = lit "get" ∷ [];
    }
    ∷ []

-- Some entry is the text, or the wildcard.
unfoldable pub lists : Text → List Text → Bool
lists t entries = any (λ e. text_eq e t || text_eq e (lit "*")) entries

-- A role grants a request if one rule lists its group, its resource and its verb.
unfoldable pub grants : List PolicyRule → Text → Text → Text → Bool
unfolding lists
grants rules group resource verb =
    any (λ r. lists group r.api_groups && lists resource r.resources && lists verb r.verbs) rules

module _ (k : Platform) where
  unfoldable pub build_service_account : Workspace → Result Meta
  build_service_account workspace = in_context (lit "set ServiceAccount owner reference") (
      k.set_controller_reference workspace
        (object_meta (service_account_name workspace.spec.user.id) workspace))

  unfoldable pub build_role : Workspace → Result Role
  unfolding role_rules
  build_role workspace = do
    meta ← in_context (lit "set Role owner reference") (
        k.set_controller_reference workspace
          (object_meta (service_account_name workspace.spec.user.id) workspace))
    ok (record { meta = meta; rules = role_rules })

  unfoldable pub build_role_binding : Workspace → Result RoleBinding
  build_role_binding workspace = do
    let sa_name = service_account_name workspace.spec.user.id
    meta ←
        in_context (lit "set RoleBinding owner reference")
          (k.set_controller_reference workspace (object_meta sa_name workspace))
    ok (record {
      meta = meta;
      subjects =
          record { kind = lit "ServiceAccount"; name = sa_name; namespace = workspace.namespace }
          ∷ [];
      role_ref = record {
        api_group = lit "rbac.authorization.k8s.io";
        kind = lit "Role";
        name = sa_name;
      };
    })
