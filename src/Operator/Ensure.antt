-- ===== src/Operator/Ensure.antt =====
-- ensureRBAC and ensureNetworkPolicies: the objects that are created or updated, in order. Each
-- returns the actions, and the error at which it stopped.
pub mod Accepted
pub mod Applies
pub mod Complete
use dev_plane.Base.{Option, none, some, List, [], ◌∷◌, ◌++◌}
use dev_plane.Base.Text.{Text, lit}
use dev_plane.Base.Result.{Error, Result, ok, fail, wrap}
use dev_plane.Api.{Workspace}
use dev_plane.Platform.{Meta, Platform}
use dev_plane.Resources.Names.{service_account_name, labels}
use dev_plane.Security.Policy.{NetworkPolicy}
use dev_plane.Security.Netpol.{
  resolve_llm_egress_namespaces, resolve_egress_ports, build_deny_all_network_policy,
  build_egress_network_policy, build_ingress_from_gateway_network_policy,
}
use dev_plane.Security.Rbac.{Role, RoleBinding, build_role}
use dev_plane.Operator.Env.{
  Config, ApiServer, Object, service_account, role, role_binding, network_policy, Action, apply,
}

abbrev Progress : Type 0
Progress = List Action × Option Error

-- Metadata as CreateOrUpdate leaves it.
abbrev pub owned_meta : Text → Workspace → Meta
owned_meta name ws = record {
  name = name;
  namespace = ws.namespace;
  labels = labels ws.spec.user.id;
  owner = some ws.name;
}

unfoldable pub rbac_account : Workspace → Object
rbac_account ws = service_account (owned_meta (service_account_name ws.spec.user.id) ws)

-- The desired role has the rules of the one built.
unfoldable pub rbac_role : Workspace → Role → Object
rbac_role ws desired =
    role (record {
      meta = owned_meta (service_account_name ws.spec.user.id) ws;
      rules = desired.rules;
    })

unfoldable pub rbac_binding : Workspace → Object
rbac_binding ws = role_binding (record {
  meta = owned_meta (service_account_name ws.spec.user.id) ws;
  subjects =
      record {
        kind = lit "ServiceAccount";
        name = service_account_name ws.spec.user.id;
        namespace = ws.namespace;
      }
      ∷ [];
  role_ref = record {
    api_group = lit "rbac.authorization.k8s.io";
    kind = lit "Role";
    name = service_account_name ws.spec.user.id;
  };
})

-- The policy with the name, the labels and the spec of the one built.
unfoldable pub owned_policy : Workspace → NetworkPolicy → Object
owned_policy ws np =
    network_policy
      (record np { meta = record (np.meta) { namespace = ws.namespace; owner = some ws.name } })

module _ (srv : ApiServer) where
  -- `if _, err := CreateOrUpdate(...); err != nil { return fmt.Errorf("<context>: %w", err) }`,
  -- then the rest.
  unfoldable pub ensure : Object → Text → Progress → Progress
  ensure object context rest = elim (srv.create_or_update object) [
    | none ↦ (apply object ∷ rest.0, rest.1)
    | some err ↦ (apply object ∷ [], some (wrap context err))
  ]

module _ (k : Platform) (cfg : Config) (srv : ApiServer) where
  ensure_role : Workspace → Progress
  ensure_role ws = elim (build_role k ws) [
    | fail err ↦ ([], some (wrap (lit "build Role") err))
    | ok desired ↦
        ensure srv (rbac_role ws desired) (lit "ensure Role")
          (ensure srv (rbac_binding ws) (lit "ensure RoleBinding") ([], none))
  ]

  unfoldable pub ensure_rbac : Workspace → Progress
  unfolding ensure ensure_role
  ensure_rbac ws = ensure srv (rbac_account ws) (lit "ensure ServiceAccount") (ensure_role ws)

  ensure_ingress_policy : Workspace → Progress
  ensure_ingress_policy ws =
      elim (build_ingress_from_gateway_network_policy k ws cfg.gateway_namespace) [
        | fail err ↦ ([], some (wrap (lit "build ingress-gateway NetworkPolicy") err))
        | ok np ↦
            ensure srv (owned_policy ws np) (lit "ensure ingress-gateway NetworkPolicy") ([], none)
      ]

  ensure_egress_policy : Workspace → Progress
  unfolding ensure_ingress_policy
  ensure_egress_policy ws =
      let namespaces =
        resolve_llm_egress_namespaces ws.spec.ai_config.egress_namespaces cfg.llm_namespaces in
      let ports = resolve_egress_ports ws.spec.ai_config.egress_ports cfg.egress_ports in
      elim (build_egress_network_policy k ws namespaces ports) [
        | fail err ↦ ([], some (wrap (lit "build egress NetworkPolicy") err))
        | ok np ↦
            ensure srv (owned_policy ws np) (lit "ensure egress NetworkPolicy")
              (ensure_ingress_policy ws)
      ]

  unfoldable pub ensure_network_policies : Workspace → Progress
  unfolding ensure ensure_egress_policy
  ensure_network_policies ws = elim (build_deny_all_network_policy k ws) [
    | fail err ↦ ([], some (wrap (lit "build deny-all NetworkPolicy") err))
    | ok np ↦
        ensure srv (owned_policy ws np) (lit "ensure deny-all NetworkPolicy")
          (ensure_egress_policy ws)
  ]
