-- ===== src/Operator/Ensure/Accepted.antt =====
-- ensureRBAC and ensureNetworkPolicies return no error where the server accepts every object.
use dev_plane.Base.{none, ◌≡◌, refl, ◌∙◌}
use dev_plane.Base.Text.{Text, lit}
use dev_plane.Base.Result.{ok}
use dev_plane.Api.{Workspace}
use dev_plane.Platform.{Platform, IsOwning}
use dev_plane.Resources.Build.{object_meta}
use dev_plane.Security.Netpol.{
  policy_meta, build_deny_all_network_policy, build_egress_network_policy,
  build_ingress_from_gateway_network_policy,
}
use dev_plane.Security.Rbac.{service_account_name, Role, build_role}
use dev_plane.Operator.Env.{Config, ApiServer, Object}
use dev_plane.Operator.Ensure.{
  Progress, ensure, ensure_role, rbac_account, rbac_role, rbac_binding, ensure_rbac,
  ensure_egress_policy, ensure_ingress_policy, ensure_network_policies,
}

module _ (k : Platform) (owning : IsOwning k) (cfg : Config) (srv : ApiServer)
    (accepts : (o : Object) → srv.create_or_update o ≡ none) (ws : Workspace) where
  ensured : (o : Object) (t : Text) (rest : Progress) → (ensure srv o t rest).1 ≡ rest.1
  unfolding ensure
  ensured o t rest = rw (accepts o, ensure) refl

  role_built : (r : Role) × (build_role k ws ≡ ok r)
  unfolding build_role
  role_built = rw (owning ws (object_meta (service_account_name ws.spec.user.id) ws) refl) (_, refl)

  role_applied : (ensure_role k cfg srv ws).1 ≡ none
  unfolding ensure_role
  role_applied =
      let (r, e) = role_built in
      rw (e, ensure_role) (ensured (rbac_role ws r) _ _ ∙ ensured (rbac_binding ws) _ _)

  pub rbac_applied : (ensure_rbac k cfg srv ws).1 ≡ none
  unfolding ensure_rbac
  rbac_applied = ensured (rbac_account ws) _ _ ∙ role_applied

  ingress_applied : (ensure_ingress_policy k cfg srv ws).1 ≡ none
  unfolding ensure_ingress_policy build_ingress_from_gateway_network_policy
  ingress_applied =
      rw (owning ws (policy_meta (lit "ingress-gateway") ws) refl, ensure_ingress_policy)
        (ensured _ _ _)

  egress_applied : (ensure_egress_policy k cfg srv ws).1 ≡ none
  unfolding ensure_egress_policy build_egress_network_policy
  egress_applied =
      rw (owning ws (policy_meta (lit "egress") ws) refl, ensure_egress_policy)
        (ensured _ _ _ ∙ ingress_applied)

  pub policies_applied : (ensure_network_policies k cfg srv ws).1 ≡ none
  unfolding ensure_network_policies build_deny_all_network_policy
  policies_applied =
      rw (owning ws (policy_meta (lit "deny-all") ws) refl, ensure_network_policies)
        (ensured _ _ _ ∙ egress_applied)
