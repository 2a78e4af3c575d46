-- ===== src/Operator/Ensure/Applies.antt =====
-- The actions of ensureRBAC and ensureNetworkPolicies are CreateOrUpdate calls.
use dev_plane.Base.{inl, inr, All, Option-cases}
use dev_plane.Base.Text.{Text}
use dev_plane.Base.Result.{Result-cases}
use dev_plane.Api.{Workspace}
use dev_plane.Platform.{Platform}
use dev_plane.Security.Netpol.{
  resolve_llm_egress_namespaces, resolve_egress_ports, build_deny_all_network_policy,
  build_egress_network_policy, build_ingress_from_gateway_network_policy,
}
use dev_plane.Security.Rbac.{build_role}
use dev_plane.Operator.Env.{Config, ApiServer, Object, Action, apply}
use dev_plane.Operator.Ensure.{
  Progress, ensure, ensure_role, ensure_rbac, ensure_ingress_policy, ensure_egress_policy,
  ensure_network_policies,
}

module _ (P : Action → Type 0) (applies : (o : Object) → P (apply o)) (k : Platform) (cfg : Config)
    (srv : ApiServer) where
  ensure-All :
      (o : Object) (context : Text) (rest : Progress)
      → All P rest.0
      → All P (ensure srv o context rest).0
  unfolding ensure
  ensure-All o context rest h = elim (Option-cases (srv.create_or_update o)) [
    | inl e ↦ rw (e, ensure) (applies o, h)
    | inr (err, e) ↦ rw (e, ensure) (applies o, tt)
  ]

  ensure_role-All : (ws : Workspace) → All P (ensure_role k cfg srv ws).0
  unfolding ensure_role
  ensure_role-All ws = elim (Result-cases (build_role k ws)) [
    | inl (r, e) ↦ rw (e, ensure_role) (ensure-All _ _ _ (ensure-All _ _ _ tt))
    | inr (err, e) ↦ rw (e, ensure_role) tt
  ]

  pub ensure_rbac-All : (ws : Workspace) → All P (ensure_rbac k cfg srv ws).0
  unfolding ensure_rbac
  ensure_rbac-All ws = ensure-All _ _ _ (ensure_role-All ws)

  ensure_ingress_policy-All : (ws : Workspace) → All P (ensure_ingress_policy k cfg srv ws).0
  unfolding ensure_ingress_policy
  ensure_ingress_policy-All ws =
      elim (Result-cases (build_ingress_from_gateway_network_policy k ws cfg.gateway_namespace)) [
        | inl (np, e) ↦ rw (e, ensure_ingress_policy) (ensure-All _ _ _ tt)
        | inr (err, e) ↦ rw (e, ensure_ingress_policy) tt
      ]

  ensure_egress_policy-All : (ws : Workspace) → All P (ensure_egress_policy k cfg srv ws).0
  unfolding ensure_egress_policy
  ensure_egress_policy-All ws =
      let namespaces =
        resolve_llm_egress_namespaces ws.spec.ai_config.egress_namespaces cfg.llm_namespaces in
      let ports = resolve_egress_ports ws.spec.ai_config.egress_ports cfg.egress_ports in
      elim (Result-cases (build_egress_network_policy k ws namespaces ports)) [
        | inl (np, e) ↦
            rw (e, ensure_egress_policy) (ensure-All _ _ _ (ensure_ingress_policy-All ws))
        | inr (err, e) ↦ rw (e, ensure_egress_policy) tt
      ]

  pub ensure_network_policies-All :
      (ws : Workspace) → All P (ensure_network_policies k cfg srv ws).0
  unfolding ensure_network_policies
  ensure_network_policies-All ws = elim (Result-cases (build_deny_all_network_policy k ws)) [
    | inl (np, e) ↦ rw (e, ensure_network_policies) (ensure-All _ _ _ (ensure_egress_policy-All ws))
    | inr (err, e) ↦ rw (e, ensure_network_policies) tt
  ]
