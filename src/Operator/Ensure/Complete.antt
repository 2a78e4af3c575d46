-- ===== src/Operator/Ensure/Complete.antt =====
-- What ensureRBAC and ensureNetworkPolicies have applied when they return no error.
use dev_plane.Base.{none, List, [], ◌∷◌, ◌≡◌, inl, inr, arith}
use dev_plane.Base.Result.{ok, Result-cases}
use dev_plane.Api.{Workspace}
use dev_plane.Platform.{Platform}
use dev_plane.Security.Policy.{NetworkPolicy}
use dev_plane.Security.Netpol.{
  resolve_llm_egress_namespaces, resolve_egress_ports, build_deny_all_network_policy,
  build_egress_network_policy, build_ingress_from_gateway_network_policy,
}
use dev_plane.Security.Rbac.{Role, build_role}
use dev_plane.Operator.Env.{Config, ApiServer, Action, apply}
use dev_plane.Operator.Ensure.{
  ensure_rbac, ensure_network_policies, rbac_account, rbac_role, rbac_binding, owned_policy,
}

module _ (k : Platform) (cfg : Config) (srv : ApiServer) (ws : Workspace) where
  -- The three RBAC objects are applied, in order, and the server accepted each.
  pub record RbacApplied (actions : List Action) : Type 0 where
    pub desired : Role
    pub built : build_role k ws ≡ ok desired
    pub asked :
        actions
        ≡ apply (rbac_account ws) ∷ apply (rbac_role ws desired) ∷ apply (rbac_binding ws) ∷ []
    pub account : srv.create_or_update (rbac_account ws) ≡ none
    pub role : srv.create_or_update (rbac_role ws desired) ≡ none
    pub binding : srv.create_or_update (rbac_binding ws) ≡ none

  pub ensure_rbac-RbacApplied :
      (ensure_rbac k cfg srv ws).1 ≡ none → RbacApplied (ensure_rbac k cfg srv ws).0
  unfolding ensure_rbac
  ensure_rbac-RbacApplied h = elim (Result-cases (build_role k ws)) [
    | inl (r, e) ↦ record {
      desired = r;
      built = e;
      asked = ground arith;
      account = ground arith;
      role = ground arith;
      binding = ground arith;
    }
    | inr (err, e) ↦ absurd (ground arith)
  ]

  -- The three policies are built as configured and applied, in order, and the server accepted each.
  pub record PoliciesApplied (actions : List Action) : Type 0 where
    pub deny : NetworkPolicy
    pub egress : NetworkPolicy
    pub ingress : NetworkPolicy
    pub deny_built : build_deny_all_network_policy k ws ≡ ok deny
    pub egress_built :
        build_egress_network_policy k ws
          (resolve_llm_egress_namespaces ws.spec.ai_config.egress_namespaces cfg.llm_namespaces)
          (resolve_egress_ports ws.spec.ai_config.egress_ports cfg.egress_ports)
        ≡ ok egress
    pub ingress_built :
        build_ingress_from_gateway_network_policy k ws cfg.gateway_namespace ≡ ok ingress
    pub asked :
        actions
        ≡ apply (owned_policy ws deny)
          ∷ apply (owned_policy ws egress)
          ∷ apply (owned_policy ws ingress)
          ∷ []
    pub deny_accepted : srv.create_or_update (owned_policy ws deny) ≡ none
    pub egress_accepted : srv.create_or_update (owned_policy ws egress) ≡ none
    pub ingress_accepted : srv.create_or_update (owned_policy ws ingress) ≡ none

  pub ensure_network_policies-PoliciesApplied :
      (ensure_network_policies k cfg srv ws).1 ≡ none
      → PoliciesApplied (ensure_network_policies k cfg srv ws).0
  unfolding ensure_network_policies
  ensure_network_policies-PoliciesApplied h =
      let namespaces =
        resolve_llm_egress_namespaces ws.spec.ai_config.egress_namespaces cfg.llm_namespaces in
      let ports = resolve_egress_ports ws.spec.ai_config.egress_ports cfg.egress_ports in
      elim (Result-cases (build_deny_all_network_policy k ws)) [
        | inr (err, e) ↦ absurd (ground arith)
        | inl (d, de) ↦ elim (Result-cases (build_egress_network_policy k ws namespaces ports)) [
          | inr (err, e) ↦ absurd (ground arith)
          | inl (g, ge) ↦
              elim (Result-cases
                (build_ingress_from_gateway_network_policy k ws cfg.gateway_namespace)) [
                  | inr (err, e) ↦ absurd (ground arith)
                  | inl (n, ne) ↦ record {
                    deny = d;
                    egress = g;
                    ingress = n;
                    deny_built = de;
                    egress_built = ge;
                    ingress_built = ne;
                    asked = ground arith;
                    deny_accepted = ground arith;
                    egress_accepted = ground arith;
                    ingress_accepted = ground arith;
                  }
                ]
        ]
      ]
