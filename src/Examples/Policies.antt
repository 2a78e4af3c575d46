-- ===== src/Examples/Policies.antt =====
-- Network policies and RBAC.
use dev_plane.Base.{true, some, [], ◌∷◌, ◌&&◌, ◌≡◌, ◌≢◌, refl}
use dev_plane.Base.Int.{pos}
use dev_plane.Base.Text.{lit, text_eq}
use dev_plane.Api.{Workspace, running}
use dev_plane.Platform.{Meta, tcp}
use dev_plane.Security.Policy.{
  NetworkPolicy, ingress, egress, Endpoint, pod, outside, protocol_eq, port_eq, allows_egress,
  allows_ingress,
}
use dev_plane.Security.Netpol.{
  workspace_pod_selector, egress_rules_for, gateway_peer, tcp_port, policy_meta,
  build_deny_all_network_policy, build_egress_network_policy,
  build_ingress_from_gateway_network_policy,
}
use dev_plane.Security.Netpol.Ports.{opens}
use dev_plane.Security.Netpol.Access.{is_gateway, outside_access, gateway_access}
use dev_plane.Security.Rbac.{Role, role_rules, grants, build_role, service_account_name}
use dev_plane.Security.Rbac.Reads.{IsRead, role_reads}
use dev_plane.Resources.Build.{object_meta}
use dev_plane.Examples.Cluster.{platform, workspace_in}

abbrev jane : Workspace
jane = workspace_in running

abbrev owned : Meta → Meta
owned meta = record meta { owner = some (lit "jane") }

abbrev deny : NetworkPolicy
deny = record {
  meta = owned (policy_meta (lit "deny-all") jane);
  pod_selector = workspace_pod_selector (lit "jane");
  policy_types = ingress ∷ egress ∷ [];
  ingress_rules = [];
  egress_rules = [];
}

abbrev egress_policy : NetworkPolicy
egress_policy = record {
  meta = owned (policy_meta (lit "egress") jane);
  pod_selector = workspace_pod_selector (lit "jane");
  policy_types = egress ∷ [];
  ingress_rules = [];
  egress_rules = egress_rules_for (lit "ai-system" ∷ []) (pos 443 ∷ pos 0 ∷ []);
}

abbrev ingress_policy : NetworkPolicy
ingress_policy = record {
  meta = owned (policy_meta (lit "ingress-gateway") jane);
  pod_selector = workspace_pod_selector (lit "jane");
  policy_types = ingress ∷ [];
  ingress_rules =
      record { ports = tcp_port (pos 7681) ∷ []; peers = gateway_peer (lit "gateway") ∷ [] } ∷ [];
  egress_rules = [];
}

outside_access_example :
    allows_egress (deny ∷ egress_policy ∷ ingress_policy ∷ []) tcp (pos 443) outside
    ≡ (protocol_eq tcp tcp && opens (pos 443 ∷ pos 0 ∷ []) (pos 443))
unfolding build_deny_all_network_policy build_egress_network_policy
    build_ingress_from_gateway_network_policy
outside_access_example =
    outside_access platform jane (lit "ai-system" ∷ []) (pos 443 ∷ pos 0 ∷ []) (lit "gateway") deny
      egress_policy ingress_policy refl refl refl tcp (pos 443)

abbrev gateway_pod : Endpoint
gateway_pod =
    pod (lit "gateway") ((lit "kubernetes.io/metadata.name", lit "gateway") ∷ [])
      ((lit "app", lit "workspace-gateway") ∷ [])

gateway_access_example :
    allows_ingress (deny ∷ egress_policy ∷ ingress_policy ∷ []) tcp (pos 7681) gateway_pod ≡ (
      protocol_eq tcp tcp
      && port_eq (pos 7681) (pos 7681)
      && is_gateway (lit "dev") (lit "gateway") gateway_pod)
unfolding build_deny_all_network_policy build_egress_network_policy
    build_ingress_from_gateway_network_policy
gateway_access_example =
    gateway_access platform jane (lit "ai-system" ∷ []) (pos 443 ∷ pos 0 ∷ []) (lit "gateway") deny
      egress_policy ingress_policy refl refl refl tcp (pos 7681) gateway_pod

abbrev jane_role : Role
jane_role = record {
  meta = owned (object_meta (service_account_name (lit "jane")) jane);
  rules = role_rules;
}

jane_lists_pods : grants jane_role.rules [] (lit "pods") (lit "list") ≡ true
unfolding grants role_rules text_eq lit
jane_lists_pods = refl

role_reads_example : IsRead (lit "list") × (lit "pods" ≢ lit "secrets")
unfolding build_role
role_reads_example =
    role_reads platform jane jane_role refl [] (lit "pods") (lit "list") jane_lists_pods
