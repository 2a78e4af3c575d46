-- ===== src/Security/Netpol/Access.antt =====
-- The connections that the policies of pkg/security/netpol.go admit, by the documented meaning of
-- a NetworkPolicy.
use dev_plane.Base.{
  Bool, false, List, [], ◌∷◌, ◌&&◌, ◌≡◌, refl, arith, any, any-append, is_empty, map, if◌then◌else◌,
}
use dev_plane.Base.Int.{ℤ, pos}
use dev_plane.Base.Text.{Text, lit, text_eq}
use dev_plane.Base.Result.{ok, ok_of_bind}
use dev_plane.Api.{Labels, Workspace}
use dev_plane.Platform.{Protocol, tcp, Platform}
use dev_plane.Security.Policy.{
  Rule, NetworkPolicy, ingress, egress, Endpoint, pod, outside, has_label, selects, protocol_eq,
  port_eq, peer_matches, rule_admits, egress_admits, ingress_admits, allows_egress, allows_ingress,
}
use dev_plane.Security.Netpol.{
  dns_rule, namespace_selector_by_name, llm_rules, internet_rule, egress_rules_for, gateway_peer,
  tcp_port, build_deny_all_network_policy, build_egress_network_policy,
  build_ingress_from_gateway_network_policy,
}
use dev_plane.Security.Netpol.Ports.{opens, ports_match-internet_ports}

-- No address outside of the cluster is in a namespace.
namespaces_not_outside :
    (own : Text) (names : List Text)
    → any (λ p. peer_matches own p outside) (map namespace_selector_by_name names) ≡ false
unfolding namespace_selector_by_name peer_matches
namespaces_not_outside own [] = refl
namespaces_not_outside own (n ∷ ns) = ground (arith, namespaces_not_outside own ns)

llm_rules_not_outside :
    (own : Text) (names : List Text) (protocol : Protocol) (n : ℤ)
    → any (λ r. rule_admits own r protocol n outside) (llm_rules names) ≡ false
unfolding llm_rules rule_admits
llm_rules_not_outside own [] protocol n = refl
llm_rules_not_outside own (s ∷ ss) protocol n = ground (arith, namespaces_not_outside own (s ∷ ss))

dns_not_outside :
    (own : Text) (protocol : Protocol) (n : ℤ) → rule_admits own dns_rule protocol n outside ≡ false
unfolding rule_admits namespace_selector_by_name peer_matches
dns_not_outside own protocol n = ground arith

internet_rule-outside :
    (own : Text) (ports : List ℤ) (protocol : Protocol) (n : ℤ)
    → rule_admits own (internet_rule ports) protocol n outside
      ≡ (protocol_eq tcp protocol && opens ports n)
unfolding rule_admits peer_matches lit text_eq
internet_rule-outside own ports protocol n =
    ground (arith, ports_match-internet_ports ports protocol n)

egress_rules_for-outside :
    (own : Text) (names : List Text) (ports : List ℤ) (protocol : Protocol) (n : ℤ)
    → any (λ r. rule_admits own r protocol n outside) (egress_rules_for names ports)
      ≡ (protocol_eq tcp protocol && opens ports n)
unfolding egress_rules_for
egress_rules_for-outside own names ports protocol n = ground (
  arith,
  dns_not_outside own protocol n,
  internet_rule-outside own ports protocol n,
  llm_rules_not_outside own names protocol n,
  any-append (λ r. rule_admits own r protocol n outside) (llm_rules names)
      (internet_rule ports ∷ []),
)

-- The namespaces that the gateway may be in: the configured one, or else the policy's own.
abbrev pub in_gateway_namespace : Text → Text → Text → Labels → Bool
in_gateway_namespace own gateway_namespace namespace ns_labels =
    if is_empty gateway_namespace
    then text_eq namespace own
    else has_label (lit "kubernetes.io/metadata.name", gateway_namespace) ns_labels

-- A pod with the gateway's label in such a namespace.
abbrev pub is_gateway : Text → Text → Endpoint → Bool
is_gateway own gateway_namespace outside = false
is_gateway own gateway_namespace (pod namespace ns_labels labels) =
    in_gateway_namespace own gateway_namespace namespace ns_labels
    && has_label (lit "app", lit "workspace-gateway") labels

gateway_peer_lem :
    (own gateway_namespace : Text) (end : Endpoint)
    → peer_matches own (gateway_peer gateway_namespace) end ≡ is_gateway own gateway_namespace end
unfolding peer_matches gateway_peer selects
gateway_peer_lem own [] outside = refl
gateway_peer_lem own (c ∷ cs) outside = refl
gateway_peer_lem own [] (pod namespace ns_labels labels) = ground arith
gateway_peer_lem own (c ∷ cs) (pod namespace ns_labels labels) = ground arith

abbrev HasDenyRules : NetworkPolicy → Type 0
HasDenyRules p =
    (p.policy_types ≡ (ingress ∷ egress ∷ [])) × (p.ingress_rules ≡ []) × (p.egress_rules ≡ [])

abbrev HasEgressRules : List Text → List ℤ → NetworkPolicy → Type 0
HasEgressRules namespaces ports p =
    (p.policy_types ≡ (egress ∷ [])) × (p.egress_rules ≡ egress_rules_for namespaces ports)

abbrev HasIngressRules : List Rule → NetworkPolicy → Type 0
HasIngressRules rules p = (p.policy_types ≡ (ingress ∷ [])) × (p.ingress_rules ≡ rules)

module _ (k : Platform) (w : Workspace) where
  build_deny_all_network_policy-HasDenyRules :
      (p : NetworkPolicy) → build_deny_all_network_policy k w ≡ ok p → HasDenyRules p
  unfolding build_deny_all_network_policy
  build_deny_all_network_policy-HasDenyRules p h =
      ok_of_bind HasDenyRules _ _ p (λ m. (refl, refl, refl)) h

  build_egress_network_policy-HasEgressRules :
      (namespaces : List Text) (ports : List ℤ) (p : NetworkPolicy)
      → build_egress_network_policy k w namespaces ports ≡ ok p
      → HasEgressRules namespaces ports p
  unfolding build_egress_network_policy
  build_egress_network_policy-HasEgressRules namespaces ports p h =
      ok_of_bind (HasEgressRules namespaces ports) _ _ p (λ m. (refl, refl)) h

  build_ingress_from_gateway_network_policy-HasIngressRules :
      (gateway_namespace : Text) (p : NetworkPolicy)
      → build_ingress_from_gateway_network_policy k w gateway_namespace ≡ ok p
      → HasIngressRules
          (record { ports = tcp_port (pos 7681) ∷ []; peers = gateway_peer gateway_namespace ∷ [] }
            ∷ [])
          p
  unfolding build_ingress_from_gateway_network_policy
  build_ingress_from_gateway_network_policy-HasIngressRules gateway_namespace p h =
      ok_of_bind (HasIngressRules _) _ _ p (λ m. (refl, refl)) h

-- A pod that the three policies select connects to an address outside of the cluster on a TCP port
-- that the egress policy opens, and on nothing else.
pub outside_access :
    (k : Platform) (w : Workspace) (namespaces : List Text) (ports : List ℤ)
    (gateway_namespace : Text) (deny egress_policy ingress_policy : NetworkPolicy)
    → build_deny_all_network_policy k w ≡ ok deny
    → build_egress_network_policy k w namespaces ports ≡ ok egress_policy
    → build_ingress_from_gateway_network_policy k w gateway_namespace ≡ ok ingress_policy
    → (protocol : Protocol) (n : ℤ)
    → allows_egress (deny ∷ egress_policy ∷ ingress_policy ∷ []) protocol n outside
      ≡ (protocol_eq tcp protocol && opens ports n)
unfolding allows_egress egress_admits
outside_access k w namespaces ports gateway_namespace d e i hd he hi protocol n =
    let (dt, di, de) = build_deny_all_network_policy-HasDenyRules k w d hd in
    let (et, er) = build_egress_network_policy-HasEgressRules k w namespaces ports e he in
    let (it, ir) =
      build_ingress_from_gateway_network_policy-HasIngressRules k w gateway_namespace i hi in
    let h = egress_rules_for-outside e.meta.namespace namespaces ports protocol n in
    rw (dt, de, et, er, it, h) (ground arith)

-- A pod that the three policies select receives connections on TCP port 7681 from the gateway's
-- pods, and no others.
pub gateway_access :
    (k : Platform) (w : Workspace) (namespaces : List Text) (ports : List ℤ)
    (gateway_namespace : Text) (deny egress_policy ingress_policy : NetworkPolicy)
    → build_deny_all_network_policy k w ≡ ok deny
    → build_egress_network_policy k w namespaces ports ≡ ok egress_policy
    → build_ingress_from_gateway_network_policy k w gateway_namespace ≡ ok ingress_policy
    → (protocol : Protocol) (n : ℤ) (end : Endpoint)
    → allows_ingress (deny ∷ egress_policy ∷ ingress_policy ∷ []) protocol n end ≡ (
        protocol_eq tcp protocol
        && port_eq (pos 7681) n
        && is_gateway ingress_policy.meta.namespace gateway_namespace end)
unfolding allows_ingress ingress_admits
gateway_access k w namespaces ports gateway_namespace d e i hd he hi protocol n end =
    let (dt, di, de) = build_deny_all_network_policy-HasDenyRules k w d hd in
    let (et, er) = build_egress_network_policy-HasEgressRules k w namespaces ports e he in
    let (it, ir) =
      build_ingress_from_gateway_network_policy-HasIngressRules k w gateway_namespace i hi in
    let h = gateway_peer_lem i.meta.namespace gateway_namespace end in
    rw (dt, di, et, it, ir, h) (ground arith)
