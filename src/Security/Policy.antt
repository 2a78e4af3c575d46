-- ===== src/Security/Policy.antt =====
-- networking.k8s.io/v1 NetworkPolicy, as far as pkg/security fills it in, and its documented
-- meaning: which connections a policy admits for the pods that it selects.
use dev_plane.Base.{
  Bool, true, false, Option, none, some, List, ◌&&◌, ◌||◌, any, all, is_empty, ◌==◌, not,
}
use dev_plane.Base.Int.{ℤ, pos_part, neg_part}
use dev_plane.Base.Text.{Text, lit, text_eq}
use dev_plane.Api.{Labels}
use dev_plane.Platform.{Meta, Protocol, tcp, udp}

-- NetworkPolicyPeer, by which of its three fields are set; selectors match labels.
pub record Peer : Type 0 where
  pub namespace_selector : Option Labels
  pub pod_selector : Option Labels
  pub ip_block : Option Text

pub record PolicyPort : Type 0 where
  pub protocol : Protocol
  pub port : ℤ

-- An egress rule's `peers` is its To, an ingress rule's its From.
pub record Rule : Type 0 where
  pub ports : List PolicyPort
  pub peers : List Peer

pub data PolicyType : Type 0 where
  ingress egress : PolicyType

pub record NetworkPolicy : Type 0 where
  pub meta : Meta
  pub pod_selector : Labels
  pub policy_types : List PolicyType
  pub ingress_rules : List Rule
  pub egress_rules : List Rule

-- The other end of a connection: a pod with its labels in a namespace with its labels, or an
-- address outside of the cluster.
pub data Endpoint : Type 0 where
  pod : (namespace : Text) (namespace_labels pod_labels : Labels) → Endpoint
  outside : Endpoint

-- Some entry has this key and this value.
unfoldable pub has_label : Text × Text → Labels → Bool
has_label entry labels = any (λ l. text_eq l.0 entry.0 && text_eq l.1 entry.1) labels

-- A selector's labels are all there.
unfoldable pub selects : Labels → Labels → Bool
unfolding has_label
selects selector labels = all (λ l. has_label l labels) selector

abbrev matches_all : Option Labels → Labels → Bool
matches_all none labels = true
matches_all (some selector) labels = selects selector labels

-- The pods of a peer: by both selectors if both are set, by the namespace selector alone in
-- the namespaces that it matches, by the pod selector alone in the policy's own namespace.
unfoldable pub pod_matches : Text → Option Labels → Option Labels → Text → Labels → Labels → Bool
unfolding selects
pod_matches own none none namespace ns_labels labels = false
pod_matches own none (some pods) namespace ns_labels labels =
    text_eq namespace own && selects pods labels
pod_matches own (some namespaces) pods namespace ns_labels labels =
    selects namespaces ns_labels && matches_all pods labels

-- Only the block of all addresses occurs in these policies.
unfoldable pub is_everywhere : Option Text → Bool
is_everywhere none = false
is_everywhere (some cidr) = text_eq cidr (lit "0.0.0.0/0")

unfoldable pub peer_matches : Text → Peer → Endpoint → Bool
unfolding pod_matches is_everywhere
peer_matches own p (pod namespace ns_labels labels) =
    pod_matches own p.namespace_selector p.pod_selector namespace ns_labels labels
peer_matches own p outside = is_everywhere p.ip_block

abbrev pub protocol_eq : Protocol → Protocol → Bool
protocol_eq tcp tcp = true
protocol_eq udp udp = true
protocol_eq _ _ = false

abbrev pub port_eq : ℤ → ℤ → Bool
port_eq a b = pos_part a == pos_part b && neg_part a == neg_part b

-- An empty list of ports matches every port, an empty list of peers every end.
unfoldable pub ports_match : List PolicyPort → Protocol → ℤ → Bool
ports_match ports protocol n =
    is_empty ports || any (λ p. protocol_eq p.protocol protocol && port_eq p.port n) ports

unfoldable pub rule_admits : Text → Rule → Protocol → ℤ → Endpoint → Bool
unfolding ports_match peer_matches
rule_admits own rule protocol n end =
    ports_match rule.ports protocol n
    && (is_empty rule.peers || any (λ p. peer_matches own p end) rule.peers)

unfoldable pub egress_admits : NetworkPolicy → Protocol → ℤ → Endpoint → Bool
unfolding rule_admits
egress_admits policy protocol n end =
    any (λ r. rule_admits policy.meta.namespace r protocol n end) policy.egress_rules

unfoldable pub ingress_admits : NetworkPolicy → Protocol → ℤ → Endpoint → Bool
unfolding rule_admits
ingress_admits policy protocol n end =
    any (λ r. rule_admits policy.meta.namespace r protocol n end) policy.ingress_rules

abbrev type_eq : PolicyType → PolicyType → Bool
type_eq ingress ingress = true
type_eq egress egress = true
type_eq _ _ = false

abbrev isolates : PolicyType → NetworkPolicy → Bool
isolates t policy = any (type_eq t) policy.policy_types

-- Of the policies that select a pod, those of a direction's type isolate it: a connection is then
-- allowed if one of them admits it. A pod that none isolates may connect freely.
unfoldable pub allows_egress : List NetworkPolicy → Protocol → ℤ → Endpoint → Bool
allows_egress policies protocol n end =
    not (any (isolates egress) policies)
    || any (λ p. isolates egress p && egress_admits p protocol n end) policies

unfoldable pub allows_ingress : List NetworkPolicy → Protocol → ℤ → Endpoint → Bool
allows_ingress policies protocol n end =
    not (any (isolates ingress) policies)
    || any (λ p. isolates ingress p && ingress_admits p protocol n end) policies
