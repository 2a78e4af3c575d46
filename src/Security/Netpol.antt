-- ===== src/Security/Netpol.antt =====
-- pkg/security/netpol.go.
pub mod Ports
pub mod Access
use dev_plane.Base.{
  ℕ, Bool, true, false, Option, none, some, List, [], ◌∷◌, ◌++◌, ◌||◌, map, is_empty, if◌then◌else◌,
}
use dev_plane.Base.Int.{ℤ, pos, ltb_ℤ}
use dev_plane.Base.Text.{Text, lit, trim_space}
use dev_plane.Base.Result.{Error, Result, ok, fail, ◌>>=◌}
use dev_plane.Api.{Labels, Workspace}
use dev_plane.Platform.{Meta, Protocol, tcp, udp, Platform}
use dev_plane.Resources.Names.{labels}
use dev_plane.Resources.Build.{in_context}
use dev_plane.Security.Policy.{Peer, PolicyPort, Rule, ingress, egress, NetworkPolicy}

abbrev pub default_egress_ports : List ℤ
default_egress_ports =
    pos 22 ∷ pos 80 ∷ pos 443 ∷ pos 5000 ∷ pos 8000 ∷ pos 8080 ∷ pos 8081 ∷ pos 11434 ∷ []

abbrev pub default_llm_namespace : Text
default_llm_namespace = lit "ai-system"

unfoldable pub compact_non_empty_strings : List Text → List Text
compact_non_empty_strings [] = []
compact_non_empty_strings (s ∷ ss) =
    let t = trim_space s in
    let out = compact_non_empty_strings ss in if is_empty t then out else t ∷ out

unfoldable pub resolve_llm_egress_namespaces : List Text → List Text → List Text
unfolding compact_non_empty_strings
resolve_llm_egress_namespaces spec operator =
    let from_spec = compact_non_empty_strings spec in
    let from_operator = compact_non_empty_strings operator in
    if is_empty from_spec
    then if is_empty from_operator then default_llm_namespace ∷ [] else from_operator
    else from_spec

unfoldable pub resolve_egress_ports : List ℤ → List ℤ → List ℤ
resolve_egress_ports spec operator =
    if is_empty spec then if is_empty operator then default_egress_ports else operator else spec

unfoldable pub netpol_name : Text → Text → Text
netpol_name user_id suffix = user_id ++ lit "-workspace-" ++ suffix

unfoldable pub workspace_pod_selector : Text → Labels
workspace_pod_selector user_id = (lit "app", lit "workspace") ∷ (lit "user", user_id) ∷ []

unfoldable pub namespace_selector_by_name : Text → Peer
namespace_selector_by_name name = record {
  namespace_selector = some ((lit "kubernetes.io/metadata.name", name) ∷ []);
  pod_selector = none;
  ip_block = none;
}

-- `p < 1 || p > 65535`
abbrev pub is_invalid_port : ℤ → Bool
is_invalid_port p = ltb_ℤ p (pos 1) || ltb_ℤ (pos 65535) p

abbrev pub tcp_port : ℤ → PolicyPort
tcp_port p = record { protocol = tcp; port = p }

-- The loop that skips the ports out of range.
unfoldable pub valid_ports : List ℤ → List PolicyPort
valid_ports [] = []
valid_ports (p ∷ ps) =
    let rest = valid_ports ps in if is_invalid_port p then rest else tcp_port p ∷ rest

unfoldable pub internet_ports : List ℤ → List PolicyPort
unfolding valid_ports
internet_ports ports =
    let valid = valid_ports ports in
    if is_empty valid then map tcp_port default_egress_ports else valid

abbrev pub dns_rule : Rule
dns_rule = record {
  ports = record { protocol = udp; port = pos 53 } ∷ record { protocol = tcp; port = pos 53 } ∷ [];
  peers = namespace_selector_by_name (lit "kube-system") ∷ [];
}

-- `if len(llmNamespaces) > 0 { append the rule }`
unfoldable pub llm_rules : List Text → List Rule
llm_rules namespaces =
    if is_empty namespaces
    then []
    else record { ports = []; peers = map namespace_selector_by_name namespaces } ∷ []

abbrev pub internet_rule : List ℤ → Rule
internet_rule ports = record {
  ports = internet_ports ports;
  peers =
      record { namespace_selector = none; pod_selector = none; ip_block = some (lit "0.0.0.0/0") }
      ∷ [];
}

-- The rules of the egress policy: DNS, the LLM namespaces, the internet.
unfoldable pub egress_rules_for : List Text → List ℤ → List Rule
unfolding llm_rules
egress_rules_for namespaces ports = dns_rule ∷ (llm_rules namespaces ++ internet_rule ports ∷ [])

-- The metadata of a policy before its owner is set.
abbrev pub policy_meta : Text → Workspace → Meta
policy_meta suffix workspace = record {
  name = netpol_name workspace.spec.user.id suffix;
  namespace = workspace.namespace;
  labels = labels workspace.spec.user.id;
  owner = none;
}

-- The gateway's pods, in the gateway's namespace if that is configured.
unfoldable pub gateway_peer : Text → Peer
gateway_peer gateway_namespace = record {
  namespace_selector =
      if is_empty gateway_namespace
      then none
      else some ((lit "kubernetes.io/metadata.name", gateway_namespace) ∷ []);
  pod_selector = some ((lit "app", lit "workspace-gateway") ∷ []);
  ip_block = none;
}

module _ (k : Platform) where
  unfoldable pub build_deny_all_network_policy : Workspace → Result NetworkPolicy
  build_deny_all_network_policy workspace = do
    meta ←
        in_context (lit "set NetworkPolicy owner reference")
          (k.set_controller_reference workspace (policy_meta (lit "deny-all") workspace))
    ok (record {
      meta = meta;
      pod_selector = workspace_pod_selector workspace.spec.user.id;
      policy_types = ingress ∷ egress ∷ [];
      ingress_rules = [];
      egress_rules = [];
    })

  unfoldable pub build_egress_network_policy : Workspace → List Text → List ℤ → Result NetworkPolicy
  unfolding egress_rules_for
  build_egress_network_policy workspace namespaces ports = do
    meta ←
        in_context (lit "set NetworkPolicy owner reference")
          (k.set_controller_reference workspace (policy_meta (lit "egress") workspace))
    ok (record {
      meta = meta;
      pod_selector = workspace_pod_selector workspace.spec.user.id;
      policy_types = egress ∷ [];
      ingress_rules = [];
      egress_rules = egress_rules_for namespaces ports;
    })

  unfoldable pub build_ingress_from_gateway_network_policy : Workspace → Text → Result NetworkPolicy
  unfolding gateway_peer
  build_ingress_from_gateway_network_policy workspace gateway_namespace = do
    meta ←
        in_context (lit "set NetworkPolicy owner reference")
          (k.set_controller_reference workspace (policy_meta (lit "ingress-gateway") workspace))
    ok (record {
      meta = meta;
      pod_selector = workspace_pod_selector workspace.spec.user.id;
      policy_types = ingress ∷ [];
      ingress_rules =
          record { ports = tcp_port (pos 7681) ∷ []; peers = gateway_peer gateway_namespace ∷ [] }
          ∷ [];
      egress_rules = [];
    })
