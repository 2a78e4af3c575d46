-- ===== src/Security/Netpol/Ports.antt =====
-- The ports of the rule for external addresses.
use dev_plane.Base.{
  Bool, true, false, List, [], ◌∷◌, ◌&&◌, ◌≡◌, refl, arith, any, is_empty, map, if◌then◌else◌, not,
}
use dev_plane.Base.Int.{ℤ}
use dev_plane.Platform.{Protocol, tcp, udp}
use dev_plane.Security.Policy.{PolicyPort, protocol_eq, port_eq, ports_match}
use dev_plane.Security.Netpol.{
  default_egress_ports, is_invalid_port, tcp_port, valid_ports, internet_ports,
}

-- The port is in the list.
abbrev pub has_port : ℤ → List ℤ → Bool
has_port n ports = any (λ p. port_eq p n) ports

-- The list has a port in the range from 1 to 65535.
abbrev pub some_valid : List ℤ → Bool
some_valid ports = any (λ p. not (is_invalid_port p)) ports

admitted : List PolicyPort → Protocol → ℤ → Bool
admitted ports protocol n = any (λ p. protocol_eq p.protocol protocol && port_eq p.port n) ports

invalid_same : (p n : ℤ) → port_eq p n ≡ true → is_invalid_port p ≡ is_invalid_port n
invalid_same p n h = ground arith

admitted-valid_ports :
    (n : ℤ) (ports : List ℤ)
    → admitted (valid_ports ports) tcp n ≡ (has_port n ports && not (is_invalid_port n))
unfolding valid_ports admitted
admitted-valid_ports n [] = refl
admitted-valid_ports n (p ∷ ps) = ground (arith, admitted-valid_ports n ps, invalid_same p n)

admitted-map : (n : ℤ) (ports : List ℤ) → admitted (map tcp_port ports) tcp n ≡ has_port n ports
unfolding admitted
admitted-map n [] = refl
admitted-map n (p ∷ ps) = ground (arith, admitted-map n ps)

admitted-map-udp : (n : ℤ) (ports : List ℤ) → admitted (map tcp_port ports) udp n ≡ false
unfolding admitted
admitted-map-udp n [] = refl
admitted-map-udp n (p ∷ ps) = admitted-map-udp n ps

valid_ports-udp : (n : ℤ) (ports : List ℤ) → admitted (valid_ports ports) udp n ≡ false
unfolding valid_ports admitted
valid_ports-udp n [] = refl
valid_ports-udp n (p ∷ ps) = ground (arith, valid_ports-udp n ps)

is_empty-valid_ports : (ports : List ℤ) → is_empty (valid_ports ports) ≡ not (some_valid ports)
unfolding valid_ports
is_empty-valid_ports [] = refl
is_empty-valid_ports (p ∷ ps) = ground (arith, is_empty-valid_ports ps)

-- The port is open for external addresses: a valid one of the list, or of the default list if the
-- list has no valid port.
abbrev pub opens : List ℤ → ℤ → Bool
opens ports n =
    if some_valid ports
    then has_port n ports && not (is_invalid_port n)
    else has_port n default_egress_ports

-- The list that is used is never empty.
or_default :
    (valid : List PolicyPort) (protocol : Protocol) (n : ℤ)
    → ports_match (if is_empty valid then map tcp_port default_egress_ports else valid) protocol n
      ≡ (if is_empty valid
          then admitted (map tcp_port default_egress_ports) protocol n
          else admitted valid protocol n)
unfolding ports_match admitted
or_default [] protocol n = refl
or_default (p ∷ ps) protocol n = refl

pub ports_match-internet_ports :
    (ports : List ℤ) (protocol : Protocol) (n : ℤ)
    → ports_match (internet_ports ports) protocol n ≡ (protocol_eq tcp protocol && opens ports n)
unfolding internet_ports
ports_match-internet_ports ports tcp n = ground (
  arith,
  or_default (valid_ports ports) tcp n,
  is_empty-valid_ports ports,
  admitted-valid_ports n ports,
  admitted-map n default_egress_ports,
)
ports_match-internet_ports ports udp n = ground (
  arith,
  or_default (valid_ports ports) udp n,
  valid_ports-udp n ports,
  admitted-map-udp n default_egress_ports,
)
