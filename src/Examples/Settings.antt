-- ===== src/Examples/Settings.antt =====
-- The operator's environment.
use dev_plane.Base.{arith, [], ◌∷◌, ◌≡◌, All, map}
use dev_plane.Base.Int.{pos}
use dev_plane.Base.Text.{lit}
use dev_plane.Security.Netpol.{tcp_port, valid_ports}
use dev_plane.Operator.Settings.{egress_ports}
use dev_plane.Operator.Settings.Ports.{
  IsPort, joined, egress_ports-valid_ports, egress_ports-joined,
}

egress_ports-valid_ports_example :
    All IsPort (egress_ports (lit "22, x,70000,,443"))
    × (valid_ports (egress_ports (lit "22, x,70000,,443"))
        ≡ map tcp_port (egress_ports (lit "22, x,70000,,443")))
egress_ports-valid_ports_example = egress_ports-valid_ports (lit "22, x,70000,,443")

egress_ports-joined_example :
    egress_ports (joined 22 (80 ∷ 443 ∷ [])) ≡ map pos (22 ∷ 80 ∷ 443 ∷ [])
egress_ports-joined_example =
    egress_ports-joined 22 (80 ∷ 443 ∷ []) (omega arith, omega arith)
      ((omega arith, omega arith), ((omega arith, omega arith), tt))
