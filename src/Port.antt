-- ===== src/Port.antt =====
-- lacp_lib/LACP/lacp_util.c and lacp_port.c: copies of port information, and the calls of
-- lacp_port.c on which the state machines rest.
use lacp.Base.{ℕ, false, ◌==◌, if◌then◌else◌, Option, none, some, List, [], ◌∷◌}
use lacp.Types.{PortInfo, Host, Port, World, modify_port}

-- `*to` after `lacp_copy_info(from, to)`: every field is copied.
abbrev pub copy_info : PortInfo → PortInfo
copy_info from = from

-- `*to` after `lacp_copy_info_from_net(from, to)`.
abbrev pub copy_info_from_net : Host → PortInfo → PortInfo
copy_info_from_net h from = record {
  port_priority = h.ntohs from.port_priority;
  port_no = h.ntohs from.port_no;
  system_priority = h.ntohs from.system_priority;
  key = h.ntohs from.key;
  state = from.state;
  system_mac = from.system_mac;
}

abbrev pub unselect : Port → Port
unselect p = record p { selected = false }

-- The loops of `lacp_port_set_reselect`: over all ports, and over those of one aggregation.
unfoldable pub unselect_all : List ℕ → World → World
unselect_all [] w = w
unselect_all (p ∷ ps) w = unselect_all ps (modify_port w p unselect)

unfoldable pub unselect_members : ℕ → List ℕ → World → World
unselect_members agg_id [] w = w
unselect_members agg_id (p ∷ ps) w =
    unselect_members agg_id ps (if (w.cell p).agg_id == agg_id then modify_port w p unselect else w)

-- `none` is the null pointer.
unfoldable pub port_set_reselect : World → Option ℕ → World
unfolding unselect_all unselect_members
port_set_reselect w none = unselect_all w.sys.ports w
port_set_reselect w (some port) =
    if (w.cell port).agg_id == 0 then w else unselect_members (w.cell port).agg_id w.sys.ports w
