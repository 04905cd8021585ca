-- ===== src/Api.antt =====
-- lacp_lib/LACP/lacp_api.c: the calls of the library that change its state. `fuel` is that of
-- `lacp_sys_update`. The critical sections are left out: their macros stand for nothing on the
-- one platform where the program runs.
pub mod Remove
use lacp.Base.{
  ℕ, zero, suc, ◌+◌, ◌-◌, Bool, true, false, not, ◌&&◌, ◌==◌, eqb, if◌then◌else◌, Option, none,
  some, List, [], ◌∷◌, bit_and,
}
use lacp.State.{agg, tmt, set_bit}
use lacp.Types.{
  PortInfo, LacpPdu, Bitmap, Port, LacpSys, World, modify_port, u16, u32, Outcome, returns, crashes,
  runs_out, ◌>>=◌,
}
use lacp.Bitmap
use lacp.Ssp.{get_port_oper_speed, get_port_oper_duplex}
use lacp.Port.{port_set_reselect}
use lacp.Rx.{rxm_rx_lacpdu}
use lacp.Create.{port_create, port_delete, port_find}
use lacp.Sys.{update}

-- `LACP_PORT_MAX`.
abbrev pub port_max : ℕ
port_max = 4

-- `LACP_ERROR_E`.
abbrev pub m_lacp_not_enable : ℕ
m_lacp_not_enable = 2

abbrev pub m_rstp_port_is_absent : ℕ
m_rstp_port_is_absent = 5

abbrev pub m_rstp_not_enable : ℕ
m_rstp_not_enable = 6

-- `field_mask & bit`, as a test.
abbrev pub has_field : ℕ → ℕ → Bool
has_field mask bit = not (bit_and mask bit == 0)

-- `lacp_bitmap_get_bit`, as a test.
abbrev pub in_bitmap : Bitmap → ℕ → Bool
in_bitmap b i = not (Bitmap.get_bit b i == 0)

-- `lacp_port_cfg_t`: the fields that are read.
pub record PortCfg : Type 0 where
  pub field_mask : ℕ
  pub port_bmp : Bitmap
  pub lacp_enabled : Bool
  pub port_priority : ℕ
  pub agg_id : ℕ

abbrev pub set_agg_flag : Bool → Port → Port
set_agg_flag v p = record p {
  actor_admin = record (p.actor_admin) { state = set_bit p.actor_admin.state agg v };
  actor = record (p.actor) { state = set_bit p.actor.state agg v };
}

abbrev pub set_agg_id : ℕ → Port → Port
set_agg_id id p = record p { agg_id = id }

abbrev pub set_lacp_enabled : Bool → Port → Port
set_lacp_enabled v p = record p { lacp_enabled = v }

-- `PT_CFG_STATE` with `lacp_enabled`: the port joins an aggregation.
unfoldable pub join_agg : PortCfg → World → ℕ → World
join_agg cfg w i =
    port_set_reselect (modify_port (modify_port w i (set_agg_flag true)) i (set_agg_id cfg.agg_id))
      (some i)

-- `PT_CFG_STATE` without it: the port tells its partner, and leaves its aggregation.
unfoldable pub leave_agg : ℕ → World → ℕ → Outcome World
leave_agg fuel w i = do
  v ← update fuel (modify_port w i (λ p. set_agg_flag false (record p { ntt = true })))
  returns (modify_port (port_set_reselect v (some i)) i (set_agg_id 0))

unfoldable pub cfg_state : ℕ → PortCfg → World → ℕ → Outcome World
unfolding join_agg leave_agg
cfg_state fuel cfg w i =
    if has_field cfg.field_mask 1
    then (do
      v ← if cfg.lacp_enabled then returns (join_agg cfg w i) else leave_agg fuel w i
      returns (modify_port v i (set_lacp_enabled cfg.lacp_enabled)))
    else returns w

unfoldable pub cfg_cost : PortCfg → World → ℕ → World
cfg_cost cfg w i = if has_field cfg.field_mask 2 then port_set_reselect w (some i) else w

unfoldable pub cfg_stat : PortCfg → World → ℕ → World
cfg_stat cfg w i =
    if has_field cfg.field_mask 8
    then modify_port w i (λ p. record p { rx_lacpdu_cnt = 0; tx_lacpdu_cnt = 0 })
    else w

abbrev pub set_priority : ℕ → Port → Port
set_priority prio p = record p {
  actor_admin = record (p.actor_admin) { port_priority = prio };
  actor = record (p.actor) { port_priority = prio };
}

unfoldable pub cfg_prio : PortCfg → World → ℕ → World
cfg_prio cfg w i =
    if has_field cfg.field_mask 4
    then port_set_reselect (modify_port w i (set_priority cfg.port_priority)) (some i)
    else w

-- The body of the loop of `lacp_port_set_cfg`.
unfoldable pub cfg_port : ℕ → PortCfg → World → ℕ → Outcome World
unfolding cfg_state cfg_cost cfg_stat cfg_prio
cfg_port fuel cfg w i = if not (in_bitmap cfg.port_bmp i) then returns w else elim (port_find w i) [
  | none ↦ returns w
  | some port ↦ do
    v ← cfg_state fuel cfg w port
    returns (cfg_prio cfg (cfg_stat cfg (cfg_cost cfg v port) port) port)
]

-- `for (port_index = 0; port_index < LACP_PORT_MAX; port_index++)` with a body that may fail: the
-- first number counts the rounds left.
unfoldable pub for_ports : (World → ℕ → Outcome World) → ℕ → ℕ → World → Outcome World
for_ports body zero i w = returns w
for_ports body (suc left) i w = body w i >>= λ v. for_ports body left (i + 1) v

-- `lacp_port_set_cfg`; it returns 0.
unfoldable pub port_set_cfg : ℕ → PortCfg → World → Outcome World
unfolding for_ports cfg_port
port_set_cfg fuel cfg w = do v ← for_ports (cfg_port fuel cfg) port_max 0 w; update fuel v

-- One port in a tick of `lacp_one_second`: its three timers and its hold count.
unfoldable pub tick_port : Port → Port
tick_port p = record p {
  current_while = p.current_while - 1;
  periodic_timer = p.periodic_timer - 1;
  wait_while = p.wait_while - 1;
  hold_count = 0;
}

unfoldable pub tick_ports : List ℕ → World → World
unfolding tick_port
tick_ports [] w = w
tick_ports (p ∷ ps) w = tick_ports ps (modify_port w p tick_port)

-- `lacp_one_second`.
unfoldable pub one_second : ℕ → World → Outcome World
unfolding tick_ports
one_second fuel w =
    if not w.sys.admin_state then returns w else update fuel (tick_ports w.sys.ports w)

unfoldable pub create_port : Bitmap → World → ℕ → Outcome World
create_port ports w i =
    if in_bitmap ports i
    then elim (port_create w i) [
      | none ↦ returns w
      | some v ↦ returns (record v {
        sys = record (v.sys) {
          number_of_ports = u32 (v.sys.number_of_ports + 1);
          portmap = Bitmap.set_bit v.sys.portmap i;
        };
      })
    ]
    else returns w

-- `lacp_create_ports`.
unfoldable pub create_ports : ℕ → Bitmap → World → Outcome World
unfolding create_port for_ports
create_ports fuel ports w = do v ← for_ports (create_port ports) port_max 0 w; update fuel v

unfoldable pub remove_port : Bitmap → World → ℕ → Outcome World
remove_port ports w i =
    if in_bitmap ports i
    then elim (port_find w i) [
      | none ↦ returns w
      | some port ↦ do
        v ← port_delete w (some port)
        returns (record v {
          sys = record (v.sys) {
            number_of_ports = u32 (v.sys.number_of_ports + 4294967296 - 1);
            portmap = Bitmap.clear_bit v.sys.portmap i;
          };
        })
    ]
    else returns w

-- `lacp_remove_ports`.
unfoldable pub remove_ports : Bitmap → World → Outcome World
unfolding remove_port for_ports
remove_ports ports w = for_ports (remove_port ports) port_max 0 w
