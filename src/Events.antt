-- ===== src/Events.antt =====
-- lacp_lib/LACP/lacp_api.c: what comes from outside, a frame or a change of the link, and the
-- configuration of the system.
pub mod Absent
use lacp.Base.{
  ℕ, zero, suc, ◌+◌, Bool, true, false, not, ◌&&◌, ◌==◌, eqb, if◌then◌else◌, Option, none, some,
  List, [], ◌∷◌,
}
use lacp.State.{agg, tmt, set_bit}
use lacp.Types.{
  LacpPdu, Bitmap, Mac, Port, LacpSys, World, modify_port, u16, Outcome, returns, crashes, ◌>>=◌,
}
use lacp.Ssp.{get_port_oper_speed, get_port_oper_duplex}
use lacp.Port.{port_set_reselect}
use lacp.Rx.{rxm_rx_lacpdu}
use lacp.Create.{port_create, port_delete, port_find}
use lacp.Sys.{update}
use lacp.Api.{
  port_max, has_field, in_bitmap, for_ports, m_lacp_not_enable, m_rstp_port_is_absent,
  m_rstp_not_enable,
}

-- A call returns the new state and its code, 0 for success.
abbrev pub Reply : Type 0
Reply = Outcome (World × ℕ)

abbrev pub with_code : ℕ → World → Reply
with_code code w = returns (w, code)

-- `lacp_rx_lacpdu`, once the system has been created.
unfoldable pub rx_lacpdu : ℕ → World → ℕ → LacpPdu → Reply
rx_lacpdu fuel w port_index pdu = elim (port_find w port_index) [
  | none ↦ returns (w, m_rstp_port_is_absent)
  | some port ↦
      if not (w.cell port).port_enabled
      then returns (w, m_rstp_not_enable)
      else if not w.sys.admin_state
      then returns (w, m_rstp_not_enable)
      else (update fuel (rxm_rx_lacpdu w port pdu) >>= with_code 0)
]

-- What `lacp_port_link_change` writes to the port itself.
unfoldable pub set_link : World → Bool → ℕ → Port → Port
set_link w link_status i p =
    let q = record p {
      port_enabled = link_status;
      speed = get_port_oper_speed w.stub i;
      duplex = get_port_oper_duplex w.stub i;
    } in
    if q.duplex == 0
    then record q { actor = record (q.actor) { state = set_bit q.actor.state agg false } }
    else q

-- `lacp_port_link_change`: `True` is 1, and only 0 is false.
unfoldable pub port_link_change : ℕ → World → ℕ → ℕ → Reply
unfolding set_link
port_link_change fuel w port_index link_status = elim (port_find w port_index) [
  | none ↦ returns (w, m_lacp_not_enable)
  | some p ↦
      if (if (w.cell p).port_enabled then 1 else 0) == link_status
      then returns (w, 0)
      else (update fuel
            (port_set_reselect (modify_port w p (set_link w (not (link_status == 0)) p)) (some p))
          >>= with_code 0)
]

-- `lacp_sys_cfg_t`.
pub record SysCfg : Type 0 where
  pub field_mask : ℕ
  pub number_of_ports : ℕ
  pub ports : Bitmap
  pub priority : ℕ
  pub sys_mac : Mac
  pub short_period : ℕ
  pub long_period : ℕ
  pub period : ℕ

unfoldable pub add_port : Bitmap → World → ℕ → Outcome World
add_port ports w i =
    if in_bitmap ports i
    then elim (port_create w i) [ none ↦ returns w | some v ↦ returns v ]
    else returns w

unfoldable pub del_port : Bitmap → World → ℕ → Outcome World
del_port ports w i = if in_bitmap ports i then port_delete w (port_find w i) else returns w

-- The assignments to the system: the first of the fields that the mask names.
unfoldable pub set_sys : SysCfg → LacpSys → LacpSys
set_sys cfg s =
    if has_field cfg.field_mask 4
    then record s { priority = u16 cfg.priority }
    else if has_field cfg.field_mask 8
    then record s { slow_periodic_time = u16 cfg.long_period }
    else if has_field cfg.field_mask 16
    then record s { fast_periodic_time = u16 cfg.short_period }
    else if has_field cfg.field_mask 32
    then record s { lacp_timeout = cfg.period }
    else s

abbrev pub refresh_port : LacpSys → Port → Port
refresh_port s p = record p {
  actor = record (p.actor) {
    system_priority = s.priority;
    state = set_bit p.actor.state tmt (not (s.lacp_timeout == 0));
  };
  ntt = true;
}

-- `_lacp_port_update_info`.
unfoldable pub port_update_info : List ℕ → World → World
port_update_info [] w = w
port_update_info (p ∷ ps) w = port_update_info ps (modify_port w p (refresh_port w.sys))

-- `lacp_sys_set_cfg`; it returns 0.
unfoldable pub sys_set_cfg : ℕ → SysCfg → World → Outcome World
unfolding add_port del_port set_sys port_update_info
sys_set_cfg fuel cfg w = do
  u ← if has_field cfg.field_mask 1 then for_ports (add_port cfg.ports) port_max 0 w else returns w
  v ←
      if has_field cfg.field_mask 2
      then for_ports (del_port cfg.ports) port_max 0 u
      else returns (record u { sys = set_sys cfg u.sys })
  update fuel (port_update_info v.sys.ports v)
