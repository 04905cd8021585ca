-- ===== src/Mux.antt =====
-- lacp_lib/LACP/lacp_mux.c: the mux machine, which attaches a port to its aggregation and turns
-- collecting and distributing on and off. The trace calls are left out.
pub mod Switch
use lacp.Base.{
  ℕ, Bool, true, false, not, ◌&&◌, ◌||◌, ◌==◌, if◌then◌else◌, Option, none, some, List, [], ◌∷◌,
}
use lacp.State.{syn, col, dis, get_bit, set_bit}
use lacp.Types.{
  Port, LacpSys, Stub, World, MuxState, begin, detached, disable, waiting, ready_n, attached, rx_tx,
  modify_port,
}
use lacp.Ssp.{attach_port, set_port_cd}

-- `sys_is_ready`: the loop returns False at the first port that is not ready.
unfoldable pub sys_is_ready : (ℕ → Port) → List ℕ → Port → Bool
sys_is_ready cell [] port = true
sys_is_ready cell (p ∷ ps) port =
    let rest = sys_is_ready cell ps port in
    if not (port.agg_id == (cell p).agg_id)
    then rest
    else if (cell p).selected && not (cell p).standby && not (cell p).ready_n
    then false
    else rest

-- What a state does to the port itself.
unfoldable pub enter_port : MuxState → LacpSys → Port → Port
enter_port begin sys p = record p {
  actor = record (p.actor) {
    state = set_bit (set_bit (set_bit p.actor.state syn false) col true) dis true;
  };
  ntt = false;
}
enter_port disable sys p = record p {
  actor = record (p.actor) {
    state = set_bit (set_bit (set_bit p.actor.state syn false) col true) dis true;
  };
  ntt = false;
}
enter_port detached sys p = record p {
  actor = record (p.actor) {
    state = set_bit (set_bit (set_bit p.actor.state syn false) col false) dis false;
  };
  ntt = true;
}
enter_port waiting sys p = record p { wait_while = sys.aggregate_wait_time; ready_n = false }
enter_port ready_n sys p = record p { ready_n = true }
enter_port attached sys p = record p {
  actor = record (p.actor) {
    state = set_bit (set_bit (set_bit p.actor.state syn true) col false) dis false;
  };
  ntt = true;
}
enter_port rx_tx sys p = record p {
  actor = record (p.actor) { state = set_bit (set_bit p.actor.state dis true) col true };
  ntt = true;
}

-- What it does to the switch, for the port with index `i` and aggregation `agg_id`:
-- `attach_mux_to_aggregator`, `detach_mux_from_aggregator`, and `enable_collecting_distributing`,
-- `disable_collecting_distributing`.
unfoldable pub enter_switch : MuxState → ℕ → ℕ → Stub → Stub
unfolding attach_port set_port_cd
enter_switch begin i agg_id s = set_port_cd (attach_port s i false agg_id) i 1
enter_switch disable i agg_id s = set_port_cd (attach_port s i false agg_id) i 1
enter_switch detached i agg_id s = set_port_cd (attach_port s i false agg_id) i 0
enter_switch waiting i agg_id s = s
enter_switch ready_n i agg_id s = s
enter_switch attached i agg_id s = set_port_cd (attach_port s i true agg_id) i 0
enter_switch rx_tx i agg_id s = set_port_cd s i 1

-- `lacp_mux_enter_state`.
unfoldable pub enter_state : World → ℕ → World
unfolding enter_port enter_switch
enter_state w i =
    let p = w.cell i in
    record (modify_port w i (enter_port p.mux.state w.sys)) {
      stub = enter_switch p.mux.state i p.agg_id w.stub;
    }

-- The switch of `lacp_mux_check_conditions`; `ready` is what `sys_is_ready` returns. The case
-- MUX_DISABLE falls through to MUX_DETACHED.
unfoldable pub check_at : MuxState → Bool → Port → Option MuxState
check_at begin ready p = some detached
check_at disable ready p =
    if p.lacp_enabled
    then some detached
    else if p.selected && not p.standby
    then some waiting
    else none
check_at detached ready p = if p.selected && not p.standby then some waiting else none
check_at waiting ready p = if p.wait_while == 0 then some ready_n else none
check_at ready_n ready p =
    if p.selected && not p.standby && ready
    then some attached
    else if not p.selected || p.standby
    then some detached
    else none
check_at attached ready p =
    if p.selected && not p.standby && get_bit p.partner.state syn
    then some rx_tx
    else if not p.selected || p.standby
    then some detached
    else none
check_at rx_tx ready p =
    if not p.selected || p.standby || not (get_bit p.partner.state syn) then some attached else none

abbrev pub is_disable : MuxState → Bool
is_disable disable = true
is_disable _ = false

unfoldable pub check_port : Bool → Port → Option MuxState
unfolding check_at
check_port ready p =
    if not p.lacp_enabled
    then (if is_disable p.mux.state then none else some disable)
    else check_at p.mux.state ready p

-- `lacp_mux_check_conditions`.
unfoldable pub check_conditions : World → ℕ → Option MuxState
unfolding check_port
check_conditions w i = check_port (sys_is_ready w.cell w.sys.ports (w.cell i)) (w.cell i)
