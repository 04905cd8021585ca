-- ===== src/Create.antt =====
-- lacp_lib/LACP/lacp_port.c and the initial values of lacp_api.c: ports are created and deleted.
pub mod Table
use lacp.Base.{
  ℕ, ◌+◌, Bool, true, false, not, ◌==◌, if◌then◌else◌, Option, none, some, List, [], ◌∷◌, elem,
  update, replicate,
}
use lacp.State.{act, tmt, agg, syn, col, dis, def, exp, set_bit, zero_state}
use lacp.Types.{
  PortInfo, Host, Port, LacpSys, World, RxState, SelState, MuxState, TxState, modify_port, u16,
  Outcome, returns, crashes,
}
use lacp.Ssp.{get_mac, get_port_oper_speed, get_port_oper_duplex}
use lacp.Statmch.{state_mach_create}

-- `calloc` leaves every field 0.
abbrev pub zero_info : PortInfo
zero_info = record {
  system_priority = 0;
  system_mac = replicate 6 0;
  key = 0;
  port_priority = 0;
  port_no = 0;
  state = zero_state;
}

-- `lacp_port_get_actor_init`, on a structure that is all 0.
unfoldable pub get_actor_init : Host → ℕ → PortInfo
unfolding get_mac
get_actor_init h port_index = record {
  port_no = u16 (port_index + 1);
  system_mac = get_mac h h.local_octets;
  key = 0;
  system_priority = 32768;
  port_priority = 16384;
  state =
      let s1 = set_bit zero_state act true in
      let s2 = set_bit s1 tmt false in
      let s3 = set_bit s2 agg false in
      let s4 = set_bit s3 syn false in let s5 = set_bit s4 def true in set_bit s5 exp false;
}

-- `lacp_port_get_partner_init`.
unfoldable pub get_partner_init : ℕ → PortInfo
get_partner_init port_index = record {
  port_priority = 16384;
  port_no = u16 (port_index + 1);
  system_priority = 32768;
  system_mac = replicate 6 0;
  key = u16 (port_index + 1);
  state =
      let s1 = set_bit zero_state act false in
      let s2 = set_bit s1 tmt false in
      let s3 = set_bit s2 agg false in
      let s4 = set_bit s3 syn true in
      let s5 = set_bit s4 col true in
      let s6 = set_bit s5 dis true in let s7 = set_bit s6 def true in set_bit s7 exp false;
}

-- `lacp_port_init`.
unfoldable pub port_init : LacpSys → Port → Port
port_init sys p = record p {
  actor_admin = record (p.actor_admin) {
    system_priority = sys.priority;
    state = set_bit p.actor_admin.state tmt (not (sys.lacp_timeout == 0));
  };
  current_while = 0;
  periodic_timer = 0;
  wait_while = 0;
}

-- The structure that `lacp_port_create` fills in, before `lacp_port_init`.
unfoldable pub new_port : World → ℕ → Port
unfolding get_actor_init get_partner_init state_mach_create
new_port w i = record {
  rx = state_mach_create RxState.begin;
  sel = state_mach_create SelState.begin;
  mux = state_mach_create MuxState.begin;
  tx = state_mach_create TxState.begin;
  actor = zero_info;
  partner = zero_info;
  actor_admin = get_actor_init w.host i;
  partner_admin = get_partner_init i;
  msg_actor = zero_info;
  msg_partner = zero_info;
  current_while = 0;
  periodic_timer = 0;
  wait_while = 0;
  master_port = i;
  port_enabled = false;
  port_moved = false;
  lacp_enabled = false;
  selected = false;
  standby = false;
  speed = get_port_oper_speed w.stub i;
  duplex = get_port_oper_duplex w.stub i;
  agg_id = 0;
  rcvd_lacpdu = false;
  ntt = false;
  ready_n = false;
  hold_count = 0;
  tx_lacpdu_cnt = 0;
  rx_lacpdu_cnt = 0;
}

-- `lacp_port_create`: `none` where it returns the null pointer.
unfoldable pub port_create : World → ℕ → Option World
unfolding new_port port_init
port_create w i =
    if elem i w.sys.ports
    then none
    else some (record w {
      sys = record (w.sys) { ports = i ∷ w.sys.ports };
      cell = update w.cell i (port_init w.sys (new_port w i));
    })

-- The loop of `lacp_port_delete` over the linked list.
unfoldable pub unlink : ℕ → List ℕ → List ℕ
unlink port [] = []
unlink port (p ∷ ps) = if p == port then ps else p ∷ unlink port ps

-- `lacp_port_delete`, which reads through its argument without a test.
unfoldable pub port_delete : World → Option ℕ → Outcome World
unfolding unlink
port_delete w none = crashes
port_delete w (some port) =
    returns (record w { sys = record (w.sys) { ports = unlink port w.sys.ports } })

-- `_lacp_port_find`.
unfoldable pub port_find : World → ℕ → Option ℕ
port_find w i = if elem i w.sys.ports then some i else none
