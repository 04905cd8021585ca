-- ===== src/Tx.antt =====
-- lacp_lib/LACP/lacp_tx.c: the transmit machine. The trace calls are left out.
pub mod Spin
pub mod Hold
pub mod Wire
use lacp.Base.{
  ℕ, ◌+◌, Bool, true, false, not, ◌&&◌, ◌||◌, ◌==◌, ltb, if◌then◌else◌, Option, none, some, List,
  [], ◌∷◌, replicate,
}
use lacp.State.{act, tmt, get_bit}
use lacp.Types.{
  PortInfo, LacpPdu, Port, LacpSys, Host, World, TxState, begin, no_periodic, periodic_tx, idle, tx,
  modify_port, u32,
}
use lacp.Ssp.{get_mac, tx_pdu}

-- A port's information in network order, as `tx_lacpdu` writes it field by field.
abbrev pub info_to_net : Host → PortInfo → PortInfo
info_to_net h p = record {
  system_priority = h.htons p.system_priority;
  system_mac = p.system_mac;
  key = h.htons p.key;
  port_priority = h.htons p.port_priority;
  port_no = h.htons p.port_no;
  state = p.state;
}

-- The frame that `tx_lacpdu` fills in.
unfoldable pub make_lacpdu : Host → Port → LacpPdu
unfolding get_mac
make_lacpdu h p = record {
  slow_protocols_address = 0x01 ∷ 0x80 ∷ 0xc2 ∷ 0x00 ∷ 0x00 ∷ 0x02 ∷ [];
  src_address = get_mac h (replicate 6 0);
  ethertype = h.htons 0x8809;
  protocol_subtype = 1;
  protocol_version = 1;
  type_actor = 1;
  len_actor = 20;
  actor = info_to_net h p.actor;
  type_partner = 2;
  len_partner = 20;
  partner = info_to_net h p.partner;
  type_collector = 3;
  len_collector = 16;
  collector_max_delay = h.htons 10;
}

-- `M_LACP_NOT_ENABLE`.
abbrev pub m_lacp_not_enable : ℕ
m_lacp_not_enable = 2

unfoldable pub tx_lacpdu : World → ℕ → World × ℕ
unfolding make_lacpdu tx_pdu
tx_lacpdu w i = if not (w.cell i).lacp_enabled then (w, m_lacp_not_enable) else (
  tx_pdu (modify_port w i (λ p. record p { tx_lacpdu_cnt = u32 (p.tx_lacpdu_cnt + 1) })) i
      (make_lacpdu w.host (w.cell i)),
  0,
)

unfoldable pub enter_no_periodic : Port → Port
enter_no_periodic p = record p { periodic_timer = 0; hold_count = 0 }

-- `LACP_LONG_TIMEOUT` is false.
unfoldable pub enter_periodic_tx : LacpSys → Port → Port
enter_periodic_tx sys p = record p {
  ntt = true;
  periodic_timer =
      if not (get_bit p.partner.state tmt) then sys.slow_periodic_time else sys.fast_periodic_time;
}

unfoldable pub enter_tx : Port → Port
enter_tx p = record p { hold_count = u32 (p.hold_count + 1); ntt = false }

unfoldable pub enter_at : TxState → World → ℕ → World
unfolding enter_no_periodic enter_periodic_tx enter_tx tx_lacpdu
enter_at begin w i = modify_port w i enter_no_periodic
enter_at no_periodic w i = modify_port w i enter_no_periodic
enter_at periodic_tx w i = modify_port w i (enter_periodic_tx w.sys)
enter_at idle w i = w
enter_at tx w i = modify_port (tx_lacpdu w i).0 i enter_tx

-- `lacp_tx_enter_state`.
unfoldable pub enter_state : World → ℕ → World
unfolding enter_at
enter_state w i = enter_at (w.cell i).tx.state w i

abbrev pub is_begin : TxState → Bool
is_begin begin = true
is_begin _ = false

abbrev pub is_no_periodic : TxState → Bool
is_no_periodic no_periodic = true
is_no_periodic _ = false

-- The test under which the port does not transmit at all.
unfoldable pub must_not_transmit : Port → Bool
must_not_transmit p =
    is_begin p.tx.state
    || not p.lacp_enabled
    || not p.port_enabled
    || (not (get_bit p.actor.state act) && not (get_bit p.partner.state act))

unfoldable pub check_at : TxState → LacpSys → Port → Option TxState
check_at begin sys p = none
check_at no_periodic sys p = some idle
check_at periodic_tx sys p = some idle
check_at idle sys p =
    if p.periodic_timer == 0
    then some periodic_tx
    else if p.ntt && ltb p.hold_count sys.tx_hold_count
    then some tx
    else none
check_at tx sys p = some idle

-- `lacp_tx_check_conditions`.
unfoldable pub check_conditions : LacpSys → Port → Option TxState
unfolding check_at must_not_transmit
check_conditions sys p =
    if must_not_transmit p
    then (if is_no_periodic p.tx.state then none else some no_periodic)
    else check_at p.tx.state sys p
