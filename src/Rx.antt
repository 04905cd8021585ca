-- ===== src/Rx.antt =====
-- lacp_lib/LACP/lacp_rx.c: the receive machine. The trace calls are left out.
pub mod Silence
pub mod Frame
pub mod Moved
pub mod Steady
use lacp.Base.{
  ℕ, ◌+◌, Bool, true, false, not, ◌&&◌, ◌||◌, ◌==◌, eqb, if◌then◌else◌, Option, none, some, List,
  [], ◌∷◌,
}
use lacp.State.{LacpState, act, tmt, agg, syn, def, exp, get_bit, set_bit, cmp_bit}
use lacp.Types.{
  PortInfo, LacpPdu, Port, LacpSys, Host, World, RxState, begin, initialize, port_disabled, expired,
  current, lacp_disabled, defaulted, modify_port, mac_eq, u32,
}
use lacp.Port.{copy_info, copy_info_from_net, port_set_reselect}

abbrev pub is_port_disabled : RxState → Bool
is_port_disabled port_disabled = true
is_port_disabled _ = false

abbrev pub is_begin : RxState → Bool
is_begin begin = true
is_begin _ = false

unfoldable pub same_port : PortInfo → PortInfo → Bool
same_port a b = a.port_no == b.port_no && mac_eq a.system_mac b.system_mac

unfoldable pub same_partner : PortInfo → PortInfo → Bool
same_partner a b =
    a.port_priority == b.port_priority
    && a.port_no == b.port_no
    && a.system_priority == b.system_priority
    && mac_eq a.system_mac b.system_mac
    && a.key == b.key
    && eqb (get_bit a.state agg) (get_bit b.state agg)

-- The loop of `lacp_rxm_rx_lacpdu`, which stops at the first port whose partner has moved.
unfoldable pub mark_moved : ℕ → List ℕ → World → World
mark_moved port [] w = w
mark_moved port (p ∷ ps) w =
    let rest = mark_moved port ps w in
    if p == port
    then rest
    else if is_port_disabled (w.cell p).rx.state
        && same_port (w.cell p).partner (w.cell port).msg_actor
    then modify_port w p (λ q. record q { port_moved = true })
    else rest

abbrev pub store_lacpdu : Host → LacpPdu → Port → Port
store_lacpdu h pdu p = record p {
  rcvd_lacpdu = true;
  msg_actor = copy_info_from_net h pdu.actor;
  msg_partner = copy_info_from_net h pdu.partner;
}

abbrev pub count_lacpdu : Port → Port
count_lacpdu p = record p { rx_lacpdu_cnt = u32 (p.rx_lacpdu_cnt + 1) }

-- It returns 0 on every path.
unfoldable pub rxm_rx_lacpdu : World → ℕ → LacpPdu → World
unfolding mark_moved
rxm_rx_lacpdu w port pdu =
    let counted = modify_port w port count_lacpdu in
    if not (w.cell port).lacp_enabled
    then counted
    else mark_moved port w.sys.ports (modify_port counted port (store_lacpdu w.host pdu))

abbrev pub actor_default : Port → Port
actor_default p = record p { actor = copy_info p.actor_admin }

abbrev pub set_actor : Port → LacpState → Port
set_actor p s = record p { actor = record (p.actor) { state = s } }

abbrev pub set_partner : Port → LacpState → Port
set_partner p s = record p { partner = record (p.partner) { state = s } }

unfoldable pub record_default : Port → Port
record_default p =
    let q = record p { partner = copy_info p.partner_admin } in
    set_actor q (set_bit q.actor.state def true)

-- The test of `update_partner_syn`.
unfoldable pub partner_matched : Port → Bool
unfolding same_partner
partner_matched p =
    (same_partner p.msg_partner p.actor || not (get_bit p.msg_actor.state agg))
    && (get_bit p.msg_actor.state act
        || (get_bit p.actor.state act && get_bit p.msg_partner.state act))

unfoldable pub update_partner_syn : Port → Port
update_partner_syn p =
    let q = if partner_matched p then p else record p { ntt = true } in
    set_partner q (set_bit q.partner.state syn (partner_matched p && get_bit p.msg_actor.state syn))

unfoldable pub update_selected : World → ℕ → World
update_selected w i =
    if not (same_partner (w.cell i).msg_actor (w.cell i).partner)
    then port_set_reselect (modify_port w i (λ p. record p { selected = false })) (some i)
    else w

unfoldable pub update_ntt : Port → Port
update_ntt p =
    if not (same_partner p.msg_partner p.actor)
      || cmp_bit p.msg_partner.state p.actor.state act
      || cmp_bit p.msg_partner.state p.actor.state tmt
      || cmp_bit p.msg_partner.state p.actor.state syn
      || cmp_bit p.msg_partner.state p.actor.state agg
    then record p { ntt = true }
    else p

unfoldable pub record_pdu : Port → Port
record_pdu p =
    let q = record p { partner = copy_info p.msg_actor } in
    set_actor q (set_bit q.actor.state def false)

unfoldable pub update_default_selected : Port → Port
update_default_selected p =
    if not (same_partner p.partner_admin p.partner)
    then set_actor (record p { selected = false }) (set_bit p.actor.state syn false)
    else p

-- `LACP_SHORT_TIMEOUT` is true.
unfoldable pub start_current_while_timer : LacpSys → Bool → Port → Port
start_current_while_timer sys timeout p = record p {
  current_while = if timeout then sys.short_timeout_time else sys.long_timeout_time;
}

-- The cases of `lacp_rx_enter_state`.
unfoldable pub enter_initialize : Port → Port
unfolding record_default
enter_initialize p =
    let q = record_default (actor_default (record p { selected = false })) in
    record (set_actor q (set_bit q.actor.state exp false)) { port_moved = false }

unfoldable pub enter_port_disabled : Port → Port
enter_port_disabled p = record (set_partner p (set_bit p.partner.state syn false)) {
  rcvd_lacpdu = false;
  current_while = 0;
  selected = false;
}

unfoldable pub enter_lacp_disabled : Port → Port
unfolding record_default
enter_lacp_disabled p =
    let q = record_default (record p { selected = false }) in
    set_partner q (set_bit q.partner.state agg false)

unfoldable pub enter_expired : LacpSys → Port → Port
unfolding start_current_while_timer
enter_expired sys p =
    let q = set_partner p (set_bit (set_bit p.partner.state syn false) tmt true) in
    let r = start_current_while_timer sys true q in set_actor r (set_bit r.actor.state exp true)

unfoldable pub enter_defaulted : Port → Port
unfolding record_default update_default_selected
enter_defaulted p =
    let q = record_default (update_default_selected p) in
    set_actor q (set_bit q.actor.state exp false)

-- What `RXM_CURRENT` does after `update_selected`.
unfoldable pub enter_current : LacpSys → Port → Port
unfolding update_ntt record_pdu update_partner_syn start_current_while_timer
enter_current sys p =
    let q = update_partner_syn (record_pdu (update_ntt p)) in
    let r = start_current_while_timer sys (get_bit q.actor.state tmt) q in
    record (set_actor r (set_bit r.actor.state exp false)) { rcvd_lacpdu = false }

unfoldable pub enter_at : RxState → World → ℕ → World
unfolding enter_initialize enter_port_disabled enter_lacp_disabled enter_expired enter_defaulted
    enter_current
enter_at begin w i = modify_port w i enter_initialize
enter_at initialize w i = modify_port w i enter_initialize
enter_at port_disabled w i = modify_port w i enter_port_disabled
enter_at lacp_disabled w i = modify_port w i enter_lacp_disabled
enter_at expired w i = modify_port w i (enter_expired w.sys)
enter_at defaulted w i = modify_port w i enter_defaulted
enter_at current w i = modify_port (update_selected w i) i (enter_current w.sys)

-- `lacp_rx_enter_state`.
unfoldable pub enter_state : World → ℕ → World
unfolding enter_at update_selected
enter_state w i = enter_at (w.cell i).rx.state w i

unfoldable pub check_at : RxState → Port → Option RxState
check_at begin p = some initialize
check_at initialize p = some port_disabled
check_at port_disabled p =
    if p.port_moved
    then some initialize
    else if p.port_enabled && p.lacp_enabled
    then some expired
    else if p.port_enabled && not p.lacp_enabled
    then some lacp_disabled
    else none
check_at lacp_disabled p = if p.port_enabled && p.lacp_enabled then some expired else none
check_at expired p =
    if p.current_while == 0 then some defaulted else if p.rcvd_lacpdu then some current else none
check_at current p =
    if p.current_while == 0 && not p.rcvd_lacpdu
    then some expired
    else if p.rcvd_lacpdu
    then some current
    else none
check_at defaulted p = if p.rcvd_lacpdu then some current else none

-- `lacp_rx_check_conditions`: `some s` where it returns `lacp_hop_2_state(fsm, s)`, `none` where
-- it returns False.
unfoldable pub check_conditions : Port → Option RxState
unfolding check_at
check_conditions p =
    if not p.port_enabled && not p.port_moved && not (is_begin p.rx.state)
    then (if is_port_disabled p.rx.state then none else some port_disabled)
    else check_at p.rx.state p
