-- ===== src/Settle.antt =====
-- lacp_lib/LACP/lacp_sys.c and lacp_statmch.c: why the loops over the state machines end. Each
-- machine of a port has a potential, a number that falls whenever the machine enters a state; a
-- child module for each machine proves that, and what the machine leaves alone.
pub mod Groups
pub mod Move
pub mod Reads
pub mod RxRound
pub mod RxMove
pub mod RxFalls
pub mod MuxRound
pub mod MuxFalls
pub mod SelFrame
pub mod SelFalls
pub mod Energy
pub mod Loop
pub mod Passes
pub mod Ends
pub mod Clock
pub mod TxRound
pub mod TxFalls
use lacp.Base.{ℕ, ◌+◌, ◌*◌, Bool, true, false, not, ◌&&◌, ◌||◌, ◌==◌, ltb, if◌then◌else◌}
use lacp.State.{act, syn, get_bit}
use lacp.Types.{LacpSys, Port, RxState, SelState, MuxState, TxState}

-- The receive machine: `changing` is its change_state.
abbrev pub rx_value : RxState → Bool → Port → ℕ
rx_value RxState.begin true p = 13
rx_value RxState.begin false p = 12
rx_value RxState.initialize true p = if p.port_enabled || p.port_moved then 9 else 3
rx_value RxState.initialize false p = if p.port_moved then 12 else if p.port_enabled then 8 else 2
rx_value RxState.port_disabled true p = if p.port_moved then 11 else if p.port_enabled then 7 else 1
rx_value RxState.port_disabled false p =
    if p.port_moved then 10 else if p.port_enabled then 6 else 0
rx_value RxState.lacp_disabled true p = if p.port_enabled || p.port_moved then 5 else 3
rx_value RxState.lacp_disabled false p = if p.port_enabled || p.port_moved then 4 else 2
rx_value RxState.expired true p =
    if p.port_enabled || p.port_moved then (if p.rcvd_lacpdu then 3 else 1) else 3
rx_value RxState.expired false p =
    if p.port_enabled || p.port_moved
    then (if p.current_while == 0 then 4 else if p.rcvd_lacpdu then 2 else 0)
    else 2
rx_value RxState.defaulted true p =
    if p.port_enabled || p.port_moved then (if p.rcvd_lacpdu then 3 else 1) else 3
rx_value RxState.defaulted false p =
    if p.port_enabled || p.port_moved then (if p.rcvd_lacpdu then 2 else 0) else 2
rx_value RxState.current true p = if p.port_enabled || p.port_moved then 1 else 3
rx_value RxState.current false p =
    if p.port_enabled || p.port_moved
    then (if p.rcvd_lacpdu then 2 else if p.current_while == 0 then 2 else 0)
    else 2

abbrev pub rx_potential : Port → ℕ
rx_potential p = rx_value p.rx.state p.rx.change_state p

abbrev pub sel_value : SelState → Bool → Bool → ℕ
sel_value SelState.begin changing selected = if changing then 5 else 4
sel_value SelState.init changing selected = if changing then 5 else 4
sel_value SelState.selection true selected = 1
sel_value SelState.selection false selected = if selected then 0 else 2

abbrev pub sel_potential : Port → ℕ
sel_potential p = sel_value p.sel.state p.sel.change_state p.selected

-- How many states the mux machine can still go through.
abbrev pub mux_rank : MuxState → Port → ℕ
mux_rank MuxState.begin p =
    if p.lacp_enabled then (if p.selected && not p.standby then 6 else 2) else 1
mux_rank MuxState.disable p =
    if p.lacp_enabled then (if p.selected && not p.standby then 6 else 2) else 0
mux_rank MuxState.detached p =
    if p.lacp_enabled then (if p.selected && not p.standby then 5 else 1) else 1
mux_rank MuxState.waiting p =
    if p.lacp_enabled then (if p.selected && not p.standby then 4 else 3) else 1
mux_rank MuxState.ready_n p =
    if p.lacp_enabled then (if p.selected && not p.standby then 3 else 2) else 1
mux_rank MuxState.attached p = if p.lacp_enabled then 2 else 1
mux_rank MuxState.rx_tx p =
    if p.lacp_enabled
    then (if p.selected && not p.standby && get_bit p.partner.state syn then 1 else 3)
    else 1

abbrev pub mux_potential : Port → ℕ
mux_potential p = 2 * mux_rank p.mux.state p + (if p.mux.change_state then 1 else 0)

abbrev pub tx_blocked : Port → Bool
tx_blocked p =
    not p.lacp_enabled
    || not p.port_enabled
    || (not (get_bit p.actor.state act) && not (get_bit p.partner.state act))

abbrev pub can_send : LacpSys → Port → Bool
can_send sys p = p.ntt && ltb p.hold_count sys.tx_hold_count

abbrev pub tx_open_value : TxState → Bool → LacpSys → Port → ℕ
tx_open_value TxState.begin changing sys p = if changing then 13 else 12
tx_open_value TxState.no_periodic changing sys p = if changing then 11 else 10
tx_open_value TxState.periodic_tx true sys p = 7
tx_open_value TxState.periodic_tx false sys p = if p.periodic_timer == 0 then 10 else 6
tx_open_value TxState.idle changing sys p =
    if p.periodic_timer == 0
    then (if changing then 9 else 8)
    else if can_send sys p
    then (if changing then 5 else 4)
    else if changing
    then 1
    else 0
tx_open_value TxState.tx true sys p = if p.periodic_timer == 0 then 11 else 3
tx_open_value TxState.tx false sys p =
    if p.periodic_timer == 0 then 10 else if can_send sys p then 6 else 2

abbrev pub tx_blocked_value : TxState → Bool → ℕ
tx_blocked_value TxState.no_periodic changing = if changing then 1 else 0
tx_blocked_value _ changing = if changing then 3 else 2

abbrev pub tx_potential : LacpSys → Port → ℕ
tx_potential sys p =
    if tx_blocked p
    then tx_blocked_value p.tx.state p.tx.change_state
    else tx_open_value p.tx.state p.tx.change_state sys p
