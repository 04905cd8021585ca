-- ===== src/Settle/RxRound.antt =====
-- lacp_rx.c: a state that the receive machine enters lowers its potential.
use lacp.Base.{ℕ, ◌<◌, ◌≡◌, true, false, Option, none, some, arith}
use lacp.Types.{LacpSys, Port, RxState}
use lacp.Rx.{
  enter_initialize, enter_port_disabled, enter_lacp_disabled, enter_expired, enter_defaulted,
  enter_current, check_conditions,
}
use lacp.Statmch.{rx, clear_change_state}
use lacp.Settle.{rx_value, rx_potential}

-- What entering a state does to the port itself, once `update_selected` is done.
abbrev pub enter_port : RxState → LacpSys → Port → Port
enter_port RxState.begin sys p = enter_initialize p
enter_port RxState.initialize sys p = enter_initialize p
enter_port RxState.port_disabled sys p = enter_port_disabled p
enter_port RxState.lacp_disabled sys p = enter_lacp_disabled p
enter_port RxState.expired sys p = enter_expired sys p
enter_port RxState.defaulted sys p = enter_defaulted p
enter_port RxState.current sys p = enter_current sys p

-- What the receive machine never writes in its own port, and its own state.
pub record RxFrame (p q : Port) : Type 0 where
  pub rx_same : q.rx ≡ p.rx
  pub lacp_same : q.lacp_enabled ≡ p.lacp_enabled
  pub agg_same : q.agg_id ≡ p.agg_id
  pub sel_same : q.sel ≡ p.sel
  pub mux_same : q.mux ≡ p.mux
  pub tx_same : q.tx ≡ p.tx

pub enter_frame : (s : RxState) (sys : LacpSys) (p : Port) → RxFrame p (enter_port s sys p)
unfolding enter_initialize enter_port_disabled enter_lacp_disabled enter_expired enter_defaulted
    enter_current
enter_frame RxState.begin sys p = ground arith
enter_frame RxState.initialize sys p = ground arith
enter_frame RxState.port_disabled sys p = ground arith
enter_frame RxState.lacp_disabled sys p = ground arith
enter_frame RxState.expired sys p = ground arith
enter_frame RxState.defaulted sys p = ground arith
enter_frame RxState.current sys p = ground arith

-- The potential once the conditions have been checked, with the hop that they ask for.
abbrev pub rx_hopped : Option RxState → Port → ℕ
rx_hopped none p = rx_value p.rx.state false p
rx_hopped (some s) p = rx_value s true p

abbrev pub rx_checked : Port → ℕ
rx_checked p = rx_hopped (check_conditions p) p

-- Entering a state and checking the conditions lowers the potential, if the timeouts are not 0.
pub rx_drop :
    (s : RxState) (sys : LacpSys) (p : Port)
    → 0 < sys.short_timeout_time
    → 0 < sys.long_timeout_time
    → p.rx.state ≡ s
    → rx_checked (clear_change_state rx (enter_port s sys p)) < rx_value s true p
unfolding check_conditions enter_initialize enter_port_disabled enter_lacp_disabled enter_expired
    enter_defaulted enter_current
rx_drop RxState.begin sys p h k e = ground arith
rx_drop RxState.initialize sys p h k e = ground arith
rx_drop RxState.port_disabled sys p h k e = ground arith
rx_drop RxState.lacp_disabled sys p h k e = ground arith
rx_drop RxState.expired sys p h k e = ground arith
rx_drop RxState.defaulted sys p h k e = ground arith
rx_drop RxState.current sys p h k e = ground arith

-- A hop from rest lowers it too.
pub rx_hop_drop :
    (p : Port) (s : RxState)
    → p.rx.change_state ≡ false
    → check_conditions p ≡ some s
    → rx_value s true p < rx_potential p
unfolding check_conditions
rx_hop_drop p s h e = ground arith
