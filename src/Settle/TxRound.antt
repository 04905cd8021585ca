-- ===== src/Settle/TxRound.antt =====
-- lacp_tx.c: a state that the transmit machine enters lowers its potential.
use lacp.Base.{ℕ, ◌+◌, ◌<◌, ◌≡◌, Bool, true, false, if◌then◌else◌, Option, none, some, arith}
use lacp.Types.{LacpSys, Port, TxState, u32}
use lacp.Tx.{enter_no_periodic, enter_periodic_tx, enter_tx, check_conditions}
use lacp.Statmch.{tx, clear_change_state}
use lacp.Settle.{tx_potential, tx_blocked, tx_blocked_value, tx_open_value}

-- What entering a state does to the port itself.
abbrev pub enter_port : TxState → LacpSys → Port → Port
enter_port TxState.begin sys p = enter_no_periodic p
enter_port TxState.no_periodic sys p = enter_no_periodic p
enter_port TxState.periodic_tx sys p = enter_periodic_tx sys p
enter_port TxState.idle sys p = p
enter_port TxState.tx sys p =
    if p.lacp_enabled
    then enter_tx (record p { tx_lacpdu_cnt = u32 (p.tx_lacpdu_cnt + 1) })
    else enter_tx p

abbrev pub tx_value : LacpSys → TxState → Bool → Port → ℕ
tx_value sys s changing p =
    if tx_blocked p then tx_blocked_value s changing else tx_open_value s changing sys p

-- The potential once the conditions have been checked, with the hop that they ask for.
abbrev pub tx_hopped : LacpSys → Option TxState → Port → ℕ
tx_hopped sys none p = tx_value sys p.tx.state false p
tx_hopped sys (some s) p = tx_value sys s true p

abbrev pub tx_checked : LacpSys → Port → ℕ
tx_checked sys p = tx_hopped sys (check_conditions sys p) p

-- Entering a state and checking the conditions lowers the potential, if the periods are not 0.
pub tx_drop :
    (s : TxState) (sys : LacpSys) (p : Port)
    → 0 < sys.slow_periodic_time
    → 0 < sys.fast_periodic_time
    → p.tx.state ≡ s
    → tx_checked sys (clear_change_state tx (enter_port s sys p)) < tx_value sys s true p
unfolding check_conditions enter_no_periodic enter_periodic_tx enter_tx
tx_drop TxState.begin sys p h k e = ground arith
tx_drop TxState.no_periodic sys p h k e = ground arith
tx_drop TxState.periodic_tx sys p h k e = ground arith
tx_drop TxState.idle sys p h k e = ground arith
tx_drop TxState.tx sys p h k e = ground arith

-- A hop from rest lowers it too.
pub tx_hop_drop :
    (sys : LacpSys) (p : Port) (s : TxState)
    → p.tx.change_state ≡ false
    → check_conditions sys p ≡ some s
    → tx_value sys s true p < tx_potential sys p
unfolding check_conditions
tx_hop_drop sys p s h e = ground arith
