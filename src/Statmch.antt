-- ===== src/Statmch.antt =====
-- lacp_lib/LACP/lacp_statmch.c: the generic state machine. A machine is one of the four of a
-- port; its callbacks are the functions of its own module. What only feeds the trace is left out.
pub mod Keeps
use lacp.Base.{ℕ, zero, suc, ◌+◌, Bool, true, false, Option, none, some}
use lacp.Types.{StateMach, RxState, SelState, MuxState, TxState, LacpSys, Port, World, modify_port}
use lacp.Rx
use lacp.Sel
use lacp.Mux
use lacp.Tx

pub data Machine : Type 0 where
  rx sel mux tx : Machine

-- `lacp_hop_2_state`, which returns True.
unfoldable pub hop_2_state : {S : Type 0} → StateMach S → S → StateMach S
hop_2_state m s = record m { state = s; change_state = true }

-- `lacp_state_mach_create`, for a machine whose states begin with `s`.
unfoldable pub state_mach_create : {S : Type 0} → S → StateMach S
state_mach_create s = record { state = s; change_state = false; debug = false }

-- `fsm->change_state`.
abbrev pub change_state_of : Machine → Port → Bool
change_state_of rx p = p.rx.change_state
change_state_of sel p = p.sel.change_state
change_state_of mux p = p.mux.change_state
change_state_of tx p = p.tx.change_state

-- `fsm->change_state = False`.
abbrev pub clear_change_state : Machine → Port → Port
clear_change_state rx p = record p { rx = record (p.rx) { change_state = false } }
clear_change_state sel p = record p { sel = record (p.sel) { change_state = false } }
clear_change_state mux p = record p { mux = record (p.mux) { change_state = false } }
clear_change_state tx p = record p { tx = record (p.tx) { change_state = false } }

-- The callback `concreteEnterState`.
abbrev pub enter_state : Machine → World → ℕ → World
enter_state rx w i = Rx.enter_state w i
enter_state sel w i = Sel.enter_state w i
enter_state mux w i = Mux.enter_state w i
enter_state tx w i = Tx.enter_state w i

abbrev pub hop_rx : World → ℕ → Option RxState → World × Bool
hop_rx w i none = (w, false)
hop_rx w i (some s) = (modify_port w i (λ p. record p { rx = hop_2_state p.rx s }), true)

abbrev pub hop_sel : World → ℕ → Option SelState → World × Bool
hop_sel w i none = (w, false)
hop_sel w i (some s) = (modify_port w i (λ p. record p { sel = hop_2_state p.sel s }), true)

abbrev pub hop_mux : World → ℕ → Option MuxState → World × Bool
hop_mux w i none = (w, false)
hop_mux w i (some s) = (modify_port w i (λ p. record p { mux = hop_2_state p.mux s }), true)

abbrev pub hop_tx : World → ℕ → Option TxState → World × Bool
hop_tx w i none = (w, false)
hop_tx w i (some s) = (modify_port w i (λ p. record p { tx = hop_2_state p.tx s }), true)

-- `lacp_check_condition`: the callback `concreteCheckCondition`, with the hop that it makes. Where
-- it returns True the hop has set `change_state` already.
unfoldable pub check_condition : Machine → World → ℕ → World × Bool
unfolding hop_2_state
check_condition rx w i = hop_rx w i (Rx.check_conditions (w.cell i))
check_condition sel w i = hop_sel w i (Sel.check_conditions (w.cell i))
check_condition mux w i = hop_mux w i (Mux.check_conditions w i)
check_condition tx w i = hop_tx w i (Tx.check_conditions w.sys (w.cell i))

-- The body of the loop of `lacp_change_state`.
unfoldable pub round : Machine → World → ℕ → World
unfolding check_condition
round m w i = (check_condition m (modify_port (enter_state m w i) i (clear_change_state m)) i).0

-- `lacp_change_state`: the loop, with fuel; `loops` is `number_of_loops`. `none` means that the
-- fuel ran out.
unfoldable pub change_state : ℕ → Machine → World → ℕ → ℕ → Option (World × ℕ)
unfolding round
change_state zero m w i loops = none
change_state (suc fuel) m w i loops = elim (change_state_of m (w.cell i)) [
  | false ↦ some (w, loops)
  | true ↦ change_state fuel m (round m w i) i (loops + 1)
]
