-- ===== src/Settle/MuxRound.antt =====
-- lacp_mux.c: a state that the mux machine enters lowers its potential.
use lacp.Base.{ℕ, ◌+◌, ◌*◌, ◌<◌, ◌≡◌, Bool, true, false, if◌then◌else◌, Option, none, some, arith}
use lacp.Types.{LacpSys, Port, MuxState}
use lacp.Mux.{enter_port, check_port}
use lacp.Statmch.{mux, clear_change_state}
use lacp.Settle.{mux_potential, mux_rank}

abbrev pub mux_value : MuxState → Bool → Port → ℕ
mux_value s changing p = 2 * mux_rank s p + (if changing then 1 else 0)

-- The potential once the conditions have been checked, with the hop that they ask for.
abbrev pub mux_hopped : Option MuxState → Port → ℕ
mux_hopped none p = mux_value p.mux.state false p
mux_hopped (some s) p = mux_value s true p

abbrev pub mux_checked : Bool → Port → ℕ
mux_checked ready p = mux_hopped (check_port ready p) p

-- Entering a state and checking the conditions lowers the potential.
pub mux_drop :
    (s : MuxState) (ready : Bool) (sys : LacpSys) (p : Port)
    → p.mux.state ≡ s
    → mux_checked ready (clear_change_state mux (enter_port s sys p)) < mux_value s true p
unfolding check_port enter_port
mux_drop MuxState.begin ready sys p e = ground arith
mux_drop MuxState.detached ready sys p e = ground arith
mux_drop MuxState.disable ready sys p e = ground arith
mux_drop MuxState.waiting ready sys p e = ground arith
mux_drop MuxState.ready_n ready sys p e = ground arith
mux_drop MuxState.attached ready sys p e = ground arith
mux_drop MuxState.rx_tx ready sys p e = ground arith

-- A hop from rest lowers it too.
pub mux_hop_drop :
    (ready : Bool) (p : Port) (s : MuxState)
    → p.mux.change_state ≡ false
    → check_port ready p ≡ some s
    → mux_value s true p < mux_potential p
unfolding check_port
mux_hop_drop ready p s h e = ground arith
