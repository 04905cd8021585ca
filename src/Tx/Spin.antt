-- ===== src/Tx/Spin.antt =====
-- lacp_tx.c: the transmit machine with a slow period of 0.
use lacp.Base.{ℕ, zero, suc, ◌+◌, ◌≡◌, refl, ap, ◌∙◌, ◌⊎◌, true, false, none, arith, ◌||◌}
use lacp.State.{act, tmt, get_bit}
use lacp.Types.{World, Port, TxState, begin, no_periodic, periodic_tx, idle, tx}
use lacp.Statmch.{Machine, change_state, round, check_condition, hop_2_state}
use lacp.Tx.{enter_at, enter_state, check_conditions, enter_periodic_tx}

-- The port transmits, its partner asks for the slow rate, and the machine is in PERIODIC_TX, or
-- in IDLE with its timer out.
pub record Spins (p : Port) : Type 0 where
  pub lacp_on : p.lacp_enabled ≡ true
  pub link_up : p.port_enabled ≡ true
  pub active : (get_bit p.actor.state act || get_bit p.partner.state act) ≡ true
  pub slow : get_bit p.partner.state tmt ≡ false
  pub changing : p.tx.change_state ≡ true
  pub place : (p.tx.state ≡ periodic_tx) ⊎ ((p.tx.state ≡ idle) × (p.periodic_timer ≡ 0))

round_at :
    (s : TxState) (w : World) (i : ℕ)
    → (w.cell i).tx.state ≡ s
    → w.sys.slow_periodic_time ≡ 0
    → Spins (w.cell i)
    → Spins ((round Machine.tx w i).cell i) × ((round Machine.tx w i).sys ≡ w.sys)
unfolding round check_condition check_conditions enter_state enter_at enter_periodic_tx hop_2_state
round_at begin w i e z h = ground arith
round_at no_periodic w i e z h = ground arith
round_at periodic_tx w i e z h = ground arith
round_at idle w i e z h = ground arith
round_at tx w i e z h = ground arith

-- With a slow period of 0, `lacp_change_state` never returns for the transmit machine of a port
-- that transmits at the slow rate: whatever fuel is given, it runs out.
pub change_state-Spins :
    (fuel : ℕ) (w : World) (i loops : ℕ)
    → w.sys.slow_periodic_time ≡ 0
    → Spins (w.cell i)
    → change_state fuel Machine.tx w i loops ≡ none
unfolding change_state
change_state-Spins zero w i loops z h = refl
change_state-Spins (suc fuel) w i loops z h =
    let (k, s) = round_at (w.cell i).tx.state w i refl z h in
    let up = h.changing in
    rw (up, change_state)
      (change_state-Spins fuel (round Machine.tx w i) i (loops + 1)
        (ap (λ y. y.slow_periodic_time) s ∙ z) k)
