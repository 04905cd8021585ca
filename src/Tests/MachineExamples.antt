-- ===== src/Tests/MachineExamples.antt =====
-- The receive, mux and transmit machines at concrete ports.
use lacp.Base.{
  length, ◌≤◌, ◌+◌, ◌%◌, ◌^◌, if◌then◌else◌, [], ◌∷◌, ℕ, ◌≡◌, ◌≢◌, refl, inl, true, false, none,
  some, arith,
}
use lacp.Types.{mac_eq, World, Port, LacpPdu, RxState, MuxState, TxState, modify_port}
use lacp.Statmch.{Machine, change_state}
use lacp.Sys.{sys_create}
use lacp.Create.{zero_info}
use lacp.Mux
use lacp.Rx
use lacp.Rx.{check_conditions, enter_state, enter_defaulted, rxm_rx_lacpdu}
use lacp.Rx.Moved.{has_left, first_of, is_found, moved_if, in_host_order, rxm_rx_lacpdu-frame}
use lacp.Rx.Steady.{steady, enter_state-steady}
use lacp.Rx.Silence.{ticks, expires, after_expiry, silent_partner}
use lacp.Mux.Switch.{StepsFrom, change_state-InStep}
use lacp.Settle.Energy.{enough}
use lacp.Settle.Loop.{IsTimed}
use lacp.Tx.{must_not_transmit, make_lacpdu, tx_lacpdu}
use lacp.Tx.Hold.{IsHeld, change_state-IsHeld}
use lacp.Tx.Wire.{Speaks, tx_lacpdu-rxm_rx_lacpdu}
use lacp.Tx.Spin.{change_state-Spins}
use lacp.Tests.Worlds.{host, two, starting, active_state, agreeing, all_are, result}

abbrev mux_hopping : Port
mux_hopping = record starting {
  mux = record { state = MuxState.begin; change_state = true; debug = false };
}

unfoldable mux_after : World
unfolding change_state all_are
mux_after = result (change_state 9 Machine.mux (all_are mux_hopping) 0 0)

mux_run : change_state 9 Machine.mux (all_are mux_hopping) 0 0 ≡ some (mux_after, 2)
unfolding mux_after Mux.check_conditions Mux.enter_state
mux_run = refl

mux_begins : StepsFrom (all_are mux_hopping) 0
unfolding all_are
mux_begins = (λ e. cc, λ e. cc)

change_state-InStep_example : StepsFrom mux_after 0
change_state-InStep_example =
    change_state-InStep 9 (all_are mux_hopping) mux_after 0 0 2 mux_begins mux_run

abbrev transmitting : Port
transmitting = record starting {
  tx = record { state = TxState.tx; change_state = true; debug = false };
  actor = record zero_info { state = active_state };
  hold_count = 2;
  periodic_timer = 5;
}

tx_begins : IsHeld 3 transmitting
tx_begins = record { at_most = omega arith; about = λ a b. omega arith }

all-IsTimed : IsTimed (all_are transmitting)
unfolding all_are
all-IsTimed = record {
  short_timeout = omega arith;
  long_timeout = omega arith;
  slow_period = omega arith;
  fast_period = omega arith;
  has_agg = λ j h. refl;
}

change_state-IsHeld_example :
    (v : World) × (n : ℕ) × (change_state (enough 2) Machine.tx (all_are transmitting) 0 0
      ≡ some (v, n))
    × (length v.sent + 2 ≡ 0 + (v.cell 0).hold_count)
    × (length v.sent + 2 ≤ 0 + 3)
    × IsHeld v.sys.tx_hold_count (v.cell 0)
    × (must_not_transmit (v.cell 0) ≡ false)
unfolding all_are must_not_transmit
change_state-IsHeld_example =
    change_state-IsHeld (enough 2) (all_are transmitting) 0 0 (omega arith) all-IsTimed refl
      (omega arith) refl refl tx_begins

host-Speaks : Speaks host host
host-Speaks x h = omega arith

abbrev frame : LacpPdu
unfolding make_lacpdu
frame = make_lacpdu host starting

tx_lacpdu-rxm_rx_lacpdu_example :
    (pdu : LacpPdu) × ((tx_lacpdu two 0).0.sent ≡ (0, pdu) ∷ [])
    × (((rxm_rx_lacpdu two 1 pdu).cell 1).msg_actor ≡ starting.actor)
    × (((rxm_rx_lacpdu two 1 pdu).cell 1).msg_partner ≡ starting.partner)
    × (((rxm_rx_lacpdu two 1 pdu).cell 1).rcvd_lacpdu ≡ true)
unfolding two
tx_lacpdu-rxm_rx_lacpdu_example =
    tx_lacpdu-rxm_rx_lacpdu two two 0 1 host-Speaks
      (record {
        system_priority = omega arith;
        key = omega arith;
        port_priority = omega arith;
        port_no = omega arith;
      })
      (record {
        system_priority = omega arith;
        key = omega arith;
        port_priority = omega arith;
        port_no = omega arith;
      })
      refl refl

rxm_rx_lacpdu-frame_example :
    (rxm_rx_lacpdu two 0 frame).cell 0 ≡ (
      let counted = record (two.cell 0) {
        rx_lacpdu_cnt = ((two.cell 0).rx_lacpdu_cnt + 1) % 2 ^ 32;
      } in
      if (two.cell 0).lacp_enabled
      then record counted {
        rcvd_lacpdu = true;
        msg_actor = in_host_order two.host frame.actor;
        msg_partner = in_host_order two.host frame.partner;
      }
      else counted)
    × ((q : ℕ)
        → q ≢ 0
        → (rxm_rx_lacpdu two 0 frame).cell q ≡ (
            if (two.cell 0).lacp_enabled
            then moved_if
                (is_found
                  (first_of
                    (has_left two.cell 0 (in_host_order two.host frame.actor))
                    two.sys.ports)
                  q)
                (two.cell q)
            else two.cell q))
rxm_rx_lacpdu-frame_example = rxm_rx_lacpdu-frame two 0 frame

abbrev receiving : Port
receiving = record (agreeing 0) {
  rx = record { state = RxState.current; change_state = true; debug = false };
  msg_actor = (agreeing 0).partner;
  msg_partner = (agreeing 0).actor;
  port_enabled = true;
  current_while = 90;
}

enter_state-steady_example :
    enter_state (all_are receiving) 0
    ≡ modify_port (all_are receiving) 0 (steady (all_are receiving).sys)
unfolding all_are Rx.same_partner mac_eq
enter_state-steady_example =
    enter_state-steady (all_are receiving) 0 refl
      (record { known = refl; exact = refl; active = refl })

silent_partner_example :
    (check_conditions (ticks 90 receiving) ≡ expires 90 90 RxState.expired)
    × ((after_expiry (sys_create host) (ticks 90 receiving)).partner.state.synchronization ≡ false)
    × (check_conditions (ticks 3 (after_expiry (sys_create host) (ticks 90 receiving)))
        ≡ expires (sys_create host).short_timeout_time 3 RxState.defaulted)
    × ((enter_defaulted (ticks 3 (after_expiry (sys_create host) (ticks 90 receiving)))).partner
        ≡ receiving.partner_admin)
silent_partner_example = silent_partner (sys_create host) receiving 90 3 refl refl refl

-- A system whose slow period has been set to 0.
unfoldable always_slow : World
unfolding all_are
always_slow =
    let w = all_are (record transmitting {
      tx = record { state = TxState.periodic_tx; change_state = true; debug = false };
    }) in
    record w { sys = record (w.sys) { slow_periodic_time = 0 } }

change_state-Spins_example : change_state 1000 Machine.tx always_slow 0 0 ≡ none
unfolding always_slow
change_state-Spins_example = change_state-Spins 1000 always_slow 0 0 refl (record {
  lacp_on = refl;
  link_up = refl;
  active = refl;
  slow = refl;
  changing = refl;
  place = inl refl;
})
