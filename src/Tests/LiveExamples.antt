-- ===== src/Tests/LiveExamples.antt =====
-- A bridge from its start, and the settings of a system of two ports.
use lacp.Base.{◌≡◌, refl, ◌%◌, false, some, List, [], ◌∷◌, arith, ℕ, get_or-replicate}
use lacp.Settle.Energy.{enough}
use lacp.Statmch.{Machine, rx, sel, mux, tx, change_state_of}
use lacp.Api.{port_max}
use lacp.Cli.{enable_port, set_long_period}
use lacp.Bridge.{Control, Message, bridge_start, Event, tick, message, command, main_loop}
use lacp.Trunk.{
  port_lacp_enable, sys_set_prio, sys_set_long_period, sys_set_short_period, sys_set_period,
  trunk_get_cfg,
}
use lacp.Live.{Returns, IsReady, restub-IsReady}
use lacp.Types.{World}
use lacp.Stub
use lacp.Stub.Members.{AreGroups}
use lacp.Live.Settings.{trunk_get_cfg-sys_set}
use lacp.Live.Enable.{Enabled, port_lacp_enable-Joined}
use lacp.Ssp.{get_global_index}
use lacp.Live.Run.{main_loop-bridge_start}
use lacp.Tests.Worlds.{host, no_port, starting, two}

-- Two ports join group 1, the first is connected, a second passes, and the long period is set.
abbrev events : List Event
events =
    command (enable_port (some (0, 1)) 1)
    ∷ command (enable_port (some (0, 2)) 1)
    ∷ message 0 (Message.cntrl Control.port_connect)
    ∷ tick
    ∷ command (set_long_period 20)
    ∷ []

main_loop-bridge_start_example :
    Returns
      (main_loop (enough port_max) events (bridge_start host (λ _. no_port)))
      (λ c. IsReady c.world)
main_loop-bridge_start_example =
    main_loop-bridge_start (enough port_max) events host (λ _. no_port) (omega arith)
      (omega arith, (omega arith, (omega arith, (tt, (omega arith, tt))))) (λ j. refl)

two-IsReady : IsReady two
unfolding two
two-IsReady = record {
  timed = record {
    short_timeout = omega arith;
    long_timeout = omega arith;
    slow_period = omega arith;
    fast_period = omega arith;
    has_agg = λ j h. refl;
  };
  quiet = λ m j h. resting m;
  once = (refl, (refl, tt));
  small = λ j h. ground (arith, h);
}
  where
    resting : (m : Machine) → change_state_of m starting ≡ false
    resting rx = refl
    resting sel = refl
    resting mux = refl
    resting tx = refl

trunk_get_cfg-sys_set_example :
    Returns
      (sys_set_prio (enough port_max) 70000 two)
      (λ v. trunk_get_cfg v ≡ record (trunk_get_cfg two) { prio = 70000 % 65536 })
    × Returns
        (sys_set_long_period (enough port_max) 20 two)
        (λ v. trunk_get_cfg v ≡ record (trunk_get_cfg two) { long_period = 20 % 65536 })
    × Returns
        (sys_set_short_period (enough port_max) 2 two)
        (λ v. trunk_get_cfg v ≡ record (trunk_get_cfg two) { short_period = 2 % 65536 })
    × Returns
        (sys_set_period (enough port_max) 1 two)
        (λ v. trunk_get_cfg v ≡ record (trunk_get_cfg two) { period = 1 })
trunk_get_cfg-sys_set_example =
    trunk_get_cfg-sys_set (enough port_max) 70000 20 2 1 two (omega arith) (omega arith)
      (omega arith) two-IsReady

-- The two ports with a switch on which no group has a member.
abbrev apart : World
unfolding Stub.init
apart = record two { stub = Stub.init }

no_members : AreGroups apart.stub
unfolding Stub.init
no_members g = record {
  size = refl;
  octets = λ i. let e = get_or-replicate {A = ℕ} 19 i 0 in omega (arith, e);
}

port_lacp_enable-Joined_example :
    Returns
      (port_lacp_enable (enough port_max) 0 3 5 apart)
      (λ a. (a.1 ≡ 0) × Enabled apart 0 3 2 5 a.0)
unfolding get_global_index Stub.init Stub.db_agg_get_port_tid
port_lacp_enable-Joined_example =
    port_lacp_enable-Joined (enough port_max) 0 3 2 5 apart (omega arith) refl (omega arith)
      (record { slot_below = omega arith; port_from = omega arith; port_to = omega arith })
      (omega arith) (omega arith) no_members refl (restub-IsReady two apart.stub two-IsReady)
