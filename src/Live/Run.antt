-- ===== src/Live/Run.antt =====
-- bridge.c: the main loop of the process of a bridge.
use lacp.Base.{ℕ, arith, ◌≤◌, ◌<◌, ◌≡◌, Bool, true, false, some, ltb, List, [], ◌∷◌}
use lacp.Types.{Host, Port, LacpPdu, Outcome, returns, ◌>>=◌}
use lacp.Settle.Energy.{enough}
use lacp.Sys.{sys_create}
use lacp.Api.{port_max, one_second}
use lacp.Cli.{execute}
use lacp.Ssp.{change_to_slot_port, get_global_index}
use lacp.Trunk.{trunk_link_change, ssp_rx_lacpdu}
use lacp.Bridge.{
  bridge_start, Bridge, Control, Message, set_link_up, set_link_down, bridge_control,
  bridge_rx_bpdu, read_ipc, Event, tick, message, command, step, main_loop,
}
use lacp.Live.{restub-IsReady, Returns, Returns-bind, IsReady}
use lacp.Live.Calls.{one_second-IsReady}
use lacp.Live.Trunk.{link_change-IsReady, ssp_rx-IsReady}
use lacp.Live.Commands.{IsAllowed, execute-IsReady}

-- The events that stay within the 144 ports of the switch, bring frames for the first 18 of them,
-- and whose commands are allowed.
abbrev pub IsEvent : Event → Type 0
IsEvent tick = Unit
IsEvent (message i (Message.bpdu pdu)) = i < 18
IsEvent (message i (Message.cntrl c)) = i < 144
IsEvent (message i Message.unknown) = i < 144
IsEvent (command c) = IsAllowed c

abbrev pub AreEvents : List Event → Type 0
AreEvents [] = Unit
AreEvents (e ∷ es) = IsEvent e × AreEvents es

-- A bridge whose library is ready.
abbrev Up : Bridge × Bool → Type 0
Up r = IsReady (r.0).world

-- The switch of the trace is there for a port below 18.
traced :
    (i : ℕ)
    → i < 18
    → (j : ℕ) → get_global_index (change_to_slot_port i).0 (change_to_slot_port i).1 ≡ some j
    → ltb j 18 ≡ true
unfolding change_to_slot_port get_global_index
traced i h j e = ground (arith, h, e)

module _ (fuel : ℕ) (enough_fuel : enough port_max ≤ fuel) where
  link_up-IsReady :
      (i : ℕ) (b : Bridge) → IsReady b.world → Returns (set_link_up fuel i b) (λ c. IsReady c.world)
  unfolding set_link_up
  link_up-IsReady i b r =
      Returns-bind (trunk_link_change fuel _ _ 1 b.world) _ (λ a. IsReady a.0) _
        (link_change-IsReady fuel enough_fuel _ _ 1 b.world r) (λ (v, code) k. restub-IsReady v _ k)

  link_down-IsReady :
      (i : ℕ) (b : Bridge)
      → IsReady b.world
      → Returns (set_link_down fuel i b) (λ c. IsReady c.world)
  unfolding set_link_down
  link_down-IsReady i b r =
      Returns-bind (trunk_link_change fuel _ _ 0 b.world) _ (λ a. IsReady a.0) _
        (link_change-IsReady fuel enough_fuel _ _ 0 b.world r) (λ (v, code) k. restub-IsReady v _ k)

  rx_bpdu-IsReady :
      (i : ℕ) (pdu : LacpPdu) (b : Bridge)
      → i < 18
      → IsReady b.world
      → Returns (bridge_rx_bpdu fuel i pdu b) (λ c. IsReady c.world)
  unfolding bridge_rx_bpdu
  rx_bpdu-IsReady i pdu b h r =
      Returns-bind (ssp_rx_lacpdu fuel _ _ pdu b.world) _ (λ a. IsReady a.0) _
        (ssp_rx-IsReady fuel enough_fuel _ _ pdu b.world (traced i h) r) (λ (v, code) k. k)

  -- A result after which the bridge goes on.
  goes_on :
      (m : Outcome Bridge)
      → Returns m (λ c. IsReady c.world)
      → Returns (m >>= λ c. returns (c, false)) Up
  goes_on m h = Returns-bind m _ (λ c. IsReady c.world) Up h (λ c k. k)

  read_ipc-IsReady :
      (i : ℕ) (m : Message) (b : Bridge)
      → IsEvent (message i m)
      → IsReady b.world
      → Returns (read_ipc fuel i m b) Up
  unfolding read_ipc bridge_control
  read_ipc-IsReady i (Message.cntrl Control.port_connect) b a r = goes_on _ (link_up-IsReady i b r)
  read_ipc-IsReady i (Message.cntrl Control.port_disconnect) b a r =
      goes_on _ (link_down-IsReady i b r)
  read_ipc-IsReady i (Message.cntrl Control.bridge_shutdown) b a r = r
  read_ipc-IsReady i (Message.cntrl Control.other) b a r = r
  read_ipc-IsReady i (Message.bpdu pdu) b a r = goes_on _ (rx_bpdu-IsReady i pdu b a r)
  read_ipc-IsReady i Message.unknown b a r = r

  step-IsReady : (e : Event) (b : Bridge) → IsEvent e → IsReady b.world → Returns (step fuel e b) Up
  unfolding step
  step-IsReady tick b a r =
      Returns-bind (one_second fuel b.world) _ IsReady Up
        (one_second-IsReady fuel b.world enough_fuel r) (λ v k. k)
  step-IsReady (message i m) b a r = read_ipc-IsReady i m b a r
  step-IsReady (command c) b a r =
      Returns-bind (execute fuel c b.world) _ (λ x. IsReady x.0) Up
        (execute-IsReady fuel enough_fuel c b.world a r) (λ v k. k)

-- What follows an event, if the bridge goes on.
next-Returns :
    (go : Bridge → Outcome Bridge) (x : Bridge × Bool)
    → ((c : Bridge) → IsReady c.world → Returns (go c) (λ d. IsReady d.world))
    → Up x
    → Returns (elim x.1 [ true ↦ returns x.0 | false ↦ go x.0 ]) (λ d. IsReady d.world)
next-Returns go (c, true) h k = k
next-Returns go (c, false) h k = h c k

main_loop-IsReady :
    (fuel : ℕ) (es : List Event) (b : Bridge)
    → enough port_max ≤ fuel
    → AreEvents es
    → IsReady b.world
    → Returns (main_loop fuel es b) (λ c. IsReady c.world)
unfolding main_loop
main_loop-IsReady fuel [] b f a r = r
main_loop-IsReady fuel (e ∷ es) b f (a, q) r =
    Returns-bind (step fuel e b) _ Up (λ c. IsReady c.world) (step-IsReady fuel f e b a r)
      (λ x k. next-Returns (main_loop fuel es) x (λ c. main_loop-IsReady fuel es c f q) k)

started :
    (h : Host) (memory : ℕ → Port)
    → ((j : ℕ) → (memory j).lacp_enabled ≡ false)
    → IsReady (bridge_start h memory).world
unfolding bridge_start sys_create
started h memory off = record {
  timed = record {
    short_timeout = omega arith;
    long_timeout = omega arith;
    slow_period = omega arith;
    fast_period = omega arith;
    has_agg = λ j e. absurd (no_both (off j) e);
  };
  quiet = λ m j i. cc;
  once = tt;
  small = λ j i. cc;
}
  where
    no_both : {b : Bool} → b ≡ false → b ≡ true → ⊥
    no_both p q = cc

-- A bridge that has started handles every list of events and returns: no call of the library goes
-- on for ever or reads through a null pointer, no trace reads past its array, and at the end the timeouts and periods are not 0,
-- each port with LACP on has an aggregation, no machine of a port of the list is in the middle of
-- a change, and the ports of the list are different and below `LACP_PORT_MAX`. The events are
-- ticks, frames for one of the first 18 ports, control messages for one of the 144 ports, and
-- commands that name slots of the switch, delete a group of it, and set no period to a multiple of
-- 2^16. LACP is off in the memory that no port has taken yet,
-- and the fuel of one `lacp_sys_update` is at least `enough` for four ports, 65^4.
pub main_loop-bridge_start :
    (fuel : ℕ) (es : List Event) (h : Host) (memory : ℕ → Port)
    → enough port_max ≤ fuel
    → AreEvents es
    → ((j : ℕ) → (memory j).lacp_enabled ≡ false)
    → Returns (main_loop fuel es (bridge_start h memory)) (λ c. IsReady c.world)
main_loop-bridge_start fuel es h memory f a off =
    main_loop-IsReady fuel es (bridge_start h memory) f a (started h memory off)
