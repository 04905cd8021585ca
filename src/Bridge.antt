-- ===== src/Bridge.antt =====
-- lacp_lib/bridge.c: the process of a bridge, which hands messages, commands and ticks to the
-- library. Sockets, the terminal and `select` are input and output.
use lacp.Base.{ℕ, Bool, true, false, List, [], ◌∷◌}
use lacp.Types.{Bitmap, Host, Port, LacpPdu, World, Outcome, returns, ◌>>=◌}
use lacp.Bitmap
use lacp.Stub
use lacp.Sys.{sys_create}
use lacp.Ssp.{change_to_slot_port, set_port_link_status}
use lacp.Api.{one_second}
use lacp.Cli.{Command, execute}
use lacp.Trunk.{trunk_link_change, ssp_rx_lacpdu}

-- The state of the process: that of the library, and `enabled_ports`.
pub record Bridge : Type 0 where
  pub world : World
  pub enabled_ports : Bitmap

-- `bridge_start`, where the socket and the handshake do not fail. `memory` is what stands in the
-- cells of ports that are not created yet.
unfoldable pub bridge_start : Host → (ℕ → Port) → Bridge
unfolding sys_create
bridge_start h memory = record {
  world = record { host = h; sys = sys_create h; cell = memory; stub = Stub.init; sent = [] };
  enabled_ports = Bitmap.clear;
}

-- `BR_IPC_CNTRL_CMD_T`; `other` is any command that `bridge_control` does not know.
pub data Control : Type 0 where
  port_connect port_disconnect bridge_shutdown other : Control

-- `BR_IPC_MSG_T` by its `cmd_type`.
pub data Message : Type 0 where
  cntrl : Control → Message
  bpdu : LacpPdu → Message
  unknown : Message

-- A link comes up or goes down: `BR_IPC_PORT_CONNECT` and `BR_IPC_PORT_DISCONNECT`.
unfoldable pub set_link_up : ℕ → ℕ → Bridge → Outcome Bridge
unfolding trunk_link_change
set_link_up fuel i b = do
  let (slot, port) = change_to_slot_port i
  (v, code) ← trunk_link_change fuel slot port 1 b.world
  returns (record {
    world = record v { stub = set_port_link_status v.stub i 1 };
    enabled_ports = Bitmap.set_bit b.enabled_ports i;
  })

unfoldable pub set_link_down : ℕ → ℕ → Bridge → Outcome Bridge
unfolding trunk_link_change
set_link_down fuel i b = do
  let (slot, port) = change_to_slot_port i
  (v, code) ← trunk_link_change fuel slot port 0 b.world
  returns (record {
    world = record v { stub = set_port_link_status v.stub i 0 };
    enabled_ports = Bitmap.clear_bit b.enabled_ports i;
  })

-- `bridge_control`: whether the bridge has to stop.
unfoldable pub bridge_control : ℕ → ℕ → Control → Bridge → Outcome (Bridge × Bool)
unfolding set_link_up set_link_down
bridge_control fuel i Control.port_connect b = set_link_up fuel i b >>= λ c. returns (c, false)
bridge_control fuel i Control.port_disconnect b = set_link_down fuel i b >>= λ c. returns (c, false)
bridge_control fuel i Control.bridge_shutdown b = returns (b, true)
bridge_control fuel i Control.other b = returns (b, false)

-- `bridge_rx_bpdu`, which drops the code of the library.
unfoldable pub bridge_rx_bpdu : ℕ → ℕ → LacpPdu → Bridge → Outcome Bridge
unfolding ssp_rx_lacpdu
bridge_rx_bpdu fuel i pdu b = do
  let (slot, port) = change_to_slot_port i
  (v, code) ← ssp_rx_lacpdu fuel slot port pdu b.world
  returns (record b { world = v })

-- `read_ipc` for a message that has arrived for port `i`.
unfoldable pub read_ipc : ℕ → ℕ → Message → Bridge → Outcome (Bridge × Bool)
unfolding bridge_control bridge_rx_bpdu
read_ipc fuel i (Message.cntrl c) b = bridge_control fuel i c b
read_ipc fuel i (Message.bpdu pdu) b = bridge_rx_bpdu fuel i pdu b >>= λ c. returns (c, false)
read_ipc fuel i Message.unknown b = returns (b, false)

-- What `main_loop` finds: no input for a second, a message for port `i`, or a command.
pub data Event : Type 0 where
  tick : Event
  message : ℕ → Message → Event
  command : Command → Event

-- The body of `main_loop`, and whether the bridge has to stop.
unfoldable pub step : ℕ → Event → Bridge → Outcome (Bridge × Bool)
unfolding read_ipc
step fuel tick b = one_second fuel b.world >>= λ v. returns (record b { world = v }, false)
step fuel (message i m) b = read_ipc fuel i m b
step fuel (command c) b = execute fuel c b.world >>= λ r. returns (record b { world = r.0 }, false)

-- `main_loop` on the events that come in.
unfoldable pub main_loop : ℕ → List Event → Bridge → Outcome Bridge
unfolding step
main_loop fuel [] b = returns b
main_loop fuel (e ∷ es) b =
    step fuel e b >>= λ r. elim r.1 [ true ↦ returns r.0 | false ↦ main_loop fuel es r.0 ]
