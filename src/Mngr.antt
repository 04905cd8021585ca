-- ===== src/Mngr.antt =====
-- lacp_lib/mngr.c: the process that links the ports of bridges. Sockets, the terminal and `select`
-- are input and output, and memory does not run out. A read or write through a pointer to memory
-- that is not allocated, past the end of an array, or through a variable that is not set, crashes.
pub mod Matching
pub mod Ports
pub mod Writes
pub mod Linked
pub mod Commands
pub mod Fewer
pub mod Bridges
pub mod Frames
pub mod Cleared
pub mod Ring
pub mod Run
use lacp.Base.{
  ℕ, zero, suc, ◌+◌, ◌^◌, Bool, true, false, not, ◌&&◌, ◌||◌, ◌==◌, leb, ltb, if◌then◌else◌, Option,
  none, some, List, [], ◌∷◌, elem, update,
}
use lacp.Types.{LacpPdu, Outcome, returns, crashes, ◌>>=◌}
use lacp.Create.{unlink}
use lacp.Bridge.{Control}

-- `PORT_T`, less the field that nothing uses. A pointer to a bridge is an address, or null.
pub record PeerPort : Type 0 where
  pub bridge_partner : Option ℕ
  pub port_partner : ℕ

-- `BRIDGE_T`. `ports` is an array of `number_of_ports`; the socket is known by a number.
pub record Peer : Type 0 where
  pub pid : ℕ
  pub number_of_ports : ℕ
  pub ports : ℕ → PeerPort
  pub sock : ℕ

-- `BR_IPC_MSG_T` as the manager sends it: a command for a port, the command to stop, or a frame
-- with the port that it came from and the port that it is for.
pub data Packet : Type 0 where
  cntrl : Control → ℕ → Packet
  shutdown : Packet
  bpdu : ℕ → ℕ → LacpPdu → Packet

-- The state: `br_lst` as the addresses of its bridges, what stands at each address, an address
-- above those that were allocated, and the messages that were sent, the newest first, each with
-- its socket. Only the bridges of the list are allocated.
pub record Mngr : Type 0 where
  pub br_lst : List ℕ
  pub bridge : ℕ → Peer
  pub fresh : ℕ
  pub sent : List (ℕ × Packet)

-- `br->ports + k` for a bridge at an address.
abbrev pub in_array : Mngr → ℕ → ℕ → Bool
in_array m br k = elem br m.br_lst && ltb k (m.bridge br).number_of_ports

abbrev pub read_port : Mngr → ℕ → ℕ → Outcome PeerPort
read_port m br k = if in_array m br k then returns ((m.bridge br).ports k) else crashes

abbrev pub put_port : Mngr → ℕ → ℕ → PeerPort → Mngr
put_port m br k p = record m {
  bridge = update m.bridge br (record (m.bridge br) { ports = update (m.bridge br).ports k p });
}

abbrev pub write_port : ℕ → ℕ → PeerPort → Mngr → Outcome Mngr
write_port br k p m = if in_array m br k then returns (put_port m br k p) else crashes

-- `IPC_SocketSendto` on the socket of a bridge.
abbrev pub send : ℕ → Packet → Mngr → Outcome Mngr
send br packet m =
    if elem br m.br_lst
    then returns (record m { sent = ((m.bridge br).sock, packet) ∷ m.sent })
    else crashes

abbrev pub clear_partner : PeerPort → PeerPort
clear_partner p = record p { bridge_partner = none }

-- `port->bridge_partner = NULL`.
abbrev pub reset_port : ℕ → ℕ → Mngr → Outcome Mngr
reset_port br k m = read_port m br k >>= λ p. write_port br k (clear_partner p) m

-- `disconnect_port` for port `k` of a bridge; the callers drop its code.
unfoldable pub disconnect_port : ℕ → ℕ → Bool → Mngr → Outcome Mngr
disconnect_port br k reset_myself m = do
  port ← read_port m br k
  elim port.bridge_partner [
    | none ↦ returns m
    | some partner ↦ do
      v ← send partner (cntrl Control.port_disconnect port.port_partner) m
      if reset_myself then reset_port br k v else reset_port partner port.port_partner v
  ]

-- `register_bridge`; `calloc` clears the ports.
unfoldable pub register_bridge : ℕ → ℕ → ℕ → Mngr → Mngr
register_bridge pid count sock m = record m {
  br_lst = m.fresh ∷ m.br_lst;
  bridge = update m.bridge m.fresh (record {
    pid = pid;
    number_of_ports = count;
    ports = λ _. record { bridge_partner = none; port_partner = 0 };
    sock = sock;
  });
  fresh = m.fresh + 1;
}

-- The first bridge of the list with a pid.
unfoldable pub find_bridge : Mngr → List ℕ → ℕ → Option ℕ
find_bridge m [] pid = none
find_bridge m (br ∷ brs) pid =
    let rest = find_bridge m brs pid in if (m.bridge br).pid == pid then some br else rest

-- `for (indx = 0; indx < oldbr->number_of_ports; indx++)`: the number before `indx` counts the
-- rounds left.
unfoldable pub disconnect_all : ℕ → ℕ → ℕ → Mngr → Outcome Mngr
unfolding disconnect_port
disconnect_all br zero indx m = returns m
disconnect_all br (suc left) indx m = do
  port ← read_port m br indx
  v ← elim port.bridge_partner [ none ↦ returns m | some _ ↦ disconnect_port br indx false m ]
  disconnect_all br left (indx + 1) v

-- `unregister_bridge`.
unfoldable pub unregister_bridge : ℕ → Mngr → Outcome Mngr
unfolding find_bridge disconnect_all
unregister_bridge pid m = elim (find_bridge m m.br_lst pid) [
  | none ↦ returns m
  | some oldbr ↦ do
    v ← disconnect_all oldbr (m.bridge oldbr).number_of_ports 0 m
    returns (record v { br_lst = unlink oldbr v.br_lst })
]

-- `_link_two_ports`: the ports are `br1->ports + k1` and `br2->ports + k2`.
unfoldable pub link_two_ports : ℕ → ℕ → ℕ → ℕ → ℕ → ℕ → Mngr → Outcome Mngr
link_two_ports br1 k1 indx1 br2 k2 indx2 m = do
  u ← write_port br1 k1 (record { bridge_partner = some br2; port_partner = indx2 }) m
  v ← write_port br2 k2 (record { bridge_partner = some br1; port_partner = indx1 }) u
  x ← send br1 (cntrl Control.port_connect indx1) v
  send br2 (cntrl Control.port_connect indx2) x

-- The last bridge of the list with a pid: the loops of `link_bridges` and `unlink_port`.
unfoldable pub last_bridge : Mngr → List ℕ → ℕ → Option ℕ → Option ℕ
last_bridge m [] pid found = found
last_bridge m (br ∷ brs) pid found =
    last_bridge m brs pid (if (m.bridge br).pid == pid then some br else found)

-- Whether an index, an `int` as 32 bits, is refused.
abbrev pub invalid : Mngr → ℕ → ℕ → Bool
invalid m br indx = leb (2 ^ 31) indx || ltb (m.bridge br).number_of_ports indx

abbrev pub is_linked : PeerPort → Bool
is_linked p = elim p.bridge_partner [ none ↦ false | some _ ↦ true ]

-- `link_bridges`, once the arguments are parsed.
unfoldable pub link_bridges : ℕ → ℕ → ℕ → ℕ → Mngr → Outcome Mngr
unfolding link_two_ports last_bridge
link_bridges pid1 indx1 pid2 indx2 m = elim (last_bridge m m.br_lst pid1 none) [
  | none ↦ returns m
  | some br1 ↦ elim (last_bridge m m.br_lst pid2 none) [
    | none ↦ returns m
    | some br2 ↦ if invalid m br1 indx1 || invalid m br2 indx2 then returns m else (do
      port1 ← read_port m br1 indx1
      port2 ← read_port m br2 indx2
      if is_linked port1 || is_linked port2
          then returns m
          else link_two_ports br1 indx1 indx1 br2 indx2 indx2 m)
  ]
]

-- `unlink_port`, once the arguments are parsed. `br1` is not set before the loop.
unfoldable pub unlink_port : ℕ → ℕ → Mngr → Outcome Mngr
unfolding disconnect_port last_bridge
unlink_port pid1 indx1 m = elim (last_bridge m m.br_lst pid1 none) [
  | none ↦ crashes
  | some br1 ↦ if invalid m br1 indx1 then returns m else (do
    port1 ← read_port m br1 indx1
    elim port1.bridge_partner [
      | none ↦ returns m
      | some br2 ↦ do
        v ← disconnect_port br1 indx1 true m
        disconnect_port br2 port1.port_partner true v
    ])
]

-- The loops of `link_ring` that unlink everything: over the ports of a bridge, over the bridges.
unfoldable pub unlink_all : ℕ → ℕ → ℕ → Mngr → Outcome Mngr
unfolding disconnect_port
unlink_all br zero indx m = returns m
unlink_all br (suc left) indx m = do
  port ← read_port m br indx
  v ← elim port.bridge_partner [
    | none ↦ returns m
    | some br2 ↦ do u ← disconnect_port br indx true m; disconnect_port br2 port.port_partner true u
  ]
  unlink_all br left (indx + 1) v

unfoldable pub unlink_bridges : List ℕ → Mngr → Outcome Mngr
unfolding unlink_all
unlink_bridges [] m = returns m
unlink_bridges (br ∷ brs) m = unlink_all br (m.bridge br).number_of_ports 0 m >>= unlink_bridges brs

-- `br1->next`, or else the first bridge.
abbrev pub next_bridge : ℕ → List ℕ → ℕ
next_bridge first [] = first
next_bridge first (br ∷ brs) = br

-- The loop that builds the ring. `first` is `br_lst`.
unfoldable pub build_ring : ℕ → List ℕ → Mngr → Outcome Mngr
unfolding link_two_ports
build_ring first [] m = returns m
build_ring first (br1 ∷ brs) m =
    link_two_ports br1 1 2 (next_bridge first brs) 0 1 m >>= build_ring first brs

-- `link_ring`.
unfoldable pub link_ring : Mngr → Outcome Mngr
unfolding unlink_bridges build_ring
link_ring m = unlink_bridges m.br_lst m >>= λ v. elim v.br_lst [
  | [] ↦ returns v
  | first ∷ brs ↦ build_ring first (first ∷ brs) v
]

-- `mngr_rx_bpdu`: a frame from port `source_port` of the bridge with a pid.
unfoldable pub mngr_rx_bpdu : ℕ → ℕ → LacpPdu → Mngr → Outcome Mngr
unfolding find_bridge
mngr_rx_bpdu pid source_port pdu m = elim (find_bridge m m.br_lst pid) [
  | none ↦ returns m
  | some br ↦ do
    port ← read_port m br source_port
    elim port.bridge_partner [
      | none ↦ returns m
      | some partner ↦ send partner (bpdu source_port port.port_partner pdu) m
    ]
]

-- A message that arrives, by its type and command: a handshake with the number of ports and the
-- socket of the reply, the end of a bridge, another command, a frame, or an unknown type.
pub data Received : Type 0 where
  handshake : ℕ → ℕ → Received
  bridge_shutdown : Received
  unexpected : Received
  frame : ℕ → LacpPdu → Received
  unknown : Received

-- `read_uid` with `mngr_control`, for the sender's pid; the code is always 0.
unfoldable pub read_uid : ℕ → Received → Mngr → Outcome Mngr
unfolding register_bridge unregister_bridge mngr_rx_bpdu
read_uid pid (handshake count sock) m = returns (register_bridge pid count sock m)
read_uid pid bridge_shutdown m = unregister_bridge pid m
read_uid pid unexpected m = returns m
read_uid pid (frame source_port pdu) m = mngr_rx_bpdu pid source_port pdu m
read_uid pid unknown m = returns m

-- The loop of `mngr_shutdown`.
unfoldable pub shutdown_all : List ℕ → Mngr → Outcome Mngr
shutdown_all [] m = returns m
shutdown_all (br ∷ brs) m = send br shutdown m >>= shutdown_all brs

unfoldable pub mngr_shutdown : Mngr → Outcome Mngr
unfolding shutdown_all
mngr_shutdown m = shutdown_all m.br_lst m

-- What `main_loop` finds: a message with the pid of its sender, or a command.
pub data Input : Type 0 where
  message : ℕ → Received → Input
  link : ℕ → ℕ → ℕ → ℕ → Input
  unlink_one : ℕ → ℕ → Input
  ring : Input

-- The body of `main_loop`; `shutdown_flag` stays 0.
unfoldable pub step : Input → Mngr → Outcome Mngr
unfolding read_uid link_bridges unlink_port link_ring
step (message pid r) m = read_uid pid r m
step (link pid1 indx1 pid2 indx2) m = link_bridges pid1 indx1 pid2 indx2 m
step (unlink_one pid indx) m = unlink_port pid indx m
step ring m = link_ring m

-- `main_loop` on the inputs that come.
unfoldable pub main_loop : List Input → Mngr → Outcome Mngr
unfolding step
main_loop [] m = returns m
main_loop (i ∷ is) m = step i m >>= main_loop is

-- The state when the process starts; `memory` is what stands where nothing is allocated yet.
abbrev pub no_bridges : (ℕ → Peer) → Mngr
no_bridges memory = record { br_lst = []; bridge = memory; fresh = 0; sent = [] }
