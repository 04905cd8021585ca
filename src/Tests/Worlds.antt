-- ===== src/Tests/Worlds.antt =====
-- Concrete hosts, ports and systems.
use lacp.Base.{ℕ, ◌+◌, ◌*◌, ◌/◌, ◌%◌, true, false, Option, none, some, [], ◌∷◌}
use lacp.State.{LacpState, zero_state}
use lacp.Types.{Host, Port, Stub, World, MuxState, RxState, SelState, TxState}
use lacp.Stub
use lacp.Sys.{sys_create}
use lacp.Create.{zero_info}

-- A little-endian host.
abbrev pub swap : ℕ → ℕ
swap x = x % 256 * 256 + x / 256 % 256

abbrev pub host : Host
host = record {
  htons = swap;
  ntohs = swap;
  pid_octets = 0x39 ∷ 0x30 ∷ 0 ∷ 0 ∷ [];
  local_octets = 0 ∷ 0 ∷ 0 ∷ 0 ∷ 0 ∷ 0xaa ∷ [];
}

unfoldable pub stub : Stub
stub = Stub.db_agg_add_member (Stub.db_agg_add_member Stub.init 1 0 1) 1 0 2

abbrev pub no_port : Port
no_port = record {
  rx = record { state = RxState.begin; change_state = false; debug = false };
  sel = record { state = SelState.begin; change_state = false; debug = false };
  mux = record { state = MuxState.begin; change_state = false; debug = false };
  tx = record { state = TxState.begin; change_state = false; debug = false };
  actor = zero_info;
  partner = zero_info;
  actor_admin = zero_info;
  partner_admin = zero_info;
  msg_actor = zero_info;
  msg_partner = zero_info;
  current_while = 0;
  periodic_timer = 0;
  wait_while = 0;
  master_port = 0;
  port_enabled = false;
  port_moved = false;
  lacp_enabled = false;
  selected = false;
  standby = false;
  speed = 0;
  duplex = 0;
  agg_id = 0;
  rcvd_lacpdu = false;
  ntt = false;
  ready_n = false;
  hold_count = 0;
  tx_lacpdu_cnt = 0;
  rx_lacpdu_cnt = 0;
}

-- An active port that may be aggregated.
abbrev pub active_state : LacpState
active_state = record zero_state { lacp_activity = true; aggregation = true }

-- The port as it stands when LACP has just been turned on: link up, full duplex, aggregation 1.
abbrev pub starting : Port
starting = record no_port {
  lacp_enabled = true;
  port_enabled = true;
  agg_id = 1;
  speed = 1000;
  duplex = 1;
  actor_admin = record zero_info { state = active_state; system_priority = 32768; key = 259 };
  partner_admin = record zero_info { system_priority = 32768; key = 1 };
}

-- Two such ports.
unfoldable pub two : World
unfolding stub sys_create
two = record {
  host = host;
  sys = record (sys_create host) { ports = 1 ∷ 0 ∷ []; number_of_ports = 2 };
  cell = λ _. starting;
  stub = stub;
  sent = [];
}

-- The world of a computation that ends.
abbrev pub result : Option (World × ℕ) → World
result none = two
result (some (v, n)) = v

-- Two ports that agree with one partner, which is aggregatable as they are.
abbrev pub agreeing : ℕ → Port
agreeing j = record starting {
  actor = record zero_info { state = active_state; key = 259; port_no = j + 1 };
  partner = record zero_info { state = active_state };
}

unfoldable pub agreed : World
unfolding two
agreed = record two { cell = agreeing }

-- The world in which every port is `p`.
unfoldable pub all_are : Port → World
unfolding two
all_are p = record two { cell = λ _. p }
