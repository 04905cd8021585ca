-- ===== src/Sys.antt =====
-- lacp_lib/LACP/lacp_sys.c: the system, the loop over all machines of all ports, and the loop
-- that runs until no machine has to change its state.
use lacp.Base.{
  ℕ, zero, suc, ◌+◌, Bool, true, false, not, ◌&&◌, ◌==◌, if◌then◌else◌, Option, none, some, List,
  [], ◌∷◌, ◌++◌, map, replicate,
}
use lacp.Types.{LacpSys, Host, World, Outcome, returns, runs_out}
use lacp.Bitmap.{max_bitmap_byte}
use lacp.Ssp.{get_mac}
use lacp.Statmch.{Machine, rx, sel, mux, tx, check_condition, change_state}

-- `lacp_sys_init` in a process with no system: the fields of the allocated structure.
unfoldable pub sys_create : Host → LacpSys
unfolding get_mac
sys_create h = record {
  ports = [];
  portmap = replicate max_bitmap_byte 0;
  number_of_ports = 0;
  admin_state = true;
  priority = 32768;
  mac = get_mac h h.local_octets;
  fast_periodic_time = 1;
  slow_periodic_time = 30;
  short_timeout_time = 3;
  long_timeout_time = 90;
  aggregate_wait_time = 2;
  lacp_timeout = 0;
  tx_hold_count = 3;
}

-- The order of `port->machines`: each machine was put in front of those created before it.
abbrev pub machines : List Machine
machines = rx ∷ sel ∷ mux ∷ tx ∷ []

abbrev pub with_port : ℕ → Machine → Machine × ℕ
with_port port m = (m, port)

-- The pairs that the two nested loops of `lacp_iterate_machines` go through.
unfoldable pub all_machines : List ℕ → List (Machine × ℕ)
all_machines [] = []
all_machines (port ∷ ps) = map (with_port port) machines ++ all_machines ps

-- A callback returns the new state and its number; `none` is the end of fuel.
abbrev pub Callback : Type 0
Callback = World → Machine → ℕ → Option (World × ℕ)

-- `lacp_iterate_machines`; `mret` is the sum so far.
unfoldable pub iterate_machines :
    Callback → Bool → List (Machine × ℕ) → World → ℕ → Option (World × ℕ)
iterate_machines callb exit_on_non_zero_ret [] w mret = some (w, mret)
iterate_machines callb exit_on_non_zero_ret ((m, port) ∷ ms) w mret = elim (callb w m port) [
  | none ↦ none
  | some (w', iret) ↦ elim (exit_on_non_zero_ret && not (iret == 0)) [
    | true ↦ some (w', iret)
    | false ↦ iterate_machines callb exit_on_non_zero_ret ms w' (mret + iret)
  ]
]

-- `lacp_check_condition` and `lacp_change_state` as callbacks.
abbrev pub check_callback : Callback
check_callback w m port =
    let (w', changed) = check_condition m w port in some (w', if changed then 1 else 0)

abbrev pub change_callback : ℕ → Callback
change_callback fuel w m port = change_state fuel m w port 0

-- `lacp_sys_update`, with the same fuel for its own rounds and for those of each machine.
unfoldable pub update_loop : ℕ → ℕ → World → ℕ → Option (World × ℕ)
unfolding iterate_machines all_machines
update_loop inner zero w loops = none
update_loop inner (suc fuel) w loops =
    elim (iterate_machines check_callback true (all_machines w.sys.ports) w 0) [
      | none ↦ none
      | some (w', need_state_change) ↦ elim (need_state_change == 0) [
        | true ↦ some (w', loops)
        | false ↦
            elim (iterate_machines (change_callback inner) false (all_machines w'.sys.ports) w' 0) [
              | none ↦ none
              | some (w'', n) ↦ update_loop inner fuel w'' (loops + 1 + n)
            ]
      ]
    ]

unfoldable pub sys_update : ℕ → World → Option (World × ℕ)
unfolding update_loop
sys_update fuel w = update_loop fuel fuel w 0

-- A call of `lacp_sys_update` whose number is dropped.
unfoldable pub update : ℕ → World → Outcome World
unfolding sys_update
update fuel w = elim (sys_update fuel w) [ none ↦ runs_out | some (v, n) ↦ returns v ]
