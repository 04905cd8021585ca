-- ===== src/Cli.antt =====
-- lacp_lib/trunk_cli.c: the commands that change the state. Their arguments come from `sscanf` and
-- `atoi` of the C library: `scanned` holds the two numbers of "slot/port", or `none` where
-- `sscanf` did not find two.
use lacp.Base.{ℕ, ◌^◌, Bool, ◌||◌, ◌==◌, leb, ltb, if◌then◌else◌, Option, none, some}
use lacp.Types.{World, Port, returns, crashes, ◌>>=◌, modify_port}
use lacp.Statmch.{Machine, rx, sel, mux, tx}
use lacp.Create.{port_find}
use lacp.Ssp.{get_global_index}
use lacp.Events.{Reply, with_code}
use lacp.Trunk.{
  sys_set_prio, sys_set_long_period, sys_set_short_period, sys_set_period, port_lacp_enable,
  port_lacp_disable, agg_delete, port_set_prio, port_set_speed, port_set_duplex, trunk_link_change,
  port_clear_stat, m_lacp_internel,
}

-- `TRUNK_ID_MAX`.
abbrev pub trunk_id_max : ℕ
trunk_id_max = 32

-- `DEV_GetIfPonFromIfnet`; `none` is -1. The numbers are `int`s, negative from 2^31 on.
unfoldable pub dev_get_if : Option (ℕ × ℕ) → Option (ℕ × ℕ)
dev_get_if none = none
dev_get_if (some (slot, port)) =
    if leb (2 ^ 31) slot || (port == 0 || leb (2 ^ 31) port) || ltb 8 port
    then none
    else some (slot, port)

-- -1 as the result of a command.
abbrev pub failed : ℕ
failed = 0xffff_ffff

-- A command on a port: its arguments are parsed first.
unfoldable pub with_port : Option (ℕ × ℕ) → (ℕ → ℕ → World → Reply) → World → Reply
unfolding dev_get_if
with_port scanned run w = elim (dev_get_if scanned) [
  | none ↦ returns (w, failed)
  | some (slot, port) ↦ run slot port w
]

-- `lacp_port_lacp_enable`, once the arguments are parsed.
unfoldable pub enable : ℕ → ℕ → ℕ → ℕ → World → Reply
enable fuel agg_id slot port w =
    if agg_id == 0 || ltb trunk_id_max agg_id
    then returns (w, m_lacp_internel)
    else port_lacp_enable fuel slot port agg_id w

-- The second argument of "lacp debug-fsm": every machine, one by its name, or no machine's name.
pub data MachName : Type 0 where
  all : MachName
  one : Machine → MachName
  other : MachName

unfoldable pub set_debug : Bool → MachName → Port → Port
set_debug on all p = record p {
  rx = record (p.rx) { debug = on };
  sel = record (p.sel) { debug = on };
  mux = record (p.mux) { debug = on };
  tx = record (p.tx) { debug = on };
}
set_debug on (one rx) p = record p { rx = record (p.rx) { debug = on } }
set_debug on (one sel) p = record p { sel = record (p.sel) { debug = on } }
set_debug on (one mux) p = record p { mux = record (p.mux) { debug = on } }
set_debug on (one tx) p = record p { tx = record (p.tx) { debug = on } }
set_debug on other p = p

-- `lacp_dbg_trace`, with the loop of `lacp_dbg_trace_state_machine`.
unfoldable pub dbg_trace : World → ℕ → MachName → Bool → World
unfolding set_debug port_find
dbg_trace w i name on = elim (port_find w i) [
  | none ↦ w
  | some p ↦ modify_port w p (set_debug on name)
]

unfoldable pub debug_trace : MachName → Bool → ℕ → ℕ → World → Reply
unfolding dbg_trace
debug_trace name on slot port w = elim (get_global_index slot port) [
  | none ↦ crashes
  | some i ↦ returns (dbg_trace w i name on, 0)
]

-- A line of the terminal. Commands that only print are left out.
pub data Command : Type 0 where
  enable_port : Option (ℕ × ℕ) → ℕ → Command
  disable_port : Option (ℕ × ℕ) → Command
  delete_agg : ℕ → Command
  set_speed : Option (ℕ × ℕ) → ℕ → Command
  set_duplex : Option (ℕ × ℕ) → ℕ → Command
  set_link : Option (ℕ × ℕ) → ℕ → Command
  clear_stat : Option (ℕ × ℕ) → Command
  set_prio : ℕ → Command
  set_long_period : ℕ → Command
  set_short_period : ℕ → Command
  set_period : ℕ → Command
  set_port_prio : Option (ℕ × ℕ) → ℕ → Command
  trace : Option (ℕ × ℕ) → MachName → Bool → Command

-- The handlers of the commands, under the names of the C functions less their prefixes. Some drop
-- the code of the call.
abbrev pub cmd_lacp_enable : ℕ → Option (ℕ × ℕ) → ℕ → World → Reply
cmd_lacp_enable fuel scanned agg_id w = with_port scanned (enable fuel agg_id) w

abbrev pub cmd_lacp_disable : ℕ → Option (ℕ × ℕ) → World → Reply
cmd_lacp_disable fuel scanned w = with_port scanned (port_lacp_disable fuel) w

abbrev pub cmd_agg_delete : ℕ → ℕ → World → Reply
cmd_agg_delete fuel agg_id w = agg_delete fuel agg_id w >>= with_code 0

abbrev pub pr_set_speed : ℕ → Option (ℕ × ℕ) → ℕ → World → Reply
pr_set_speed fuel scanned speed w =
    with_port scanned
      (λ slot port v. port_set_speed fuel slot port speed v >>= λ r. with_code 0 r.0) w

abbrev pub pr_set_duplex : ℕ → Option (ℕ × ℕ) → ℕ → World → Reply
pr_set_duplex fuel scanned duplex w =
    with_port scanned
      (λ slot port v. port_set_duplex fuel slot port duplex v >>= λ r. with_code 0 r.0) w

abbrev pub pr_set_link : ℕ → Option (ℕ × ℕ) → ℕ → World → Reply
pr_set_link fuel scanned status w =
    with_port scanned
      (λ slot port v. trunk_link_change fuel slot port status v >>= λ r. with_code 0 r.0) w

abbrev pub cmd_clear_stat : ℕ → Option (ℕ × ℕ) → World → Reply
cmd_clear_stat fuel scanned w =
    with_port scanned (λ slot port v. port_clear_stat fuel slot port v >>= with_code 0) w

abbrev pub cmd_set_prio : ℕ → ℕ → World → Reply
cmd_set_prio fuel prio w = sys_set_prio fuel prio w >>= with_code 0

abbrev pub cmd_set_long_period : ℕ → ℕ → World → Reply
cmd_set_long_period fuel period w = sys_set_long_period fuel period w >>= with_code 0

abbrev pub cmd_set_short_period : ℕ → ℕ → World → Reply
cmd_set_short_period fuel period w = sys_set_short_period fuel period w >>= with_code 0

abbrev pub cmd_set_period : ℕ → ℕ → World → Reply
cmd_set_period fuel period w = sys_set_period fuel period w >>= with_code 0

abbrev pub cmd_set_port_prio : ℕ → Option (ℕ × ℕ) → ℕ → World → Reply
cmd_set_port_prio fuel scanned prio w =
    with_port scanned (λ slot port v. port_set_prio fuel slot port prio v >>= with_code 0) w

-- The command line on a command: the handler that the table names.
unfoldable pub execute : ℕ → Command → World → Reply
unfolding with_port enable debug_trace
execute fuel (enable_port scanned agg_id) w = cmd_lacp_enable fuel scanned agg_id w
execute fuel (disable_port scanned) w = cmd_lacp_disable fuel scanned w
execute fuel (delete_agg agg_id) w = cmd_agg_delete fuel agg_id w
execute fuel (set_speed scanned speed) w = pr_set_speed fuel scanned speed w
execute fuel (set_duplex scanned duplex) w = pr_set_duplex fuel scanned duplex w
execute fuel (set_link scanned status) w = pr_set_link fuel scanned status w
execute fuel (clear_stat scanned) w = cmd_clear_stat fuel scanned w
execute fuel (set_prio prio) w = cmd_set_prio fuel prio w
execute fuel (set_long_period period) w = cmd_set_long_period fuel period w
execute fuel (set_short_period period) w = cmd_set_short_period fuel period w
execute fuel (set_period period) w = cmd_set_period fuel period w
execute fuel (set_port_prio scanned prio) w = cmd_set_port_prio fuel scanned prio w
execute fuel (trace scanned name on) w = with_port scanned (debug_trace name on) w
