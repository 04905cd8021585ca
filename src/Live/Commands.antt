-- ===== src/Live/Commands.antt =====
-- trunk_cli.c: the commands of the terminal in a system that is ready.
use lacp.Base.{ℕ, ◌≤◌, ◌<◌, ◌≡◌, refl, sym, ap, ◌∙◌, Bool, false, ◌==◌, Option, none, some, arith}
use lacp.Types.{World, Port, ◌>>=◌, modify_port, u16}
use lacp.Ssp.{get_global_index}
use lacp.Statmch.{Machine, rx, sel, mux, tx, change_state_of}
use lacp.Create.{port_find}
use lacp.Settle.Energy.{enough}
use lacp.Api.{port_max}
use lacp.Events.{Reply, with_code}
use lacp.Trunk.{
  port_lacp_disable, port_set_prio, port_set_speed, port_set_duplex, trunk_link_change,
  port_clear_stat,
}
use lacp.Cli.{
  Command, enable_port, disable_port, delete_agg, set_speed, set_duplex, set_link, clear_stat,
  set_prio, set_long_period, set_short_period, set_period, set_port_prio, trace, trunk_id_max,
  dev_get_if, with_port, enable, MachName, all, one, other, set_debug, dbg_trace, debug_trace,
  execute,
}
use lacp.Live.{same_flags, Returns-option, IsReady, Mild, modify-IsReady}
use lacp.Live.Settings.{
  sys_set_prio-IsReady, sys_set_long_period-IsReady, sys_set_short_period-IsReady,
  sys_set_period-IsReady,
}
use lacp.Live.Trunk.{
  enable-IsReady, port_lacp_disable-IsReady, agg_delete-IsReady, port_set_speed-IsReady,
  port_set_duplex-IsReady, link_change-IsReady, port_set_prio-IsReady, port_clear_stat-IsReady,
  Replies, coded, recoded, indexed,
}

set_debug_flags :
    (on : Bool) (name : MachName) (p : Port)
    → (m : Machine) → change_state_of m (set_debug on name p) ≡ change_state_of m p
unfolding set_debug
set_debug_flags on all p = same_flags p _ refl refl refl refl
set_debug_flags on (one rx) p = same_flags p _ refl refl refl refl
set_debug_flags on (one sel) p = same_flags p _ refl refl refl refl
set_debug_flags on (one mux) p = same_flags p _ refl refl refl refl
set_debug_flags on (one tx) p = same_flags p _ refl refl refl refl
set_debug_flags on other p = λ m. refl

set_debug_agg :
    (on : Bool) (name : MachName) (p : Port)
    → ((set_debug on name p).lacp_enabled ≡ p.lacp_enabled)
      × ((set_debug on name p).agg_id ≡ p.agg_id)
unfolding set_debug
set_debug_agg on all p = (refl, refl)
set_debug_agg on (one rx) p = (refl, refl)
set_debug_agg on (one sel) p = (refl, refl)
set_debug_agg on (one mux) p = (refl, refl)
set_debug_agg on (one tx) p = (refl, refl)
set_debug_agg on other p = (refl, refl)

set_debug-Mild : (on : Bool) (name : MachName) (p : Port) → Mild p (set_debug on name p)
set_debug-Mild on name p =
    let (e, a) = set_debug_agg on name p in
    record {
      flags = set_debug_flags on name p;
      has_agg = λ h k. ap (λ n. n == 0) a ∙ h (sym e ∙ k);
    }

-- A parsed port is not 0.
parsed_port :
    (scanned : Option (ℕ × ℕ)) (slot port : ℕ)
    → dev_get_if scanned ≡ some (slot, port)
    → (port == 0) ≡ false
unfolding dev_get_if
parsed_port none slot port e = cc
parsed_port (some (s, p)) slot port e = ground arith

-- The commands that keep within the switch, with its 18 slots and 32 groups, and that leave the
-- periods of the timers different from 0 in 16 bits.
abbrev pub InSwitch : Option (ℕ × ℕ) → Type 0
InSwitch none = Unit
InSwitch (some (slot, port)) = slot < 18

abbrev pub IsAllowed : Command → Type 0
IsAllowed (enable_port scanned agg_id) = InSwitch scanned
IsAllowed (disable_port scanned) = InSwitch scanned
IsAllowed (delete_agg agg_id) = (1 ≤ agg_id) × (agg_id ≤ trunk_id_max)
IsAllowed (set_speed scanned speed) = InSwitch scanned
IsAllowed (set_duplex scanned duplex) = InSwitch scanned
IsAllowed (set_link scanned status) = InSwitch scanned
IsAllowed (clear_stat scanned) = InSwitch scanned
IsAllowed (set_prio prio) = Unit
IsAllowed (set_long_period period) = 0 < u16 period
IsAllowed (set_short_period period) = 0 < u16 period
IsAllowed (set_period period) = Unit
IsAllowed (set_port_prio scanned prio) = InSwitch scanned
IsAllowed (trace scanned name on) = InSwitch scanned

module _ (fuel : ℕ) (enough_fuel : enough port_max ≤ fuel) where
  with_port-IsReady :
      (scanned : Option (ℕ × ℕ)) (run : ℕ → ℕ → World → Reply) (w : World)
      → IsReady w
      → ((slot port : ℕ) → (port == 0) ≡ false → Replies (run slot port w))
      → Replies (with_port scanned run w)
  unfolding with_port
  with_port-IsReady scanned run w r h =
      Returns-option (dev_get_if scanned) _ _ (λ x. IsReady x.0) (λ _. r)
        (λ (slot, port) e. h slot port (parsed_port scanned slot port e))

  debug_trace-IsReady :
      (name : MachName) (on : Bool) (slot port : ℕ) (w : World)
      → (port == 0) ≡ false
      → IsReady w
      → Replies (debug_trace name on slot port w)
  unfolding debug_trace dbg_trace
  debug_trace-IsReady name on slot port w e r =
      Returns-option (get_global_index slot port) _ _ (λ x. IsReady x.0)
        (λ h. absurd (indexed slot port e h)) (λ i _. traced (port_find w i))
    where
      traced :
          (o : Option ℕ)
          → IsReady (elim o [ none ↦ w | some p ↦ modify_port w p (set_debug on name) ])
      traced none = r
      traced (some p) = modify-IsReady w p (set_debug on name) (set_debug-Mild on name (w.cell p)) r

  pub execute-IsReady :
      (c : Command) (w : World) → IsAllowed c → IsReady w → Replies (execute fuel c w)
  unfolding execute
  execute-IsReady (enable_port scanned agg_id) w a r =
      with_port-IsReady scanned (enable fuel agg_id) w r
        (λ slot port e. enable-IsReady fuel enough_fuel agg_id slot port w r)
  execute-IsReady (disable_port scanned) w a r =
      with_port-IsReady scanned (port_lacp_disable fuel) w r
        (λ slot port e. port_lacp_disable-IsReady fuel enough_fuel slot port w r)
  execute-IsReady (delete_agg agg_id) w a r =
      coded _ 0 (agg_delete-IsReady fuel enough_fuel agg_id w r)
  execute-IsReady (set_speed scanned speed) w a r =
      with_port-IsReady scanned (λ x y v. port_set_speed fuel x y speed v >>= λ q. with_code 0 q.0)
        w r (λ slot port e. recoded _ (port_set_speed-IsReady fuel enough_fuel slot port speed w r))
  execute-IsReady (set_duplex scanned duplex) w a r =
      with_port-IsReady scanned
        (λ x y v. port_set_duplex fuel x y duplex v >>= λ q. with_code 0 q.0) w r
        (λ slot port e. recoded _ (port_set_duplex-IsReady fuel enough_fuel slot port duplex w r))
  execute-IsReady (set_link scanned status) w a r =
      with_port-IsReady scanned
        (λ x y v. trunk_link_change fuel x y status v >>= λ q. with_code 0 q.0) w r
        (λ slot port e. recoded _ (link_change-IsReady fuel enough_fuel slot port status w r))
  execute-IsReady (clear_stat scanned) w a r =
      with_port-IsReady scanned (λ x y v. port_clear_stat fuel x y v >>= with_code 0) w r
        (λ slot port e. coded _ 0 (port_clear_stat-IsReady fuel enough_fuel slot port w e r))
  execute-IsReady (set_prio prio) w a r = coded _ 0 (sys_set_prio-IsReady fuel enough_fuel prio w r)
  execute-IsReady (set_long_period period) w a r =
      coded _ 0 (sys_set_long_period-IsReady fuel enough_fuel period w a r)
  execute-IsReady (set_short_period period) w a r =
      coded _ 0 (sys_set_short_period-IsReady fuel enough_fuel period w a r)
  execute-IsReady (set_period period) w a r =
      coded _ 0 (sys_set_period-IsReady fuel enough_fuel period w r)
  execute-IsReady (set_port_prio scanned prio) w a r =
      with_port-IsReady scanned (λ x y v. port_set_prio fuel x y prio v >>= with_code 0) w r
        (λ slot port e. coded _ 0 (port_set_prio-IsReady fuel enough_fuel slot port prio w e r))
  execute-IsReady (trace scanned name on) w a r =
      with_port-IsReady scanned (debug_trace name on) w r
        (λ slot port e. debug_trace-IsReady name on slot port w e r)
