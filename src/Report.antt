-- ===== src/Report.antt =====
-- lacp_lib/trunk_api.c: reports on aggregations and ports, by slot and port.
pub mod Filled
pub mod Contents
pub mod Order
use lacp.Base.{
  ℕ, ◌+◌, ◌-◌, ◌%◌, ◌^◌, Bool, true, false, not, ◌&&◌, ◌==◌, if◌then◌else◌, Option, none, some,
  List, [], ◌∷◌, map, replicate,
}
use lacp.Types.{PortInfo, World, Outcome, returns, ◌>>=◌, u32}
use lacp.Ssp.{change_to_slot_port, get_global_index}
use lacp.Query.{PortState, agg_get_port_state, port_get_port_state}
use lacp.Trunk.{zero_port_state}

-- `trunk_port_state_t`.
pub record TrunkPortState : Type 0 where
  pub valid : Bool
  pub slot : ℕ
  pub port : ℕ
  pub key : ℕ
  pub agg_id : ℕ
  pub master_port : ℕ
  pub sel_state : Bool
  pub rx_cnt : ℕ
  pub tx_cnt : ℕ
  pub actor : PortInfo
  pub partner : PortInfo

-- The assignments by which a report is passed on.
unfoldable pub to_trunk_state : PortState → TrunkPortState
unfolding change_to_slot_port
to_trunk_state s = record {
  valid = s.valid;
  slot = (change_to_slot_port s.port_index).0;
  port = (change_to_slot_port s.port_index).1;
  key = s.key;
  agg_id = s.agg_id;
  master_port = s.master_port;
  sel_state = s.sel_state;
  rx_cnt = s.rx_cnt;
  tx_cnt = s.tx_cnt;
  actor = s.actor;
  partner = s.partner;
}

-- `trunk_agg_state_t`.
pub record TrunkAggState : Type 0 where
  pub master_index : ℕ
  pub ports_state : List TrunkPortState

-- `TRUNK_UINT_INVALID`.
abbrev pub uint_invalid : ℕ
uint_invalid = 0xffff_ffff

-- `trunk_agg_get_state`; it returns 0.
unfoldable pub agg_get_state : World → ℕ → Outcome TrunkAggState
unfolding agg_get_port_state to_trunk_state
agg_get_state w agg_id =
    agg_get_port_state zero_port_state w agg_id (replicate 8 zero_port_state) uint_invalid >>= λ r.
    returns (record { master_index = r.1; ports_state = map to_trunk_state r.0 })

-- `trunk_port_get_lacp_info`: the report, or the code. `local` is what stands in the local
-- structure before anything is written to it.
unfoldable pub port_get_lacp_info :
    PortState → World → ℕ → ℕ → TrunkPortState → Outcome (TrunkPortState × ℕ)
unfolding port_get_port_state to_trunk_state
port_get_lacp_info local w slot port state = elim (get_global_index slot port) [
  | none ↦ returns (state, 1)
  | some i ↦ port_get_port_state w i local >>= λ o. returns (elim o [
    | none ↦ (state, 2)
    | some s ↦ if s.agg_id == 0 then (state, 2) else (to_trunk_state s, 0)
  ])
]

-- `trunk_port_state_compare`: an `int` as its 32 bits, which is negative from 2^31 on.
unfoldable pub port_state_compare : TrunkPortState → TrunkPortState → ℕ
port_state_compare state1 state2 =
    if state1.valid && not state2.valid
    then 0xffff_ffff
    else if not (u32 (state1.slot + 2 ^ 32 - state2.slot) == 0)
    then u32 (state1.slot + 2 ^ 32 - state2.slot)
    else u32 (state1.port + 2 ^ 32 - state2.port)

-- `trunk_port_state_sort` on the array of eight states, with the `qsort` of the C library.
unfoldable pub port_state_sort :
    ((TrunkPortState → TrunkPortState → ℕ) → List TrunkPortState → List TrunkPortState)
    → List TrunkPortState
    → List TrunkPortState
unfolding port_state_compare
port_state_sort qsort states = qsort port_state_compare states
