-- ===== src/Trunk.antt =====
-- lacp_lib/trunk_api.c: what the command line calls, by slot and port. `fuel` is that of
-- `lacp_sys_update`; the printing calls are left out. A port number of 0 leaves `port_index`
-- unset in the calls that do not test the result of `trunk_ssp_get_global_index`.
use lacp.Base.{
  ℕ, zero, suc, ◌+◌, true, false, not, ◌==◌, ltb, if◌then◌else◌, Option, none, some, List,
  replicate,
}
use lacp.Types.{Bitmap, Mac, LacpPdu, Stub, World, Outcome, returns, crashes, ◌>>=◌, u16}
use lacp.Bitmap
use lacp.Stub.{
  get_pbmp, db_agg_get_member, db_agg_add_member, db_agg_del_member, db_port_lacp_is_enable,
  db_set_sys_prio, get_port_attr, set_port_attr, get_port_priority, set_port_priority,
}
use lacp.Ssp.{get_global_index, get_port_link_status}
use lacp.Create.{zero_info}
use lacp.Api.{PortCfg, port_set_cfg, create_ports, remove_ports}
use lacp.Events.{Reply, with_code, SysCfg, sys_set_cfg, port_link_change, rx_lacpdu}
use lacp.Query.{PortState, sys_get_cfg, sys_get_state}

-- `M_LACP_INTERNEL`, what `trunk_ssp_get_global_index` returns for port 0.
abbrev pub m_lacp_internel : ℕ
m_lacp_internel = 1

-- Structures after `memset(…, 0, …)`.
abbrev pub zero_sys_cfg : SysCfg
zero_sys_cfg = record {
  field_mask = 0;
  number_of_ports = 0;
  ports = replicate 19 0;
  priority = 0;
  sys_mac = replicate 6 0;
  short_period = 0;
  long_period = 0;
  period = 0;
}

abbrev pub zero_port_cfg : PortCfg
zero_port_cfg = record {
  field_mask = 0;
  port_bmp = replicate 19 0;
  lacp_enabled = false;
  port_priority = 0;
  agg_id = 0;
}

abbrev pub zero_port_state : PortState
zero_port_state = record {
  valid = false;
  port_index = 0;
  key = 0;
  agg_id = 0;
  master_port = 0;
  sel_state = false;
  rx_cnt = 0;
  tx_cnt = 0;
  actor = zero_info;
  partner = zero_info;
}

-- The four settings of the system. The calls of lacp_api.c return 0.
unfoldable pub sys_set_prio : ℕ → ℕ → World → Outcome World
sys_set_prio fuel prio w = do
  v ← sys_set_cfg fuel (record zero_sys_cfg { field_mask = 4; priority = prio }) w
  returns (record v { stub = db_set_sys_prio v.stub prio })

unfoldable pub sys_set_long_period : ℕ → ℕ → World → Outcome World
sys_set_long_period fuel period w =
    sys_set_cfg fuel (record zero_sys_cfg { field_mask = 8; long_period = period }) w

unfoldable pub sys_set_short_period : ℕ → ℕ → World → Outcome World
sys_set_short_period fuel period w =
    sys_set_cfg fuel (record zero_sys_cfg { field_mask = 16; short_period = period }) w

unfoldable pub sys_set_period : ℕ → ℕ → World → Outcome World
sys_set_period fuel is_short w =
    sys_set_cfg fuel (record zero_sys_cfg { field_mask = 32; period = is_short }) w

-- `trunk_sys_cfg_t`.
pub record TrunkSysCfg : Type 0 where
  pub prio : ℕ
  pub long_period : ℕ
  pub short_period : ℕ
  pub period : ℕ

-- `trunk_sys_get_cfg`.
unfoldable pub trunk_get_cfg : World → TrunkSysCfg
unfolding sys_get_cfg
trunk_get_cfg w =
    let c = sys_get_cfg w zero_sys_cfg in
    record {
      prio = c.priority;
      long_period = c.long_period;
      short_period = c.short_period;
      period = c.period;
    }

-- `trunk_sys_get_state`.
unfoldable pub trunk_get_state : World → Mac
unfolding sys_get_state
trunk_get_state w = sys_get_state w

-- `trunk_port_get_prio`; `none` is `M_LACP_INTERNEL`.
unfoldable pub port_get_prio : Stub → ℕ → ℕ → Option ℕ
port_get_prio s slot port = elim (get_global_index slot port) [
  | none ↦ none
  | some i ↦ elim (get_port_priority s i) [ none ↦ some 16384 | some prio ↦ some prio ]
]

-- The bitmap with one bit.
abbrev pub one_port : ℕ → Bitmap
one_port i = Bitmap.set_bit Bitmap.clear i

-- The configuration by which a port is turned on. The priority is written through a pointer to 32
-- bits: its low half is the field, on a little-endian host, and the rest falls on fields that are
-- not read.
abbrev pub enable_cfg : ℕ → ℕ → ℕ → PortCfg
enable_cfg i agg_id prio = record {
  field_mask = 15;
  port_bmp = one_port i;
  lacp_enabled = true;
  port_priority = u16 prio;
  agg_id = agg_id;
}

abbrev pub add_member : ℕ → ℕ → ℕ → World → World
add_member agg_id slot port w = record w { stub = db_agg_add_member w.stub agg_id slot port }

-- `trunk_port_lacp_enable`.
unfoldable pub port_lacp_enable : ℕ → ℕ → ℕ → ℕ → World → Reply
unfolding port_get_prio
port_lacp_enable fuel slot port agg_id w = elim (get_global_index slot port) [
  | none ↦ returns (w, m_lacp_internel)
  | some i ↦ do
    u ← create_ports fuel (one_port i) w
    elim (port_get_prio (add_member agg_id slot port u).stub slot port) [
      | none ↦ returns (add_member agg_id slot port u, m_lacp_internel)
      | some prio ↦ do
        v ← port_set_cfg fuel (enable_cfg i agg_id prio) (add_member agg_id slot port u)
        port_link_change fuel v i (if get_port_link_status v.stub i == 0 then 0 else 1)
    ]
]

-- `trunk_port_lacp_disable_batch`.
unfoldable pub port_lacp_disable_batch : ℕ → Bitmap → World → Outcome World
port_lacp_disable_batch fuel ports w = do
  v ← port_set_cfg fuel (record zero_port_cfg { field_mask = 1; port_bmp = ports }) w
  remove_ports ports v

-- The body of the loops of `trunk_agg_delete`; `pbmp` is the copy of the group's ports.
unfoldable pub drop_member : List ℕ → ℕ → ℕ → Stub × Bitmap → Stub × Bitmap
drop_member pbmp slot port (s, ports) =
    if get_pbmp slot port pbmp
    then elim (get_global_index slot port) [
      | none ↦ (s, ports)
      | some i ↦ (db_agg_del_member s slot port, Bitmap.set_bit ports i)
    ]
    else (s, ports)

-- `for (port = 1; port <= 8; port++)` and `for (slot = 0; slot <= 18; slot++)`: the number after
-- the map counts the rounds left.
unfoldable pub drop_ports : List ℕ → ℕ → ℕ → ℕ → Stub × Bitmap → Stub × Bitmap
unfolding drop_member
drop_ports pbmp zero slot port acc = acc
drop_ports pbmp (suc left) slot port acc =
    drop_ports pbmp left slot (port + 1) (drop_member pbmp slot port acc)

unfoldable pub drop_slots : List ℕ → ℕ → ℕ → Stub × Bitmap → Stub × Bitmap
unfolding drop_ports
drop_slots pbmp zero slot acc = acc
drop_slots pbmp (suc left) slot acc = drop_slots pbmp left (slot + 1) (drop_ports pbmp 8 slot 1 acc)

-- `trunk_agg_delete`.
unfoldable pub agg_delete : ℕ → ℕ → World → Outcome World
unfolding drop_slots port_lacp_disable_batch
agg_delete fuel agg_id w =
    let (s, ports) = drop_slots (db_agg_get_member w.stub agg_id) 19 0 (w.stub, Bitmap.clear) in
    port_lacp_disable_batch fuel ports (record w { stub = s })

-- `trunk_port_lacp_disable`.
unfoldable pub port_lacp_disable : ℕ → ℕ → ℕ → World → Reply
unfolding port_lacp_disable_batch
port_lacp_disable fuel slot port w =
    if not (db_port_lacp_is_enable w.stub slot port)
    then returns (w, 0)
    else elim (get_global_index slot port) [
      | none ↦ returns (w, m_lacp_internel)
      | some i ↦
          port_lacp_disable_batch fuel (one_port i)
            (record w { stub = db_agg_del_member w.stub slot port })
          >>= with_code 0
    ]

abbrev pub store_prio : ℕ → ℕ → World → World
store_prio i prio w = record w { stub = set_port_priority w.stub i prio }

-- `trunk_port_set_prio`.
unfoldable pub port_set_prio : ℕ → ℕ → ℕ → ℕ → World → Outcome World
port_set_prio fuel slot port prio w = elim (get_global_index slot port) [
  | none ↦ crashes
  | some i ↦
      if db_port_lacp_is_enable w.stub slot port
      then (do
        v ←
            port_set_cfg fuel
              (record zero_port_cfg {
                field_mask = 4;
                port_bmp = one_port i;
                port_priority = u16 prio;
              })
              w
        returns (store_prio i prio v))
      else returns (store_prio i prio w)
]

-- `trunk_ssp_set_port_speed` and `trunk_ssp_set_port_duplex` of trunk_ssp.c.
abbrev pub cost_cfg : ℕ → PortCfg
cost_cfg i = record zero_port_cfg { field_mask = 2; port_bmp = one_port i }

unfoldable pub ssp_set_port_speed : ℕ → ℕ → ℕ → World → Outcome World
ssp_set_port_speed fuel i speed w =
    port_set_cfg fuel (cost_cfg i) (record w {
      stub = set_port_attr w.stub i (record (get_port_attr w.stub i) { speed = speed });
    })

unfoldable pub ssp_set_port_duplex : ℕ → ℕ → ℕ → World → Outcome World
ssp_set_port_duplex fuel i duplex w = port_set_cfg fuel (cost_cfg i) (record w {
  stub = set_port_attr w.stub i (record (get_port_attr w.stub i) { duplex = duplex });
})

-- `trunk_port_set_speed` and `trunk_port_set_duplex`.
unfoldable pub port_set_speed : ℕ → ℕ → ℕ → ℕ → World → Reply
unfolding ssp_set_port_speed
port_set_speed fuel slot port speed w = elim (get_global_index slot port) [
  | none ↦ returns (w, m_lacp_internel)
  | some i ↦ ssp_set_port_speed fuel i speed w >>= with_code 0
]

unfoldable pub port_set_duplex : ℕ → ℕ → ℕ → ℕ → World → Reply
unfolding ssp_set_port_duplex
port_set_duplex fuel slot port duplex w = elim (get_global_index slot port) [
  | none ↦ returns (w, m_lacp_internel)
  | some i ↦ ssp_set_port_duplex fuel i duplex w >>= with_code 0
]

-- `trunk_port_link_change`.
unfoldable pub trunk_link_change : ℕ → ℕ → ℕ → ℕ → World → Reply
trunk_link_change fuel slot port link_status w =
    if not (db_port_lacp_is_enable w.stub slot port)
    then returns (w, 0)
    else elim (get_global_index slot port) [
      | none ↦ returns (w, m_lacp_internel)
      | some i ↦ port_link_change fuel w i link_status
    ]

-- `trunk_port_clear_stat`.
unfoldable pub port_clear_stat : ℕ → ℕ → ℕ → World → Outcome World
port_clear_stat fuel slot port w = elim (get_global_index slot port) [
  | none ↦ crashes
  | some i ↦
      if db_port_lacp_is_enable w.stub slot port
      then port_set_cfg fuel (record zero_port_cfg { field_mask = 8; port_bmp = one_port i }) w
      else returns w
]

-- `trunk_ssp_rx_lacpdu` of trunk_ssp.c. The trace of the frame is left out, but not the read of its
-- switch, `g_lacp_debug_rx_tx[port_index][0][0]` in an array of 18 slots.
unfoldable pub ssp_rx_lacpdu : ℕ → ℕ → ℕ → LacpPdu → World → Reply
ssp_rx_lacpdu fuel slot port pdu w =
    if not (db_port_lacp_is_enable w.stub slot port)
    then returns (w, 0)
    else elim (get_global_index slot port) [
      | none ↦ returns (w, m_lacp_internel)
      | some i ↦ if ltb i 18 then rx_lacpdu fuel w i pdu else crashes
    ]
