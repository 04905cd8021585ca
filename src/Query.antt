-- ===== src/Query.antt =====
-- lacp_lib/LACP/lacp_api.c: the calls that report the state of the library.
use lacp.Base.{
  ℕ, ◌+◌, Bool, true, false, not, ◌&&◌, ◌==◌, leb, if◌then◌else◌, Option, none, some, List, [], ◌∷◌,
  set, get_or, elem,
}
use lacp.Types.{PortInfo, Bitmap, Mac, Port, World, Outcome, returns, crashes, ◌>>=◌}
use lacp.Bitmap
use lacp.Create.{port_find}
use lacp.Api.{port_max}
use lacp.Events.{SysCfg}

-- `lacp_port_state_t`.
pub record PortState : Type 0 where
  pub valid : Bool
  pub port_index : ℕ
  pub key : ℕ
  pub agg_id : ℕ
  pub master_port : ℕ
  pub sel_state : Bool
  pub rx_cnt : ℕ
  pub tx_cnt : ℕ
  pub actor : PortInfo
  pub partner : PortInfo

-- `*state_para` after `_lacp_copy_port_state(state_para, port)`; the key is left as it was. It reads
-- the index through the pointer `master_port`, which is allocated only if that port is in the list.
unfoldable pub copy_port_state : List ℕ → PortState → ℕ → Port → Outcome PortState
copy_port_state ports s i p =
    if elem p.master_port ports
    then returns (record {
      valid = true;
      port_index = i;
      key = s.key;
      agg_id = p.agg_id;
      master_port = p.master_port;
      sel_state = p.selected && not p.standby;
      rx_cnt = p.rx_lacpdu_cnt;
      tx_cnt = p.tx_lacpdu_cnt;
      actor = p.actor;
      partner = p.partner;
    })
    else crashes

-- Whether a port is reported as the master: it is selected, off standby, and points to itself.
unfoldable pub is_master : ℕ → Port → Bool
is_master i p = p.selected && not p.standby && p.master_port == i

-- The loop of `lacp_agg_get_port_state`. `blank` stands for a cell beyond the array, and `ports` are
-- the ports that exist.
unfoldable pub report_ports :
    List ℕ
    → PortState
    → (ℕ → Port)
    → ℕ
    → List ℕ
    → ℕ
    → List PortState
    → ℕ
    → Outcome (List PortState × ℕ)
unfolding copy_port_state is_master
report_ports ports blank cell agg_id [] cnt state_para master = returns (state_para, master)
report_ports ports blank cell agg_id (p ∷ ps) cnt state_para master =
    elim ((cell p).agg_id == agg_id) [
      | false ↦ report_ports ports blank cell agg_id ps cnt state_para master
      | true ↦ elim (leb 8 cnt) [
        | true ↦ returns (state_para, master)
        | false ↦ copy_port_state ports (get_or state_para cnt blank) p (cell p) >>= λ s.
            report_ports ports blank cell agg_id ps (cnt + 1) (set state_para cnt s)
              (if is_master p (cell p) then cnt else master)
      ]
    ]

-- `lacp_agg_get_port_state`: the array of the caller, and `*master_index`.
unfoldable pub agg_get_port_state :
    PortState → World → ℕ → List PortState → ℕ → Outcome (List PortState × ℕ)
unfolding report_ports
agg_get_port_state blank w agg_id state_para master =
    report_ports w.sys.ports blank w.cell agg_id w.sys.ports 0 state_para master

-- `lacp_port_get_port_state`; `none` is `M_LACP_NOT_FOUND`.
unfoldable pub port_get_port_state : World → ℕ → PortState → Outcome (Option PortState)
unfolding copy_port_state port_find
port_get_port_state w i s = elim (port_find w i) [
  | none ↦ returns none
  | some p ↦ copy_port_state w.sys.ports s p (w.cell p) >>= λ t. returns (some t)
]

-- `lacp_port_get_dbg_cfg`: a copy of the structure; `none` is `M_LACP_NOT_FOUND`.
unfoldable pub port_get_dbg_cfg : World → ℕ → Option Port
unfolding port_find
port_get_dbg_cfg w i = elim (port_find w i) [ none ↦ none | some p ↦ some (w.cell p) ]

-- The loop of `lacp_sys_get_cfg`.
unfoldable pub add_bits : List ℕ → Bitmap → Bitmap
add_bits [] b = b
add_bits (p ∷ ps) b = add_bits ps (Bitmap.set_bit b p)

-- `lacp_sys_get_cfg`; it returns 0.
unfoldable pub sys_get_cfg : World → SysCfg → SysCfg
unfolding add_bits
sys_get_cfg w cfg = record cfg {
  number_of_ports = port_max;
  ports = add_bits w.sys.ports cfg.ports;
  priority = w.sys.priority;
  sys_mac = w.sys.mac;
  short_period = w.sys.fast_periodic_time;
  long_period = w.sys.slow_periodic_time;
  period = w.sys.lacp_timeout;
}

-- `lacp_sys_get_state`; it returns 0.
unfoldable pub sys_get_state : World → Mac
sys_get_state w = w.sys.mac
