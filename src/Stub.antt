-- ===== src/Stub.antt =====
-- lacp_lib/lacp_stub.c and the macros of lacp_stub.h: the simulated switch, its port attributes
-- and its link groups.
pub mod Pbmp
pub mod Members
use lacp.Base.{
  ℕ, zero, suc, ◌+◌, ◌-◌, ◌/◌, ◌%◌, ◌^◌, Bool, not, ◌==◌, if◌then◌else◌, Option, none, some, update,
  List, bit_and, bit_or, set, get_or, replicate,
}
use lacp.Types.{PortAttr, Stub, u32}

-- `0xffffffff`, the value of a priority that is not set.
abbrev pub unset_prio : ℕ
unset_prio = 0xffff_ffff

-- `BCM_HWW_TRUNK_SET_PBMP`, `_CLEAR_PBMP` and `_GET_PBMP`.
abbrev pub set_pbmp : ℕ → ℕ → List ℕ → List ℕ
set_pbmp slot port pbmp = set pbmp slot (bit_or (get_or pbmp slot 0) (2 ^ (port - 1)))

abbrev pub clear_pbmp : ℕ → ℕ → List ℕ → List ℕ
clear_pbmp slot port pbmp = set pbmp slot (bit_and (get_or pbmp slot 0) (0xff - 2 ^ (port - 1)))

abbrev pub get_pbmp : ℕ → ℕ → List ℕ → Bool
get_pbmp slot port pbmp = not (bit_and (get_or pbmp slot 0) (2 ^ (port - 1)) == 0)

-- `stub_init`. All cells of an array beyond its length are never read.
unfoldable pub init : Stub
init = record {
  sys_prio = unset_prio;
  port_list = λ i. record {
    slot = i / 8;
    port = i % 8 + 1;
    speed = 1000;
    duplex = 1;
    cd = 1;
    tid = 0;
    link_status = 0;
    prio = unset_prio;
  };
  link_groups = λ _. record { cnt = 0; ports = replicate 19 0 };
}

unfoldable pub db_agg_has_member : Stub → ℕ → Bool
db_agg_has_member s agg_id = not ((s.link_groups (agg_id - 1)).cnt == 0)

unfoldable pub db_agg_get_member : Stub → ℕ → List ℕ
db_agg_get_member s agg_id = (s.link_groups (agg_id - 1)).ports

unfoldable pub db_agg_add_member : Stub → ℕ → ℕ → ℕ → Stub
db_agg_add_member s agg_id slot port =
    let g = s.link_groups (agg_id - 1) in
    record s {
      link_groups =
          update s.link_groups (agg_id - 1)
            (record { cnt = u32 (g.cnt + 1); ports = set_pbmp slot port g.ports });
    }

-- `for (j=0; j<32; j++)`: the first argument counts the rounds left, the second is `j`.
unfoldable pub clear_member : ℕ → ℕ → ℕ → ℕ → Stub → Stub
clear_member zero j slot port s = s
clear_member (suc left) j slot port s = clear_member left (suc j) slot port (record s {
  link_groups =
      update s.link_groups j
        (record (s.link_groups j) { ports = clear_pbmp slot port (s.link_groups j).ports });
})

unfoldable pub db_agg_del_member : Stub → ℕ → ℕ → Stub
unfolding clear_member
db_agg_del_member s slot port = clear_member 32 0 slot port s

unfoldable pub find_group : ℕ → ℕ → ℕ → ℕ → Stub → ℕ
find_group zero i slot port s = 0
find_group (suc left) i slot port s =
    let rest = find_group left (suc i) slot port s in
    if get_pbmp slot port (s.link_groups i).ports then i + 1 else rest

unfoldable pub db_agg_get_port_tid : Stub → ℕ → ℕ → ℕ
unfolding find_group
db_agg_get_port_tid s slot port = find_group 32 0 slot port s

unfoldable pub db_port_lacp_is_enable : Stub → ℕ → ℕ → Bool
unfolding db_agg_get_port_tid
db_port_lacp_is_enable s slot port = not (db_agg_get_port_tid s slot port == 0)

abbrev pub get_port_attr : Stub → ℕ → PortAttr
get_port_attr s i = s.port_list i

abbrev pub set_port_attr : Stub → ℕ → PortAttr → Stub
set_port_attr s i attr = record s { port_list = update s.port_list i attr }

-- `none` is `M_LACP_NOT_FOUND`.
unfoldable pub get_port_priority : Stub → ℕ → Option ℕ
get_port_priority s i =
    if (get_port_attr s i).prio == unset_prio then none else some (get_port_attr s i).prio

unfoldable pub set_port_priority : Stub → ℕ → ℕ → Stub
set_port_priority s i prio = set_port_attr s i (record (get_port_attr s i) { prio = prio })

unfoldable pub db_get_sys_prio : Stub → Option ℕ
db_get_sys_prio s = if s.sys_prio == unset_prio then none else some s.sys_prio

unfoldable pub db_set_sys_prio : Stub → ℕ → Stub
db_set_sys_prio s prio = record s { sys_prio = prio }
