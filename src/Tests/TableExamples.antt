-- ===== src/Tests/TableExamples.antt =====
-- Ports created, deleted and removed.
use lacp.Base.{ℕ, ◌≡◌, refl, ◌==◌, ltb, ◌&&◌, if◌then◌else◌, none, some, ◌∷◌, replicate, arith}
use lacp.Types.{World, Bitmap, returns, crashes}
use lacp.Bitmap
use lacp.Create.{port_create, port_delete, port_find}
use lacp.Create.Table.{Nodup, port_create-port_delete}
use lacp.Api.{port_max, in_bitmap, remove_ports}
use lacp.Api.Remove.{remove_ports-port_find}
use lacp.Events.{SysCfg, sys_set_cfg}
use lacp.Events.Absent.{sys_set_cfg-absent}
use lacp.Tests.Worlds.{two}

two-Nodup : Nodup two.sys.ports
unfolding two
two-Nodup = (refl, (refl, tt))

port_create-port_delete_example :
    (port_create two 2 ≡ none → port_find two 2 ≡ some 2)
    × ((v : World)
        → port_create two 2 ≡ some v
        → (port_find two 2 ≡ none)
          × Nodup v.sys.ports
          × ((j : ℕ) → port_find v j ≡ (if 2 == j then some j else port_find two j)))
    × ((v : World)
        → port_delete two (port_find two 2) ≡ returns v
        → (port_find two 2 ≡ some 2)
          × Nodup v.sys.ports
          × ((j : ℕ) → port_find v j ≡ (if 2 == j then none else port_find two j)))
port_create-port_delete_example = port_create-port_delete two 2 two-Nodup

-- The ports 1 and 3.
abbrev some_ports : Bitmap
some_ports = 10 ∷ replicate 18 0

remove_ports-port_find_example :
    (v : World) × (remove_ports some_ports two ≡ returns v)
    × Nodup v.sys.ports
    × ((j : ℕ)
        → port_find v j
          ≡ (if in_bitmap some_ports j && ltb j port_max then none else port_find two j))
remove_ports-port_find_example = remove_ports-port_find some_ports two two-Nodup

abbrev deletion : SysCfg
deletion = record {
  field_mask = 2;
  number_of_ports = 0;
  sys_mac = replicate 6 0;
  ports = some_ports;
  priority = 0;
  short_period = 0;
  long_period = 0;
  period = 0;
}

sys_set_cfg-absent_example : sys_set_cfg 100 deletion two ≡ crashes
unfolding two Bitmap.get_bit
sys_set_cfg-absent_example = sys_set_cfg-absent 100 deletion two 3 refl refl refl (omega arith) refl
