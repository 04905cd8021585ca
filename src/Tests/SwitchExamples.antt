-- ===== src/Tests/SwitchExamples.antt =====
-- The simulated switch and the bitmaps.
use lacp.Base.{
  some, ◌+◌, ◌^◌, ℕ, zero, suc, ◌≡◌, refl, ◌==◌, true, false, if◌then◌else◌, ◌∷◌, replicate, get_or,
  get_or-replicate, arith, ◌<◌, ◌≤◌,
}
use lacp.State.{syn, mask_octet, set_bit, get_bit, to_octet}
use lacp.State.Octet.{macro_set, macro_get, set_bit_octet}
use lacp.Types.{Stub, Bitmap}
use lacp.Bitmap
use lacp.Bitmap.Bits.{IsBitmap, get_bit-set_bit-clear_bit}
use lacp.Stub
use lacp.Stub.Members.{db_agg_get_port_tid-db_agg_add_member, db_agg_get_port_tid-db_agg_del_member}
use lacp.Stub.Pbmp.{IsSlotPort, same}
use lacp.Ssp.{change_to_slot_port, get_global_index}
use lacp.Ssp.Index.{split_index, change_to_slot_port-get_global_index}
use lacp.Tests.Worlds.{active_state}

set_bit_octet_example :
    (to_octet (set_bit active_state syn true)
      ≡ macro_set (to_octet active_state) (mask_octet syn) true)
    × (get_bit active_state syn ≡ macro_get (to_octet active_state) (mask_octet syn))
set_bit_octet_example = set_bit_octet active_state syn true

-- A bitmap with bit 0 set.
abbrev one_bit : Bitmap
one_bit = 1 ∷ replicate 18 0

one_bit-octets : (i : ℕ) → get_or one_bit i 0 < 256
one_bit-octets zero = omega arith
one_bit-octets (suc i) = let e = get_or-replicate {A = ℕ} 18 i 0 in omega (arith, e)

one_bit-IsBitmap : IsBitmap one_bit
one_bit-IsBitmap = record { size = refl; octets = one_bit-octets }

get_bit-set_bit-clear_bit_example :
    ((Bitmap.get_bit (Bitmap.set_bit one_bit 9) 0 == 0)
      ≡ (if 9 == 0 then false else (Bitmap.get_bit one_bit 0 == 0)))
    × ((Bitmap.get_bit (Bitmap.clear_bit one_bit 9) 0 == 0)
        ≡ (if 9 == 0 then true else (Bitmap.get_bit one_bit 0 == 0)))
get_bit-set_bit-clear_bit_example =
    get_bit-set_bit-clear_bit one_bit 9 0 one_bit-IsBitmap (omega arith)

-- Port 1 of slot 0 is in every group.
abbrev joined : Stub
unfolding Stub.init
joined = record Stub.init { link_groups = λ _. record { cnt = 1; ports = one_bit } }

slot_port : (port : ℕ) → 1 ≤ port → port ≤ 8 → IsSlotPort 0 port
slot_port port a b = record { slot_below = omega arith; port_from = a; port_to = b }

db_agg_get_port_tid-db_agg_add_member_example :
    let t = Stub.db_agg_add_member joined 2 0 5 in
    (Stub.db_agg_get_port_tid t 0 5 ≡ 2)
    × ((x y : ℕ)
        → IsSlotPort x y
        → same 0 5 x y ≡ false
        → Stub.db_agg_get_port_tid t x y ≡ Stub.db_agg_get_port_tid joined x y)
unfolding Stub.db_agg_get_port_tid joined
db_agg_get_port_tid-db_agg_add_member_example =
    db_agg_get_port_tid-db_agg_add_member joined 2 0 5 (λ g. one_bit-IsBitmap)
      (slot_port 5 (omega arith) (omega arith)) (omega arith) (omega arith) refl

db_agg_get_port_tid-db_agg_del_member_example :
    Stub.db_agg_get_port_tid (Stub.db_agg_del_member joined 0 1) 0 1
    ≡ (if same 0 1 0 1 then 0 else Stub.db_agg_get_port_tid joined 0 1)
unfolding joined
db_agg_get_port_tid-db_agg_del_member_example =
    db_agg_get_port_tid-db_agg_del_member joined 0 1 0 1 (λ g. one_bit-IsBitmap)
      (slot_port 1 (omega arith) (omega arith)) (slot_port 1 (omega arith) (omega arith))

change_to_slot_port-get_global_index_example :
    (get_global_index (change_to_slot_port 12).0 (change_to_slot_port 12).1 ≡ some 12)
    × (1 ≤ (change_to_slot_port 12).1)
    × ((change_to_slot_port 12).1 ≤ 8)
    × (split_index (get_global_index 3 5) ≡ some (3, 5))
    × (get_global_index (3 + 2 ^ 29) 5 ≡ get_global_index 3 5)
change_to_slot_port-get_global_index_example =
    change_to_slot_port-get_global_index 12 3 4 (omega arith) (omega arith) (omega arith)
