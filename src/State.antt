-- ===== src/State.antt =====
-- lacp_lib/LACP/lacp_type.h: `lacp_state_t`, the octet of eight flags that a port and its partner
-- exchange, with the macros that write, read and compare one flag. The record has the fields of
-- the bit-field structure that the header keeps beside the octet; `to_octet` is the octet.
pub mod Octet
use lacp.Base.{ℕ, ◌+◌, Bool, true, false, not, if◌then◌else◌, eqb}

pub record LacpState : Type 0 where
  pub lacp_activity : Bool
  pub lacp_timeout : Bool
  pub aggregation : Bool
  pub synchronization : Bool
  pub collecting : Bool
  pub distributing : Bool
  pub defaulted : Bool
  pub expired : Bool

-- `LACP_STATE_ACT` to `LACP_STATE_EXP`.
pub data Mask : Type 0 where
  act tmt agg syn col dis def exp : Mask

abbrev pub mask_octet : Mask → ℕ
mask_octet act = 0x1
mask_octet tmt = 0x2
mask_octet agg = 0x4
mask_octet syn = 0x8
mask_octet col = 0x10
mask_octet dis = 0x20
mask_octet def = 0x40
mask_octet exp = 0x80

-- `LACP_STATE_SET_BIT`.
abbrev pub set_bit : LacpState → Mask → Bool → LacpState
set_bit s act v = record s { lacp_activity = v }
set_bit s tmt v = record s { lacp_timeout = v }
set_bit s agg v = record s { aggregation = v }
set_bit s syn v = record s { synchronization = v }
set_bit s col v = record s { collecting = v }
set_bit s dis v = record s { distributing = v }
set_bit s def v = record s { defaulted = v }
set_bit s exp v = record s { expired = v }

-- `LACP_STATE_GET_BIT`.
abbrev pub get_bit : LacpState → Mask → Bool
get_bit s act = s.lacp_activity
get_bit s tmt = s.lacp_timeout
get_bit s agg = s.aggregation
get_bit s syn = s.synchronization
get_bit s col = s.collecting
get_bit s dis = s.distributing
get_bit s def = s.defaulted
get_bit s exp = s.expired

-- `LACP_STATE_CMP_BIT`: true where the flags differ.
abbrev pub cmp_bit : LacpState → LacpState → Mask → Bool
cmp_bit s t m = not (eqb (get_bit s m) (get_bit t m))

-- A `calloc`ed or `memset` octet.
abbrev pub zero_state : LacpState
zero_state = record {
  lacp_activity = false;
  lacp_timeout = false;
  aggregation = false;
  synchronization = false;
  collecting = false;
  distributing = false;
  defaulted = false;
  expired = false;
}

abbrev weight : Bool → ℕ → ℕ
weight b n = if b then n else 0

-- The octet itself.
unfoldable pub to_octet : LacpState → ℕ
to_octet s =
    weight s.lacp_activity 0x1
    + weight s.lacp_timeout 0x2
    + weight s.aggregation 0x4
    + weight s.synchronization 0x8
    + weight s.collecting 0x10
    + weight s.distributing 0x20
    + weight s.defaulted 0x40
    + weight s.expired 0x80
