-- ===== src/Stub/Pbmp.antt =====
-- lacp_stub.h: the bits of a link group, one for a slot and a port.
use lacp.Base.{
  ℕ, ◌+◌, ◌-◌, ◌*◌, ◌/◌, ◌%◌, ◌<◌, ◌≤◌, ◌≡◌, refl, sym, ap, ◌∙◌, Bool, true, false, not, ◌&&◌, ◌==◌,
  if◌then◌else◌, arith,
}
use lacp.Types.{Bitmap}
use lacp.Bitmap
use lacp.Bitmap.Bits.{IsBitmap, get_bit-set_bit-clear_bit}
use lacp.Stub.{set_pbmp, clear_pbmp, get_pbmp}

-- A slot and a port of the switch, as a bit of a group.
abbrev bit_of : ℕ → ℕ → ℕ
bit_of slot port = slot * 8 + (port - 1)

-- The ports that a group's bitmap has.
pub record IsSlotPort (slot port : ℕ) : Type 0 where
  pub slot_below : slot < 19
  pub port_from : 1 ≤ port
  pub port_to : port ≤ 8

quotient_of : (slot port : ℕ) → IsSlotPort slot port → bit_of slot port / 8 ≡ slot
quotient_of slot port r = let a = r.port_from in let b = r.port_to in omega (arith, a, b)

remainder_of : (slot port : ℕ) → IsSlotPort slot port → bit_of slot port % 8 ≡ port - 1
remainder_of slot port r = let a = r.port_from in let b = r.port_to in omega (arith, a, b)

get_pbmp_bit :
    (slot port : ℕ) (b : Bitmap)
    → IsSlotPort slot port
    → get_pbmp slot port b ≡ not (Bitmap.get_bit b (bit_of slot port) == 0)
unfolding Bitmap.get_bit
get_pbmp_bit slot port b r = rw (quotient_of slot port r, remainder_of slot port r) refl

set_pbmp_bit :
    (slot port : ℕ) (b : Bitmap)
    → IsSlotPort slot port
    → set_pbmp slot port b ≡ Bitmap.set_bit b (bit_of slot port)
unfolding Bitmap.set_bit
set_pbmp_bit slot port b r = rw (quotient_of slot port r, remainder_of slot port r) refl

clear_pbmp_bit :
    (slot port : ℕ) (b : Bitmap)
    → IsSlotPort slot port
    → clear_pbmp slot port b ≡ Bitmap.clear_bit b (bit_of slot port)
unfolding Bitmap.clear_bit
clear_pbmp_bit slot port b r = rw (quotient_of slot port r, remainder_of slot port r) refl

abbrev pub same : ℕ → ℕ → ℕ → ℕ → Bool
same slot port x y = slot == x && port == y

same-bit_of :
    (slot port x y : ℕ)
    → IsSlotPort slot port
    → IsSlotPort x y
    → (bit_of slot port == bit_of x y) ≡ same slot port x y
same-bit_of slot port x y r q =
    let a = r.port_from in
    let b = r.port_to in let c = q.port_from in let d = q.port_to in ground arith

bit_below : (slot port : ℕ) → IsSlotPort slot port → bit_of slot port < 152
bit_below slot port r =
    let a = r.slot_below in let b = r.port_to in let c = r.port_from in omega (arith, a, b, c)

not_if : (c t d : Bool) → not (if c then t else d) ≡ (if c then not t else not d)
not_if true t d = refl
not_if false t d = refl

pub get_pbmp-set_pbmp :
    (slot port x y : ℕ) (b : Bitmap)
    → IsBitmap b
    → IsSlotPort slot port
    → IsSlotPort x y
    → get_pbmp x y (set_pbmp slot port b) ≡ (if same slot port x y then true else get_pbmp x y b)
get_pbmp-set_pbmp slot port x y b w r q =
    ap (get_pbmp x y) (set_pbmp_bit slot port b r)
    ∙ get_pbmp_bit x y (Bitmap.set_bit b (bit_of slot port)) q
    ∙ ap not (
        (get_bit-set_bit-clear_bit b (bit_of slot port) (bit_of x y) w (bit_below slot port r)).0
        ∙ ap (λ c. if c then false else (Bitmap.get_bit b (bit_of x y) == 0))
            (same-bit_of slot port x y r q))
    ∙ not_if (same slot port x y) false (Bitmap.get_bit b (bit_of x y) == 0)
    ∙ ap (λ c. if same slot port x y then not false else c) (sym (get_pbmp_bit x y b q))

pub get_pbmp-clear_pbmp :
    (slot port x y : ℕ) (b : Bitmap)
    → IsBitmap b
    → IsSlotPort slot port
    → IsSlotPort x y
    → get_pbmp x y (clear_pbmp slot port b) ≡ (if same slot port x y then false else get_pbmp x y b)
get_pbmp-clear_pbmp slot port x y b w r q =
    ap (get_pbmp x y) (clear_pbmp_bit slot port b r)
    ∙ get_pbmp_bit x y (Bitmap.clear_bit b (bit_of slot port)) q
    ∙ ap not (
        (get_bit-set_bit-clear_bit b (bit_of slot port) (bit_of x y) w (bit_below slot port r)).1
        ∙ ap (λ c. if c then true else (Bitmap.get_bit b (bit_of x y) == 0))
            (same-bit_of slot port x y r q))
    ∙ not_if (same slot port x y) true (Bitmap.get_bit b (bit_of x y) == 0)
    ∙ ap (λ c. if same slot port x y then not true else c) (sym (get_pbmp_bit x y b q))
