-- ===== src/Ssp/Index.antt =====
-- trunk_ssp.c: the numbering of the switch's ports.
use lacp.Base.{
  ℕ, suc, ◌+◌, ◌*◌, ◌/◌, ◌%◌, ◌^◌, ◌≤◌, ◌<◌, ◌≡◌, refl, sym, ◌∙◌, ap, Option, none, some, arith,
}
use lacp.Types.{u32}
use lacp.Ssp.{change_to_slot_port, get_global_index}

-- The slot and the port that an index found, if any, is split into.
abbrev pub split_index : Option ℕ → Option (ℕ × ℕ)
split_index none = none
split_index (some i) = some (change_to_slot_port i)

index_of : (slot port k : ℕ) → port ≡ suc k → get_global_index slot port ≡ some (u32 (slot * 8 + k))
unfolding get_global_index
index_of slot port k e = ground (arith, e)

got_back : (i : ℕ) → i < 2 ^ 32 → get_global_index (i / 8) (i % 8 + 1) ≡ some i
unfolding get_global_index
got_back i b = ground (arith, b)

pair : (a b c d : ℕ) → a ≡ c → b ≡ d → ◌≡◌ {A = ℕ × ℕ} (a, b) (c, d)
pair a b c d e f = cc

split_back :
    (slot k : ℕ) → slot < 2 ^ 29 → k < 8 → change_to_slot_port (u32 (slot * 8 + k)) ≡ (slot, suc k)
unfolding change_to_slot_port
split_back slot k b h = pair _ _ slot (suc k) (omega (arith, b, h)) (omega (arith, b, h))

wrapped : (slot k : ℕ) → u32 ((slot + 2 ^ 29) * 8 + k) ≡ u32 (slot * 8 + k)
wrapped slot k = omega arith

-- A global index of 32 bits is split into a slot and a port between 1 and 8, and is got back from
-- them; a slot below 2^29 with a port between 1 and 8 is got back from its global index; and the
-- slot that is 2^29 higher has the same global index.
pub change_to_slot_port-get_global_index :
    (i slot k : ℕ)
    → i < 2 ^ 32
    → slot < 2 ^ 29
    → k < 8
    → (get_global_index (change_to_slot_port i).0 (change_to_slot_port i).1 ≡ some i)
      × (1 ≤ (change_to_slot_port i).1)
      × ((change_to_slot_port i).1 ≤ 8)
      × (split_index (get_global_index slot (suc k)) ≡ some (slot, suc k))
      × (get_global_index (slot + 2 ^ 29) (suc k) ≡ get_global_index slot (suc k))
unfolding change_to_slot_port
change_to_slot_port-get_global_index i slot k b h p = (
  got_back i b,
  omega arith,
  omega arith,
  ap split_index (index_of slot (suc k) k refl) ∙ ap some (split_back slot k h p),
  index_of (slot + 2 ^ 29) (suc k) k refl
      ∙ ap some (wrapped slot k)
      ∙ sym (index_of slot (suc k) k refl),
)
