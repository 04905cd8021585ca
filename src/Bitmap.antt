-- ===== src/Bitmap.antt =====
-- lacp_lib/BITMAP/bitmap.c: a bitmap of 19 octets. An octet is its bit pattern, below 256; an
-- `int` that the code only tests against 0 is a number, 0 where the test fails.
pub mod Bits
use lacp.Base.{
  ℕ, ◌-◌, ◌/◌, ◌%◌, ◌^◌, ◌==◌, if◌then◌else◌, [], ◌∷◌, map, bit_and, bit_or, bit_xor, set, get_or,
  replicate,
}
use lacp.Types.{Bitmap}

-- `LACP_MAX_BITMAP_BYTE`.
abbrev pub max_bitmap_byte : ℕ
max_bitmap_byte = 19

-- The loop `for (i = 0; i < LACP_MAX_BITMAP_BYTE; i++) r[i] = op(a[i], b[i])`.
unfoldable pub zip_bytes : (ℕ → ℕ → ℕ) → Bitmap → Bitmap → Bitmap
zip_bytes op [] bs = []
zip_bytes op (a ∷ as_) [] = []
zip_bytes op (a ∷ as_) (b ∷ bs) = op a b ∷ zip_bytes op as_ bs

unfoldable pub clear : Bitmap
clear = replicate max_bitmap_byte 0

unfoldable pub set_all_bits : Bitmap
set_all_bits = replicate max_bitmap_byte 0xff

unfoldable pub clear_bits : Bitmap → Bitmap → Bitmap
clear_bits = zip_bytes (λ a b. bit_and a (0xff - b))

unfoldable pub set_bits : Bitmap → Bitmap → Bitmap
set_bits = zip_bytes bit_or

unfoldable pub or : Bitmap → Bitmap → Bitmap
or = zip_bytes bit_or

unfoldable pub and : Bitmap → Bitmap → Bitmap
and = zip_bytes bit_and

unfoldable pub xor : Bitmap → Bitmap → Bitmap
xor = zip_bytes bit_xor

unfoldable pub complement : Bitmap → Bitmap
complement = map (λ a. 0xff - a)

-- `memcmp(a, b, 19)`: only whether it is 0 is modelled.
unfoldable pub cmp : Bitmap → Bitmap → ℕ
cmp [] [] = 0
cmp [] (b ∷ bs) = 1
cmp (a ∷ as_) [] = 1
cmp (a ∷ as_) (b ∷ bs) = if a == b then cmp as_ bs else 1

unfoldable pub is_zero : Bitmap → ℕ
unfolding cmp clear
is_zero b = if cmp b clear == 0 then 1 else 0

unfoldable pub is_all_ones : Bitmap → ℕ
unfolding cmp set_all_bits
is_all_ones b = cmp b set_all_bits

unfoldable pub get_bit : Bitmap → ℕ → ℕ
get_bit b bit = bit_and (get_or b (bit / 8) 0) (2 ^ (bit % 8))

unfoldable pub set_bit : Bitmap → ℕ → Bitmap
set_bit b bit = set b (bit / 8) (bit_or (get_or b (bit / 8) 0) (2 ^ (bit % 8)))

unfoldable pub clear_bit : Bitmap → ℕ → Bitmap
clear_bit b bit = set b (bit / 8) (bit_and (get_or b (bit / 8) 0) (0xff - 2 ^ (bit % 8)))

unfoldable pub copy : Bitmap → Bitmap
copy src = src
