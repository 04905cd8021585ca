-- ===== src/Bitmap/Bits.antt =====
-- bitmap.c: single bits of a bitmap.
use lacp.Base.{
  ℕ, zero, suc, ◌-◌, ◌/◌, ◌%◌, ◌^◌, ◌<◌, ◌≡◌, ◌≢◌, refl, sym, ap, ◌∙◌, Bool, true, false, ◌&&◌,
  ◌==◌, eqb, ==_iff, if◌then◌else◌, bit_and, bit_or, set, get_or, length, arith, Bool-cases, inl,
  inr, get_or-set_self, get_or-set_ne,
}
use lacp.Types.{Bitmap}
use lacp.Bitmap.{get_bit, set_bit, clear_bit}

-- A test that holds of all numbers below a bound.
pub all_below : ℕ → (ℕ → Bool) → Bool
all_below zero f = true
all_below (suc n) f = f n && all_below n f

pub all_below_sound : (n : ℕ) (f : ℕ → Bool) → all_below n f ≡ true → (x : ℕ) → x < n → f x ≡ true
unfolding all_below
all_below_sound zero f h x b = absurd (omega arith)
all_below_sound (suc n) f h x b = elim (Bool-cases (x == n)) [
  | inl e ↦ ground (arith, ==_iff x n)
  | inr e ↦ all_below_sound n f (ground arith) x (ground (arith, ==_iff x n))
]

-- What writing the bit `j` of an octet does to its bit `k`.
octet_law : ℕ → ℕ → ℕ → Bool
octet_law x j k =
    eqb (bit_and (bit_or x (2 ^ j)) (2 ^ k) == 0)
      (if j == k then false else (bit_and x (2 ^ k) == 0))
    && eqb (bit_and (bit_and x (0xff - 2 ^ j)) (2 ^ k) == 0)
        (if j == k then true else (bit_and x (2 ^ k) == 0))

octet_table : all_below 8 (λ j. all_below 8 (λ k. all_below 256 (λ x. octet_law x j k))) ≡ true
unfolding all_below octet_law
octet_table = refl

octet : (x j k : ℕ) → x < 256 → j < 8 → k < 8 → octet_law x j k ≡ true
octet x j k a b c =
    all_below_sound 256 (λ y. octet_law y j k)
      (all_below_sound 8 (λ l. all_below 256 (λ y. octet_law y j l))
        (all_below_sound 8 (λ m. all_below 8 (λ l. all_below 256 (λ y. octet_law y m l)))
          octet_table j b)
        k c)
      x a

eqb_sound : (a b : Bool) → eqb a b ≡ true → a ≡ b
eqb_sound a b h = ground arith

and_true : (a b : Bool) → (a && b) ≡ true → (a ≡ true) × (b ≡ true)
and_true a b h = ground arith

pub or_octet :
    (x j k : ℕ)
    → x < 256
    → j < 8
    → k < 8
    → (bit_and (bit_or x (2 ^ j)) (2 ^ k) == 0)
      ≡ (if j == k then false else (bit_and x (2 ^ k) == 0))
unfolding octet_law
or_octet x j k a b c = eqb_sound _ _ (and_true _ _ (octet x j k a b c)).0

pub and_octet :
    (x j k : ℕ)
    → x < 256
    → j < 8
    → k < 8
    → (bit_and (bit_and x (0xff - 2 ^ j)) (2 ^ k) == 0)
      ≡ (if j == k then true else (bit_and x (2 ^ k) == 0))
unfolding octet_law
and_octet x j k a b c = eqb_sound _ _ (and_true _ _ (octet x j k a b c)).1

-- Nineteen octets.
pub record IsBitmap (b : Bitmap) : Type 0 where
  pub size : length b ≡ 19
  pub octets : (i : ℕ) → get_or b i 0 < 256

same_bit : (i j : ℕ) → i / 8 ≡ j / 8 → (i % 8 == j % 8) ≡ (i == j)
same_bit i j e = ground arith

apart : (i j : ℕ) → i / 8 ≢ j / 8 → (i == j) ≡ false
apart i j ne = elim (Bool-cases (i == j)) [
  | inl e ↦ absurd (ne (ap (λ x. x / 8) (ground (arith, e))))
  | inr e ↦ e
]

-- Two bits of one octet.
same_octet :
    (b : Bitmap) (f : ℕ → ℕ → ℕ) (t : Bool) (i j : ℕ)
    → ((x k l : ℕ)
        → x < 256
        → k < 8
        → l < 8
        → (bit_and (f x k) (2 ^ l) == 0) ≡ (if k == l then t else (bit_and x (2 ^ l) == 0)))
    → IsBitmap b
    → i < 152
    → i / 8 ≡ j / 8
    → (get_bit (set b (i / 8) (f (get_or b (i / 8) 0) (i % 8))) j == 0)
      ≡ (if i == j then t else (get_bit b j == 0))
unfolding get_bit
same_octet b f t i j law w h e =
    let x = get_or b (i / 8) 0 in
    let size = w.size in
    ap (λ q. bit_and (get_or (set b (i / 8) (f x (i % 8))) q 0) (2 ^ (j % 8)) == 0) (sym e)
    ∙ ap (λ y. bit_and y (2 ^ (j % 8)) == 0)
        (get_or-set_self b (i / 8) (f x (i % 8)) 0 (omega (arith, size)))
    ∙ law x (i % 8) (j % 8) (w.octets (i / 8)) (omega arith) (omega arith)
    ∙ ap (λ c. if c then t else (bit_and x (2 ^ (j % 8)) == 0)) (same_bit i j e)
    ∙ ap (λ q. if i == j then t else (bit_and (get_or b q 0) (2 ^ (j % 8)) == 0)) e

other_octet :
    (b : Bitmap) (x : ℕ) (t : Bool) (i j : ℕ)
    → i / 8 ≢ j / 8
    → (get_bit (set b (i / 8) x) j == 0) ≡ (if i == j then t else (get_bit b j == 0))
unfolding get_bit
other_octet b x t i j ne =
    ap (λ y. bit_and y (2 ^ (j % 8)) == 0) (get_or-set_ne b (i / 8) (j / 8) x 0 ne)
    ∙ ap (λ c. if c then t else (bit_and (get_or b (j / 8) 0) (2 ^ (j % 8)) == 0))
        (sym (apart i j ne))

-- A write to one bit, by an operation on its octet, seen from another bit.
write_law :
    (b : Bitmap) (f : ℕ → ℕ → ℕ) (t : Bool) (i j : ℕ)
    → ((x k l : ℕ)
        → x < 256
        → k < 8
        → l < 8
        → (bit_and (f x k) (2 ^ l) == 0) ≡ (if k == l then t else (bit_and x (2 ^ l) == 0)))
    → IsBitmap b
    → i < 152
    → (get_bit (set b (i / 8) (f (get_or b (i / 8) 0) (i % 8))) j == 0)
      ≡ (if i == j then t else (get_bit b j == 0))
unfolding get_bit
write_law b f t i j law w h = elim (Bool-cases (i / 8 == j / 8)) [
  | inl e ↦ let q = ==_iff (i / 8) (j / 8) in same_octet b f t i j law w h (ground (arith, q))
  | inr e ↦
      let q = ==_iff (i / 8) (j / 8) in
      other_octet b (f (get_or b (i / 8) 0) (i % 8)) t i j (ground (arith, q))
]

-- On a bitmap of 19 octets, setting a bit below 152 makes that bit, and no other, one that is
-- read as set, and clearing it makes that bit, and no other, one that is read as clear.
pub get_bit-set_bit-clear_bit :
    (b : Bitmap) (i j : ℕ)
    → IsBitmap b
    → i < 152
    → ((get_bit (set_bit b i) j == 0) ≡ (if i == j then false else (get_bit b j == 0)))
      × ((get_bit (clear_bit b i) j == 0) ≡ (if i == j then true else (get_bit b j == 0)))
unfolding set_bit clear_bit
get_bit-set_bit-clear_bit b i j w h = (
  write_law b (λ x k. bit_or x (2 ^ k)) false i j or_octet w h,
  write_law b (λ x k. bit_and x (0xff - 2 ^ k)) true i j and_octet w h,
)
