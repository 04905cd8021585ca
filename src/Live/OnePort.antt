-- ===== src/Live/OnePort.antt =====
-- lacp_api.c: loops over the ports that do something at one port.
use lacp.Base.{
  ℕ, zero, suc, ◌+◌, ◌/◌, ◌%◌, ◌^◌, ◌≤◌, ◌<◌, ◌≡◌, refl, sym, ap, ◌∙◌, subst, Bool, true, false,
  not, ◌==◌, ==_iff, Bool-cases, inl, inr, if◌then◌else◌, arith, bit_and, get_or-replicate,
}
use lacp.Types.{World, Outcome, returns, ◌>>=◌}
use lacp.Bitmap
use lacp.Bitmap.Bits.{IsBitmap, get_bit-set_bit-clear_bit}
use lacp.Api.{for_ports, in_bitmap}
use lacp.Trunk.{one_port}
use lacp.Live.{Returns, Returns-bind}

-- A loop over the ports whose body does something at one index only.
for_none :
    (body : World → ℕ → Outcome World) (i : ℕ)
    → ((v : World) (k : ℕ) → (i == k) ≡ false → body v k ≡ returns v)
    → (left start : ℕ) (w : World) → i < start
    → for_ports body left start w ≡ returns w
unfolding for_ports
for_none body i h zero start w b = refl
for_none body i h (suc left) start w b =
    ap (λ o. o >>= λ v. for_ports body left (start + 1) v) (h w start (ground (arith, b)))
    ∙ for_none body i h left (start + 1) w (omega (arith, b))

pub for_one :
    (body : World → ℕ → Outcome World) (i : ℕ) (Q : World → Type 0)
    → ((v : World) (k : ℕ) → (i == k) ≡ false → body v k ≡ returns v)
    → (left start : ℕ) (w : World) → start ≤ i
    → i < start + left
    → Returns (body w i) Q
    → Returns (for_ports body left start w) Q
unfolding for_ports
for_one body i Q h zero start w a b r = absurd (empty a b)
  where
    empty : start ≤ i → i < start + 0 → ⊥
    empty a b = omega (arith, a, b)
for_one body i Q h (suc left) start w a b r = elim (Bool-cases (i == start)) [
  | inl e ↦
      Returns-bind (body w start) (λ v. for_ports body left (start + 1) v) Q Q
        (subst (λ k. Returns (body w k) Q) ((==_iff i start).0 e) r)
        (λ v q.
          subst (λ o. Returns o Q)
            (sym (for_none body i h left (start + 1) v (omega (arith, (==_iff i start).0 e)))) q)
  | inr e ↦
      subst (λ o. Returns (o >>= λ v. for_ports body left (start + 1) v) Q) (sym (h w start e))
        (for_one body i Q h left (start + 1) w (ground (arith, a, e)) (omega (arith, b)) r)
]

clear-IsBitmap : IsBitmap Bitmap.clear
unfolding Bitmap.clear
clear-IsBitmap = record {
  size = refl;
  octets = λ k. omega (arith, get_or-replicate {A = ℕ} 19 k 0);
}

bit_of_zero : (r : ℕ) → r < 8 → (bit_and 0 (2 ^ r) == 0) ≡ true
bit_of_zero zero h = refl
bit_of_zero (suc zero) h = refl
bit_of_zero (suc (suc zero)) h = refl
bit_of_zero (suc (suc (suc zero))) h = refl
bit_of_zero (suc (suc (suc (suc zero)))) h = refl
bit_of_zero (suc (suc (suc (suc (suc zero))))) h = refl
bit_of_zero (suc (suc (suc (suc (suc (suc zero)))))) h = refl
bit_of_zero (suc (suc (suc (suc (suc (suc (suc zero))))))) h = refl
bit_of_zero (suc (suc (suc (suc (suc (suc (suc (suc r)))))))) h = absurd (omega (arith, h))

clear_bit_none : (k : ℕ) → (Bitmap.get_bit Bitmap.clear k == 0) ≡ true
unfolding Bitmap.get_bit Bitmap.clear
clear_bit_none k =
    ap (λ o. bit_and o (2 ^ (k % 8)) == 0) (get_or-replicate 19 (k / 8) 0)
    ∙ bit_of_zero (k % 8) (omega arith)

pub in_one_port : (i k : ℕ) → i < 152 → in_bitmap (one_port i) k ≡ (i == k)
in_one_port i k b =
    ap not ((get_bit-set_bit-clear_bit Bitmap.clear i k clear-IsBitmap b).0)
    ∙ chosen (i == k) (clear_bit_none k)
  where
    chosen : {d : Bool} (c : Bool) → d ≡ true → not (if c then false else d) ≡ c
    chosen true e = refl
    chosen false e = ap not e
