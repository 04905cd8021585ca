-- ===== src/State/Octet.antt =====
-- lacp_type.h: the flag macros against the bit operations on the octet that they are written with.
use lacp.Base.{
  ℕ, ◌-◌, ◌≡◌, refl, Bool, true, false, not, ◌&&◌, ◌==◌, ==_iff, eqb, if◌then◌else◌, arith, bit_and,
  bit_or,
}
use lacp.State.{LacpState, Mask, act, tmt, agg, syn, col, dis, def, exp}
use lacp.State.{mask_octet, set_bit, get_bit, to_octet}

-- `value ? (flag |= mask) : (flag &= ~mask)` on the octet.
abbrev pub macro_set : ℕ → ℕ → Bool → ℕ
macro_set flag mask value = if value then bit_or flag mask else bit_and flag (0xff - mask)

-- `(flag & mask) ? 1 : 0` on the octet.
abbrev pub macro_get : ℕ → ℕ → Bool
macro_get flag mask = not (bit_and flag mask == 0)

both : (Bool → Bool) → Bool
both p = p true && p false

both_sound : (p : Bool → Bool) (b : Bool) → both p ≡ true → p b ≡ true
unfolding both
both_sound p true h = ground arith
both_sound p false h = ground arith

-- Every value of the octet, a flag at a time from the last.
all_from_7 : (LacpState → Bool) → Bool → Bool → Bool → Bool → Bool → Bool → Bool → Bool
unfolding both
all_from_7 p a b c d e f g = both λ h. p (record {
  lacp_activity = a;
  lacp_timeout = b;
  aggregation = c;
  synchronization = d;
  collecting = e;
  distributing = f;
  defaulted = g;
  expired = h;
})

all_from_6 : (LacpState → Bool) → Bool → Bool → Bool → Bool → Bool → Bool → Bool
unfolding all_from_7
all_from_6 p a b c d e f = both (all_from_7 p a b c d e f)

all_from_5 : (LacpState → Bool) → Bool → Bool → Bool → Bool → Bool → Bool
unfolding all_from_6
all_from_5 p a b c d e = both (all_from_6 p a b c d e)

all_from_4 : (LacpState → Bool) → Bool → Bool → Bool → Bool → Bool
unfolding all_from_5
all_from_4 p a b c d = both (all_from_5 p a b c d)

all_from_3 : (LacpState → Bool) → Bool → Bool → Bool → Bool
unfolding all_from_4
all_from_3 p a b c = both (all_from_4 p a b c)

all_from_2 : (LacpState → Bool) → Bool → Bool → Bool
unfolding all_from_3
all_from_2 p a b = both (all_from_3 p a b)

all_from_1 : (LacpState → Bool) → Bool → Bool
unfolding all_from_2
all_from_1 p a = both (all_from_2 p a)

all_states : (LacpState → Bool) → Bool
unfolding all_from_1
all_states p = both (all_from_1 p)

all_states_sound : (p : LacpState → Bool) (s : LacpState) → all_states p ≡ true → p s ≡ true
unfolding all_states
all_states_sound p s h =
    both_sound (λ x. p (record s { expired = x })) s.expired
      (both_sound
        (all_from_7 p s.lacp_activity s.lacp_timeout s.aggregation s.synchronization s.collecting
          s.distributing)
        s.defaulted
        (both_sound
          (all_from_6 p s.lacp_activity s.lacp_timeout s.aggregation s.synchronization s.collecting)
          s.distributing
          (both_sound (all_from_5 p s.lacp_activity s.lacp_timeout s.aggregation s.synchronization)
            s.collecting
            (both_sound (all_from_4 p s.lacp_activity s.lacp_timeout s.aggregation)
              s.synchronization
              (both_sound (all_from_3 p s.lacp_activity s.lacp_timeout) s.aggregation (
                both_sound (all_from_2 p s.lacp_activity) s.lacp_timeout
                  (both_sound (all_from_1 p) s.lacp_activity h)))))))

agrees : Mask → Bool → LacpState → Bool
agrees m v s =
    (to_octet (set_bit s m v) == macro_set (to_octet s) (mask_octet m) v)
    && eqb (get_bit s m) (macro_get (to_octet s) (mask_octet m))

table : (m : Mask) (v : Bool) → all_states (agrees m v) ≡ true
unfolding agrees all_states to_octet
table act true = refl
table act false = refl
table tmt true = refl
table tmt false = refl
table agg true = refl
table agg false = refl
table syn true = refl
table syn false = refl
table col true = refl
table col false = refl
table dis true = refl
table dis false = refl
table def true = refl
table def false = refl
table exp true = refl
table exp false = refl

agrees_sound :
    (s : LacpState) (m : Mask) (v : Bool)
    → agrees m v s ≡ true
    → (to_octet (set_bit s m v) ≡ macro_set (to_octet s) (mask_octet m) v)
      × (get_bit s m ≡ macro_get (to_octet s) (mask_octet m))
unfolding agrees
agrees_sound s m v h =
    ground (arith, ==_iff (to_octet (set_bit s m v)) (macro_set (to_octet s) (mask_octet m) v))

-- For every octet, flag and value, writing the flag in the record gives the octet that the C
-- macro computes with `|` and `& ~`, and reading the flag gives the truth value of `flag & mask`.
pub set_bit_octet :
    (s : LacpState) (m : Mask) (v : Bool)
    → (to_octet (set_bit s m v) ≡ macro_set (to_octet s) (mask_octet m) v)
      × (get_bit s m ≡ macro_get (to_octet s) (mask_octet m))
unfolding agrees
set_bit_octet s m v = agrees_sound s m v (all_states_sound (agrees m v) s (table m v))
