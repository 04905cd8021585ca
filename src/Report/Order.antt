-- ===== src/Report/Order.antt =====
-- trunk_api.c: the order in which the ports of a report are sorted.
use lacp.Base.{
  ℕ, ◌+◌, ◌-◌, ◌^◌, ◌<◌, ◌≡◌, refl, ◌∙◌, Bool, true, false, not, ◌&&◌, ◌||◌, ◌==◌, leb, ltb,
  if◌then◌else◌, Bool-cases, inl, inr, arith,
}
use lacp.Types.{u32}
use lacp.Report.{TrunkPortState, port_state_compare}

-- An `int`, as 32 bits, that is below 0.
abbrev pub negative : ℕ → Bool
negative n = leb (2 ^ 31) n

-- By slot, then by port.
abbrev pub before : TrunkPortState → TrunkPortState → Bool
before s t = ltb s.slot t.slot || (s.slot == t.slot && ltb s.port t.port)

pub record InRange (s : TrunkPortState) : Type 0 where
  pub slot_below : s.slot < 2 ^ 31
  pub port_below : s.port < 2 ^ 31

differ : (x y : ℕ) → x < 2 ^ 31 → y < 2 ^ 31 → (u32 (x + 2 ^ 32 - y) == 0) ≡ (x == y)
differ x y h k = ground arith

below : (x y : ℕ) → x < 2 ^ 31 → y < 2 ^ 31 → negative (u32 (x + 2 ^ 32 - y)) ≡ ltb x y
below x y h k = ground arith

by_slot_port :
    (a b c d : ℕ)
    → a < 2 ^ 31
    → b < 2 ^ 31
    → c < 2 ^ 31
    → d < 2 ^ 31
    → negative
        (if not (u32 (a + 2 ^ 32 - b) == 0) then u32 (a + 2 ^ 32 - b) else u32 (c + 2 ^ 32 - d))
      ≡ (ltb a b || (a == b && ltb c d))
by_slot_port a b c d ha hb hc hd = rw (differ a b ha hb) (elim (Bool-cases (a == b)) [
  | inl e ↦ rw e (below c d hc hd ∙ ground arith)
  | inr e ↦ rw e (below a b ha hb ∙ ground arith)
])

compared :
    (s t : TrunkPortState)
    → InRange s
    → InRange t
    → negative (port_state_compare s t) ≡ ((s.valid && not t.valid) || before s t)
unfolding port_state_compare
compared s t h k =
    valid_first _ _ (s.valid && not t.valid)
      (by_slot_port s.slot t.slot s.port t.port h.slot_below k.slot_below h.port_below k.port_below)
  where
    valid_first :
        (n : ℕ) (b v : Bool) → negative n ≡ b → negative (if v then 0xffff_ffff else n) ≡ (v || b)
    valid_first n b true e = refl
    valid_first n b false e = e

not_both : (s t : TrunkPortState) → before s t ≡ true → before t s ≡ false
not_both s t h = ground (arith, h)

both :
    (v w x y : Bool)
    → (x ≡ true → y ≡ false)
    → (((v && not w) || x) && ((w && not v) || y)) ≡ ((v && not w && y) || (w && not v && x))
both true true true y h = h refl
both true true false y h = refl
both true false x true h = refl
both true false x false h = refl
both false true true y h = refl
both false true false y h = refl
both false false true y h = h refl
both false false false y h = refl

-- On slots and ports below 2^31 the comparison is negative exactly if the first state is valid and
-- the second is not, or the first comes before the second by slot and then port. Both of two
-- states compare as smaller than the other exactly if one is valid and the other, which is not,
-- comes before it by slot and port.
pub port_state_compare-before :
    (s t : TrunkPortState)
    → InRange s
    → InRange t
    → (negative (port_state_compare s t) ≡ ((s.valid && not t.valid) || before s t))
      × ((negative (port_state_compare s t) && negative (port_state_compare t s))
          ≡ ((s.valid && not t.valid && before t s) || (t.valid && not s.valid && before s t)))
port_state_compare-before s t h k = (
  compared s t h k,
  rw (compared s t h k, compared t s k h)
      (both s.valid t.valid (before s t) (before t s) (not_both s t)),
)
