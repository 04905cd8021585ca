-- ===== src/Stub/Members.antt =====
-- lacp_stub.c: the members of the link groups.
use lacp.Base.{
  ℕ, zero, suc, ◌+◌, ◌-◌, ◌<◌, ◌≤◌, ◌≡◌, refl, sym, ap, ◌∙◌, fun_ext, Bool, true, false, ◌&&◌, ◌==◌,
  ==_iff, update, if◌then◌else◌, arith, Bool-cases, inl, inr,
}
use lacp.Types.{Stub, Bitmap}
use lacp.Bitmap.Bits.{IsBitmap}
use lacp.Stub.{
  set_pbmp, clear_pbmp, get_pbmp, find_group, clear_member, db_agg_add_member, db_agg_del_member,
  db_agg_get_port_tid,
}
use lacp.Stub.Pbmp.{IsSlotPort, same, get_pbmp-set_pbmp, get_pbmp-clear_pbmp}

abbrev suc_of : ℕ → ℕ
suc_of n = n + 1

-- The first number from `i` on that passes the test, plus 1, and 0 if none of `left` passes.
first : (ℕ → Bool) → ℕ → ℕ → ℕ
first f zero i = 0
first f (suc left) i = if f i then i + 1 else first f left (suc i)

abbrev has : ℕ → ℕ → Stub → ℕ → Bool
has slot port s g = get_pbmp slot port (s.link_groups g).ports

find_group-first :
    (left i slot port : ℕ) (s : Stub)
    → find_group left i slot port s ≡ first (has slot port s) left i
unfolding find_group first
find_group-first zero i slot port s = refl
find_group-first (suc left) i slot port s = rw (find_group-first left (suc i) slot port s) refl

first-ext : (f g : ℕ → Bool) (left i : ℕ) → ((k : ℕ) → f k ≡ g k) → first f left i ≡ first g left i
first-ext f g left i h = ap (λ t. first t left i) (fun_ext h)

first-none :
    (f : ℕ → Bool) (left i : ℕ) → ((k : ℕ) → k < i + left → f k ≡ false) → first f left i ≡ 0
unfolding first
first-none f zero i h = refl
first-none f (suc left) i h =
    rw (h i (omega arith)) (first-none f left (suc i) (λ k b. h k (omega arith)))

test_zero : (c : Bool) (i r : ℕ) → (if c then i + 1 else r) ≡ 0 → (c ≡ false) × (r ≡ 0)
test_zero c i r h = ground arith

first-zero :
    (f : ℕ → Bool) (left i : ℕ) → first f left i ≡ 0 → (k : ℕ) → i ≤ k → k < i + left → f k ≡ false
unfolding first
first-zero f zero i h k a b = absurd (omega arith)
first-zero f (suc left) i h k a b =
    let (c, r) = test_zero (f i) i (first f left (suc i)) h in
    elim (Bool-cases (k == i)) [
      | inl e ↦ ap f ((==_iff k i).0 e) ∙ c
      | inr e ↦ first-zero f left (suc i) r k (ground arith) (omega arith)
    ]

first-at :
    (f : ℕ → Bool) (a left i : ℕ)
    → i ≤ a
    → a < i + left
    → f a ≡ true
    → ((k : ℕ) → k < a → i ≤ k → f k ≡ false)
    → first f left i ≡ a + 1
unfolding first
first-at f a zero i p q h e = absurd (omega arith)
first-at f a (suc left) i p q h e = elim (Bool-cases (i == a)) [
  | inl o ↦ let o' = (==_iff i a).0 o in rw (ap f o' ∙ h) (ap suc_of o')
  | inr o ↦
      let lt : i < a = ground arith in
      rw (e i lt (omega arith))
        (first-at f a left (suc i) (omega arith) (omega arith) h (λ k b c. e k b (omega arith)))
]

-- The group that the simulated switch finds for a port is the first that has it.
tid_first :
    (s : Stub) (slot port : ℕ) → db_agg_get_port_tid s slot port ≡ first (has slot port s) 32 0
unfolding db_agg_get_port_tid
tid_first s slot port = find_group-first 32 0 slot port s

-- It depends on the link groups alone.
pub tid_groups :
    (s t : Stub) (slot port : ℕ)
    → s.link_groups ≡ t.link_groups
    → db_agg_get_port_tid s slot port ≡ db_agg_get_port_tid t slot port
tid_groups s t slot port e =
    tid_first s slot port
    ∙ ap (λ g. first (λ k. get_pbmp slot port (g k).ports) 32 0) e
    ∙ sym (tid_first t slot port)

abbrev pub AreGroups : Stub → Type 0
AreGroups s = (g : ℕ) → IsBitmap (s.link_groups g).ports

ports-add :
    (s : Stub) (a slot port g : ℕ)
    → ((db_agg_add_member s a slot port).link_groups g).ports ≡ (
        if a - 1 == g
        then set_pbmp slot port (s.link_groups (a - 1)).ports
        else (s.link_groups g).ports)
unfolding db_agg_add_member
ports-add s a slot port g = ground arith

if_eq :
    (h i : ℕ) (c : Bool) (f : ℕ → Bool)
    → (if h == i then (if c then true else f h) else f i) ≡ (if (h == i) && c then true else f i)
if_eq h i c f = elim (Bool-cases (h == i)) [
  | inl e ↦ rw (e, ap f ((==_iff h i).0 e)) refl
  | inr e ↦ rw e refl
]

push_if :
    (c : Bool) (x y : ℕ) (a b : Bitmap)
    → get_pbmp x y (if c then a else b) ≡ (if c then get_pbmp x y a else get_pbmp x y b)
push_if true x y a b = refl
push_if false x y a b = refl

below : (h k : ℕ) (c : Bool) → k < h → c ≡ false → (if (h == k) && true then true else c) ≡ false
below h k c b e = ground arith

and_off : (c d : Bool) → (if c && false then true else d) ≡ d
and_off true d = refl
and_off false d = refl

has-add :
    (s : Stub) (a slot port x y g : ℕ)
    → AreGroups s
    → IsSlotPort slot port
    → IsSlotPort x y
    → has x y (db_agg_add_member s a slot port) g
      ≡ (if (a - 1 == g) && same slot port x y then true else has x y s g)
has-add s a slot port x y g w r q =
    ap (get_pbmp x y) (ports-add s a slot port g)
    ∙ push_if (a - 1 == g) x y (set_pbmp slot port (s.link_groups (a - 1)).ports)
        (s.link_groups g).ports
    ∙ ap (λ c. if a - 1 == g then c else has x y s g)
        (get_pbmp-set_pbmp slot port x y (s.link_groups (a - 1)).ports (w (a - 1)) r q)
    ∙ if_eq (a - 1) g (same slot port x y) (has x y s)

same_refl : (slot port : ℕ) → same slot port slot port ≡ true
same_refl slot port = ground arith

-- A port of no group that is added to group `a` is afterwards found in group `a`, and every other
-- port is found in the group in which it was found before.
pub db_agg_get_port_tid-db_agg_add_member :
    (s : Stub) (a slot port : ℕ)
    → AreGroups s
    → IsSlotPort slot port
    → 1 ≤ a
    → a ≤ 32
    → db_agg_get_port_tid s slot port ≡ 0
    → (db_agg_get_port_tid (db_agg_add_member s a slot port) slot port ≡ a)
      × ((x y : ℕ)
          → IsSlotPort x y
          → same slot port x y ≡ false
          → db_agg_get_port_tid (db_agg_add_member s a slot port) x y ≡ db_agg_get_port_tid s x y)
db_agg_get_port_tid-db_agg_add_member s a slot port w r p q z =
    let t = db_agg_add_member s a slot port in
    let h : (g : ℕ)
        → has slot port t g ≡ (if (a - 1 == g) && true then true else has slot port s g) =
      λ g.
        has-add s a slot port slot port g w r r
        ∙ ap (λ c. if (a - 1 == g) && c then true else has slot port s g) (same_refl slot port) in
    let absent = first-zero (has slot port s) 32 0 (sym (tid_first s slot port) ∙ z) in
    (
      tid_first t slot port
          ∙ first-at (has slot port t) (a - 1) 32 0 (omega arith) (omega arith)
              (h (a - 1) ∙ ground arith)
              (λ k b c. h k ∙ below (a - 1) k (has slot port s k) b (absent k c (omega arith)))
          ∙ omega arith,
      λ x y o d.
          tid_first t x y
          ∙ first-ext (has x y t) (has x y s) 32 0 (λ g.
            has-add s a slot port x y g w r o
            ∙ ap (λ c. if (a - 1 == g) && c then true else has x y s g) d
            ∙ and_off (a - 1 == g) (has x y s g))
          ∙ sym (tid_first s x y),
    )

-- One round of the loop that clears a port from the groups.
clear_one : ℕ → ℕ → ℕ → Stub → Stub
clear_one j slot port s = record s {
  link_groups =
      update s.link_groups j
        (record (s.link_groups j) { ports = clear_pbmp slot port (s.link_groups j).ports });
}

-- The ports of a group after the rounds from `j` on.
ports-clear-outside :
    (left j slot port g : ℕ) (s : Stub)
    → g < j
    → ((clear_member left j slot port s).link_groups g).ports ≡ (s.link_groups g).ports
unfolding clear_member clear_one
ports-clear-outside zero j slot port g s h = refl
ports-clear-outside (suc left) j slot port g s h =
    ports-clear-outside left (suc j) slot port g (clear_one j slot port s) (omega arith)
    ∙ ground (arith, h)

ports-clear-inside :
    (left j slot port g : ℕ) (s : Stub)
    → j ≤ g
    → g < j + left
    → ((clear_member left j slot port s).link_groups g).ports
      ≡ clear_pbmp slot port (s.link_groups g).ports
unfolding clear_member clear_one
ports-clear-inside zero j slot port g s p q = absurd (omega arith)
ports-clear-inside (suc left) j slot port g s p q = elim (Bool-cases (j == g)) [
  | inl e ↦
      let e' = (==_iff j g).0 e in
      ports-clear-outside left (suc j) slot port g (clear_one j slot port s) (omega arith)
      ∙ ground arith
  | inr e ↦
      ports-clear-inside left (suc j) slot port g (clear_one j slot port s) (ground arith)
        (omega arith)
      ∙ ground arith
]

first-upto :
    (f g : ℕ → Bool) (left i : ℕ)
    → ((k : ℕ) → k < i + left → f k ≡ g k)
    → first f left i ≡ first g left i
unfolding first
first-upto f g zero i h = refl
first-upto f g (suc left) i h =
    rw (h i (omega arith), first-upto f g left (suc i) (λ k b. h k (omega arith))) refl

-- Deleting a port from the groups leaves it in none, and every other port is found in the group
-- in which it was found before.
pub db_agg_get_port_tid-db_agg_del_member :
    (s : Stub) (slot port x y : ℕ)
    → AreGroups s
    → IsSlotPort slot port
    → IsSlotPort x y
    → db_agg_get_port_tid (db_agg_del_member s slot port) x y
      ≡ (if same slot port x y then 0 else db_agg_get_port_tid s x y)
unfolding db_agg_del_member
db_agg_get_port_tid-db_agg_del_member s slot port x y w r q =
    let t = clear_member 32 0 slot port s in
    let h : (g : ℕ) → g < 32 → has x y t g ≡ (if same slot port x y then false else has x y s g) =
      λ g b.
        ap (get_pbmp x y) (ports-clear-inside 32 0 slot port g s (omega arith) (omega arith))
        ∙ get_pbmp-clear_pbmp slot port x y (s.link_groups g).ports (w g) r q in
    tid_first t x y ∙ elim (Bool-cases (same slot port x y)) [
      | inl e ↦
          first-none (has x y t) 32 0
            (λ k b. h k (omega arith) ∙ ap (λ c. if c then false else has x y s k) e)
          ∙ ap (λ c. if c then 0 else db_agg_get_port_tid s x y) (sym e)
      | inr e ↦
          first-upto (has x y t) (has x y s) 32 0
            (λ k b. h k (omega arith) ∙ ap (λ c. if c then false else has x y s k) e)
          ∙ sym (tid_first s x y)
          ∙ ap (λ c. if c then 0 else db_agg_get_port_tid s x y) (sym e)
    ]
