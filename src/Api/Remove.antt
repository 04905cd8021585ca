-- ===== src/Api/Remove.antt =====
-- lacp_api.c: ports are removed.
use lacp.Base.{
  ℕ, zero, suc, ◌+◌, ◌-◌, ◌≡◌, refl, sym, ap, ◌∙◌, subst, Bool, true, false, not, ◌&&◌, ◌==◌,
  ==_iff, leb, ltb, Bool-cases, inl, inr, ◌⊎◌, if◌then◌else◌, none, some, List, elem, arith,
}
use lacp.Types.{u32, World, Bitmap, returns}
use lacp.Bitmap
use lacp.Create.{port_delete, port_find, unlink}
use lacp.Create.Table.{Nodup, elem-unlink, unlink-Nodup}
use lacp.Api.{for_ports, in_bitmap, port_max, remove_port, remove_ports}

-- The ports that the rounds from `k` on remove.
abbrev named : Bitmap → ℕ → ℕ → ℕ → Bool
named ports left k j = in_bitmap ports j && (leb k j && ltb j (k + left))

-- The list after a round.
record Removed (c : ℕ → Bool) (w v : World) : Type 0 where
  pub once : Nodup v.sys.ports
  pub others : (j : ℕ) → elem j v.sys.ports ≡ (elem j w.sys.ports && not (c j))

-- The system without the port `k`.
abbrev without : ℕ → World → World
without k w = record w {
  sys = record (w.sys) {
    ports = unlink k w.sys.ports;
    number_of_ports = u32 (w.sys.number_of_ports + 4294967296 - 1);
    portmap = Bitmap.clear_bit w.sys.portmap k;
  };
}

removed_found :
    (ports : Bitmap) (w : World) (k : ℕ)
    → in_bitmap ports k ≡ true
    → elem k w.sys.ports ≡ true
    → remove_port ports w k ≡ returns (without k w)
unfolding remove_port port_delete port_find
removed_found ports w k b h = rw (b, h) refl

removed_absent :
    (ports : Bitmap) (w : World) (k : ℕ)
    → in_bitmap ports k ≡ true
    → elem k w.sys.ports ≡ false
    → remove_port ports w k ≡ returns w
unfolding remove_port port_find
removed_absent ports w k b h = rw (b, h) refl

removed_other :
    (ports : Bitmap) (w : World) (k : ℕ)
    → in_bitmap ports k ≡ false
    → remove_port ports w k ≡ returns w
unfolding remove_port
removed_other ports w k b = rw b refl

stays :
    (k j : ℕ) (b : Bool) (ps : List ℕ)
    → (b ≡ false) ⊎ (elem k ps ≡ false)
    → elem j ps ≡ (elem j ps && not (b && (k == j)))
stays k j b ps (inl h) = ground arith
stays k j b ps (inr h) = elim (Bool-cases (k == j)) [
  | inl e ↦ let a = subst (λ x. elem x ps ≡ false) ((==_iff k j).0 e) h in rw a refl
  | inr e ↦ ground arith
]

remove_port-Removed :
    (ports : Bitmap) (w : World) (k : ℕ)
    → Nodup w.sys.ports
    → (v : World) × (remove_port ports w k ≡ returns v)
      × Removed (λ j. in_bitmap ports k && (k == j)) w v
remove_port-Removed ports w k n = elim (Bool-cases (in_bitmap ports k)) [
  | inr b ↦ (
    w,
    removed_other ports w k b,
    record { once = n; others = λ j. stays k j (in_bitmap ports k) w.sys.ports (inl b) },
  )
  | inl b ↦ elim (Bool-cases (elem k w.sys.ports)) [
    | inr h ↦ (
      w,
      removed_absent ports w k b h,
      record { once = n; others = λ j. stays k j (in_bitmap ports k) w.sys.ports (inr h) },
    )
    | inl h ↦ (
      without k w,
      removed_found ports w k b h,
      record {
        once = unlink-Nodup k w.sys.ports n;
        others = λ j.
            elem-unlink k j w.sys.ports n
            ∙ ap (λ c. elem j w.sys.ports && not (c && (k == j))) (sym b);
      },
    )
  ]
]

in_round :
    (ports : Bitmap) (k j left : ℕ)
    → (in_bitmap ports k && (k == j)) ≡ (in_bitmap ports j && (k == j))
in_round ports k j left = elim (Bool-cases (k == j)) [
  | inl e ↦ ap (λ x. in_bitmap ports x && (k == j)) ((==_iff k j).0 e)
  | inr e ↦ rw e (ground arith)
]

joins :
    (k j left : ℕ) (a b : Bool)
    → ((a && not (b && (k == j))) && not (b && (leb (k + 1) j && ltb j (k + 1 + left))))
      ≡ (a && not (b && (leb k j && ltb j (k + suc left))))
joins k j left a b = ground arith

from_zero : (j : ℕ) → (leb 0 j && ltb j (0 + port_max)) ≡ ltb j port_max
from_zero j = ground arith

remove_rounds :
    (ports : Bitmap) (left k : ℕ) (w : World)
    → Nodup w.sys.ports
    → (v : World) × (for_ports (remove_port ports) left k w ≡ returns v)
      × Removed (named ports left k) w v
unfolding for_ports
remove_rounds ports zero k w n = (w, refl, record { once = n; others = λ j. ground arith })
remove_rounds ports (suc left) k w n =
    let (u, r, x) = remove_port-Removed ports w k n in
    let (v, s, y) = remove_rounds ports left (k + 1) u x.once in
    (
      v,
      rw r s,
      record {
        once = y.once;
        others = λ j.
            y.others j
            ∙ ap (λ c. c && not (named ports left (k + 1) j))
                (x.others j ∙ ap (λ c. elem j w.sys.ports && not c) (in_round ports k j left))
            ∙ joins k j left (elem j w.sys.ports) (in_bitmap ports j);
      },
    )

found_if :
    (a c : Bool) (j : ℕ)
    → (if a && not c then some j else none) ≡ (if c then none else if a then some j else none)
found_if a c j = ground arith

-- On a list of ports without repetitions `lacp_remove_ports` returns, and afterwards the ports
-- that its bitmap names below `LACP_PORT_MAX` are not found, any other port is found if it was
-- before, and the list is still without repetitions.
pub remove_ports-port_find :
    (ports : Bitmap) (w : World)
    → Nodup w.sys.ports
    → (v : World) × (remove_ports ports w ≡ returns v)
      × Nodup v.sys.ports
      × ((j : ℕ)
          → port_find v j ≡ (if in_bitmap ports j && ltb j port_max then none else port_find w j))
unfolding remove_ports port_find
remove_ports-port_find ports w n =
    let (v, r, x) = remove_rounds ports port_max 0 w n in
    (
      v,
      r,
      x.once,
      λ j.
          ap (λ c. if c then some j else none) (x.others j)
          ∙ found_if (elem j w.sys.ports) (named ports port_max 0 j) j
          ∙ ap
              (λ c.
                if in_bitmap ports j && c
                then none
                else if elem j w.sys.ports
                then some j
                else none)
              (from_zero j),
    )
