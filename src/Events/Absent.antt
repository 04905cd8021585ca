-- ===== src/Events/Absent.antt =====
-- lacp_api.c: `lacp_sys_set_cfg` asked to delete a port that does not exist.
use lacp.Base.{
  ℕ, zero, suc, ◌+◌, ◌≤◌, ◌<◌, ◌≡◌, refl, sym, subst, true, false, ◌==◌, ==_iff, Bool-cases, inl,
  inr, ◌⊎◌, List, [], ◌∷◌, elem, arith,
}
use lacp.Types.{World, Bitmap, returns, crashes}
use lacp.Create.{port_delete, port_find, unlink}
use lacp.Api.{for_ports, in_bitmap, has_field, port_max}
use lacp.Events.{SysCfg, del_port, sys_set_cfg}

absent-unlink : (i j : ℕ) (ps : List ℕ) → elem j ps ≡ false → elem j (unlink i ps) ≡ false
unfolding unlink
absent-unlink i j [] h = refl
absent-unlink i j (p ∷ ps) h = ground (arith, absent-unlink i j ps)

del_port-absent :
    (ports : Bitmap) (w : World) (i : ℕ)
    → in_bitmap ports i ≡ true
    → elem i w.sys.ports ≡ false
    → del_port ports w i ≡ crashes
unfolding del_port port_delete port_find
del_port-absent ports w i b h = rw (b, h) refl

del_port-found :
    (ports : Bitmap) (w : World) (k : ℕ)
    → in_bitmap ports k ≡ true
    → elem k w.sys.ports ≡ true
    → del_port ports w k
      ≡ returns (record w { sys = record (w.sys) { ports = unlink k w.sys.ports } })
unfolding del_port port_delete port_find
del_port-found ports w k b h = rw (b, h) refl

del_port-other :
    (ports : Bitmap) (w : World) (k : ℕ)
    → in_bitmap ports k ≡ false
    → del_port ports w k ≡ returns w
unfolding del_port
del_port-other ports w k b = rw b refl

-- A round crashes, or leaves the port `i` absent.
del_port-keeps :
    (ports : Bitmap) (i : ℕ) (w : World) (k : ℕ)
    → elem i w.sys.ports ≡ false
    → (del_port ports w k ≡ crashes)
      ⊎ ((v : World) × (del_port ports w k ≡ returns v) × (elem i v.sys.ports ≡ false))
del_port-keeps ports i w k h = elim (Bool-cases (in_bitmap ports k)) [
  | inr b ↦ inr (w, del_port-other ports w k b, h)
  | inl b ↦ elim (Bool-cases (elem k w.sys.ports)) [
    | inr a ↦ inl (del_port-absent ports w k b a)
    | inl a ↦ inr (_, del_port-found ports w k b a, absent-unlink k i w.sys.ports h)
  ]
]

-- The outcome of the rounds from `k` on, if port `i` is among them and does not exist.
dels-absent :
    (ports : Bitmap) (i left k : ℕ) (w : World)
    → in_bitmap ports i ≡ true
    → elem i w.sys.ports ≡ false
    → k ≤ i
    → i < k + left
    → for_ports (del_port ports) left k w ≡ crashes
unfolding for_ports
dels-absent ports i zero k w b h p q = absurd (omega arith)
dels-absent ports i (suc left) k w b h p q = elim (Bool-cases (k == i)) [
  | inl e ↦
      rw
        (subst (λ j. del_port ports w j ≡ crashes) (sym ((==_iff k i).0 e))
          (del_port-absent ports w i b h))
        refl
  | inr e ↦ elim (del_port-keeps ports i w k h) [
    | inl c ↦ rw c refl
    | inr (v, r, a) ↦ rw r (dels-absent ports i left (k + 1) v b a (ground arith) (omega arith))
  ]
]

-- If `lacp_sys_set_cfg` is asked to delete ports and not to add any, and one of those that it names
-- below `LACP_PORT_MAX` does not exist, it reads through a null pointer, whatever other fields its
-- mask has.
pub sys_set_cfg-absent :
    (fuel : ℕ) (cfg : SysCfg) (w : World) (i : ℕ)
    → has_field cfg.field_mask 1 ≡ false
    → has_field cfg.field_mask 2 ≡ true
    → in_bitmap cfg.ports i ≡ true
    → i < port_max
    → elem i w.sys.ports ≡ false
    → sys_set_cfg fuel cfg w ≡ crashes
unfolding sys_set_cfg
sys_set_cfg-absent fuel cfg w i a d b p h =
    rw (a, d, dels-absent cfg.ports i port_max 0 w b h (omega arith) (omega arith)) refl
