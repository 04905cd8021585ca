-- ===== src/Create/Table.antt =====
-- lacp_port.c: the linked list of ports as a set of indices.
use lacp.Base.{
  ℕ, ◌≡◌, refl, sym, ap, ◌∙◌, subst, true, false, not, ◌&&◌, ◌==◌, if◌then◌else◌, none, some, List,
  [], ◌∷◌, elem, arith, Bool-cases, inl, inr,
}
use lacp.Types.{World, returns, crashes}
use lacp.Create.{port_create, port_delete, port_find, unlink}

-- No index stands twice in the list.
abbrev pub Nodup : List ℕ → Type 0
Nodup [] = Unit
Nodup (p ∷ ps) = (elem p ps ≡ false) × Nodup ps

pub elem-unlink :
    (i j : ℕ) (ps : List ℕ) → Nodup ps → elem j (unlink i ps) ≡ (elem j ps && not (i == j))
unfolding unlink
elem-unlink i j [] n = refl
elem-unlink i j (p ∷ ps) (a, n) = ground (arith, elem-unlink i j ps n, a)

pub unlink-Nodup : (i : ℕ) (ps : List ℕ) → Nodup ps → Nodup (unlink i ps)
unfolding unlink
unlink-Nodup i [] n = n
unlink-Nodup i (p ∷ ps) (a, n) = ground (arith, elem-unlink i p ps n, unlink-Nodup i ps n)

created :
    (w v : World) (i : ℕ)
    → Nodup w.sys.ports
    → port_create w i ≡ some v
    → (port_find w i ≡ none)
      × Nodup v.sys.ports
      × ((j : ℕ) → port_find v j ≡ (if i == j then some j else port_find w j))
unfolding port_create port_find
created w v i n e = ground arith

delete_found :
    (w : World) (i : ℕ)
    → elem i w.sys.ports ≡ true
    → port_delete w (port_find w i)
      ≡ returns (record w { sys = record (w.sys) { ports = unlink i w.sys.ports } })
unfolding port_delete port_find
delete_found w i h = rw h refl

delete_absent :
    (w : World) (i : ℕ) → elem i w.sys.ports ≡ false → port_delete w (port_find w i) ≡ crashes
unfolding port_delete port_find
delete_absent w i h = rw h refl

returns_eq : (w v : World) → returns w ≡ returns v → w ≡ v
returns_eq w v e = cc

never_returns : (v : World) {P : Type 0} → crashes ≡ returns v → P
never_returns v e = cc

find_unlinked :
    (ps : List ℕ) (i j : ℕ)
    → Nodup ps
    → (if elem j (unlink i ps) then some j else none)
      ≡ (if i == j then none else if elem j ps then some j else none)
find_unlinked ps i j n = rw (elem-unlink i j ps n) (ground arith)

deleted :
    (w v : World) (i : ℕ)
    → Nodup w.sys.ports
    → port_delete w (port_find w i) ≡ returns v
    → (port_find w i ≡ some i)
      × Nodup v.sys.ports
      × ((j : ℕ) → port_find v j ≡ (if i == j then none else port_find w j))
unfolding port_find
deleted w v i n e = elim (Bool-cases (elem i w.sys.ports)) [
  | inl h ↦
      let o = returns_eq _ v (sym (delete_found w i h) ∙ e) in
      (
        rw h refl,
        subst (λ u. Nodup u.sys.ports) o (unlink-Nodup i w.sys.ports n),
        λ j.
            ap (λ u. if elem j u.sys.ports then some j else none) (sym o)
            ∙ find_unlinked w.sys.ports i j n,
      )
  | inr h ↦ never_returns v (sym (delete_absent w i h) ∙ e)
]

refused : (w : World) (i : ℕ) → port_create w i ≡ none → port_find w i ≡ some i
unfolding port_create port_find
refused w i e = ground arith

-- On a list without repetitions, creating a port fails exactly if the index is taken, and
-- otherwise makes that index, and no other, one that is found; deleting a port that was found
-- makes that index, and no other, one that is not found; and both keep the list without
-- repetitions.
pub port_create-port_delete :
    (w : World) (i : ℕ)
    → Nodup w.sys.ports
    → (port_create w i ≡ none → port_find w i ≡ some i)
      × ((v : World)
          → port_create w i ≡ some v
          → (port_find w i ≡ none)
            × Nodup v.sys.ports
            × ((j : ℕ) → port_find v j ≡ (if i == j then some j else port_find w j)))
      × ((v : World)
          → port_delete w (port_find w i) ≡ returns v
          → (port_find w i ≡ some i)
            × Nodup v.sys.ports
            × ((j : ℕ) → port_find v j ≡ (if i == j then none else port_find w j)))
port_create-port_delete w i n = (refused w i, λ v. created w v i n, λ v. deleted w v i n)
