-- ===== src/Mngr/Ring.antt =====
-- mngr.c: the links that `link_ring` makes.
use lacp.Base.{
  ℕ, ◌≤◌, ◌≡◌, refl, sym, ap, ◌∙◌, subst, Bool, true, false, ◌&&◌, ◌==◌, if◌then◌else◌, Option,
  none, some, List, [], ◌∷◌, In, arith,
}
use lacp.Types.{returns}
use lacp.Mngr.{Mngr, link_two_ports, unlink_bridges, next_bridge, build_ring, link_ring}
use lacp.Mngr.Matching.{Matches, Place, at, at_self, none-some}
use lacp.Mngr.Ports.{view, Kept, Kept-refl, Kept-trans, Leaves}
use lacp.Mngr.Writes.{link_two_ports-Leaves}
use lacp.Mngr.Linked.{IsLinked, valid_index}
use lacp.Live.{Returns, Returns-bind, Returns-map}
use lacp.Mngr.Cleared.{all-none}

-- The links that `link_ring` makes, on those that there are: port 1 of each bridge to place 1 of
-- the next, and port 0 of the next to place 2 of the bridge.
abbrev pub ring_links : ℕ → List ℕ → (Place → Option Place) → Place → Option Place
ring_links first [] f x = f x
ring_links first (br ∷ brs) f x =
    ring_links first brs
      (λ z.
        if at (next_bridge first brs, 0) z
        then some (br, 2)
        else if at (br, 1) z
        then some (next_bridge first brs, 1)
        else f z)
      x

ring_links-eq :
    (first : ℕ) (brs : List ℕ) (f g : Place → Option Place)
    → ((x : Place) → f x ≡ g x)
    → (x : Place) → ring_links first brs f x ≡ ring_links first brs g x
ring_links-eq first [] f g e x = e x
ring_links-eq first (br ∷ brs) f g e x =
    ring_links-eq first brs _ _
      (λ z.
        ap
          (λ o.
            if at (next_bridge first brs, 0) z
            then some (br, 2)
            else if at (br, 1) z
            then some (next_bridge first brs, 1)
            else o)
          (e z))
      x

next_listed :
    (first : ℕ) (brs l : List ℕ)
    → In first l
    → ((a : ℕ) → In a brs → In a l)
    → In (next_bridge first brs) l
next_listed first [] l h i = h
next_listed first (br ∷ brs) l h i = i br (ground arith)

build_ring-Leaves :
    (first : ℕ) (brs : List ℕ) (m : Mngr)
    → In first m.br_lst
    → ((a : ℕ) → In a brs → In a m.br_lst)
    → ((a : ℕ) → In a m.br_lst → 2 ≤ (m.bridge a).number_of_ports)
    → Returns (build_ring first brs m) (Leaves m (ring_links first brs (view m)))
unfolding build_ring
build_ring-Leaves first [] m h i t = (Kept-refl m, λ x. refl)
build_ring-Leaves first (br ∷ brs) m h i t =
    let next = next_bridge first brs in
    let a = valid_index m br 1 (i br (ground arith)) (omega (arith, t br (i br (ground arith)))) in
    let n : In next m.br_lst = next_listed first brs m.br_lst h (λ c j. i c (ground (arith, j))) in
    let b = valid_index m next 0 n (omega (arith, t next n)) in
    Returns-bind (link_two_ports br 1 2 next 0 1 m) (build_ring first brs) _ _
      (link_two_ports-Leaves m br 1 2 next 0 1 a b)
      (λ u (k, e).
        Returns-map (build_ring first brs u) _ _
          (build_ring-Leaves first brs u (subst (In first) (sym k.list) h)
            (λ c j. subst (In c) (sym k.list) (i c (ground (arith, j))))
            (λ c j. subst (λ z. 2 ≤ z) (sym (k.count c)) (t c (subst (In c) k.list j))))
          (λ v (q, d). (Kept-trans m u v k q, λ x. d x ∙ ring_links-eq first brs (view u) _ e x)))

abbrev last_of : ℕ → List ℕ → ℕ
last_of br [] = br
last_of br (c ∷ brs) = last_of c brs

ring_first :
    (first br : ℕ) (brs : List ℕ) (f : Place → Option Place)
    → ring_links first (br ∷ brs) f (first, 0) ≡ some (last_of br brs, 2)
ring_first first br [] f =
    ap
      (λ b.
        if b then some (br, 2) else if at (br, 1) (first, 0) then some (first, 1) else f (first, 0))
      (at_self (first, 0))
ring_first first br (c ∷ brs) f = ring_first first c brs _

ring_two :
    (first : ℕ) (brs : List ℕ) (f : Place → Option Place) (a : ℕ)
    → f (a, 2) ≡ none
    → ring_links first brs f (a, 2) ≡ none
ring_two first [] f a e = e
ring_two first (br ∷ brs) f a e =
    ring_two first brs _ a (untouched (next_bridge first brs == a) (br == a) _ _ (f (a, 2)) e)
  where
    untouched :
        (b c : Bool) (x y o : Option Place)
        → o ≡ none
        → (if b && false then x else if c && false then y else o) ≡ none
    untouched true true x y o h = h
    untouched true false x y o h = h
    untouched false true x y o h = h
    untouched false false x y o h = h

one_way :
    (f : Place → Option Place) (first : ℕ) (brs : List ℕ)
    → ((x : Place) → f x ≡ ring_links first (first ∷ brs) (λ _. none) x)
    → Matches f
    → ⊥
one_way f first brs e m = none-some (
    sym (ring_two first (first ∷ brs) (λ _. none) (last_of first brs) refl)
    ∙ sym (e (last_of first brs, 2))
    ∙ m (first, 0) (last_of first brs, 2) (e (first, 0) ∙ ring_first first first brs (λ _. none)))

-- On links that go both ways, with at least one bridge and two ports in each: `link_ring` returns,
-- the bridges stay, all links from before are gone, and port 1 of each bridge is linked to port 1
-- of the next and port 0 of the next to port 2 of the bridge, where the first bridge is next to the
-- last; and these links do not go both ways.
pub link_ring-ring_links :
    (m : Mngr) (first : ℕ) (brs : List ℕ)
    → IsLinked m
    → m.br_lst ≡ first ∷ brs
    → ((a : ℕ) → In a m.br_lst → 2 ≤ (m.bridge a).number_of_ports)
    → Returns (link_ring m) (λ v.
      Kept m v
      × ((x : Place) → view v x ≡ ring_links first (first ∷ brs) (λ _. none) x)
      × ¬ Matches (view v))
unfolding link_ring
link_ring-ring_links m first brs l b t =
    Returns-bind (unlink_bridges m.br_lst m) _ _ _ (all-none m l) (λ u (k, z).
      let q = k.list ∙ b in
      subst
        (λ ps.
          Returns (elim ps [ [] ↦ returns u | p ∷ ps' ↦ build_ring p (p ∷ ps') u ])
            (λ v.
              Kept m v
              × ((x : Place) → view v x ≡ ring_links first (first ∷ brs) (λ _. none) x)
              × ¬ Matches (view v)))
        (sym q)
        (Returns-map (build_ring first (first ∷ brs) u) _ _
          (build_ring-Leaves first (first ∷ brs) u (subst (In first) (sym q) (ground arith))
            (λ a j. subst (In a) (sym q) j)
            (λ a j. subst (λ n. 2 ≤ n) (sym (k.count a)) (t a (subst (In a) k.list j))))
          (λ v (o, d).
            let e : (x : Place) → view v x ≡ ring_links first (first ∷ brs) (λ _. none) x =
              λ x. d x ∙ ring_links-eq first (first ∷ brs) (view u) (λ _. none) z x in
            (Kept-trans m u v k o, e, one_way (view v) first brs e))))
