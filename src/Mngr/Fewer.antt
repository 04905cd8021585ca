-- ===== src/Mngr/Fewer.antt =====
-- mngr.c: the loop of `unregister_bridge`, as links that go.
use lacp.Base.{
  ℕ, zero, suc, ◌+◌, ◌<◌, ◌≡◌, ◌≢◌, refl, sym, ap, ◌∙◌, subst, Bool, true, false, ◌&&◌, ◌||◌, ◌==◌,
  ltb, Bool-cases, Option-cases, inl, inr, if◌then◌else◌, Option, none, some, List, [], ◌∷◌, In,
  arith,
}
use lacp.Types.{Outcome, returns}
use lacp.Mngr.{Mngr, PeerPort, read_port, disconnect_port, find_bridge, disconnect_all}
use lacp.Mngr.Matching.{Place, at, at_eq, Matches, cut, cut-Matches, clash, none-some, some_eq}
use lacp.Mngr.Ports.{view, Kept, Kept-refl, Kept-trans, view-some, read-Returns}
use lacp.Mngr.Linked.{Matches-eq, valid_index}
use lacp.Live.{Returns, Returns-bind, Returns-map, Returns-some, Returns-none}
use lacp.Mngr.Writes.{disconnect_port-Leaves, view-none}

pub found_listed : (m : Mngr) (ps : List ℕ) (pid a : ℕ) → find_bridge m ps pid ≡ some a → In a ps
unfolding find_bridge
found_listed m [] pid a e = cc
found_listed m (p ∷ ps) pid a e = elim (Bool-cases ((m.bridge p).pid == pid)) [
  | inl c ↦ own (ap (λ b. if b then some p else find_bridge m ps pid) (sym c) ∙ e)
  | inr c ↦
      let i =
        found_listed m ps pid a
          (ap (λ b. if b then some p else find_bridge m ps pid) (sym c) ∙ e) in
      ground (arith, i)
]
  where
    own : some p ≡ some a → In a (p ∷ ps)
    own q = ground (arith, q)

-- The links, but for those that start at a port of a bridge below an index.
abbrev pub hidden : ℕ → ℕ → Place → Bool
hidden br n x = br == x.0 && ltb x.1 n

abbrev pub hide : ℕ → ℕ → (Place → Option Place) → Place → Option Place
hide br n f x = if hidden br n x then none else f x

hidden-suc : (br n : ℕ) (x : Place) → hidden br (n + 1) x ≡ (hidden br n x || at (br, n) x)
hidden-suc br n x = ground arith

not_hidden : (br n : ℕ) → hidden br n (br, n) ≡ false
not_hidden br n = ground arith

hide_none :
    (h c : Bool) (o : Option Place)
    → (c ≡ true → o ≡ none)
    → (if h || c then none else o) ≡ (if h then none else o)
hide_none true c o e = refl
hide_none false true o e = sym (e refl)
hide_none false false o e = refl

hide_cut :
    (h c d : Bool) (o : Option Place)
    → (if h || c then none else if d then none else o)
      ≡ (if c || d then none else if h then none else o)
hide_cut true true d o = refl
hide_cut true false true o = refl
hide_cut true false false o = refl
hide_cut false true d o = refl
hide_cut false false d o = refl

-- Links of which only those with an end at a bridge have gone.
pub record Fewer (br : ℕ) (f g : Place → Option Place) : Type 0 where
  pub matched : Matches g
  pub only : (x y : Place) → g x ≡ some y → f x ≡ some y
  pub keeps : (x y : Place) → f x ≡ some y → br ≢ x.0 → br ≢ y.0 → g x ≡ some y

pub Fewer-eq :
    (br : ℕ) (f g h : Place → Option Place)
    → ((x : Place) → h x ≡ g x)
    → Fewer br f g
    → Fewer br f h
Fewer-eq br f g h e r = record {
  matched = Matches-eq g h e r.matched;
  only = λ x y q. r.only x y (sym (e x) ∙ q);
  keeps = λ x y q a b. e x ∙ r.keeps x y q a b;
}

Fewer-cut :
    (br k : ℕ) (f g : Place → Option Place) (y : Place)
    → g (br, k) ≡ some y
    → Fewer br f g
    → Fewer br f (cut g (br, k) y)
Fewer-cut br k f g y e r = record {
  matched = cut-Matches g (br, k) y r.matched e;
  only = λ x z q. r.only x z (still (at (br, k) x) (at y x) (g x) z q);
  keeps = λ x z q a b.
      kept (at (br, k) x) (at y x) (g x) (ground (arith, a)) (λ c. b (
        ap (λ p. p.0)
          (some_eq (sym (r.matched (br, k) y e) ∙ ap g (at_eq y x c) ∙ r.keeps x z q a b))))
      ∙ r.keeps x z q a b;
}
  where
    still :
        (b c : Bool) (o : Option Place) (z : Place)
        → (if b || c then none else o) ≡ some z
        → o ≡ some z
    still true c o z q = absurd (none-some q)
    still false true o z q = absurd (none-some q)
    still false false o z q = q

    kept :
        (b c : Bool) (o : Option Place)
        → b ≡ false
        → (c ≡ true → ⊥)
        → (if b || c then none else o) ≡ o
    kept true c o h n = absurd (clash refl h)
    kept false true o h n = absurd (n refl)
    kept false false o h n = refl

abbrev step_of : ℕ → ℕ → Mngr → PeerPort → Outcome Mngr
step_of br n m p = elim p.bridge_partner [
  | none ↦ returns m
  | some _ ↦ disconnect_port br n false m
]

-- One round of the loop.
disconnect_one-Fewer :
    (m : Mngr) (br n : ℕ) (f : Place → Option Place) (p : PeerPort)
    → In br m.br_lst
    → n < (m.bridge br).number_of_ports
    → p ≡ (m.bridge br).ports n
    → Fewer br f (hide br n (view m))
    → Returns (step_of br n m p) (λ v. Kept m v × Fewer br f (hide br (n + 1) (view v)))
disconnect_one-Fewer m br n f p i h e r = elim (Option-cases (view m (br, n))) [
  | inl s ↦ Returns-none p.bridge_partner _ _ _ (view-none m br n p (valid_index m br n i h) s e) (
    Kept-refl m,
    Fewer-eq br f (hide br n (view m)) (hide br (n + 1) (view m))
        (λ x.
          ap (λ c. if c then none else view m x) (hidden-suc br n x)
          ∙ hide_none (hidden br n x) (at (br, n) x) (view m x)
              (λ c. ap (view m) (sym (at_eq (br, n) x c)) ∙ s))
        r,
  )
  | inr (y, s) ↦
      let own : hide br n (view m) (br, n) ≡ some y =
        ap (λ c. if c then none else view m (br, n)) (not_hidden br n) ∙ s in
      let back : view m y ≡ some (br, n) =
        unhide (hidden br n y) (view m y) (br, n) (r.matched (br, n) y own) in
      Returns-some p.bridge_partner y.0 _ _ _
        (ap (λ z. z.bridge_partner) (e ∙ (view-some m br n y s).1))
        (Returns-map (disconnect_port br n false m) _ _
          (disconnect_port-Leaves m br n y.0 y.1 false s (view-some m y.0 y.1 (br, n) back).0)
          (λ v (k, d). (
            k,
            Fewer-eq br f (cut (hide br n (view m)) (br, n) y) (hide br (n + 1) (view v))
                (λ x.
                  ap (λ c. if c then none else view v x) (hidden-suc br n x)
                  ∙ ap (λ o. if hidden br n x || at (br, n) x then none else o) (d x)
                  ∙ hide_cut (hidden br n x) (at (br, n) x) (at y x) (view m x))
                (Fewer-cut br n f (hide br n (view m)) y own r),
          )))
]
  where
    unhide :
        (h : Bool) (o : Option Place) (z : Place) → (if h then none else o) ≡ some z → o ≡ some z
    unhide true o z q = absurd (none-some q)
    unhide false o z q = q

pub disconnect_all-Fewer :
    (left n total br : ℕ) (m : Mngr) (f : Place → Option Place)
    → In br m.br_lst
    → total ≡ (m.bridge br).number_of_ports
    → n + left ≡ total
    → Fewer br f (hide br n (view m))
    → Returns (disconnect_all br left n m) (λ v. Kept m v × Fewer br f (hide br total (view v)))
unfolding disconnect_all
disconnect_all-Fewer zero n total br m f i t h r =
    (Kept-refl m, subst (λ l. Fewer br f (hide br l (view m))) (omega (arith, h)) r)
disconnect_all-Fewer (suc left) n total br m f i t h r =
    let b : n < (m.bridge br).number_of_ports = omega (arith, t, h) in
    Returns-bind (read_port m br n) _ _ _ (read-Returns m br n (valid_index m br n i b)) (λ p e.
      Returns-bind (step_of br n m p) _ _ _ (disconnect_one-Fewer m br n f p i b e r) (λ u (k, q).
        Returns-map (disconnect_all br left (n + 1) u) _ _
          (disconnect_all-Fewer left (n + 1) total br u f (subst (In br) (sym k.list) i)
            (t ∙ sym (k.count br)) (omega (arith, h)) q)
          (λ v (l, o). (Kept-trans m u v k l, o))))
