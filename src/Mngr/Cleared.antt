-- ===== src/Mngr/Cleared.antt =====
-- mngr.c: the loops of `link_ring` that remove all links.
use lacp.Base.{
  ℕ, zero, suc, ◌+◌, ◌≤◌, ◌<◌, ◌≡◌, refl, sym, ap, ◌∙◌, subst, Bool, true, false, ◌||◌, ◌==◌,
  ==_iff, Bool-cases, Option-cases, inl, inr, if◌then◌else◌, Option, none, List, [], ◌∷◌, In, arith,
}
use lacp.Mngr.{Mngr, PeerPort, in_array, read_port, unlink_all, unlink_bridges}
use lacp.Mngr.Matching.{Place, at, at_self, cut}
use lacp.Mngr.Ports.{view, Kept, Kept-refl, Kept-trans, peer_of, read-Returns}
use lacp.Mngr.Linked.{at_none, at_some, IsLinked, unlinked, valid_index}
use lacp.Mngr.Commands.{cut_port, cut_port-unlinked}
use lacp.Live.{Returns, Returns-bind, Returns-map}

-- Links that are only removed.
abbrev Only : Mngr → Mngr → Type 0
Only m v = Kept m v × IsLinked v × ((x : Place) → view m x ≡ none → view v x ≡ none)

Only-refl : (m : Mngr) → IsLinked m → Only m m
Only-refl m l = (Kept-refl m, l, λ x e. e)

Only-trans : (m u v : Mngr) → Only m u → Only u v → Only m v
Only-trans m u v (k, l, e) (q, r, d) = (Kept-trans m u v k q, r, λ x h. d x (e x h))

cut_none : (b c : Bool) (o : Option Place) → o ≡ none → (if b || c then none else o) ≡ none
cut_none true c o e = refl
cut_none false true o e = refl
cut_none false false o e = e

unlinked-none : (f : Place → Option Place) (x z : Place) → f z ≡ none → unlinked f x z ≡ none
unlinked-none f x z e = elim (Option-cases (f x)) [
  | inl n ↦ at_none (f x) (f z) (λ y. cut f x y z) n ∙ e
  | inr (y, s) ↦ at_some (f x) y (f z) (λ w. cut f x w z) s ∙ cut_none (at x z) (at y z) (f z) e
]

unlinked_own : (f : Place → Option Place) (x : Place) → unlinked f x x ≡ none
unlinked_own f x = elim (Option-cases (f x)) [
  | inl n ↦ at_none (f x) (f x) (λ y. cut f x y x) n ∙ n
  | inr (y, s) ↦
      at_some (f x) y (f x) (λ w. cut f x w x) s
      ∙ ap (λ b. if b || at y x then none else f x) (at_self x)
]

-- One port.
cut_one :
    (m : Mngr) (br n : ℕ) (p : PeerPort)
    → IsLinked m
    → in_array m br n ≡ true
    → p ≡ (m.bridge br).ports n
    → Returns (cut_port br n m p) (λ v. Only m v × (view v (br, n) ≡ none))
cut_one m br n p l i r =
    Returns-map (cut_port br n m p) _ _ (cut_port-unlinked m br n p l i r) (λ v (k, q, e). (
      (k, q, λ x h. e x ∙ unlinked-none (view m) (br, n) x h),
      e (br, n) ∙ unlinked_own (view m) (br, n),
    ))

unlink_all-Only :
    (left n total br : ℕ) (m : Mngr)
    → IsLinked m
    → In br m.br_lst
    → total ≡ (m.bridge br).number_of_ports
    → n + left ≡ total
    → Returns
        (unlink_all br left n m)
        (λ v. Only m v × ((k : ℕ) → n ≤ k → k < total → view v (br, k) ≡ none))
unfolding unlink_all
unlink_all-Only zero n total br m l i t h =
    (Only-refl m l, λ k a b. absurd (outside n k total (omega (arith, h)) a b))
  where
    outside : (n k total : ℕ) → n ≡ total → n ≤ k → k < total → ⊥
    outside n k total e a b = omega (arith, e, a, b)
unlink_all-Only (suc left) n total br m l i t h =
    let a = valid_index m br n i (omega (arith, t, h)) in
    Returns-bind (read_port m br n) _ _ _ (read-Returns m br n a) (λ p r.
      Returns-bind (cut_port br n m p) _ _ _ (cut_one m br n p l a r) (λ u (o, z).
        Returns-map (unlink_all br left (n + 1) u) _ _
          (unlink_all-Only left (n + 1) total br u o.1 (subst (In br) (sym o.0.list) i)
            (t ∙ sym (o.0.count br)) (omega (arith, h)))
          (λ v (q, d). (
            Only-trans m u v o q,
            λ k b c. first_or_later (view v) br n k b (q.2 (br, n) z) (λ e. d k e c),
          ))))
  where
    first_or_later :
        (f : Place → Option Place) (a n k : ℕ)
        → n ≤ k
        → f (a, n) ≡ none
        → (n + 1 ≤ k → f (a, k) ≡ none)
        → f (a, k) ≡ none
    first_or_later f a n k b e g = elim (Bool-cases (n == k)) [
      | inl c ↦ subst (λ j. f (a, j) ≡ none) ((==_iff n k).0 c) e
      | inr c ↦ g (ground (arith, b, c))
    ]

-- All links are gone.
unlink_bridges-none :
    (ps : List ℕ) (m : Mngr)
    → IsLinked m
    → ((a : ℕ) → In a ps → In a m.br_lst)
    → Returns (unlink_bridges ps m) (λ v.
      Only m v × ((a k : ℕ) → In a ps → k < (m.bridge a).number_of_ports → view v (a, k) ≡ none))
unfolding unlink_bridges
unlink_bridges-none [] m l i = (Only-refl m l, λ a k b h. cc)
unlink_bridges-none (p ∷ ps) m l i =
    let total = (m.bridge p).number_of_ports in
    Returns-bind (unlink_all p total 0 m) (unlink_bridges ps) _ _
      (unlink_all-Only total 0 total p m l (i p (ground arith)) refl (omega arith))
      (λ u (o, z).
        Returns-map (unlink_bridges ps u) _ _
          (unlink_bridges-none ps u o.1
            (λ a h. subst (In a) (sym o.0.list) (i a (ground (arith, h)))))
          (λ v (q, d). (
            Only-trans m u v o q,
            λ a k h b. elim (Bool-cases (p == a)) [
              | inl c ↦
                  let e = (==_iff p a).0 c in
                  q.2 (a, k)
                    (subst (λ x. view u (x, k) ≡ none) e
                      (z k (omega arith) (subst (λ x. k < (m.bridge x).number_of_ports) (sym e) b)))
              | inr c ↦ d a k (ground (arith, h, c)) (subst (λ n. k < n) (sym (o.0.count a)) b)
            ],
          )))

nowhere :
    (m : Mngr) (x : Place)
    → (In x.0 m.br_lst → x.1 < (m.bridge x.0).number_of_ports → view m x ≡ none)
    → view m x ≡ none
nowhere m x h = elim (Bool-cases (in_array m x.0 x.1)) [
  | inl c ↦ h (ground (arith, c)) (ground (arith, c))
  | inr c ↦ ap (λ i. if i then peer_of ((m.bridge x.0).ports x.1) else none) c
]

pub all-none :
    (m : Mngr)
    → IsLinked m
    → Returns (unlink_bridges m.br_lst m) (λ v. Kept m v × ((x : Place) → view v x ≡ none))
all-none m l =
    Returns-map (unlink_bridges m.br_lst m) _ _ (unlink_bridges-none m.br_lst m l (λ a h. h))
      (λ v (o, d). (
        o.0,
        λ x.
            nowhere v x (λ i b.
              d x.0 x.1 (subst (In x.0) o.0.list i) (subst (λ n. x.1 < n) (o.0.count x.0) b)),
      ))
