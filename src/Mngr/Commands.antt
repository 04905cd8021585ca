-- ===== src/Mngr/Commands.antt =====
-- mngr.c: `link_bridges` and `unlink_port` on links that go both ways.
use lacp.Base.{
  ℕ, ◌^◌, ◌<◌, ◌≡◌, refl, sym, ap, ◌∙◌, subst, Bool, true, false, ◌||◌, Option-cases, inl, inr,
  if◌then◌else◌, Option, none, some,
}
use lacp.Types.{Outcome, returns, ◌>>=◌}
use lacp.Mngr.{
  Mngr, PeerPort, in_array, read_port, disconnect_port, link_two_ports, last_bridge, invalid,
  is_linked, link_bridges, unlink_port,
}
use lacp.Mngr.Matching.{Place, at, at_eq, cut, join, cut-Matches, join-Matches, clash, none-some}
use lacp.Mngr.Ports.{view, Kept-refl, view-some, read-Returns, peer_of}
use lacp.Live.{
  Returns, Returns-bind, Returns-map, Returns-some, Returns-none, Returns-else, Returns-if,
}
use lacp.Mngr.Linked.{
  IsLinked, Kept-IsLinked, both_ends, unlinked, linked, Links, at_none, at_some, listed,
  valid_index, not_invalid,
}
use lacp.Mngr.Writes.{link_two_ports-Leaves, view-none}

abbrev taken : Option Place → Bool
taken o = elim o [ none ↦ false | some _ ↦ true ]

taken_partner :
    (o : Option ℕ) (q : ℕ)
    → elim o [ none ↦ false | some _ ↦ true ]
      ≡ taken (elim o [ none ↦ none | some b ↦ some (b, q) ])
taken_partner none q = refl
taken_partner (some b) q = refl

-- `if (port->bridge_partner)`, as a question on the links.
taken_port :
    (m : Mngr) (a k : ℕ) (p : PeerPort)
    → in_array m a k ≡ true
    → p ≡ (m.bridge a).ports k
    → is_linked p ≡ taken (view m (a, k))
taken_port m a k p h e =
    ap is_linked e
    ∙ taken_partner ((m.bridge a).ports k).bridge_partner ((m.bridge a).ports k).port_partner
    ∙ ap (λ i. taken (if i then peer_of ((m.bridge a).ports k) else none)) (sym h)

linked_busy :
    (o w r n : Option Place)
    → (taken o || taken w) ≡ true
    → elim o [ none ↦ elim w [ none ↦ n | some _ ↦ r ] | some _ ↦ r ] ≡ r
linked_busy none none r n e = cc
linked_busy none (some y) r n e = refl
linked_busy (some x) w r n e = refl

both_free : (o w : Option Place) → (taken o || taken w) ≡ false → (o ≡ none) × (w ≡ none)
both_free none none e = (refl, refl)
both_free none (some y) e = absurd (clash refl e)
both_free (some x) w e = absurd (clash refl e)

linked_free :
    (o w r n : Option Place)
    → o ≡ none
    → w ≡ none
    → elim o [ none ↦ elim w [ none ↦ n | some _ ↦ r ] | some _ ↦ r ] ≡ n
linked_free none none r n e d = refl
linked_free none (some y) r n e d = absurd (none-some (sym d))
linked_free (some x) w r n e d = absurd (none-some (sym e))

swapped :
    (b c : Bool) (x y o : Option Place)
    → (b ≡ true → c ≡ true → x ≡ y)
    → (if b then x else if c then y else o) ≡ (if c then y else if b then x else o)
swapped true true x y o h = h refl refl
swapped true false x y o h = refl
swapped false true x y o h = refl
swapped false false x y o h = refl

join_swap : (f : Place → Option Place) (x y z : Place) → join f y x z ≡ join f x y z
join_swap f x y z =
    swapped (at y z) (at x z) (some x) (some y) (f z)
      (λ e d. ap some (at_eq x z d ∙ sym (at_eq y z e)))

-- What `unlink_port` and `link_ring` do to a port that they have read.
abbrev pub cut_port : ℕ → ℕ → Mngr → PeerPort → Outcome Mngr
cut_port a k m p = elim p.bridge_partner [
  | none ↦ returns m
  | some br2 ↦ disconnect_port a k true m >>= λ v. disconnect_port br2 p.port_partner true v
]

pub cut_port-unlinked :
    (m : Mngr) (a k : ℕ) (p : PeerPort)
    → IsLinked m
    → in_array m a k ≡ true
    → p ≡ (m.bridge a).ports k
    → Returns (cut_port a k m p) (Links m (unlinked (view m) (a, k)))
cut_port-unlinked m a k p l i r = elim (Option-cases (view m (a, k))) [
  | inl n ↦
      Returns-none p.bridge_partner _ _ _ (view-none m a k p i n r)
        (Kept-refl m, l, λ x. sym (at_none (view m (a, k)) (view m x) _ n))
  | inr (y, s) ↦
      let q = r ∙ (view-some m a k y s).1 in
      Returns-some p.bridge_partner y.0 _ _ _ (ap (λ z. z.bridge_partner) q) (
        subst
          (λ j.
            Returns (disconnect_port a k true m >>= λ v. disconnect_port y.0 j true v)
              (Links m (unlinked (view m) (a, k))))
          (ap (λ z. z.port_partner) (sym q))
          (Returns-map (disconnect_port a k true m >>= disconnect_port y.0 y.1 true) _ _
            (both_ends m a k y.0 y.1 l.matched s)
            (λ v t. (
              t.0,
              Kept-IsLinked m v (cut (view m) (a, k) y) t
                  (cut-Matches (view m) (a, k) y l.matched s) l,
              λ x.
                  t.1 x
                  ∙ sym (at_some (view m (a, k)) y (view m x) (λ z. cut (view m) (a, k) z x) s),
            ))))
]

-- On links that go both ways, for a registered bridge, the last of the list with its pid, and an
-- index of one of its ports below 2^31: `unlink_port` returns, the bridges stay as they were, and
-- the links are those from before without the one of that port; they still go both ways.
pub unlink_port-unlinked :
    (m : Mngr) (pid a k : ℕ)
    → IsLinked m
    → last_bridge m m.br_lst pid none ≡ some a
    → k < (m.bridge a).number_of_ports
    → k < 2 ^ 31
    → Returns (unlink_port pid k m) (Links m (unlinked (view m) (a, k)))
unfolding unlink_port
unlink_port-unlinked m pid a k l e h b =
    let i = valid_index m a k (listed m pid a e) h in
    Returns-some (last_bridge m m.br_lst pid none) a _ _ _ e (
      Returns-else (invalid m a k) _ _ _ (not_invalid m a k b h) (
        Returns-bind (read_port m a k) _ _ _ (read-Returns m a k i)
          (λ p r. cut_port-unlinked m a k p l i r)))

-- On links that go both ways, for two registered bridges, each the last of the list with its pid,
-- and indices of their ports below 2^31: `link_bridges` returns, the bridges stay as they were, and
-- if both ports are free the links are those from before with one between the two ports, and
-- otherwise those from before; they still go both ways.
pub link_bridges-linked :
    (m : Mngr) (pid1 a k pid2 b j : ℕ)
    → IsLinked m
    → last_bridge m m.br_lst pid1 none ≡ some a
    → last_bridge m m.br_lst pid2 none ≡ some b
    → k < (m.bridge a).number_of_ports
    → j < (m.bridge b).number_of_ports
    → k < 2 ^ 31
    → j < 2 ^ 31
    → Returns (link_bridges pid1 k pid2 j m) (Links m (linked (view m) (a, k) (b, j)))
unfolding link_bridges
link_bridges-linked m pid1 a k pid2 b j l e d h i p q =
    let u = valid_index m a k (listed m pid1 a e) h in
    let v = valid_index m b j (listed m pid2 b d) i in
    Returns-some (last_bridge m m.br_lst pid1 none) a _ _ _ e (
      Returns-some (last_bridge m m.br_lst pid2 none) b _ _ _ d (
        Returns-else (invalid m a k || invalid m b j) _ _ _
          (ap (λ c. c || invalid m b j) (not_invalid m a k p h) ∙ not_invalid m b j q i)
          (Returns-bind (read_port m a k) _ _ _ (read-Returns m a k u) (λ s r.
            Returns-bind (read_port m b j) _ _ _ (read-Returns m b j v) (λ t w.
              let busy = taken_port m a k s u r in
              let full = taken_port m b j t v w in
              Returns-if (is_linked s || is_linked t) _ _ _
                (λ c. (
                  Kept-refl m,
                  l,
                  λ x. sym (
                      linked_busy (view m (a, k)) (view m (b, j)) (view m x)
                        (join (view m) (a, k) (b, j) x) (either (sym busy) (sym full) c)),
                ))
                (λ c.
                  let (n, o) =
                    both_free (view m (a, k)) (view m (b, j)) (either (sym busy) (sym full) c) in
                  Returns-map (link_two_ports a k k b j j m) _ _
                    (link_two_ports-Leaves m a k k b j j u v)
                    (λ z y. (
                      y.0,
                      Kept-IsLinked m z (join (view m) (b, j) (a, k)) y
                          (join-Matches (view m) (b, j) (a, k) l.matched o n) l,
                      λ x.
                          y.1 x
                          ∙ join_swap (view m) (a, k) (b, j) x
                          ∙ sym (
                              linked_free (view m (a, k)) (view m (b, j)) (view m x)
                                (join (view m) (a, k) (b, j) x) n o),
                    ))))))))
  where
    either : {x y z w q : Bool} → x ≡ z → y ≡ w → (z || w) ≡ q → (x || y) ≡ q
    either g h e = cc
