-- ===== src/Mngr/Bridges.antt =====
-- mngr.c: a bridge that leaves the list, and one that registers.
use lacp.Base.{
  ℕ, ◌+◌, ◌<◌, ◌≡◌, ◌≢◌, refl, sym, ap, ◌∙◌, subst, Bool, true, false, not, ◌&&◌, ◌||◌, ◌↔◌, ◌==◌,
  ==_iff, ltb, Bool-cases, inl, inr, if◌then◌else◌, Option, none, some, List, ◌∷◌, elem, In, arith,
}
use lacp.Create.{unlink}
use lacp.Create.Table.{Nodup, elem-unlink, unlink-Nodup}
use lacp.Mngr.{Mngr, Peer, register_bridge, find_bridge, disconnect_all, unregister_bridge}
use lacp.Mngr.Matching.{Place}
use lacp.Mngr.Ports.{view, Kept, view-some, peer_of}
use lacp.Mngr.Linked.{IsLinked, Matches-eq}
use lacp.Live.{Returns, Returns-bind, Returns-some}
use lacp.Mngr.Fewer.{found_listed, hidden, hide, Fewer, Fewer-eq, disconnect_all-Fewer}

-- A bridge that leaves the list, with what is then hidden.
without : Mngr → ℕ → Mngr
without m br = record m { br_lst = unlink br m.br_lst }

leaving :
    (e b c : Bool) (o : Option Place)
    → (if (e && not b) && c then o else none)
      ≡ (if b && c then none else if e && c then o else none)
leaving true true true o = refl
leaving true true false o = refl
leaving true false c o = refl
leaving false true true o = refl
leaving false true false o = refl
leaving false false c o = refl

without-view :
    (m : Mngr) (br total : ℕ) (x : Place)
    → Nodup m.br_lst
    → total ≡ (m.bridge br).number_of_ports
    → view (without m br) x ≡ hide br total (view m) x
unfolding without
without-view m br total x u t =
    ap
      (λ e.
        if e && ltb x.1 (m.bridge x.0).number_of_ports
        then peer_of ((m.bridge x.0).ports x.1)
        else none)
      (elem-unlink br x.0 m.br_lst u)
    ∙ leaving (elem x.0 m.br_lst) (br == x.0) (ltb x.1 (m.bridge x.0).number_of_ports)
        (peer_of ((m.bridge x.0).ports x.1))
    ∙ ap (λ c. if c then none else view m x) (same_count (br == x.0) refl)
  where
    same_count :
        (c : Bool)
        → (br == x.0) ≡ c
        → (c && ltb x.1 (m.bridge x.0).number_of_ports) ≡ (c && ltb x.1 total)
    same_count true c =
        ap (λ n. ltb x.1 n)
          (ap (λ a. (m.bridge a).number_of_ports) (sym ((==_iff br x.0).0 c)) ∙ sym t)
    same_count false c = refl

-- Links of a list without a bridge do not start at it.
away :
    (m : Mngr) (br : ℕ) (x y : Place) → Nodup m.br_lst → view (without m br) x ≡ some y → br ≢ x.0
unfolding without
away m br x y u q e =
    let i = (view-some (without m br) x.0 x.1 y q).0 in
    let d = elem-unlink br x.0 m.br_lst u in ground (arith, i, d, e)

hidden_none : (br : ℕ) (x : Place) → hidden br 0 x ≡ false
hidden_none br x = ground arith

-- Nothing is hidden yet.
starting : (m : Mngr) (br : ℕ) → IsLinked m → Fewer br (view m) (hide br 0 (view m))
starting m br l =
    Fewer-eq br (view m) (view m) (hide br 0 (view m))
      (λ x. ap (λ c. if c then none else view m x) (hidden_none br x))
      (record { matched = l.matched; only = λ x y q. q; keeps = λ x y q a b. q })

unlisted : (br a : ℕ) (ps : List ℕ) → Nodup ps → In a (unlink br ps) → In a ps
unlisted br a ps u h = let e = elem-unlink br a ps u in ground (arith, h, e)

-- A bridge that leaves, once its ports are not linked to.
left-IsLinked :
    (m v : Mngr) (br : ℕ)
    → IsLinked m
    → Kept m v
    → Fewer br (view m) (view (without v br))
    → IsLinked (without v br)
unfolding without
left-IsLinked m v br l k r = record {
  once = unlink-Nodup br v.br_lst (subst Nodup (sym k.list) l.once);
  below = λ a i.
      subst (λ n. a < n) (sym k.fresh)
        (l.below a
          (subst (In a) k.list (unlisted br a v.br_lst (subst Nodup (sym k.list) l.once) i)));
  matched = r.matched;
}

left_links :
    (m v : Mngr) (br : ℕ) (x y : Place)
    → Nodup v.br_lst
    → Fewer br (view m) (view (without v br))
    → (view (without v br) x ≡ some y) ↔ ((view m x ≡ some y) × (br ≢ x.0) × (br ≢ y.0))
left_links m v br x y u r = (
  λ q. (r.only x y q, away v br x y u q, away v br y x u (r.matched x y q)),
  λ (q, a, b). r.keeps x y q a b,
)

-- On links that go both ways, `unregister_bridge` for the pid of a registered bridge returns, takes
-- the first bridge with that pid off the list, and of the links exactly those with an end at that
-- bridge; the others still go both ways.
pub unregister_bridge-Links :
    (m : Mngr) (pid br : ℕ)
    → IsLinked m
    → find_bridge m m.br_lst pid ≡ some br
    → Returns (unregister_bridge pid m) (λ v.
      IsLinked v
      × (v.br_lst ≡ unlink br m.br_lst)
      × ((x y : Place) → (view v x ≡ some y) ↔ ((view m x ≡ some y) × (br ≢ x.0) × (br ≢ y.0))))
unfolding unregister_bridge without
unregister_bridge-Links m pid br l e =
    let i = found_listed m m.br_lst pid br e in
    let total = (m.bridge br).number_of_ports in
    Returns-some (find_bridge m m.br_lst pid) br _ _ _ e (
      Returns-bind (disconnect_all br total 0 m) _ _ _
        (disconnect_all-Fewer total 0 total br m (view m) i refl (omega arith) (starting m br l))
        (λ v (k, r).
          let u = subst Nodup (sym k.list) l.once in
          let f : Fewer br (view m) (view (without v br)) =
            Fewer-eq br (view m) (hide br total (view v)) (view (without v br))
              (λ x. without-view v br total x u (sym (k.count br))) r in
          (left-IsLinked m v br l k f, ap (unlink br) k.list, λ x y. left_links m v br x y u f)))

fresh_new : (m : Mngr) → IsLinked m → elem m.fresh m.br_lst ≡ false
fresh_new m l = elim (Bool-cases (elem m.fresh m.br_lst)) [
  | inl e ↦ absurd (above (l.below m.fresh e))
  | inr e ↦ e
]
  where
    above : m.fresh < m.fresh → ⊥
    above h = omega (arith, h)

-- A bridge that registers is not linked to.
register-view :
    (m : Mngr) (pid count sock : ℕ) (x : Place)
    → elem m.fresh m.br_lst ≡ false
    → view (register_bridge pid count sock m) x ≡ view m x
unfolding register_bridge
register-view m pid count sock x h =
    newcomer (m.fresh == x.0) (elem x.0 m.br_lst) x.1
      (record {
        pid = pid;
        number_of_ports = count;
        ports = λ _. record { bridge_partner = none; port_partner = 0 };
        sock = sock;
      })
      (m.bridge x.0) (λ k. refl)
      (λ c. ap (λ a. elem a m.br_lst) (sym ((==_iff m.fresh x.0).0 c)) ∙ h)
  where
    newcomer :
        (c e : Bool) (k : ℕ) (new old : Peer)
        → ((j : ℕ) → peer_of (new.ports j) ≡ none)
        → (c ≡ true → e ≡ false)
        → (if (c || e) && ltb k (if c then new else old).number_of_ports
            then peer_of ((if c then new else old).ports k)
            else none)
          ≡ (if e && ltb k old.number_of_ports then peer_of (old.ports k) else none)
    newcomer true e k new old n h =
        only_none (ltb k new.number_of_ports) (n k)
        ∙ ap (λ b. if b && ltb k old.number_of_ports then peer_of (old.ports k) else none)
            (sym (h refl))
      where
        only_none : {o : Option Place} (b : Bool) → o ≡ none → (if b then o else none) ≡ none
        only_none true d = d
        only_none false d = refl
    newcomer false e k new old n h = refl

pub register_bridge-IsLinked :
    (m : Mngr) (pid count sock : ℕ) → IsLinked m → IsLinked (register_bridge pid count sock m)
unfolding register_bridge
register_bridge-IsLinked m pid count sock l =
    let h = fresh_new m l in
    record {
      once = (h, l.once);
      below = λ a i. newest a i;
      matched =
          Matches-eq (view m) (view (register_bridge pid count sock m))
            (λ x. register-view m pid count sock x h) l.matched;
    }
  where
    newest : (a : ℕ) → In a (m.fresh ∷ m.br_lst) → a < m.fresh + 1
    newest a i = elim (Bool-cases (m.fresh == a)) [
      | inl c ↦ omega (arith, (==_iff m.fresh a).0 c)
      | inr c ↦ omega (arith, l.below a (ground (arith, i, c)))
    ]
