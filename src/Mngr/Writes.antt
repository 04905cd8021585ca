-- ===== src/Mngr/Writes.antt =====
-- mngr.c: `disconnect_port` and `_link_two_ports` on the links.
use lacp.Base.{
  ℕ, ◌≡◌, refl, sym, ap, ◌∙◌, subst, Bool, true, false, if◌then◌else◌, Option, none, some, List,
  ◌∷◌, elem,
}
use lacp.Types.{returns, ◌>>=◌}
use lacp.Bridge.{Control}
use lacp.Mngr.{
  Mngr, PeerPort, Packet, cntrl, in_array, read_port, write_port, send, reset_port, disconnect_port,
  link_two_ports,
}
use lacp.Mngr.Matching.{Place, at, none-some}
use lacp.Live.{Returns, Returns-bind, Returns-map, Returns-option}
use lacp.Mngr.Ports.{
  peer_of, view, Kept-trans, Kept-refl, Kept-in_array, put-Kept, put-view, Leaves, mask,
  reset_port-Leaves, view-some, read-Returns, send-Returns, in_list,
}

-- A message does not matter to the links.
sent-Leaves :
    (m v : Mngr) (l : List (ℕ × Packet)) (f : Place → Option Place)
    → Leaves (record m { sent = l }) f v
    → Leaves m f v
sent-Leaves m v l f (k, e) =
    (record { list = k.list; fresh = k.fresh; count = k.count; pid = k.pid; sock = k.sock }, e)

reset_sent-Leaves :
    (m v : Mngr) (l : List (ℕ × Packet)) (a k : ℕ)
    → v ≡ record m { sent = l }
    → in_array m a k ≡ true
    → Returns (reset_port a k v) (Leaves m (mask (a, k) (view m)))
reset_sent-Leaves m v l a k s h =
    subst (λ x. Returns (reset_port a k x) (Leaves m (mask (a, k) (view m)))) (sym s)
      (Returns-map (reset_port a k (record m { sent = l })) _ _
        (reset_port-Leaves (record m { sent = l }) a k h)
        (λ x. sent-Leaves m x l (mask (a, k) (view m))))

reset_one-Leaves :
    (m v : Mngr) (l : List (ℕ × Packet)) (a k b j : ℕ) (own : Bool)
    → v ≡ record m { sent = l }
    → in_array m a k ≡ true
    → in_array m b j ≡ true
    → Returns
        (if own then reset_port a k v else reset_port b j v)
        (Leaves m (mask (if own then (a, k) else (b, j)) (view m)))
reset_one-Leaves m v l a k b j true s h i = reset_sent-Leaves m v l a k s h
reset_one-Leaves m v l a k b j false s h i = reset_sent-Leaves m v l b j s i

-- `disconnect_port` on a port that is linked, where the partner is linked back.
pub disconnect_port-Leaves :
    (m : Mngr) (a k b j : ℕ) (own : Bool)
    → view m (a, k) ≡ some (b, j)
    → in_array m b j ≡ true
    → Returns
        (disconnect_port a k own m)
        (Leaves m (mask (if own then (a, k) else (b, j)) (view m)))
unfolding disconnect_port
disconnect_port-Leaves m a k b j own e h =
    let (i, p) = view-some m a k (b, j) e in
    Returns-bind (read_port m a k) _ (λ q. q ≡ (m.bridge a).ports k)
      (Leaves m (mask (if own then (a, k) else (b, j)) (view m))) (read-Returns m a k i)
      (λ q r.
        subst
          (λ x.
            Returns
              (elim x.bridge_partner [
                | none ↦ returns m
                | some partner ↦
                    send partner (cntrl Control.port_disconnect x.port_partner) m >>= λ v.
                    if own then reset_port a k v else reset_port partner x.port_partner v
              ])
              (Leaves m (mask (if own then (a, k) else (b, j)) (view m))))
          (sym (r ∙ p))
          (Returns-bind (send b (cntrl Control.port_disconnect j) m) _ _ _
            (send-Returns m b (cntrl Control.port_disconnect j) (in_list m b j h))
            (λ v s.
              reset_one-Leaves m v ((((m.bridge b).sock, cntrl Control.port_disconnect j)) ∷ m.sent)
                a k b j own s i h)))

peer_none :
    (o : Option ℕ) (q : ℕ)
    → ◌≡◌ {A = Option Place} (elim o [ none ↦ none | some b ↦ some (b, q) ]) none
    → o ≡ none
peer_none none q e = refl
peer_none (some b) q e = absurd (none-some (sym e))

-- The port at a place that is not linked.
pub view-none :
    (m : Mngr) (a k : ℕ) (p : PeerPort)
    → in_array m a k ≡ true
    → view m (a, k) ≡ none
    → p ≡ (m.bridge a).ports k
    → p.bridge_partner ≡ none
view-none m a k p h e d =
    ap (λ x. x.bridge_partner) d
    ∙ peer_none ((m.bridge a).ports k).bridge_partner ((m.bridge a).ports k).port_partner
        (ap (λ i. if i then peer_of ((m.bridge a).ports k) else none) (sym h) ∙ e)

no_partner : {o : Option ℕ} {b : ℕ} → o ≡ none → o ≡ some b → ⊥
no_partner e h = cc

-- `disconnect_port` on a port that is not linked.
pub disconnect_port-none :
    (m : Mngr) (a k : ℕ) (own : Bool)
    → in_array m a k ≡ true
    → view m (a, k) ≡ none
    → Returns (disconnect_port a k own m) (Leaves m (view m))
unfolding disconnect_port
disconnect_port-none m a k own h e =
    Returns-bind (read_port m a k) _ _ (Leaves m (view m)) (read-Returns m a k h) (λ p d.
      Returns-option p.bridge_partner _ _ (Leaves m (view m)) (λ _. (Kept-refl m, λ x. refl))
        (λ b s. absurd (no_partner (view-none m a k p h e d) s)))

write-Leaves :
    (m : Mngr) (a k : ℕ) (p : PeerPort)
    → in_array m a k ≡ true
    → Returns (write_port a k p m) (Leaves m (λ x. if at (a, k) x then peer_of p else view m x))
write-Leaves m a k p h = rw h (put-Kept m a k p, λ x. put-view m a k p x h)

send-Leaves :
    (m : Mngr) (b : ℕ) (packet : Packet)
    → elem b m.br_lst ≡ true
    → Returns (send b packet m) (Leaves m (view m))
send-Leaves m b packet h = rw h (
  record { list = refl; fresh = refl; count = λ a. refl; pid = λ a. refl; sock = λ a. refl },
  λ x. refl,
)

pub Leaves-then :
    (m u v : Mngr) (f : Place → Option Place) (y : Place) (o : Option Place)
    → Leaves m f u
    → Leaves u (λ x. if at y x then o else view u x) v
    → Leaves m (λ x. if at y x then o else f x) v
Leaves-then m u v f y o (k, e) (l, d) =
    (Kept-trans m u v k l, λ x. d x ∙ ap (λ q. if at y x then o else q) (e x))

Leaves-same :
    (m u v : Mngr) (f : Place → Option Place) → Leaves m f u → Leaves u (view u) v → Leaves m f v
Leaves-same m u v f (k, e) (l, d) = (Kept-trans m u v k l, λ x. d x ∙ e x)

-- `_link_two_ports` on two ports of allocated bridges.
pub link_two_ports-Leaves :
    (m : Mngr) (a k c b j d : ℕ)
    → in_array m a k ≡ true
    → in_array m b j ≡ true
    → Returns (link_two_ports a k c b j d m) (
        Leaves m
          (λ x. if at (b, j) x then some (a, c) else if at (a, k) x then some (b, d) else view m x))
unfolding link_two_ports
link_two_ports-Leaves m a k c b j d h i =
    Returns-bind (write_port a k _ m) _ (Leaves m one) (Leaves m two) (write-Leaves m a k _ h)
      (λ u l.
        Returns-bind (write_port b j _ u) _ (Leaves m two) (Leaves m two)
          (Returns-map (write_port b j _ u) _ _
            (write-Leaves u b j (record { bridge_partner = some a; port_partner = c })
              (Kept-in_array m u l.0 b j ∙ i))
            (λ v. Leaves-then m u v one (b, j) (some (a, c)) l))
          (λ v q.
            Returns-bind (send a _ v) _ (Leaves m two) (Leaves m two)
              (Returns-map (send a _ v) _ _ (send-Leaves v a _ (member q a k h))
                (λ x. Leaves-same m v x two q))
              (λ x r.
                Returns-map (send b _ x) _ _ (send-Leaves x b _ (member r b j i))
                  (λ y. Leaves-same m x y two r))))
  where
    one : Place → Option Place
    one x = if at (a, k) x then some (b, d) else view m x

    two : Place → Option Place
    two x = if at (b, j) x then some (a, c) else if at (a, k) x then some (b, d) else view m x

    member :
        {v : Mngr} {f : Place → Option Place}
        → Leaves m f v
        → (x z : ℕ) → in_array m x z ≡ true
        → elem x v.br_lst ≡ true
    member q x z e = ap (elem x) q.0.list ∙ in_list m x z e
