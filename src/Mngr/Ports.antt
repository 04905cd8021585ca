-- ===== src/Mngr/Ports.antt =====
-- mngr.c: what reads and writes of the array of ports of a bridge do to the links.
use lacp.Base.{
  ℕ, ◌≡◌, refl, sym, ap, ◌∙◌, subst, Bool, true, false, Bool-cases, inl, inr, if◌then◌else◌, Option,
  none, some, ◌∷◌, elem, arith,
}
use lacp.Mngr.{
  Mngr, PeerPort, Packet, in_array, read_port, put_port, send, clear_partner, reset_port,
}
use lacp.Mngr.Matching.{Place, at, at_eq, clash, none-some, some_eq}
use lacp.Live.{Returns}

-- Where a port is linked to.
abbrev pub peer_of : PeerPort → Option Place
peer_of p = elim p.bridge_partner [ none ↦ none | some b ↦ some (b, p.port_partner) ]

-- The links of the allocated ports.
abbrev pub view : Mngr → Place → Option Place
view m x = if in_array m x.0 x.1 then peer_of ((m.bridge x.0).ports x.1) else none

-- What no call on links changes: the list of bridges and what is known of each.
pub record Kept (m v : Mngr) : Type 0 where
  pub list : v.br_lst ≡ m.br_lst
  pub fresh : v.fresh ≡ m.fresh
  pub count : (a : ℕ) → (v.bridge a).number_of_ports ≡ (m.bridge a).number_of_ports
  pub pid : (a : ℕ) → (v.bridge a).pid ≡ (m.bridge a).pid
  pub sock : (a : ℕ) → (v.bridge a).sock ≡ (m.bridge a).sock

pub Kept-trans : (m v w : Mngr) → Kept m v → Kept v w → Kept m w
Kept-trans m v w p q = record {
  list = q.list ∙ p.list;
  fresh = q.fresh ∙ p.fresh;
  count = λ a. q.count a ∙ p.count a;
  pid = λ a. q.pid a ∙ p.pid a;
  sock = λ a. q.sock a ∙ p.sock a;
}

pub Kept-refl : (m : Mngr) → Kept m m
Kept-refl m = record {
  list = refl;
  fresh = refl;
  count = λ a. refl;
  pid = λ a. refl;
  sock = λ a. refl;
}

pub Kept-in_array : (m v : Mngr) → Kept m v → (a k : ℕ) → in_array v a k ≡ in_array m a k
Kept-in_array m v q a k = rw (q.list, q.count a) refl

pub put-Kept : (m : Mngr) (a k : ℕ) (p : PeerPort) → Kept m (put_port m a k p)
put-Kept m a k p = record {
  list = refl;
  fresh = refl;
  count = λ b. ground arith;
  pid = λ b. ground arith;
  sock = λ b. ground arith;
}

put-ports :
    (m : Mngr) (a k b j : ℕ) (p : PeerPort)
    → ((put_port m a k p).bridge b).ports j ≡ (if at (a, k) (b, j) then p else (m.bridge b).ports j)
put-ports m a k b j p = ground arith

spread :
    (c i : Bool) (p q : PeerPort)
    → (c ≡ true → i ≡ true)
    → (if i then peer_of (if c then p else q) else none)
      ≡ (if c then peer_of p else if i then peer_of q else none)
spread true true p q h = refl
spread true false p q h = absurd (clash (h refl) refl)
spread false i p q h = refl

in_array-at :
    (m : Mngr) (a k : ℕ) (x : Place)
    → in_array m a k ≡ true
    → at (a, k) x ≡ true
    → in_array m x.0 x.1 ≡ true
in_array-at m a k x h e = subst (λ y. in_array m y.0 y.1 ≡ true) (at_eq (a, k) x e) h

-- A write, as a change of the links.
pub put-view :
    (m : Mngr) (a k : ℕ) (p : PeerPort) (x : Place)
    → in_array m a k ≡ true
    → view (put_port m a k p) x ≡ (if at (a, k) x then peer_of p else view m x)
put-view m a k p x h =
    ap (λ i. if i then peer_of (((put_port m a k p).bridge x.0).ports x.1) else none)
      (Kept-in_array m (put_port m a k p) (put-Kept m a k p) x.0 x.1)
    ∙ ap (λ q. if in_array m x.0 x.1 then peer_of q else none) (put-ports m a k x.0 x.1 p)
    ∙ spread (at (a, k) x) (in_array m x.0 x.1) p ((m.bridge x.0).ports x.1) (in_array-at m a k x h)

-- A call that keeps the bridges and leaves these links.
abbrev pub Leaves : Mngr → (Place → Option Place) → Mngr → Type 0
Leaves m f v = Kept m v × ((x : Place) → view v x ≡ f x)

abbrev pub mask : Place → (Place → Option Place) → Place → Option Place
mask x f z = if at x z then none else f z

-- `port->bridge_partner = NULL`.
pub reset_port-Leaves :
    (m : Mngr) (a k : ℕ)
    → in_array m a k ≡ true
    → Returns (reset_port a k m) (Leaves m (mask (a, k) (view m)))
reset_port-Leaves m a k h = rw h (
  put-Kept m a k (clear_partner ((m.bridge a).ports k)),
  λ x. put-view m a k (clear_partner ((m.bridge a).ports k)) x h,
)

peer_parts :
    (o : Option ℕ) (q : ℕ) (y : Place)
    → elim o [ none ↦ none | some b ↦ some (b, q) ] ≡ some y
    → (o ≡ some y.0) × (q ≡ y.1)
peer_parts none q y e = cc
peer_parts (some b) q y e =
    let d : ◌≡◌ {A = Place} (b, q) y = some_eq e in (ap (λ z. some z.0) d, ap (λ z. z.1) d)

port_eq :
    (p : PeerPort) (o : Option ℕ) (q : ℕ)
    → p.bridge_partner ≡ o
    → p.port_partner ≡ q
    → p ≡ record { bridge_partner = o; port_partner = q }
port_eq p o q e h = rw (sym e, sym h) refl

-- A place that is linked is a port of an allocated bridge.
pub view-some :
    (m : Mngr) (a k : ℕ) (y : Place)
    → view m (a, k) ≡ some y
    → (in_array m a k ≡ true)
      × ((m.bridge a).ports k ≡ record { bridge_partner = some y.0; port_partner = y.1 })
view-some m a k y e = elim (Bool-cases (in_array m a k)) [
  | inl h ↦
      let p = (m.bridge a).ports k in
      let c =
        peer_parts p.bridge_partner p.port_partner y
          (ap (λ i. if i then peer_of p else none) (sym h) ∙ e) in
      (h, port_eq p (some y.0) y.1 c.0 c.1)
  | inr h ↦
      absurd (none-some (ap (λ i. if i then peer_of ((m.bridge a).ports k) else none) (sym h) ∙ e))
]

pub read-Returns :
    (m : Mngr) (a k : ℕ)
    → in_array m a k ≡ true
    → Returns (read_port m a k) (λ p. p ≡ (m.bridge a).ports k)
read-Returns m a k h = rw h refl

pub send-Returns :
    (m : Mngr) (b : ℕ) (packet : Packet)
    → elem b m.br_lst ≡ true
    → Returns (send b packet m) (λ v. v ≡ record m { sent = ((m.bridge b).sock, packet) ∷ m.sent })
send-Returns m b packet h = rw h refl

pub in_list : (m : Mngr) (a k : ℕ) → in_array m a k ≡ true → elem a m.br_lst ≡ true
in_list m a k h = ground (arith, h)
