-- ===== src/Rx/Moved.antt =====
-- lacp_rx.c: what a frame changes when it is received.
use lacp.Base.{
  ℕ, ◌+◌, ◌%◌, ◌^◌, ◌≡◌, ◌≢◌, refl, sym, ◌∙◌, ap, subst, fun_ext, inl, inr, Bool, true, false, not,
  ◌&&◌, ◌==◌, ==_iff, Bool-cases, if◌then◌else◌, Option, none, some, List, [], ◌∷◌, arith,
  update_self,
}
use lacp.Types.{
  Port, World, Host, LacpPdu, PortInfo, RxState, begin, initialize, port_disabled, expired, current,
  lacp_disabled, defaulted, modify_port, mac_eq,
}
use lacp.Rx.{mark_moved, rxm_rx_lacpdu, same_port, is_port_disabled, store_lacpdu, count_lacpdu}
use lacp.Rx.Frame.{stored, modify_twice, modify_twice-ne, rxm_on, rxm_off, rxm_self}

abbrev link_is_down : RxState → Bool
link_is_down port_disabled = true
link_is_down _ = false

-- A port, other than the one that received, whose link is down and whose partner had the sender's
-- port number and system address.
abbrev pub has_left : (ℕ → Port) → ℕ → PortInfo → ℕ → Bool
has_left cell port sender q =
    not (q == port)
    && (link_is_down (cell q).rx.state
        && ((cell q).partner.port_no == sender.port_no
            && mac_eq (cell q).partner.system_mac sender.system_mac))

-- The first of a list that passes a test, and whether it is `q`.
abbrev pub first_of : (ℕ → Bool) → List ℕ → Option ℕ
first_of test [] = none
first_of test (p ∷ ps) = let rest = first_of test ps in if test p then some p else rest

abbrev pub is_found : Option ℕ → ℕ → Bool
is_found none q = false
is_found (some p) q = p == q

-- The port with `port_moved` set, if it is the one found.
abbrev pub moved_if : Bool → Port → Port
moved_if c p = record p { port_moved = if c then true else p.port_moved }

disabled_state : (s : RxState) → is_port_disabled s ≡ link_is_down s
disabled_state begin = refl
disabled_state initialize = refl
disabled_state port_disabled = refl
disabled_state expired = refl
disabled_state lacp_disabled = refl
disabled_state defaulted = refl
disabled_state current = refl

left_test :
    (cell : ℕ → Port) (port : ℕ) (sender : PortInfo) (p : ℕ)
    → has_left cell port sender p ≡ (
        not (p == port)
        && (is_port_disabled (cell p).rx.state && same_port (cell p).partner sender))
unfolding same_port
left_test cell port sender p =
    ap
      (λ d.
        not (p == port)
        && (d
            && ((cell p).partner.port_no == sender.port_no
                && mac_eq (cell p).partner.system_mac sender.system_mac)))
      (sym (disabled_state (cell p).rx.state))

set_moved :
    (w : World) (p q : ℕ)
    → (modify_port w p (λ r. record r { port_moved = true })).cell q ≡ moved_if (p == q) (w.cell q)
set_moved w p q = elim (Bool-cases (p == q)) [
  | inl e ↦
      subst
        (λ x.
          (modify_port w p (λ r. record r { port_moved = true })).cell x
          ≡ moved_if (p == x) (w.cell x))
        ((==_iff p q).0 e)
        (update_self w.cell p (record (w.cell p) { port_moved = true })
          ∙ ap (λ c. moved_if c (w.cell p)) (sym ((==_iff p p).1 refl)))
  | inr e ↦ rw e refl
]

-- One round of the loop, whatever its tests yield.
marked_step :
    (own left : Bool) (rest here : World) (o : Option ℕ) (p q : ℕ) (old : Port)
    → rest.cell q ≡ moved_if (is_found o q) old
    → here.cell q ≡ moved_if (p == q) old
    → (if own then rest else if left then here else rest).cell q
      ≡ moved_if (is_found (if not own && left then some p else o) q) old
marked_step true left rest here o p q old h k = h
marked_step false true rest here o p q old h k = k
marked_step false false rest here o p q old h k = h

marked :
    (port : ℕ) (ps : List ℕ) (w : World) (q : ℕ)
    → (mark_moved port ps w).cell q
      ≡ moved_if
          (is_found (first_of (has_left w.cell port (w.cell port).msg_actor) ps) q)
          (w.cell q)
unfolding mark_moved
marked port [] w q = refl
marked port (p ∷ ps) w q =
    let sender = (w.cell port).msg_actor in
    let o = first_of (has_left w.cell port sender) ps in
    marked_step (p == port)
      (is_port_disabled (w.cell p).rx.state && same_port (w.cell p).partner sender)
      (mark_moved port ps w) (modify_port w p (λ r. record r { port_moved = true })) o p q
      (w.cell q) (marked port ps w q) (set_moved w p q)
    ∙ ap (λ c. moved_if (is_found (if c then some p else o) q) (w.cell q))
        (sym (left_test w.cell port sender p))

-- The port that received does not count, so that what was stored in it does not matter.
same_left :
    (cell cell' : ℕ → Port) (port : ℕ) (sender : PortInfo)
    → ((q : ℕ) → q ≢ port → cell' q ≡ cell q)
    → (q : ℕ) → has_left cell' port sender q ≡ has_left cell port sender q
same_left cell cell' port sender h q = elim (Bool-cases (q == port)) [
  | inl e ↦ rw e refl
  | inr e ↦
      ap
        (λ p.
          not (q == port)
          && (link_is_down p.rx.state
              && (p.partner.port_no == sender.port_no
                  && mac_eq p.partner.system_mac sender.system_mac)))
        (h q (ground (arith, e)))
]

-- The information of the frame in the byte order of the host.
abbrev pub in_host_order : Host → PortInfo → PortInfo
in_host_order h from = record {
  port_priority = h.ntohs from.port_priority;
  port_no = h.ntohs from.port_no;
  system_priority = h.ntohs from.system_priority;
  key = h.ntohs from.key;
  state = from.state;
  system_mac = from.system_mac;
}

other_marked :
    (w : World) (port : ℕ) (pdu : LacpPdu) (q : ℕ)
    → (w.cell port).lacp_enabled ≡ true
    → q ≢ port
    → (rxm_rx_lacpdu w port pdu).cell q
      ≡ moved_if
          (is_found
            (first_of (has_left w.cell port (in_host_order w.host pdu.actor)) w.sys.ports)
            q)
          (w.cell q)
unfolding stored
other_marked w port pdu q h ne =
    let v = stored w port pdu in
    let kept : (j : ℕ) → j ≢ port → v.cell j ≡ w.cell j =
      λ j d. modify_twice-ne w port j count_lacpdu (store_lacpdu w.host pdu) d in
    ap (λ x. x.cell q) (rxm_on w port pdu h)
    ∙ marked port w.sys.ports v q
    ∙ ap (λ m. moved_if (is_found (first_of (has_left v.cell port m) w.sys.ports) q) (v.cell q))
        (ap (λ p. p.msg_actor) (modify_twice w port count_lacpdu (store_lacpdu w.host pdu)))
    ∙ ap (λ t. moved_if (is_found (first_of t w.sys.ports) q) (v.cell q))
        (fun_ext (same_left w.cell v.cell port (in_host_order w.host pdu.actor) kept))
    ∙ ap
        (moved_if (
          is_found (first_of (has_left w.cell port (in_host_order w.host pdu.actor)) w.sys.ports)
            q))
        (kept q ne)

then_is : (c : Bool) (x y z : Port) → c ≡ true → z ≡ x → z ≡ (if c then x else y)
then_is true x y z e h = h
then_is false x y z e h = cc

else_is : (c : Bool) (x y z : Port) → c ≡ false → z ≡ y → z ≡ (if c then x else y)
else_is true x y z e h = cc
else_is false x y z e h = h

modify_ne : (w : World) (i j : ℕ) (f : Port → Port) → j ≢ i → (modify_port w i f).cell j ≡ w.cell j
modify_ne w i j f ne = ground (arith, ne)

-- A received frame adds 1 to the count of its port, in 32 bits. With LACP on there, the port also
-- has a frame to read, and as message the actor and the partner of the frame in host order, and
-- nothing else of it changes; and of the other ports, the first of the list whose receive machine
-- is in PORT_DISABLED and whose partner had the sender's port number and system address has
-- `port_moved` set, and nothing else of them changes. With LACP off there is nothing but the count.
pub rxm_rx_lacpdu-frame :
    (w : World) (port : ℕ) (pdu : LacpPdu)
    → (rxm_rx_lacpdu w port pdu).cell port ≡ (
        let counted = record (w.cell port) {
          rx_lacpdu_cnt = ((w.cell port).rx_lacpdu_cnt + 1) % 2 ^ 32;
        } in
        if (w.cell port).lacp_enabled
        then record counted {
          rcvd_lacpdu = true;
          msg_actor = in_host_order w.host pdu.actor;
          msg_partner = in_host_order w.host pdu.partner;
        }
        else counted)
      × ((q : ℕ)
          → q ≢ port
          → (rxm_rx_lacpdu w port pdu).cell q ≡ (
              if (w.cell port).lacp_enabled
              then moved_if
                  (is_found
                    (first_of (has_left w.cell port (in_host_order w.host pdu.actor)) w.sys.ports)
                    q)
                  (w.cell q)
              else w.cell q))
rxm_rx_lacpdu-frame w port pdu = elim (Bool-cases (w.cell port).lacp_enabled) [
  | inl h ↦ (
    then_is _ _ _ _ h (rxm_self w port pdu h),
    λ q ne. then_is _ _ _ _ h (other_marked w port pdu q h ne),
  )
  | inr h ↦ (
    else_is _ _ _ _ h (
        ap (λ v. v.cell port) (rxm_off w port pdu h)
        ∙ update_self w.cell port (count_lacpdu (w.cell port))),
    λ q ne.
        else_is _ _ _ _ h
          (ap (λ v. v.cell q) (rxm_off w port pdu h) ∙ modify_ne w port q count_lacpdu ne),
  )
]
