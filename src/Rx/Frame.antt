-- ===== src/Rx/Frame.antt =====
-- lacp_rx.c: what a frame changes when it is received, in the terms of the code.
use lacp.Base.{
  ℕ, ◌≡◌, ◌≢◌, refl, sym, ◌∙◌, ap, subst, ◌⊎◌, inl, inr, true, false, Bool-cases, List, [], ◌∷◌,
  arith, update_self,
}
use lacp.Types.{Port, World, LacpPdu, PortInfo, modify_port}
use lacp.Port.{copy_info_from_net}
use lacp.Rx.{mark_moved, rxm_rx_lacpdu, same_port, is_port_disabled, store_lacpdu, count_lacpdu}

-- A port `q` that the frame for `port` does not address is as it was, or it is a port whose link
-- is down and whose partner is the sender of the frame, and it is marked as moved.
abbrev pub Moved : PortInfo → Port → Port → Type 0
Moved msg p q =
    (q ≡ p)
    ⊎ ((is_port_disabled p.rx.state ≡ true)
        × (same_port p.partner msg ≡ true)
        × (q ≡ record p { port_moved = true }))

pub mark_moved_self :
    (port : ℕ) (ps : List ℕ) (w : World) → (mark_moved port ps w).cell port ≡ w.cell port
unfolding mark_moved
mark_moved_self port [] w = refl
mark_moved_self port (p ∷ ps) w = ground (arith, mark_moved_self port ps w)

pub mark_moved-other :
    (port : ℕ) (ps : List ℕ) (w : World) (q : ℕ)
    → Moved (w.cell port).msg_actor (w.cell q) ((mark_moved port ps w).cell q)
unfolding mark_moved
mark_moved-other port [] w q = inl refl
mark_moved-other port (p ∷ ps) w q = ground (arith, mark_moved-other port ps w q)

pub mark_moved-sys : (port : ℕ) (ps : List ℕ) (w : World) → (mark_moved port ps w).sys ≡ w.sys
unfolding mark_moved
mark_moved-sys port [] w = refl
mark_moved-sys port (p ∷ ps) w = ground (arith, mark_moved-sys port ps w)

unfoldable pub stored : World → ℕ → LacpPdu → World
stored w port pdu = modify_port (modify_port w port count_lacpdu) port (store_lacpdu w.host pdu)

pub modify_twice :
    (w : World) (i : ℕ) (f g : Port → Port)
    → (modify_port (modify_port w i f) i g).cell i ≡ g (f (w.cell i))
modify_twice w i f g = ground (arith, update_self (modify_port w i f).cell i (g (f (w.cell i))))

pub modify_twice-ne :
    (w : World) (i j : ℕ) (f g : Port → Port)
    → j ≢ i
    → (modify_port (modify_port w i f) i g).cell j ≡ w.cell j
modify_twice-ne w i j f g ne = ground (arith, ne)

pub rxm_on :
    (w : World) (port : ℕ) (pdu : LacpPdu)
    → (w.cell port).lacp_enabled ≡ true
    → rxm_rx_lacpdu w port pdu ≡ mark_moved port w.sys.ports (stored w port pdu)
unfolding rxm_rx_lacpdu stored
rxm_on w port pdu h = rw h refl

pub rxm_off :
    (w : World) (port : ℕ) (pdu : LacpPdu)
    → (w.cell port).lacp_enabled ≡ false
    → rxm_rx_lacpdu w port pdu ≡ modify_port w port count_lacpdu
unfolding rxm_rx_lacpdu
rxm_off w port pdu h = rw h refl

pub rxm_self :
    (w : World) (port : ℕ) (pdu : LacpPdu)
    → (w.cell port).lacp_enabled ≡ true
    → (rxm_rx_lacpdu w port pdu).cell port ≡ store_lacpdu w.host pdu (count_lacpdu (w.cell port))
unfolding stored
rxm_self w port pdu h =
    ap (λ v. v.cell port) (rxm_on w port pdu h)
    ∙ mark_moved_self port w.sys.ports (stored w port pdu)
    ∙ modify_twice w port count_lacpdu (store_lacpdu w.host pdu)

rxm-other-on :
    (w : World) (port : ℕ) (pdu : LacpPdu) (q : ℕ)
    → q ≢ port
    → Moved
        (copy_info_from_net w.host pdu.actor)
        (w.cell q)
        ((mark_moved port w.sys.ports (stored w port pdu)).cell q)
unfolding stored
rxm-other-on w port pdu q ne =
    subst (λ m. Moved m (w.cell q) ((mark_moved port w.sys.ports (stored w port pdu)).cell q))
      (ap (λ p. p.msg_actor) (modify_twice w port count_lacpdu (store_lacpdu w.host pdu)))
      (subst
        (λ p.
          Moved ((stored w port pdu).cell port).msg_actor p
            ((mark_moved port w.sys.ports (stored w port pdu)).cell q))
        (modify_twice-ne w port q count_lacpdu (store_lacpdu w.host pdu) ne)
        (mark_moved-other port w.sys.ports (stored w port pdu) q))

pub rxm_sys : (w : World) (port : ℕ) (pdu : LacpPdu) → (rxm_rx_lacpdu w port pdu).sys ≡ w.sys
unfolding stored
rxm_sys w port pdu = elim (Bool-cases (w.cell port).lacp_enabled) [
  | inl h ↦
      ap (λ v. v.sys) (rxm_on w port pdu h) ∙ mark_moved-sys port w.sys.ports (stored w port pdu)
  | inr h ↦ ap (λ v. v.sys) (rxm_off w port pdu h)
]

-- What a received frame does to a port, in the terms of the code; `rxm_rx_lacpdu-frame` spells it.
pub rxm_frame :
    (w : World) (port : ℕ) (pdu : LacpPdu)
    → ((w.cell port).lacp_enabled ≡ true
        → (rxm_rx_lacpdu w port pdu).cell port
          ≡ store_lacpdu w.host pdu (count_lacpdu (w.cell port)))
      × ((w.cell port).lacp_enabled ≡ false
          → (rxm_rx_lacpdu w port pdu).cell port ≡ count_lacpdu (w.cell port))
      × ((q : ℕ)
          → q ≢ port
          → Moved
              (copy_info_from_net w.host pdu.actor)
              (w.cell q)
              ((rxm_rx_lacpdu w port pdu).cell q))
rxm_frame w port pdu = (
  rxm_self w port pdu,
  λ h.
      ap (λ v. v.cell port) (rxm_off w port pdu h)
      ∙ update_self w.cell port (count_lacpdu (w.cell port)),
  λ q ne. elim (Bool-cases (w.cell port).lacp_enabled) [
    | inl h ↦
        subst (λ v. Moved (copy_info_from_net w.host pdu.actor) (w.cell q) (v.cell q))
          (sym (rxm_on w port pdu h)) (rxm-other-on w port pdu q ne)
    | inr h ↦ inl (ap (λ v. v.cell q) (rxm_off w port pdu h) ∙ ground (arith, ne))
  ],
)
