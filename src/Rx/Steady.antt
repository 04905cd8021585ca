-- ===== src/Rx/Steady.antt =====
-- lacp_rx.c: a frame that brings nothing new.
use lacp.Base.{ℕ, ◌≡◌, refl, ap, ◌∙◌, Bool, true, false, not, ◌||◌, if◌then◌else◌, arith, update}
use lacp.State.{Mask, act, agg, LacpState, syn, tmt, def, exp, set_bit, get_bit, cmp_bit}
use lacp.Types.{mac_eq_refl, Port, PortInfo, World, LacpSys, current, modify_port}
use lacp.Rx.{
  enter_current, enter_state, enter_at, same_partner, update_selected, update_ntt, record_pdu,
  update_partner_syn, start_current_while_timer, partner_matched,
}

same_partner_refl : (a : PortInfo) → same_partner a a ≡ true
unfolding same_partner
same_partner_refl a = rw (mac_eq_refl a.system_mac) (ground arith)

cmp_bit_refl : (s : LacpState) (m : Mask) → cmp_bit s s m ≡ false
cmp_bit_refl s m = ground arith

-- The frame comes from the partner that the port knows, which is active, and tells the port's own
-- actor exactly as it is.
pub record Repeats (p : Port) : Type 0 where
  pub known : same_partner p.msg_actor p.partner ≡ true
  pub exact : p.msg_partner ≡ p.actor
  pub active : p.msg_actor.state.lacp_activity ≡ true

known_update : (w : World) (i : ℕ) → Repeats (w.cell i) → update_selected w i ≡ w
unfolding update_selected
known_update w i h = let k = h.known in rw k refl

-- The test of `update_ntt`.
abbrev differs : PortInfo → PortInfo → Bool
differs a b =
    not (same_partner a b)
    || cmp_bit a.state b.state act
    || cmp_bit a.state b.state tmt
    || cmp_bit a.state b.state syn
    || cmp_bit a.state b.state agg

differs_refl : (a : PortInfo) → differs a a ≡ false
differs_refl a = rw (same_partner_refl a) (ground arith)

if_false : (c : Bool) (p q : Port) → c ≡ false → (if c then p else q) ≡ q
if_false c p q h = rw h refl

quiet_ntt : (p : Port) → p.msg_partner ≡ p.actor → update_ntt p ≡ p
unfolding update_ntt
quiet_ntt p h =
    if_false (differs p.msg_partner p.actor) (record p { ntt = true }) p
      (ap (λ a. differs a p.actor) h ∙ differs_refl p.actor)

set_bit_same : (s : LacpState) → set_bit s syn (get_bit s syn) ≡ s
set_bit_same s = refl

matched_of :
    (p : Port)
    → same_partner p.msg_partner p.actor ≡ true
    → p.msg_actor.state.lacp_activity ≡ true
    → partner_matched p ≡ true
unfolding partner_matched
matched_of p h a = ground arith

matched :
    (p : Port)
    → p.msg_partner ≡ p.actor
    → p.msg_actor.state.lacp_activity ≡ true
    → partner_matched (record_pdu p) ≡ true
unfolding record_pdu same_partner
matched p h a =
    matched_of (record_pdu p)
      (ap (λ b. same_partner b (record_pdu p).actor) h ∙ same_partner_refl p.actor) a

matched_syn :
    (p : Port)
    → partner_matched p ≡ true
    → update_partner_syn p ≡ record p {
      partner = record (p.partner) {
        state = set_bit p.partner.state syn (get_bit p.msg_actor.state syn);
      };
    }
unfolding update_partner_syn
matched_syn p h = rw h refl

-- What such a frame leaves of the port.
abbrev pub steady : LacpSys → Port → Port
steady sys p = record p {
  partner = p.msg_actor;
  actor = record (p.actor) { state = set_bit (set_bit p.actor.state def false) exp false };
  current_while =
      if p.actor.state.lacp_timeout then sys.short_timeout_time else sys.long_timeout_time;
  rcvd_lacpdu = false;
}

-- The end of `RXM_CURRENT`.
abbrev finish : LacpSys → Port → Port
finish sys q = record q {
  actor = record (q.actor) { state = set_bit q.actor.state exp false };
  current_while =
      if q.actor.state.lacp_timeout then sys.short_timeout_time else sys.long_timeout_time;
  rcvd_lacpdu = false;
}

enter_current-finish :
    (sys : LacpSys) (p : Port)
    → enter_current sys p ≡ finish sys (update_partner_syn (record_pdu (update_ntt p)))
unfolding enter_current start_current_while_timer
enter_current-finish sys p = refl

finish_matched :
    (sys : LacpSys) (p : Port)
    → finish sys (record (record_pdu p) {
      partner = record ((record_pdu p).partner) {
        state = set_bit (record_pdu p).partner.state syn (get_bit p.msg_actor.state syn);
      };
    })
      ≡ steady sys p
unfolding record_pdu
finish_matched sys p = refl

pub enter_current-steady :
    (sys : LacpSys) (p : Port) → Repeats p → enter_current sys p ≡ steady sys p
unfolding record_pdu
enter_current-steady sys p h =
    enter_current-finish sys p
    ∙ ap (λ u. finish sys (update_partner_syn (record_pdu u))) (quiet_ntt p h.exact)
    ∙ ap (finish sys) (matched_syn (record_pdu p) (matched p h.exact h.active))
    ∙ finish_matched sys p

-- If a frame comes from the active partner that the port knows, and tells the port's own actor as
-- it is, then entering CURRENT changes only this: the partner's information is that of the frame,
-- the port is neither defaulted nor expired, its timer is restarted with the port's own timeout,
-- and the frame counts as read. The port is not unselected, no frame is asked for, and no other
-- port changes.
pub enter_state-steady :
    (w : World) (i : ℕ)
    → (w.cell i).rx.state ≡ current
    → Repeats (w.cell i)
    → enter_state w i ≡ modify_port w i (steady w.sys)
unfolding enter_state enter_at
enter_state-steady w i e h =
    ap (λ s. enter_at s w i) e
    ∙ ap (λ u. modify_port u i (enter_current w.sys)) (known_update w i h)
    ∙ ap (λ p. record w { cell = update w.cell i p }) (enter_current-steady w.sys (w.cell i) h)
