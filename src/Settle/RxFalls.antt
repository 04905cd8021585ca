-- ===== src/Settle/RxFalls.antt =====
-- lacp_rx.c: rounds and hops of the receive machine are moves.
use lacp.Base.{
  ℕ, ◌<◌, ◌≡◌, refl, sym, ap, ◌∙◌, subst, Bool, true, false, inl, inr, Option, none, some, arith,
  update_self,
}
use lacp.Types.{LacpSys, Port, RxState, World}
use lacp.Port.{unselect}
use lacp.Rx.{check_conditions}
use lacp.Statmch.{rx, sel, mux, tx, hop_2_state, clear_change_state, check_condition, round}
use lacp.Settle.{rx_value, rx_potential}
use lacp.Settle.Groups.{check-groups, round-groups}
use lacp.Settle.Move.{OwnMove, OtherMove, Move, OtherMove-refl}
use lacp.Settle.RxRound.{enter_port, enter_frame, rx_checked, rx_hopped, rx_drop, rx_hop_drop}
use lacp.Settle.RxMove.{
  rx_settled, rx_after, base, Unselects, base-Unselects, rx_round_cell, rx_round_sys,
  check_condition-cell, check_condition-sys,
}

-- What the receive machine may change in its own port besides its own state.
record RxOwn (p q : Port) : Type 0 where
  lacp_own : q.lacp_enabled ≡ p.lacp_enabled
  agg_own : q.agg_id ≡ p.agg_id
  sel_own : q.sel ≡ p.sel
  mux_own : q.mux ≡ p.mux
  tx_own : q.tx ≡ p.tx

-- A value depends on the state, and on nothing that a hop or an unselection writes.
rx_value_hop :
    (s t : RxState) (c : Bool) (p : Port)
    → rx_value s c (record p { rx = hop_2_state p.rx t }) ≡ rx_value s c p
rx_value_hop RxState.begin t true p = refl
rx_value_hop RxState.begin t false p = refl
rx_value_hop RxState.initialize t true p = refl
rx_value_hop RxState.initialize t false p = refl
rx_value_hop RxState.port_disabled t true p = refl
rx_value_hop RxState.port_disabled t false p = refl
rx_value_hop RxState.lacp_disabled t true p = refl
rx_value_hop RxState.lacp_disabled t false p = refl
rx_value_hop RxState.expired t true p = refl
rx_value_hop RxState.expired t false p = refl
rx_value_hop RxState.defaulted t true p = refl
rx_value_hop RxState.defaulted t false p = refl
rx_value_hop RxState.current t true p = refl
rx_value_hop RxState.current t false p = refl

rx_value-unselect : (s : RxState) (c : Bool) (p : Port) → rx_value s c (unselect p) ≡ rx_value s c p
rx_value-unselect RxState.begin true p = refl
rx_value-unselect RxState.begin false p = refl
rx_value-unselect RxState.initialize true p = refl
rx_value-unselect RxState.initialize false p = refl
rx_value-unselect RxState.port_disabled true p = refl
rx_value-unselect RxState.port_disabled false p = refl
rx_value-unselect RxState.lacp_disabled true p = refl
rx_value-unselect RxState.lacp_disabled false p = refl
rx_value-unselect RxState.expired true p = refl
rx_value-unselect RxState.expired false p = refl
rx_value-unselect RxState.defaulted true p = refl
rx_value-unselect RxState.defaulted false p = refl
rx_value-unselect RxState.current true p = refl
rx_value-unselect RxState.current false p = refl

after_potential :
    (o : Option RxState) (p : Port)
    → p.rx.change_state ≡ false
    → rx_potential (rx_after o p) ≡ rx_hopped o p
unfolding hop_2_state
after_potential none p h = ap (λ c. rx_value p.rx.state c p) h
after_potential (some s) p h = rx_value_hop s s true p

settled_potential :
    (p : Port) → p.rx.change_state ≡ false → rx_potential (rx_settled p) ≡ rx_checked p
settled_potential p h = after_potential (check_conditions p) p h

settled_own : (p : Port) → RxOwn p (rx_settled p)
settled_own p = ground arith

Unselects-value :
    (s : RxState) (c : Bool) (p q : Port) → Unselects p q → rx_value s c q ≡ rx_value s c p
Unselects-value s c p q (inl e) = rw e
Unselects-value s c p q (inr e) = rw e (rx_value-unselect s c p)

Unselects-own : (p q : Port) → Unselects p q → RxOwn p q
Unselects-own p q u = ground arith

enter_own : (s : RxState) (sys : LacpSys) (p : Port) → RxOwn p (enter_port s sys p)
enter_own s sys p =
    let f = enter_frame s sys p in
    record {
      lacp_own = f.lacp_same;
      agg_own = f.agg_same;
      sel_own = f.sel_same;
      mux_own = f.mux_same;
      tx_own = f.tx_same;
    }

RxOwn-trans : (p q r : Port) → RxOwn p q → RxOwn q r → RxOwn p r
RxOwn-trans p q r h k = record {
  lacp_own = k.lacp_own ∙ h.lacp_own;
  agg_own = k.agg_own ∙ h.agg_own;
  sel_own = k.sel_own ∙ h.sel_own;
  mux_own = k.mux_own ∙ h.mux_own;
  tx_own = k.tx_own ∙ h.tx_own;
}

clear_own : (p : Port) → RxOwn p (clear_change_state rx p)
clear_own p = record {
  lacp_own = refl;
  agg_own = refl;
  sel_own = refl;
  mux_own = refl;
  tx_own = refl;
}

own_move :
    (sys : LacpSys) (p q : Port) → RxOwn p q → rx_potential q < rx_potential p → OwnMove rx sys p q
own_move sys p q o h = record {
  lacp_same = o.lacp_own;
  agg_same = o.agg_own;
  falls = h;
  keeps = elim [ rx ↦ λ u. omega arith | sel ↦ λ u. cc | mux ↦ λ u. cc | tx ↦ λ u. cc ];
  flags = elim [
    | rx ↦ λ u. cc
    | sel ↦ λ u. ap (λ m. m.change_state) o.sel_own
    | mux ↦ λ u. ap (λ m. m.change_state) o.mux_own
    | tx ↦ λ u. ap (λ m. m.change_state) o.tx_own
  ];
}

other_move : (sys : LacpSys) (p q : Port) → Unselects p q → OtherMove rx sys p q
other_move sys p q (inl e) = subst (OtherMove rx sys p) (sym e) (OtherMove-refl rx sys p)
other_move sys p q (inr e) = subst (OtherMove rx sys p) (sym e) (record {
  lacp_same = refl;
  agg_same = refl;
  keeps = elim [
    | rx ↦ λ u. omega (arith, rx_value-unselect p.rx.state p.rx.change_state p)
    | sel ↦ λ u. cc
    | mux ↦ λ u. cc
    | tx ↦ λ u. cc
  ];
  flags = elim [ rx ↦ refl | sel ↦ refl | mux ↦ refl | tx ↦ refl ];
})

same_rx : (p q : Port) → Unselects p q → q.rx.state ≡ p.rx.state
same_rx p q u = ground arith

-- The port after a round, from the port before it.
round_falls :
    (sys : LacpSys) (p b : Port)
    → 0 < sys.short_timeout_time
    → 0 < sys.long_timeout_time
    → Unselects p b
    → p.rx.change_state ≡ true
    → OwnMove rx sys p (rx_settled (clear_change_state rx (enter_port p.rx.state sys b)))
round_falls sys p b h k u c =
    let q = clear_change_state rx (enter_port p.rx.state sys b) in
    own_move sys p (rx_settled q)
      (RxOwn-trans p b (rx_settled q) (Unselects-own p b u) (
        RxOwn-trans b (enter_port p.rx.state sys b) (rx_settled q) (enter_own p.rx.state sys b) (
          RxOwn-trans (enter_port p.rx.state sys b) q (rx_settled q)
            (clear_own (enter_port p.rx.state sys b)) (settled_own q))))
      (omega (
        arith,
        ap (λ d. rx_value p.rx.state d p) c,
        settled_potential q refl,
        rx_drop p.rx.state sys b h k (same_rx p b u),
        Unselects-value p.rx.state true p b u,
      ))

-- While the receive machine is changing, a round of it is a move.
pub rx_round-Move :
    (w : World) (i : ℕ)
    → 0 < w.sys.short_timeout_time
    → 0 < w.sys.long_timeout_time
    → (w.cell i).rx.change_state ≡ true
    → Move rx i w (round rx w i)
rx_round-Move w i h k c =
    let b = base (w.cell i).rx.state w i in
    let u = base-Unselects (w.cell i).rx.state w i in
    record {
      sys_same = rx_round_sys w i;
      groups_same = round-groups rx w i;
      own =
          subst (OwnMove rx w.sys (w.cell i)) (sym (rx_round_cell w i i ∙ update_self b.cell i _))
            (round_falls w.sys (w.cell i) (b.cell i) h k (u i) c);
      others = λ j e.
          subst (OtherMove rx w.sys (w.cell j)) (sym (rx_round_cell w i j ∙ rw e))
            (other_move w.sys (w.cell j) (b.cell j) (u j));
    }

hop_needs :
    (w : World) (i : ℕ)
    → (check_condition rx w i).1 ≡ true
    → (s : RxState) × (check_conditions (w.cell i) ≡ some s)
unfolding check_condition
hop_needs w i h = ground arith

checked_falls :
    (p : Port)
    → p.rx.change_state ≡ false
    → (s : RxState) × (check_conditions p ≡ some s)
    → rx_checked p < rx_potential p
checked_falls p c (s, e) = rw (e, rx_checked) (rx_hop_drop p s c e)

-- While it is at rest, a hop of it is a move.
pub rx_hop-Move :
    (w : World) (i : ℕ)
    → (w.cell i).rx.change_state ≡ false
    → (check_condition rx w i).1 ≡ true
    → Move rx i w (check_condition rx w i).0
rx_hop-Move w i c h =
    let p = w.cell i in
    let own = sym (check_condition-cell w i i ∙ update_self w.cell i _) in
    record {
      sys_same = check_condition-sys w i;
      groups_same = check-groups rx w i;
      own = subst (OwnMove rx w.sys p) own (
          own_move w.sys p (rx_settled p) (settled_own p)
            (omega (arith, settled_potential p c, checked_falls p c (hop_needs w i h))));
      others = λ j e.
          subst (OtherMove rx w.sys (w.cell j)) (sym (check_condition-cell w i j ∙ rw e))
            (OtherMove-refl rx w.sys (w.cell j));
    }
