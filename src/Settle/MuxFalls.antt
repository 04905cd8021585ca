-- ===== src/Settle/MuxFalls.antt =====
-- lacp_mux.c: rounds and hops of the mux machine are moves, which touch its own port alone.
use lacp.Base.{
  ℕ, ◌<◌, ◌≡◌, refl, sym, ap, ◌∙◌, subst, Bool, true, false, Option, none, some, arith, update,
  update_self, update_thrice,
}
use lacp.Types.{LacpSys, Port, MuxState, World, modify_port}
use lacp.Mux
use lacp.Mux.{check_port, enter_port, sys_is_ready}
use lacp.Statmch.{rx, sel, mux, tx, hop_2_state, clear_change_state, check_condition, round}
use lacp.Settle.{mux_potential}
use lacp.Settle.Reads.{Reads, rx_potential-Reads, sel_potential-Reads}
use lacp.Settle.Groups.{check-groups, round-groups}
use lacp.Settle.Move.{OwnMove, OtherMove, Move, OtherMove-refl}
use lacp.Settle.MuxRound.{mux_value, mux_checked, mux_hopped, mux_drop, mux_hop_drop}

abbrev mux_after : Option MuxState → Port → Port
mux_after none p = p
mux_after (some s) p = record p { mux = hop_2_state p.mux s }

abbrev mux_settled : Bool → Port → Port
mux_settled ready p = mux_after (check_port ready p) p

-- What `sys_is_ready` returns for the port.
abbrev ready_of : World → ℕ → Bool
ready_of w i = sys_is_ready w.cell w.sys.ports (w.cell i)

check_condition-cell :
    (w : World) (i j : ℕ)
    → (check_condition mux w i).0.cell j ≡ update w.cell i (mux_settled (ready_of w i) (w.cell i)) j
unfolding check_condition Mux.check_conditions
check_condition-cell w i j = ground arith

check_condition-sys : (w : World) (i : ℕ) → (check_condition mux w i).0.sys ≡ w.sys
unfolding check_condition
check_condition-sys w i = ground arith

-- What the mux machine never writes.
record MuxOwn (p q : Port) : Type 0 where
  reads : Reads p q
  tx_own : q.tx ≡ p.tx
  selected_own : q.selected ≡ p.selected

enter_own : (s : MuxState) (sys : LacpSys) (p : Port) → MuxOwn p (enter_port s sys p)
unfolding enter_port
enter_own MuxState.begin sys p = ground arith
enter_own MuxState.detached sys p = ground arith
enter_own MuxState.disable sys p = ground arith
enter_own MuxState.waiting sys p = ground arith
enter_own MuxState.ready_n sys p = ground arith
enter_own MuxState.attached sys p = ground arith
enter_own MuxState.rx_tx sys p = ground arith

settled_own : (ready : Bool) (p : Port) → MuxOwn p (mux_settled ready (clear_change_state mux p))
settled_own ready p = ground arith

hop_own : (ready : Bool) (p : Port) → MuxOwn p (mux_settled ready p)
hop_own ready p = ground arith

MuxOwn-trans : (p q r : Port) → MuxOwn p q → MuxOwn q r → MuxOwn p r
MuxOwn-trans p q r h k = ground arith

mux_value_hop :
    (s t : MuxState) (c : Bool) (p : Port)
    → mux_value s c (record p { mux = hop_2_state p.mux t }) ≡ mux_value s c p
mux_value_hop MuxState.begin t c p = refl
mux_value_hop MuxState.detached t c p = refl
mux_value_hop MuxState.disable t c p = refl
mux_value_hop MuxState.waiting t c p = refl
mux_value_hop MuxState.ready_n t c p = refl
mux_value_hop MuxState.attached t c p = refl
mux_value_hop MuxState.rx_tx t c p = refl

after_potential :
    (o : Option MuxState) (p : Port)
    → p.mux.change_state ≡ false
    → mux_potential (mux_after o p) ≡ mux_hopped o p
unfolding hop_2_state
after_potential none p h = ap (λ c. mux_value p.mux.state c p) h
after_potential (some s) p h = mux_value_hop s s true p

own_move :
    (sys : LacpSys) (p q : Port)
    → MuxOwn p q
    → mux_potential q < mux_potential p
    → OwnMove mux sys p q
own_move sys p q o h = record {
  lacp_same = o.reads.lacp_same;
  agg_same = o.reads.agg_same;
  falls = h;
  keeps = elim [
    | rx ↦ λ u. omega (arith, rx_potential-Reads p q o.reads)
    | sel ↦ λ u. omega (arith, sel_potential-Reads p q o.reads o.selected_own)
    | mux ↦ λ u. omega arith
    | tx ↦ λ u. cc
  ];
  flags = elim [
    | rx ↦ λ u. ap (λ m. m.change_state) o.reads.rx_same
    | sel ↦ λ u. ap (λ m. m.change_state) o.reads.sel_same
    | mux ↦ λ u. cc
    | tx ↦ λ u. ap (λ m. m.change_state) o.tx_own
  ];
}

round_falls :
    (sys : LacpSys) (ready : Bool) (p : Port)
    → p.mux.change_state ≡ true
    → OwnMove mux sys p (mux_settled ready (clear_change_state mux (enter_port p.mux.state sys p)))
round_falls sys ready p c =
    let e = enter_port p.mux.state sys p in
    let q = clear_change_state mux e in
    own_move sys p (mux_settled ready q)
      (MuxOwn-trans p e (mux_settled ready q) (enter_own p.mux.state sys p) (settled_own ready e))
      (omega (
        arith,
        ap (λ d. mux_value p.mux.state d p) c,
        after_potential (check_port ready q) q refl,
        mux_drop p.mux.state ready sys p refl,
      ))

abbrev entered : World → ℕ → World
entered w i = modify_port (Mux.enter_state w i) i (clear_change_state mux)

mux_round_cell :
    (w : World) (i j : ℕ)
    → let s = (w.cell i).mux.state in
      (round mux w i).cell j
      ≡ update w.cell i
          (mux_settled
            (ready_of (entered w i) i)
            (clear_change_state mux (enter_port s w.sys (w.cell i))))
          j
unfolding round Mux.enter_state
mux_round_cell w i j =
    let s = (w.cell i).mux.state in
    check_condition-cell (entered w i) i j
    ∙ update_thrice w.cell (Mux.enter_state w i).cell i (enter_port s w.sys (w.cell i))
        (clear_change_state mux) (mux_settled (ready_of (entered w i) i)) (λ k. refl) j

mux_round_sys : (w : World) (i : ℕ) → (round mux w i).sys ≡ w.sys
unfolding round Mux.enter_state
mux_round_sys w i = check_condition-sys (entered w i) i

-- While the mux machine is changing, a round of it is a move.
pub mux_round-Move :
    (w : World) (i : ℕ) → (w.cell i).mux.change_state ≡ true → Move mux i w (round mux w i)
mux_round-Move w i c = record {
  sys_same = mux_round_sys w i;
  groups_same = round-groups mux w i;
  own =
      subst (OwnMove mux w.sys (w.cell i)) (sym (mux_round_cell w i i ∙ update_self w.cell i _))
        (round_falls w.sys (ready_of (entered w i) i) (w.cell i) c);
  others = λ j e.
      subst (OtherMove mux w.sys (w.cell j)) (sym (mux_round_cell w i j ∙ rw e))
        (OtherMove-refl mux w.sys (w.cell j));
}

hop_needs :
    (w : World) (i : ℕ)
    → (check_condition mux w i).1 ≡ true
    → (s : MuxState) × (check_port (ready_of w i) (w.cell i) ≡ some s)
unfolding check_condition Mux.check_conditions
hop_needs w i h = ground arith

checked_falls :
    (ready : Bool) (p : Port)
    → p.mux.change_state ≡ false
    → (s : MuxState) × (check_port ready p ≡ some s)
    → mux_checked ready p < mux_potential p
checked_falls ready p c (s, e) = rw (e, mux_checked) (mux_hop_drop ready p s c e)

-- While it is at rest, a hop of it is a move.
pub mux_hop-Move :
    (w : World) (i : ℕ)
    → (w.cell i).mux.change_state ≡ false
    → (check_condition mux w i).1 ≡ true
    → Move mux i w (check_condition mux w i).0
mux_hop-Move w i c h =
    let p = w.cell i in
    let r = ready_of w i in
    record {
      sys_same = check_condition-sys w i;
      groups_same = check-groups mux w i;
      own =
          subst (OwnMove mux w.sys p) (sym (check_condition-cell w i i ∙ update_self w.cell i _)) (
            own_move w.sys p (mux_settled r p) (hop_own r p) (
              omega (
                arith,
                after_potential (check_port r p) p c,
                checked_falls r p c (hop_needs w i h),
              )));
      others = λ j e.
          subst (OtherMove mux w.sys (w.cell j)) (sym (check_condition-cell w i j ∙ rw e))
            (OtherMove-refl mux w.sys (w.cell j));
    }
