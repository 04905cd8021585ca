-- ===== src/Settle/TxFalls.antt =====
-- lacp_tx.c: rounds and hops of the transmit machine are moves, which touch its own port alone.
use lacp.Base.{
  ℕ, ◌<◌, ◌≡◌, refl, sym, ap, ◌∙◌, subst, Bool, true, false, Option, none, some, arith, update,
  update_self, update_thrice,
}
use lacp.Types.{LacpSys, Port, TxState, World, modify_port}
use lacp.Tx
use lacp.Tx.{check_conditions, tx_lacpdu, enter_no_periodic, enter_periodic_tx, enter_tx}
use lacp.Statmch.{rx, sel, mux, tx, hop_2_state, clear_change_state, check_condition, round}
use lacp.Settle.{tx_potential}
use lacp.Settle.Reads.{Reads, rx_potential-Reads, sel_potential-Reads, mux_potential_reads}
use lacp.Settle.Groups.{check-groups, round-groups}
use lacp.Settle.Move.{OwnMove, OtherMove, Move, OtherMove-refl}
use lacp.Settle.TxRound.{enter_port, tx_value, tx_checked, tx_hopped, tx_drop, tx_hop_drop}

abbrev pub tx_after : Option TxState → Port → Port
tx_after none p = p
tx_after (some s) p = record p { tx = hop_2_state p.tx s }

abbrev pub tx_settled : LacpSys → Port → Port
tx_settled sys p = tx_after (check_conditions sys p) p

check_condition-cell :
    (w : World) (i j : ℕ)
    → (check_condition tx w i).0.cell j ≡ update w.cell i (tx_settled w.sys (w.cell i)) j
unfolding check_condition
check_condition-cell w i j = ground arith

check_condition-sys : (w : World) (i : ℕ) → (check_condition tx w i).0.sys ≡ w.sys
unfolding check_condition
check_condition-sys w i = ground arith

enter_at-cell :
    (s : TxState) (w : World) (i j : ℕ)
    → (Tx.enter_at s w i).cell j ≡ update w.cell i (enter_port s w.sys (w.cell i)) j
unfolding Tx.enter_at
enter_at-cell TxState.begin w i j = refl
enter_at-cell TxState.no_periodic w i j = refl
enter_at-cell TxState.periodic_tx w i j = refl
enter_at-cell TxState.idle w i j = ground arith
enter_at-cell TxState.tx w i j = ground arith

enter_at-sys : (s : TxState) (w : World) (i : ℕ) → (Tx.enter_at s w i).sys ≡ w.sys
unfolding Tx.enter_at
enter_at-sys TxState.begin w i = refl
enter_at-sys TxState.no_periodic w i = refl
enter_at-sys TxState.periodic_tx w i = refl
enter_at-sys TxState.idle w i = refl
enter_at-sys TxState.tx w i = ground arith

-- What the transmit machine never writes.
record TxOwn (p q : Port) : Type 0 where
  reads : Reads p q
  mux_own : q.mux ≡ p.mux
  selected_own : q.selected ≡ p.selected
  standby_own : q.standby ≡ p.standby
  partner_own : q.partner ≡ p.partner

enter_own : (s : TxState) (sys : LacpSys) (p : Port) → TxOwn p (enter_port s sys p)
unfolding enter_no_periodic enter_periodic_tx enter_tx
enter_own TxState.begin sys p = ground arith
enter_own TxState.no_periodic sys p = ground arith
enter_own TxState.periodic_tx sys p = ground arith
enter_own TxState.idle sys p = ground arith
enter_own TxState.tx sys p = ground arith

settled_own : (sys : LacpSys) (p : Port) → TxOwn p (tx_settled sys (clear_change_state tx p))
settled_own sys p = ground arith

hop_own : (sys : LacpSys) (p : Port) → TxOwn p (tx_settled sys p)
hop_own sys p = ground arith

TxOwn-trans : (p q r : Port) → TxOwn p q → TxOwn q r → TxOwn p r
TxOwn-trans p q r h k = ground arith

tx_value_hop :
    (sys : LacpSys) (s t : TxState) (c : Bool) (p : Port)
    → tx_value sys s c (record p { tx = hop_2_state p.tx t }) ≡ tx_value sys s c p
tx_value_hop sys TxState.begin t c p = refl
tx_value_hop sys TxState.no_periodic t c p = refl
tx_value_hop sys TxState.periodic_tx t true p = refl
tx_value_hop sys TxState.periodic_tx t false p = refl
tx_value_hop sys TxState.idle t c p = refl
tx_value_hop sys TxState.tx t true p = refl
tx_value_hop sys TxState.tx t false p = refl

after_potential :
    (sys : LacpSys) (o : Option TxState) (p : Port)
    → p.tx.change_state ≡ false
    → tx_potential sys (tx_after o p) ≡ tx_hopped sys o p
unfolding hop_2_state
after_potential sys none p h = ap (λ c. tx_value sys p.tx.state c p) h
after_potential sys (some s) p h = tx_value_hop sys s s true p

own_move :
    (sys : LacpSys) (p q : Port)
    → TxOwn p q
    → tx_potential sys q < tx_potential sys p
    → OwnMove tx sys p q
own_move sys p q o h = record {
  lacp_same = o.reads.lacp_same;
  agg_same = o.reads.agg_same;
  falls = h;
  keeps = elim [
    | rx ↦ λ u. omega (arith, rx_potential-Reads p q o.reads)
    | sel ↦ λ u. omega (arith, sel_potential-Reads p q o.reads o.selected_own)
    | mux ↦ λ u. omega (
      arith,
      mux_potential_reads p q o.mux_own o.reads.lacp_same o.selected_own o.standby_own
          o.partner_own,
    )
    | tx ↦ λ u. omega arith
  ];
  flags = elim [
    | rx ↦ λ u. ap (λ m. m.change_state) o.reads.rx_same
    | sel ↦ λ u. ap (λ m. m.change_state) o.reads.sel_same
    | mux ↦ λ u. ap (λ m. m.change_state) o.mux_own
    | tx ↦ λ u. cc
  ];
}

round_falls :
    (sys : LacpSys) (p : Port)
    → 0 < sys.slow_periodic_time
    → 0 < sys.fast_periodic_time
    → p.tx.change_state ≡ true
    → OwnMove tx sys p (tx_settled sys (clear_change_state tx (enter_port p.tx.state sys p)))
round_falls sys p h k c =
    let e = enter_port p.tx.state sys p in
    let q = clear_change_state tx e in
    own_move sys p (tx_settled sys q)
      (TxOwn-trans p e (tx_settled sys q) (enter_own p.tx.state sys p) (settled_own sys e))
      (omega (
        arith,
        ap (λ d. tx_value sys p.tx.state d p) c,
        after_potential sys (check_conditions sys q) q refl,
        tx_drop p.tx.state sys p h k refl,
      ))

pub tx_round_cell :
    (w : World) (i j : ℕ)
    → let s = (w.cell i).tx.state in
      (round tx w i).cell j
      ≡ update w.cell i (tx_settled w.sys (clear_change_state tx (enter_port s w.sys (w.cell i)))) j
unfolding round Tx.enter_state
tx_round_cell w i j =
    let s = (w.cell i).tx.state in
    let v = Tx.enter_at s w i in
    check_condition-cell (modify_port v i (clear_change_state tx)) i j
    ∙ rw (enter_at-sys s w i) (
        update_thrice w.cell v.cell i (enter_port s w.sys (w.cell i)) (clear_change_state tx)
          (tx_settled w.sys) (enter_at-cell s w i) j)

pub tx_round_sys : (w : World) (i : ℕ) → (round tx w i).sys ≡ w.sys
unfolding round Tx.enter_state
tx_round_sys w i =
    let s = (w.cell i).tx.state in
    check_condition-sys (modify_port (Tx.enter_at s w i) i (clear_change_state tx)) i
    ∙ enter_at-sys s w i

-- While the transmit machine is changing, a round of it is a move.
pub tx_round-Move :
    (w : World) (i : ℕ)
    → 0 < w.sys.slow_periodic_time
    → 0 < w.sys.fast_periodic_time
    → (w.cell i).tx.change_state ≡ true
    → Move tx i w (round tx w i)
tx_round-Move w i h k c = record {
  sys_same = tx_round_sys w i;
  groups_same = round-groups tx w i;
  own =
      subst (OwnMove tx w.sys (w.cell i)) (sym (tx_round_cell w i i ∙ update_self w.cell i _))
        (round_falls w.sys (w.cell i) h k c);
  others = λ j e.
      subst (OtherMove tx w.sys (w.cell j)) (sym (tx_round_cell w i j ∙ rw e))
        (OtherMove-refl tx w.sys (w.cell j));
}

hop_needs :
    (w : World) (i : ℕ)
    → (check_condition tx w i).1 ≡ true
    → (s : TxState) × (check_conditions w.sys (w.cell i) ≡ some s)
unfolding check_condition
hop_needs w i h = ground arith

checked_falls :
    (sys : LacpSys) (p : Port)
    → p.tx.change_state ≡ false
    → (s : TxState) × (check_conditions sys p ≡ some s)
    → tx_checked sys p < tx_potential sys p
checked_falls sys p c (s, e) = rw (e, tx_checked) (tx_hop_drop sys p s c e)

-- While it is at rest, a hop of it is a move.
pub tx_hop-Move :
    (w : World) (i : ℕ)
    → (w.cell i).tx.change_state ≡ false
    → (check_condition tx w i).1 ≡ true
    → Move tx i w (check_condition tx w i).0
tx_hop-Move w i c h =
    let p = w.cell i in
    record {
      sys_same = check_condition-sys w i;
      groups_same = check-groups tx w i;
      own = subst (OwnMove tx w.sys p) (sym (check_condition-cell w i i ∙ update_self w.cell i _)) (
          own_move w.sys p (tx_settled w.sys p) (hop_own w.sys p) (
            omega (
              arith,
              after_potential w.sys (check_conditions w.sys p) p c,
              checked_falls w.sys p c (hop_needs w i h),
            )));
      others = λ j e.
          subst (OtherMove tx w.sys (w.cell j)) (sym (check_condition-cell w i j ∙ rw e))
            (OtherMove-refl tx w.sys (w.cell j));
    }
