-- ===== src/Settle/SelFalls.antt =====
-- lacp_sel.c: rounds and hops of the selection machine are moves.
use lacp.Base.{
  ℕ, ◌<◌, ◌≤◌, ◌≡◌, refl, sym, ap, ◌∙◌, subst, Bool, true, false, ◌==◌, Option, none, some, arith,
  update, update_self, update_thrice, In,
}
use lacp.Types.{LacpSys, Port, SelState, StateMach, World, modify_port}
use lacp.Sel
use lacp.Sel.{check_conditions, selection_logic}
use lacp.Statmch.{rx, sel, mux, tx, hop_2_state, clear_change_state, check_condition, round}
use lacp.Settle.{sel_value, sel_potential, rx_potential}
use lacp.Settle.Reads.{Reads, rx_potential-Reads, rx_value_sel}
use lacp.Settle.Groups.{check-groups, round-groups}
use lacp.Settle.Move.{OwnMove, OtherMove, Move, OtherMove-refl}
use lacp.Settle.SelFrame.{
  SelFrame, SelFrame-refl, selection_logic-SelFrame, selection_logic-sys, selection_logic-selected,
}

abbrev sel_after : Option SelState → Port → Port
sel_after none p = p
sel_after (some s) p = record p { sel = hop_2_state p.sel s }

abbrev sel_settled : Port → Port
sel_settled p = sel_after (check_conditions p) p

check_condition-cell :
    (w : World) (i j : ℕ)
    → (check_condition sel w i).0.cell j ≡ update w.cell i (sel_settled (w.cell i)) j
unfolding check_condition
check_condition-cell w i j = ground arith

check_condition-sys : (w : World) (i : ℕ) → (check_condition sel w i).0.sys ≡ w.sys
unfolding check_condition
check_condition-sys w i = ground arith

-- The port that entered a state, and what it left unwritten.
record SelOwn (p q : Port) : Type 0 where
  reads_rx : Reads p (record q { sel = p.sel })
  mux_own : q.mux ≡ p.mux
  tx_own : q.tx ≡ p.tx

SelFrame-own : (p q : Port) → SelFrame p q → SelOwn p q
SelFrame-own p q f = ground arith

unselect_own : (p : Port) → SelOwn p (record p { selected = false })
unselect_own p = ground arith

enter_at-own : (s : SelState) (w : World) (i : ℕ) → SelOwn (w.cell i) ((Sel.enter_at s w i).cell i)
unfolding Sel.enter_at
enter_at-own SelState.begin w i =
    subst (SelOwn (w.cell i)) (sym (update_self w.cell i _)) (unselect_own (w.cell i))
enter_at-own SelState.init w i =
    subst (SelOwn (w.cell i)) (sym (update_self w.cell i _)) (unselect_own (w.cell i))
enter_at-own SelState.selection w i = SelFrame-own (w.cell i) _ (selection_logic-SelFrame w i i)

-- Entering a state keeps the state, and the selection leaves the port selected.
enter_at-state :
    (s : SelState) (w : World) (i : ℕ)
    → (w.cell i).sel.state ≡ s
    → ((Sel.enter_at s w i).cell i).sel.state ≡ s
unfolding Sel.enter_at
enter_at-state SelState.begin w i e = ap (λ q. q.sel.state) (update_self w.cell i _) ∙ e
enter_at-state SelState.init w i e = ap (λ q. q.sel.state) (update_self w.cell i _) ∙ e
enter_at-state SelState.selection w i e =
    ap (λ m. m.state) (selection_logic-SelFrame w i i).reads.sel_same ∙ e

enter_at-other :
    (s : SelState) (w : World) (i j : ℕ)
    → (i == j) ≡ false
    → SelFrame (w.cell j) ((Sel.enter_at s w i).cell j)
unfolding Sel.enter_at
enter_at-other SelState.begin w i j e = rw e (SelFrame-refl (w.cell j))
enter_at-other SelState.init w i j e = rw e (SelFrame-refl (w.cell j))
enter_at-other SelState.selection w i j e = selection_logic-SelFrame w i j

enter_at-sys : (s : SelState) (w : World) (i : ℕ) → (Sel.enter_at s w i).sys ≡ w.sys
unfolding Sel.enter_at
enter_at-sys SelState.begin w i = refl
enter_at-sys SelState.init w i = refl
enter_at-sys SelState.selection w i = selection_logic-sys w i

settled_own : (p q : Port) → SelOwn p q → SelOwn p (sel_settled (clear_change_state sel q))
settled_own p q o = ground arith

hop_own : (p : Port) → SelOwn p (sel_settled p)
hop_own p = ground arith

-- Checking the conditions of a port that entered a state `s` lowers its value.
entered_falls :
    (s : SelState) (q : Port)
    → q.sel.state ≡ s
    → (s ≡ SelState.selection → q.selected ≡ true)
    → sel_potential (sel_settled (clear_change_state sel q)) < sel_value s true false
unfolding check_conditions hop_2_state
entered_falls SelState.begin q e h = ground arith
entered_falls SelState.init q e h = ground arith
entered_falls SelState.selection q e h = ground (arith, h refl)

sel_value_changing : (s : SelState) (b : Bool) → sel_value s true false ≡ sel_value s true b
sel_value_changing SelState.begin b = refl
sel_value_changing SelState.init b = refl
sel_value_changing SelState.selection b = refl

rx_ignores :
    (p : Port) (m : StateMach SelState) → rx_potential (record p { sel = m }) ≡ rx_potential p
rx_ignores p m = rx_value_sel p.rx.state p.rx.change_state p m

own_move :
    (sys : LacpSys) (p q : Port)
    → SelOwn p q
    → sel_potential q < sel_potential p
    → OwnMove sel sys p q
own_move sys p q o h = record {
  lacp_same = o.reads_rx.lacp_same;
  agg_same = o.reads_rx.agg_same;
  falls = h;
  keeps = elim [
    | rx ↦ λ u.
        omega
          (arith, rx_potential-Reads p (record q { sel = p.sel }) o.reads_rx, rx_ignores q p.sel)
    | sel ↦ λ u. omega arith
    | mux ↦ λ u. cc
    | tx ↦ λ u. cc
  ];
  flags = elim [
    | rx ↦ λ u. ap (λ m. m.change_state) o.reads_rx.rx_same
    | sel ↦ λ u. cc
    | mux ↦ λ u. ap (λ m. m.change_state) o.mux_own
    | tx ↦ λ u. ap (λ m. m.change_state) o.tx_own
  ];
}

sel_value_mono :
    (s : SelState) (c b d : Bool) → (b ≡ true → d ≡ true) → sel_value s c d ≤ sel_value s c b
sel_value_mono SelState.begin c b d h = omega arith
sel_value_mono SelState.init c b d h = omega arith
sel_value_mono SelState.selection true b d h = omega arith
sel_value_mono SelState.selection false true d h = ground (arith, h refl)
sel_value_mono SelState.selection false false d h = ground arith

other_move : (sys : LacpSys) (p q : Port) → SelFrame p q → OtherMove sel sys p q
other_move sys p q f = record {
  lacp_same = f.reads.lacp_same;
  agg_same = f.reads.agg_same;
  keeps = elim [
    | rx ↦ λ u. omega (arith, rx_potential-Reads p q f.reads)
    | sel ↦ λ u. omega (
      arith,
      ap (λ m. sel_value m.state m.change_state q.selected) f.reads.sel_same,
      sel_value_mono p.sel.state p.sel.change_state p.selected q.selected f.still_selected,
    )
    | mux ↦ λ u. cc
    | tx ↦ λ u. cc
  ];
  flags = elim [
    | rx ↦ ap (λ m. m.change_state) f.reads.rx_same
    | sel ↦ ap (λ m. m.change_state) f.reads.sel_same
    | mux ↦ ap (λ m. m.change_state) f.mux_same
    | tx ↦ ap (λ m. m.change_state) f.tx_same
  ];
}

same_cell : (c : ℕ → Port) (i j : ℕ) → c j ≡ update c i (c i) j
same_cell c i j = ground arith

enter_at-selected :
    (s : SelState) (w : World) (i : ℕ)
    → In i w.sys.ports
    → ((w.cell i).lacp_enabled ≡ true → ((w.cell i).agg_id == 0) ≡ false)
    → s ≡ SelState.selection
    → ((Sel.enter_at s w i).cell i).selected ≡ true
unfolding Sel.enter_at
enter_at-selected SelState.begin w i m h e = cc
enter_at-selected SelState.init w i m h e = cc
enter_at-selected SelState.selection w i m h e = selection_logic-selected w i m h

sel_round_cell :
    (w : World) (i j : ℕ)
    → let v = Sel.enter_state w i in
      (round sel w i).cell j ≡ update v.cell i (sel_settled (clear_change_state sel (v.cell i))) j
unfolding round
sel_round_cell w i j =
    let v = Sel.enter_state w i in
    check_condition-cell (modify_port v i (clear_change_state sel)) i j
    ∙ update_thrice v.cell v.cell i (v.cell i) (clear_change_state sel) sel_settled
        (λ k. same_cell v.cell i k) j

sel_round_sys : (w : World) (i : ℕ) → (round sel w i).sys ≡ w.sys
unfolding round Sel.enter_state
sel_round_sys w i =
    let s = (w.cell i).sel.state in
    check_condition-sys (modify_port (Sel.enter_at s w i) i (clear_change_state sel)) i
    ∙ enter_at-sys s w i

-- While the selection machine of a port of the system is changing, a round of it is a move, if a
-- port with LACP on has an aggregation.
pub sel_round-Move :
    (w : World) (i : ℕ)
    → In i w.sys.ports
    → ((w.cell i).lacp_enabled ≡ true → ((w.cell i).agg_id == 0) ≡ false)
    → (w.cell i).sel.change_state ≡ true
    → Move sel i w (round sel w i)
unfolding Sel.enter_state
sel_round-Move w i m h c =
    let s = (w.cell i).sel.state in
    let v = Sel.enter_at s w i in
    let q = sel_settled (clear_change_state sel (v.cell i)) in
    record {
      sys_same = sel_round_sys w i;
      groups_same = round-groups sel w i;
      own =
          subst (OwnMove sel w.sys (w.cell i)) (sym (sel_round_cell w i i ∙ update_self v.cell i q))
            (own_move w.sys (w.cell i) q (settled_own (w.cell i) (v.cell i) (enter_at-own s w i)) (
              omega (
                arith,
                ap (λ d. sel_value s d (w.cell i).selected) c,
                sel_value_changing s (w.cell i).selected,
                entered_falls s (v.cell i) (enter_at-state s w i refl)
                    (enter_at-selected s w i m h),
              )));
      others = λ j e.
          subst (OtherMove sel w.sys (w.cell j)) (sym (sel_round_cell w i j ∙ rw e))
            (other_move w.sys (w.cell j) (v.cell j) (enter_at-other s w i j e));
    }

hop_needs :
    (w : World) (i : ℕ)
    → (check_condition sel w i).1 ≡ true
    → (s : SelState) × (check_conditions (w.cell i) ≡ some s)
unfolding check_condition
hop_needs w i h = ground arith

hop_falls :
    (p : Port)
    → p.sel.change_state ≡ false
    → (s : SelState) × (check_conditions p ≡ some s)
    → sel_potential (sel_settled p) < sel_potential p
unfolding check_conditions hop_2_state
hop_falls p c h = ground arith

-- While it is at rest, a hop of it is a move.
pub sel_hop-Move :
    (w : World) (i : ℕ)
    → (w.cell i).sel.change_state ≡ false
    → (check_condition sel w i).1 ≡ true
    → Move sel i w (check_condition sel w i).0
sel_hop-Move w i c h =
    let p = w.cell i in
    record {
      sys_same = check_condition-sys w i;
      groups_same = check-groups sel w i;
      own =
          subst (OwnMove sel w.sys p) (sym (check_condition-cell w i i ∙ update_self w.cell i _))
            (own_move w.sys p (sel_settled p) (hop_own p) (hop_falls p c (hop_needs w i h)));
      others = λ j e.
          subst (OtherMove sel w.sys (w.cell j)) (sym (check_condition-cell w i j ∙ rw e))
            (OtherMove-refl sel w.sys (w.cell j));
    }
