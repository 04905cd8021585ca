-- ===== src/Settle/Groups.antt =====
-- lacp_statmch.c: no machine touches the link groups of the switch.
use lacp.Base.{ℕ, ◌≡◌, refl, ◌∙◌, Option, none, some, List, [], ◌∷◌, arith}
use lacp.Types.{World, RxState, SelState, MuxState, TxState, Stub, LinkGroup, modify_port}
use lacp.Port.{unselect, unselect_members, port_set_reselect}
use lacp.Rx
use lacp.Rx.{update_selected}
use lacp.Sel
use lacp.Sel.{
  update_keys, select_master_port, select_port, select_ports, update_agg_ports_select,
  selection_logic,
}
use lacp.Sel.Loop.{select_round}
use lacp.Mux
use lacp.Mux.{enter_switch}
use lacp.Ssp.{attach_port, set_port_cd}
use lacp.Tx
use lacp.Tx.{tx_lacpdu}
use lacp.Statmch.{Machine, rx, sel, mux, tx, check_condition, round, clear_change_state}

abbrev groups : World → ℕ → LinkGroup
groups w = w.stub.link_groups

unselect_members-groups :
    (agg_id : ℕ) (ps : List ℕ) (w : World) → groups (unselect_members agg_id ps w) ≡ groups w
unfolding unselect_members
unselect_members-groups agg_id [] w = refl
unselect_members-groups agg_id (p ∷ ps) w = unselect_members-groups agg_id ps _ ∙ ground arith

pub reselect-groups : (w : World) (i : ℕ) → groups (port_set_reselect w (some i)) ≡ groups w
unfolding port_set_reselect
reselect-groups w i = ground (arith, unselect_members-groups (w.cell i).agg_id w.sys.ports w)

update_selected-groups : (w : World) (i : ℕ) → groups (update_selected w i) ≡ groups w
unfolding update_selected
update_selected-groups w i = ground (arith, reselect-groups (modify_port w i unselect) i)

rx_groups : (s : RxState) (w : World) (i : ℕ) → groups (Rx.enter_at s w i) ≡ groups w
unfolding Rx.enter_at
rx_groups RxState.current w i = update_selected-groups w i
rx_groups RxState.begin w i = refl
rx_groups RxState.initialize w i = refl
rx_groups RxState.port_disabled w i = refl
rx_groups RxState.lacp_disabled w i = refl
rx_groups RxState.expired w i = refl
rx_groups RxState.defaulted w i = refl

update_keys-groups :
    (agg_id : ℕ) (ps : List ℕ) (w : World) → groups (update_keys agg_id ps w) ≡ groups w
unfolding update_keys
update_keys-groups agg_id [] w = refl
update_keys-groups agg_id (q ∷ ps) w = update_keys-groups agg_id ps _ ∙ ground arith

select_port-groups :
    (w : World) (best : Option ℕ) (q : ℕ) → groups (select_port w best q) ≡ groups w
unfolding select_port
select_port-groups w none q = refl
select_port-groups w (some b) q = refl

select_ports-groups :
    (agg_id : ℕ) (best : Option ℕ) (ps : List ℕ) (w : World)
    → groups (select_ports agg_id best ps w) ≡ groups w
unfolding select_ports
select_ports-groups agg_id best [] w = refl
select_ports-groups agg_id best (q ∷ ps) w =
    select_ports-groups agg_id best ps (select_round agg_id best q w)
    ∙ ground (arith, select_port-groups w best q)

agg-groups : (w : World) (agg_id : ℕ) → groups (update_agg_ports_select w agg_id) ≡ groups w
unfolding update_agg_ports_select select_master_port
agg-groups w agg_id =
    let v = update_keys agg_id w.sys.ports w in
    select_ports-groups agg_id (select_master_port w agg_id).1 v.sys.ports v
    ∙ update_keys-groups agg_id w.sys.ports w

selection_logic-groups : (w : World) (i : ℕ) → groups (selection_logic w i).0 ≡ groups w
unfolding selection_logic
selection_logic-groups w i = ground (arith, agg-groups w (w.cell i).agg_id)

sel_groups : (s : SelState) (w : World) (i : ℕ) → groups (Sel.enter_at s w i) ≡ groups w
unfolding Sel.enter_at
sel_groups SelState.begin w i = ground (arith, selection_logic-groups w i)
sel_groups SelState.init w i = ground (arith, selection_logic-groups w i)
sel_groups SelState.selection w i = ground (arith, selection_logic-groups w i)

mux_groups :
    (s : MuxState) (i agg_id : ℕ) (t : Stub)
    → (enter_switch s i agg_id t).link_groups ≡ t.link_groups
unfolding enter_switch attach_port set_port_cd
mux_groups MuxState.begin i agg_id t = refl
mux_groups MuxState.disable i agg_id t = refl
mux_groups MuxState.detached i agg_id t = refl
mux_groups MuxState.waiting i agg_id t = refl
mux_groups MuxState.ready_n i agg_id t = refl
mux_groups MuxState.attached i agg_id t = refl
mux_groups MuxState.rx_tx i agg_id t = refl

tx_groups : (s : TxState) (w : World) (i : ℕ) → groups (Tx.enter_at s w i) ≡ groups w
unfolding Tx.enter_at tx_lacpdu
tx_groups TxState.begin w i = refl
tx_groups TxState.no_periodic w i = refl
tx_groups TxState.periodic_tx w i = refl
tx_groups TxState.idle w i = refl
tx_groups TxState.tx w i = ground arith

pub check-groups : (m : Machine) (w : World) (i : ℕ) → groups (check_condition m w i).0 ≡ groups w
unfolding check_condition
check-groups rx w i = ground arith
check-groups sel w i = ground arith
check-groups mux w i = ground arith
check-groups tx w i = ground arith

pub round-groups : (m : Machine) (w : World) (i : ℕ) → groups (round m w i) ≡ groups w
unfolding round Rx.enter_state Sel.enter_state Mux.enter_state Tx.enter_state
round-groups rx w i =
    check-groups rx (modify_port (Rx.enter_state w i) i (clear_change_state rx)) i
    ∙ rx_groups (w.cell i).rx.state w i
round-groups sel w i =
    check-groups sel (modify_port (Sel.enter_state w i) i (clear_change_state sel)) i
    ∙ sel_groups (w.cell i).sel.state w i
round-groups mux w i =
    check-groups mux (modify_port (Mux.enter_state w i) i (clear_change_state mux)) i
    ∙ mux_groups (w.cell i).mux.state i (w.cell i).agg_id w.stub
round-groups tx w i =
    check-groups tx (modify_port (Tx.enter_state w i) i (clear_change_state tx)) i
    ∙ tx_groups (w.cell i).tx.state w i
