-- ===== src/Settle/RxMove.antt =====
-- lacp_rx.c: what a round of the receive machine does to the store of ports.
use lacp.Base.{
  ℕ, ◌≡◌, refl, ap, ◌∙◌, ◌==◌, ==_iff, Bool-cases, inl, inr, ◌⊎◌, if◌then◌else◌, Option, none, some,
  List, [], ◌∷◌, arith, update, update_thrice,
}
use lacp.Types.{Port, RxState, World, modify_port}
use lacp.Port.{unselect, unselect_members, port_set_reselect}
use lacp.Rx
use lacp.Rx.{update_selected, check_conditions}
use lacp.Statmch.{rx, hop_2_state, clear_change_state, check_condition, round}
use lacp.Settle.RxRound.{enter_port}

-- The port once the conditions have been checked.
abbrev pub rx_after : Option RxState → Port → Port
rx_after none p = p
rx_after (some s) p = record p { rx = hop_2_state p.rx s }

abbrev pub rx_settled : Port → Port
rx_settled p = rx_after (check_conditions p) p

pub check_condition-cell :
    (w : World) (i j : ℕ)
    → (check_condition rx w i).0.cell j ≡ update w.cell i (rx_settled (w.cell i)) j
unfolding check_condition
check_condition-cell w i j = ground arith

pub check_condition-sys : (w : World) (i : ℕ) → (check_condition rx w i).0.sys ≡ w.sys
unfolding check_condition
check_condition-sys w i = ground arith

-- The state on which the port's own part of a state acts.
abbrev pub base : RxState → World → ℕ → World
base RxState.current w i = update_selected w i
base _ w i = w

enter_at-cell :
    (s : RxState) (w : World) (i j : ℕ)
    → (Rx.enter_at s w i).cell j
      ≡ update (base s w i).cell i (enter_port s w.sys ((base s w i).cell i)) j
unfolding Rx.enter_at
enter_at-cell RxState.begin w i j = refl
enter_at-cell RxState.initialize w i j = refl
enter_at-cell RxState.port_disabled w i j = refl
enter_at-cell RxState.lacp_disabled w i j = refl
enter_at-cell RxState.expired w i j = refl
enter_at-cell RxState.defaulted w i j = refl
enter_at-cell RxState.current w i j = refl

enter_at-sys : (s : RxState) (w : World) (i : ℕ) → (Rx.enter_at s w i).sys ≡ (base s w i).sys
unfolding Rx.enter_at
enter_at-sys RxState.begin w i = refl
enter_at-sys RxState.initialize w i = refl
enter_at-sys RxState.port_disabled w i = refl
enter_at-sys RxState.lacp_disabled w i = refl
enter_at-sys RxState.expired w i = refl
enter_at-sys RxState.defaulted w i = refl
enter_at-sys RxState.current w i = refl

-- A port after a round: its own part, or what `update_selected` leaves of another port.
pub rx_round_cell :
    (w : World) (i j : ℕ)
    → let s = (w.cell i).rx.state in
      (round rx w i).cell j
      ≡ update
          (base s w i).cell
          i
          (rx_settled (clear_change_state rx (enter_port s w.sys ((base s w i).cell i))))
          j
unfolding round Rx.enter_state
rx_round_cell w i j =
    let s = (w.cell i).rx.state in
    let v = Rx.enter_at s w i in
    check_condition-cell (modify_port v i (clear_change_state rx)) i j
    ∙ update_thrice (base s w i).cell v.cell i (enter_port s w.sys ((base s w i).cell i))
        (clear_change_state rx) rx_settled (enter_at-cell s w i) j

-- Another port after a call of `lacp_port_set_reselect`.
abbrev pub Unselects : Port → Port → Type 0
Unselects p q = (q ≡ p) ⊎ (q ≡ unselect p)

Unselects-trans : (p q r : Port) → Unselects p q → Unselects q r → Unselects p r
Unselects-trans p q r (inl h) (inl k) = inl (k ∙ h)
Unselects-trans p q r (inl h) (inr k) = inr (k ∙ ap unselect h)
Unselects-trans p q r (inr h) (inl k) = inr (k ∙ h)
Unselects-trans p q r (inr h) (inr k) = inr (k ∙ ap unselect h)

update-Unselects : (c : ℕ → Port) (i j : ℕ) → Unselects (c j) (update c i (unselect (c i)) j)
update-Unselects c i j = elim (Bool-cases (i == j)) [
  | inl e ↦ rw e (inr (ap (λ k. unselect (c k)) ((==_iff i j).0 e)))
  | inr e ↦ rw e (inl refl)
]

-- One round of the loop.
abbrev unselect_round : ℕ → ℕ → World → World
unselect_round agg_id p w = if (w.cell p).agg_id == agg_id then modify_port w p unselect else w

unselect_round-Unselects :
    (agg_id p : ℕ) (w : World) (j : ℕ) → Unselects (w.cell j) ((unselect_round agg_id p w).cell j)
unselect_round-Unselects agg_id p w j = elim (Bool-cases ((w.cell p).agg_id == agg_id)) [
  | inl e ↦ rw e (update-Unselects w.cell p j)
  | inr e ↦ rw e (inl refl)
]

unselect_members-Unselects :
    (agg_id : ℕ) (ps : List ℕ) (w : World) (j : ℕ)
    → Unselects (w.cell j) ((unselect_members agg_id ps w).cell j)
unfolding unselect_members
unselect_members-Unselects agg_id [] w j = inl refl
unselect_members-Unselects agg_id (p ∷ ps) w j =
    let v = unselect_round agg_id p w in
    Unselects-trans (w.cell j) (v.cell j) ((unselect_members agg_id ps v).cell j)
      (unselect_round-Unselects agg_id p w j) (unselect_members-Unselects agg_id ps v j)

unselect_members-sys :
    (agg_id : ℕ) (ps : List ℕ) (w : World) → (unselect_members agg_id ps w).sys ≡ w.sys
unfolding unselect_members
unselect_members-sys agg_id [] w = refl
unselect_members-sys agg_id (p ∷ ps) w =
    unselect_members-sys agg_id ps (unselect_round agg_id p w) ∙ ground arith

reselect-Unselects :
    (w : World) (i j : ℕ) → Unselects (w.cell j) ((port_set_reselect w (some i)).cell j)
unfolding port_set_reselect
reselect-Unselects w i j = elim (Bool-cases ((w.cell i).agg_id == 0)) [
  | inl e ↦ rw e (inl refl)
  | inr e ↦ rw e (unselect_members-Unselects (w.cell i).agg_id w.sys.ports w j)
]

reselect-sys : (w : World) (i : ℕ) → (port_set_reselect w (some i)).sys ≡ w.sys
unfolding port_set_reselect
reselect-sys w i = ground (arith, unselect_members-sys (w.cell i).agg_id w.sys.ports w)

update_selected-Unselects :
    (w : World) (i j : ℕ) → Unselects (w.cell j) ((update_selected w i).cell j)
unfolding update_selected
update_selected-Unselects w i j =
    elim (Bool-cases (Rx.same_partner (w.cell i).msg_actor (w.cell i).partner)) [
      | inl e ↦ rw e (inl refl)
      | inr e ↦
          let v = modify_port w i unselect in
          rw e (
            Unselects-trans (w.cell j) (v.cell j) ((port_set_reselect v (some i)).cell j)
              (update-Unselects w.cell i j) (reselect-Unselects v i j))
    ]

update_selected-sys : (w : World) (i : ℕ) → (update_selected w i).sys ≡ w.sys
unfolding update_selected
update_selected-sys w i = ground (arith, reselect-sys (modify_port w i unselect) i)

pub base-Unselects :
    (s : RxState) (w : World) (i j : ℕ) → Unselects (w.cell j) ((base s w i).cell j)
base-Unselects RxState.begin w i j = inl refl
base-Unselects RxState.initialize w i j = inl refl
base-Unselects RxState.port_disabled w i j = inl refl
base-Unselects RxState.lacp_disabled w i j = inl refl
base-Unselects RxState.expired w i j = inl refl
base-Unselects RxState.defaulted w i j = inl refl
base-Unselects RxState.current w i j = update_selected-Unselects w i j

base-sys : (s : RxState) (w : World) (i : ℕ) → (base s w i).sys ≡ w.sys
base-sys RxState.current w i = update_selected-sys w i
base-sys _ w i = refl

pub rx_round_sys : (w : World) (i : ℕ) → (round rx w i).sys ≡ w.sys
unfolding round Rx.enter_state
rx_round_sys w i =
    let s = (w.cell i).rx.state in
    check_condition-sys (modify_port (Rx.enter_at s w i) i (clear_change_state rx)) i
    ∙ enter_at-sys s w i
    ∙ base-sys s w i
