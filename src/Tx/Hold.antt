-- ===== src/Tx/Hold.antt =====
-- lacp_tx.c: the limit on the frames of a second.
use lacp.Base.{
  ℕ, ◌+◌, ◌^◌, ◌≤◌, ◌<◌, ◌≡◌, refl, sym, ap, ◌∙◌, subst, true, false, Option, none, some, In,
  length, arith, update_self,
}
use lacp.Types.{World, Port, LacpSys, TxState, begin, no_periodic, periodic_tx, idle, tx}
use lacp.Statmch.{
  Machine, change_state, round, check_condition, hop_2_state, hop_tx, clear_change_state,
}
use lacp.Statmch.Keeps.{change_state-keeps}
use lacp.Tx.{
  enter_at, enter_state, check_at, check_conditions, tx_lacpdu, enter_tx, enter_no_periodic,
  enter_periodic_tx, must_not_transmit, is_no_periodic,
}
use lacp.Settle.TxRound.{enter_port}
use lacp.Settle.TxFalls.{tx_settled, tx_round_cell, tx_round_sys}
use lacp.Settle.Energy.{enough, energy_bound}
use lacp.Settle.Loop.{IsTimed}
use lacp.Settle.Passes.{change_state_ends}

-- The port has counted at most the limit, and fewer if it is about to transmit.
pub record IsHeld (limit : ℕ) (p : Port) : Type 0 where
  pub at_most : p.hold_count ≤ limit
  pub about : p.tx.state ≡ tx → p.tx.change_state ≡ true → p.hold_count < limit

-- Whether the port transmits in the state.
abbrev sends : TxState → ℕ
sends tx = 1
sends _ = 0

-- A port that may transmit, and that has counted what it sent.
record IsCounting (sys : LacpSys) (p : Port) : Type 0 where
  held : IsHeld sys.tx_hold_count p
  transmits : must_not_transmit p ≡ false
  periodic : is_no_periodic p.tx.state ≡ false

abbrev port_next : LacpSys → Port → Port
port_next sys p = tx_settled sys (clear_change_state Machine.tx (enter_port p.tx.state sys p))

enabled : (p : Port) → must_not_transmit p ≡ false → p.lacp_enabled ≡ true
unfolding must_not_transmit
enabled p h = ground (arith, h)

next_at :
    (s : TxState) (sys : LacpSys) (p : Port)
    → sys.tx_hold_count < 2 ^ 32
    → p.tx.state ≡ s
    → p.tx.change_state ≡ true
    → p.hold_count ≤ sys.tx_hold_count
    → (s ≡ tx → p.hold_count < sys.tx_hold_count)
    → must_not_transmit p ≡ false
    → is_no_periodic s ≡ false
    → (((port_next sys p).hold_count ≡ p.hold_count + sends s)
        × ((port_next sys p).hold_count ≤ sys.tx_hold_count))
      × (((port_next sys p).tx.state ≡ tx → (port_next sys p).hold_count < sys.tx_hold_count)
          × (must_not_transmit (port_next sys p) ≡ false))
      × (is_no_periodic (port_next sys p).tx.state ≡ false)
unfolding check_conditions check_at must_not_transmit enter_tx enter_no_periodic enter_periodic_tx
    hop_2_state
next_at begin sys p l e c h k m n = ground arith
next_at no_periodic sys p l e c h k m n = cc
next_at periodic_tx sys p l e c h k m n = ground arith
next_at idle sys p l e c h k m n = ground arith
next_at tx sys p l e c h k m n = ground arith

hop_sent : (w : World) (i : ℕ) (o : Option TxState) → (hop_tx w i o).0.sent ≡ w.sent
hop_sent w i none = refl
hop_sent w i (some s) = refl

enter_sent :
    (s : TxState) (w : World) (i : ℕ)
    → (w.cell i).lacp_enabled ≡ true
    → length (enter_at s w i).sent ≡ length w.sent + sends s
unfolding enter_at tx_lacpdu
enter_sent begin w i h = omega arith
enter_sent no_periodic w i h = omega arith
enter_sent periodic_tx w i h = omega arith
enter_sent idle w i h = omega arith
enter_sent tx w i h = ground (arith, h)

round_sent :
    (w : World) (i : ℕ)
    → (w.cell i).lacp_enabled ≡ true
    → length (round Machine.tx w i).sent ≡ length w.sent + sends (w.cell i).tx.state
unfolding round check_condition enter_state
round_sent w i h = ap length (hop_sent _ i _) ∙ enter_sent (w.cell i).tx.state w i h

-- In the course of the loop: the count is held, and has grown with the frames on the link since
-- there were `frames` of them and the count was `count`.
record InCourse (sys : LacpSys) (frames count i : ℕ) (w : World) : Type 0 where
  same_sys : w.sys ≡ sys
  counting : IsCounting sys (w.cell i)
  grown : length w.sent + count ≡ frames + (w.cell i).hold_count

round-InCourse :
    (sys : LacpSys) (frames count i : ℕ)
    → sys.tx_hold_count < 2 ^ 32
    → (w : World) → (w.cell i).tx.change_state ≡ true
    → InCourse sys frames count i w
    → InCourse sys frames count i (round Machine.tx w i)
round-InCourse sys frames count i l w c g =
    let p = w.cell i in
    let k = g.counting in
    let ((up, most), (about, free), periodic) =
      next_at p.tx.state sys p l refl c k.held.at_most (λ e. k.held.about e c) k.transmits
        k.periodic in
    let cell : (round Machine.tx w i).cell i ≡ port_next sys p =
      tx_round_cell w i i ∙ update_self w.cell i _ ∙ ap (λ y. port_next y p) g.same_sys in
    record {
      same_sys = tx_round_sys w i ∙ g.same_sys;
      counting = subst (IsCounting sys) (sym cell) (record {
        held = record { at_most = most; about = λ e _. about e };
        transmits = free;
        periodic = periodic;
      });
      grown =
          omega (
            arith,
            ap (λ q. q.hold_count) cell,
            up,
            round_sent w i (enabled p k.transmits),
            g.grown,
          );
    }

-- In a system whose timeouts and periods are not 0 and whose ports with LACP on have an
-- aggregation, if a port of the list may transmit, its machine is not in NO_PERIODIC, and it has
-- counted at most `tx_hold_count` frames, and fewer if it is about to transmit one:
-- `lacp_change_state` returns for its transmit machine, with fuel of (16 n + 1)^4 for n ports; it
-- has added as many to the count as it has put frames on the link, and the count is still at most
-- the limit, so that these frames are at most what the limit left; and the port may transmit as
-- before.
pub change_state-IsHeld :
    (fuel : ℕ) (w : World) (i loops : ℕ)
    → enough (length w.sys.ports) ≤ fuel
    → IsTimed w
    → In i w.sys.ports
    → w.sys.tx_hold_count < 2 ^ 32
    → must_not_transmit (w.cell i) ≡ false
    → is_no_periodic (w.cell i).tx.state ≡ false
    → IsHeld w.sys.tx_hold_count (w.cell i)
    → (v : World) × (n : ℕ) × (change_state fuel Machine.tx w i loops ≡ some (v, n))
      × (length v.sent + (w.cell i).hold_count ≡ length w.sent + (v.cell i).hold_count)
      × (length v.sent + (w.cell i).hold_count ≤ length w.sent + w.sys.tx_hold_count)
      × IsHeld v.sys.tx_hold_count (v.cell i)
      × (must_not_transmit (v.cell i) ≡ false)
change_state-IsHeld fuel w i loops f t h l m n k =
    let (v, steps, r, _, _) =
      change_state_ends fuel Machine.tx w i loops t h (omega (arith, f, energy_bound w)) in
    let count = (w.cell i).hold_count in
    let g : InCourse w.sys (length w.sent) count i v =
      change_state-keeps Machine.tx i (InCourse w.sys (length w.sent) count i)
        (round-InCourse w.sys (length w.sent) count i l) fuel w v loops steps
        (record {
          same_sys = refl;
          counting = record { held = k; transmits = m; periodic = n };
          grown = refl;
        })
        r in
    let most = g.counting.held.at_most in
    (
      v,
      steps,
      r,
      g.grown,
      omega (arith, g.grown, most),
      subst (λ y. IsHeld y.tx_hold_count (v.cell i)) (sym g.same_sys) g.counting.held,
      g.counting.transmits,
    )
