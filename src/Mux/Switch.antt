-- ===== src/Mux/Switch.antt =====
-- lacp_mux.c: the switch and the flags of a port, as the mux machine sets them.
use lacp.Base.{
  ℕ, ◌≡◌, refl, sym, ap, ◌∙◌, Bool, true, false, if◌then◌else◌, Option, none, some, arith,
}
use lacp.Types.{
  modify_port, World, MuxState, begin, detached, disable, waiting, ready_n, attached, rx_tx,
}
use lacp.Ssp.{get_port_cd}
use lacp.Statmch.{Machine, change_state, round, check_condition, hop_mux, clear_change_state}
use lacp.Statmch.Keeps.{change_state-keeps}
use lacp.Mux.{enter_state, enter_port, enter_switch}

-- The switch forwards on a port exactly if the port tells its partner that it collects, and then
-- it tells that it distributes too.
pub record InStep (w : World) (i : ℕ) : Type 0 where
  pub collects : get_port_cd w.stub i ≡ (if (w.cell i).actor.state.collecting then 1 else 0)
  pub distributes : (w.cell i).actor.state.distributing ≡ (w.cell i).actor.state.collecting

abbrev pub passive : MuxState → Bool
passive waiting = true
passive ready_n = true
passive _ = false

-- Entering a state puts the switch in step, or leaves it as it is.
enter_at_InStep :
    (s : MuxState) (w : World) (i : ℕ)
    → (w.cell i).mux.state ≡ s
    → (passive s ≡ true → InStep w i)
    → InStep (enter_state w i) i
unfolding enter_state enter_port enter_switch get_port_cd
enter_at_InStep begin w i e h = ground arith
enter_at_InStep disable w i e h = ground arith
enter_at_InStep detached w i e h = ground arith
enter_at_InStep waiting w i e h = ground arith
enter_at_InStep ready_n w i e h = ground arith
enter_at_InStep attached w i e h = ground arith
enter_at_InStep rx_tx w i e h = ground arith

-- `InStep` reads the switch, and the port's own flags.
InStep-reads :
    (w v : World) (i : ℕ)
    → v.stub ≡ w.stub
    → (v.cell i).actor ≡ (w.cell i).actor
    → InStep w i
    → InStep v i
InStep-reads w v i s a h = record {
  collects =
      ap (λ t. get_port_cd t i) s
      ∙ h.collects
      ∙ ap (λ q. if q.state.collecting then 1 else 0) (sym a);
  distributes =
      ap (λ q. q.state.distributing) a ∙ h.distributes ∙ ap (λ q. q.state.collecting) (sym a);
}

hopped_stub : (w : World) (i : ℕ) (o : Option MuxState) → (hop_mux w i o).0.stub ≡ w.stub
hopped_stub w i none = refl
hopped_stub w i (some s) = refl

hopped_actor :
    (w : World) (i : ℕ) (o : Option MuxState) → ((hop_mux w i o).0.cell i).actor ≡ (w.cell i).actor
hopped_actor w i none = refl
hopped_actor w i (some s) = ground arith

cleared_actor :
    (w : World) (i : ℕ)
    → ((modify_port w i (clear_change_state Machine.mux)).cell i).actor ≡ (w.cell i).actor
cleared_actor w i = ground arith

round-InStep :
    (w : World) (i : ℕ)
    → (passive (w.cell i).mux.state ≡ true → InStep w i)
    → InStep (round Machine.mux w i) i
unfolding round check_condition
round-InStep w i h =
    let u = enter_state w i in
    let c = modify_port u i (clear_change_state Machine.mux) in
    InStep-reads u (round Machine.mux w i) i (hopped_stub c i _)
      (hopped_actor c i _ ∙ cleared_actor u i) (enter_at_InStep (w.cell i).mux.state w i refl h)

-- What is asked where the mux machine rests, or goes on to a state that leaves the switch alone.
abbrev pub StepsFrom : World → ℕ → Type 0
StepsFrom w i =
    ((w.cell i).mux.change_state ≡ false → InStep w i)
    × (passive (w.cell i).mux.state ≡ true → InStep w i)

-- When the mux machine of a port comes to rest, the switch forwards on the port exactly if the
-- port's own flags say that it collects, and they say that it distributes exactly if it collects.
-- That is asked before only if the machine was at rest, or was about to enter WAITING or READY_N,
-- which leave the switch as it is.
pub change_state-InStep :
    (fuel : ℕ) (w v : World) (i loops n : ℕ)
    → StepsFrom w i
    → change_state fuel Machine.mux w i loops ≡ some (v, n)
    → StepsFrom v i
change_state-InStep fuel w v i loops n h e =
    change_state-keeps Machine.mux i (λ u. StepsFrom u i)
      (λ u c k. let r = round-InStep u i k.1 in (λ _. r, λ _. r)) fuel w v loops n h e
