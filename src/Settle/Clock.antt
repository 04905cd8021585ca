-- ===== src/Settle/Clock.antt =====
-- lacp_api.c: a tick of the clock from a system at rest.
use lacp.Base.{
  ℕ, zero, suc, ◌≡◌, refl, sym, ap, ◌∙◌, subst, true, ◌==◌, some, List, [], ◌∷◌, arith, length,
}
use lacp.Types.{World, Port, modify_port, Outcome, returns, ◌>>=◌}
use lacp.Statmch.{Machine, rx, sel, mux, tx, change_state_of}
use lacp.Sys.{all_machines, sys_update, update}
use lacp.Api.{tick_port, tick_ports, one_second}
use lacp.Settle.Energy.{enough}
use lacp.Settle.Loop.{IsTimed}
use lacp.Settle.Passes.{All-map, Quiet}
use lacp.Settle.Ends.{AtRest, AtRest-trans, machines_of, sys_update-AtRest}

-- What a tick leaves of a port, as far as the end of `lacp_sys_update` depends on it.
pub record Ticked (p q : Port) : Type 0 where
  pub lacp_same : q.lacp_enabled ≡ p.lacp_enabled
  pub agg_same : q.agg_id ≡ p.agg_id
  pub flags : (m : Machine) → change_state_of m q ≡ change_state_of m p

tick-Ticked : (w : World) (i j : ℕ) → Ticked (w.cell j) ((modify_port w i tick_port).cell j)
unfolding tick_port
tick-Ticked w i j = record {
  lacp_same = ground arith;
  agg_same = ground arith;
  flags = λ m. flags_kept m w i j;
}
  where
    flags_kept :
        (m : Machine) (w : World) (i j : ℕ)
        → change_state_of m ((modify_port w i tick_port).cell j) ≡ change_state_of m (w.cell j)
    flags_kept rx w i j = ground arith
    flags_kept sel w i j = ground arith
    flags_kept mux w i j = ground arith
    flags_kept tx w i j = ground arith

pub ticks-Ticked : (ps : List ℕ) (w : World) (j : ℕ) → Ticked (w.cell j) ((tick_ports ps w).cell j)
unfolding tick_ports
ticks-Ticked [] w j = record { lacp_same = refl; agg_same = refl; flags = λ m. refl }
ticks-Ticked (p ∷ ps) w j =
    let a = tick-Ticked w p j in
    let b = ticks-Ticked ps (modify_port w p tick_port) j in
    record {
      lacp_same = b.lacp_same ∙ a.lacp_same;
      agg_same = b.agg_same ∙ a.agg_same;
      flags = λ m. b.flags m ∙ a.flags m;
    }

pub ticks_sys : (ps : List ℕ) (w : World) → (tick_ports ps w).sys ≡ w.sys
unfolding tick_ports
ticks_sys [] w = refl
ticks_sys (p ∷ ps) w = ticks_sys ps (modify_port w p tick_port)

ticks_groups : (ps : List ℕ) (w : World) → (tick_ports ps w).stub.link_groups ≡ w.stub.link_groups
unfolding tick_ports
ticks_groups [] w = refl
ticks_groups (p ∷ ps) w = ticks_groups ps (modify_port w p tick_port)

tick-IsTimed : (w : World) → IsTimed w → IsTimed (tick_ports w.sys.ports w)
tick-IsTimed w t =
    let e = ticks_sys w.sys.ports w in
    record {
      short_timeout = rw e t.short_timeout;
      long_timeout = rw e t.long_timeout;
      slow_period = rw e t.slow_period;
      fast_period = rw e t.fast_period;
      has_agg = λ j h.
          let k = ticks-Ticked w.sys.ports w j in
          ap (λ n. n == 0) k.agg_same ∙ t.has_agg j (sym k.lacp_same ∙ h);
    }

tick-Quiet :
    (w : World)
    → Quiet w (machines_of w)
    → Quiet (tick_ports w.sys.ports w) (machines_of (tick_ports w.sys.ports w))
tick-Quiet w q =
    subst (λ s. Quiet (tick_ports w.sys.ports w) (all_machines s.ports))
      (sym (ticks_sys w.sys.ports w))
      (All-map (machines_of w) (λ m i h. (ticks-Ticked w.sys.ports w i).flags m ∙ h) q)

pub update_returns :
    (fuel n : ℕ) (u v : World) → sys_update fuel u ≡ some (v, n) → update fuel u ≡ returns v
unfolding update
update_returns fuel n u v e = rw (update, e) refl

second_updates :
    (fuel : ℕ) (w : World)
    → w.sys.admin_state ≡ true
    → one_second fuel w ≡ update fuel (tick_ports w.sys.ports w)
unfolding one_second
second_updates fuel w a = rw a refl

one_second-AtRest :
    (w : World)
    → w.sys.admin_state ≡ true
    → IsTimed w
    → Quiet w (machines_of w)
    → (v : World) × (one_second (enough (length w.sys.ports)) w ≡ returns v) × AtRest w v
one_second-AtRest w a t q =
    let u = tick_ports w.sys.ports w in
    let e = ticks_sys w.sys.ports w in
    let (v, n, r, s) = sys_update-AtRest u (tick-IsTimed w t) (tick-Quiet w q) in
    let r' = subst (λ y. sys_update (enough (length y.ports)) u ≡ some (v, n)) e r in
    (
      v,
      second_updates (enough (length w.sys.ports)) w a
          ∙ update_returns (enough (length w.sys.ports)) n u v r',
      AtRest-trans w u v e
          (λ j.
            let k = ticks-Ticked w.sys.ports w j in
            (k.lacp_same, k.agg_same, ticks_groups w.sys.ports w))
          s,
    )

-- Some seconds, one call of `lacp_one_second` after the other.
abbrev pub seconds : ℕ → ℕ → World → Outcome World
seconds fuel zero w = returns w
seconds fuel (suc n) w = one_second fuel w >>= seconds fuel n

-- If LACP is enabled in a system, no machine of its ports is in the middle of a change, the
-- timeouts and periods are not 0, and each port structure with LACP on has an aggregation, then
-- `lacp_one_second`, called any number of times but at least once, returns from every call, with
-- fuel of (16 n + 1)^4 for n ports, and leaves the system with its parameters and its list of
-- ports, LACP on in each port, the aggregation of each and the link groups of the switch as they
-- were, and at rest: no machine is changing, and none has a condition met under which it would
-- change.
pub seconds-AtRest :
    (n : ℕ) (w : World)
    → w.sys.admin_state ≡ true
    → IsTimed w
    → Quiet w (machines_of w)
    → (v : World) × (seconds (enough (length w.sys.ports)) (suc n) w ≡ returns v) × AtRest w v
seconds-AtRest zero w a t q = let (v, r, s) = one_second-AtRest w a t q in (v, rw r refl, s)
seconds-AtRest (suc n) w a t q =
    let (u, r, s) = one_second-AtRest w a t q in
    let k = s.sys_kept in
    let (v, o, z) = seconds-AtRest n u (ap (λ y. y.admin_state) k ∙ a) s.timed s.quiet in
    (
      v,
      rw r (subst (λ y. seconds (enough (length y.ports)) (suc n) u ≡ returns v) k o),
      AtRest-trans w u v k s.cells_kept z,
    )
