-- ===== src/Settle/Ends.antt =====
-- lacp_sys.c: the loop of `lacp_sys_update`, with fuel, and the state that it ends in.
use lacp.Base.{
  ℕ, zero, suc, ◌+◌, ◌<◌, ◌≡◌, refl, sym, ◌∙◌, subst, true, false, inl, inr, some, List, [], ◌∷◌,
  arith, In, length,
}
use lacp.Types.{World}
use lacp.Statmch.{Machine}
use lacp.Sys.{
  all_machines, iterate_machines, check_callback, change_callback, update_loop, sys_update,
}
use lacp.Settle.Energy.{energy, energy_bound, enough}
use lacp.Settle.Loop.{IsTimed, SameCell, SameCell-refl, SameCell-trans}
use lacp.Settle.Passes.{All, Quiet, Stable, change_pass, check_pass}

-- The machines of a system are those of its ports.
all_machines-Inside :
    (ps qs : List ℕ) → ((j : ℕ) → In j ps → In j qs) → All (λ m i. In i qs) (all_machines ps)
unfolding all_machines
all_machines-Inside [] qs h = tt
all_machines-Inside (p ∷ ps) qs h =
    let own = h p (ground arith) in
    (own, (own, (own, (own, all_machines-Inside ps qs (λ j k. h j (ground (arith, k)))))))

abbrev pub machines_of : World → List (Machine × ℕ)
machines_of w = all_machines w.sys.ports

-- How `lacp_sys_update` leaves a system: its parameters and its list of ports as they were, LACP on
-- in the ports as it was and their aggregations too, no machine changing, and no condition met under which a machine would change.
pub record AtRest (w v : World) : Type 0 where
  pub sys_kept : v.sys ≡ w.sys
  pub cells_kept : (j : ℕ) → SameCell w v j
  pub timed : IsTimed v
  pub quiet : Quiet v (machines_of v)
  pub stable : Stable v (machines_of v)

pub AtRest-trans :
    (w u v : World) → u.sys ≡ w.sys → ((j : ℕ) → SameCell w u j) → AtRest u v → AtRest w v
AtRest-trans w u v e c a = record {
  sys_kept = a.sys_kept ∙ e;
  cells_kept = λ j. SameCell-trans w u v j (c j) (a.cells_kept j);
  timed = a.timed;
  quiet = a.quiet;
  stable = a.stable;
}

abbrev pub Ends : ℕ → ℕ → World → ℕ → Type 0
Ends inner fuel w loops =
    (v : World) × (n : ℕ) × (update_loop inner fuel w loops ≡ some (v, n)) × AtRest w v

-- The rounds of the loop after a hop, from the end of those that follow.
Ends-step :
    (inner fuel : ℕ) (w u x : World) (loops k : ℕ)
    → iterate_machines check_callback true (machines_of w) w 0 ≡ some (u, 1)
    → iterate_machines (change_callback inner) false (machines_of u) u 0 ≡ some (x, k)
    → x.sys ≡ w.sys
    → ((j : ℕ) → SameCell w x j)
    → Ends inner fuel x (loops + 1 + k)
    → Ends inner (suc fuel) w loops
unfolding update_loop
Ends-step inner fuel w u x loops k r p e c (v, n, o, a) =
    (v, n, rw (r, p, update_loop) o, AtRest-trans w x v e c a)

pub update_loop-Ends :
    (inner fuel : ℕ) (w : World) (loops : ℕ)
    → IsTimed w
    → Quiet w (machines_of w)
    → energy w < inner
    → energy w < fuel
    → Ends inner fuel w loops
unfolding update_loop
update_loop-Ends inner zero w loops t q e f = absurd (omega arith)
update_loop-Ends inner (suc fuel) w loops t q e f =
    let inside = all_machines-Inside w.sys.ports w.sys.ports (λ j h. h) in
    elim (check_pass (machines_of w) w t inside q) [
      | inl (r, s) ↦ (
        w,
        loops,
        rw (r, update_loop),
        record { sys_kept = refl; cells_kept = SameCell-refl w; timed = t; quiet = q; stable = s },
      )
      | inr (u, r, y, b, g, z) ↦
          let (x, k, p, l, d) =
            change_pass inner (machines_of u) u 0 z
              (all_machines-Inside u.sys.ports u.sys.ports (λ j h. h)) (omega arith) in
          Ends-step inner fuel w u x loops k r p (l.sys_kept ∙ y)
            (λ j. SameCell-trans w u x j (b j) (l.cells_kept j))
            (update_loop-Ends inner fuel x (loops + 1 + k) l.timed
              (subst (λ c. Quiet x (all_machines c.ports)) (sym l.sys_kept) d)
              (omega (arith, l.energy_kept)) (omega (arith, l.energy_kept)))
    ]

-- `lacp_sys_update` returns, whatever the state of the machines: if the timeouts and periods are
-- not 0, each port structure with LACP on has an aggregation, and no machine is in the middle of a
-- change, then fuel of (16 n + 1)^4 for n ports is enough, and the system it leaves has its
-- parameters and its list of ports, LACP on in each port, the aggregation of each and the link
-- groups of the switch as they were, and is at rest: no machine is changing, and no machine has a
-- condition met under which it would change.
pub sys_update-AtRest :
    (w : World)
    → IsTimed w
    → Quiet w (machines_of w)
    → (v : World) × (n : ℕ) × (sys_update (enough (length w.sys.ports)) w ≡ some (v, n))
      × AtRest w v
unfolding sys_update
sys_update-AtRest w t q =
    update_loop-Ends (enough (length w.sys.ports)) (enough (length w.sys.ports)) w 0 t q
      (energy_bound w) (energy_bound w)
