-- ===== src/Settle/Passes.antt =====
-- lacp_statmch.c and lacp_sys.c: one pass over all machines, with either callback.
use lacp.Base.{
  ℕ, zero, suc, ◌+◌, ◌<◌, ◌≤◌, ◌≡◌, refl, sym, ap, ◌∙◌, subst, true, false, ◌&&◌, ◌==◌, ==_iff,
  Bool-cases, inl, inr, ◌⊎◌, some, List, [], ◌∷◌, arith, In,
}
use lacp.Types.{World}
use lacp.Statmch.{Machine, rx, sel, mux, tx, check_condition, round, change_state}
use lacp.Sys.{iterate_machines, check_callback, change_callback}
use lacp.Settle.Move.{same_machine}
use lacp.Settle.Energy.{energy, Move-energy}
use lacp.Settle.Loop.{
  SameCell, SameCell-refl, SameCell-trans, same_cell, IsTimed, Move-IsTimed, flag, Leaves,
  Move-Leaves, Leaves-refl, Leaves-trans, round-Move, hop-Move,
}

-- The loop of `lacp_change_state` ends with its flag down, if there is more fuel than energy.
pub change_state_ends :
    (fuel : ℕ) (m : Machine) (w : World) (i loops : ℕ)
    → IsTimed w
    → In i w.sys.ports
    → energy w < fuel
    → (v : World) × (n : ℕ) × (change_state fuel m w i loops ≡ some (v, n))
      × Leaves m i w v
      × (flag v m i ≡ false)
unfolding change_state
change_state_ends zero m w i loops t h e = absurd (omega arith)
change_state_ends (suc fuel) m w i loops t h e = elim (Bool-cases (flag w m i)) [
  | inr down ↦ (w, loops, rw (down, change_state), Leaves-refl m i w t, down)
  | inl up ↦
      let mv = round-Move m w i t h up in
      let (v, n, r, l, f) =
        change_state_ends fuel m (round m w i) i (loops + 1) (Move-IsTimed mv t) (rw mv.sys_same h)
          (omega (arith, Move-energy m i w (round m w i) mv h)) in
      (v, n, rw (up, change_state) r, Leaves-trans m i w (round m w i) v (Move-Leaves mv t h) l, f)
]

-- What a whole pass leaves.
pub record Settled (w v : World) : Type 0 where
  pub sys_kept : v.sys ≡ w.sys
  pub cells_kept : (j : ℕ) → SameCell w v j
  pub energy_kept : energy v ≤ energy w
  pub timed : IsTimed v
  pub calm : (k : Machine) (j : ℕ) → flag w k j ≡ false → flag v k j ≡ false

same_machine_sound : (k m : Machine) → same_machine k m ≡ true → k ≡ m
same_machine_sound k m h = ground arith

Leaves-Settled :
    (m : Machine) (i : ℕ) (w v : World) → Leaves m i w v → flag v m i ≡ false → Settled w v
Leaves-Settled m i w v l f = record {
  sys_kept = l.sys_kept;
  cells_kept = l.cells_kept;
  energy_kept = l.energy_kept;
  timed = l.timed;
  calm = λ k j d. elim (Bool-cases (same_machine k m && i == j)) [
    | inr e ↦ l.calm k j e d
    | inl e ↦
        subst (λ x. flag v x j ≡ false) (sym (same_machine_sound k m (ground arith)))
          (subst (λ x. flag v m x ≡ false) ((==_iff i j).0 (ground arith)) f)
  ];
}

Settled-refl : (w : World) → IsTimed w → Settled w w
Settled-refl w t = record {
  sys_kept = refl;
  cells_kept = SameCell-refl w;
  energy_kept = omega arith;
  timed = t;
  calm = λ k j d. d;
}

Settled-trans : (w v u : World) → Settled w v → Settled v u → Settled w u
Settled-trans w v u a b = record {
  sys_kept = b.sys_kept ∙ a.sys_kept;
  cells_kept = λ j. SameCell-trans w v u j (a.cells_kept j) (b.cells_kept j);
  energy_kept = omega (arith, a.energy_kept, b.energy_kept);
  timed = b.timed;
  calm = λ k j d. b.calm k j (a.calm k j d);
}

-- A property of every machine on a list.
abbrev pub All : (Machine → ℕ → Type 0) → List (Machine × ℕ) → Type 0
All P [] = Unit {0}
All P ((m, i) ∷ ms) = P m i × All P ms

pub All-map :
    {P Q : Machine → ℕ → Type 0} (ms : List (Machine × ℕ))
    → ((m : Machine) (i : ℕ) → P m i → Q m i)
    → All P ms
    → All Q ms
All-map [] f a = tt
All-map ((m, i) ∷ ms) f a = (f m i a.0, All-map ms f a.1)

-- The flag of every machine on the list is down.
abbrev pub Quiet : World → List (Machine × ℕ) → Type 0
Quiet w ms = All (λ m i. flag w m i ≡ false) ms

abbrev pub Inside : World → List (Machine × ℕ) → Type 0
Inside w ms = All (λ m i. In i w.sys.ports) ms

-- The pass with `lacp_change_state` brings every flag down.
pub change_pass :
    (fuel : ℕ) (ms : List (Machine × ℕ)) (w : World) (mret : ℕ)
    → IsTimed w
    → Inside w ms
    → energy w < fuel
    → (v : World) × (n : ℕ) × (iterate_machines (change_callback fuel) false ms w mret
        ≡ some (v, n))
      × Settled w v
      × Quiet v ms
unfolding iterate_machines
change_pass fuel [] w mret t a e = (w, mret, refl, Settled-refl w t, tt)
change_pass fuel ((m, i) ∷ ms) w mret t a e =
    let (u, k, r, l, f) = change_state_ends fuel m w i 0 t a.0 e in
    let s = Leaves-Settled m i w u l f in
    let (v, n, q, z, b) =
      change_pass fuel ms u (mret + k) s.timed (All-map ms (λ _ x p. rw s.sys_kept p) a.1)
        (omega (arith, s.energy_kept)) in
    (v, n, rw (r, iterate_machines) q, Settled-trans w u v s z, (z.calm m i f, b))

-- No machine on the list has to change.
abbrev pub Stable : World → List (Machine × ℕ) → Type 0
Stable w ms = All (λ m i. (check_condition m w i).1 ≡ false) ms

check_unchanged :
    (m : Machine) (w : World) (i : ℕ)
    → (check_condition m w i).1 ≡ false
    → (check_condition m w i).0 ≡ w
unfolding check_condition
check_unchanged rx w i h = ground arith
check_unchanged sel w i h = ground arith
check_unchanged mux w i h = ground arith
check_unchanged tx w i h = ground arith

-- A machine that does not hop is passed over.
check_next :
    (m : Machine) (i : ℕ) (ms : List (Machine × ℕ)) (w : World)
    → (check_condition m w i).1 ≡ false
    → iterate_machines check_callback true ((m, i) ∷ ms) w 0
      ≡ iterate_machines check_callback true ms w 0
unfolding iterate_machines
check_next m i ms w h =
    rw (h, iterate_machines)
      (rw h (ap (λ u. iterate_machines check_callback true ms u 0) (check_unchanged m w i h)))

-- The pass with `lacp_check_condition` finds that nothing has to change, or makes one hop.
pub check_pass :
    (ms : List (Machine × ℕ)) (w : World)
    → IsTimed w
    → Inside w ms
    → Quiet w ms
    → ((iterate_machines check_callback true ms w 0 ≡ some (w, 0)) × Stable w ms)
      ⊎ ((v : World) × (iterate_machines check_callback true ms w 0 ≡ some (v, 1))
          × (v.sys ≡ w.sys)
          × ((j : ℕ) → SameCell w v j)
          × (energy v < energy w)
          × IsTimed v)
unfolding iterate_machines
check_pass [] w t a q = inl (refl, tt)
check_pass ((m, i) ∷ ms) w t a q = elim (Bool-cases (check_condition m w i).1) [
  | inl hop ↦
      let mv = hop-Move m w i q.0 hop in
      inr (
        (check_condition m w i).0,
        rw (hop, iterate_machines) (rw hop),
        mv.sys_same,
        same_cell mv,
        Move-energy m i w (check_condition m w i).0 mv a.0,
        Move-IsTimed mv t,
      )
  | inr rest ↦ elim (check_pass ms w t a.1 q.1) [
    | inl (r, s) ↦ inl (check_next m i ms w rest ∙ r, (rest, s))
    | inr (v, r, y, c, e, z) ↦ inr (v, check_next m i ms w rest ∙ r, y, c, e, z)
  ]
]
