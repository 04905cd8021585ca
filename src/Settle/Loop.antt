-- ===== src/Settle/Loop.antt =====
-- lacp_statmch.c and lacp_sys.c: the conditions under which the loops of
-- `lacp_change_state` and `lacp_sys_update` are studied, and what a round leaves of a system.
use lacp.Base.{
  ℕ, ◌<◌, ◌≤◌, ◌≡◌, refl, sym, ◌∙◌, subst, Bool, true, false, ◌&&◌, ◌==◌, ==_iff, Bool-cases, inl,
  inr, arith, In,
}
use lacp.Types.{World}
use lacp.Statmch.{Machine, rx, sel, mux, tx, change_state_of, check_condition, round}
use lacp.Settle.Move.{Move, same_machine}
use lacp.Settle.Energy.{energy, Move-energy}
use lacp.Settle.RxFalls.{rx_round-Move, rx_hop-Move}
use lacp.Settle.SelFalls.{sel_round-Move, sel_hop-Move}
use lacp.Settle.MuxFalls.{mux_round-Move, mux_hop-Move}
use lacp.Settle.TxFalls.{tx_round-Move, tx_hop-Move}

-- What the loops need: timeouts and periods that are not 0, and an aggregation for each port on
-- which LACP is on.
pub record IsTimed (w : World) : Type 0 where
  pub short_timeout : 0 < w.sys.short_timeout_time
  pub long_timeout : 0 < w.sys.long_timeout_time
  pub slow_period : 0 < w.sys.slow_periodic_time
  pub fast_period : 0 < w.sys.fast_periodic_time
  pub has_agg : (j : ℕ) → (w.cell j).lacp_enabled ≡ true → ((w.cell j).agg_id == 0) ≡ false

-- Whether LACP is on in a port, its aggregation, and the link groups of the switch are as they
-- were.
abbrev pub SameCell : World → World → ℕ → Type 0
SameCell w v j =
    ((v.cell j).lacp_enabled ≡ (w.cell j).lacp_enabled)
    × ((v.cell j).agg_id ≡ (w.cell j).agg_id)
    × (v.stub.link_groups ≡ w.stub.link_groups)

pub SameCell-refl : (w : World) (j : ℕ) → SameCell w w j
SameCell-refl w j = (refl, refl, refl)

pub SameCell-trans : (w v u : World) (j : ℕ) → SameCell w v j → SameCell v u j → SameCell w u j
SameCell-trans w v u j (a, b, g) (c, d, h) = (c ∙ a, d ∙ b, h ∙ g)

pub same_cell : {m : Machine} {i : ℕ} {w v : World} → Move m i w v → (j : ℕ) → SameCell w v j
same_cell {m} {i} {w} {v} mv j = elim (Bool-cases (i == j)) [
  | inl e ↦
      subst
        (λ x.
          ((v.cell x).lacp_enabled ≡ (w.cell x).lacp_enabled)
          × ((v.cell x).agg_id ≡ (w.cell x).agg_id)
          × (v.stub.link_groups ≡ w.stub.link_groups))
        ((==_iff i j).0 e) (mv.own.lacp_same, mv.own.agg_same, mv.groups_same)
  | inr e ↦ ((mv.others j e).lacp_same, (mv.others j e).agg_same, mv.groups_same)
]

pub Move-IsTimed : {m : Machine} {i : ℕ} {w v : World} → Move m i w v → IsTimed w → IsTimed v
Move-IsTimed {w} {v} mv t = record {
  short_timeout = rw mv.sys_same t.short_timeout;
  long_timeout = rw mv.sys_same t.long_timeout;
  slow_period = rw mv.sys_same t.slow_period;
  fast_period = rw mv.sys_same t.fast_period;
  has_agg = λ j h. rw ((same_cell mv j).1) (t.has_agg j (sym (same_cell mv j).0 ∙ h));
}

abbrev pub flag : World → Machine → ℕ → Bool
flag w m i = change_state_of m (w.cell i)

pub round-Move :
    (m : Machine) (w : World) (i : ℕ)
    → IsTimed w
    → In i w.sys.ports
    → flag w m i ≡ true
    → Move m i w (round m w i)
round-Move rx w i t h c = rx_round-Move w i t.short_timeout t.long_timeout c
round-Move sel w i t h c = sel_round-Move w i h (t.has_agg i) c
round-Move mux w i t h c = mux_round-Move w i c
round-Move tx w i t h c = tx_round-Move w i t.slow_period t.fast_period c

pub hop-Move :
    (m : Machine) (w : World) (i : ℕ)
    → flag w m i ≡ false
    → (check_condition m w i).1 ≡ true
    → Move m i w (check_condition m w i).0
hop-Move rx w i c h = rx_hop-Move w i c h
hop-Move sel w i c h = sel_hop-Move w i c h
hop-Move mux w i c h = mux_hop-Move w i c h
hop-Move tx w i c h = tx_hop-Move w i c h

Move-calm :
    {m : Machine} {i : ℕ} {w v : World}
    → Move m i w v
    → (k : Machine) (j : ℕ) → (same_machine k m && i == j) ≡ false
    → flag v k j ≡ flag w k j
Move-calm {m} {i} {w} {v} mv k j e = elim (Bool-cases (i == j)) [
  | inl q ↦ subst (λ x. flag v k x ≡ flag w k x) ((==_iff i j).0 q) (mv.own.flags k (ground arith))
  | inr q ↦ (mv.others j q).flags k
]

-- What a part of the work leaves: the same system, no more energy, no flag raised but perhaps
-- that of the machine `m` of the port `i`.
pub record Leaves (m : Machine) (i : ℕ) (w v : World) : Type 0 where
  pub sys_kept : v.sys ≡ w.sys
  pub cells_kept : (j : ℕ) → SameCell w v j
  pub energy_kept : energy v ≤ energy w
  pub timed : IsTimed v
  pub calm :
      (k : Machine) (j : ℕ)
      → (same_machine k m && i == j) ≡ false
      → flag w k j ≡ false
      → flag v k j ≡ false

pub Move-Leaves :
    {m : Machine} {i : ℕ} {w v : World}
    → Move m i w v
    → IsTimed w
    → In i w.sys.ports
    → Leaves m i w v
Move-Leaves {m} {i} {w} {v} mv t h = record {
  sys_kept = mv.sys_same;
  cells_kept = same_cell mv;
  energy_kept = omega (arith, Move-energy m i w v mv h);
  timed = Move-IsTimed mv t;
  calm = λ k j e q. Move-calm mv k j e ∙ q;
}

pub Leaves-refl : (m : Machine) (i : ℕ) (w : World) → IsTimed w → Leaves m i w w
Leaves-refl m i w t = record {
  sys_kept = refl;
  cells_kept = SameCell-refl w;
  energy_kept = omega arith;
  timed = t;
  calm = λ k j e q. q;
}

pub Leaves-trans :
    (m : Machine) (i : ℕ) (w v u : World) → Leaves m i w v → Leaves m i v u → Leaves m i w u
Leaves-trans m i w v u a b = record {
  sys_kept = b.sys_kept ∙ a.sys_kept;
  cells_kept = λ j. SameCell-trans w v u j (a.cells_kept j) (b.cells_kept j);
  energy_kept = omega (arith, a.energy_kept, b.energy_kept);
  timed = b.timed;
  calm = λ k j e q. b.calm k j e (a.calm k j e q);
}
