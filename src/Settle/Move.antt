-- ===== src/Settle/Move.antt =====
-- lacp_statmch.c: a move is what one machine does to the system by a hop, or by entering a state
-- and checking its conditions.
use lacp.Base.{ℕ, ◌<◌, ◌≤◌, ◌≡◌, refl, Bool, true, false, ◌==◌, arith}
use lacp.Types.{LacpSys, Port, World}
use lacp.Statmch.{Machine, rx, sel, mux, tx, change_state_of}
use lacp.Settle.{rx_potential, sel_potential, mux_potential, tx_potential}

abbrev pub potential : Machine → LacpSys → Port → ℕ
potential rx sys p = rx_potential p
potential sel sys p = sel_potential p
potential mux sys p = mux_potential p
potential tx sys p = tx_potential sys p

-- The order rx, sel, mux, tx: a machine never raises the potential of one before it.
abbrev pub upto : Machine → Machine → Bool
upto rx _ = true
upto sel rx = false
upto sel _ = true
upto mux tx = true
upto mux mux = true
upto mux _ = false
upto tx tx = true
upto tx _ = false

abbrev pub same_machine : Machine → Machine → Bool
same_machine rx rx = true
same_machine sel sel = true
same_machine mux mux = true
same_machine tx tx = true
same_machine _ _ = false

-- What the machine `m` of the port `p` does to that port.
pub record OwnMove (m : Machine) (sys : LacpSys) (p q : Port) : Type 0 where
  pub lacp_same : q.lacp_enabled ≡ p.lacp_enabled
  pub agg_same : q.agg_id ≡ p.agg_id
  pub falls : potential m sys q < potential m sys p
  pub keeps : (k : Machine) → upto k m ≡ true → potential k sys q ≤ potential k sys p
  pub flags : (k : Machine) → same_machine k m ≡ false → change_state_of k q ≡ change_state_of k p

-- What the machine `m` of another port does to the port `p`.
pub record OtherMove (m : Machine) (sys : LacpSys) (p q : Port) : Type 0 where
  pub lacp_same : q.lacp_enabled ≡ p.lacp_enabled
  pub agg_same : q.agg_id ≡ p.agg_id
  pub keeps : (k : Machine) → upto k m ≡ true → potential k sys q ≤ potential k sys p
  pub flags : (k : Machine) → change_state_of k q ≡ change_state_of k p

pub record Move (m : Machine) (i : ℕ) (w v : World) : Type 0 where
  pub sys_same : v.sys ≡ w.sys
  pub groups_same : v.stub.link_groups ≡ w.stub.link_groups
  pub own : OwnMove m w.sys (w.cell i) (v.cell i)
  pub others : (j : ℕ) → (i == j) ≡ false → OtherMove m w.sys (w.cell j) (v.cell j)

pub OtherMove-refl : (m : Machine) (sys : LacpSys) (p : Port) → OtherMove m sys p p
OtherMove-refl m sys p = record {
  lacp_same = refl;
  agg_same = refl;
  keeps = λ k u. omega arith;
  flags = λ k. refl;
}
