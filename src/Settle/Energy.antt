-- ===== src/Settle/Energy.antt =====
-- The energy of a system: the potentials of all its machines, those of a machine before those of
-- the machines after it. Every move lowers it.
use lacp.Base.{
  ℕ, ◌+◌, ◌*◌, ◌<◌, ◌≤◌, ◌≡◌, refl, sym, subst, Bool, true, false, ◌==◌, ==_iff, Bool-cases, inl,
  inr, if◌then◌else◌, List, [], ◌∷◌, arith, In, length,
}
use lacp.Types.{LacpSys, Port, World, RxState, SelState, MuxState, TxState}
use lacp.Statmch.{Machine, rx, sel, mux, tx}
use lacp.Settle.{rx_value, sel_value, mux_rank, tx_open_value, tx_blocked_value, tx_blocked}
use lacp.Settle.Move.{Move, potential, upto}

-- The sum of a number over the ports of a list.
abbrev total : (Port → ℕ) → List ℕ → (ℕ → Port) → ℕ
total f [] cell = 0
total f (p ∷ ps) cell = f (cell p) + total f ps cell

total-le :
    (f : Port → ℕ) (ps : List ℕ) (c d : ℕ → Port)
    → ((j : ℕ) → f (d j) ≤ f (c j))
    → total f ps d ≤ total f ps c
total-le f [] c d h = omega arith
total-le f (p ∷ ps) c d h = omega (arith, h p, total-le f ps c d h)

total-lt :
    (f : Port → ℕ) (ps : List ℕ) (c d : ℕ → Port) (i : ℕ)
    → In i ps
    → ((j : ℕ) → f (d j) ≤ f (c j))
    → f (d i) < f (c i)
    → total f ps d < total f ps c
total-lt f [] c d i m h k = cc
total-lt f (p ∷ ps) c d i m h k = elim (Bool-cases (p == i)) [
  | inl e ↦
      omega (arith, subst (λ x. f (d x) < f (c x)) (sym ((==_iff p i).0 e)) k, total-le f ps c d h)
  | inr e ↦ omega (arith, h p, total-lt f ps c d i (ground arith) h k)
]

total-bound :
    (f : Port → ℕ) (ps : List ℕ) (c : ℕ → Port)
    → ((p : Port) → f p ≤ 15)
    → total f ps c ≤ 15 * length ps
total-bound f [] c h = omega arith
total-bound f (p ∷ ps) c h = omega (arith, h (c p), total-bound f ps c h)

rx_value_bound : (s : RxState) (c : Bool) (p : Port) → rx_value s c p ≤ 15
rx_value_bound RxState.begin true p = ground arith
rx_value_bound RxState.begin false p = ground arith
rx_value_bound RxState.initialize true p = ground arith
rx_value_bound RxState.initialize false p = ground arith
rx_value_bound RxState.port_disabled true p = ground arith
rx_value_bound RxState.port_disabled false p = ground arith
rx_value_bound RxState.lacp_disabled true p = ground arith
rx_value_bound RxState.lacp_disabled false p = ground arith
rx_value_bound RxState.expired true p = ground arith
rx_value_bound RxState.expired false p = ground arith
rx_value_bound RxState.defaulted true p = ground arith
rx_value_bound RxState.defaulted false p = ground arith
rx_value_bound RxState.current true p = ground arith
rx_value_bound RxState.current false p = ground arith

sel_value_bound : (s : SelState) (c b : Bool) → sel_value s c b ≤ 15
sel_value_bound SelState.begin c b = ground arith
sel_value_bound SelState.init c b = ground arith
sel_value_bound SelState.selection true b = ground arith
sel_value_bound SelState.selection false b = ground arith

mux_rank_bound : (s : MuxState) (p : Port) → mux_rank s p ≤ 6
mux_rank_bound MuxState.begin p = ground arith
mux_rank_bound MuxState.disable p = ground arith
mux_rank_bound MuxState.detached p = ground arith
mux_rank_bound MuxState.waiting p = ground arith
mux_rank_bound MuxState.ready_n p = ground arith
mux_rank_bound MuxState.attached p = ground arith
mux_rank_bound MuxState.rx_tx p = ground arith

bit_bound : (c : Bool) → (if c then 1 else 0) ≤ 1
bit_bound c = ground arith

tx_open_bound : (s : TxState) (c : Bool) (sys : LacpSys) (p : Port) → tx_open_value s c sys p ≤ 15
tx_open_bound TxState.begin c sys p = ground arith
tx_open_bound TxState.no_periodic c sys p = ground arith
tx_open_bound TxState.periodic_tx true sys p = ground arith
tx_open_bound TxState.periodic_tx false sys p = ground arith
tx_open_bound TxState.idle c sys p = ground arith
tx_open_bound TxState.tx true sys p = ground arith
tx_open_bound TxState.tx false sys p = ground arith

tx_blocked_bound : (s : TxState) (c : Bool) → tx_blocked_value s c ≤ 15
tx_blocked_bound TxState.no_periodic c = ground arith
tx_blocked_bound _ c = ground arith

choice_bound : (b : Bool) (m n : ℕ) → m ≤ 15 → n ≤ 15 → (if b then m else n) ≤ 15
choice_bound true m n h k = h
choice_bound false m n h k = k

potential_bound : (m : Machine) (sys : LacpSys) (p : Port) → potential m sys p ≤ 15
potential_bound rx sys p = rx_value_bound p.rx.state p.rx.change_state p
potential_bound sel sys p = sel_value_bound p.sel.state p.sel.change_state p.selected
potential_bound mux sys p =
    omega (arith, mux_rank_bound p.mux.state p, bit_bound p.mux.change_state)
potential_bound tx sys p =
    choice_bound (tx_blocked p) _ _ (tx_blocked_bound p.tx.state p.tx.change_state)
      (tx_open_bound p.tx.state p.tx.change_state sys p)

-- Three digits over a last one, in a base above each.
abbrev mix : ℕ → ℕ → ℕ → ℕ → ℕ → ℕ
mix k a b c d = ((a * k + b) * k + c) * k + d

digit_falls : (k a a' b b' : ℕ) → a' < a → b' < k → a' * k + b' < a * k + b
digit_falls k a a' b b' h l = grind arith

digit_below : (k a l b : ℕ) → a < l → b < k → a * k + b < l * k
digit_below k a l b h m = grind arith

-- The base for a system of `n` ports.
abbrev pub base_of : ℕ → ℕ
base_of n = 16 * n + 1

abbrev sum : Machine → LacpSys → (ℕ → Port) → ℕ
sum m sys cell = total (potential m sys) sys.ports cell

pub energy_at : LacpSys → (ℕ → Port) → ℕ
energy_at sys cell =
    mix (base_of (length sys.ports)) (sum rx sys cell) (sum sel sys cell) (sum mux sys cell)
      (sum tx sys cell)

abbrev pub energy : World → ℕ
energy w = energy_at w.sys w.cell

sum_bound :
    (m : Machine) (sys : LacpSys) (cell : ℕ → Port) → sum m sys cell < base_of (length sys.ports)
sum_bound m sys cell =
    omega (arith, total-bound (potential m sys) sys.ports cell (potential_bound m sys))

-- The fuel that is enough for a system of `n` ports.
abbrev pub enough : ℕ → ℕ
enough n = base_of n * base_of n * base_of n * base_of n

digit_lt : (k a a' b b' : ℕ) → a' ≤ a → b' < b → a' * k + b' < a * k + b
digit_lt k a a' b b' h l = grind arith

digit_le : (k a a' b b' : ℕ) → a' ≤ a → b' ≤ b → a' * k + b' ≤ a * k + b
digit_le k a a' b b' h l = grind arith

below : (k a b c d : ℕ) → a < k → b < k → c < k → d < k → mix k a b c d < k * k * k * k
below k a b c d ha hb hc hd =
    digit_below k _ (k * k * k) d (digit_below k _ (k * k) c (digit_below k a k b ha hb) hc) hd

own_or_other :
    {m : Machine} {i : ℕ} {w v : World} (k : Machine) (j : ℕ)
    → Move m i w v
    → upto k m ≡ true
    → potential k w.sys (v.cell j) ≤ potential k w.sys (w.cell j)
own_or_other {m} {i} {w} {v} k j mv u = elim (Bool-cases (i == j)) [
  | inl e ↦
      subst (λ x. potential k w.sys (v.cell x) ≤ potential k w.sys (w.cell x)) ((==_iff i j).0 e)
        (mv.own.keeps k u)
  | inr e ↦ (mv.others j e).keeps k u
]

sum_keeps :
    {m : Machine} {i : ℕ} {w v : World} (k : Machine)
    → Move m i w v
    → upto k m ≡ true
    → sum k w.sys v.cell ≤ sum k w.sys w.cell
sum_keeps {w} {v} k mv u =
    total-le (potential k w.sys) w.sys.ports w.cell v.cell (λ j. own_or_other k j mv u)

upto_self : (m : Machine) → upto m m ≡ true
upto_self rx = refl
upto_self sel = refl
upto_self mux = refl
upto_self tx = refl

sum_falls :
    {m : Machine} {i : ℕ} {w v : World}
    → Move m i w v
    → In i w.sys.ports
    → sum m w.sys v.cell < sum m w.sys w.cell
sum_falls {m} {i} {w} {v} mv h =
    total-lt (potential m w.sys) w.sys.ports w.cell v.cell i h
      (λ j. own_or_other m j mv (upto_self m)) mv.own.falls

at_falls :
    (m : Machine) (i : ℕ) (w v : World)
    → Move m i w v
    → In i w.sys.ports
    → energy_at w.sys v.cell < energy_at w.sys w.cell
unfolding energy_at
at_falls rx i w v mv h =
    let k = base_of (length w.sys.ports) in
    digit_falls k _ _ _ _
      (digit_falls k _ _ _ _ (digit_falls k _ _ _ _ (sum_falls mv h) (sum_bound sel w.sys v.cell))
        (sum_bound mux w.sys v.cell))
      (sum_bound tx w.sys v.cell)
at_falls sel i w v mv h =
    let k = base_of (length w.sys.ports) in
    digit_falls k _ _ _ _
      (digit_falls k _ _ _ _ (digit_lt k _ _ _ _ (sum_keeps rx mv refl) (sum_falls mv h))
        (sum_bound mux w.sys v.cell))
      (sum_bound tx w.sys v.cell)
at_falls mux i w v mv h =
    let k = base_of (length w.sys.ports) in
    digit_falls k _ _ _ _
      (digit_lt k _ _ _ _ (digit_le k _ _ _ _ (sum_keeps rx mv refl) (sum_keeps sel mv refl))
        (sum_falls mv h))
      (sum_bound tx w.sys v.cell)
at_falls tx i w v mv h =
    let k = base_of (length w.sys.ports) in
    digit_lt k _ _ _ _
      (digit_le k _ _ _ _ (digit_le k _ _ _ _ (sum_keeps rx mv refl) (sum_keeps sel mv refl))
        (sum_keeps mux mv refl))
      (sum_falls mv h)

-- A move of a machine of the system lowers the energy.
pub Move-energy :
    (m : Machine) (i : ℕ) (w v : World) → Move m i w v → In i w.sys.ports → energy v < energy w
Move-energy m i w v mv h = rw mv.sys_same (at_falls m i w v mv h)

-- The energy is below the fuel that is enough.
pub energy_bound : (w : World) → energy w < enough (length w.sys.ports)
unfolding energy_at
energy_bound w =
    let k = base_of (length w.sys.ports) in
    below k (sum rx w.sys w.cell) (sum sel w.sys w.cell) (sum mux w.sys w.cell)
      (sum tx w.sys w.cell) (sum_bound rx w.sys w.cell) (sum_bound sel w.sys w.cell)
      (sum_bound mux w.sys w.cell) (sum_bound tx w.sys w.cell)
