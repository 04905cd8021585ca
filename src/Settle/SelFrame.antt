-- ===== src/Settle/SelFrame.antt =====
-- lacp_sel.c: what the selection of an aggregation leaves alone in every port.
use lacp.Base.{
  ℕ, ◌≡◌, refl, ap, ◌∙◌, subst, true, false, ◌==◌, ==_iff, Bool-cases, inl, inr, Option, none, some,
  List, [], ◌∷◌, arith, update, update_self, In,
}
use lacp.Types.{Port, World}
use lacp.Sel.{
  update_keys, select_port, select_ports, select_master_port, update_agg_ports_select,
  selection_logic,
}
use lacp.Sel.Keys.{keys_round, update_keys-sys}
use lacp.Sel.Join.{Chosen}
use lacp.Sel.Loop.{select_round, select_round_sys, update_agg_ports_select-Chosen}
use lacp.Settle.Reads.{Reads}

pub record SelFrame (p q : Port) : Type 0 where
  pub reads : Reads p q
  pub mux_same : q.mux ≡ p.mux
  pub tx_same : q.tx ≡ p.tx
  pub still_selected : p.selected ≡ true → q.selected ≡ true

pub SelFrame-refl : (p : Port) → SelFrame p p
SelFrame-refl p = ground arith

SelFrame-trans : (p q r : Port) → SelFrame p q → SelFrame q r → SelFrame p r
SelFrame-trans p q r h k = ground arith

update-SelFrame :
    (c : ℕ → Port) (i j : ℕ) (p : Port) → SelFrame (c i) p → SelFrame (c j) (update c i p j)
update-SelFrame c i j p h = elim (Bool-cases (i == j)) [
  | inl e ↦ rw e (subst (λ k. SelFrame (c k) p) ((==_iff i j).0 e) h)
  | inr e ↦ rw e (SelFrame-refl (c j))
]

keys_round-SelFrame :
    (agg_id q : ℕ) (w : World) (j : ℕ) → SelFrame (w.cell j) ((keys_round agg_id q w).cell j)
keys_round-SelFrame agg_id q w j = elim (Bool-cases (agg_id == (w.cell q).agg_id)) [
  | inl e ↦ rw e (update-SelFrame w.cell q j _ (ground arith))
  | inr e ↦ rw e (SelFrame-refl (w.cell j))
]

update_keys-SelFrame :
    (agg_id : ℕ) (ps : List ℕ) (w : World) (j : ℕ)
    → SelFrame (w.cell j) ((update_keys agg_id ps w).cell j)
unfolding update_keys
update_keys-SelFrame agg_id [] w j = SelFrame-refl (w.cell j)
update_keys-SelFrame agg_id (q ∷ ps) w j =
    let v = keys_round agg_id q w in
    SelFrame-trans (w.cell j) (v.cell j) ((update_keys agg_id ps v).cell j)
      (keys_round-SelFrame agg_id q w j) (update_keys-SelFrame agg_id ps v j)

select_port-SelFrame :
    (w : World) (best : Option ℕ) (q j : ℕ) → SelFrame (w.cell j) ((select_port w best q).cell j)
unfolding select_port
select_port-SelFrame w none q j = update-SelFrame w.cell q j _ (ground arith)
select_port-SelFrame w (some b) q j = update-SelFrame w.cell q j _ (ground arith)

select_round-SelFrame :
    (agg_id : ℕ) (best : Option ℕ) (q : ℕ) (w : World) (j : ℕ)
    → SelFrame (w.cell j) ((select_round agg_id best q w).cell j)
select_round-SelFrame agg_id best q w j = elim (Bool-cases ((w.cell q).agg_id == agg_id)) [
  | inl e ↦ rw e (select_port-SelFrame w best q j)
  | inr e ↦ rw e (SelFrame-refl (w.cell j))
]

select_ports-SelFrame :
    (agg_id : ℕ) (best : Option ℕ) (ps : List ℕ) (w : World) (j : ℕ)
    → SelFrame (w.cell j) ((select_ports agg_id best ps w).cell j)
unfolding select_ports
select_ports-SelFrame agg_id best [] w j = SelFrame-refl (w.cell j)
select_ports-SelFrame agg_id best (q ∷ ps) w j =
    let v = select_round agg_id best q w in
    SelFrame-trans (w.cell j) (v.cell j) ((select_ports agg_id best ps v).cell j)
      (select_round-SelFrame agg_id best q w j) (select_ports-SelFrame agg_id best ps v j)

select_ports-sys :
    (agg_id : ℕ) (best : Option ℕ) (ps : List ℕ) (w : World)
    → (select_ports agg_id best ps w).sys ≡ w.sys
unfolding select_ports
select_ports-sys agg_id best [] w = refl
select_ports-sys agg_id best (q ∷ ps) w =
    select_ports-sys agg_id best ps (select_round agg_id best q w)
    ∙ select_round_sys w agg_id best q

agg-SelFrame :
    (w : World) (agg_id j : ℕ) → SelFrame (w.cell j) ((update_agg_ports_select w agg_id).cell j)
unfolding update_agg_ports_select select_master_port
agg-SelFrame w agg_id j =
    let v = update_keys agg_id w.sys.ports w in
    let best = (select_master_port w agg_id).1 in
    SelFrame-trans (w.cell j) (v.cell j) ((select_ports agg_id best v.sys.ports v).cell j)
      (update_keys-SelFrame agg_id w.sys.ports w j)
      (select_ports-SelFrame agg_id best v.sys.ports v j)

agg-sys : (w : World) (agg_id : ℕ) → (update_agg_ports_select w agg_id).sys ≡ w.sys
unfolding update_agg_ports_select select_master_port
agg-sys w agg_id =
    let v = update_keys agg_id w.sys.ports w in
    select_ports-sys agg_id (select_master_port w agg_id).1 v.sys.ports v
    ∙ update_keys-sys agg_id w.sys.ports w

pub selection_logic-SelFrame :
    (w : World) (i j : ℕ) → SelFrame (w.cell j) ((selection_logic w i).0.cell j)
unfolding selection_logic
selection_logic-SelFrame w i j = elim (Bool-cases (w.cell i).lacp_enabled) [
  | inr off ↦ rw off (update-SelFrame w.cell i j _ (ground arith))
  | inl on ↦ elim (Bool-cases ((w.cell i).agg_id == 0)) [
    | inl e ↦ rw (on, e) (SelFrame-refl (w.cell j))
    | inr e ↦ rw (on, e) (agg-SelFrame w (w.cell i).agg_id j)
  ]
]

pub selection_logic-sys : (w : World) (i : ℕ) → (selection_logic w i).0.sys ≡ w.sys
unfolding selection_logic
selection_logic-sys w i = ground (arith, agg-sys w (w.cell i).agg_id)

Chosen-selected :
    (cell : ℕ → Port) (ports : List ℕ) (p : ℕ) (best : Option ℕ)
    → Chosen cell ports p best
    → (cell p).selected ≡ true
Chosen-selected cell ports p none h = h.0
Chosen-selected cell ports p (some b) h = h.0

-- The selection machine leaves its own port selected, if a port with LACP on has an aggregation.
pub selection_logic-selected :
    (w : World) (i : ℕ)
    → In i w.sys.ports
    → ((w.cell i).lacp_enabled ≡ true → ((w.cell i).agg_id == 0) ≡ false)
    → ((selection_logic w i).0.cell i).selected ≡ true
unfolding selection_logic
selection_logic-selected w i m h = elim (Bool-cases (w.cell i).lacp_enabled) [
  | inr off ↦ rw off (ap (λ q. q.selected) (update_self w.cell i _))
  | inl on ↦
      rw (on, h on)
        (Chosen-selected (update_agg_ports_select w (w.cell i).agg_id).cell w.sys.ports i _
          (update_agg_ports_select-Chosen w (w.cell i).agg_id i m refl))
]
