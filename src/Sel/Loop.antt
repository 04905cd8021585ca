-- ===== src/Sel/Loop.antt =====
-- lacp_sel.c: the selection of an aggregation as a whole, over all its ports.
use lacp.Base.{
  ℕ, ◌≡◌, ◌≢◌, refl, sym, ap, ◌∙◌, subst, false, not, ◌==◌, ==_iff, Bool-cases, inl, inr,
  if◌then◌else◌, Option, none, some, List, [], ◌∷◌, arith, In,
}
use lacp.Types.{Port, World, mac_eq_sound}
use lacp.Sel.{update_keys, select_master_port, select_port, select_ports, update_agg_ports_select}
use lacp.Sel.Keys.{update_keys-agg_id, update_keys-sys}
use lacp.Sel.Join.{
  Agrees, SameCore, SameCore-refl, Agrees-core, Agrees-back, Chosen, select_port-SameCore,
  select_port-Chosen, not_eq,
}

-- One round of the loop over the ports.
abbrev pub select_round : ℕ → Option ℕ → ℕ → World → World
select_round agg_id best q w = if not ((w.cell q).agg_id == agg_id) then w else select_port w best q

select_round-SameCore :
    (w : World) (agg_id : ℕ) (best : Option ℕ) (q j : ℕ)
    → SameCore (w.cell j) ((select_round agg_id best q w).cell j)
select_round-SameCore w agg_id best q j = elim (Bool-cases ((w.cell q).agg_id == agg_id)) [
  | inl e ↦ rw e (select_port-SameCore w best q j)
  | inr e ↦ rw e (SameCore-refl (w.cell j))
]

select_port_other :
    (w : World) (best : Option ℕ) (q p : ℕ)
    → (q == p) ≡ false
    → (select_port w best q).cell p ≡ w.cell p
unfolding select_port
select_port_other w none q p h = rw h
select_port_other w (some b) q p h = rw h

select_port_sys : (w : World) (best : Option ℕ) (q : ℕ) → (select_port w best q).sys ≡ w.sys
unfolding select_port
select_port_sys w none q = refl
select_port_sys w (some b) q = refl

pub select_round_sys :
    (w : World) (agg_id : ℕ) (best : Option ℕ) (q : ℕ) → (select_round agg_id best q w).sys ≡ w.sys
select_round_sys w agg_id best q = elim (Bool-cases ((w.cell q).agg_id == agg_id)) [
  | inl e ↦ rw e (select_port_sys w best q)
  | inr e ↦ rw e refl
]

-- A choice stands while others are chosen: what it rests on is never written.
Chosen-keep :
    (cell cell' : ℕ → Port) (ports : List ℕ) (p : ℕ) (best : Option ℕ)
    → cell' p ≡ cell p
    → ((j : ℕ) → SameCore (cell j) (cell' j))
    → Chosen cell ports p best
    → Chosen cell' ports p best
Chosen-keep cell cell' ports p none e same h = rw e h
Chosen-keep cell cell' ports p (some b) e same (s, m, g, k) = (
  ap (λ x. x.selected) e ∙ s,
  ap (λ x. x.master_port) e ∙ m,
  λ u. Agrees-core cell cell' ports same p b (g (sym (ap (λ x. x.standby) e) ∙ u)),
  λ u. ap (λ x. x.standby) e ∙ k (Agrees-back cell cell' ports same p b u),
)

module _ (agg_id : ℕ) (best : Option ℕ) (ports : List ℕ) where
  select_round-keeps :
      (w : World) (q p : ℕ)
      → w.sys.ports ≡ ports
      → Chosen w.cell ports p best
      → Chosen (select_round agg_id best q w).cell ports p best
  select_round-keeps w q p n h = elim (Bool-cases ((w.cell q).agg_id == agg_id)) [
    | inr e ↦ rw e h
    | inl e ↦ rw e (elim (Bool-cases (q == p)) [
      | inl i ↦
          subst (λ k. Chosen (select_port w best q).cell ports k best) ((==_iff q p).0 i)
            (subst (λ l. Chosen (select_port w best q).cell l q best) n
              (select_port-Chosen w q best))
      | inr i ↦
          Chosen-keep w.cell (select_port w best q).cell ports p best
            (select_port_other w best q p i) (select_port-SameCore w best q) h
    ])
  ]

  next_ports :
      (w : World) (q : ℕ) → w.sys.ports ≡ ports → (select_round agg_id best q w).sys.ports ≡ ports
  next_ports w q n = ap (λ s. s.ports) (select_round_sys w agg_id best q) ∙ n

  select_ports-keeps :
      (ps : List ℕ) (w : World) (p : ℕ)
      → w.sys.ports ≡ ports
      → Chosen w.cell ports p best
      → Chosen (select_ports agg_id best ps w).cell ports p best
  unfolding select_ports
  select_ports-keeps [] w p n h = h
  select_ports-keeps (q ∷ ps) w p n h =
      select_ports-keeps ps (select_round agg_id best q w) p (next_ports w q n)
        (select_round-keeps w q p n h)

  select_ports-covers :
      (ps : List ℕ) (w : World) (p : ℕ)
      → w.sys.ports ≡ ports
      → In p ps
      → (w.cell p).agg_id ≡ agg_id
      → Chosen (select_ports agg_id best ps w).cell ports p best
  unfolding select_ports
  select_ports-covers [] w p n i a = cc
  select_ports-covers (q ∷ ps) w p n i a = elim (Bool-cases (q == p)) [
    | inl e ↦ select_ports-keeps ps (select_round agg_id best q w) p (next_ports w q n) (
        subst (λ k. Chosen (select_round agg_id best k w).cell ports p best)
          (sym ((==_iff q p).0 e))
          (rw ((==_iff (w.cell p).agg_id agg_id).1 a) (
            subst (λ l. Chosen (select_port w best p).cell l p best) n
              (select_port-Chosen w p best))))
    | inr e ↦
        select_ports-covers ps (select_round agg_id best q w) p (next_ports w q n) (ground arith)
          ((select_round-SameCore w agg_id best q p).same_agg ∙ a)
  ]

select_round_outside :
    (w : World) (agg_id : ℕ) (best : Option ℕ) (q p : ℕ)
    → (w.cell p).agg_id ≢ agg_id
    → (select_round agg_id best q w).cell p ≡ w.cell p
select_round_outside w agg_id best q p a = elim (Bool-cases ((w.cell q).agg_id == agg_id)) [
  | inr e ↦ rw e
  | inl e ↦ rw e (
      select_port_other w best q p (
        not_eq q p (λ i.
          a (subst (λ k. (w.cell k).agg_id ≡ agg_id) i ((==_iff (w.cell q).agg_id agg_id).0 e)))))
]

select_ports_outside :
    (agg_id : ℕ) (best : Option ℕ) (ps : List ℕ) (w : World) (p : ℕ)
    → (w.cell p).agg_id ≢ agg_id
    → (select_ports agg_id best ps w).cell p ≡ w.cell p
unfolding select_ports
select_ports_outside agg_id best [] w p a = refl
select_ports_outside agg_id best (q ∷ ps) w p a =
    let e = select_round_outside w agg_id best q p a in
    select_ports_outside agg_id best ps (select_round agg_id best q w) p (rw e a) ∙ e

Agrees-pair :
    (cell : ℕ → Port) (ports : List ℕ) (p q b : Port)
    → Agrees cell ports p b
    → Agrees cell ports q b
    → (p.actor.key ≡ q.actor.key)
      × (p.partner.key ≡ q.partner.key)
      × (p.partner.system_priority ≡ q.partner.system_priority)
      × (p.partner.system_mac ≡ q.partner.system_mac)
Agrees-pair cell ports p q b g h = (
  g.actor_key ∙ sym h.actor_key,
  g.partner_key ∙ sym h.partner_key,
  g.system_priority ∙ sym h.system_priority,
  mac_eq_sound _ _ g.system_mac ∙ sym (mac_eq_sound _ _ h.system_mac),
)

Chosen-pair :
    (cell : ℕ → Port) (ports : List ℕ) (p q : ℕ) (best : Option ℕ)
    → Chosen cell ports p best
    → Chosen cell ports q best
    → (cell p).standby ≡ false
    → (cell q).standby ≡ false
    → ((cell p).actor.key ≡ (cell q).actor.key)
      × ((cell p).partner.key ≡ (cell q).partner.key)
      × ((cell p).partner.system_priority ≡ (cell q).partner.system_priority)
      × ((cell p).partner.system_mac ≡ (cell q).partner.system_mac)
Chosen-pair cell ports p q none g h sp sq = cc (sym g.1 ∙ sp)
Chosen-pair cell ports p q (some b) (_, _, g, _) (_, _, h, _) sp sq =
    Agrees-pair cell ports (cell p) (cell q) (cell b) (g sp) (h sq)

-- After the selection of an aggregation, each of its ports is selected. With a master port found
-- by `select_master_port`, each points to it, and is off standby exactly if its link is up, LACP is
-- on, its own key, its partner's system and its partner's key are those of the master, it and its
-- partner and the master and the master's partner are all aggregatable, and its partner is no port
-- of the same aggregation that comes before it. Without a master, each is on standby and its own
-- master.
pub update_agg_ports_select-Chosen :
    (w : World) (agg_id p : ℕ)
    → In p w.sys.ports
    → (w.cell p).agg_id ≡ agg_id
    → Chosen (update_agg_ports_select w agg_id).cell w.sys.ports p (select_master_port w agg_id).1
unfolding update_agg_ports_select select_master_port
update_agg_ports_select-Chosen w agg_id p i a =
    let v = update_keys agg_id w.sys.ports w in
    let e = update_keys-sys agg_id w.sys.ports w in
    select_ports-covers agg_id (select_master_port w agg_id).1 w.sys.ports v.sys.ports v p
      (ap (λ s. s.ports) e) (rw e i) (update_keys-agg_id agg_id w.sys.ports w p ∙ a)

-- Two ports of one aggregation that are both off standby after its selection have one and the same
-- actor key, partner key, partner system priority and partner system address.
pub joined_same_partner :
    (w : World) (agg_id p q : ℕ)
    → In p w.sys.ports
    → In q w.sys.ports
    → (w.cell p).agg_id ≡ agg_id
    → (w.cell q).agg_id ≡ agg_id
    → let cell = (update_agg_ports_select w agg_id).cell in
      (cell p).standby ≡ false
      → (cell q).standby ≡ false
      → ((cell p).actor.key ≡ (cell q).actor.key)
        × ((cell p).partner.key ≡ (cell q).partner.key)
        × ((cell p).partner.system_priority ≡ (cell q).partner.system_priority)
        × ((cell p).partner.system_mac ≡ (cell q).partner.system_mac)
joined_same_partner w agg_id p q ip iq ap_ aq sp sq =
    Chosen-pair (update_agg_ports_select w agg_id).cell w.sys.ports p q
      (select_master_port w agg_id).1 (update_agg_ports_select-Chosen w agg_id p ip ap_)
      (update_agg_ports_select-Chosen w agg_id q iq aq) sp sq
