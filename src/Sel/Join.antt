-- ===== src/Sel/Join.antt =====
-- lacp_sel.c: which ports of an aggregation join it, and what they agree on.
use lacp.Base.{
  ℕ, ◌≡◌, ◌≢◌, refl, sym, ap, ◌∙◌, subst, Bool, true, false, not, ◌&&◌, ◌==◌, ==_iff, Bool-cases,
  inl, inr, Option, none, some, arith, update, update_self, List, In,
}
use lacp.Types.{Port, World, mac_eq}
use lacp.Sel.{partners_aport, may_join, select_port}
use lacp.Sel.Loopback.{LoopsTo, looped, unlooped}

-- A port and its master speak with the same partner system under the same keys, all four sides are
-- aggregatable, and the port does not loop to one that comes before it.
pub record Agrees (cell : ℕ → Port) (ports : List ℕ) (p b : Port) : Type 0 where
  pub enabled : p.port_enabled ≡ true
  pub lacp : p.lacp_enabled ≡ true
  pub actor_key : p.actor.key ≡ b.actor.key
  pub system_priority : p.partner.system_priority ≡ b.partner.system_priority
  pub system_mac : mac_eq p.partner.system_mac b.partner.system_mac ≡ true
  pub partner_key : p.partner.key ≡ b.partner.key
  pub actor_agg : p.actor.state.aggregation ≡ true
  pub partner_agg : p.partner.state.aggregation ≡ true
  pub master_agg : b.actor.state.aggregation ≡ true
  pub master_partner_agg : b.partner.state.aggregation ≡ true
  pub no_loop : (j : ℕ) → In j ports → LoopsTo p (cell j) → ⊥

apart : {b : Bool} → b ≡ true → b ≡ false → ⊥
apart p q = cc

may_join-Agrees : (w : World) (p b : Port) → may_join w p b ≡ true → Agrees w.cell w.sys.ports p b
unfolding may_join
may_join-Agrees w p b h =
    let f : partners_aport w.cell w.sys.ports p ≡ false = ground (arith, h) in
    record {
      enabled = ground (arith, h);
      lacp = ground (arith, h);
      actor_key = ground (arith, h);
      system_priority = ground (arith, h);
      system_mac = ground (arith, h);
      partner_key = ground (arith, h);
      actor_agg = ground (arith, h);
      partner_agg = ground (arith, h);
      master_agg = ground (arith, h);
      master_partner_agg = ground (arith, h);
      no_loop = λ j i l. apart (looped w.cell w.sys.ports p j i l) f;
    }

both : (a b : Bool) → a ≡ true → b ≡ true → (a && b) ≡ true
both a b p q = rw p q

Agrees-may_join : (w : World) (p b : Port) → Agrees w.cell w.sys.ports p b → may_join w p b ≡ true
unfolding may_join
Agrees-may_join w p b g =
    both _ _
      (both _ _
        (both _ _
          (both _ _
            (both _ _
              (both _ _
                (both _ _
                  (both _ _ (both _ _ (both _ _ g.enabled g.lacp) ((==_iff _ _).1 g.actor_key))
                    ((==_iff _ _).1 g.system_priority))
                  g.system_mac)
                ((==_iff _ _).1 g.partner_key))
              g.actor_agg)
            g.partner_agg)
          g.master_agg)
        g.master_partner_agg)
      (ap not (unlooped w.cell w.sys.ports p g.no_loop))

-- What the selection leaves in the port `p`, for the master port that it found.
abbrev pub Chosen : (ℕ → Port) → List ℕ → ℕ → Option ℕ → Type 0
Chosen cell ports p none =
    ((cell p).selected ≡ true) × ((cell p).standby ≡ true) × ((cell p).master_port ≡ p)
Chosen cell ports p (some b) =
    ((cell p).selected ≡ true)
    × ((cell p).master_port ≡ b)
    × ((cell p).standby ≡ false → Agrees cell ports (cell p) (cell b))
    × (Agrees cell ports (cell p) (cell b) → (cell p).standby ≡ false)

not-false : (b : Bool) → not b ≡ false → b ≡ true
not-false true h = refl
not-false false h = cc

pub not_eq : (a b : ℕ) → a ≢ b → (a == b) ≡ false
not_eq a b h = ground arith

-- What the loop never writes, and its tests read.
pub record SameCore (p q : Port) : Type 0 where
  pub same_actor : q.actor ≡ p.actor
  pub same_partner : q.partner ≡ p.partner
  pub same_enabled : q.port_enabled ≡ p.port_enabled
  pub same_lacp : q.lacp_enabled ≡ p.lacp_enabled
  pub same_agg : q.agg_id ≡ p.agg_id

pub SameCore-refl : (p : Port) → SameCore p p
SameCore-refl p = record {
  same_actor = refl;
  same_partner = refl;
  same_enabled = refl;
  same_lacp = refl;
  same_agg = refl;
}

SameCore-trans : (p q r : Port) → SameCore p q → SameCore q r → SameCore p r
SameCore-trans p q r h k = ground arith

SameCore-sym : (p q : Port) → SameCore p q → SameCore q p
SameCore-sym p q h = record {
  same_actor = sym h.same_actor;
  same_partner = sym h.same_partner;
  same_enabled = sym h.same_enabled;
  same_lacp = sym h.same_lacp;
  same_agg = sym h.same_agg;
}

LoopsTo-core : (p q a b : Port) → SameCore p q → SameCore a b → LoopsTo p a → LoopsTo q b
LoopsTo-core p q a b h k l = record {
  same_group = h.same_agg ∙ l.same_group ∙ sym k.same_agg;
  its_priority = rw (h.same_partner, k.same_actor) l.its_priority;
  its_mac = rw (h.same_partner, k.same_actor) l.its_mac;
  its_key = rw (h.same_partner, k.same_actor) l.its_key;
  its_number = rw (h.same_partner, k.same_actor) l.its_number;
  comes_before = rw (h.same_actor, k.same_actor) l.comes_before;
}

pub Agrees-core :
    (cell cell' : ℕ → Port) (ports : List ℕ)
    → ((j : ℕ) → SameCore (cell j) (cell' j))
    → (p b : ℕ) → Agrees cell ports (cell p) (cell b)
    → Agrees cell' ports (cell' p) (cell' b)
Agrees-core cell cell' ports same p b g =
    let h = same p in
    let k = same b in
    record {
      enabled = rw h.same_enabled g.enabled;
      lacp = rw h.same_lacp g.lacp;
      actor_key = rw (h.same_actor, k.same_actor) g.actor_key;
      system_priority = rw (h.same_partner, k.same_partner) g.system_priority;
      system_mac = rw (h.same_partner, k.same_partner) g.system_mac;
      partner_key = rw (h.same_partner, k.same_partner) g.partner_key;
      actor_agg = rw h.same_actor g.actor_agg;
      partner_agg = rw h.same_partner g.partner_agg;
      master_agg = rw k.same_actor g.master_agg;
      master_partner_agg = rw k.same_partner g.master_partner_agg;
      no_loop = λ j i l. g.no_loop j i (
          LoopsTo-core (cell' p) (cell p) (cell' j) (cell j) (SameCore-sym _ _ h)
            (SameCore-sym _ _ (same j)) l);
    }

-- Agreeing is not touched by a loop that writes nothing of what it reads.
pub Agrees-back :
    (cell cell' : ℕ → Port) (ports : List ℕ)
    → ((j : ℕ) → SameCore (cell j) (cell' j))
    → (p b : ℕ) → Agrees cell' ports (cell' p) (cell' b)
    → Agrees cell ports (cell p) (cell b)
Agrees-back cell cell' ports same =
    Agrees-core cell' cell ports (λ j. SameCore-sym (cell j) (cell' j) (same j))

update-SameCore :
    (cell : ℕ → Port) (i j : ℕ) (p : Port)
    → SameCore (cell i) p
    → SameCore (cell j) (update cell i p j)
update-SameCore cell i j p h = elim (Bool-cases (i == j)) [
  | inl e ↦ rw e (subst (λ k. SameCore (cell k) p) ((==_iff i j).0 e) h)
  | inr e ↦ rw e (SameCore-refl (cell j))
]

pub select_port-SameCore :
    (w : World) (best : Option ℕ) (q j : ℕ) → SameCore (w.cell j) ((select_port w best q).cell j)
unfolding select_port
select_port-SameCore w none q j = update-SameCore w.cell q j _ (ground arith)
select_port-SameCore w (some b) q j = update-SameCore w.cell q j _ (ground arith)

pub select_port-Chosen :
    (w : World) (p : ℕ) (best : Option ℕ) → Chosen (select_port w best p).cell w.sys.ports p best
unfolding select_port
select_port-Chosen w p none = rw (update_self w.cell p _) (refl, refl, refl)
select_port-Chosen w p (some b) =
    let same = select_port-SameCore w (some b) p in
    let cell' = (select_port w (some b) p).cell in
    let wrote : (cell' p).standby ≡ not (may_join w (w.cell p) (w.cell b)) =
      ap (λ q. q.standby) (update_self w.cell p _) in
    (
      ap (λ q. q.selected) (update_self w.cell p _),
      ap (λ q. q.master_port) (update_self w.cell p _),
      λ h. Agrees-core w.cell cell' w.sys.ports same p b (
          may_join-Agrees w (w.cell p) (w.cell b)
            (not-false (may_join w (w.cell p) (w.cell b)) (sym wrote ∙ h))),
      λ g.
          wrote
          ∙ ap not (
              Agrees-may_join w (w.cell p) (w.cell b)
                (Agrees-back w.cell cell' w.sys.ports same p b g)),
    )
