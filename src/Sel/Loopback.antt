-- ===== src/Sel/Loopback.antt =====
-- lacp_sel.c: the test `partners_aport`, against what it looks for.
use lacp.Base.{
  ℕ, ◌<◌, ◌≡◌, refl, sym, subst, ◌⊎◌, inl, inr, true, false, ◌==◌, ==_iff, Bool-cases, List, [],
  ◌∷◌, In, arith,
}
use lacp.Types.{Port, mac_eq}
use lacp.Sel.{is_aport, partners_aport}

-- The partner of `p`, as `p` knows it, is the port `q` of the same aggregation, which comes before
-- `p` by priority and number: the link goes back to this system.
pub record LoopsTo (p q : Port) : Type 0 where
  pub same_group : p.agg_id ≡ q.agg_id
  pub its_priority : q.actor.system_priority ≡ p.partner.system_priority
  pub its_mac : mac_eq q.actor.system_mac p.partner.system_mac ≡ true
  pub its_key : q.actor.key ≡ p.partner.key
  pub its_number : q.actor.port_no ≡ p.partner.port_no
  pub comes_before :
      (q.actor.port_priority < p.actor.port_priority)
      ⊎ ((q.actor.port_priority ≡ p.actor.port_priority) × (q.actor.port_no < p.actor.port_no))

is_aport-LoopsTo : (p q : Port) → p.agg_id ≡ q.agg_id → is_aport q p ≡ true → LoopsTo p q
unfolding is_aport
is_aport-LoopsTo p q a h = record {
  same_group = a;
  its_priority = ground (arith, h);
  its_mac = ground (arith, h);
  its_key = ground (arith, h);
  its_number = ground (arith, h);
  comes_before = ground (arith, h);
}

LoopsTo-is_aport : (p q : Port) → LoopsTo p q → is_aport q p ≡ true
unfolding is_aport
LoopsTo-is_aport p q l =
    let f = l.comes_before in
    rw
      (
        (==_iff _ _).1 l.its_priority,
        l.its_mac,
        (==_iff _ _).1 l.its_key,
        (==_iff _ _).1 l.its_number,
      )
      (ground (arith, f))

pub looped :
    (cell : ℕ → Port) (ps : List ℕ) (p : Port) (j : ℕ)
    → In j ps
    → LoopsTo p (cell j)
    → partners_aport cell ps p ≡ true
unfolding partners_aport
looped cell [] p j h l = cc
looped cell (k ∷ ps) p j h l = elim (Bool-cases (k == j)) [
  | inl e ↦
      let l' : LoopsTo p (cell k) = subst (λ x. LoopsTo p (cell x)) (sym ((==_iff k j).0 e)) l in
      rw ((==_iff _ _).1 l'.same_group, LoopsTo-is_aport p (cell k) l') refl
  | inr e ↦ ground (arith, looped cell ps p j (ground (arith, h, e)) l)
]

pub unlooped :
    (cell : ℕ → Port) (ps : List ℕ) (p : Port)
    → ((j : ℕ) → In j ps → LoopsTo p (cell j) → ⊥)
    → partners_aport cell ps p ≡ false
unfolding partners_aport
unlooped cell [] p h = refl
unlooped cell (k ∷ ps) p h =
    let rest = unlooped cell ps p (λ j i. h j (ground (arith, i))) in
    elim (Bool-cases (p.agg_id == (cell k).agg_id)) [
      | inr e ↦ rw (e, rest) refl
      | inl e ↦ elim (Bool-cases (is_aport (cell k) p)) [
        | inl t ↦ absurd (h k (ground arith) (is_aport-LoopsTo p (cell k) ((==_iff _ _).0 e) t))
        | inr f ↦ rw (e, f, rest) refl
      ]
    ]
