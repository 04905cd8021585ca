-- ===== src/Live/Joined.antt =====
-- lacp_api.c and trunk_api.c: a port that is configured to join an aggregation.
use lacp.Base.{
  ℕ, suc, ◌<◌, ◌≡◌, refl, sym, ap, ◌∙◌, subst, Bool, true, false, not, ◌==◌, ==_iff, Bool-cases,
  inl, inr, if◌then◌else◌, Option, none, some, In, arith, update_self,
}
use lacp.Types.{World, Port, Outcome, returns, crashes, runs_out, modify_port, Stub, u16}
use lacp.Stub.{get_port_priority}
use lacp.Ssp.{get_global_index}
use lacp.Port.{port_set_reselect}
use lacp.Create.{port_find}
use lacp.Settle.Loop.{SameCell, SameCell-trans}
use lacp.Api.{
  PortCfg, port_max, in_bitmap, join_agg, cfg_state, cfg_cost, cfg_stat, cfg_prio, cfg_port,
  set_agg_flag, set_agg_id, set_lacp_enabled, set_priority,
}
use lacp.Events.{set_link}
use lacp.Trunk.{one_port, enable_cfg, port_get_prio}
use lacp.Live.{Returns, Returns-some, Returns-else, IsReady}
use lacp.Live.Calls.{reselect-SameCell, reselect_sys}
use lacp.Live.Config.{joined_agg}
use lacp.Live.OnePort.{in_one_port}

-- A port of the list, while the other ports and the link groups are as they were.
pub record Listed (w : World) (i : ℕ) (v : World) : Type 0 where
  pub is_ready : IsReady v
  pub listed : In i v.sys.ports
  pub others : (j : ℕ) → (i == j) ≡ false → SameCell w v j
  pub groups : v.stub.link_groups ≡ w.stub.link_groups

-- With LACP on, and in an aggregation.
pub record Joined (w : World) (i a : ℕ) (v : World) : Type 0 where
  pub at_port : Listed w i v
  pub lacp_on : (v.cell i).lacp_enabled ≡ true
  pub in_agg : (v.cell i).agg_id ≡ a

modify_other :
    (w : World) (i j : ℕ) (f : Port → Port) → (i == j) ≡ false → SameCell w (modify_port w i f) j
modify_other w i j f e = rw e (refl, refl, refl)

pub modify_same :
    (w : World) (i j : ℕ) (f : Port → Port)
    → ((p : Port) → ((f p).lacp_enabled ≡ p.lacp_enabled) × ((f p).agg_id ≡ p.agg_id))
    → SameCell w (modify_port w i f) j
modify_same w i j f h = elim (Bool-cases (i == j)) [
  | inl e ↦
      subst (λ x. SameCell w (modify_port w i f) x) ((==_iff i j).0 e)
        (subst
          (λ p.
            (p.lacp_enabled ≡ (w.cell i).lacp_enabled)
            × (p.agg_id ≡ (w.cell i).agg_id)
            × (w.stub.link_groups ≡ w.stub.link_groups))
          (sym (update_self w.cell i (f (w.cell i)))) ((h (w.cell i)).0, (h (w.cell i)).1, refl))
  | inr e ↦ modify_other w i j f e
]

pub Listed-then :
    (w u v : World) (i : ℕ)
    → Listed w i u
    → IsReady v
    → v.sys ≡ u.sys
    → ((j : ℕ) → (i == j) ≡ false → SameCell u v j)
    → Listed w i v
Listed-then w u v i l r e h = record {
  is_ready = r;
  listed = subst (λ s. In i s.ports) (sym e) l.listed;
  others = λ j d. SameCell-trans w u v j (l.others j d) (h j d);
  groups = (h (suc i) (ground arith)).2 ∙ l.groups;
}

pub Joined-then :
    (w u v : World) (i a : ℕ)
    → Joined w i a u
    → IsReady v
    → v.sys ≡ u.sys
    → ((j : ℕ) → SameCell u v j)
    → Joined w i a v
Joined-then w u v i a l r e h = record {
  at_port = Listed-then w u v i l.at_port r e (λ j _. h j);
  lacp_on = (h i).0 ∙ l.lacp_on;
  in_agg = (h i).1 ∙ l.in_agg;
}

-- What holds of the same result, together.
pub both_hold :
    {A : Type 0} (m : Outcome A) (P Q : A → Type 0)
    → Returns m P
    → Returns m Q
    → Returns m (λ a. P a × Q a)
both_hold (returns a) P Q p q = (p, q)
both_hold crashes P Q p q = p
both_hold runs_out P Q p q = p

pub else_only : {R : Type 0} (c : Bool) (m n : R) → c ≡ false → (if c then m else n) ≡ n
else_only true m n e = cc
else_only false m n e = refl

pub then_only : {R : Type 0} (c : Bool) (m n : R) → c ≡ true → (if c then m else n) ≡ m
then_only true m n e = refl
then_only false m n e = cc

itself : (i : ℕ) → (i == i) ≡ true
itself i = ground arith

pub has_prio :
    (s : Stub) (slot port i : ℕ)
    → get_global_index slot port ≡ some i
    → port_get_prio s slot port ≡ none
    → ⊥
unfolding port_get_prio
has_prio s slot port i e n = inner (get_port_priority s i) (
    subst
      (λ g.
        ◌≡◌ {A = Option ℕ}
          (elim g [
            | none ↦ none
            | some k ↦ elim (get_port_priority s k) [ none ↦ some 16384 | some prio ↦ some prio ]
          ])
          none)
      e n)
  where
    inner :
        (o : Option ℕ)
        → ◌≡◌ {A = Option ℕ} (elim o [ none ↦ some 16384 | some prio ↦ some prio ]) none
        → ⊥
    inner none h = cc
    inner (some p) h = cc

abbrev clear_stat : Port → Port
clear_stat p = record p { rx_lacpdu_cnt = 0; tx_lacpdu_cnt = 0 }

-- At one port: LACP is on, in the aggregation, and the other ports are as they were.
abbrev pub Set : World → ℕ → ℕ → World → Type 0
Set v i agg_id x =
    ((x.cell i).lacp_enabled ≡ true)
    × (((x.cell i).agg_id ≡ agg_id) × ((j : ℕ) → (i == j) ≡ false → SameCell v x j))

module _ (v : World) (i agg_id prio : ℕ) where
  cfg : PortCfg
  cfg = enable_cfg i agg_id prio

  turned_on : World
  turned_on = modify_port (join_agg cfg v i) i (set_lacp_enabled true)

  turned_on-Set : Set v i agg_id turned_on
  unfolding turned_on cfg join_agg
  turned_on-Set =
      let u = modify_port v i (set_agg_flag true) in
      let x = modify_port u i (set_agg_id agg_id) in
      let y = port_set_reselect x (some i) in
      (
        ap (λ p. p.lacp_enabled) (update_self y.cell i (set_lacp_enabled true (y.cell i))),
        (
          ap (λ p. p.agg_id) (update_self y.cell i (set_lacp_enabled true (y.cell i)))
              ∙ joined_agg (enable_cfg i agg_id prio) v i,
          λ j d. SameCell-trans v u turned_on j (modify_other v i j (set_agg_flag true) d) (
              SameCell-trans u x turned_on j (modify_other u i j (set_agg_id agg_id) d) (
                SameCell-trans x y turned_on j (reselect-SameCell x i j)
                  (modify_other y i j (set_lacp_enabled true) d))),
        ),
      )

  turned_on_sys : turned_on.sys ≡ v.sys
  unfolding turned_on join_agg
  turned_on_sys = reselect_sys _ i

  finish : World → World
  finish x = cfg_prio cfg (cfg_stat cfg (cfg_cost cfg x i) i) i

  -- The rest of the loop's body.
  finish_same : (x : World) → ((finish x).sys ≡ x.sys) × ((j : ℕ) → SameCell x (finish x) j)
  unfolding finish cfg cfg_prio cfg_stat cfg_cost
  finish_same x =
      let a = port_set_reselect x (some i) in
      let b = modify_port a i clear_stat in
      let c = modify_port b i (set_priority (u16 prio)) in
      (
        reselect_sys c i ∙ reselect_sys x i,
        λ j. SameCell-trans x a (finish x) j (reselect-SameCell x i j) (
            SameCell-trans a b (finish x) j (modify_same a i j clear_stat (λ p. (refl, refl))) (
              SameCell-trans b c (finish x) j
                (modify_same b i j (set_priority (u16 prio)) (λ p. (refl, refl)))
                (reselect-SameCell c i j))),
      )

  all_set : ((finish turned_on).sys ≡ v.sys) × Set v i agg_id (finish turned_on)
  all_set =
      let (e, h) = finish_same turned_on in
      let (on, (at, o)) = turned_on-Set in
      (
        e ∙ turned_on_sys,
        (
          (h i).0 ∙ on,
          ((h i).1 ∙ at, λ j d. SameCell-trans v turned_on (finish turned_on) j (o j d) (h j)),
        ),
      )

pub found : (v : World) (i : ℕ) → In i v.sys.ports → port_find v i ≡ some i
unfolding port_find
found v i h = rw h refl

pub set_at_port :
    (fuel : ℕ) (v : World) (i agg_id prio : ℕ)
    → i < port_max
    → In i v.sys.ports
    → Returns
        (cfg_port fuel (enable_cfg i agg_id prio) v i)
        (λ x. (x.sys ≡ v.sys) × Set v i agg_id x)
unfolding cfg_port cfg_state finish turned_on cfg
set_at_port fuel v i agg_id prio b h =
    Returns-else (not (in_bitmap (one_port i) i)) _ _ _
      (ap not (in_one_port i i (omega (arith, b)) ∙ itself i))
      (Returns-some (port_find v i) i _ _ _ (found v i h) (all_set v i agg_id prio))

pub set_link_same :
    (w : World) (up : Bool) (i : ℕ) (p : Port)
    → ((set_link w up i p).lacp_enabled ≡ p.lacp_enabled) × ((set_link w up i p).agg_id ≡ p.agg_id)
unfolding set_link
set_link_same w up i p = (ground arith, ground arith)
