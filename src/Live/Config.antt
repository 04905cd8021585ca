-- ===== src/Live/Config.antt =====
-- lacp_api.c: the configuration of ports and of the system, in a system that is ready.
use lacp.Base.{
  ℕ, zero, suc, ◌+◌, ◌≤◌, ◌<◌, ◌≡◌, refl, sym, ap, ◌∙◌, subst, Bool, true, false, not, ◌==◌, ==_iff,
  Bool-cases, inl, inr, if◌then◌else◌, some, List, [], ◌∷◌, arith, update_self,
}
use lacp.Types.{World, Port, Outcome, returns, ◌>>=◌, modify_port}
use lacp.Statmch.{Machine, change_state_of}
use lacp.Port.{port_set_reselect}
use lacp.Create.{port_find}
use lacp.Sys.{update}
use lacp.Settle.Energy.{enough}
use lacp.Api.{
  PortCfg, port_max, for_ports, has_field, in_bitmap, join_agg, leave_agg, cfg_state, cfg_cost,
  cfg_stat, cfg_prio, cfg_port, port_set_cfg, set_agg_flag, set_agg_id, set_lacp_enabled,
  set_priority,
}
use lacp.Events.{SysCfg, set_sys, refresh_port, port_update_info, sys_set_cfg}
use lacp.Live.{
  same_flags, Returns, Returns-bind, Returns-map, Returns-if, Returns-option, IsReady, Mild,
  Mild-refl, Mild-trans, MildSys, MildSys-refl, mild-IsReady, modify-Mild, modify-IsReady,
  if-IsReady,
}
use lacp.Live.Update.{update-IsReady}
use lacp.Live.Calls.{same-Mild, reselect-IsReady, reselect-SameCell, updated}

-- A loop over the indices from `i` on, whose body keeps a property.
pub for_ports-Returns :
    (body : World → ℕ → Outcome World) (P : World → Type 0) (bound : ℕ)
    → ((w : World) (k : ℕ) → k < bound → P w → Returns (body w k) P)
    → (left i : ℕ) (w : World) → i + left ≤ bound
    → P w
    → Returns (for_ports body left i w) P
unfolding for_ports
for_ports-Returns body P bound step zero i w b h = h
for_ports-Returns body P bound step (suc left) i w b h =
    Returns-bind (body w i) (λ v. for_ports body left (i + 1) v) P P (step w i (omega arith) h)
      (λ v k. for_ports-Returns body P bound step left (i + 1) v (omega arith) k)

-- Two changes of one port.
modify_twice-Mild :
    (w : World) (i : ℕ) (f g : Port → Port)
    → Mild (w.cell i) (g (f (w.cell i)))
    → (j : ℕ) → Mild (w.cell j) ((modify_port (modify_port w i f) i g).cell j)
modify_twice-Mild w i f g h j = elim (Bool-cases (i == j)) [
  | inl e ↦
      subst (λ x. Mild (w.cell x) ((modify_port (modify_port w i f) i g).cell x)) ((==_iff i j).0 e)
        (subst (Mild (w.cell i))
          (sym (
            update_self (modify_port w i f).cell i (g ((modify_port w i f).cell i))
            ∙ ap g (update_self w.cell i (f (w.cell i)))))
          h)
  | inr e ↦ rw e (Mild-refl (w.cell j))
]

-- With LACP off a port may be in any aggregation.
off-Mild :
    (p q : Port)
    → ((m : Machine) → change_state_of m q ≡ change_state_of m p)
    → q.lacp_enabled ≡ false
    → Mild p q
off-Mild p q f e = record { flags = f; has_agg = λ h k. cc }

set_agg_id-Mild : (a : ℕ) (p : Port) → (a == 0) ≡ false → Mild p (set_agg_id a p)
set_agg_id-Mild a p h = record { flags = same_flags p _ refl refl refl refl; has_agg = λ _ _. h }

joined-IsReady :
    (cfg : PortCfg) (w : World) (i : ℕ)
    → (cfg.agg_id == 0) ≡ false
    → IsReady w
    → IsReady (join_agg cfg w i)
unfolding join_agg
joined-IsReady cfg w i a r =
    let u = modify_port w i (set_agg_flag true) in
    reselect-IsReady (modify_port u i (set_agg_id cfg.agg_id)) i (
      modify-IsReady u i (set_agg_id cfg.agg_id) (set_agg_id-Mild cfg.agg_id (u.cell i) a)
        (modify-IsReady w i (set_agg_flag true) (same-Mild _ _ refl refl refl refl refl refl) r))

pub joined_agg :
    (cfg : PortCfg) (w : World) (i : ℕ) → ((join_agg cfg w i).cell i).agg_id ≡ cfg.agg_id
unfolding join_agg
joined_agg cfg w i =
    let u = modify_port w i (set_agg_flag true) in
    (reselect-SameCell (modify_port u i (set_agg_id cfg.agg_id)) i i).1
    ∙ ap (λ p. p.agg_id) (update_self u.cell i (set_agg_id cfg.agg_id (u.cell i)))

turned_on-Mild : (p : Port) → (p.agg_id == 0) ≡ false → Mild p (set_lacp_enabled true p)
turned_on-Mild p h = record { flags = same_flags p _ refl refl refl refl; has_agg = λ _ _. h }

turned_off-Mild : (p : Port) → Mild p (set_lacp_enabled false (set_agg_id 0 p))
turned_off-Mild p = off-Mild p _ (same_flags p _ refl refl refl refl) refl

abbrev clear_stat : Port → Port
clear_stat p = record p { rx_lacpdu_cnt = 0; tx_lacpdu_cnt = 0 }

-- The end of `leave_agg`, from the system before the port's aggregation is set to 0.
abbrev cleared : World → ℕ → World
cleared v i = modify_port (port_set_reselect v (some i)) i (set_agg_id 0)

abbrev Left : World → ℕ → Type 0
Left x i = (y : World) × (IsReady y × (x ≡ modify_port y i (set_agg_id 0)))

module _ (fuel : ℕ) (enough_fuel : enough port_max ≤ fuel) where
  -- `PT_CFG_STATE`, for either value of `lacp_enabled`.
  state-IsReady :
      (on : Bool) (cfg : PortCfg) (w : World) (i : ℕ)
      → (on ≡ true → (cfg.agg_id == 0) ≡ false)
      → IsReady w
      → Returns
          ((if on then returns (join_agg cfg w i) else leave_agg fuel w i) >>= λ v.
            returns (modify_port v i (set_lacp_enabled on)))
          IsReady
  unfolding leave_agg
  state-IsReady true cfg w i a r =
      modify-IsReady (join_agg cfg w i) i (set_lacp_enabled true)
        (turned_on-Mild ((join_agg cfg w i).cell i)
          (ap (λ n. n == 0) (joined_agg cfg w i) ∙ a refl))
        (joined-IsReady cfg w i (a refl) r)
  state-IsReady false cfg w i a r =
      let u = modify_port w i (λ p. set_agg_flag false (record p { ntt = true })) in
      let k : IsReady u =
        modify-IsReady w i (λ p. set_agg_flag false (record p { ntt = true }))
          (same-Mild _ _ refl refl refl refl refl refl) r in
      Returns-bind (update fuel u >>= λ v. returns (cleared v i)) _ (λ x. Left x i) IsReady
        (Returns-bind (update fuel u) _ IsReady (λ x. Left x i) (updated fuel u enough_fuel k)
          (λ v q. (port_set_reselect v (some i), (reselect-IsReady v i q, refl))))
        (λ x (y, (q, e)).
          subst (λ z. IsReady (modify_port z i (set_lacp_enabled false))) (sym e)
            (mild-IsReady y _ (MildSys-refl y.sys)
              (modify_twice-Mild y i (set_agg_id 0) (set_lacp_enabled false)
                (turned_off-Mild (y.cell i)))
              q))

  cfg_state-IsReady :
      (cfg : PortCfg) (w : World) (i : ℕ)
      → (cfg.lacp_enabled ≡ true → (cfg.agg_id == 0) ≡ false)
      → IsReady w
      → Returns (cfg_state fuel cfg w i) IsReady
  unfolding cfg_state
  cfg_state-IsReady cfg w i a r =
      Returns-if (has_field cfg.field_mask 1) _ _ IsReady
        (λ _. state-IsReady cfg.lacp_enabled cfg w i a r) (λ _. r)

  pub cfg_port-IsReady :
      (cfg : PortCfg) (w : World) (i : ℕ)
      → (cfg.lacp_enabled ≡ true → (cfg.agg_id == 0) ≡ false)
      → IsReady w
      → Returns (cfg_port fuel cfg w i) IsReady
  unfolding cfg_port cfg_cost cfg_stat cfg_prio
  cfg_port-IsReady cfg w i a r =
      Returns-if (not (in_bitmap cfg.port_bmp i)) _ _ IsReady (λ _. r)
        (λ _.
          Returns-option (port_find w i) _ _ IsReady (λ _. r)
            (λ p _.
              Returns-bind (cfg_state fuel cfg w p) _ IsReady IsReady
                (cfg_state-IsReady cfg w p a r)
                (λ v k.
                  let u = cfg_cost cfg v p in
                  let x = cfg_stat cfg u p in
                  let ready_u : IsReady u =
                    if-IsReady (has_field cfg.field_mask 2) _ v (λ _. reselect-IsReady v p k)
                      (λ _. k) in
                  let ready_x : IsReady x =
                    if-IsReady (has_field cfg.field_mask 8) _ u
                      (λ _.
                        modify-IsReady u p clear_stat (same-Mild _ _ refl refl refl refl refl refl)
                          ready_u)
                      (λ _. ready_u) in
                  if-IsReady (has_field cfg.field_mask 4) _ x
                    (λ _. reselect-IsReady (modify_port x p (set_priority cfg.port_priority)) p (
                      modify-IsReady x p (set_priority cfg.port_priority)
                        (same-Mild _ _ refl refl refl refl refl refl) ready_x))
                    (λ _. ready_x))))

  -- `lacp_port_set_cfg`, if it turns ports on only in an aggregation.
  pub port_set_cfg-IsReady :
      (cfg : PortCfg) (w : World)
      → (cfg.lacp_enabled ≡ true → (cfg.agg_id == 0) ≡ false)
      → IsReady w
      → Returns (port_set_cfg fuel cfg w) IsReady
  unfolding port_set_cfg
  port_set_cfg-IsReady cfg w a r =
      Returns-bind (for_ports (cfg_port fuel cfg) port_max 0 w) _ IsReady IsReady
        (for_ports-Returns (cfg_port fuel cfg) IsReady port_max
          (λ v k _. cfg_port-IsReady cfg v k a) port_max 0 w (omega arith) r)
        (λ v k. updated fuel v enough_fuel k)

refresh-Mild : (ps : List ℕ) (w : World) (j : ℕ) → Mild (w.cell j) ((port_update_info ps w).cell j)
unfolding port_update_info
refresh-Mild [] w j = Mild-refl (w.cell j)
refresh-Mild (p ∷ ps) w j =
    Mild-trans _ _ _
      (modify-Mild w p (refresh_port w.sys) (same-Mild _ _ refl refl refl refl refl refl) j)
      (refresh-Mild ps (modify_port w p (refresh_port w.sys)) j)

refresh_sys : (ps : List ℕ) (w : World) → (port_update_info ps w).sys ≡ w.sys
unfolding port_update_info
refresh_sys [] w = refl
refresh_sys (p ∷ ps) w = refresh_sys ps (modify_port w p (refresh_port w.sys))

-- `lacp_sys_set_cfg` that changes one setting of the system.
pub sys_set_cfg-IsReady :
    (fuel : ℕ) (cfg : SysCfg) (w : World)
    → enough port_max ≤ fuel
    → has_field cfg.field_mask 1 ≡ false
    → has_field cfg.field_mask 2 ≡ false
    → MildSys w.sys (set_sys cfg w.sys)
    → IsReady w
    → Returns (sys_set_cfg fuel cfg w) (λ v. IsReady v × (v.sys ≡ set_sys cfg w.sys))
unfolding sys_set_cfg
sys_set_cfg-IsReady fuel cfg w f a d m r =
    let v = record w { sys = set_sys cfg w.sys } in
    let u = port_update_info v.sys.ports v in
    rw (a, d)
      (Returns-map (update fuel u) _ _
        (update-IsReady fuel u f (
          mild-IsReady w u (subst (MildSys w.sys) (sym (refresh_sys v.sys.ports v)) m)
            (refresh-Mild v.sys.ports v) r))
        (λ x (k, e, _). (k, e ∙ refresh_sys v.sys.ports v)))
