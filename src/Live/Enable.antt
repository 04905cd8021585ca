-- ===== src/Live/Enable.antt =====
-- trunk_api.c: `trunk_port_lacp_enable`.
use lacp.Base.{
  ◌-◌, ◌+◌, update as update_at, ℕ, ◌≤◌, ◌<◌, ◌≡◌, refl, sym, ap, ◌∙◌, true, false, not, ◌==◌,
  Bool-cases, inl, inr, some, In, elem, arith, if◌then◌else◌,
}
use lacp.Types.{World, returns, modify_port, u32}
use lacp.Stub.{set_pbmp, db_agg_add_member, db_agg_get_port_tid}
use lacp.Stub.Pbmp.{IsSlotPort, same}
use lacp.Stub.Members.{AreGroups, tid_groups, db_agg_get_port_tid-db_agg_add_member}
use lacp.Ssp.{get_global_index, get_port_link_status}
use lacp.Port.{port_set_reselect}
use lacp.Create.{port_find, port_create}
use lacp.Sys.{update}
use lacp.Settle.Energy.{enough}
use lacp.Settle.Loop.{SameCell, SameCell-trans}
use lacp.Api.{port_max, for_ports, in_bitmap, cfg_port, port_set_cfg, create_port, create_ports}
use lacp.Events.{set_link, port_link_change}
use lacp.Trunk.{one_port, enable_cfg, add_member, port_get_prio, port_lacp_enable}
use lacp.Live.{
  modify-IsReady, restub-IsReady, Returns, Returns-bind, Returns-map, Returns-if, Returns-some,
  Returns-option, IsReady,
}
use lacp.Live.Update.{update-IsReady}
use lacp.Live.Calls.{reselect-IsReady, set_link-Mild, reselect-SameCell, reselect_sys}
use lacp.Live.Config.{cfg_port-IsReady}
use lacp.Live.Setup.{create_port-IsReady}
use lacp.Live.OnePort.{for_one, in_one_port}
use lacp.Live.Joined.{
  Listed, Joined, modify_same, Listed-then, Joined-then, both_hold, else_only, then_only, has_prio,
  Set, found, set_at_port, set_link_same,
}

module _ (fuel : ℕ) (enough_fuel : enough port_max ≤ fuel) where
  created :
      (w : World) (i : ℕ)
      → i < port_max
      → IsReady w
      → Returns (create_port (one_port i) w i) (Listed w i)
  unfolding create_port port_create
  created w i b r =
      Returns-map (create_port (one_port i) w i) _ _
        (both_hold (create_port (one_port i) w i) IsReady
          (λ v.
            In i v.sys.ports
            × ((j : ℕ) → (i == j) ≡ false → SameCell w v j)
            × (v.stub.link_groups ≡ w.stub.link_groups))
          (create_port-IsReady (one_port i) w i b r)
          (Returns-if (in_bitmap (one_port i) i) _ _ _
            (λ _. elim (Bool-cases (elem i w.sys.ports)) [
              | inl h ↦ rw h (h, λ j d. (refl, refl, refl), refl)
              | inr h ↦ rw h (ground arith, λ j d. rw d (refl, refl, refl), refl)
            ])
            (λ c. absurd (no_skip (sym c ∙ in_one_port i i (omega (arith, b)) ∙ ground arith)))))
        (λ v (k, (n, o, g)). record { is_ready = k; listed = n; others = o; groups = g })
    where
      no_skip : false ≡ true → ⊥
      no_skip e = cc

  ports_created :
      (w : World) (i : ℕ)
      → i < port_max
      → IsReady w
      → Returns (create_ports fuel (one_port i) w) (Listed w i)
  unfolding create_ports create_port
  ports_created w i b r =
      Returns-bind (for_ports (create_port (one_port i)) port_max 0 w) (update fuel) (Listed w i)
        (Listed w i)
        (for_one (create_port (one_port i)) i (Listed w i)
          (λ v k d.
            else_only (in_bitmap (one_port i) k) _ (returns v)
              (in_one_port i k (omega (arith, b)) ∙ d))
          port_max 0 w (omega arith) (omega (arith, b)) (created w i b r))
        (λ u l.
          Returns-map (update fuel u) _ _ (update-IsReady fuel u enough_fuel l.is_ready)
            (λ v (k, e, c). Listed-then w u v i l k e (λ j _. c j)))

  -- `PT_CFG_STATE` with the other parts, at the one port.
  configured :
      (w v : World) (i agg_id prio : ℕ)
      → i < port_max
      → (agg_id == 0) ≡ false
      → Listed w i v
      → Returns (cfg_port fuel (enable_cfg i agg_id prio) v i) (Joined w i agg_id)
  configured w v i agg_id prio b a l =
      let cfg = enable_cfg i agg_id prio in
      Returns-map (cfg_port fuel cfg v i) _ _
        (both_hold (cfg_port fuel cfg v i) IsReady (λ x. (x.sys ≡ v.sys) × Set v i agg_id x)
          (cfg_port-IsReady fuel enough_fuel cfg v i (λ _. a) l.is_ready)
          (set_at_port fuel v i agg_id prio b l.listed))
        (λ x (k, (e, (on, (at, h)))). record {
          at_port = Listed-then w v x i l k e h;
          lacp_on = on;
          in_agg = at;
        })

  port_configured :
      (w v : World) (i agg_id prio : ℕ)
      → i < port_max
      → (agg_id == 0) ≡ false
      → Listed w i v
      → Returns (port_set_cfg fuel (enable_cfg i agg_id prio) v) (Joined w i agg_id)
  unfolding port_set_cfg cfg_port
  port_configured w v i agg_id prio b a l =
      let cfg = enable_cfg i agg_id prio in
      Returns-bind (for_ports (cfg_port fuel cfg) port_max 0 v) (update fuel) (Joined w i agg_id)
        (Joined w i agg_id)
        (for_one (cfg_port fuel cfg) i (Joined w i agg_id)
          (λ u k d.
            then_only (not (in_bitmap (one_port i) k)) (returns u) _
              (ap not (in_one_port i k (omega (arith, b)) ∙ d)))
          port_max 0 v (omega arith) (omega (arith, b)) (configured w v i agg_id prio b a l))
        (λ u j.
          Returns-map (update fuel u) _ _ (update-IsReady fuel u enough_fuel j.at_port.is_ready)
            (λ x (k, e, c). Joined-then w u x i agg_id j k e c))

  linked_up :
      (w v : World) (i agg_id up : ℕ)
      → Joined w i agg_id v
      → Returns (port_link_change fuel v i up) (λ a. (a.1 ≡ 0) × Joined w i agg_id a.0)
  unfolding port_link_change
  linked_up w v i agg_id up l =
      let on = not (up == 0) in
      let x = modify_port v i (set_link v on i) in
      let y = port_set_reselect x (some i) in
      let ready : IsReady y = reselect-IsReady x i (
        modify-IsReady v i (set_link v on i) (set_link-Mild v on i (v.cell i))
          l.at_port.is_ready) in
      let joined : Joined w i agg_id y = Joined-then w v y i agg_id l ready (reselect_sys x i) (λ j.
        SameCell-trans v x y j (modify_same v i j (set_link v on i) (set_link_same v on i))
          (reselect-SameCell x i j)) in
      Returns-some (port_find v i) i _ _ _ (found v i l.at_port.listed) (
        Returns-if ((if (v.cell i).port_enabled then 1 else 0) == up) _ _ _ (λ c. (refl, l))
          (λ c.
            Returns-bind (update fuel y) _ (Joined w i agg_id) _
              (Returns-map (update fuel y) _ _ (update-IsReady fuel y enough_fuel ready)
                (λ z (k, e, c). Joined-then w y z i agg_id joined k e c))
              (λ z q. (refl, q))))

add_groups :
    (w u : World) (agg_id slot port : ℕ)
    → u.stub.link_groups ≡ w.stub.link_groups
    → (add_member agg_id slot port u).stub.link_groups
      ≡ (add_member agg_id slot port w).stub.link_groups
unfolding db_agg_add_member
add_groups w u agg_id slot port e =
    ap
      (λ g. update_at g (agg_id - 1) (record {
        cnt = u32 ((g (agg_id - 1)).cnt + 1);
        ports = set_pbmp slot port (g (agg_id - 1)).ports;
      }))
      e

-- With the member added on both sides.
Listed-add :
    (w u : World) (i agg_id slot port : ℕ)
    → Listed w i u
    → Listed (add_member agg_id slot port w) i (add_member agg_id slot port u)
Listed-add w u i agg_id slot port l =
    let g = add_groups w u agg_id slot port l.groups in
    record {
      is_ready = restub-IsReady u (add_member agg_id slot port u).stub l.is_ready;
      listed = l.listed;
      others = λ j d. ((l.others j d).0, (l.others j d).1, g);
      groups = g;
    }

enabled_at :
    (fuel slot port i agg_id : ℕ) (w : World)
    → enough port_max ≤ fuel
    → get_global_index slot port ≡ some i
    → i < port_max
    → (agg_id == 0) ≡ false
    → IsReady w
    → Returns
        (port_lacp_enable fuel slot port agg_id w)
        (λ a. (a.1 ≡ 0) × Joined (add_member agg_id slot port w) i agg_id a.0)
unfolding port_lacp_enable
enabled_at fuel slot port i agg_id w f e b a r =
    let x = add_member agg_id slot port w in
    Returns-some (get_global_index slot port) i _ _ _ e (
      Returns-bind (create_ports fuel (one_port i) w) _ (Listed w i) _
        (ports_created fuel f w i b r)
        (λ u l.
          let y = add_member agg_id slot port u in
          Returns-option (port_get_prio y.stub slot port) _ _ _
            (λ n. absurd (has_prio y.stub slot port i e n))
            (λ prio _.
              Returns-bind (port_set_cfg fuel (enable_cfg i agg_id prio) y) _ _ _
                (port_configured fuel f x y i agg_id prio b a (Listed-add w u i agg_id slot port l))
                (λ v j.
                  linked_up fuel f x v i agg_id
                    (if get_port_link_status v.stub i == 0 then 0 else 1) j))))

-- What enabling a port leaves: the library knows it, with LACP on and in the aggregation, and the
-- switch has it in the group of that number; the other ports are as they were for both.
pub record Enabled (w : World) (slot port i agg_id : ℕ) (v : World) : Type 0 where
  pub is_ready : IsReady v
  pub listed : In i v.sys.ports
  pub lacp_on : (v.cell i).lacp_enabled ≡ true
  pub in_agg : (v.cell i).agg_id ≡ agg_id
  pub in_group : db_agg_get_port_tid v.stub slot port ≡ agg_id
  pub other_lacp : (j : ℕ) → (i == j) ≡ false → (v.cell j).lacp_enabled ≡ (w.cell j).lacp_enabled
  pub other_agg : (j : ℕ) → (i == j) ≡ false → (v.cell j).agg_id ≡ (w.cell j).agg_id
  pub other_groups :
      (x y : ℕ)
      → IsSlotPort x y
      → same slot port x y ≡ false
      → db_agg_get_port_tid v.stub x y ≡ db_agg_get_port_tid w.stub x y

-- A port below `LACP_PORT_MAX`, given by a slot and a port of the switch, that is in no link group,
-- and an aggregation from 1 to 32, in a ready system with link groups of 19 octets and with fuel of
-- at least 65^4: `trunk_port_lacp_enable` returns 0 and a ready system in which that port exists,
-- with LACP on and in that aggregation, and in which the switch finds it in the link group of that
-- number; LACP on and the aggregation of every other port, and the link group in which the switch
-- finds every other slot and port, are as they were.
pub port_lacp_enable-Joined :
    (fuel slot port i agg_id : ℕ) (w : World)
    → enough port_max ≤ fuel
    → get_global_index slot port ≡ some i
    → i < port_max
    → IsSlotPort slot port
    → 1 ≤ agg_id
    → agg_id ≤ 32
    → AreGroups w.stub
    → db_agg_get_port_tid w.stub slot port ≡ 0
    → IsReady w
    → Returns
        (port_lacp_enable fuel slot port agg_id w)
        (λ a. (a.1 ≡ 0) × Enabled w slot port i agg_id a.0)
port_lacp_enable-Joined fuel slot port i agg_id w f e b s p q g n r =
    let (here, there) = db_agg_get_port_tid-db_agg_add_member w.stub agg_id slot port g s p q n in
    Returns-map (port_lacp_enable fuel slot port agg_id w) _ _
      (enabled_at fuel slot port i agg_id w f e b (ground (arith, p)) r)
      (λ (v, code) (z, j). (
        z,
        record {
          is_ready = j.at_port.is_ready;
          listed = j.at_port.listed;
          lacp_on = j.lacp_on;
          in_agg = j.in_agg;
          in_group = tid_groups v.stub _ slot port j.at_port.groups ∙ here;
          other_lacp = λ k d. (j.at_port.others k d).0;
          other_agg = λ k d. (j.at_port.others k d).1;
          other_groups = λ x y o d. tid_groups v.stub _ x y j.at_port.groups ∙ there x y o d;
        },
      ))
