-- ===== src/Sel.antt =====
-- lacp_lib/LACP/lacp_sel.c: the selection machine, which chooses the master port of an
-- aggregation and the ports that may join it. The trace calls are left out.
pub mod Master
pub mod Loopback
pub mod Join
pub mod Keys
pub mod Loop
use lacp.Base.{
  ℕ, Bool, true, false, not, ◌&&◌, ◌||◌, ◌==◌, ltb, if◌then◌else◌, Option, none, some, List, [],
  ◌∷◌,
}
use lacp.State.{agg, def, get_bit}
use lacp.Types.{Port, World, SelState, begin, init, selection, modify_port, mac_eq, u16}
use lacp.Ssp.{get_port_oper_key}

-- The test of `partners_aport` for one port `p` of the aggregation.
unfoldable pub is_aport : Port → Port → Bool
is_aport p port =
    p.actor.system_priority == port.partner.system_priority
    && mac_eq p.actor.system_mac port.partner.system_mac
    && p.actor.key == port.partner.key
    && p.actor.port_no == port.partner.port_no
    && (ltb p.actor.port_priority port.actor.port_priority
        || (p.actor.port_priority == port.actor.port_priority
            && ltb p.actor.port_no port.actor.port_no))

unfoldable pub partners_aport : (ℕ → Port) → List ℕ → Port → Bool
unfolding is_aport
partners_aport cell [] port = false
partners_aport cell (p ∷ ps) port =
    let rest = partners_aport cell ps port in
    if not (port.agg_id == (cell p).agg_id)
    then rest
    else if is_aport (cell p) port
    then true
    else rest

-- The first loop of `select_master_port`: the keys of the aggregation's ports are read anew.
unfoldable pub update_keys : ℕ → List ℕ → World → World
update_keys agg_id [] w = w
update_keys agg_id (p ∷ ps) w = update_keys agg_id ps (
    if not (agg_id == (w.cell p).agg_id)
    then w
    else modify_port w p
        (λ q. record q { actor = record (q.actor) { key = u16 (get_port_oper_key w.stub p) } }))

unfoldable pub is_candidate : ℕ → Port → Bool
is_candidate agg_id p =
    not (not (agg_id == p.agg_id) || not p.port_enabled || not p.lacp_enabled || p.duplex == 0)

-- Whether `p` takes the place of `best`: the chain of comparisons in `select_master_port`.
unfoldable pub better : Port → Port → Bool
better p best =
    if ltb best.speed p.speed
    then true
    else if ltb p.speed best.speed
    then false
    else if ltb p.actor.port_priority best.actor.port_priority
    then true
    else if ltb best.actor.port_priority p.actor.port_priority
    then false
    else if not (get_bit p.actor.state def) && get_bit best.actor.state def
    then true
    else if get_bit p.actor.state def && not (get_bit best.actor.state def)
    then false
    else ltb p.actor.port_no best.actor.port_no

abbrev pub choose : (ℕ → Port) → ℕ → Option ℕ → Option ℕ
choose cell p none = some p
choose cell p (some best) = if better (cell p) (cell best) then some p else some best

-- The second loop of `select_master_port`; the `Option` is the pointer `best`.
unfoldable pub best_port : (ℕ → Port) → ℕ → List ℕ → Option ℕ → Option ℕ
unfolding is_candidate better
best_port cell agg_id [] best = best
best_port cell agg_id (p ∷ ps) best =
    best_port cell agg_id ps
      (if not (is_candidate agg_id (cell p)) then best else choose cell p best)

unfoldable pub select_master_port : World → ℕ → World × Option ℕ
unfolding update_keys best_port
select_master_port w agg_id =
    let w' = update_keys agg_id w.sys.ports w in (w', best_port w'.cell agg_id w'.sys.ports none)

-- The test of `update_agg_ports_select` under which a port is not put on standby.
unfoldable pub may_join : World → Port → Port → Bool
unfolding partners_aport
may_join w port best =
    port.port_enabled
    && port.lacp_enabled
    && port.actor.key == best.actor.key
    && port.partner.system_priority == best.partner.system_priority
    && mac_eq port.partner.system_mac best.partner.system_mac
    && port.partner.key == best.partner.key
    && get_bit port.actor.state agg
    && get_bit port.partner.state agg
    && get_bit best.actor.state agg
    && get_bit best.partner.state agg
    && not (partners_aport w.cell w.sys.ports port)

-- The body of the loop for a port of the aggregation.
unfoldable pub select_port : World → Option ℕ → ℕ → World
unfolding may_join
select_port w none port =
    modify_port w port (λ p. record p { selected = true; standby = true; master_port = port })
select_port w (some best) port = modify_port w port (λ p. record p {
  master_port = best;
  selected = true;
  standby = not (may_join w (w.cell port) (w.cell best));
})

unfoldable pub select_ports : ℕ → Option ℕ → List ℕ → World → World
unfolding select_port
select_ports agg_id best [] w = w
select_ports agg_id best (port ∷ ps) w =
    select_ports agg_id best ps
      (if not ((w.cell port).agg_id == agg_id) then w else select_port w best port)

unfoldable pub update_agg_ports_select : World → ℕ → World
unfolding select_master_port select_ports
update_agg_ports_select w agg_id =
    let (w', best) = select_master_port w agg_id in select_ports agg_id best w'.sys.ports w'

-- The number is the code that it returns.
unfoldable pub selection_logic : World → ℕ → World × ℕ
unfolding update_agg_ports_select
selection_logic w i =
    if not (w.cell i).lacp_enabled
    then (modify_port w i (λ p. record p { selected = true; standby = true }), 0)
    else if (w.cell i).agg_id == 0
    then (w, 1)
    else (update_agg_ports_select w (w.cell i).agg_id, 0)

unfoldable pub enter_at : SelState → World → ℕ → World
unfolding selection_logic
enter_at begin w i = modify_port w i (λ p. record p { selected = false })
enter_at init w i = modify_port w i (λ p. record p { selected = false })
enter_at selection w i = (selection_logic w i).0

-- `lacp_sel_enter_state`.
unfoldable pub enter_state : World → ℕ → World
unfolding enter_at
enter_state w i = enter_at (w.cell i).sel.state w i

unfoldable pub check_at : SelState → Port → Option SelState
check_at begin p = some selection
check_at init p = some selection
check_at selection p = if not p.selected then some selection else none

-- `lacp_sel_check_conditions`.
unfoldable pub check_conditions : Port → Option SelState
unfolding check_at
check_conditions p = check_at p.sel.state p
