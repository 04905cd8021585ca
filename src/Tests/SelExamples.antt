-- ===== src/Tests/SelExamples.antt =====
-- The selection of two ports that agree with one partner.
use lacp.Base.{◌≡◌, refl, false}
use lacp.Types.{mac_eq}
use lacp.Ssp
use lacp.Stub
use lacp.Sel.{select_master_port, update_agg_ports_select}
use lacp.Sel.Master.{IsBest, select_master_port-IsBest}
use lacp.Sel.Join.{Chosen}
use lacp.Sel.Loop.{update_agg_ports_select-Chosen, joined_same_partner}
use lacp.Tests.Worlds.{agreed}

select_master_port-IsBest_example :
    IsBest
      (select_master_port agreed 1).0.cell
      1
      (select_master_port agreed 1).0.sys.ports
      (select_master_port agreed 1).1
select_master_port-IsBest_example = select_master_port-IsBest agreed 1

update_agg_ports_select-Chosen_example :
    Chosen
      (update_agg_ports_select agreed 1).cell
      agreed.sys.ports
      1
      (select_master_port agreed 1).1
unfolding agreed
update_agg_ports_select-Chosen_example = update_agg_ports_select-Chosen agreed 1 1 refl refl

off_standby :
    (((update_agg_ports_select agreed 1).cell 0).standby ≡ false)
    × (((update_agg_ports_select agreed 1).cell 1).standby ≡ false)
unfolding agreed update_agg_ports_select Ssp.get_port_oper_key Stub.db_agg_get_port_tid
    Stub.db_agg_add_member Stub.init mac_eq
off_standby = (refl, refl)

joined_same_partner_example :
    let cell = (update_agg_ports_select agreed 1).cell in
    ((cell 0).actor.key ≡ (cell 1).actor.key)
    × ((cell 0).partner.key ≡ (cell 1).partner.key)
    × ((cell 0).partner.system_priority ≡ (cell 1).partner.system_priority)
    × ((cell 0).partner.system_mac ≡ (cell 1).partner.system_mac)
unfolding agreed
joined_same_partner_example =
    joined_same_partner agreed 1 0 1 refl refl refl refl off_standby.0 off_standby.1
