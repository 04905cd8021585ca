-- ===== src/Ssp.antt =====
-- lacp_lib/trunk_ssp.c: what the protocol asks of the switch it runs on. The calls that set speed
-- and duplex go through the configuration of ports and stand in `Trunk`.
pub mod Index
use lacp.Base.{
  ℕ, ◌+◌, ◌-◌, ◌*◌, ◌/◌, ◌%◌, Bool, ◌==◌, if◌then◌else◌, Option, none, some, [], ◌∷◌, ◌++◌, bit_or,
  take, drop,
}
use lacp.Types.{Mac, LacpPdu, Stub, Host, World, u32}
use lacp.Stub.{get_port_attr, set_port_attr, db_agg_get_port_tid}

-- The slot and the port of a global index.
unfoldable pub change_to_slot_port : ℕ → ℕ × ℕ
change_to_slot_port port_index = (port_index / 8, port_index % 8 + 1)

-- `none` is `M_LACP_INTERNEL`. The index is computed in 32 bits.
unfoldable pub get_global_index : ℕ → ℕ → Option ℕ
get_global_index slot port = if port == 0 then none else some (u32 (slot * 8 + (port - 1)))

-- Five octets are copied into the caller's buffer of six.
unfoldable pub get_mac : Host → Mac → Mac
get_mac h buffer = take 5 (0 ∷ h.pid_octets ++ 0 ∷ []) ++ drop 5 buffer

unfoldable pub get_port_oper_speed : Stub → ℕ → ℕ
get_port_oper_speed s i = (get_port_attr s i).speed

unfoldable pub get_port_oper_duplex : Stub → ℕ → ℕ
get_port_oper_duplex s i = (get_port_attr s i).duplex

unfoldable pub set_port_link_status : Stub → ℕ → ℕ → Stub
set_port_link_status s i link_status =
    set_port_attr s i (record (get_port_attr s i) { link_status = link_status })

unfoldable pub get_port_link_status : Stub → ℕ → ℕ
get_port_link_status s i = (get_port_attr s i).link_status

unfoldable pub attach_port : Stub → ℕ → Bool → ℕ → Stub
attach_port s i attach tid =
    if attach
    then set_port_attr s i (record (get_port_attr s i) { tid = tid })
    else set_port_attr s i (record (get_port_attr s i) { tid = 0 })

unfoldable pub get_port_attach_tid : Stub → ℕ → ℕ
get_port_attach_tid s i = (get_port_attr s i).tid

unfoldable pub get_port_cd : Stub → ℕ → ℕ
get_port_cd s i = (get_port_attr s i).cd

unfoldable pub set_port_cd : Stub → ℕ → ℕ → Stub
set_port_cd s i state = set_port_attr s i (record (get_port_attr s i) { cd = state })

-- `bridge_tx_bpdu` puts the frame on the link; the trace of frames is left out.
unfoldable pub tx_pdu : World → ℕ → LacpPdu → World
tx_pdu w i pdu = record w { sent = (i, pdu) ∷ w.sent }

unfoldable pub get_speed_index : ℕ → ℕ → ℕ
get_speed_index speed duplex =
    if duplex == 0
    then 0
    else if speed == 10
    then 1
    else if speed == 100
    then 2
    else if speed == 1000
    then 3
    else if speed == 10000
    then 4
    else 0

unfoldable pub get_port_oper_key : Stub → ℕ → ℕ
unfolding get_port_oper_speed get_port_oper_duplex get_speed_index change_to_slot_port
get_port_oper_key s i =
    let (slot, port) = change_to_slot_port i in
    let tid = db_agg_get_port_tid s slot port in
    if tid == 0
    then 0
    else bit_or (tid * 256) (get_speed_index (get_port_oper_speed s i) (get_port_oper_duplex s i))
