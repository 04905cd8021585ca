-- ===== src/Tx/Wire.antt =====
-- lacp_tx.c and lacp_rx.c: a frame between the port that sends it and the port that receives it.
use lacp.Base.{ℕ, ◌^◌, ◌<◌, ◌≡◌, refl, ap, ◌∙◌, true, ◌∷◌}
use lacp.Types.{Port, PortInfo, World, LacpPdu, Host}
use lacp.Port.{copy_info_from_net}
use lacp.Rx.{rxm_rx_lacpdu}
use lacp.Rx.Frame.{rxm_self}
use lacp.Ssp.{tx_pdu}
use lacp.Tx.{info_to_net, make_lacpdu, tx_lacpdu}

-- The numbers of a port's information are 16 bits wide.
pub record IsWide (p : PortInfo) : Type 0 where
  pub system_priority : p.system_priority < 2 ^ 16
  pub key : p.key < 2 ^ 16
  pub port_priority : p.port_priority < 2 ^ 16
  pub port_no : p.port_no < 2 ^ 16

-- What one host writes in network order, the other reads.
abbrev pub Speaks : Host → Host → Type 0
Speaks g h = (x : ℕ) → x < 2 ^ 16 → h.ntohs (g.htons x) ≡ x

info_round :
    (g h : Host) (p : PortInfo) → Speaks g h → IsWide p → copy_info_from_net h (info_to_net g p) ≡ p
info_round g h p s f =
    rw
      (
        s p.system_priority f.system_priority,
        s p.key f.key,
        s p.port_priority f.port_priority,
        s p.port_no f.port_no,
      )
      refl

tx_sent :
    (w : World) (i : ℕ)
    → (w.cell i).lacp_enabled ≡ true
    → (tx_lacpdu w i).0.sent ≡ (i, make_lacpdu w.host (w.cell i)) ∷ w.sent
unfolding tx_lacpdu tx_pdu
tx_sent w i h = rw h refl

made_actor :
    (g h : Host) (p : Port)
    → Speaks g h
    → IsWide p.actor
    → copy_info_from_net h (make_lacpdu g p).actor ≡ p.actor
unfolding make_lacpdu
made_actor g h p s f = info_round g h p.actor s f

made_partner :
    (g h : Host) (p : Port)
    → Speaks g h
    → IsWide p.partner
    → copy_info_from_net h (make_lacpdu g p).partner ≡ p.partner
unfolding make_lacpdu
made_partner g h p s f = info_round g h p.partner s f

-- If the hosts agree on the byte order of the link and the sender's numbers are 16 bits wide, a
-- port with LACP on puts one frame on the link, and a port with LACP on that receives this frame
-- takes from it exactly the sender's actor as the message's actor and the sender's partner as the
-- message's partner.
pub tx_lacpdu-rxm_rx_lacpdu :
    (w v : World) (i j : ℕ)
    → Speaks w.host v.host
    → IsWide (w.cell i).actor
    → IsWide (w.cell i).partner
    → (w.cell i).lacp_enabled ≡ true
    → (v.cell j).lacp_enabled ≡ true
    → (pdu : LacpPdu) × ((tx_lacpdu w i).0.sent ≡ (i, pdu) ∷ w.sent)
      × (((rxm_rx_lacpdu v j pdu).cell j).msg_actor ≡ (w.cell i).actor)
      × (((rxm_rx_lacpdu v j pdu).cell j).msg_partner ≡ (w.cell i).partner)
      × (((rxm_rx_lacpdu v j pdu).cell j).rcvd_lacpdu ≡ true)
tx_lacpdu-rxm_rx_lacpdu w v i j s fa fp hw hv =
    let pdu = make_lacpdu w.host (w.cell i) in
    let r = rxm_self v j pdu hv in
    (
      pdu,
      tx_sent w i hw,
      ap (λ p. p.msg_actor) r ∙ made_actor w.host v.host (w.cell i) s fa,
      ap (λ p. p.msg_partner) r ∙ made_partner w.host v.host (w.cell i) s fp,
      ap (λ p. p.rcvd_lacpdu) r,
    )
