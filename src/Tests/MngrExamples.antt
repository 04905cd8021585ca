-- ===== src/Tests/MngrExamples.antt =====
-- Two bridges of four ports: linked, unlinked, in a ring, and one that leaves.
use lacp.Base.{
  In, ◌≤◌, ◌==◌, ==_iff, Bool-cases, inl, inr, ℕ, ◌≡◌, ◌↔◌, refl, subst, none, some, List, [], ◌∷◌,
  arith, ◌≢◌,
}
use lacp.Types.{LacpPdu, Outcome, returns, crashes, runs_out}
use lacp.Create.{unlink}
use lacp.Mngr.{
  Mngr, Peer, bpdu, handshake, frame, register_bridge, find_bridge, last_bridge, link_bridges,
  unlink_port, unregister_bridge, link_ring, mngr_rx_bpdu, Input, message, link, step, main_loop,
  no_bridges,
}
use lacp.Mngr.Matching.{Matches, Place}
use lacp.Mngr.Ports.{view, Kept}
use lacp.Mngr.Linked.{IsLinked, Links, linked, unlinked}
use lacp.Mngr.Commands.{link_bridges-linked, unlink_port-unlinked}
use lacp.Mngr.Bridges.{register_bridge-IsLinked, unregister_bridge-Links}
use lacp.Mngr.Frames.{mngr_rx_bpdu-both_ways}
use lacp.Mngr.Ring.{ring_links, link_ring-ring_links}
use lacp.Mngr.Run.{main_loop-IsLinked, link_bridges-past_end}
use lacp.Live.{Returns}
use lacp.Tests.Worlds.{host, starting}
use lacp.Tx.{make_lacpdu}

abbrev nothing : ℕ → Peer
nothing _ = record {
  pid = 0;
  number_of_ports = 0;
  ports = λ _. record { bridge_partner = none; port_partner = 0 };
  sock = 0;
}

-- Bridges 10 and 20, at the addresses 0 and 1.
unfoldable pair : Mngr
unfolding register_bridge
pair = register_bridge 20 4 8 (register_bridge 10 4 7 (no_bridges nothing))

abbrev result_of : Outcome Mngr → Mngr
result_of (returns m) = m
result_of crashes = pair
result_of runs_out = pair

-- Port 1 of the first linked to port 2 of the second.
unfoldable tied : Mngr
unfolding pair link_bridges
tied = result_of (link_bridges 10 1 20 2 pair)

empty-IsLinked : IsLinked (no_bridges nothing)
empty-IsLinked = record { once = tt; below = λ a i. cc; matched = λ x y e. cc }

pair-IsLinked : IsLinked pair
unfolding pair
pair-IsLinked =
    register_bridge-IsLinked (register_bridge 10 4 7 (no_bridges nothing)) 20 4 8
      (register_bridge-IsLinked (no_bridges nothing) 10 4 7 empty-IsLinked)

link_bridges-linked_example :
    Returns (link_bridges 10 1 20 2 pair) (Links pair (linked (view pair) (0, 1) (1, 2)))
unfolding pair last_bridge
link_bridges-linked_example =
    link_bridges-linked pair 10 0 1 20 1 2 pair-IsLinked refl refl (omega arith) (omega arith)
      (omega arith) (omega arith)

tied-IsLinked : IsLinked tied
unfolding tied pair link_bridges
tied-IsLinked =
    let t : Links pair (linked (view pair) (0, 1) (1, 2)) tied =
      link_bridges-linked pair 10 0 1 20 1 2 pair-IsLinked refl refl (omega arith) (omega arith)
        (omega arith) (omega arith) in
    t.1

unlink_port-unlinked_example :
    Returns (unlink_port 20 2 tied) (Links tied (unlinked (view tied) (1, 2)))
unfolding tied last_bridge
unlink_port-unlinked_example =
    unlink_port-unlinked tied 20 1 2 tied-IsLinked refl (omega arith) (omega arith)

unregister_bridge-Links_example : Returns (unregister_bridge 10 tied) (λ v.
    IsLinked v
    × (v.br_lst ≡ unlink 0 tied.br_lst)
    × ((x y : Place) → (view v x ≡ some y) ↔ ((view tied x ≡ some y) × (0 ≢ x.0) × (0 ≢ y.0))))
unfolding tied find_bridge
unregister_bridge-Links_example = unregister_bridge-Links tied 10 0 tied-IsLinked refl

abbrev pdu : LacpPdu
pdu = make_lacpdu host starting

mngr_rx_bpdu-both_ways_example :
    (mngr_rx_bpdu 10 1 pdu tied ≡ returns (record tied { sent = (8, bpdu 1 2 pdu) ∷ tied.sent }))
    × (mngr_rx_bpdu 20 2 pdu tied ≡ returns (record tied { sent = (7, bpdu 2 1 pdu) ∷ tied.sent }))
unfolding tied find_bridge
mngr_rx_bpdu-both_ways_example =
    mngr_rx_bpdu-both_ways tied 10 0 1 20 1 2 pdu pdu tied-IsLinked refl refl refl

link_bridges-past_end_example :
    (unlink_port 10 4 pair ≡ crashes) × (link_bridges 10 4 20 1 pair ≡ crashes)
unfolding pair last_bridge
link_bridges-past_end_example = link_bridges-past_end pair 10 0 20 1 1 refl refl (omega arith) refl

abbrev inputs : List Input
inputs =
    message 10 (handshake 4 7)
    ∷ message 20 (handshake 4 8)
    ∷ link 10 1 20 2
    ∷ message 10 (frame 1 pdu)
    ∷ []

known : (P : ℕ → Type 0) (x : ℕ) → P x → (a : ℕ) → some x ≡ some a → P a
known P x p a e = subst P (number_eq e) p
  where
    number_eq : some x ≡ some a → x ≡ a
    number_eq q = cc

main_loop-IsLinked_example : Returns (main_loop inputs (no_bridges nothing)) IsLinked
unfolding step register_bridge
main_loop-IsLinked_example = main_loop-IsLinked nothing inputs (
  tt,
  (
    tt,
    (
      (known _ 0 (λ h. omega (arith, h)), known _ 1 (λ h. omega (arith, h))),
      (known _ 0 (omega arith), tt),
    ),
  ),
)

four_ports : (a : ℕ) → In a pair.br_lst → 2 ≤ (pair.bridge a).number_of_ports
unfolding pair
four_ports a i = elim (Bool-cases (1 == a)) [
  | inl c ↦ subst (λ x. 2 ≤ (pair.bridge x).number_of_ports) ((==_iff 1 a).0 c) (omega arith)
  | inr c ↦
      subst (λ x. 2 ≤ (pair.bridge x).number_of_ports) ((==_iff 0 a).0 (ground (arith, i, c)))
        (omega arith)
]

link_ring-ring_links_example : Returns (link_ring pair) (λ v.
    Kept pair v
    × ((x : Place) → view v x ≡ ring_links 1 (1 ∷ 0 ∷ []) (λ _. none) x)
    × ¬ Matches (view v))
unfolding pair
link_ring-ring_links_example = link_ring-ring_links pair 1 (0 ∷ []) pair-IsLinked refl four_ports

-- In a ring of the two bridges a frame of port 1 is sent on to port 1 of the next bridge, and a
-- frame of that bridge's port 0 comes back to port 2.
ring_frames :
    ((result_of (mngr_rx_bpdu 20 1 pdu (result_of (link_ring pair)))).sent
      ≡ (7, bpdu 1 1 pdu) ∷ (result_of (link_ring pair)).sent)
    × ((result_of (mngr_rx_bpdu 10 0 pdu (result_of (link_ring pair)))).sent
        ≡ (8, bpdu 0 2 pdu) ∷ (result_of (link_ring pair)).sent)
unfolding pair mngr_rx_bpdu link_ring
ring_frames = (refl, refl)
