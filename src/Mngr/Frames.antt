-- ===== src/Mngr/Frames.antt =====
-- mngr.c: frames between bridges.
use lacp.Base.{ℕ, ◌≡◌, sym, ap, ◌∙◌, subst, some, ◌∷◌, In}
use lacp.Types.{LacpPdu, Outcome, returns, crashes, runs_out}
use lacp.Mngr.{Mngr, bpdu, read_port, send, find_bridge, mngr_rx_bpdu}
use lacp.Mngr.Ports.{view, view-some, read-Returns, send-Returns}
use lacp.Mngr.Linked.{IsLinked}
use lacp.Live.{Returns, Returns-bind, Returns-some}
use lacp.Mngr.Fewer.{found_listed}

to_eq : {A : Type 0} (o : Outcome A) (a : A) → Returns o (λ x. x ≡ a) → o ≡ returns a
to_eq (returns x) a e = ap returns e
to_eq crashes a e = absurd e
to_eq runs_out a e = absurd e

forwarded :
    (m : Mngr) (pid a k b j : ℕ) (pdu : LacpPdu)
    → find_bridge m m.br_lst pid ≡ some a
    → In b m.br_lst
    → view m (a, k) ≡ some (b, j)
    → mngr_rx_bpdu pid k pdu m
      ≡ returns (record m { sent = ((m.bridge b).sock, bpdu k j pdu) ∷ m.sent })
unfolding mngr_rx_bpdu
forwarded m pid a k b j pdu e i s =
    let (h, d) = view-some m a k (b, j) s in
    to_eq (mngr_rx_bpdu pid k pdu m)
      (record m { sent = ((m.bridge b).sock, bpdu k j pdu) ∷ m.sent })
      (Returns-some (find_bridge m m.br_lst pid) a _ _ _ e (
        Returns-bind (read_port m a k) _ _ _ (read-Returns m a k h) (λ p r.
          Returns-some p.bridge_partner b _ _ _ (ap (λ z. z.bridge_partner) (r ∙ d)) (
            subst
              (λ q.
                Returns (send b (bpdu k q pdu) m)
                  (λ v. v ≡ record m { sent = ((m.bridge b).sock, bpdu k j pdu) ∷ m.sent }))
              (ap (λ z. z.port_partner) (sym (r ∙ d))) (send-Returns m b (bpdu k j pdu) i)))))

-- On links that go both ways, if a port of a bridge is linked to a port of another, each bridge the
-- first of the list with its pid: a frame of the first port is sent to the socket of the second
-- bridge for the second port, and a frame of the second port to the socket of the first bridge for
-- the first port, and nothing else changes.
pub mngr_rx_bpdu-both_ways :
    (m : Mngr) (pid1 a k pid2 b j : ℕ) (there back : LacpPdu)
    → IsLinked m
    → find_bridge m m.br_lst pid1 ≡ some a
    → find_bridge m m.br_lst pid2 ≡ some b
    → view m (a, k) ≡ some (b, j)
    → (mngr_rx_bpdu pid1 k there m
        ≡ returns (record m { sent = ((m.bridge b).sock, bpdu k j there) ∷ m.sent }))
      × (mngr_rx_bpdu pid2 j back m
          ≡ returns (record m { sent = ((m.bridge a).sock, bpdu j k back) ∷ m.sent }))
mngr_rx_bpdu-both_ways m pid1 a k pid2 b j there back l e d s = (
  forwarded m pid1 a k b j there e (found_listed m m.br_lst pid2 b d) s,
  forwarded m pid2 b j a k back d (found_listed m m.br_lst pid1 a e) (l.matched (a, k) (b, j) s),
)
