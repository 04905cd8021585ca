-- ===== src/Live/Calls.antt =====
-- lacp_port.c, lacp_rx.c and lacp_api.c: the calls on ports, the clock and frames in a system that
-- is ready.
use lacp.Settle.Loop.{SameCell, SameCell-refl, SameCell-trans}
use lacp.Base.{
  ℕ, ◌≤◌, ◌≡◌, refl, sym, ap, ◌∙◌, subst, Bool, not, ◌==◌, ==_iff, Bool-cases, inl, inr,
  if◌then◌else◌, some, List, [], ◌∷◌, arith,
}
use lacp.Types.{World, Port, LacpPdu, PortInfo, returns, ◌>>=◌, modify_port}
use lacp.Port.{unselect, unselect_all, unselect_members, port_set_reselect}
use lacp.Create.{port_find}
use lacp.Rx.{rxm_rx_lacpdu, store_lacpdu, count_lacpdu}
use lacp.Rx.Frame.{rxm_sys, Moved, rxm_frame}
use lacp.Sys.{update}
use lacp.Settle.Energy.{enough}
use lacp.Settle.Clock.{ticks-Ticked, ticks_sys}
use lacp.Api.{port_max, tick_ports, one_second}
use lacp.Events.{with_code, rx_lacpdu, set_link, port_link_change}
use lacp.Live.{
  same_flags, Returns-map, Returns-if, Returns-option, Returns, Returns-bind, IsReady, Mild,
  Mild-refl, Mild-trans, MildSys-eq, mild-IsReady, modify-Mild, modify-IsReady,
}
use lacp.Live.Update.{update-IsReady}

-- A change of a port that leaves its machines, `lacp_enabled` and `agg_id`.
pub same-Mild :
    (p q : Port)
    → q.rx ≡ p.rx
    → q.sel ≡ p.sel
    → q.mux ≡ p.mux
    → q.tx ≡ p.tx
    → q.lacp_enabled ≡ p.lacp_enabled
    → q.agg_id ≡ p.agg_id
    → Mild p q
same-Mild p q a b c d e f = record {
  flags =
      same_flags p q (ap (λ s. s.change_state) a) (ap (λ s. s.change_state) b)
        (ap (λ s. s.change_state) c) (ap (λ s. s.change_state) d);
  has_agg = λ h k. ap (λ n. n == 0) f ∙ h (sym e ∙ k);
}

-- Two changes one after the other, each from what the last one left.
unselect_all-Mild : (ps : List ℕ) (w : World) (j : ℕ) → Mild (w.cell j) ((unselect_all ps w).cell j)
unfolding unselect_all
unselect_all-Mild [] w j = Mild-refl (w.cell j)
unselect_all-Mild (p ∷ ps) w j =
    Mild-trans _ _ _ (modify-Mild w p unselect (same-Mild _ _ refl refl refl refl refl refl) j)
      (unselect_all-Mild ps (modify_port w p unselect) j)

unselect_one-Mild :
    (a p : ℕ) (w : World) (j : ℕ)
    → Mild (w.cell j) ((if (w.cell p).agg_id == a then modify_port w p unselect else w).cell j)
unselect_one-Mild a p w j = elim (Bool-cases ((w.cell p).agg_id == a)) [
  | inl e ↦ rw e (modify-Mild w p unselect (same-Mild _ _ refl refl refl refl refl refl) j)
  | inr e ↦ rw e (Mild-refl (w.cell j))
]

unselect_members-Mild :
    (a : ℕ) (ps : List ℕ) (w : World) (j : ℕ) → Mild (w.cell j) ((unselect_members a ps w).cell j)
unfolding unselect_members
unselect_members-Mild a [] w j = Mild-refl (w.cell j)
unselect_members-Mild a (p ∷ ps) w j =
    Mild-trans _ _ _ (unselect_one-Mild a p w j) (
      unselect_members-Mild a ps (if (w.cell p).agg_id == a then modify_port w p unselect else w) j)

unselect_one_sys :
    (a p : ℕ) (w : World)
    → (if (w.cell p).agg_id == a then modify_port w p unselect else w).sys ≡ w.sys
unselect_one_sys a p w = ground arith

unselect_members_sys : (a : ℕ) (ps : List ℕ) (w : World) → (unselect_members a ps w).sys ≡ w.sys
unfolding unselect_members
unselect_members_sys a [] w = refl
unselect_members_sys a (p ∷ ps) w =
    unselect_members_sys a ps (if (w.cell p).agg_id == a then modify_port w p unselect else w)
    ∙ unselect_one_sys a p w

unselect_one-SameCell :
    (a p : ℕ) (w : World) (j : ℕ)
    → SameCell w (if (w.cell p).agg_id == a then modify_port w p unselect else w) j
unselect_one-SameCell a p w j = (ground arith, ground arith, ground arith)

unselect_members-SameCell :
    (a : ℕ) (ps : List ℕ) (w : World) (j : ℕ) → SameCell w (unselect_members a ps w) j
unfolding unselect_members
unselect_members-SameCell a [] w j = SameCell-refl w j
unselect_members-SameCell a (p ∷ ps) w j =
    let u = if (w.cell p).agg_id == a then modify_port w p unselect else w in
    SameCell-trans w u (unselect_members a ps u) j (unselect_one-SameCell a p w j)
      (unselect_members-SameCell a ps u j)

pub reselect-SameCell : (w : World) (i j : ℕ) → SameCell w (port_set_reselect w (some i)) j
unfolding port_set_reselect
reselect-SameCell w i j = elim (Bool-cases ((w.cell i).agg_id == 0)) [
  | inl e ↦ rw e (SameCell-refl w j)
  | inr e ↦ rw e (unselect_members-SameCell (w.cell i).agg_id w.sys.ports w j)
]

pub reselect_sys : (w : World) (i : ℕ) → (port_set_reselect w (some i)).sys ≡ w.sys
unfolding port_set_reselect
reselect_sys w i = elim (Bool-cases ((w.cell i).agg_id == 0)) [
  | inl e ↦ rw e refl
  | inr e ↦ rw e (unselect_members_sys (w.cell i).agg_id w.sys.ports w)
]

pub reselect-IsReady : (w : World) (i : ℕ) → IsReady w → IsReady (port_set_reselect w (some i))
unfolding port_set_reselect
reselect-IsReady w i r = elim (Bool-cases ((w.cell i).agg_id == 0)) [
  | inl e ↦ rw e r
  | inr e ↦ rw e (
      mild-IsReady w (unselect_members (w.cell i).agg_id w.sys.ports w)
        (MildSys-eq w.sys _ (unselect_members_sys (w.cell i).agg_id w.sys.ports w))
        (unselect_members-Mild (w.cell i).agg_id w.sys.ports w) r)
]

-- The answer of `lacp_sys_update` with its code.
pub updated :
    (fuel : ℕ) (w : World) → enough port_max ≤ fuel → IsReady w → Returns (update fuel w) IsReady
updated fuel w f r = Returns-map (update fuel w) _ IsReady (update-IsReady fuel w f r) (λ v k. k.0)

pub replied :
    (fuel code : ℕ) (w : World)
    → enough port_max ≤ fuel
    → IsReady w
    → Returns (update fuel w >>= with_code code) (λ a. IsReady a.0)
replied fuel code w f r =
    Returns-bind (update fuel w) (with_code code) IsReady (λ a. IsReady a.0) (updated fuel w f r)
      (λ v k. k)

ticked-IsReady : (w : World) → IsReady w → IsReady (tick_ports w.sys.ports w)
ticked-IsReady w r =
    mild-IsReady w (tick_ports w.sys.ports w) (MildSys-eq w.sys _ (ticks_sys w.sys.ports w))
      (λ j.
        let t = ticks-Ticked w.sys.ports w j in
        record {
          flags = t.flags;
          has_agg = λ h k. ap (λ n. n == 0) t.agg_same ∙ h (sym t.lacp_same ∙ k);
        })
      r

-- `lacp_one_second`.
pub one_second-IsReady :
    (fuel : ℕ) (w : World)
    → enough port_max ≤ fuel
    → IsReady w
    → Returns (one_second fuel w) IsReady
unfolding one_second
one_second-IsReady fuel w f r =
    Returns-if (not w.sys.admin_state) (returns w) (update fuel (tick_ports w.sys.ports w)) IsReady
      (λ e. r) (λ e. updated fuel (tick_ports w.sys.ports w) f (ticked-IsReady w r))

stored-Mild :
    (w : World) (pdu : LacpPdu) (p : Port) → Mild p (store_lacpdu w.host pdu (count_lacpdu p))
stored-Mild w pdu p = same-Mild _ _ refl refl refl refl refl refl

Moved-Mild : (msg : PortInfo) (p q : Port) → Moved msg p q → Mild p q
Moved-Mild msg p q (inl e) = subst (Mild p) (sym e) (Mild-refl p)
Moved-Mild msg p q (inr (a, b, e)) =
    subst (Mild p) (sym e) (same-Mild _ _ refl refl refl refl refl refl)

rxm_self-Mild :
    (w : World) (i : ℕ) (pdu : LacpPdu) → Mild (w.cell i) ((rxm_rx_lacpdu w i pdu).cell i)
rxm_self-Mild w i pdu = elim (Bool-cases (w.cell i).lacp_enabled) [
  | inl h ↦ subst (Mild (w.cell i)) (sym ((rxm_frame w i pdu).0 h)) (stored-Mild w pdu (w.cell i))
  | inr h ↦
      subst (Mild (w.cell i)) (sym ((rxm_frame w i pdu).1 h))
        (same-Mild _ _ refl refl refl refl refl refl)
]

rxm-Mild :
    (w : World) (i : ℕ) (pdu : LacpPdu) (j : ℕ) → Mild (w.cell j) ((rxm_rx_lacpdu w i pdu).cell j)
rxm-Mild w i pdu j = elim (Bool-cases (j == i)) [
  | inl e ↦
      subst (λ x. Mild (w.cell x) ((rxm_rx_lacpdu w i pdu).cell x)) (sym ((==_iff j i).0 e))
        (rxm_self-Mild w i pdu)
  | inr e ↦ Moved-Mild _ _ _ ((rxm_frame w i pdu).2 j (ground arith))
]

rxm-IsReady : (w : World) (i : ℕ) (pdu : LacpPdu) → IsReady w → IsReady (rxm_rx_lacpdu w i pdu)
rxm-IsReady w i pdu =
    mild-IsReady w (rxm_rx_lacpdu w i pdu) (MildSys-eq w.sys _ (rxm_sys w i pdu)) (rxm-Mild w i pdu)

-- `lacp_rx_lacpdu`.
pub rx_lacpdu-IsReady :
    (fuel : ℕ) (w : World) (i : ℕ) (pdu : LacpPdu)
    → enough port_max ≤ fuel
    → IsReady w
    → Returns (rx_lacpdu fuel w i pdu) (λ a. IsReady a.0)
unfolding rx_lacpdu
rx_lacpdu-IsReady fuel w i pdu f r =
    Returns-option (port_find w i) _ _ (λ a. IsReady a.0) (λ e. r)
      (λ p e.
        Returns-if (not (w.cell p).port_enabled) _ _ (λ a. IsReady a.0) (λ c. r)
          (λ c.
            Returns-if (not w.sys.admin_state) _ _ (λ a. IsReady a.0) (λ d. r)
              (λ d. replied fuel 0 (rxm_rx_lacpdu w p pdu) f (rxm-IsReady w p pdu r))))

pub set_link-Mild : (w : World) (up : Bool) (i : ℕ) (p : Port) → Mild p (set_link w up i p)
unfolding set_link
set_link-Mild w up i p =
    same-Mild _ _ (ground arith) (ground arith) (ground arith) (ground arith) (ground arith)
      (ground arith)

-- `lacp_port_link_change`.
pub port_link_change-IsReady :
    (fuel : ℕ) (w : World) (i up : ℕ)
    → enough port_max ≤ fuel
    → IsReady w
    → Returns (port_link_change fuel w i up) (λ a. IsReady a.0)
unfolding port_link_change
port_link_change-IsReady fuel w i up f r =
    Returns-option (port_find w i) _ _ (λ a. IsReady a.0) (λ e. r)
      (λ p e.
        Returns-if ((if (w.cell p).port_enabled then 1 else 0) == up) _ _ (λ a. IsReady a.0)
          (λ c. r)
          (λ c.
            let on = not (up == 0) in
            let u = modify_port w p (set_link w on p) in
            replied fuel 0 (port_set_reselect u (some p)) f (
              reselect-IsReady u p
                (modify-IsReady w p (set_link w on p) (set_link-Mild w on p (w.cell p)) r))))
