-- ===== src/Report/Contents.antt =====
-- lacp_api.c and trunk_api.c: what the report on an aggregation holds.
use lacp.Base.{
  ℕ, zero, suc, ◌+◌, ◌/◌, ◌%◌, ◌≡◌, refl, ap, ◌∙◌, Bool, true, false, not, ◌&&◌, ◌==◌, ==_iff, leb,
  if◌then◌else◌, List, [], ◌∷◌, map, take, replicate, set, get_or, In, elem, arith,
}
use lacp.Types.{Port, World, Outcome, returns, ◌>>=◌}
use lacp.Create.{zero_info}
use lacp.Ssp.{change_to_slot_port}
use lacp.Query.{PortState, copy_port_state, is_master, report_ports, agg_get_port_state}
use lacp.Trunk.{zero_port_state}
use lacp.Report.{TrunkPortState, to_trunk_state, uint_invalid, agg_get_state}
use lacp.Report.Filled.{
  members, pad, leads, last_master, copied, lacp_entry, filled_ports, reported,
}

-- An empty entry, and a port's.
abbrev pub no_entry : TrunkPortState
no_entry = record {
  valid = false;
  slot = 0;
  port = 1;
  key = 0;
  agg_id = 0;
  master_port = 0;
  sel_state = false;
  rx_cnt = 0;
  tx_cnt = 0;
  actor = zero_info;
  partner = zero_info;
}

abbrev pub entry : (ℕ → Port) → ℕ → TrunkPortState
entry cell p = record {
  valid = true;
  slot = p / 8;
  port = p % 8 + 1;
  key = 0;
  agg_id = (cell p).agg_id;
  master_port = (cell p).master_port;
  sel_state = (cell p).selected && not (cell p).standby;
  rx_cnt = (cell p).rx_lacpdu_cnt;
  tx_cnt = (cell p).tx_lacpdu_cnt;
  actor = (cell p).actor;
  partner = (cell p).partner;
}

copied_eq :
    (ports : List ℕ) (s : PortState) (i : ℕ) (p : Port)
    → elem p.master_port ports ≡ true
    → copy_port_state ports s i p ≡ returns (copied s i p)
unfolding copy_port_state
copied_eq ports s i p h = rw h refl

same_round :
    {R : Type 0} (c d : Bool) (Skip More : Outcome R) (skip stop more : R)
    → Skip ≡ returns skip
    → (c ≡ true → d ≡ false → More ≡ returns more)
    → elim c [ false ↦ Skip | true ↦ elim d [ true ↦ returns stop | false ↦ More ] ]
      ≡ returns (elim c [ false ↦ skip | true ↦ elim d [ true ↦ stop | false ↦ more ] ])
same_round true true Skip More skip stop more h k = refl
same_round true false Skip More skip stop more h k = k refl refl
same_round false d Skip More skip stop more h k = h

-- The loop of the code is that one, if the master ports exist.
same_report :
    (ports : List ℕ) (cell : ℕ → Port) (agg_id : ℕ) (ps : List ℕ)
    → ((p : ℕ) → In p ps → (cell p).agg_id ≡ agg_id → elem (cell p).master_port ports ≡ true)
    → (cnt : ℕ) (array : List PortState) (m : ℕ)
    → report_ports ports zero_port_state cell agg_id ps cnt array m
      ≡ returns (filled_ports cell agg_id ps cnt array m)
unfolding report_ports filled_ports is_master
same_report ports cell agg_id [] h cnt array m = refl
same_report ports cell agg_id (p ∷ ps) h cnt array m =
    let rest = same_report ports cell agg_id ps (λ j i. h j (ground (arith, i))) in
    let s = copied (get_or array cnt zero_port_state) p (cell p) in
    let next = if leads p (cell p) then cnt else m in
    same_round ((cell p).agg_id == agg_id) (leb 8 cnt) _ _ _ _ _ (rest cnt array m) (λ e _.
      ap
        (λ o. o >>= λ t.
          report_ports ports zero_port_state cell agg_id ps (cnt + 1) (set array cnt t) next)
        (copied_eq ports (get_or array cnt zero_port_state) p (cell p)
          (h p (ground arith) ((==_iff (cell p).agg_id agg_id).0 e)))
      ∙ rest (cnt + 1) (set array cnt s) next)

shown_entries :
    (cell : ℕ → Port) (n : ℕ) (ps : List ℕ)
    → map to_trunk_state (pad zero_port_state n (map (lacp_entry cell) ps))
      ≡ pad no_entry n (map (entry cell) ps)
unfolding to_trunk_state change_to_slot_port
shown_entries cell zero ps = refl
shown_entries cell (suc n) [] = ap (λ l. no_entry ∷ l) (shown_entries cell n [])
shown_entries cell (suc n) (p ∷ ps) = ap (λ l. entry cell p ∷ l) (shown_entries cell n ps)

-- If the master ports of the ports of an aggregation exist, `trunk_agg_get_state` returns; the array
-- then holds the entries of the first eight ports of the aggregation, in the order of the list of
-- ports, with the slot, the port, the counts and the information of each, and empty entries after
-- them; and the master is the position of the last of these that is selected, off standby and points
-- to itself, or `TRUNK_UINT_INVALID` if there is none.
pub agg_get_state-members :
    (w : World) (agg_id : ℕ)
    → ((p : ℕ)
        → In p w.sys.ports
        → (w.cell p).agg_id ≡ agg_id
        → In (w.cell p).master_port w.sys.ports)
    → agg_get_state w agg_id
      ≡ returns (record {
        master_index =
            last_master w.cell (take 8 (members w.cell agg_id w.sys.ports)) 0 0xffff_ffff;
        ports_state = pad no_entry 8 (map (entry w.cell) (members w.cell agg_id w.sys.ports));
      })
unfolding agg_get_state agg_get_port_state
agg_get_state-members w agg_id h =
    let ps = w.sys.ports in
    ap
      (λ o.
        o >>= λ r. returns (record { master_index = r.1; ports_state = map to_trunk_state r.0 }))
      (same_report ps w.cell agg_id ps h 0 (replicate 8 zero_port_state) uint_invalid)
    ∙ ap (λ x. returns (record { master_index = x.1; ports_state = map to_trunk_state x.0 }))
        (reported w.cell agg_id ps [] 8 uint_invalid refl)
    ∙ ap
        (λ l. returns (record {
          master_index = last_master w.cell (take 8 (members w.cell agg_id ps)) 0 0xffff_ffff;
          ports_state = l;
        }))
        (shown_entries w.cell 8 (members w.cell agg_id ps))
