-- ===== src/Settle/Reads.antt =====
-- What the potentials of the receive, selection and mux machines depend on.
use lacp.Base.{◌+◌, ◌*◌, if◌then◌else◌, ◌≡◌, ◌∙◌, refl, ap, Bool, true, false}
use lacp.Types.{Port, RxState, SelState, MuxState, StateMach}
use lacp.Settle.{rx_value, rx_potential, sel_potential, mux_rank, mux_potential}

pub record Reads (p q : Port) : Type 0 where
  pub lacp_same : q.lacp_enabled ≡ p.lacp_enabled
  pub agg_same : q.agg_id ≡ p.agg_id
  pub rx_same : q.rx ≡ p.rx
  pub sel_same : q.sel ≡ p.sel
  pub enabled_same : q.port_enabled ≡ p.port_enabled
  pub moved_same : q.port_moved ≡ p.port_moved
  pub rcvd_same : q.rcvd_lacpdu ≡ p.rcvd_lacpdu
  pub timer_same : q.current_while ≡ p.current_while

rx_value-Reads : (s : RxState) (c : Bool) (p q : Port) → Reads p q → rx_value s c q ≡ rx_value s c p
rx_value-Reads RxState.begin true p q r = refl
rx_value-Reads RxState.begin false p q r = refl
rx_value-Reads RxState.initialize true p q r = rw (r.enabled_same, r.moved_same)
rx_value-Reads RxState.initialize false p q r = rw (r.enabled_same, r.moved_same)
rx_value-Reads RxState.port_disabled true p q r = rw (r.enabled_same, r.moved_same)
rx_value-Reads RxState.port_disabled false p q r = rw (r.enabled_same, r.moved_same)
rx_value-Reads RxState.lacp_disabled true p q r = rw (r.enabled_same, r.moved_same)
rx_value-Reads RxState.lacp_disabled false p q r = rw (r.enabled_same, r.moved_same)
rx_value-Reads RxState.expired true p q r = rw (r.enabled_same, r.moved_same, r.rcvd_same)
rx_value-Reads RxState.expired false p q r =
    rw (r.enabled_same, r.moved_same, r.rcvd_same, r.timer_same)
rx_value-Reads RxState.defaulted true p q r = rw (r.enabled_same, r.moved_same, r.rcvd_same)
rx_value-Reads RxState.defaulted false p q r = rw (r.enabled_same, r.moved_same, r.rcvd_same)
rx_value-Reads RxState.current true p q r = rw (r.enabled_same, r.moved_same)
rx_value-Reads RxState.current false p q r =
    rw (r.enabled_same, r.moved_same, r.rcvd_same, r.timer_same)

pub rx_potential-Reads : (p q : Port) → Reads p q → rx_potential q ≡ rx_potential p
rx_potential-Reads p q r =
    rx_value-Reads q.rx.state q.rx.change_state p q r
    ∙ ap (λ m. rx_value m.state m.change_state p) r.rx_same

pub sel_potential-Reads :
    (p q : Port) → Reads p q → q.selected ≡ p.selected → sel_potential q ≡ sel_potential p
sel_potential-Reads p q r e = rw (r.sel_same, e)

mux_rank_reads :
    (s : MuxState) (p q : Port)
    → q.lacp_enabled ≡ p.lacp_enabled
    → q.selected ≡ p.selected
    → q.standby ≡ p.standby
    → q.partner ≡ p.partner
    → mux_rank s q ≡ mux_rank s p
mux_rank_reads MuxState.begin p q l e b n = rw (l, e, b)
mux_rank_reads MuxState.disable p q l e b n = rw (l, e, b)
mux_rank_reads MuxState.detached p q l e b n = rw (l, e, b)
mux_rank_reads MuxState.waiting p q l e b n = rw (l, e, b)
mux_rank_reads MuxState.ready_n p q l e b n = rw (l, e, b)
mux_rank_reads MuxState.attached p q l e b n = rw l
mux_rank_reads MuxState.rx_tx p q l e b n = rw (l, e, b, n)

pub mux_potential_reads :
    (p q : Port)
    → q.mux ≡ p.mux
    → q.lacp_enabled ≡ p.lacp_enabled
    → q.selected ≡ p.selected
    → q.standby ≡ p.standby
    → q.partner ≡ p.partner
    → mux_potential q ≡ mux_potential p
mux_potential_reads p q m l e b n =
    ap (λ r. 2 * r + (if q.mux.change_state then 1 else 0)) (mux_rank_reads q.mux.state p q l e b n)
    ∙ ap (λ f. 2 * mux_rank f.state p + (if f.change_state then 1 else 0)) m

-- The state of the selection machine is not among it for the receive machine.
pub rx_value_sel :
    (s : RxState) (c : Bool) (p : Port) (m : StateMach SelState)
    → rx_value s c (record p { sel = m }) ≡ rx_value s c p
rx_value_sel RxState.begin true p m = refl
rx_value_sel RxState.begin false p m = refl
rx_value_sel RxState.initialize true p m = refl
rx_value_sel RxState.initialize false p m = refl
rx_value_sel RxState.port_disabled true p m = refl
rx_value_sel RxState.port_disabled false p m = refl
rx_value_sel RxState.lacp_disabled true p m = refl
rx_value_sel RxState.lacp_disabled false p m = refl
rx_value_sel RxState.expired true p m = refl
rx_value_sel RxState.expired false p m = refl
rx_value_sel RxState.defaulted true p m = refl
rx_value_sel RxState.defaulted false p m = refl
rx_value_sel RxState.current true p m = refl
rx_value_sel RxState.current false p m = refl
