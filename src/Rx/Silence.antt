-- ===== src/Rx/Silence.antt =====
-- lacp_rx.c and the ticks of lacp_api.c: what happens to a port whose partner falls silent.
use lacp.Base.{
  ℕ, zero, suc, ◌-◌, ◌≡◌, refl, ap, ◌∙◌, true, false, ltb, if◌then◌else◌, Option, none, some, arith,
}
use lacp.Types.{Port, LacpSys, RxState, expired, current, defaulted}
use lacp.Statmch.{hop_2_state}
use lacp.Rx.{
  check_conditions, enter_expired, enter_defaulted, update_default_selected, record_default,
}
use lacp.Api.{tick_port}

-- The port after some ticks.
abbrev pub ticks : ℕ → Port → Port
ticks zero p = p
ticks (suc n) p = ticks n (tick_port p)

-- The port whose receive machine has hopped to a state.
abbrev pub hopped : RxState → Port → Port
hopped s p = record p { rx = hop_2_state p.rx s }

ticks-while : (n : ℕ) (p : Port) → (ticks n p).current_while ≡ p.current_while - n
unfolding tick_port
ticks-while zero p = omega arith
ticks-while (suc n) p = ticks-while n (tick_port p) ∙ omega arith

-- A tick changes the timers and the hold count.
pub record SameButTimers (p q : Port) : Type 0 where
  pub rx_same : q.rx ≡ p.rx
  pub enabled_same : q.port_enabled ≡ p.port_enabled
  pub rcvd_same : q.rcvd_lacpdu ≡ p.rcvd_lacpdu
  pub admin_same : q.partner_admin ≡ p.partner_admin

ticks-SameButTimers : (n : ℕ) (p : Port) → SameButTimers p (ticks n p)
unfolding tick_port
ticks-SameButTimers zero p = record {
  rx_same = refl;
  enabled_same = refl;
  rcvd_same = refl;
  admin_same = refl;
}
ticks-SameButTimers (suc n) p =
    let r = ticks-SameButTimers n (tick_port p) in
    record {
      rx_same = r.rx_same;
      enabled_same = r.enabled_same;
      rcvd_same = r.rcvd_same;
      admin_same = r.admin_same;
    }

-- Whether the timer has run out after `n` ticks.
abbrev pub expires : ℕ → ℕ → RxState → Option RxState
expires timer n s = if ltb n timer then none else some s

waits_current :
    (p q : Port) (n : ℕ)
    → p.rx.state ≡ current
    → p.port_enabled ≡ true
    → p.rcvd_lacpdu ≡ false
    → SameButTimers p q
    → q.current_while ≡ p.current_while - n
    → check_conditions q ≡ expires p.current_while n expired
unfolding check_conditions
waits_current p q n a b c r t =
    let d = ap (λ m. m.state) r.rx_same in
    let e = r.enabled_same in let f = r.rcvd_same in ground arith

waits_expired :
    (p q : Port) (n : ℕ)
    → p.rx.state ≡ expired
    → p.port_enabled ≡ true
    → p.rcvd_lacpdu ≡ false
    → SameButTimers p q
    → q.current_while ≡ p.current_while - n
    → check_conditions q ≡ expires p.current_while n defaulted
unfolding check_conditions
waits_expired p q n a b c r t =
    let d = ap (λ m. m.state) r.rx_same in
    let e = r.enabled_same in let f = r.rcvd_same in ground arith

update_default_selected-admin :
    (p : Port) → (update_default_selected p).partner_admin ≡ p.partner_admin
unfolding update_default_selected
update_default_selected-admin p = ground arith

-- The port in EXPIRED, as it enters that state from `p`.
abbrev pub after_expiry : LacpSys → Port → Port
after_expiry sys p = enter_expired sys (hopped expired p)

-- A port in CURRENT with its link up that receives no frame stays there for exactly the seconds of
-- its timer, and then hops to EXPIRED, with its partner out of sync; from there, without a frame,
-- it hops to DEFAULTED after exactly `short_timeout_time` more; and there it takes its partner
-- from its own configuration.
pub silent_partner :
    (sys : LacpSys) (p : Port) (n m : ℕ)
    → p.rx.state ≡ current
    → p.port_enabled ≡ true
    → p.rcvd_lacpdu ≡ false
    → (check_conditions (ticks n p) ≡ expires p.current_while n expired)
      × ((after_expiry sys (ticks n p)).partner.state.synchronization ≡ false)
      × (check_conditions (ticks m (after_expiry sys (ticks n p)))
          ≡ expires sys.short_timeout_time m defaulted)
      × ((enter_defaulted (ticks m (after_expiry sys (ticks n p)))).partner ≡ p.partner_admin)
unfolding enter_expired enter_defaulted hop_2_state record_default
silent_partner sys p n m a b c =
    let q = ticks n p in
    let r = after_expiry sys q in
    let s = ticks-SameButTimers n p in
    let t = ticks-SameButTimers m r in
    (
      waits_current p q n a b c s (ticks-while n p),
      refl,
      waits_expired r (ticks m r) m refl (s.enabled_same ∙ b) (s.rcvd_same ∙ c) t (ticks-while m r),
      ap (λ a. a) (update_default_selected-admin (ticks m r)) ∙ t.admin_same ∙ s.admin_same,
    )
