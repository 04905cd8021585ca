-- ===== src/Live/Settings.antt =====
-- trunk_api.c: the settings of the system, written and read.
use lacp.Base.{ℕ, ◌≤◌, ◌<◌, ◌≡◌, refl, ap, ◌∙◌, ◌%◌}
use lacp.Types.{World, LacpSys, Outcome, u16}
use lacp.Settle.Energy.{enough}
use lacp.Api.{port_max}
use lacp.Events.{set_sys, sys_set_cfg}
use lacp.Query.{sys_get_cfg}
use lacp.Trunk.{
  zero_sys_cfg, sys_set_prio, sys_set_long_period, sys_set_short_period, sys_set_period,
  TrunkSysCfg, trunk_get_cfg,
}
use lacp.Stub.{db_set_sys_prio}
use lacp.Live.{restub-IsReady, Returns, Returns-bind, Returns-map, IsReady}
use lacp.Live.Config.{sys_set_cfg-IsReady}

-- The call returns a ready system with these parameters.
abbrev Sets : Outcome World → LacpSys → Type 0
Sets m s = Returns m (λ v. IsReady v × (v.sys ≡ s))

abbrev show : LacpSys → TrunkSysCfg
show s = record {
  prio = s.priority;
  long_period = s.slow_periodic_time;
  short_period = s.fast_periodic_time;
  period = s.lacp_timeout;
}

module _ (fuel : ℕ) (enough_fuel : enough port_max ≤ fuel) where
  prio_Sets :
      (prio : ℕ) (w : World)
      → IsReady w
      → Sets (sys_set_prio fuel prio w) (record (w.sys) { priority = u16 prio })
  unfolding sys_set_prio set_sys
  prio_Sets prio w r =
      Returns-bind (sys_set_cfg fuel (record zero_sys_cfg { field_mask = 4; priority = prio }) w) _
        (λ v. IsReady v × (v.sys ≡ record (w.sys) { priority = u16 prio })) _
        (sys_set_cfg-IsReady fuel (record zero_sys_cfg { field_mask = 4; priority = prio }) w
          enough_fuel refl refl
          (record {
            ports = refl;
            short_timeout = refl;
            long_timeout = refl;
            slow_period = λ h. h;
            fast_period = λ h. h;
          })
          r)
        (λ v (k, e). (restub-IsReady v (db_set_sys_prio v.stub prio) k, e))

  long_Sets :
      (period : ℕ) (w : World)
      → 0 < u16 period
      → IsReady w
      → Sets
          (sys_set_long_period fuel period w)
          (record (w.sys) { slow_periodic_time = u16 period })
  unfolding sys_set_long_period set_sys
  long_Sets period w p r =
      sys_set_cfg-IsReady fuel (record zero_sys_cfg { field_mask = 8; long_period = period }) w
        enough_fuel refl refl
        (record {
          ports = refl;
          short_timeout = refl;
          long_timeout = refl;
          slow_period = λ _. p;
          fast_period = λ h. h;
        })
        r

  short_Sets :
      (period : ℕ) (w : World)
      → 0 < u16 period
      → IsReady w
      → Sets
          (sys_set_short_period fuel period w)
          (record (w.sys) { fast_periodic_time = u16 period })
  unfolding sys_set_short_period set_sys
  short_Sets period w p r =
      sys_set_cfg-IsReady fuel (record zero_sys_cfg { field_mask = 16; short_period = period }) w
        enough_fuel refl refl
        (record {
          ports = refl;
          short_timeout = refl;
          long_timeout = refl;
          slow_period = λ h. h;
          fast_period = λ _. p;
        })
        r

  period_Sets :
      (is_short : ℕ) (w : World)
      → IsReady w
      → Sets (sys_set_period fuel is_short w) (record (w.sys) { lacp_timeout = is_short })
  unfolding sys_set_period set_sys
  period_Sets is_short w r =
      sys_set_cfg-IsReady fuel (record zero_sys_cfg { field_mask = 32; period = is_short }) w
        enough_fuel refl refl
        (record {
          ports = refl;
          short_timeout = refl;
          long_timeout = refl;
          slow_period = λ h. h;
          fast_period = λ h. h;
        })
        r

  -- The settings that the four calls leave.
  ready : (m : Outcome World) (s : LacpSys) → Sets m s → Returns m IsReady
  ready m s h = Returns-map m _ IsReady h (λ v k. k.0)

  pub sys_set_prio-IsReady :
      (prio : ℕ) (w : World) → IsReady w → Returns (sys_set_prio fuel prio w) IsReady
  sys_set_prio-IsReady prio w r = ready _ _ (prio_Sets prio w r)

  pub sys_set_long_period-IsReady :
      (period : ℕ) (w : World)
      → 0 < u16 period
      → IsReady w
      → Returns (sys_set_long_period fuel period w) IsReady
  sys_set_long_period-IsReady period w p r = ready _ _ (long_Sets period w p r)

  pub sys_set_short_period-IsReady :
      (period : ℕ) (w : World)
      → 0 < u16 period
      → IsReady w
      → Returns (sys_set_short_period fuel period w) IsReady
  sys_set_short_period-IsReady period w p r = ready _ _ (short_Sets period w p r)

  pub sys_set_period-IsReady :
      (is_short : ℕ) (w : World) → IsReady w → Returns (sys_set_period fuel is_short w) IsReady
  sys_set_period-IsReady is_short w r = ready _ _ (period_Sets is_short w r)

  shown :
      (m : Outcome World) (s : LacpSys) (c : TrunkSysCfg)
      → Sets m s
      → (show s ≡ c)
      → Returns m (λ v. trunk_get_cfg v ≡ c)
  unfolding trunk_get_cfg sys_get_cfg
  shown m s c h e = Returns-map m _ _ h (λ v (k, d). ap show d ∙ e)

-- In a system between two calls, each of the four settings returns, with enough fuel; after it the
-- configuration reads as before, but for that setting, of which the 16 low bits are kept, or for
-- the kind of period the number that was given. The long and the short period that are set must
-- not be a multiple of 2^16.
pub trunk_get_cfg-sys_set :
    (fuel prio long short period : ℕ) (w : World)
    → enough port_max ≤ fuel
    → 0 < long % 65536
    → 0 < short % 65536
    → IsReady w
    → Returns
        (sys_set_prio fuel prio w)
        (λ v. trunk_get_cfg v ≡ record (trunk_get_cfg w) { prio = prio % 65536 })
      × Returns
          (sys_set_long_period fuel long w)
          (λ v. trunk_get_cfg v ≡ record (trunk_get_cfg w) { long_period = long % 65536 })
      × Returns
          (sys_set_short_period fuel short w)
          (λ v. trunk_get_cfg v ≡ record (trunk_get_cfg w) { short_period = short % 65536 })
      × Returns
          (sys_set_period fuel period w)
          (λ v. trunk_get_cfg v ≡ record (trunk_get_cfg w) { period = period })
unfolding trunk_get_cfg sys_get_cfg
trunk_get_cfg-sys_set fuel prio long short period w f l s r = (
  shown fuel f _ _ _ (prio_Sets fuel f prio w r) refl,
  shown fuel f _ _ _ (long_Sets fuel f long w l r) refl,
  shown fuel f _ _ _ (short_Sets fuel f short w s r) refl,
  shown fuel f _ _ _ (period_Sets fuel f period w r) refl,
)
