-- ===== src/Tests/SettleExamples.antt =====
-- The end of `lacp_sys_update`, at two ports on which LACP has just been turned on.
use lacp.Base.{ℕ, ◌≡◌, refl, some, arith}
use lacp.Types.{World, returns}
use lacp.Sys.{sys_update, all_machines}
use lacp.Settle.Energy.{enough}
use lacp.Settle.Loop.{IsTimed}
use lacp.Settle.Passes.{Quiet}
use lacp.Settle.Ends.{AtRest, machines_of, sys_update-AtRest}
use lacp.Settle.Clock.{seconds, seconds-AtRest}
use lacp.Tests.Worlds.{two}

two-IsTimed : IsTimed two
unfolding two
two-IsTimed = record {
  short_timeout = omega arith;
  long_timeout = omega arith;
  slow_period = omega arith;
  fast_period = omega arith;
  has_agg = λ j h. refl;
}

two-Quiet : Quiet two (machines_of two)
unfolding two all_machines
two-Quiet = (refl, (refl, (refl, (refl, (refl, (refl, (refl, (refl, tt))))))))

sys_update-AtRest_example :
    (v : World) × (n : ℕ) × (sys_update (enough 2) two ≡ some (v, n)) × AtRest two v
unfolding two
sys_update-AtRest_example = sys_update-AtRest two two-IsTimed two-Quiet

seconds-AtRest_example : (v : World) × (seconds (enough 2) 4 two ≡ returns v) × AtRest two v
unfolding two
seconds-AtRest_example = seconds-AtRest 3 two refl two-IsTimed two-Quiet
