-- ===== src/Tests/ReportExamples.antt =====
-- The report on an aggregation of two ports, and the order of reports.
use lacp.Base.{
  ℕ, ◌≡◌, refl, Bool, true, false, not, ◌&&◌, ◌||◌, arith, List, [], ◌∷◌, map, take, In,
}
use lacp.Trunk.{zero_port_state}
use lacp.Types.{Outcome, returns, crashes, runs_out}
use lacp.Report.{TrunkPortState, TrunkAggState, to_trunk_state, agg_get_state, port_state_compare}
use lacp.Report.Filled.{members, pad, last_master}
use lacp.Report.Contents.{no_entry, entry, agg_get_state-members}
use lacp.Report.Order.{negative, before, port_state_compare-before}
use lacp.Tests.Worlds.{two}

abbrev absent : TrunkPortState
absent = to_trunk_state zero_port_state

masters_listed :
    (p : ℕ)
    → In p two.sys.ports
    → (two.cell p).agg_id ≡ 1
    → In (two.cell p).master_port two.sys.ports
unfolding two
masters_listed p h e = refl

agg_get_state-members_example :
    agg_get_state two 1
    ≡ returns (record {
      master_index = last_master two.cell (take 8 (members two.cell 1 two.sys.ports)) 0 0xffff_ffff;
      ports_state = pad no_entry 8 (map (entry two.cell) (members two.cell 1 two.sys.ports));
    })
agg_get_state-members_example = agg_get_state-members two 1 masters_listed

abbrev shape : TrunkPortState → Bool × ℕ
shape s = (s.valid, s.port)

abbrev shapes : Outcome TrunkAggState → List (Bool × ℕ)
shapes (returns r) = map shape r.ports_state
shapes crashes = []
shapes runs_out = []

-- Both ports of the group are reported, and six entries are left as they were.
both_reported :
    shapes (agg_get_state two 1)
    ≡ (true, 2)
      ∷ (true, 1)
      ∷ (false, 1)
      ∷ (false, 1)
      ∷ (false, 1)
      ∷ (false, 1)
      ∷ (false, 1)
      ∷ (false, 1)
      ∷ []
unfolding agg_get_state two
both_reported = refl

-- A valid state of slot 0 and port 3.
abbrev third : TrunkPortState
third = record absent { valid = true; port = 3 }

port_state_compare-before_example :
    (negative (port_state_compare third absent) ≡ ((true && not false) || before third absent))
    × ((negative (port_state_compare third absent) && negative (port_state_compare absent third))
        ≡ ((true && not false && before absent third)
            || (false && not true && before third absent)))
unfolding to_trunk_state
port_state_compare-before_example =
    port_state_compare-before third absent
      (record { slot_below = omega arith; port_below = omega arith })
      (record { slot_below = omega arith; port_below = omega arith })
