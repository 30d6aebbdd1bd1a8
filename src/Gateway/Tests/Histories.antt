-- ===== src/Gateway/Tests/Histories.antt =====
-- Concrete histories for the theorems about the course of an operation and the capacity of the journal.
use kapsel.Base.{[], ◌∷◌, text, ◌≡◌, ◌≤◌, refl, inl, arith, ℕ_discrete}
use kapsel.Gateway.Types.{state_from_sql}
use kapsel.Gateway.Journal.Record
use kapsel.Gateway.Journal.Record.{
  Record, text_value, set, get_text, index, value_eq, set_optional, empty,
}
use kapsel.Gateway.Journal.Store.{World, identity_capacity}
use kapsel.Gateway.Journal.Steps.{requested_record, authorized_row}
use kapsel.Gateway.Journal.Capacity.{retained}
use kapsel.Gateway.Course.{standing, Reaches, IsTerminal}
use kapsel.Gateway.Course.History.{history-Reaches, history-IsTerminal}
use kapsel.Gateway.Passing.Entry.{history}
use kapsel.Gateway.Passing.Capacity.{history-capacity}
use kapsel.Gateway.Tests.{test_passes, test_row, test_retained}

history-Reaches_example :
    Reaches
      (standing (text "op-1") test_retained)
      (standing (text "op-1") (history test_passes test_retained))
history-Reaches_example = history-Reaches test_passes test_retained (text "op-1")

abbrev test_finalized : World
test_finalized = record test_retained {
  rows = set Record.state (text_value (text "finalized")) test_row ∷ [];
}

test_finalized-IsTerminal : IsTerminal (standing (text "op-1") test_finalized)
unfolding standing get_text set index state_from_sql test_row requested_record authorized_row
    value_eq set_optional empty ℕ_discrete
test_finalized-IsTerminal = inl refl

history-IsTerminal_example :
    standing (text "op-1") (history test_passes test_finalized)
    ≡ standing (text "op-1") test_finalized
history-IsTerminal_example =
    history-IsTerminal test_passes test_finalized (text "op-1") test_finalized-IsTerminal

test_retained-within : retained test_retained ≤ identity_capacity
unfolding test_retained
test_retained-within = omega arith

history-capacity_example : retained (history test_passes test_retained) ≤ identity_capacity
history-capacity_example = history-capacity test_passes test_retained test_retained-within
