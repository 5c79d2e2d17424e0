-- ===== src/Tests/Summaries.antt =====
-- The theorems on summaries (src/execution/engine.py) and on the service
-- (src/execution/service.py).
use interview_assignment.Base.{
  ◌≡◌, ◌⊎◌, refl, none, some, [], ◌∷◌, map, text_eq, Text, ◌+ℤ◌, ◌-ℤ◌, ◌*ℤ◌, arith, pos, length,
}
use interview_assignment.Base.Dict.{lookup}
use interview_assignment.Execution.Models.{Algorithm, Environment}
use interview_assignment.Engine.Record.{ExecutionRecord}
use interview_assignment.Base.Context.{dec_div, dec_ceil}
use interview_assignment.Engine.Summary.{notional, total_quantity, summary_vwap_inputs}
use interview_assignment.Engine.Summary.Ledger.{
  settle_rows, count_in_rows, change_row, empty_rows, slice_at, empty_twap_slice_ledger_row,
  count_in_row, has_ledger, twap_slice_ledger, twap_child_slice_index,
}
use interview_assignment.Engine.Summary.Totals.{total, twap_slice_ledger_complete}
use interview_assignment.Engine.Summary.Weights.{AllCovered, summary_vwap_inputs_weight}
use interview_assignment.Execution.Service.{Executions, keep_execution, active_execution_for}
use interview_assignment.Execution.Service.Active.{IsActiveOn, active_execution_for_exact}
use interview_assignment.Tests.Samples.{btc, request, first_id, open_child, running}

-- The execution under TWAP, in four slices of 15 seconds; its order went out 20 seconds after the
-- start.
abbrev sliced : ExecutionRecord
sliced = record running {
  request = record request { algorithm = Algorithm.twap };
  child_submitted_monotonic = (first_id, pos 20_000_000_000) ∷ [];
  child_authoritative_fill_intervals = (first_id, (pos 0, pos 3) ∷ []) ∷ [];
  fill_vwap_inputs = (pos 100, pos 3) ∷ [];
}

second_slice :
    map (λ row. row.filled_quantity) (twap_slice_ledger sliced) ≡ pos 0 ∷ pos 4 ∷ pos 0 ∷ pos 0 ∷ []
unfolding twap_slice_ledger has_ledger settle_rows count_in_rows change_row empty_rows
    twap_child_slice_index slice_at lookup text_eq dec_div ◌-ℤ◌ dec_ceil empty_twap_slice_ledger_row
    count_in_row ◌+ℤ◌
second_slice = refl

twap_slice_ledger_complete_example :
    let rows = twap_slice_ledger sliced in
    (length rows ≡ 4)
    × (total (λ row. row.filled_quantity) rows ≡ pos 4)
    × (total (λ row. row.submitted_quantity) rows
        ≡ total (λ c. c.submitted_quantity) sliced.child_orders)
    × (total (λ row. pos (length row.client_order_ids)) rows ≡ pos 1)
unfolding has_ledger ◌+ℤ◌
twap_slice_ledger_complete_example = twap_slice_ledger_complete sliced refl

covered : AllCovered sliced.child_authoritative_fill_intervals sliced.child_orders
unfolding lookup text_eq
covered = (
  record {
    non_negative = omega arith;
    disjoint = (omega arith, omega arith, tt, tt);
    ends = (omega arith, tt);
  },
  tt,
)

-- The fill of 4 of which 3 were traded at 100; the other one counts at the order's price.
summary_vwap_inputs_weight_example :
    (total_quantity (summary_vwap_inputs sliced) ≡ pos 4)
    × (notional (summary_vwap_inputs sliced) ≡ pos 300 +ℤ open_child.price)
unfolding ◌+ℤ◌ ◌-ℤ◌ ◌*ℤ◌ total_quantity notional lookup text_eq
summary_vwap_inputs_weight_example = summary_vwap_inputs_weight sliced covered refl

abbrev table : Executions
table = keep_execution sliced []

active_execution_for_exact_example :
    ((k : Text) × (r : ExecutionRecord) × IsActiveOn Environment.simulation btc table k r
      × (active_execution_for Environment.simulation btc table ≡ some (some r)))
    ⊎ ((active_execution_for Environment.simulation btc table ≡ some none)
        × ¬ ((k : Text) × (r : ExecutionRecord) × IsActiveOn Environment.simulation btc table k r))
active_execution_for_exact_example = active_execution_for_exact Environment.simulation btc table
