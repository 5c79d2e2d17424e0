-- ===== src/Tests/Simulations.antt =====
-- The theorems on the simulator of src/exchanges/simulator.py at concrete inputs.

use interview_assignment.Base.{
  ◌≡◌, refl, true, List, [], ◌∷◌, arith, pos, ◌+ℤ◌, ◌-ℤ◌, Text, text_eq,
}
use interview_assignment.Execution.Orders.{remaining_quantity}
use interview_assignment.Exchanges.Simulator.{
  Simulator, new_simulator, consume_fill_during_cancel, pop_matching_prefix,
}
use interview_assignment.Exchanges.Simulator.Trading.{
  signed_quantity, order_by_client_order_id, push_fill, order_at, put_order, write_order, emit,
  open_status_for, move_order, record_fill, new_fill, pop_reconcile_open,
}
use interview_assignment.Exchanges.Simulator.Adapter.{
  script_fill_during_cancel, reject_broad_prefix, is_execution_prefix, cancel_order, read_order,
  fill_during_cancel, pop_fill_script, finish_cancel, move_at,
}
use interview_assignment.Execution.StateMachine.{transition_child}
use interview_assignment.Execution.Ids.{starts_with}
use interview_assignment.Exchanges.Simulator.Books.{IsHonest}
use interview_assignment.Exchanges.Simulator.Fills.{takes}
use interview_assignment.Exchanges.Simulator.Operations.{
  Operation, run_operation, run_operations, run_operations-IsHonest,
}
use interview_assignment.Tests.Samples.{btc, open_child}

-- "ce_aaaaaaaaaaaa_" and "ce_aaaaaaaaaaaa_1"
abbrev prefix : Text
prefix = 99 ∷ 101 ∷ 95 ∷ 97 ∷ 97 ∷ 97 ∷ 97 ∷ 97 ∷ 97 ∷ 97 ∷ 97 ∷ 97 ∷ 97 ∷ 97 ∷ 97 ∷ 95 ∷ []

abbrev id : Text
id = 99 ∷ 101 ∷ 95 ∷ 97 ∷ 97 ∷ 97 ∷ 97 ∷ 97 ∷ 97 ∷ 97 ∷ 97 ∷ 97 ∷ 97 ∷ 97 ∷ 97 ∷ 95 ∷ 49 ∷ []

-- A buy of 7 is open, of which 4 is filled.
abbrev one_order : Simulator
one_order = record new_simulator {
  position = pos 4;
  orders = ((btc, id), record open_child { client_order_id = id }) ∷ [];
}

one_order-IsHonest : IsHonest (pos 0) one_order
unfolding ◌+ℤ◌
one_order-IsHonest = record {
  position = refl;
  booked = (record { non_negative = omega arith; within = λ h. omega arith; opened = refl }, tt);
}

-- The fill is taken: 3 is left.
three_left : takes (pos 3) (order_by_client_order_id id one_order) ≡ true
unfolding order_by_client_order_id remaining_quantity text_eq ◌-ℤ◌
three_left = refl

abbrev race : List Operation
race =
    Operation.fill_on_cancel prefix (pos 2)
    ∷ Operation.push id (pos 1) (pos 100)
    ∷ Operation.cancel btc id
    ∷ Operation.push id (pos 1) (pos 100)
    ∷ []

run_operations-IsHonest_example : IsHonest (pos 0) (run_operations race one_order)
run_operations-IsHonest_example =
    run_operations-IsHonest (pos 0) race one_order one_order-IsHonest (tt, (tt, (tt, (tt, tt))))

-- In the race 1 is filled before the cancel and 2 during it: the position is 7 and the order has
-- ended.
race_over : (run_operations race one_order).position ≡ pos 7
unfolding run_operations run_operation script_fill_during_cancel reject_broad_prefix
    is_execution_prefix push_fill order_by_client_order_id remaining_quantity write_order put_order
    open_status_for move_order transition_child signed_quantity record_fill new_fill emit
    cancel_order read_order order_at fill_during_cancel pop_fill_script consume_fill_during_cancel
    starts_with finish_cancel pop_reconcile_open pop_matching_prefix move_at text_eq ◌-ℤ◌ ◌+ℤ◌
race_over = refl
