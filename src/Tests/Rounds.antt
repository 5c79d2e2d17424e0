-- ===== src/Tests/Rounds.antt =====
-- The theorems on the rounds of src/execution/engine.py at concrete sessions.
use interview_assignment.Base.{◌≡◌, refl, true, some, [], ◌∷◌, arith, pos, ◌+ℤ◌, ◌≤ℤ◌, ok}
use interview_assignment.Execution.Models.{ExecutionStatus, ChildOrderStatus, is_terminal}
use interview_assignment.Execution.Orders.{ChildOrder, reserved_exposure}
use interview_assignment.Engine.Exposure.{ExposureTracker}
use interview_assignment.Engine.Record.{ExecutionRecord}
use interview_assignment.Engine.Exposure.Limits.{IsWithin}
use interview_assignment.Engine.Run.{run_once}
use interview_assignment.Engine.Run.Ending.{cancelled_execution_ends}
use interview_assignment.Engine.Rounds.{view, Steps, IsBalanced}
use interview_assignment.Engine.Rounds.Refinement.{
  run_rounds, tracked, StatusMoves, run_once-Steps, run_rounds-IsBalanced,
}
use interview_assignment.Engine.Rounds.Orders.{Any, Continues, filled_order-Continues}
use interview_assignment.Tests.Samples.{running, tracker, open_child, refusing, session}

running-IsBalanced : IsBalanced (view running)
unfolding view ◌+ℤ◌
running-IsBalanced = record {
  tracker = tracker;
  tracked = refl;
  balanced = refl;
  non_negative = (omega arith, tt);
  known = λ id k. k;
}

run_once-Steps_example :
    Steps (view running) (view (run_once refusing (session running)).1.execution)
run_once-Steps_example = run_once-Steps refusing (session running) running-IsBalanced

run_rounds-IsBalanced_example :
    IsBalanced (view (run_rounds refusing 3 (session running)).execution)
    × (tracked (view running) ≤ℤ tracked (view (run_rounds refusing 3 (session running)).execution))
    × StatusMoves
        (view running).status
        (view (run_rounds refusing 3 (session running)).execution).status
run_rounds-IsBalanced_example =
    run_rounds-IsBalanced refusing 3 (session running) running-IsBalanced

filled_order-Continues_example :
    Any (Continues open_child) (run_rounds refusing 3 (session running)).execution.child_orders
filled_order-Continues_example =
    filled_order-Continues refusing 3 (session running) 0 open_child running-IsBalanced refl
      (omega arith)

-- The order has been cancelled with 4 of 7 filled, and the execution is being cancelled.
abbrev cancelled_child : ChildOrder
cancelled_child = record open_child { status = ChildOrderStatus.cancelled }

abbrev clear_tracker : ExposureTracker
clear_tracker = record tracker { exposure = record tracker.exposure { live_open_quantity = pos 0 } }

abbrev cancelling : ExecutionRecord
cancelling = record running {
  status = ExecutionStatus.cancelling;
  child_orders = cancelled_child ∷ [];
  exposure_tracker = some clear_tracker;
}

clear_tracker-IsWithin : IsWithin clear_tracker
unfolding reserved_exposure ◌+ℤ◌
clear_tracker-IsWithin = record {
  tolerance = omega arith;
  confirmed = omega arith;
  live = omega arith;
  submitting = omega arith;
  cancelling = omega arith;
  uncertain = omega arith;
  limit = omega arith;
}

cancelled_execution_ends_example :
    ((run_once refusing (session cancelling)).0 ≡ ok tt)
    × ((run_once refusing (session cancelling)).1.world ≡ pos 50)
    × ((run_once refusing (session cancelling)).1.execution.status
        ≡ ExecutionStatus.partially_completed)
    × (is_terminal (run_once refusing (session cancelling)).1.execution.status ≡ true)
cancelled_execution_ends_example =
    cancelled_execution_ends refusing clear_tracker (session cancelling) refl (λ until e. cc) refl
      clear_tracker-IsWithin refl (refl, tt)
