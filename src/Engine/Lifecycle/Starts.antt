-- ===== src/Engine/Lifecycle/Starts.antt =====
-- How `create_execution` of src/execution/engine.py leaves an execution.
use interview_assignment.Base.{
  ◌≡◌, refl, inl, inr, Bool, true, false, ◌||◌, Option, some, [], arith, Bool-cases, is_some, ℤ,
  pos, Decimal, ◌≤ℤ◌, eq_ℤ, int_laws, Text, Result, ok,
}
use interview_assignment.Execution.Models.{
  Side, ExecutionStatus, is_no_action, ExecutionRequest, SymbolRules, PositionSnapshot,
}
use interview_assignment.Execution.Orders.{empty_exposure, reserved_exposure}
use interview_assignment.Execution.StateMachine.{transition_execution}
use interview_assignment.Engine.Exposure.{ExposureTracker, available_to_submit}
use interview_assignment.Engine.Record.{ExecutionRecord}
use interview_assignment.Engine.Exposure.{require_non_negative, new_tracker}
use interview_assignment.Engine.Exposure.Limits.{IsWithin}
use interview_assignment.Engine.Fills.Balance.{IsAccounted}
use interview_assignment.Engine.Demand.{target_cannot_meet}
use interview_assignment.Engine.Lifecycle.{
  new_record, complete_at_once, start_running, start_execution,
}

-- A running execution with nothing ordered yet.
pub record IsRunning (required : Decimal) (t : ExposureTracker) (r : ExecutionRecord) : Type 0 where
  pub running : r.status ≡ ExecutionStatus.running
  pub target : t.target_quantity ≡ required
  pub within : IsWithin t
  pub accounted : IsAccounted t r
  pub all_available : available_to_submit t ≡ required

-- An execution with nothing to trade.
pub record IsDone (now : Decimal) (r : ExecutionRecord) : Type 0 where
  pub completed : r.status ≡ ExecutionStatus.completed
  pub ended : r.completed_monotonic ≡ some now
  pub summarised : is_some r.summary ≡ true
  pub nothing_ordered : r.child_orders ≡ []

unfoldable pub fresh : ℤ → ExposureTracker
fresh q = record {
  target_quantity = q;
  permitted_tolerance = pos 0;
  exposure = empty_exposure;
  seen_trade_ids = [];
}

new_tracker_lem : (q : ℤ) → pos 0 ≤ℤ q → new_tracker q ≡ ok (fresh q)
unfolding new_tracker require_non_negative fresh
new_tracker_lem q h = ground arith

fresh-IsWithin : (q : ℤ) → pos 0 ≤ℤ q → IsWithin (fresh q)
unfolding fresh reserved_exposure
fresh-IsWithin q h = record {
  tolerance = omega arith;
  confirmed = omega arith;
  live = omega arith;
  submitting = omega arith;
  cancelling = omega arith;
  uncertain = omega arith;
  limit = grind int_laws;
}

fresh-available : (q : ℤ) → pos 0 ≤ℤ q → available_to_submit (fresh q) ≡ q
unfolding fresh reserved_exposure available_to_submit
fresh-available q h = grind int_laws

module _ (now : Decimal) (rules : Option SymbolRules) (id : Text) (request : ExecutionRequest)
    (side : Side) (required raw dust : Decimal) (position : PositionSnapshot) where
  abbrev pub created : ExecutionRecord
  created = new_record id request side required position raw dust

  abbrev pub validating : ExecutionRecord
  validating = record created { status = ExecutionStatus.validating }

  abbrev pub started : Result (Unit {0}) × ExecutionRecord
  started = start_execution now rules created

  done :
      (complete_at_once now validating).0 ≡ ok tt × IsDone now (complete_at_once now validating).1
  unfolding complete_at_once new_record transition_execution
  done =
      (refl, record { completed = refl; ended = refl; summarised = refl; nothing_ordered = refl })

  runs :
      pos 0 ≤ℤ required
      → ((start_running now validating).0 ≡ ok tt)
        × IsRunning required (fresh required) (start_running now validating).1
  unfolding start_running new_record transition_execution fresh
  runs h = rw (new_tracker_lem required h) (
    refl,
    record {
      running = refl;
      target = refl;
      within = fresh-IsWithin required h;
      accounted = record {
        tracked = refl;
        balanced = refl;
        non_negative = tt;
        known = λ j k. ground arith;
      };
      all_available = fresh-available required h;
    },
  )

  -- Where the required quantity is not negative and the check of the exchange's minimums returns,
  -- starting an execution returns: with nothing to trade, or with a target that no order can
  -- meet, it is completed with a summary and no order; else it is running, its tracker is within
  -- the target and accounts for the children, and the whole quantity is available.
  pub start_outcome :
      (unmet : Bool)
      → pos 0 ≤ℤ required
      → target_cannot_meet validating rules ≡ ok unmet
      → let idle = is_no_action side || eq_ℤ required (pos 0) || unmet in
        (started.0 ≡ ok tt)
        × (idle ≡ true → IsDone now started.1)
        × (idle ≡ false → IsRunning required (fresh required) started.1)
  unfolding start_execution new_record transition_execution
  start_outcome unmet h e =
      let (d, k) = done in
      let (x, y) = runs h in
      elim (Bool-cases (is_no_action side || eq_ℤ required (pos 0))) [
        | inl nothing ↦ rw nothing (d, λ _. k, λ n. ground arith)
        | inr wanted ↦
            rw (wanted, e)
              (elim (Bool-cases unmet) [
                | inl unsold ↦ rw unsold (d, λ _. k, λ n. ground arith)
                | inr met ↦ rw met (x, λ n. ground arith, λ _. y)
              ])
      ]
