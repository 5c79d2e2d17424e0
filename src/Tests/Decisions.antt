-- ===== src/Tests/Decisions.antt =====
-- The theorems on the decisions that come before an order: validation, rounding, repricing, ids and
-- the transition tables.
use interview_assignment.Base.{
  ℕ, ◌+◌, ◌≤◌, ◌≡◌, refl, ◌↔◌, true, not, [], ◌∷◌, ℤ, pos, negsuc, ◌+ℤ◌, ◌*ℤ◌, ◌≤ℤ◌, ◌<ℤ◌, length,
  Exception, ok, raised,
}
use interview_assignment.Execution.Models.{
  Side, RepricingMode, ExecutionStatus, ChildOrderStatus, is_buy, is_terminal,
}
use interview_assignment.Execution.Orders.{required_trade, signed, required_trade_reaches_target}
use interview_assignment.Execution.StateMachine.{transition_execution}
use interview_assignment.Execution.StateMachine.Lifecycle.{
  stage, Moves, stay, move, Refused, lifecycle_bounded, terminal_iff_stuck,
}
use interview_assignment.Execution.Ids.{
  make_client_order_id, make_client_order_prefix, decimal_digits, all_id_chars,
}
use interview_assignment.Execution.Ids.Unique.{make_client_order_id_unique}
use interview_assignment.Risk.DecimalMath.{round_price, floor_to_step}
use interview_assignment.Risk.DecimalMath.Steps.{round_price_directed, floor_to_step_greatest}
use interview_assignment.Risk.Validation.{validate_child_order_safety}
use interview_assignment.Risk.Validation.Safety.{IsSafeOrder, validation_exact}
use interview_assignment.Algorithms.Chase.{ChaseDecision, should_reprice}
use interview_assignment.Algorithms.Chase.Decisions.{Replaces, should_reprice_exact}
use interview_assignment.Engine.ChildStatus.{Settles, set_status_lem}
use interview_assignment.Tests.Samples.{rules, first_id}

validation_exact_example :
    (validate_child_order_safety
        (pos 2)
        (pos 95)
        Side.buy
        rules
        (pos 100)
        (pos 105)
        true
        (pos 90)
        (pos 110)
      ≡ ok tt)
    ↔ IsSafeOrder (pos 2) (pos 95) Side.buy rules (pos 100) (pos 105) true (pos 90) (pos 110)
validation_exact_example =
    validation_exact (pos 2) (pos 95) Side.buy rules (pos 100) (pos 105) true (pos 90) (pos 110)

should_reprice_exact_example :
    (should_reprice Side.buy
        (pos 100)
        (pos 105)
        (pos 5)
        (pos 1000)
        (pos 2000)
        RepricingMode.adverse_only
      ≡ ChaseDecision.reprice)
    ↔ Replaces Side.buy (pos 100) (pos 105) (pos 5) (pos 1000) (pos 2000) RepricingMode.adverse_only
should_reprice_exact_example =
    should_reprice_exact Side.buy (pos 100) (pos 105) (pos 5) (pos 1000) (pos 2000)
      RepricingMode.adverse_only

round_price_directed_example :
    (r : ℤ) × (round_price (pos 103) (pos 5) Side.buy true ≡ ok r)
    × ((m : ℤ) × (r ≡ m *ℤ pos 5))
    × (is_buy Side.buy ≡ true → (r ≤ℤ pos 103) × (pos 103 <ℤ r +ℤ pos 5))
    × (is_buy Side.buy ≡ not true → (pos 103 ≤ℤ r) × (r <ℤ pos 103 +ℤ pos 5))
round_price_directed_example = round_price_directed (pos 103) 4 Side.buy true

floor_to_step_greatest_example :
    (pos 7 <ℤ pos 0 → floor_to_step (pos 7) (pos 2) ≡ raised Exception.value_error)
    × (pos 0 ≤ℤ pos 7
        → (r m : ℤ) × (floor_to_step (pos 7) (pos 2) ≡ ok r)
          × (r ≡ m *ℤ pos 2)
          × (pos 0 ≤ℤ r)
          × (r ≤ℤ pos 7)
          × (pos 7 <ℤ r +ℤ pos 2))
floor_to_step_greatest_example = floor_to_step_greatest (pos 7) 1

required_trade_reaches_target_example :
    (pos 3 +ℤ signed (required_trade (negsuc 1) (pos 3)) ≡ negsuc 1)
    × (pos 0 ≤ℤ (required_trade (negsuc 1) (pos 3)).1)
    × (((required_trade (negsuc 1) (pos 3)).0 ≡ Side.no_action) ↔ (negsuc 1 ≡ pos 3))
required_trade_reaches_target_example = required_trade_reaches_target (negsuc 1) (pos 3)

abbrev first_sequence : ℕ
first_sequence = 1

first_id_made : make_client_order_id (97 ∷ []) first_sequence ≡ ok first_id
unfolding make_client_order_id make_client_order_prefix decimal_digits all_id_chars
first_id_made = refl

make_client_order_id_unique_example :
    (first_sequence ≡ 1) × (length first_id ≤ 36) × (all_id_chars first_id ≡ true)
make_client_order_id_unique_example =
    make_client_order_id_unique (97 ∷ []) first_sequence 1 first_id first_id_made first_id_made

to_running : Moves 2 ExecutionStatus.created ExecutionStatus.running
unfolding transition_execution
to_running =
    move {t = ExecutionStatus.validating} refl
      (move {t = ExecutionStatus.running} refl (stay ExecutionStatus.running))

lifecycle_bounded_example :
    (2 + stage ExecutionStatus.created ≤ stage ExecutionStatus.running) × (2 ≤ 4)
lifecycle_bounded_example = lifecycle_bounded to_running

terminal_iff_stuck_example :
    (is_terminal ExecutionStatus.expired ≡ true)
    ↔ ((t : ExecutionStatus) → Refused ExecutionStatus.expired t)
terminal_iff_stuck_example = terminal_iff_stuck ExecutionStatus.expired

set_status_lem_example : Settles ChildOrderStatus.pending_submit ChildOrderStatus.cancelled
set_status_lem_example = set_status_lem ChildOrderStatus.pending_submit ChildOrderStatus.cancelled
