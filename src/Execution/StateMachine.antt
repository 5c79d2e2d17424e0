-- ===== src/Execution/StateMachine.antt =====
-- src/execution/state_machine.py: the tables of legal transitions and the functions that enforce
-- them. Children: `Lifecycle` proves what the tables guarantee.
pub mod Lifecycle
use interview_assignment.Base.{
  ℕ, zero, suc, ◌+◌, ◌-◌, ◌*◌, ◌/◌, ◌%◌, ◌≤◌, ◌<◌, String, ◌≡◌, refl, sym, ap, ◌∙◌, ◌≢◌, ◌↔◌, ◌⊎◌,
  inl, inr, Bool, true, false, ◌&&◌, ◌||◌, not, Option, none, some, List, [], ◌∷◌, ◌++◌, map, arith,
  ltb, leb, ◌==◌, if◌then◌else◌, ltb→lt, leb→le, ==_iff, Bool-cases, Option-cases, is_some,
  or_default, ℤ, pos, negsuc, Decimal, pos_part, neg_part, ◌+ℤ◌, ◌-ℤ◌, ◌*ℤ◌, ◌≤ℤ◌, ◌<ℤ◌, ltb_ℤ,
  leb_ℤ, eq_ℤ, int_laws, min_ℤ, max_ℤ, abs_ℤ, neg_ℤ, length, get_elem?, set, remove_at, any, All,
  Text, text_eq, text_eq_iff, text_eq_refl, Exception, ValidationKind, Result, ok, raised, Exec,
  pure, raise, lift, gets, modify, raise_if, ◌>>=◌, ◌>>◌, returns,
}
use interview_assignment.Execution.Models.{ExecutionStatus, ChildOrderStatus, status_is, child_is}

-- EXECUTION_TRANSITIONS
unfoldable pub execution_transitions : ExecutionStatus → List ExecutionStatus
execution_transitions ExecutionStatus.created =
    ExecutionStatus.validating ∷ ExecutionStatus.failed ∷ []
execution_transitions ExecutionStatus.validating =
    ExecutionStatus.running ∷ ExecutionStatus.completed ∷ ExecutionStatus.failed ∷ []
execution_transitions ExecutionStatus.running =
    ExecutionStatus.cancelling ∷ ExecutionStatus.completed ∷ ExecutionStatus.partially_completed
    ∷ ExecutionStatus.expired ∷ ExecutionStatus.failed ∷ []
execution_transitions ExecutionStatus.cancelling =
    ExecutionStatus.completed ∷ ExecutionStatus.cancelled ∷ ExecutionStatus.partially_completed
    ∷ ExecutionStatus.failed ∷ []
execution_transitions _ = []

-- CHILD_TRANSITIONS
unfoldable pub child_transitions : ChildOrderStatus → List ChildOrderStatus
child_transitions ChildOrderStatus.pending_submit =
    ChildOrderStatus.open_order ∷ ChildOrderStatus.rejected ∷ ChildOrderStatus.unknown ∷ []
child_transitions ChildOrderStatus.open_order =
    ChildOrderStatus.partially_filled ∷ ChildOrderStatus.filled ∷ ChildOrderStatus.pending_cancel
    ∷ []
child_transitions ChildOrderStatus.partially_filled =
    ChildOrderStatus.filled ∷ ChildOrderStatus.pending_cancel ∷ []
child_transitions ChildOrderStatus.pending_cancel =
    ChildOrderStatus.open_order ∷ ChildOrderStatus.partially_filled ∷ ChildOrderStatus.cancelled
    ∷ ChildOrderStatus.filled ∷ []
child_transitions ChildOrderStatus.unknown =
    ChildOrderStatus.open_order ∷ ChildOrderStatus.partially_filled ∷ ChildOrderStatus.filled
    ∷ ChildOrderStatus.cancelled ∷ ChildOrderStatus.rejected ∷ []
child_transitions _ = []

unfoldable pub transition_execution : ExecutionStatus → ExecutionStatus → Result ExecutionStatus
unfolding execution_transitions
transition_execution current target =
    if any (status_is target) (execution_transitions current)
    then ok target
    else raised Exception.invalid_state_transition

unfoldable pub transition_child : ChildOrderStatus → ChildOrderStatus → Result ChildOrderStatus
unfolding child_transitions
transition_child current target =
    if any (child_is target) (child_transitions current)
    then ok target
    else raised Exception.invalid_state_transition
