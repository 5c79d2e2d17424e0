-- ===== src/Execution/StateMachine/Lifecycle.antt =====
-- What the transition tables of src/execution/state_machine.py guarantee: executions only move
-- forward, and a terminal status is left by no transition.
use interview_assignment.Base.{
  ℕ, zero, suc, ◌+◌, ◌≤◌, ◌<◌, ◌≡◌, ◌↔◌, true, arith, Exception, ok, raised,
}
use interview_assignment.Execution.Models.{ExecutionStatus, is_terminal}
use interview_assignment.Execution.StateMachine.{transition_execution}

-- How far a lifecycle has come.
abbrev pub stage : ExecutionStatus → ℕ
stage ExecutionStatus.created = 0
stage ExecutionStatus.validating = 1
stage ExecutionStatus.running = 2
stage ExecutionStatus.cancelling = 3
stage _ = 4

-- `n` legal transitions that lead from `s` to `t`.
pub data Moves : ℕ → ExecutionStatus → ExecutionStatus → Type 0 where
  stay : (s : ExecutionStatus) → Moves zero s s
  move :
      {n : ℕ} {s t u : ExecutionStatus}
      → transition_execution s t ≡ ok t
      → Moves n t u
      → Moves (suc n) s u

abbrev pub Refused : ExecutionStatus → ExecutionStatus → Type 0
Refused s t = transition_execution s t ≡ raised Exception.invalid_state_transition

forward : (s t : ExecutionStatus) → transition_execution s t ≡ ok t → stage s < stage t
unfolding transition_execution
forward s t h = ground arith

-- Every legal transition moves an execution to a later stage, so a chain of `n` transitions covers
-- at least `n` stages: no status comes back, and a lifecycle has four transitions at most.
pub lifecycle_bounded :
    {n : ℕ} {s t : ExecutionStatus} → Moves n s t → (n + stage s ≤ stage t) × (n ≤ 4)
lifecycle_bounded (stay s) = (omega arith, omega arith)
lifecycle_bounded (move {s = s} {t = t} {u = u} h rest) =
    let ih = lifecycle_bounded rest in
    let le4 = stage-le u in (omega (arith, forward s t h), omega (arith, forward s t h, le4))
  where
    stage-le : (v : ExecutionStatus) → stage v ≤ 4
    stage-le ExecutionStatus.created = omega arith
    stage-le ExecutionStatus.validating = omega arith
    stage-le ExecutionStatus.running = omega arith
    stage-le ExecutionStatus.cancelling = omega arith
    stage-le _ = omega arith

stuck : (s t : ExecutionStatus) → is_terminal s ≡ true → Refused s t
unfolding transition_execution
stuck s t h = ground arith

-- From any other status the execution can fail.
moves_on : (s : ExecutionStatus) → Refused s ExecutionStatus.failed → is_terminal s ≡ true
unfolding transition_execution
moves_on s h = ground arith

-- A status is terminal exactly when every transition out of it is refused.
pub terminal_iff_stuck :
    (s : ExecutionStatus) → (is_terminal s ≡ true) ↔ ((t : ExecutionStatus) → Refused s t)
terminal_iff_stuck s = (λ h t. stuck s t h, λ h. moves_on s (h ExecutionStatus.failed))
