-- ===== src/Engine/ChildStatus.antt =====
-- src/execution/engine.py: `_set_child_status`, which moves a child order to the status that the
-- exchange reports, through intermediate statuses where the table has no direct transition.
use interview_assignment.Base.{
  ◌≡◌, refl, ◌⊎◌, Bool, true, false, ◌&&◌, ◌||◌, List, [], ◌∷◌, arith, if◌then◌else◌, Result, ok,
  raised,
}
use interview_assignment.Execution.Models.{
  ChildOrderStatus, child_is, child_is_live, child_is_terminal,
}
use interview_assignment.Execution.Orders.{ChildOrder}
use interview_assignment.Execution.StateMachine.{transition_child}

-- `transition_child` along a list of statuses.
walk : ChildOrderStatus → List ChildOrderStatus → Result (ChildOrderStatus × Bool)
walk current [] = ok (current, true)
walk current (t ∷ ts) = elim (transition_child current t) [ ok s ↦ walk s ts | raised e ↦ raised e ]

detour : ChildOrderStatus → ChildOrderStatus → Result (ChildOrderStatus × Bool)
unfolding walk
detour current target =
    if child_is target ChildOrderStatus.cancelled && child_is_live current
    then walk current (ChildOrderStatus.pending_cancel ∷ target ∷ [])
    else if child_is target ChildOrderStatus.cancelled
        && child_is current ChildOrderStatus.pending_submit
    then walk current (ChildOrderStatus.open_order ∷ ChildOrderStatus.pending_cancel ∷ target ∷ [])
    else if child_is current ChildOrderStatus.pending_submit
        && (child_is target ChildOrderStatus.partially_filled
            || child_is target ChildOrderStatus.filled)
    then walk current (ChildOrderStatus.open_order ∷ target ∷ [])
    else ok (current, false)

-- The new status of a child and the value that `_set_child_status` returns. Nothing is written
-- where it raises: `set_status_lem` shows that it never does.
unfoldable pub set_status : ChildOrderStatus → ChildOrderStatus → Result (ChildOrderStatus × Bool)
unfolding detour
set_status current target =
    if child_is current target then ok (current, true) else elim (transition_child current target) [
      | ok s ↦ ok (s, true)
      | raised _ ↦ detour current target
    ]

-- `_set_child_status` on the child itself.
unfoldable pub set_child_status : ChildOrder → ChildOrderStatus → Result ChildOrder
set_child_status child target = elim (set_status child.status target) [
  | ok (s, _) ↦ ok (record child { status = s })
  | raised e ↦ raised e
]

-- Legal child transitions, one after another.
pub data ChildMoves : ChildOrderStatus → ChildOrderStatus → Type 0 where
  stay : (s : ChildOrderStatus) → ChildMoves s s
  move : {s t u : ChildOrderStatus} → transition_child s t ≡ ok t → ChildMoves t u → ChildMoves s u

-- What a call came to: the status that was set and the value that was returned.
pub record Settles (current target : ChildOrderStatus) : Type 0 where
  pub status : ChildOrderStatus
  pub accepted : Bool
  pub result : set_status current target ≡ ok (status, accepted)
  pub path : ChildMoves current status
  pub reaches_target : accepted ≡ true → status ≡ target
  pub otherwise_unchanged : accepted ≡ false → status ≡ current
  pub ends :
      child_is_terminal current ≡ false
      → (target ≡ ChildOrderStatus.partially_filled)
        ⊎ (target ≡ ChildOrderStatus.filled)
        ⊎ (target ≡ ChildOrderStatus.cancelled)
      → accepted ≡ true
  pub same : target ≡ current → accepted ≡ true
  pub legal : transition_child current target ≡ ok target → accepted ≡ true
  pub no_other :
      accepted ≡ true
      → (target ≡ current)
        ⊎ (transition_child current target ≡ ok target)
        ⊎ (target ≡ ChildOrderStatus.partially_filled)
        ⊎ (target ≡ ChildOrderStatus.filled)
        ⊎ (target ≡ ChildOrderStatus.cancelled)
  pub terminal_stays : child_is_terminal current ≡ true → status ≡ current

settled : ChildOrderStatus → ChildOrderStatus → ChildOrderStatus × Bool
unfolding set_status transition_child
settled current target = elim (set_status current target) [ ok r ↦ r | raised _ ↦ (current, false) ]

set_status-settled : (c t : ChildOrderStatus) → set_status c t ≡ ok (settled c t)
unfolding settled
set_status-settled c t = ground arith

direct : (c t : ChildOrderStatus) → transition_child c t ≡ ok t → ChildMoves c t
direct c t h = move h (stay t)

open_through :
    {c t : ChildOrderStatus}
    → transition_child c ChildOrderStatus.open_order ≡ ok ChildOrderStatus.open_order
    → ChildMoves ChildOrderStatus.open_order t
    → ChildMoves c t
open_through h rest = move h rest

cancel_through :
    {c t : ChildOrderStatus}
    → transition_child c ChildOrderStatus.pending_cancel ≡ ok ChildOrderStatus.pending_cancel
    → ChildMoves ChildOrderStatus.pending_cancel t
    → ChildMoves c t
cancel_through h rest = move h rest

ruleset child_paths = (refl, stay, direct, open_through, cancel_through)

moves : (c t : ChildOrderStatus) → ChildMoves c (settled c t).0
unfolding settled
moves ChildOrderStatus.pending_submit ChildOrderStatus.pending_submit = search child_paths
moves ChildOrderStatus.pending_submit _ = search child_paths
moves ChildOrderStatus.open_order ChildOrderStatus.pending_submit = search child_paths
moves ChildOrderStatus.open_order _ = search child_paths
moves ChildOrderStatus.partially_filled ChildOrderStatus.pending_submit = search child_paths
moves ChildOrderStatus.partially_filled _ = search child_paths
moves ChildOrderStatus.pending_cancel ChildOrderStatus.pending_submit = search child_paths
moves ChildOrderStatus.pending_cancel _ = search child_paths
moves ChildOrderStatus.cancelled ChildOrderStatus.pending_submit = search child_paths
moves ChildOrderStatus.cancelled _ = search child_paths
moves ChildOrderStatus.filled ChildOrderStatus.pending_submit = search child_paths
moves ChildOrderStatus.filled _ = search child_paths
moves ChildOrderStatus.rejected ChildOrderStatus.pending_submit = search child_paths
moves ChildOrderStatus.rejected _ = search child_paths
moves ChildOrderStatus.unknown ChildOrderStatus.pending_submit = search child_paths
moves ChildOrderStatus.unknown _ = search child_paths

kept :
    (c t : ChildOrderStatus)
    → ((settled c t).1 ≡ true → (settled c t).0 ≡ t)
      × ((settled c t).1 ≡ false → (settled c t).0 ≡ c)
      × (child_is_terminal c ≡ true → (settled c t).0 ≡ c)
unfolding settled
kept c t = (λ h. ground arith, λ h. ground arith, λ h. ground arith)

accepts :
    (c t : ChildOrderStatus)
    → (child_is_terminal c ≡ false
        → (t ≡ ChildOrderStatus.partially_filled)
          ⊎ (t ≡ ChildOrderStatus.filled)
          ⊎ (t ≡ ChildOrderStatus.cancelled)
        → (settled c t).1 ≡ true)
      × (t ≡ c → (settled c t).1 ≡ true)
      × (transition_child c t ≡ ok t → (settled c t).1 ≡ true)
      × ((settled c t).1 ≡ true
          → (t ≡ c)
            ⊎ (transition_child c t ≡ ok t)
            ⊎ (t ≡ ChildOrderStatus.partially_filled)
            ⊎ (t ≡ ChildOrderStatus.filled)
            ⊎ (t ≡ ChildOrderStatus.cancelled))
unfolding settled transition_child
accepts c t = (λ h k. ground arith, λ h. ground arith, λ h. ground arith, λ h. ground arith)

-- `_set_child_status` never raises: it reaches the target by legal moves and answers true, or it
-- answers false and leaves the status as it was; a status that has ended is never left. It reaches
-- the status where the child is, every status that the table allows next and, from every status
-- that has not ended, a partial fill, a fill and a cancel, through the states between where the
-- exchange skipped them. It reaches no other.
pub set_status_lem : (current target : ChildOrderStatus) → Settles current target
set_status_lem c t = record {
  status = (settled c t).0;
  accepted = (settled c t).1;
  result = set_status-settled c t;
  path = moves c t;
  reaches_target = (kept c t).0;
  otherwise_unchanged = (kept c t).1;
  ends = (accepts c t).0;
  same = (accepts c t).1;
  legal = (accepts c t).2;
  no_other = (accepts c t).3;
  terminal_stays = (kept c t).2;
}
