-- ===== src/Engine/Terminal/Outcomes.antt =====
-- How the terminal methods of src/execution/engine.py end an execution.
use interview_assignment.Execution.Orders.{ChildOrder}
use interview_assignment.Base.{
  Bool-cases, inl, inr, List, [], ◌∷◌, map, sym, subst, String, ◌≡◌, ◌≢◌, ◌⊎◌, true, false, some,
  arith, if◌then◌else◌, pos, Decimal, ◌<ℤ◌, ltb_ℤ, ValidationKind, Result, ok,
}
use interview_assignment.Execution.Models.{ExecutionStatus, is_terminal, child_is_terminal}
use interview_assignment.Execution.StateMachine.{transition_execution}
use interview_assignment.Engine.Record.{
  ExecutionRecord, Update, confirmed, reserved, exposure, summary_of, target_filled,
  assert_exposure_invariant,
}
use interview_assignment.Engine.Terminal.{
  finish, partial_or, complete, fail, fail_for_venue_ban, terminalize_deadline,
  terminalize_reject_limit, terminalize_manual_cancel, expire_for_validation,
}

-- The methods that end an execution, with their arguments.
pub data Ending : Type 0 where
  completion failure deadline : String → Ending
  venue_ban : String → Ending
  reject_limit manual_cancel : Ending
  validation_failure : ValidationKind → Ending

unfoldable pub run_ending : Ending → Decimal → Update (Unit {0})
run_ending (completion reason) now = complete now reason
run_ending (failure reason) now = fail now reason
run_ending (deadline reason) now = terminalize_deadline now reason
run_ending (venue_ban reason) now = fail_for_venue_ban now reason
run_ending reject_limit now = terminalize_reject_limit now
run_ending manual_cancel now = terminalize_manual_cancel now
run_ending (validation_failure kind) now = expire_for_validation now kind

-- The same orders, some of which carry the reason.
pub data Explained (reason : String) : List ChildOrder → List ChildOrder → Type 0 where
  none_left : Explained reason [] []
  ended_child :
      {cs ds : List ChildOrder} (c : ChildOrder)
      → child_is_terminal c.status ≡ true
      → Explained reason cs ds
      → Explained reason (c ∷ cs) (c ∷ ds)
  live_child :
      {cs ds : List ChildOrder} (c : ChildOrder)
      → child_is_terminal c.status ≡ false
      → Explained reason cs ds
      → Explained reason (c ∷ cs) (record c { terminal_reason = some reason } ∷ ds)

-- What a call returns and what becomes of the child orders: the hard stop of a venue ban gives
-- every child that has not ended its reason, and raises where the assertion of the exposure does.
abbrev pub Leaves : Ending → ExecutionRecord → Result (Unit {0}) → ExecutionRecord → Type 0
Leaves (venue_ban reason) r result r' =
    Explained reason r.child_orders r'.child_orders × (result ≡ (assert_exposure_invariant r).0)
Leaves _ r result r' = (r'.child_orders ≡ r.child_orders) × (result ≡ ok tt)

-- What a call of one of them has done to the record.
pub record EndsLegally (e : Ending) (now : Decimal) (r : ExecutionRecord)
    (result : Result (Unit {0})) (r' : ExecutionRecord) : Type 0 where
  pub leaves : Leaves e r result r'
  pub legal : (r'.status ≡ r.status) ⊎ (transition_execution r.status r'.status ≡ ok r'.status)
  pub terminal_stays : is_terminal r.status ≡ true → r'.status ≡ r.status
  pub only_ends : (r'.status ≡ r.status) ⊎ (is_terminal r'.status ≡ true)
  pub reported :
      (r'.status ≡ r.status)
      ⊎ ((r'.completed_monotonic ≡ some now) × (r'.summary ≡ some (summary_of r')))
  pub same_exposure : r'.exposure_tracker ≡ r.exposure_tracker

-- The record whose children carry the reason of a venue ban.
abbrev warned : String → ExecutionRecord → ExecutionRecord
warned reason r = record r {
  child_orders =
      map
        (λ c. if child_is_terminal c.status then c else record c { terminal_reason = some reason })
        r.child_orders;
}

Explained-map :
    (reason : String) (cs : List ChildOrder)
    → Explained reason cs (
        map
          (λ c.
            if child_is_terminal c.status then c else record c { terminal_reason = some reason })
          cs)
Explained-map reason [] = none_left
Explained-map reason (c ∷ cs) = elim (Bool-cases (child_is_terminal c.status)) [
  | inl ended ↦ rw ended (ended_child c ended (Explained-map reason cs))
  | inr live ↦ rw live (live_child c live (Explained-map reason cs))
]

ban_warns :
    (reason : String) (now : Decimal) (r : ExecutionRecord)
    → (fail_for_venue_ban now reason r).1.child_orders ≡ (warned reason r).child_orders
unfolding fail_for_venue_ban fail finish assert_exposure_invariant
ban_warns reason now r = ground arith

ban_asserts :
    (reason : String) (now : Decimal) (r : ExecutionRecord)
    → (fail_for_venue_ban now reason r).0 ≡ (assert_exposure_invariant r).0
unfolding fail_for_venue_ban fail finish transition_execution assert_exposure_invariant exposure
ban_asserts reason now r = ground arith

ban_ends :
    (reason : String) (now : Decimal) (r : ExecutionRecord)
    → EndsLegally
        (venue_ban reason)
        now
        r
        (fail_for_venue_ban now reason r).0
        (fail_for_venue_ban now reason r).1
unfolding fail_for_venue_ban fail finish transition_execution summary_of assert_exposure_invariant
    exposure
ban_ends reason now r = record {
  leaves = (
    subst (Explained reason r.child_orders) (sym (ban_warns reason now r))
        (Explained-map reason r.child_orders),
    ban_asserts reason now r,
  );
  legal = ground arith;
  terminal_stays = λ h. ground arith;
  only_ends = ground arith;
  reported = ground arith;
  same_exposure = ground arith;
}

-- Each of the terminal methods (completion, failure, deadline, reject limit, manual cancel, failed
-- validation and the hard stop of a venue ban) moves the status by one legal transition to a
-- terminal status or leaves it, never leaves a terminal status, does not touch the tracker of the
-- exposure and, where it ends the execution, sets the completion time and a summary of the final
-- record. It returns and leaves the child orders alone, except the hard stop of a venue ban: that
-- one gives every child that has not ended its reason, and raises exactly where the assertion of
-- the exposure raises on the record.
pub run_ending-EndsLegally :
    (e : Ending) (now : Decimal) (r : ExecutionRecord)
    → EndsLegally e now r (run_ending e now r).0 (run_ending e now r).1
unfolding run_ending complete fail terminalize_deadline terminalize_reject_limit
    terminalize_manual_cancel expire_for_validation finish partial_or transition_execution
    summary_of
run_ending-EndsLegally (completion reason) now r = ground arith
run_ending-EndsLegally (failure reason) now r = ground arith
run_ending-EndsLegally (deadline reason) now r = ground arith
run_ending-EndsLegally (venue_ban reason) now r = ban_ends reason now r
run_ending-EndsLegally reject_limit now r = ground arith
run_ending-EndsLegally manual_cancel now r = ground arith
run_ending-EndsLegally (validation_failure kind) now r = ground arith

-- What a manual cancel comes to, by the target, the reservations and the fills.
abbrev pub cancel_outcome : ExecutionRecord → ExecutionStatus
cancel_outcome r =
    if target_filled r
    then ExecutionStatus.completed
    else if ltb_ℤ (pos 0) (reserved r)
    then ExecutionStatus.cancelling
    else if ltb_ℤ (pos 0) (confirmed r)
    then ExecutionStatus.partially_completed
    else ExecutionStatus.cancelled

-- And what a deadline comes to.
abbrev pub deadline_outcome : ExecutionRecord → ExecutionStatus
deadline_outcome r =
    if ltb_ℤ (pos 0) (reserved r)
    then ExecutionStatus.running
    else if ltb_ℤ (pos 0) (confirmed r)
    then ExecutionStatus.partially_completed
    else ExecutionStatus.expired

-- A cancelling execution completes if its target is filled; while exposure is reserved it waits
-- unchanged; else it ends as partially completed or cancelled, by whether anything was filled. A
-- running execution at its deadline waits while exposure is reserved, and else ends as partially
-- completed or expired. From any other status neither call changes anything.
pub cancel_and_deadline_outcomes :
    (now : Decimal) (reason : String) (r : ExecutionRecord)
    → let cancelled = (terminalize_manual_cancel now r).1 in
      let late = (terminalize_deadline now reason r).1 in
      (r.status ≡ ExecutionStatus.cancelling → cancelled.status ≡ cancel_outcome r)
      × (r.status ≢ ExecutionStatus.cancelling → cancelled ≡ r)
      × (r.status ≡ ExecutionStatus.running → late.status ≡ deadline_outcome r)
      × (r.status ≢ ExecutionStatus.running → late ≡ r)
      × (pos 0 <ℤ reserved r → target_filled r ≡ false → (cancelled ≡ r) × (late ≡ r))
unfolding terminalize_deadline terminalize_manual_cancel complete finish partial_or
    transition_execution
cancel_and_deadline_outcomes now reason r = (
  λ h. ground arith,
  λ h. ground arith,
  λ h. ground arith,
  λ h. ground arith,
  λ h k. ground arith,
)
