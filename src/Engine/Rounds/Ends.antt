-- ===== src/Engine/Rounds/Ends.antt =====
-- Methods of src/execution/engine.py that change only counts, reasons, gates and times of an
-- execution, and those that end it.
use interview_assignment.Base.{
  String, ◌≡◌, refl, ap, ◌∙◌, inl, inr, Bool, true, false, Option, some, List, [], ◌∷◌, map, arith,
  if◌then◌else◌, Bool-cases, pos, Decimal, eq_ℤ, ValidationKind, Result, ok, raised, modify,
}
use interview_assignment.Execution.Models.{ExecutionStatus, child_is_terminal}
use interview_assignment.Execution.Orders.{ChildOrder}
use interview_assignment.Execution.StateMachine.{transition_execution}
use interview_assignment.Engine.Record.{
  ExecutionRecord, Update, Metric, exposure, increment_metric, record_max_reserved_exposure,
  summary_of, assert_exposure_invariant,
}
use interview_assignment.Engine.Terminal.{
  finish, complete, fail, fail_for_venue_ban, terminalize_deadline, terminalize_reject_limit,
  terminalize_manual_cancel, expire_for_validation,
}
use interview_assignment.Engine.Gates.{
  record_rate_limit_backoff, rate_limit_backoff_blocks, record_retryable_order_reject,
  reset_retryable_order_reject_gate,
}
use interview_assignment.Engine.Refresh.{clear_pending_reason, clear_pending_reasons, renew_summary}
use interview_assignment.Engine.Cancel.{is_blocked}
use interview_assignment.Engine.Rounds.{
  View, view, Steps, here, next, explains, moves, SameButReasons,
}
use interview_assignment.Engine.Rounds.Calculus.{IsSound, own, chain}

same_view : {v w : View} → w ≡ v → Steps v w
same_view e = rw e here

pub increment_metric-IsSound : (m : Metric) → IsSound own (modify (increment_metric m))
unfolding IsSound increment_metric view
increment_metric-IsSound m r b = here

pub record_max-IsSound : IsSound own (modify record_max_reserved_exposure)
unfolding IsSound record_max_reserved_exposure view
record_max-IsSound r b = same_view (ground arith)

pub assert-IsSound : IsSound own assert_exposure_invariant
unfolding IsSound assert_exposure_invariant view
assert-IsSound r b = here

pub reset_gate-IsSound : IsSound own (modify reset_retryable_order_reject_gate)
unfolding IsSound reset_retryable_order_reject_gate view
reset_gate-IsSound r b = here

pub note_reason-IsSound :
    (reason : Option String) → IsSound own (modify (λ r. record r { final_reason = reason }))
unfolding IsSound view
note_reason-IsSound reason r b = here

pub renew_summary-IsSound : IsSound own (modify renew_summary)
unfolding IsSound renew_summary view
renew_summary-IsSound r b = same_view (ground arith)

module _ (now : Decimal) where
  pub record_rate_limit-IsSound : IsSound own (modify (record_rate_limit_backoff now))
  unfolding IsSound record_rate_limit_backoff view
  record_rate_limit-IsSound r b = here

  pub record_reject-IsSound :
      (p bid ask : Decimal) (reason : String)
      → IsSound own (modify (record_retryable_order_reject now p bid ask reason))
  unfolding IsSound record_retryable_order_reject view
  record_reject-IsSound p bid ask reason r b = here

  pub is_blocked-IsSound : IsSound own (is_blocked now)
  unfolding IsSound is_blocked rate_limit_backoff_blocks view
  is_blocked-IsSound r b = same_view (ground arith)

transition_target : (c t s : ExecutionStatus) → transition_execution c t ≡ ok s → s ≡ t
unfolding transition_execution
transition_target c t s e = ground arith

by_transition :
    (target : ExecutionStatus) (reason : Option String) (now : Decimal) (r : ExecutionRecord)
    (x : Result ExecutionStatus)
    → transition_execution r.status target ≡ x
    → Steps (view r) (
        view
          (elim x as (λ _. Result (Unit {0}) × ExecutionRecord) [
            | raised e ↦ (raised e, r)
            | ok s ↦
                let r' = record r {
                  status = s;
                  final_reason = reason;
                  completed_monotonic = some now;
                } in
                (ok tt, record r' { summary = some (summary_of r') })
          ]).1)
unfolding view
by_transition target reason now r (ok s) e = next here (
    moves s
      (rw (transition_target r.status target s e)
        (e ∙ ap ok (transition_target r.status target s e)))
      refl)
by_transition target reason now r (raised x) e = here

by_test :
    {A : Type 0} (c : Bool) {v : View} (x y : Result A × ExecutionRecord)
    → Steps v (view x.1)
    → Steps v (view y.1)
    → Steps v (view (if c then x else y).1)
by_test true x y h k = h
by_test false x y h k = k

-- What happens may depend on a test of the record.
pub tested :
    {A : Type 0} (c : ExecutionRecord → Bool) (m n : Update A)
    → IsSound own m
    → IsSound own n
    → IsSound own (λ r. if c r then m r else n r)
unfolding IsSound
tested c m n h k r b = by_test (c r) (m r) (n r) (h r b) (k r b)

nothing-IsSound : IsSound own (λ r. (ok tt, r))
unfolding IsSound
nothing-IsSound r b = here

module _ (now : Decimal) where
  pub finish-IsSound :
      (target : ExecutionRecord → ExecutionStatus) (reason : ExecutionRecord → Option String)
      → IsSound own (λ r. finish (target r) (reason r) now r)
  unfolding IsSound finish
  finish-IsSound target reason r b =
      by_transition (target r) (reason r) now r (transition_execution r.status (target r)) refl

  ruleset endings = (tested, nothing-IsSound, finish-IsSound)

  pub complete-IsSound : (reason : String) → IsSound own (complete now reason)
  unfolding complete
  complete-IsSound reason = search endings

  pub fail-IsSound : (reason : String) → IsSound own (fail now reason)
  unfolding fail
  fail-IsSound reason = search endings

  pub terminalize_deadline-IsSound :
      (reason : String) → IsSound own (terminalize_deadline now reason)
  unfolding terminalize_deadline
  terminalize_deadline-IsSound reason = search endings

  pub terminalize_reject_limit-IsSound : IsSound own (terminalize_reject_limit now)
  unfolding terminalize_reject_limit
  terminalize_reject_limit-IsSound = search endings

  pub terminalize_manual_cancel-IsSound : IsSound own (terminalize_manual_cancel now)
  unfolding terminalize_manual_cancel
  terminalize_manual_cancel-IsSound = search (endings, complete-IsSound)

  expired-IsSound :
      (target : ExecutionRecord → ExecutionStatus) (reason : Option String)
      → IsSound own (λ r. finish (target r) reason now (record r { final_reason = reason }))
  unfolding IsSound finish view
  expired-IsSound target reason r b =
      by_transition (target r) reason now (record r { final_reason = reason })
        (transition_execution r.status (target r)) refl

  note-IsSound :
      (reason : Option String) → IsSound own (λ r. (ok tt, record r { final_reason = reason }))
  unfolding IsSound view
  note-IsSound reason r b = here

  pub expire_for_validation-IsSound :
      (kind : ValidationKind) → IsSound own (expire_for_validation now kind)
  unfolding expire_for_validation
  expire_for_validation-IsSound kind = search (tested, expired-IsSound, note-IsSound)

-- Only reasons of children change.
explained :
    (f : ChildOrder → ChildOrder)
    → ((c : ChildOrder) → f c ≡ record c { terminal_reason = (f c).terminal_reason })
    → (l : List ChildOrder) → SameButReasons l (map f l)
explained f h [] = tt
explained f h (c ∷ l) = (h c, explained f h l)

explain_children-IsSound :
    (reason : String)
    → IsSound own (
        modify (λ r. record r {
          child_orders =
              map
                (λ c.
                  if child_is_terminal c.status
                  then c
                  else record c { terminal_reason = some reason })
                r.child_orders;
        }))
unfolding IsSound view
explain_children-IsSound reason r b =
    next here (explains _ (explained _ (λ c. ground arith) r.child_orders) refl)

pub fail_for_venue_ban-IsSound :
    (now : Decimal) (reason : String) → IsSound own (fail_for_venue_ban now reason)
unfolding fail_for_venue_ban
fail_for_venue_ban-IsSound now reason =
    search (chain, explain_children-IsSound, fail-IsSound, assert-IsSound)

pub clear_pending_reasons-IsSound : IsSound own (modify clear_pending_reasons)
unfolding IsSound clear_pending_reasons view
clear_pending_reasons-IsSound r b =
    elim (Bool-cases (eq_ℤ (exposure r).unknown_order_quantity (pos 0))) [
      | inl clear ↦ rw clear (
          next here
            (explains _ (explained clear_pending_reason (λ c. ground arith) r.child_orders) refl))
      | inr unclear ↦ rw unclear here
    ]
