-- ===== src/Engine/Terminal.antt =====
-- src/execution/engine.py: the methods that end an execution. `now` is the clock's value at the
-- call.
pub mod Outcomes
use text.Mathlib.Text.{◌==◌ as str_eq}
use interview_assignment.Base.{
  ℕ, zero, suc, ◌+◌, ◌-◌, ◌*◌, ◌/◌, ◌%◌, ◌≤◌, ◌<◌, String, ◌≡◌, refl, sym, ap, ◌∙◌, ◌≢◌, ◌↔◌, ◌⊎◌,
  inl, inr, Bool, true, false, ◌&&◌, ◌||◌, not, Option, none, some, List, [], ◌∷◌, ◌++◌, map, arith,
  ltb, leb, ◌==◌, if◌then◌else◌, ltb→lt, leb→le, ==_iff, Bool-cases, Option-cases, is_some,
  or_default, ℤ, pos, negsuc, Decimal, pos_part, neg_part, ◌+ℤ◌, ◌-ℤ◌, ◌*ℤ◌, ◌≤ℤ◌, ◌<ℤ◌, ltb_ℤ,
  leb_ℤ, eq_ℤ, int_laws, min_ℤ, max_ℤ, abs_ℤ, neg_ℤ, length, get_elem?, set, remove_at, any, All,
  Text, text_eq, text_eq_iff, text_eq_refl, Exception, ValidationKind, Result, ok, raised, Exec,
  pure, raise, lift, gets, modify, raise_if, ◌>>=◌, ◌>>◌, returns,
}
use interview_assignment.Base.Dict
use interview_assignment.Base.Dict.{Dict, IdSet, lookup, insert, remove, contains, add, discard}
use interview_assignment.Execution.Models.{
  Environment, Algorithm, DeadlinePolicy, RepricingMode, Side, TimeInForce, ExecutionStatus,
  ChildOrderStatus, is_buy, is_sell, is_no_action, status_is, child_is, is_terminal,
  child_is_terminal, child_is_live, ExecutionParameters, ExecutionRequest, SymbolRules,
  MarketSnapshot, PositionSnapshot,
}
use interview_assignment.Execution.Orders.{
  OrderRequest, ChildOrder, floor_zero, remaining_quantity, Fill, ReconciliationResult, Exposure,
  empty_exposure, reserved_exposure, ExecutionSummary, required_trade,
}
use interview_assignment.Execution.StateMachine.{transition_execution, transition_child}
use interview_assignment.Risk.Validation.{check_exposure_invariant}
use interview_assignment.Engine.Record.{
  ExecutionRecord, Update, exposure, confirmed, reserved, summary_of, target_filled,
  assert_exposure_invariant,
}

-- The four lines that the terminal methods share: the transition, the reason, the time of
-- completion and the summary.
unfoldable pub finish : ExecutionStatus → Option String → Decimal → Update (Unit {0})
finish target reason now r = elim (transition_execution r.status target) [
  | raised e ↦ (raised e, r)
  | ok s ↦
      let r' = record r { status = s; final_reason = reason; completed_monotonic = some now } in
      (ok tt, record r' { summary = some (summary_of r') })
]

-- `PARTIALLY_COMPLETED if record.exposure.confirmed_filled_quantity > 0 else ...`
unfoldable pub partial_or : ExecutionStatus → ExecutionRecord → ExecutionStatus
partial_or otherwise r =
    if ltb_ℤ (pos 0) (confirmed r) then ExecutionStatus.partially_completed else otherwise

-- `_complete_locked`
unfoldable pub complete : Decimal → String → Update (Unit {0})
unfolding finish
complete now reason r =
    if status_is r.status ExecutionStatus.running || status_is r.status ExecutionStatus.cancelling
    then finish ExecutionStatus.completed (some reason) now r
    else (ok tt, r)

-- `_fail_locked`
unfoldable pub fail : Decimal → String → Update (Unit {0})
unfolding finish
fail now reason r =
    if status_is r.status ExecutionStatus.running || status_is r.status ExecutionStatus.cancelling
    then finish ExecutionStatus.failed (some reason) now r
    else (ok tt, r)

-- `_fail_for_venue_ban_hard_stop_locked`
unfoldable pub fail_for_venue_ban : Decimal → String → Update (Unit {0})
fail_for_venue_ban now reason = do
  modify (λ r. record r {
    child_orders =
        map
          (λ c.
            if child_is_terminal c.status then c else record c { terminal_reason = some reason })
          r.child_orders;
  })
  fail now reason
  assert_exposure_invariant

-- `_terminalize_deadline_locked`
unfoldable pub terminalize_deadline : Decimal → String → Update (Unit {0})
unfolding finish partial_or
terminalize_deadline now reason r =
    if not (status_is r.status ExecutionStatus.running)
    then (ok tt, r)
    else if ltb_ℤ (pos 0) (reserved r)
    then (ok tt, r)
    else finish (partial_or ExecutionStatus.expired r) (some reason) now r

-- `_terminalize_retryable_order_reject_limit_locked`
unfoldable pub terminalize_reject_limit : Decimal → Update (Unit {0})
unfolding finish partial_or
terminalize_reject_limit now r =
    if not (status_is r.status ExecutionStatus.running)
    then (ok tt, r)
    else if ltb_ℤ r.consecutive_retryable_order_rejects
        r.request.parameters.max_post_only_reject_retries
    then (ok tt, r)
    else if ltb_ℤ (pos 0) (reserved r)
    then (ok tt, r)
    else finish (partial_or ExecutionStatus.expired r) (some "RETRYABLE_ORDER_REJECT_LIMIT_REACHED")
        now r

-- `record.final_reason or CANCEL_REQUESTED`: an empty reason counts as none.
abbrev pub reason_or : Option String → String → Option String
reason_or none d = some d
reason_or (some s) d = if str_eq s "" then some d else some s

-- `_terminalize_manual_cancel_if_clear_locked`
unfoldable pub terminalize_manual_cancel : Decimal → Update (Unit {0})
unfolding finish partial_or complete
terminalize_manual_cancel now r =
    if not (status_is r.status ExecutionStatus.cancelling)
    then (ok tt, r)
    else if target_filled r
    then complete now "TARGET_QUANTITY_FILLED" r
    else if ltb_ℤ (pos 0) (reserved r)
    then (ok tt, r)
    else finish (partial_or ExecutionStatus.cancelled r)
        (reason_or r.final_reason "CANCEL_REQUESTED") now r

-- The reason that `_expire_for_validation_locked` reads out of the exception's text: "bound", then
-- "unsupported", then "post-only".
unfoldable pub validation_reason : ValidationKind → String
validation_reason ValidationKind.bounds_crossed = "PRICE_OUTSIDE_RANGE"
validation_reason ValidationKind.exceeds_upper_bound = "PRICE_OUTSIDE_RANGE"
validation_reason ValidationKind.below_lower_bound = "PRICE_OUTSIDE_RANGE"
validation_reason ValidationKind.post_only_unsupported = "POST_ONLY_UNSUPPORTED"
validation_reason ValidationKind.post_only_buy_crosses = "POST_ONLY_CROSSES"
validation_reason ValidationKind.post_only_sell_crosses = "POST_ONLY_CROSSES"
validation_reason _ = "ORDER_SAFETY_REJECTED"

-- `_expire_for_validation_locked`
unfoldable pub expire_for_validation : Decimal → ValidationKind → Update (Unit {0})
unfolding finish partial_or
expire_for_validation now kind r =
    let r' = record r { final_reason = some (validation_reason kind) } in
    if status_is r.status ExecutionStatus.running
    then finish (partial_or ExecutionStatus.expired r) (some (validation_reason kind)) now r'
    else (ok tt, r')
