-- ===== src/Engine/Refresh.antt =====
-- src/execution/engine.py: `_refresh_order_states_exact_locked` and what closes every
-- reconciliation.
use interview_assignment.Base.{
  ℕ, false, ◌&&◌, not, Option, none, some, List, [], ◌∷◌, map, if◌then◌else◌, is_some, pos, Decimal,
  eq_ℤ, Exception, ok, raised, pure, raise, modify, ◌>>=◌, ◌>>◌,
}
use interview_assignment.Execution.Models.{ChildOrderStatus, child_is, child_is_terminal}
use interview_assignment.Execution.Orders.{ChildOrder}
use interview_assignment.Exchanges.{ExchangeAdapter}
use interview_assignment.Engine.Record.{
  ExecutionRecord, Update, Metric, exposure, reason_is, increment_metric,
  record_max_reserved_exposure, summary_of, assert_exposure_invariant, read_child,
}
use interview_assignment.Engine.Terminal.{fail_for_venue_ban}
use interview_assignment.Engine.Gates.{
  record_rate_limit_backoff, reset_retryable_order_reject_gate, reconciled_child_resets_gate,
}
use interview_assignment.Engine.Fills.{refresh_reserved_exposure}
use interview_assignment.Engine.Session.{
  Action, on_record, attempt, read_clock, inspect, set_status_at, set_reason_at, copy_at,
  fill_from_order,
}
use interview_assignment.Engine.Cancel.{places}

-- `if child.terminal_reason == CREATE_TIMEOUT_PENDING_RECONCILIATION and ...: ... = None`
abbrev pub clear_pending_reason : ChildOrder → ChildOrder
clear_pending_reason c =
    if reason_is c.terminal_reason "CREATE_TIMEOUT_PENDING_RECONCILIATION"
      && not (child_is c.status ChildOrderStatus.unknown)
    then record c { terminal_reason = none }
    else c

unfoldable pub clear_pending_reasons : ExecutionRecord → ExecutionRecord
clear_pending_reasons r =
    if eq_ℤ (exposure r).unknown_order_quantity (pos 0)
    then record r {
      child_orders = map clear_pending_reason r.child_orders;
      final_reason =
          if reason_is r.final_reason "CREATE_TIMEOUT_PENDING_RECONCILIATION"
          then some "CREATE_TIMEOUT_RECONCILED"
          else r.final_reason;
    }
    else r

-- `if record.summary is not None: record.summary = self._summary(record)`
unfoldable pub renew_summary : ExecutionRecord → ExecutionRecord
renew_summary r = if is_some r.summary then record r { summary = some (summary_of r) } else r

-- `_finish_reconciliation_refresh_locked`
unfoldable pub finish_reconciliation_refresh : Update (Unit {0})
finish_reconciliation_refresh = do
  refresh_reserved_exposure
  modify record_max_reserved_exposure
  assert_exposure_invariant
  modify clear_pending_reasons
  modify renew_summary

-- An unknown child that the exchange does not have was never created.
unfoldable pub reject_not_found : ℕ → Update (Unit {0})
reject_not_found i = do
  set_status_at i ChildOrderStatus.rejected
  set_reason_at i (some "CREATE_TIMEOUT_ORDER_NOT_FOUND")
  modify (λ r. record r { final_reason = some "CREATE_TIMEOUT_ORDER_NOT_FOUND" })
  modify (increment_metric Metric.unknown_orders_reconciled)

-- The count and the gate of an unknown child whose fate is now known.
unfoldable pub count_reconciled : ChildOrder → Update (Unit {0})
count_reconciled c = do
  modify (increment_metric Metric.unknown_orders_reconciled)
  if reconciled_child_resets_gate c then modify reset_retryable_order_reject_gate else pure tt

-- One child of the loop, for what the exchange answered.
unfoldable pub refresh_child : ℕ → ChildOrder → Option ChildOrder → Update (Unit {0})
refresh_child i child none =
    if child_is child.status ChildOrderStatus.unknown then reject_not_found i else pure tt
refresh_child i child (some x) = do
  copy_at i x false
  set_status_at i x.status
  fill_from_order i x.confirmed_filled_quantity
  c ← read_child i
  if child_is child.status ChildOrderStatus.unknown
        && not (child_is c.status ChildOrderStatus.unknown)
      then count_reconciled c
      else pure tt

-- An exception of the lookup. The loop ends there in every case.
unfoldable pub lookup_failed : Decimal → Update (Unit {0}) → Exception → Update (Unit {0})
lookup_failed now after_rate_limit (Exception.venue_ban_hard_stop m) = fail_for_venue_ban now m
lookup_failed now after_rate_limit (Exception.exchange_rate_limited m) = do
  modify (record_rate_limit_backoff now)
  after_rate_limit
lookup_failed now after_rate_limit e = raise e

unfoldable pub refresh_each : (a : ExchangeAdapter) → List ℕ → Action a (Unit {0})
unfolding lookup_failed refresh_child
refresh_each a [] = on_record finish_reconciliation_refresh
refresh_each a (i ∷ rest) = do
  child ← on_record (read_child i)
  if child_is_terminal child.status then refresh_each a rest else (do
    symbol ← inspect (λ r. r.request.symbol)
    answer ← attempt (a.get_order_by_client_order_id symbol child.client_order_id)
    now ← read_clock
    elim answer [
      | ok found ↦ on_record (refresh_child i child found) >> refresh_each a rest
      | raised e ↦ on_record (lookup_failed now finish_reconciliation_refresh e)
    ])

-- `_refresh_order_states_exact_locked`
unfoldable pub refresh_order_states_exact : (a : ExchangeAdapter) → Action a (Unit {0})
unfolding refresh_each
refresh_order_states_exact a = do
  started ← inspect (λ r. is_some r.exposure_tracker)
  all ← inspect places
  if started then refresh_each a all else pure tt
