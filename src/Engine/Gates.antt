-- ===== src/Engine/Gates.antt =====
-- src/execution/engine.py: the two gates that hold an execution back, after a rate limit of the
-- exchange and after a rejected post-only order. `now` is the clock's value at the call.
pub mod Backoff
use interview_assignment.Base.{
  ℕ, zero, suc, ◌+◌, ◌-◌, ◌*◌, ◌/◌, ◌%◌, ◌≤◌, ◌<◌, String, ◌≡◌, refl, sym, ap, ◌∙◌, ◌≢◌, ◌↔◌, ◌⊎◌,
  inl, inr, Bool, true, false, ◌&&◌, ◌||◌, not, Option, none, some, List, [], ◌∷◌, ◌++◌, map, arith,
  ltb, leb, ◌==◌, if◌then◌else◌, ltb→lt, leb→le, ==_iff, Bool-cases, Option-cases, is_some,
  or_default, ℤ, pos, negsuc, Decimal, pos_part, neg_part, ◌+ℤ◌, ◌-ℤ◌, ◌*ℤ◌, ◌≤ℤ◌, ◌<ℤ◌, ltb_ℤ,
  leb_ℤ, eq_ℤ, int_laws, min_ℤ, max_ℤ, abs_ℤ, neg_ℤ, length, get_elem?, set, remove_at, any, All,
  Text, text_eq, text_eq_iff, text_eq_refl, Exception, ValidationKind, Result, ok, raised, Exec,
  pure, raise, lift, gets, modify, raise_if, ◌>>=◌, ◌>>◌, returns,
}
use interview_assignment.Base.Dict
use interview_assignment.Base.Dict.{Dict, IdSet, lookup, insert, remove, contains, add, discard}
use interview_assignment.Execution.Models.{
  Environment, Algorithm, DeadlinePolicy, RepricingMode, Side, TimeInForce, ExecutionStatus,
  ChildOrderStatus, is_buy, is_sell, is_no_action, status_is, child_is, is_terminal,
  child_is_terminal, child_is_live, ExecutionParameters, ExecutionRequest, SymbolRules,
  MarketSnapshot, PositionSnapshot,
}
use interview_assignment.Execution.Orders.{
  OrderRequest, ChildOrder, floor_zero, remaining_quantity, Fill, ReconciliationResult, Exposure,
  empty_exposure, reserved_exposure, ExecutionSummary, required_trade,
}
use interview_assignment.Execution.StateMachine.{transition_execution, transition_child}
use interview_assignment.Risk.Validation.{check_exposure_invariant}
use interview_assignment.Engine.Record.{
  ExecutionRecord, Metric, reason_is, increment_metric, seconds,
}

-- RATE_LIMIT_BACKOFF_SECONDS and RETRYABLE_ORDER_REJECT_BACKOFF_SECONDS
abbrev pub backoff_seconds : Decimal
backoff_seconds = pos 1_000_000_000

-- `_record_rate_limit_backoff_locked`
unfoldable pub record_rate_limit_backoff : Decimal → ExecutionRecord → ExecutionRecord
unfolding increment_metric
record_rate_limit_backoff now r = increment_metric Metric.rate_limit_backoffs (record r {
  rate_limited_until_monotonic = some (now +ℤ backoff_seconds);
  final_reason = some "RATE_LIMIT_BACKOFF";
})

-- `_rate_limit_backoff_blocks`
unfoldable pub rate_limit_backoff_blocks : Decimal → ExecutionRecord → Bool × ExecutionRecord
unfolding increment_metric
rate_limit_backoff_blocks now r = elim r.rate_limited_until_monotonic [
  | none ↦ (false, r)
  | some until ↦
      if ltb_ℤ now until
      then (
        true,
        increment_metric Metric.rate_limit_backoff_blocks
            (record r { final_reason = some "RATE_LIMIT_BACKOFF" }),
      )
      else (
        false,
        record r {
          rate_limited_until_monotonic = none;
          final_reason =
              if reason_is r.final_reason "RATE_LIMIT_BACKOFF" then none else r.final_reason;
        },
      )
]

-- `_record_retryable_order_reject_locked`
unfoldable pub record_retryable_order_reject :
    Decimal → Decimal → Decimal → Decimal → String → ExecutionRecord → ExecutionRecord
unfolding increment_metric
record_retryable_order_reject now price bid ask reason r =
    increment_metric Metric.retryable_order_rejections (record r {
      consecutive_retryable_order_rejects = r.consecutive_retryable_order_rejects +ℤ pos 1;
      last_retryable_order_reject_monotonic = some now;
      last_retryable_order_reject_price = some price;
      last_retryable_order_reject_bid = some bid;
      last_retryable_order_reject_ask = some ask;
      last_retryable_order_reject_reason = some reason;
    })

-- `record.final_reason in {RETRYABLE_ORDER_REJECT_BACKOFF, ..._WAITING_FOR_FRESH_QUOTE}`
abbrev pub is_gate_reason : Option String → Bool
is_gate_reason reason =
    reason_is reason "RETRYABLE_ORDER_REJECT_BACKOFF"
    || reason_is reason "RETRYABLE_ORDER_REJECT_WAITING_FOR_FRESH_QUOTE"

abbrev pub clear_gate_reason : ExecutionRecord → ExecutionRecord
clear_gate_reason r = record r {
  final_reason = if is_gate_reason r.final_reason then none else r.final_reason;
}

-- `_reset_retryable_order_reject_gate_locked`
unfoldable pub reset_retryable_order_reject_gate : ExecutionRecord → ExecutionRecord
reset_retryable_order_reject_gate r = clear_gate_reason (record r {
  consecutive_retryable_order_rejects = pos 0;
  last_retryable_order_reject_monotonic = none;
  last_retryable_order_reject_price = none;
  last_retryable_order_reject_bid = none;
  last_retryable_order_reject_ask = none;
  last_retryable_order_reject_reason = none;
})

-- `_reconciled_unknown_child_resets_retryable_reject_gate`
unfoldable pub reconciled_child_resets_gate : ChildOrder → Bool
reconciled_child_resets_gate c =
    child_is_live c.status
    || child_is c.status ChildOrderStatus.filled
    || (child_is c.status ChildOrderStatus.cancelled && ltb_ℤ (pos 0) c.confirmed_filled_quantity)

-- `_retryable_reject_crossing_quote` and `_last_retryable_reject_crossing_quote`
unfoldable pub crossing_quote : ExecutionRecord → Decimal → Decimal → Decimal
crossing_quote r bid ask = if is_buy r.side then ask else bid

unfoldable pub last_crossing_quote : ExecutionRecord → Option Decimal
last_crossing_quote r =
    if is_buy r.side then r.last_retryable_order_reject_ask else r.last_retryable_order_reject_bid

-- `value == optional`
abbrev pub is_value : Option Decimal → Decimal → Bool
is_value none a = false
is_value (some b) a = eq_ℤ a b

-- `last_reject_monotonic is not None and now - last_reject_monotonic < ...`
abbrev pub within_backoff : Option Decimal → Decimal → Bool
within_backoff none now = false
within_backoff (some last) now = ltb_ℤ (now -ℤ last) backoff_seconds

-- `_retryable_order_reject_gate_blocks`
unfoldable pub retryable_gate_blocks :
    Decimal → Decimal → Decimal → Decimal → ExecutionRecord → Bool × ExecutionRecord
unfolding increment_metric crossing_quote last_crossing_quote
retryable_gate_blocks now passive_price bid ask r =
    if leb_ℤ r.consecutive_retryable_order_rejects (pos 0)
    then (false, r)
    else if within_backoff r.last_retryable_order_reject_monotonic now
    then (
      true,
      increment_metric Metric.retryable_order_reject_backoff_blocks
          (record r { final_reason = some "RETRYABLE_ORDER_REJECT_BACKOFF" }),
    )
    else if is_value r.last_retryable_order_reject_price passive_price
        && is_value (last_crossing_quote r) (crossing_quote r bid ask)
    then (
      true,
      increment_metric Metric.retryable_order_reject_same_price_blocks
          (record r { final_reason = some "RETRYABLE_ORDER_REJECT_WAITING_FOR_FRESH_QUOTE" }),
    )
    else (false, clear_gate_reason r)
