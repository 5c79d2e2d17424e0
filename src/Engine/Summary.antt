-- ===== src/Engine/Summary.antt =====
-- src/execution/engine.py and src/observability/summary.py: what the terminal summary counts and
-- averages. Quotients are those of the decimal context.
pub mod Ledger
pub mod Metrics
pub mod Totals
pub mod Weights
use interview_assignment.Base.{
  ℕ, zero, suc, ◌+◌, ◌-◌, ◌*◌, ◌/◌, ◌%◌, ◌≤◌, ◌<◌, String, ◌≡◌, refl, sym, ap, subst, ◌∙◌, ◌≢◌, ◌↔◌,
  ◌⊎◌, inl, inr, Bool, true, false, ◌&&◌, ◌||◌, not, Option, none, some, List, [], ◌∷◌, ◌++◌, map,
  arith, ltb, leb, ◌==◌, if◌then◌else◌, ltb→lt, leb→le, ==_iff, Bool-cases, Option-cases, is_some,
  or_default, ℤ, pos, negsuc, Decimal, pos_part, neg_part, ◌+ℤ◌, ◌-ℤ◌, ◌*ℤ◌, ◌≤ℤ◌, ◌<ℤ◌, ltb_ℤ,
  leb_ℤ, eq_ℤ, int_laws, min_ℤ, max_ℤ, abs_ℤ, neg_ℤ, length, get_elem?, set, remove_at, any, All,
  Text, text_eq, text_eq_iff, text_eq_refl, Exception, ValidationKind, exception_text, Result, ok,
  raised, Exec, pure, raise, lift, gets, modify, raise_if, ◌>>=◌, ◌>>◌, returns, after_call,
  after_ok,
}
use interview_assignment.Base.Dict
use interview_assignment.Base.Dict.{Dict, IdSet, lookup, insert, remove, contains, add, discard}
use interview_assignment.Execution.Models.{
  Environment, Algorithm, DeadlinePolicy, RepricingMode, Side, TimeInForce, ExecutionStatus,
  ChildOrderStatus, is_buy, is_sell, is_no_action, status_is, child_is, is_terminal,
  child_is_terminal, child_is_live, ExecutionParameters, ExecutionRequest, SymbolRules,
  MarketSnapshot, PositionSnapshot,
}
use interview_assignment.Execution.Orders.{
  OrderRequest, ChildOrder, floor_zero, remaining_quantity, Fill, ReconciliationResult, Exposure,
  empty_exposure, reserved_exposure, ExecutionSummary, required_trade,
}
use interview_assignment.Execution.StateMachine.{transition_execution}
use interview_assignment.Risk.Validation.{check_exposure_invariant}
use interview_assignment.Exchanges.{ExchangeAdapter}
use interview_assignment.Engine.ChildStatus.{set_status, set_child_status}
use interview_assignment.Engine.Exposure.{
  ExposureTracker, available_to_submit, check_can_submit, reserve_live_open, reserve_pending_submit,
  release_pending_submit, reserve_unknown_create, clear_unknown_create, mark_pending_cancel,
  release_pending_cancel,
}
use interview_assignment.Engine.Record.{
  ExecutionRecord, Update, Metric, exposure, confirmed, reserved, seconds, reason_is,
  increment_metric, record_max_reserved_exposure, summary_of, target_filled, deadline_reached,
  assert_exposure_invariant, require_exposure_tracker, on_tracker, read_child, write_child,
}
use interview_assignment.Engine.Terminal.{
  finish, complete, fail, fail_for_venue_ban, terminalize_deadline, terminalize_reject_limit,
  terminalize_manual_cancel, expire_for_validation,
}
use interview_assignment.Engine.Gates.{
  record_rate_limit_backoff, rate_limit_backoff_blocks, record_retryable_order_reject,
  reset_retryable_order_reject_gate, reconciled_child_resets_gate, retryable_gate_blocks,
  is_gate_reason,
}
use interview_assignment.Engine.Fills.{
  FillReport, snapshot_report, text_leb, key_leb, update_child_cumulative_fill, copy_exchange_child,
  refresh_reserved_exposure,
}
use interview_assignment.Base.Context.{Rounded, dec_of, dec_div}
use interview_assignment.Engine.Record.{PriceQuantity, Interval}
use interview_assignment.Engine.Intervals.{covered_interval_quantity}
use interview_assignment.Algorithms.Twap.{quantity_decimals}

-- `completion_rate` of src/risk/decimal_math.py
unfoldable pub completion_rate : Decimal → Decimal → Rounded
completion_rate filled_quantity required_quantity =
    if eq_ℤ required_quantity (pos 0)
    then dec_of 0 1
    else dec_div (dec_of quantity_decimals (pos_part (abs_ℤ filled_quantity)))
        (dec_of quantity_decimals (pos_part (abs_ℤ required_quantity)))

unfoldable pub total_quantity : List PriceQuantity → Decimal
total_quantity [] = pos 0
total_quantity ((price, quantity) ∷ fills) = quantity +ℤ total_quantity fills

unfoldable pub notional : List PriceQuantity → Decimal
notional [] = pos 0
notional ((price, quantity) ∷ fills) = price *ℤ quantity +ℤ notional fills

-- `execution_vwap`, for fills of which none is negative.
unfoldable pub execution_vwap : List PriceQuantity → Rounded
execution_vwap fills =
    if eq_ℤ (total_quantity fills) (pos 0)
    then dec_of 0 0
    else dec_div (dec_of (quantity_decimals + quantity_decimals) (pos_part (notional fills)))
        (dec_of quantity_decimals (pos_part (total_quantity fills)))

unfoldable pub overfill_quantity : Decimal → Decimal → Decimal
overfill_quantity filled_quantity required_quantity =
    let excess = filled_quantity -ℤ required_quantity in
    if ltb_ℤ (pos 0) excess then excess else pos 0

-- `_provisional_fill_vwap_inputs`
unfoldable pub provisional_fill_vwap_inputs : List ChildOrder → List PriceQuantity
provisional_fill_vwap_inputs [] = []
provisional_fill_vwap_inputs (c ∷ cs) =
    let rest = provisional_fill_vwap_inputs cs in
    if ltb_ℤ (pos 0) c.confirmed_filled_quantity
    then (c.price, c.confirmed_filled_quantity) ∷ rest
    else rest

-- `record.child_authoritative_fill_intervals.get(child.client_order_id, [])`
abbrev pub intervals_of : Dict (List Interval) → ChildOrder → List Interval
intervals_of d c = or_default (lookup c.client_order_id d) []

-- The part of a child's fill that no trade accounts for.
unfoldable pub uncovered_quantity : Dict (List Interval) → ChildOrder → Decimal
uncovered_quantity d c =
    c.confirmed_filled_quantity
    -ℤ covered_interval_quantity (intervals_of d c) c.confirmed_filled_quantity

-- The loop of `_summary_vwap_inputs`.
unfoldable pub uncovered_vwap_inputs : Dict (List Interval) → List ChildOrder → List PriceQuantity
uncovered_vwap_inputs d [] = []
uncovered_vwap_inputs d (c ∷ cs) =
    let rest = uncovered_vwap_inputs d cs in
    if ltb_ℤ (pos 0) (uncovered_quantity d c)
    then (c.price, uncovered_quantity d c) ∷ rest
    else rest

-- `_summary_vwap_inputs`
unfoldable pub summary_vwap_inputs : ExecutionRecord → List PriceQuantity
summary_vwap_inputs r = elim r.fill_vwap_inputs [
  | [] ↦ provisional_fill_vwap_inputs r.child_orders
  | i ∷ is ↦ (i ∷ is) ++ uncovered_vwap_inputs r.child_authoritative_fill_intervals r.child_orders
]

pub record LateCounts : Type 0 where
  pub orders_submitted_after_deadline : ℕ
  pub scheduled_orders_submitted_after_deadline : ℕ
  pub deadline_aggressive_orders_submitted_after_deadline : ℕ

abbrev pub submitted_late : Decimal → Option Decimal → Bool
submitted_late deadline none = false
submitted_late deadline (some t) = ltb_ℤ deadline t

unfoldable pub count_late : LateCounts → Bool → LateCounts
count_late n true = record n {
  orders_submitted_after_deadline = n.orders_submitted_after_deadline + 1;
  deadline_aggressive_orders_submitted_after_deadline =
      n.deadline_aggressive_orders_submitted_after_deadline + 1;
}
count_late n false = record n {
  orders_submitted_after_deadline = n.orders_submitted_after_deadline + 1;
  scheduled_orders_submitted_after_deadline = n.scheduled_orders_submitted_after_deadline + 1;
}

unfoldable pub count_children :
    ExecutionRecord → Decimal → List ChildOrder → LateCounts → LateCounts
count_children r deadline [] n = n
count_children r deadline (c ∷ cs) n = count_children r deadline cs (
    if submitted_late deadline (lookup c.client_order_id r.child_submitted_monotonic)
    then count_late n (contains c.client_order_id r.aggressive_child_client_order_ids)
    else n)

-- `_post_deadline_submission_counts`
unfoldable pub post_deadline_submission_counts : ExecutionRecord → Decimal → LateCounts
post_deadline_submission_counts r requested_duration =
    count_children r (r.started_monotonic +ℤ requested_duration) r.child_orders (record {
      orders_submitted_after_deadline = 0;
      scheduled_orders_submitted_after_deadline = 0;
      deadline_aggressive_orders_submitted_after_deadline = 0;
    })
