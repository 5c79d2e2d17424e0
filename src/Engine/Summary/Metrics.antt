-- ===== src/Engine/Summary/Metrics.antt =====
-- src/observability/summary.py and `_summary_metrics` of src/execution/engine.py: the metrics of a
-- terminal summary, as numbers instead of the texts of numbers.
use interview_assignment.Base.{
  ℕ, ◌≡◌, Bool, true, false, ◌||◌, List, ◌==◌, if◌then◌else◌, or_default, ℤ, pos, Decimal, pos_part,
  ◌+ℤ◌, ◌-ℤ◌, ltb_ℤ, eq_ℤ, int_laws, min_ℤ, length,
}
use interview_assignment.Execution.Models.{Side, ExecutionStatus, is_buy, is_sell}
use interview_assignment.Execution.Orders.{floor_zero}
use interview_assignment.Engine.Record.{ExecutionRecord, Metric, confirmed, seconds}
use interview_assignment.Base.Context.{Rounded, dec_of, dec_mul, dec_div, dec_leb}
use interview_assignment.Algorithms.Twap.{quantity_decimals}
use interview_assignment.Engine.Summary.{
  completion_rate, execution_vwap, overfill_quantity, summary_vwap_inputs, LateCounts,
  post_deadline_submission_counts,
}
use interview_assignment.Engine.Summary.Ledger.{LedgerRow, dec_difference, twap_slice_ledger}

-- A number of the decimal context with its sign; a zero has either.
pub record SignedDecimal : Type 0 where
  pub is_negative : Bool
  pub magnitude : Rounded

abbrev pub no_slippage : SignedDecimal
no_slippage = record { is_negative = false; magnitude = dec_of 0 0 }

-- `(x - y) / mid * Decimal("10000")`
unfoldable pub difference_bps : Rounded → Rounded → Rounded → SignedDecimal
difference_bps x y mid =
    let scale : Rounded → Rounded = λ d. dec_mul (dec_div d mid) (dec_of 0 10_000) in
    if dec_leb y x
    then record { is_negative = false; magnitude = scale (dec_difference x y) }
    else record { is_negative = true; magnitude = scale (dec_difference y x) }

-- `slippage_bps` of src/risk/decimal_math.py, for prices that are not negative.
unfoldable pub slippage_bps : Side → Rounded → Rounded → SignedDecimal
slippage_bps side arrival_mid vwap =
    if arrival_mid.coefficient == 0
    then no_slippage
    else if is_buy side
    then difference_bps vwap arrival_mid arrival_mid
    else if is_sell side
    then difference_bps arrival_mid vwap arrival_mid
    else no_slippage

pub record Durations : Type 0 where
  pub total_lifecycle_duration : Decimal
  pub decision_deadline_elapsed : Decimal
  pub terminal_cleanup_duration : Decimal

-- The durations of `_summary_metrics`.
unfoldable pub durations : Decimal → ExecutionRecord → Durations
durations now r =
    let elapsed = or_default r.completed_monotonic now -ℤ r.started_monotonic in
    let actual_duration = if ltb_ℤ elapsed (pos 0) then pos 0 else elapsed in
    let requested_duration = seconds r.request.target_duration_seconds in
    let decision = min_ℤ actual_duration requested_duration in
    record {
      total_lifecycle_duration = actual_duration;
      decision_deadline_elapsed = decision;
      terminal_cleanup_duration = actual_duration -ℤ decision;
    }

-- `(arrival_bid + arrival_ask) / Decimal("2")`
unfoldable pub mid_price : Decimal → Decimal → Rounded
mid_price bid ask = dec_div (dec_of quantity_decimals (pos_part (bid +ℤ ask))) (dec_of 0 2)

pub record SummaryMetrics : Type 0 where
  pub final_status : ExecutionStatus
  pub raw_required_quantity : Decimal
  pub required_quantity : Decimal
  pub target_dust_quantity : Decimal
  pub filled_quantity : Decimal
  pub unfilled_quantity : Decimal
  pub completion : Rounded
  pub arrival_bid : Decimal
  pub arrival_ask : Decimal
  pub arrival_mid : Rounded
  pub vwap : Rounded
  pub slippage : SignedDecimal
  pub requested_duration_seconds : ℤ
  pub actual_duration_seconds : Decimal
  pub price_bound_violations : ℕ
  pub duplicate_events_ignored : ℕ
  pub unknown_orders_reconciled : ℕ
  pub max_reserved_exposure : Decimal
  pub overfill : Decimal

-- `summary_metrics`, called as `_summary_metrics` calls it.
unfoldable pub summary_metrics : Rounded → Decimal → ExecutionRecord → SummaryMetrics
summary_metrics average actual_duration r =
    let filled_quantity = confirmed r in
    let bid = or_default r.arrival_bid (pos 0) in
    let ask = or_default r.arrival_ask (pos 0) in
    record {
      final_status = r.status;
      raw_required_quantity = r.raw_required_quantity;
      required_quantity = r.required_quantity;
      target_dust_quantity = r.target_dust_quantity;
      filled_quantity = filled_quantity;
      unfilled_quantity = floor_zero (r.required_quantity -ℤ filled_quantity);
      completion = completion_rate filled_quantity r.required_quantity;
      arrival_bid = bid;
      arrival_ask = ask;
      arrival_mid = mid_price bid ask;
      vwap = average;
      slippage =
          if eq_ℤ filled_quantity (pos 0) || average.coefficient == 0
          then no_slippage
          else slippage_bps r.side (mid_price bid ask) average;
      requested_duration_seconds = r.request.target_duration_seconds;
      actual_duration_seconds = actual_duration;
      price_bound_violations = r.metric_counts Metric.price_bound_violations;
      duplicate_events_ignored = r.metric_counts Metric.duplicate_events_ignored;
      unknown_orders_reconciled = r.metric_counts Metric.unknown_orders_reconciled;
      max_reserved_exposure = r.max_reserved_exposure;
      overfill = overfill_quantity filled_quantity r.required_quantity;
    }

-- The whole table; `counters` are the entries that read `metric_counts`. The two entries that
-- repeat a constant of the engine are left out.
pub record ExecutionMetrics : Type 0 where
  pub summary : SummaryMetrics
  pub initial_position : Decimal
  pub target_position : Decimal
  pub side : Side
  pub child_order_count : ℕ
  pub counters : Metric → ℕ
  pub maker_filled_quantity : Decimal
  pub taker_filled_quantity : Decimal
  pub retryable_order_reject_streak : ℤ
  pub retryable_order_reject_limit : ℤ
  pub durations_taken : Durations
  pub late_counts : LateCounts
  pub slice_ledger : List LedgerRow

-- `_summary_metrics`
unfoldable pub execution_metrics : Decimal → ExecutionRecord → ExecutionMetrics
execution_metrics now r =
    let taken = durations now r in
    record {
      summary =
          summary_metrics (execution_vwap (summary_vwap_inputs r)) taken.total_lifecycle_duration r;
      initial_position = r.initial_position.position;
      target_position = r.request.target_position;
      side = r.side;
      child_order_count = length r.child_orders;
      counters = r.metric_counts;
      maker_filled_quantity = r.maker_filled_quantity;
      taker_filled_quantity = r.taker_filled_quantity;
      retryable_order_reject_streak = r.consecutive_retryable_order_rejects;
      retryable_order_reject_limit = r.request.parameters.max_post_only_reject_retries;
      durations_taken = taken;
      late_counts = post_deadline_submission_counts r (seconds r.request.target_duration_seconds);
      slice_ledger = twap_slice_ledger r;
    }

-- What is filled and what is not add up to what is required and what is filled beyond it, and the
-- time before the deadline and the clean-up after it add up to the whole.
pub metrics_add_up :
    (now : Decimal) (r : ExecutionRecord)
    → let m = execution_metrics now r in
      (m.summary.filled_quantity +ℤ m.summary.unfilled_quantity
        ≡ m.summary.required_quantity +ℤ m.summary.overfill)
      × (m.durations_taken.decision_deadline_elapsed +ℤ m.durations_taken.terminal_cleanup_duration
          ≡ m.summary.actual_duration_seconds)
unfolding execution_metrics summary_metrics durations overfill_quantity
metrics_add_up now r = (grind int_laws, grind int_laws)
