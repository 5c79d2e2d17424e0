-- ===== src/Engine/Record.antt =====
-- src/execution/engine.py: `ExecutionRecord`, the engine's state for one execution, and the small
-- methods that read it or count in it. `now` stands for the value of `_now_decimal()`.
use text.Mathlib.Text.{◌==◌ as str_eq}
use interview_assignment.Base.{
  ℕ, ◌+◌, String, Bool, false, Option, none, some, List, ◌==◌, if◌then◌else◌, or_default, ℤ, pos,
  Decimal, ◌-ℤ◌, ◌*ℤ◌, ltb_ℤ, leb_ℤ, get_elem?, set, Text, Exception, ok, raised, Exec, ◌>>=◌,
}
use interview_assignment.Base.Dict.{Dict, IdSet}
use interview_assignment.Execution.Models.{
  Side, ExecutionStatus, ExecutionRequest, PositionSnapshot,
}
use interview_assignment.Execution.Orders.{
  ChildOrder, Exposure, empty_exposure, reserved_exposure, ExecutionSummary,
}
use interview_assignment.Risk.Validation.{check_exposure_invariant}
use interview_assignment.Engine.Exposure.{ExposureTracker, new_tracker}

-- The keys of `metric_counts`.
pub data Metric : Type 0 where
  orders_submitted cancels_requested reprices rejections maker_fills taker_fills : Metric
  duplicate_events_ignored unknown_orders_reconciled price_bound_violations : Metric
  retryable_order_rejections retryable_order_reject_backoff_blocks : Metric
  retryable_order_reject_same_price_blocks rate_limit_backoffs rate_limit_backoff_blocks : Metric

abbrev pub metric_code : Metric → ℕ
metric_code orders_submitted = 0
metric_code cancels_requested = 1
metric_code reprices = 2
metric_code rejections = 3
metric_code maker_fills = 4
metric_code taker_fills = 5
metric_code duplicate_events_ignored = 6
metric_code unknown_orders_reconciled = 7
metric_code price_bound_violations = 8
metric_code retryable_order_rejections = 9
metric_code retryable_order_reject_backoff_blocks = 10
metric_code retryable_order_reject_same_price_blocks = 11
metric_code rate_limit_backoffs = 12
metric_code rate_limit_backoff_blocks = 13

-- A volume-weighted price input, and an interval of a child's cumulative fill.
abbrev pub PriceQuantity : Type 0
PriceQuantity = Decimal × Decimal

abbrev pub Interval : Type 0
Interval = Decimal × Decimal

pub record ExecutionRecord : Type 0 where
  pub execution_id : Text
  pub request : ExecutionRequest
  pub status : ExecutionStatus
  pub side : Side
  pub required_quantity : Decimal
  pub initial_position : PositionSnapshot
  pub raw_required_quantity : Decimal
  pub target_dust_quantity : Decimal
  pub final_reason : Option String
  pub child_orders : List ChildOrder
  pub summary : Option ExecutionSummary
  pub exposure_tracker : Option ExposureTracker
  pub last_child_sequence : ℕ
  pub started_monotonic : Decimal
  pub completed_monotonic : Option Decimal
  pub last_reprice_monotonic : Option Decimal
  pub arrival_bid : Option Decimal
  pub arrival_ask : Option Decimal
  pub max_reserved_exposure : Decimal
  pub metric_counts : Metric → ℕ
  pub seen_fill_trade_ids : IdSet
  pub ignored_fill_trade_ids : IdSet
  pub fill_vwap_inputs : List PriceQuantity
  pub trade_fill_vwap_inputs : Dict PriceQuantity
  pub trade_fill_sort_keys : Dict (ℤ × ℤ × Text)
  pub child_authoritative_fill_intervals : Dict (List Interval)
  pub anonymous_fill_vwap_inputs : List PriceQuantity
  pub maker_filled_quantity : Decimal
  pub taker_filled_quantity : Decimal
  pub child_submitted_monotonic : Dict Decimal
  pub aggressive_child_client_order_ids : IdSet
  pub consecutive_retryable_order_rejects : ℤ
  pub last_retryable_order_reject_monotonic : Option Decimal
  pub last_retryable_order_reject_price : Option Decimal
  pub last_retryable_order_reject_bid : Option Decimal
  pub last_retryable_order_reject_ask : Option Decimal
  pub last_retryable_order_reject_reason : Option String
  pub rate_limited_until_monotonic : Option Decimal

abbrev pub Update : Type 0 → Type 0
Update A = Exec ExecutionRecord A

-- `ExecutionRecord.exposure`
unfoldable pub exposure : ExecutionRecord → Exposure
exposure r = elim r.exposure_tracker [ none ↦ empty_exposure | some t ↦ t.exposure ]

abbrev pub confirmed : ExecutionRecord → Decimal
confirmed r = (exposure r).confirmed_filled_quantity

-- `record.exposure.reserved_exposure`
abbrev pub reserved : ExecutionRecord → Decimal
reserved r = reserved_exposure (exposure r)

-- Clock values are whole numbers of nanoseconds.
abbrev pub quanta_per_second : ℕ
quanta_per_second = 1_000_000_000

-- `Decimal(str(seconds))` for a whole number of seconds.
abbrev pub seconds : ℤ → Decimal
seconds n = n *ℤ pos quanta_per_second

abbrev pub reason_is : Option String → String → Bool
reason_is none s = false
reason_is (some t) s = str_eq t s

-- `_increment_metric`
unfoldable pub increment_metric : Metric → ExecutionRecord → ExecutionRecord
increment_metric m r = record r {
  metric_counts =
      λ k. if metric_code k == metric_code m then r.metric_counts k + 1 else r.metric_counts k;
}

-- `_record_max_reserved_exposure`
unfoldable pub record_max_reserved_exposure : ExecutionRecord → ExecutionRecord
record_max_reserved_exposure r =
    if ltb_ℤ r.max_reserved_exposure (reserved r)
    then record r { max_reserved_exposure = reserved r }
    else r

-- `_summary`
unfoldable pub summary_of : ExecutionRecord → ExecutionSummary
summary_of r = record {
  execution_id = r.execution_id;
  final_status = r.status;
  final_reason = or_default r.final_reason "";
}

-- `_target_filled`
unfoldable pub target_filled : ExecutionRecord → Bool
target_filled r = leb_ℤ r.required_quantity (confirmed r)

-- `_deadline_reached`
unfoldable pub deadline_reached : Decimal → ExecutionRecord → Bool
deadline_reached now r =
    leb_ℤ (seconds r.request.target_duration_seconds) (now -ℤ r.started_monotonic)

-- `_assert_exposure_invariant_locked`
unfoldable pub assert_exposure_invariant : Update (Unit {0})
assert_exposure_invariant r = (
  check_exposure_invariant (exposure r) (pos 0) r.required_quantity
      (elim r.exposure_tracker [ none ↦ pos 0 | some t ↦ t.permitted_tolerance ]),
  r,
)

-- `_require_exposure_tracker`
unfoldable pub require_exposure_tracker : Update ExposureTracker
require_exposure_tracker r = elim r.exposure_tracker [
  | some t ↦ (ok t, r)
  | none ↦ elim (new_tracker r.required_quantity) [
    | ok t ↦ (ok t, record r { exposure_tracker = some t })
    | raised e ↦ (raised e, r)
  ]
]

-- A call of one of the tracker's methods, `self._require_exposure_tracker(record).method(...)`.
unfoldable pub on_tracker : {A : Type 0} → Exec ExposureTracker A → Update A
on_tracker method = do
  t ← require_exposure_tracker
  λ r. let (result, t') = method t in (result, record r { exposure_tracker = some t' })

-- Children are objects shared with `child_orders`: a child is named by its place in that list.
unfoldable pub read_child : ℕ → Update ChildOrder
read_child i r = elim (get_elem? r.child_orders i) [
  | some c ↦ (ok c, r)
  | none ↦ (raised (Exception.other_exception "no such child"), r)
]

unfoldable pub write_child : ℕ → ChildOrder → ExecutionRecord → ExecutionRecord
write_child i c r = record r { child_orders = set r.child_orders i c }
