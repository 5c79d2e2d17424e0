-- ===== src/Execution/Models.antt =====
-- src/execution/models.py: the enums and records of an execution, and the trade that a target asks
-- for.
use text.Mathlib.Text.{◌==◌ as str_eq}
use interview_assignment.Base.{
  ℕ, String, Bool, true, false, Option, List, ◌==◌, ℤ, Decimal, leb_ℤ, any, Text,
}

pub data Environment : Type 0 where
  simulation testnet mainnet : Environment

pub data Algorithm : Type 0 where
  chase twap : Algorithm

pub data DeadlinePolicy : Type 0 where
  cancel_remainder aggressive_within_range : DeadlinePolicy

pub data RepricingMode : Type 0 where
  adverse_only two_sided : RepricingMode

pub data Side : Type 0 where
  buy sell no_action : Side

pub data TimeInForce : Type 0 where
  gtc gtx ioc : TimeInForce

pub data ExecutionStatus : Type 0 where
  created validating running cancelling completed : ExecutionStatus
  partially_completed expired cancelled failed : ExecutionStatus

pub data ChildOrderStatus : Type 0 where
  pending_submit open_order partially_filled pending_cancel : ChildOrderStatus
  cancelled filled rejected unknown : ChildOrderStatus

-- `side is Side.BUY` and `side is Side.SELL`.
abbrev pub is_buy : Side → Bool
is_buy Side.buy = true
is_buy _ = false

abbrev pub is_sell : Side → Bool
is_sell Side.sell = true
is_sell _ = false

abbrev pub is_no_action : Side → Bool
is_no_action Side.no_action = true
is_no_action _ = false

-- The positions of the members in their enum: `a is b` compares them.
abbrev pub status_code : ExecutionStatus → ℕ
status_code ExecutionStatus.created = 0
status_code ExecutionStatus.validating = 1
status_code ExecutionStatus.running = 2
status_code ExecutionStatus.cancelling = 3
status_code ExecutionStatus.completed = 4
status_code ExecutionStatus.partially_completed = 5
status_code ExecutionStatus.expired = 6
status_code ExecutionStatus.cancelled = 7
status_code ExecutionStatus.failed = 8

abbrev pub child_code : ChildOrderStatus → ℕ
child_code ChildOrderStatus.pending_submit = 0
child_code ChildOrderStatus.open_order = 1
child_code ChildOrderStatus.partially_filled = 2
child_code ChildOrderStatus.pending_cancel = 3
child_code ChildOrderStatus.cancelled = 4
child_code ChildOrderStatus.filled = 5
child_code ChildOrderStatus.rejected = 6
child_code ChildOrderStatus.unknown = 7

abbrev pub status_is : ExecutionStatus → ExecutionStatus → Bool
status_is a b = status_code a == status_code b

abbrev pub child_is : ChildOrderStatus → ChildOrderStatus → Bool
child_is a b = child_code a == child_code b

-- `ExecutionStatus.is_terminal`
abbrev pub is_terminal : ExecutionStatus → Bool
is_terminal ExecutionStatus.completed = true
is_terminal ExecutionStatus.partially_completed = true
is_terminal ExecutionStatus.expired = true
is_terminal ExecutionStatus.cancelled = true
is_terminal ExecutionStatus.failed = true
is_terminal _ = false

-- `ChildOrderStatus.is_terminal`
abbrev pub child_is_terminal : ChildOrderStatus → Bool
child_is_terminal ChildOrderStatus.cancelled = true
child_is_terminal ChildOrderStatus.filled = true
child_is_terminal ChildOrderStatus.rejected = true
child_is_terminal _ = false

-- `status in {OPEN, PARTIALLY_FILLED}`
abbrev pub child_is_live : ChildOrderStatus → Bool
child_is_live ChildOrderStatus.open_order = true
child_is_live ChildOrderStatus.partially_filled = true
child_is_live _ = false

pub record ExecutionParameters : Type 0 where
  pub reprice_threshold_bps : Decimal
  pub minimum_reprice_interval_ms : ℤ
  pub number_of_slices : ℤ
  pub child_order_timeout_seconds : ℤ
  pub max_post_only_reject_retries : ℤ
  pub repricing_mode : RepricingMode

pub record ExecutionRequest : Type 0 where
  pub environment : Environment
  pub symbol : Text
  pub algorithm : Algorithm
  pub target_position : Decimal
  pub target_price_lower : Decimal
  pub target_price_upper : Decimal
  pub target_duration_seconds : ℤ
  pub deadline_policy : DeadlinePolicy
  pub parameters : ExecutionParameters

pub record SymbolRules : Type 0 where
  pub symbol : Text
  pub tick_size : Decimal
  pub quantity_step : Decimal
  pub min_quantity : Decimal
  pub min_notional : Decimal
  pub status : String
  pub supported_time_in_force : List String

-- `"GTX" in rules.supported_time_in_force`
abbrev pub supports_gtx : SymbolRules → Bool
supports_gtx r = any (str_eq "GTX") r.supported_time_in_force

pub record MarketSnapshot : Type 0 where
  pub symbol : Text
  pub bid : Decimal
  pub ask : Decimal
  pub last_market_event_time_exchange : Option ℤ
  pub last_market_event_time_local_monotonic : Decimal

-- `MarketSnapshot.is_crossed`
unfoldable pub is_crossed : MarketSnapshot → Bool
is_crossed m = leb_ℤ m.ask m.bid

pub record PositionSnapshot : Type 0 where
  pub symbol : Text
  pub position : Decimal
  pub update_time_ms : Option ℤ
