-- ===== src/Execution/Orders.antt =====
-- src/execution/models.py: orders, fills and exposure.
use interview_assignment.Base.{
  String, ◌≡◌, ◌↔◌, Bool, Option, List, arith, if◌then◌else◌, ℤ, pos, Decimal, ◌+ℤ◌, ◌-ℤ◌, ◌≤ℤ◌,
  ltb_ℤ, abs_ℤ, neg_ℤ, Text,
}
use interview_assignment.Execution.Models.{Side, TimeInForce, ChildOrderStatus, ExecutionStatus}

pub record OrderRequest : Type 0 where
  pub execution_id : Text
  pub child_order_id : Text
  pub client_order_id : Text
  pub symbol : Text
  pub side : Side
  pub quantity : Decimal
  pub price : Decimal
  pub post_only : Bool
  pub reduce_only : Bool
  pub time_in_force : Option TimeInForce

pub record ChildOrder : Type 0 where
  pub child_order_id : Text
  pub client_order_id : Text
  pub symbol : Text
  pub side : Side
  pub submitted_quantity : Decimal
  pub price : Decimal
  pub status : ChildOrderStatus
  pub confirmed_filled_quantity : Decimal
  pub exchange_order_id : Option Text
  pub raw_status : Option String
  pub terminal_reason : Option String

-- `remaining if remaining > 0 else 0`
abbrev pub floor_zero : Decimal → Decimal
floor_zero a = if ltb_ℤ (pos 0) a then a else pos 0

-- `ChildOrder.remaining_quantity`
unfoldable pub remaining_quantity : ChildOrder → Decimal
remaining_quantity c = floor_zero (c.submitted_quantity -ℤ c.confirmed_filled_quantity)

pub record Fill : Type 0 where
  pub client_order_id : Text
  pub trade_id : Option Text
  pub cumulative_filled_quantity : Decimal
  pub last_filled_quantity : Decimal
  pub last_fill_price : Decimal
  pub event_time_ms : Option ℤ
  pub transaction_time_ms : Option ℤ
  pub is_maker : Option Bool

pub record ReconciliationResult : Type 0 where
  pub orders : List ChildOrder
  pub fills : List Fill
  pub warnings : List String

pub record Exposure : Type 0 where
  pub confirmed_filled_quantity : Decimal
  pub live_open_quantity : Decimal
  pub pending_submit_quantity : Decimal
  pub pending_cancel_quantity : Decimal
  pub unknown_order_quantity : Decimal

-- `Exposure()`
abbrev pub empty_exposure : Exposure
empty_exposure = record {
  confirmed_filled_quantity = pos 0;
  live_open_quantity = pos 0;
  pending_submit_quantity = pos 0;
  pending_cancel_quantity = pos 0;
  unknown_order_quantity = pos 0;
}

-- `Exposure.reserved_exposure`
unfoldable pub reserved_exposure : Exposure → Decimal
reserved_exposure e =
    e.live_open_quantity +ℤ e.pending_submit_quantity +ℤ e.pending_cancel_quantity
    +ℤ e.unknown_order_quantity

-- The terminal summary without its metrics, which are a report over the same record.
pub record ExecutionSummary : Type 0 where
  pub execution_id : Text
  pub final_status : ExecutionStatus
  pub final_reason : String

unfoldable pub required_trade : Decimal → Decimal → Side × Decimal
required_trade target_position current_position =
    let quantity = target_position -ℤ current_position in
    if ltb_ℤ (pos 0) quantity
    then (Side.buy, quantity)
    else if ltb_ℤ quantity (pos 0)
    then (Side.sell, abs_ℤ quantity)
    else (Side.no_action, pos 0)

-- The signed change of position that a trade of a side makes.
abbrev pub signed : Side × Decimal → Decimal
signed (Side.buy, q) = q
signed (Side.sell, q) = neg_ℤ q
signed (Side.no_action, q) = pos 0

-- Trading the required side and quantity takes the current position exactly to the target, the
-- quantity is never negative, and the side is NO_ACTION exactly when nothing is to be traded.
pub required_trade_reaches_target :
    (target current : Decimal)
    → (current +ℤ signed (required_trade target current) ≡ target)
      × (pos 0 ≤ℤ (required_trade target current).1)
      × (((required_trade target current).0 ≡ Side.no_action) ↔ (target ≡ current))
unfolding required_trade ◌+ℤ◌ ◌-ℤ◌ abs_ℤ neg_ℤ
required_trade_reaches_target target current =
    (ground arith, ground arith, (λ h. ground arith, λ h. ground arith))
