-- ===== src/Tests/Samples.antt =====
-- Test data: a Chase execution that buys 10 of a symbol, with one open child of which 4 is filled.
use interview_assignment.Base.{true, none, some, [], ◌∷◌, pos, Decimal, Text, ok, raised, Exception}
use interview_assignment.Execution.Models.{
  Environment, Algorithm, DeadlinePolicy, RepricingMode, Side, ExecutionStatus, ChildOrderStatus,
  ExecutionParameters, ExecutionRequest, SymbolRules, PositionSnapshot,
}
use interview_assignment.Execution.Orders.{ChildOrder}
use interview_assignment.Exchanges.{ExchangeAdapter}
use interview_assignment.Engine.Exposure.{ExposureTracker}
use interview_assignment.Engine.Record.{ExecutionRecord}
use interview_assignment.Engine.Fills.{FillReport}
use interview_assignment.Engine.Session.{Session}

-- "BTC"
abbrev pub btc : Text
btc = 66 ∷ 84 ∷ 67 ∷ []

abbrev pub parameters : ExecutionParameters
parameters = record {
  reprice_threshold_bps = pos 5;
  minimum_reprice_interval_ms = pos 1000;
  number_of_slices = pos 4;
  child_order_timeout_seconds = pos 30;
  max_post_only_reject_retries = pos 3;
  repricing_mode = RepricingMode.two_sided;
}

abbrev pub request : ExecutionRequest
request = record {
  environment = Environment.simulation;
  symbol = btc;
  algorithm = Algorithm.chase;
  target_position = pos 10;
  target_price_lower = pos 90;
  target_price_upper = pos 110;
  target_duration_seconds = pos 60;
  deadline_policy = DeadlinePolicy.cancel_remainder;
  parameters = parameters;
}

abbrev pub rules : SymbolRules
rules = record {
  symbol = btc;
  tick_size = pos 5;
  quantity_step = pos 2;
  min_quantity = pos 2;
  min_notional = pos 100;
  status = "TRADING";
  supported_time_in_force = "GTX" ∷ [];
}

abbrev pub flat : PositionSnapshot
flat = record { symbol = btc; position = pos 0; update_time_ms = none }

-- 4 filled and 3 live of a target of 10.
abbrev pub tracker : ExposureTracker
tracker = record {
  target_quantity = pos 10;
  permitted_tolerance = pos 0;
  exposure = record {
    confirmed_filled_quantity = pos 4;
    live_open_quantity = pos 3;
    pending_submit_quantity = pos 0;
    pending_cancel_quantity = pos 0;
    unknown_order_quantity = pos 0;
  };
  seen_trade_ids = [];
}

-- "ce_a_1"
abbrev pub first_id : Text
first_id = 99 ∷ 101 ∷ 95 ∷ 97 ∷ 95 ∷ 49 ∷ []

abbrev pub open_child : ChildOrder
open_child = record {
  child_order_id = 99 ∷ [];
  client_order_id = first_id;
  symbol = btc;
  side = Side.buy;
  submitted_quantity = pos 7;
  price = pos 100;
  status = ChildOrderStatus.open_order;
  confirmed_filled_quantity = pos 4;
  exchange_order_id = none;
  raw_status = none;
  terminal_reason = none;
}

abbrev pub running : ExecutionRecord
running = record {
  execution_id = 97 ∷ [];
  request = request;
  status = ExecutionStatus.running;
  side = Side.buy;
  required_quantity = pos 10;
  initial_position = flat;
  raw_required_quantity = pos 10;
  target_dust_quantity = pos 0;
  final_reason = none;
  child_orders = open_child ∷ [];
  summary = none;
  exposure_tracker = some tracker;
  last_child_sequence = 1;
  started_monotonic = pos 0;
  completed_monotonic = none;
  last_reprice_monotonic = none;
  arrival_bid = none;
  arrival_ask = none;
  max_reserved_exposure = pos 3;
  metric_counts = λ _. 0;
  seen_fill_trade_ids = [];
  ignored_fill_trade_ids = [];
  fill_vwap_inputs = [];
  trade_fill_vwap_inputs = [];
  trade_fill_sort_keys = [];
  child_authoritative_fill_intervals = [];
  anonymous_fill_vwap_inputs = [];
  maker_filled_quantity = pos 0;
  taker_filled_quantity = pos 0;
  child_submitted_monotonic = [];
  aggressive_child_client_order_ids = [];
  consecutive_retryable_order_rejects = pos 0;
  last_retryable_order_reject_monotonic = none;
  last_retryable_order_reject_price = none;
  last_retryable_order_reject_bid = none;
  last_retryable_order_reject_ask = none;
  last_retryable_order_reject_reason = none;
  rate_limited_until_monotonic = none;
}

-- The trade 7 takes the child from 4 to 6.
abbrev pub trade : FillReport
trade = record {
  incoming_cumulative = pos 6;
  trade_id = some (55 ∷ []);
  fill_price = pos 100;
  is_maker = some true;
  authoritative_trade = true;
  fill_quantity_delta = some (pos 2);
  event_time_ms = none;
  transaction_time_ms = none;
  authoritative_confirmed_limit = none;
}

-- An exchange that refuses every call; its world is the time.
abbrev pub refusing : ExchangeAdapter
refusing = record {
  World = Decimal;
  monotonic = λ t. t;
  get_symbol_rules = λ s t. (raised (Exception.other_exception "down"), t);
  get_position = λ s t. (raised (Exception.other_exception "down"), t);
  get_best_bid_ask = λ s t. (raised Exception.no_fresh_market_data, t);
  submit_limit_order = λ o t. (raised (Exception.exchange_rate_limited "busy"), t);
  cancel_order = λ s c t. (raised (Exception.order_cancel_timeout "late"), t);
  get_order_by_client_order_id = λ s c t. (raised (Exception.other_exception "down"), t);
  reconcile_orders_and_fills = λ s p b e t. (raised (Exception.other_exception "down"), t);
  health_check_streams = λ t. (ok true, t);
}

-- The same, with a failure that the engine does not know.
abbrev pub failing : ExchangeAdapter
failing = record refusing {
  submit_limit_order = λ o t. (raised (Exception.other_exception "down"), t);
}

-- The same, where the exchange does not answer.
abbrev pub silent : ExchangeAdapter
silent = record refusing {
  submit_limit_order = λ o t. (raised (Exception.order_create_timeout "late"), t);
}

abbrev pub session : ExecutionRecord → Session refusing
session r = record { world = pos 50; execution = r }
