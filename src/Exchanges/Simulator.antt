-- ===== src/Exchanges/Simulator.antt =====
-- src/exchanges/simulator.py: the deterministic simulator, driven by a ManualClock of
-- src/execution/clock.py. The texts of its exceptions are kept without the ids and symbols in them.
-- An event carries the order that it is about by its key, since the source shares the order object.
pub mod Trading
pub mod Adapter
pub mod Books
pub mod Filling
pub mod Fills
pub mod Honest
pub mod Uses
pub mod Operations
use interview_assignment.Base.Dict
use interview_assignment.Base.Dict.{Dict, IdSet, lookup, insert, remove, contains, add, discard}
use interview_assignment.Base.{
  ℕ, zero, suc, ◌+◌, ◌-◌, ◌*◌, ◌/◌, ◌%◌, ◌≤◌, ◌<◌, String, ◌≡◌, refl, sym, ap, subst, ◌∙◌, ◌≢◌, ◌↔◌,
  ◌⊎◌, inl, inr, Bool, true, false, ◌&&◌, ◌||◌, not, Option, none, some, List, [], ◌∷◌, ◌++◌, map,
  arith, ltb, leb, ◌==◌, if◌then◌else◌, ltb→lt, leb→le, ==_iff, Bool-cases, Option-cases, is_some,
  or_default, ℤ, pos, negsuc, Decimal, pos_part, neg_part, ◌+ℤ◌, ◌-ℤ◌, ◌*ℤ◌, ◌≤ℤ◌, ◌<ℤ◌, ltb_ℤ,
  leb_ℤ, eq_ℤ, int_laws, min_ℤ, max_ℤ, abs_ℤ, neg_ℤ, length, get_elem?, set, remove_at, any, All,
  Text, text_eq, text_eq_iff, text_eq_refl, Exception, ValidationKind, exception_text, Result, ok,
  raised, Exec, pure, raise, lift, gets, modify, raise_if, ◌>>=◌, ◌>>◌, returns, after_call,
  after_ok,
}
use interview_assignment.Execution.Models.{
  Environment, Algorithm, DeadlinePolicy, RepricingMode, Side, TimeInForce, ExecutionStatus,
  ChildOrderStatus, is_buy, is_sell, is_no_action, status_is, child_is, is_terminal,
  child_is_terminal, child_is_live, ExecutionParameters, ExecutionRequest, SymbolRules,
  MarketSnapshot, is_crossed, PositionSnapshot,
}
use interview_assignment.Execution.Orders.{
  OrderRequest, ChildOrder, floor_zero, remaining_quantity, Fill, ReconciliationResult, Exposure,
  empty_exposure, reserved_exposure, ExecutionSummary, required_trade,
}
use interview_assignment.Risk.Validation.{check_exposure_invariant}
use interview_assignment.Execution.Ids
use interview_assignment.Execution.Ids.{starts_with, decimal_digits, pad_zeros, between}
use interview_assignment.Execution.StateMachine.{transition_child}
use interview_assignment.Exchanges.{ExchangeAdapter}
use text.Mathlib.Text.{◌==◌ as str_eq}

pub data EventKind : Type 0 where
  order_opened order_cancelled fill : EventKind

-- `SimulatorOrderEvent`
pub record SimulatorOrderEvent : Type 0 where
  pub kind : EventKind
  pub symbol : Text
  pub client_order_id : Text
  pub event_fill : Option Fill

-- The key of `_orders`: symbol and client order id.
abbrev pub OrderKey : Type 0
OrderKey = Text × Text

abbrev pub Orders : Type 0
Orders = List (OrderKey × ChildOrder)

abbrev pub key_eq : OrderKey → OrderKey → Bool
key_eq (a, b) (c, d) = text_eq a c && text_eq b d

-- `DeterministicSimulator`, with the `current` of its clock. The queues are lists.
pub record Simulator : Type 0 where
  pub current : Decimal
  pub position : Decimal
  pub stale_market_data_seconds : Decimal
  pub market : Dict MarketSnapshot
  pub market_queue : List MarketSnapshot
  pub symbol_rules : Dict SymbolRules
  pub orders : Orders
  pub fills : List Fill
  pub user_event_queue : List SimulatorOrderEvent
  pub trade_sequence : ℕ
  pub exchange_order_sequence : ℕ
  pub create_timeout_prefixes : List Text
  pub create_timeout_not_found_prefixes : List Text
  pub create_timeout_not_found_warnings : List OrderKey
  pub fill_during_cancel_scripts : List (Text × Decimal)
  pub cancel_reconcile_open_prefixes : List Text
  pub user_stream_healthy : Bool

abbrev pub Simulation : Type 0 → Type 0
Simulation A = Exec Simulator A

-- `DeterministicSimulator()`: 1.5 seconds is stale.
abbrev pub new_simulator : Simulator
new_simulator = record {
  current = pos 0;
  position = pos 0;
  stale_market_data_seconds = pos 1_500_000_000;
  market = [];
  market_queue = [];
  symbol_rules = [];
  orders = [];
  fills = [];
  user_event_queue = [];
  trade_sequence = 0;
  exchange_order_sequence = 0;
  create_timeout_prefixes = [];
  create_timeout_not_found_prefixes = [];
  create_timeout_not_found_warnings = [];
  fill_during_cancel_scripts = [];
  cancel_reconcile_open_prefixes = [];
  user_stream_healthy = true;
}

-- `ManualClock.advance`
unfoldable pub advance : Decimal → Simulation (Unit {0})
advance elapsed s =
    if ltb_ℤ elapsed (pos 0)
    then (raised (Exception.other_exception "manual clock cannot advance by negative seconds"), s)
    else (ok tt, record s { current = s.current +ℤ elapsed })

-- `int(clock.utc_now().timestamp() * 1000)`: a datetime holds microseconds, rounded half to even.
abbrev pub microseconds : ℕ → ℕ
microseconds n =
    let q = n / 1000 in
    if ltb (n % 1000) 500 then q else if ltb 500 (n % 1000) then q + 1 else q + q % 2

unfoldable pub clock_time_ms : Simulator → ℤ
clock_time_ms s = elim s.current [
  | pos n ↦ pos (microseconds n / 1000)
  | negsuc n ↦ neg_ℤ (pos (microseconds (suc n) / 1000))
]

unfoldable pub default_rules : Text → SymbolRules
default_rules symbol = record {
  symbol = symbol;
  tick_size = pos 10_000_000;
  quantity_step = pos 100_000;
  min_quantity = pos 100_000;
  min_notional = pos 50_000_000_000_000_000;
  status = "TRADING";
  supported_time_in_force = "GTC" ∷ "GTX" ∷ "IOC" ∷ [];
}

-- `get_symbol_rules` and `set_symbol_rules`
unfoldable pub rules_of : Text → Simulator → SymbolRules
rules_of symbol s = or_default (lookup symbol s.symbol_rules) (default_rules symbol)

unfoldable pub set_symbol_rules : SymbolRules → Simulator → Simulator
set_symbol_rules rules s = record s { symbol_rules = insert rules.symbol rules s.symbol_rules }

-- `push_market_data`
unfoldable pub push_market_data : Text → Decimal → Decimal → Option ℤ → Simulator → Simulator
push_market_data symbol bid ask exchange_event_time s =
    let snapshot : MarketSnapshot = record {
      symbol = symbol;
      bid = bid;
      ask = ask;
      last_market_event_time_exchange = exchange_event_time;
      last_market_event_time_local_monotonic = s.current;
    } in
    record s {
      market = insert symbol snapshot s.market;
      market_queue = s.market_queue ++ snapshot ∷ [];
    }

-- `get_best_bid_ask`
unfoldable pub get_best_bid_ask : Text → Simulation MarketSnapshot
get_best_bid_ask symbol s = elim (lookup symbol s.market) [
  | none ↦ (raised Exception.no_fresh_market_data, s)
  | some snapshot ↦
      if is_crossed snapshot
      then (raised Exception.no_fresh_market_data, s)
      else if ltb_ℤ s.stale_market_data_seconds
          (s.current -ℤ snapshot.last_market_event_time_local_monotonic)
      then (raised Exception.no_fresh_market_data, s)
      else (ok snapshot, s)
]

abbrev pub tif_code : TimeInForce → String
tif_code TimeInForce.gtc = "GTC"
tif_code TimeInForce.gtx = "GTX"
tif_code TimeInForce.ioc = "IOC"

abbrev pub requested_tif : OrderRequest → TimeInForce
requested_tif q =
    if q.post_only then TimeInForce.gtx else or_default q.time_in_force TimeInForce.gtc

-- `_validate_order_time_in_force`
unfoldable pub validate_order_time_in_force :
    OrderRequest → MarketSnapshot → Simulator → Result (Unit {0})
unfolding rules_of
validate_order_time_in_force q snapshot s =
    if not (any (str_eq (tif_code (requested_tif q))) (rules_of q.symbol s).supported_time_in_force)
    then raised (Exception.order_rejected "does not support time in force")
    else if not q.post_only
    then ok tt
    else if is_buy q.side && leb_ℤ snapshot.ask q.price
    then raised (Exception.order_rejected "post-only order would cross the current ask")
    else if is_sell q.side && leb_ℤ q.price snapshot.bid
    then raised (Exception.order_rejected "post-only order would cross the current bid")
    else ok tt

-- `_pop_matching_prefix`: the first prefix that matches, and the list without it.
unfoldable pub pop_matching_prefix : List Text → Text → Option Text × List Text
pop_matching_prefix [] id = (none, [])
pop_matching_prefix (p ∷ ps) id =
    let rest = pop_matching_prefix ps id in
    if starts_with p id then (some p, ps) else (rest.0, p ∷ rest.1)

-- A popped prefix counts if it is not empty.
abbrev pub matched : Option Text → Bool
matched none = false
matched (some []) = false
matched (some (a ∷ p)) = true

-- `_consume_fill_during_cancel`
unfoldable pub consume_fill_during_cancel :
    List (Text × Decimal) → Text → Option Decimal × List (Text × Decimal)
consume_fill_during_cancel [] id = (none, [])
consume_fill_during_cancel ((p, q) ∷ ps) id =
    let rest = consume_fill_during_cancel ps id in
    if starts_with p id then (some q, ps) else (rest.0, (p, q) ∷ rest.1)
