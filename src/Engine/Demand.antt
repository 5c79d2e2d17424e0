-- ===== src/Engine/Demand.antt =====
-- src/execution/engine.py: `_maybe_reprice_chase_locked`, `_build_child_demand_locked` and the
-- tests that they make.
pub mod Safety
pub mod Offers
use interview_assignment.Base.{
  suc, ◌/◌, String, Bool, true, false, ◌&&◌, ◌||◌, not, Option, none, some, List, [], ◌∷◌,
  if◌then◌else◌, is_some, ℤ, pos, negsuc, Decimal, ◌-ℤ◌, ◌*ℤ◌, ltb_ℤ, leb_ℤ, eq_ℤ, neg_ℤ, Exception,
  ValidationKind, Result, ok, raised, pure, raise, lift, gets, modify, ◌>>=◌, ◌>>◌,
}
use interview_assignment.Execution.Models.{
  Algorithm, DeadlinePolicy, Side, is_buy, child_is_live, SymbolRules, MarketSnapshot,
}
use interview_assignment.Execution.Orders.{ChildOrder, Exposure, reserved_exposure}
use interview_assignment.Exchanges.{ExchangeAdapter}
use interview_assignment.Engine.Exposure.{ExposureTracker, available_to_submit}
use interview_assignment.Engine.Record.{
  ExecutionRecord, Update, Metric, reason_is, increment_metric, deadline_reached,
  require_exposure_tracker,
}
use interview_assignment.Engine.Terminal.{terminalize_deadline, expire_for_validation}
use interview_assignment.Engine.Gates.{retryable_gate_blocks, is_gate_reason}
use interview_assignment.Engine.Session.{Action, on_record, ask, edit, read_clock, inspect}
use interview_assignment.Algorithms.Chase.{ChaseDecision, chase_desired_price, should_reprice}
use interview_assignment.Algorithms.Twap.{
  scheduled_cumulative_quantity, effective_slice_elapsed, scheduled_deficit, safe_child_quantity,
  floor_schedule_to_step,
}
use interview_assignment.Risk.DecimalMath.{floor_to_step, round_price}
use interview_assignment.Risk.Validation.{validate_order_shape, validate_child_order_safety}
use interview_assignment.Engine.Cancel.{cancel_active_children}

-- `_highest_legal_price_within_request_band`
unfoldable pub highest_legal_price : ExecutionRecord → SymbolRules → Result (Option Decimal)
highest_legal_price r rules =
    if leb_ℤ rules.tick_size (pos 0)
    then ok none
    else if is_buy r.side
    then elim (round_price r.request.target_price_upper rules.tick_size Side.buy true) [
      | ok p ↦ ok (some p)
      | raised e ↦ raised e
    ]
    else ok none

-- `_target_cannot_meet_min_quantity_or_min_notional`
unfoldable pub target_cannot_meet : ExecutionRecord → Option SymbolRules → Result Bool
unfolding highest_legal_price
target_cannot_meet r none = ok false
target_cannot_meet r (some rules) =
    if ltb_ℤ r.required_quantity rules.min_quantity
    then ok true
    else elim (highest_legal_price r rules) [
      | raised e ↦ raised e
      | ok none ↦ ok false
      | ok (some p) ↦ ok (ltb_ℤ (r.required_quantity *ℤ p) rules.min_notional)
    ]

-- `_first_active_child`
unfoldable pub first_active_child : List ChildOrder → Option ChildOrder
first_active_child [] = none
first_active_child (c ∷ cs) = if child_is_live c.status then some c else first_active_child cs

-- `_rounded_passive_price` and `_rounded_aggressive_price`
unfoldable pub rounded_price : Side → MarketSnapshot → SymbolRules → Bool → Result Decimal
rounded_price side market rules passive =
    elim (chase_desired_price side market.bid market.ask passive) [
      | ok desired ↦ round_price desired rules.tick_size side passive
      | raised e ↦ raised e
    ]

-- `int(interval * 1000)` for an interval in nanoseconds: towards zero.
abbrev pub milliseconds : Decimal → ℤ
milliseconds (pos n) = pos (n / 1_000_000)
milliseconds (negsuc n) = neg_ℤ (pos (suc n / 1_000_000))

-- `last_reprice_monotonic or started_monotonic`: a zero counts as none.
abbrev pub last_reprice : ExecutionRecord → Decimal
last_reprice r = elim r.last_reprice_monotonic [
  | none ↦ r.started_monotonic
  | some t ↦ if eq_ℤ t (pos 0) then r.started_monotonic else t
]

unfoldable pub reprice_decision : Decimal → ExecutionRecord → ChildOrder → Decimal → ChaseDecision
reprice_decision now r active desired =
    should_reprice r.side active.price desired r.request.parameters.reprice_threshold_bps
      r.request.parameters.minimum_reprice_interval_ms (milliseconds (now -ℤ last_reprice r))
      r.request.parameters.repricing_mode

-- `_maybe_reprice_chase_locked`
unfoldable pub maybe_reprice_chase : (a : ExchangeAdapter) → Action a Bool
maybe_reprice_chase a = do
  r ← inspect (λ r. r)
  elim (first_active_child r.child_orders) [
    | none ↦ pure false
    | some active ↦ (do
      market ← ask (a.get_best_bid_ask r.request.symbol)
      rules ← ask (a.get_symbol_rules r.request.symbol)
      desired ← lift (rounded_price r.side market rules true)
      now ← read_clock
      elim (reprice_decision now r active desired) [
        | ChaseDecision.wait ↦ pure false
        | ChaseDecision.reprice ↦ (do
          edit (λ r'.
              increment_metric Metric.reprices (record r' { last_reprice_monotonic = some now }))
          cancelled ← cancel_active_children a
          pure true)
      ])
  ]

-- `_use_aggressive_deadline_price`
abbrev pub is_aggressive_policy : DeadlinePolicy → Bool
is_aggressive_policy DeadlinePolicy.aggressive_within_range = true
is_aggressive_policy DeadlinePolicy.cancel_remainder = false

unfoldable pub use_aggressive_deadline_price : Decimal → ExecutionRecord → Bool
use_aggressive_deadline_price now r =
    is_aggressive_policy r.request.deadline_policy && deadline_reached now r

-- What the schedule asks for, rounded to the step.
unfoldable pub twap_quantity : Decimal → ExecutionRecord → Exposure → SymbolRules → Result Decimal
twap_quantity now r e rules =
    elim (effective_slice_elapsed (now -ℤ r.started_monotonic) r.request.target_duration_seconds
      r.request.parameters.number_of_slices) [
        | raised x ↦ raised x
        | ok elapsed ↦
            elim (scheduled_cumulative_quantity r.required_quantity elapsed
              r.request.target_duration_seconds) [
                | raised x ↦ raised x
                | ok scheduled ↦ elim (scheduled_deficit scheduled e.confirmed_filled_quantity) [
                  | raised x ↦ raised x
                  | ok deficit ↦
                      floor_schedule_to_step (safe_child_quantity deficit (reserved_exposure e))
                        rules.quantity_step
                ]
              ]
      ]

unfoldable pub demanded_quantity :
    Decimal → ExecutionRecord → ExposureTracker → SymbolRules → Result Decimal
demanded_quantity now r t rules = elim r.request.algorithm [
  | Algorithm.twap ↦ twap_quantity now r t.exposure rules
  | Algorithm.chase ↦ floor_to_step (available_to_submit t) rules.quantity_step
]

pub record Demand : Type 0 where
  pub quantity : Decimal
  pub price : Decimal
  pub post_only : Bool
  pub market_bid : Decimal
  pub market_ask : Decimal

-- `_is_price_outside_range_error`
unfoldable pub is_price_outside_range : ValidationKind → Bool
is_price_outside_range ValidationKind.exceeds_upper_bound = true
is_price_outside_range ValidationKind.below_lower_bound = true
is_price_outside_range _ = false

-- `_is_temporary_order_shape_error`
unfoldable pub is_temporary_shape_error :
    ExecutionRecord → ValidationKind → SymbolRules → Result Bool
is_temporary_shape_error r ValidationKind.below_min_notional rules =
    elim (target_cannot_meet r (some rules)) [ ok b ↦ ok (not b) | raised e ↦ raised e ]
is_temporary_shape_error r _ rules = ok false

abbrev pub set_reason : String → ExecutionRecord → ExecutionRecord
set_reason s r = record r { final_reason = some s }

-- The price is outside the band and the order has the right shape, or will have it.
unfoldable pub wait_for_range : Decimal → ValidationKind → Update (Unit {0})
wait_for_range now kind r =
    if deadline_reached now r
    then expire_for_validation now kind r
    else (ok tt, set_reason "WAITING_FOR_PRICE_RANGE" r)

-- `except ValidationError` of a price outside the band; `shape` is the second validation.
unfoldable pub price_outside_range :
    Decimal → SymbolRules → ValidationKind → Result (Unit {0}) → Update (Unit {0})
price_outside_range now rules kind shape = do
  modify (increment_metric Metric.price_bound_violations)
  r ← gets (λ r. r)
  elim shape [
    | ok _ ↦ wait_for_range now kind
    | raised (Exception.validation_error shape_kind) ↦ (do
      temporary ← lift (is_temporary_shape_error r shape_kind rules)
      if temporary then wait_for_range now kind else expire_for_validation now shape_kind)
    | raised e ↦ raise e
  ]

-- `except ValidationError` of any other kind.
unfoldable pub shape_refused : Decimal → SymbolRules → ValidationKind → Update (Unit {0})
shape_refused now rules kind = do
  r ← gets (λ r. r)
  temporary ← lift (is_temporary_shape_error r kind rules)
  if not temporary
      then expire_for_validation now kind
      else if deadline_reached now r
      then terminalize_deadline now "ORDER_SHAPE_TEMPORARILY_UNTRADEABLE"
      else modify (set_reason "ORDER_SHAPE_TEMPORARILY_UNTRADEABLE")

-- The reasons that an order which goes out takes back.
abbrev pub is_waiting_reason : Option String → Bool
is_waiting_reason reason =
    reason_is reason "WAITING_FOR_PRICE_RANGE"
    || reason_is reason "ORDER_SHAPE_TEMPORARILY_UNTRADEABLE"
    || is_gate_reason reason

-- An order that passed validation: the gate of post-only rejects, and the demand.
unfoldable pub admit_order : Decimal → Demand → Update (Option Demand)
admit_order now d r =
    let (blocked, r') =
      if d.post_only
      then retryable_gate_blocks now d.price d.market_bid d.market_ask r
      else (false, r) in
    if blocked then (ok none, r') else (
      ok (some d),
      record r' {
        final_reason = if is_waiting_reason r'.final_reason then none else r'.final_reason;
      },
    )

-- The part of `_build_child_demand_locked` below the price.
unfoldable pub validate_demand : Decimal → SymbolRules → Demand → Update (Option Demand)
validate_demand now rules d r =
    let safety =
      validate_child_order_safety d.quantity d.price r.side rules d.market_bid d.market_ask
        d.post_only r.request.target_price_lower r.request.target_price_upper in
    let shape =
      validate_order_shape d.quantity d.price r.side rules d.market_bid d.market_ask d.post_only in
    elim safety [
      | ok _ ↦ admit_order now d r
      | raised (Exception.validation_error kind) ↦
          if is_price_outside_range kind
          then (do price_outside_range now rules kind shape; pure none) r
          else (do shape_refused now rules kind; pure none) r
      | raised e ↦ (raised e, r)
    ]

unfoldable pub note_arrival : MarketSnapshot → ExecutionRecord → ExecutionRecord
note_arrival market r =
    if is_some r.arrival_bid
    then r
    else record r { arrival_bid = some market.bid; arrival_ask = some market.ask }

-- `_build_child_demand_locked`
unfoldable pub build_child_demand : (a : ExchangeAdapter) → Action a (Option Demand)
build_child_demand a = do
  t ← on_record require_exposure_tracker
  r ← inspect (λ r. r)
  market ← ask (a.get_best_bid_ask r.request.symbol)
  edit (note_arrival market)
  rules ← ask (a.get_symbol_rules r.request.symbol)
  now ← read_clock
  quantity ← lift (demanded_quantity now r t rules)
  if leb_ℤ quantity (pos 0) then pure none else (do
    let aggressive = use_aggressive_deadline_price now r
    price ← lift (rounded_price r.side market rules (not aggressive))
    on_record (
        validate_demand now rules (record {
          quantity = quantity;
          price = price;
          post_only = not aggressive;
          market_bid = market.bid;
          market_ask = market.ask;
        })))
