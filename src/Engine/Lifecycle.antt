-- ===== src/Engine/Lifecycle.antt =====
-- src/execution/engine.py: `create_execution`, `cancel_execution`, `reconcile_execution` and
-- `apply_reconciliation_result`.
pub mod Starts
pub mod Idle
pub mod Requests
use interview_assignment.Base.{
  true, false, ◌||◌, Option, none, some, [], if◌then◌else◌, ℤ, pos, Decimal, ◌-ℤ◌, eq_ℤ, Text, ok,
  raised, Exec, pure, raise, lift, gets, modify, ◌>>=◌, ◌>>◌,
}
use interview_assignment.Base.{Result}
use interview_assignment.Base.Dict.{Dict, insert}
use interview_assignment.Execution.Models.{
  Side, ExecutionStatus, is_no_action, status_is, is_terminal, ExecutionRequest, SymbolRules,
  PositionSnapshot,
}
use interview_assignment.Execution.Orders.{ReconciliationResult, required_trade}
use interview_assignment.Execution.StateMachine.{transition_execution}
use interview_assignment.Exchanges.{ExchangeAdapter}
use interview_assignment.Engine.Record.{ExecutionRecord, Update, summary_of}
use interview_assignment.Engine.Terminal.{terminalize_manual_cancel}
use interview_assignment.Engine.Session.{Action, on_record, at_now, inspect}
use interview_assignment.Risk.DecimalMath.{floor_to_step}
use interview_assignment.Engine.Exposure.{new_tracker}
use interview_assignment.Engine.Cancel.{is_blocked, cancel_active_children}
use interview_assignment.Engine.Reconcile.{apply_result, reconcile}
use interview_assignment.Engine.Demand.{target_cannot_meet}
use interview_assignment.Engine.Run.{complete_if_filled}

-- `ExecutionRecord(...)` as `create_execution` builds it.
unfoldable pub new_record :
    Text
    → ExecutionRequest
    → Side
    → Decimal
    → PositionSnapshot
    → Decimal
    → Decimal
    → ExecutionRecord
new_record execution_id request side required position raw dust = record {
  execution_id = execution_id;
  request = request;
  status = ExecutionStatus.created;
  side = side;
  required_quantity = required;
  initial_position = position;
  raw_required_quantity = raw;
  target_dust_quantity = dust;
  final_reason = none;
  child_orders = [];
  summary = none;
  exposure_tracker = none;
  last_child_sequence = 0;
  started_monotonic = pos 0;
  completed_monotonic = none;
  last_reprice_monotonic = none;
  arrival_bid = none;
  arrival_ask = none;
  max_reserved_exposure = pos 0;
  metric_counts = λ _. 0;
  seen_fill_trade_ids = [];
  ignored_fill_trade_ids = [];
  fill_vwap_inputs = [];
  trade_fill_vwap_inputs = [];
  trade_fill_sort_keys = [];
  child_authoritative_fill_intervals = [];
  anonymous_fill_vwap_inputs = [];
  maker_filled_quantity = pos 0;
  taker_filled_quantity = pos 0;
  child_submitted_monotonic = [];
  aggressive_child_client_order_ids = [];
  consecutive_retryable_order_rejects = pos 0;
  last_retryable_order_reject_monotonic = none;
  last_retryable_order_reject_price = none;
  last_retryable_order_reject_bid = none;
  last_retryable_order_reject_ask = none;
  last_retryable_order_reject_reason = none;
  rate_limited_until_monotonic = none;
}

abbrev pub move_to : ExecutionStatus → Update (Unit {0})
move_to target r = elim (transition_execution r.status target) [
  | ok s ↦ (ok tt, record r { status = s })
  | raised e ↦ (raised e, r)
]

-- The branch that has nothing to trade.
unfoldable pub complete_at_once : Decimal → Update (Unit {0})
complete_at_once now = do
  move_to ExecutionStatus.completed
  modify (λ r. record r {
    final_reason = some (
        if eq_ℤ r.raw_required_quantity (pos 0)
        then "NO_ACTION_TARGET_ALREADY_REACHED"
        else "UNTRADEABLE_TARGET_DUST");
    started_monotonic = now;
    completed_monotonic = some now;
  })
  modify (λ r. record r { summary = some (summary_of r) })

unfoldable pub start_running : Decimal → Update (Unit {0})
start_running now = do
  r ← gets (λ r. r)
  t ← lift (new_tracker r.required_quantity)
  modify (λ r. record r { exposure_tracker = some t; started_monotonic = now })
  move_to ExecutionStatus.running

-- The inner function `start`.
unfoldable pub start_execution : Decimal → Option SymbolRules → Update (Unit {0})
unfolding complete_at_once start_running
start_execution now rules = do
  move_to ExecutionStatus.validating
  r ← gets (λ r. r)
  if is_no_action r.side || eq_ℤ r.required_quantity (pos 0) then complete_at_once now else (do
    untradeable ← lift (target_cannot_meet r rules)
    if untradeable then complete_at_once now else start_running now)

-- The required quantity, floored to the step, and the rules if they were asked for.
unfoldable pub plan_quantity :
    (a : ExchangeAdapter) → Text → Decimal → Exec a.World (Decimal × Option SymbolRules)
plan_quantity a symbol raw = if eq_ℤ raw (pos 0) then pure (pos 0, none) else (do
  rules ← a.get_symbol_rules symbol
  required ← lift (floor_to_step raw rules.quantity_step)
  pure (required, some rules))

-- `create_execution` up to the record, whose id is what `ids.execution_id()` made.
unfoldable pub plan_execution :
    (a : ExchangeAdapter)
    → Text
    → ExecutionRequest
    → Exec a.World (ExecutionRecord × Option SymbolRules)
plan_execution a execution_id request = do
  position ← a.get_position request.symbol
  let trade = required_trade request.target_position position.position
  plan ← plan_quantity a request.symbol trade.1
  let dust = if eq_ℤ trade.1 (pos 0) then pos 0 else trade.1 -ℤ plan.0
  pure (new_record execution_id request trade.0 plan.0 position trade.1 dust, plan.1)

-- The rest of `create_execution`, which keeps the record in the table even where its start raises.
unfoldable pub begin_execution :
    (a : ExchangeAdapter)
    → Text
    → Dict ExecutionRecord
    → Result (ExecutionRecord × Option SymbolRules)
    → a.World
    → Result ExecutionRecord × Dict ExecutionRecord × a.World
begin_execution a execution_id records (raised e) world = (raised e, records, world)
begin_execution a execution_id records (ok planned) world =
    let started = start_execution (a.monotonic world) planned.1 planned.0 in
    let created = started.1 in
    (
      elim started.0 [ ok _ ↦ ok created | raised e ↦ raised e ],
      insert execution_id created records,
      world,
    )

-- `create_execution`
unfoldable pub create_execution :
    (a : ExchangeAdapter)
    → Text
    → ExecutionRequest
    → Dict ExecutionRecord
    → a.World
    → Result ExecutionRecord × Dict ExecutionRecord × a.World
create_execution a execution_id request records world =
    let (planned, world') = plan_execution a execution_id request world in
    begin_execution a execution_id records planned world'

-- The end of `cancel_execution` and of a reconciliation.
unfoldable pub complete_or_terminalize : (a : ExchangeAdapter) → Action a (Unit {0})
complete_or_terminalize a = do
  filled ← complete_if_filled a
  if filled then pure tt else at_now terminalize_manual_cancel

unfoldable pub request_cancelling : Update (Unit {0})
request_cancelling r =
    if status_is r.status ExecutionStatus.cancelling
    then (ok tt, r)
    else (do
      move_to ExecutionStatus.cancelling
      modify (λ r. record r { final_reason = some "CANCEL_REQUESTED" }))
        r

-- `cancel_execution`
unfoldable pub cancel_execution : (a : ExchangeAdapter) → Action a (Unit {0})
cancel_execution a = do
  ended ← inspect (λ r. is_terminal r.status)
  if ended then pure tt else (do
    on_record request_cancelling
    blocked ← at_now is_blocked
    if blocked then pure tt else (do
      reconcile a none none true
      cancelled ← cancel_active_children a
      over ← inspect (λ r. is_terminal r.status)
      if over then pure tt else (do reconcile a none none true; complete_or_terminalize a)))

-- What `reconcile_execution` and `apply_reconciliation_result` do last.
unfoldable pub settle_reconciled : (a : ExchangeAdapter) → Action a (Unit {0})
settle_reconciled a = do
  r ← inspect (λ r. r)
  if status_is r.status ExecutionStatus.cancelling
      then at_now terminalize_manual_cancel
      else if is_terminal r.status
      then pure tt
      else (do filled ← complete_if_filled a; pure tt)

-- `reconcile_execution`
unfoldable pub reconcile_execution :
    (a : ExchangeAdapter) → Option ℤ → Option ℤ → Action a (Unit {0})
reconcile_execution a start_time_ms end_time_ms = do
  blocked ← at_now is_blocked
  if blocked then pure tt else (do reconcile a start_time_ms end_time_ms true; settle_reconciled a)

-- `apply_reconciliation_result`
unfoldable pub apply_reconciliation_result :
    (a : ExchangeAdapter) → ReconciliationResult → Action a (Unit {0})
apply_reconciliation_result a result = do apply_result a result false; settle_reconciled a
