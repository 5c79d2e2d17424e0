-- ===== src/Engine/Run.antt =====
-- src/execution/engine.py: `run_once`, one round of the engine. Every early `return` of the source
-- returns a snapshot of the record, which here is the record of the session.
pub mod Settled
pub mod Ending
use interview_assignment.Base.{
  String, Bool, true, false, ◌&&◌, ◌||◌, not, Option, none, some, ◌==◌, if◌then◌else◌, is_some, pos,
  Decimal, ltb_ℤ, leb_ℤ, eq_ℤ, length, any, Exception, ok, raised, pure, ◌>>=◌, ◌>>◌,
}
use interview_assignment.Execution.Models.{Algorithm, ExecutionStatus, status_is, is_terminal}
use interview_assignment.Exchanges.{ExchangeAdapter}
use interview_assignment.Engine.Record.{
  ExecutionRecord, exposure, reserved, reason_is, target_filled, deadline_reached,
}
use interview_assignment.Engine.Terminal.{complete, terminalize_deadline, terminalize_manual_cancel}
use interview_assignment.Engine.Session.{Action, on_record, at_now, ask, edit, read_clock, inspect}
use interview_assignment.Engine.Cancel.{
  is_blocked, cancel_active_children, cancel_passive_children, cancel_timed_out_children,
  needs_aggressive_deadline_cancel,
}
use interview_assignment.Engine.Refresh.{refresh_order_states_exact}
use interview_assignment.Engine.Submit.{submit_child}
use interview_assignment.Engine.Demand.{
  maybe_reprice_chase, use_aggressive_deadline_price, is_aggressive_policy, Demand, set_reason,
  build_child_demand,
}

-- `if self._target_filled(record): self._complete_locked(...)`. Answers whether it was filled.
unfoldable pub complete_if_filled : (a : ExchangeAdapter) → Action a Bool
complete_if_filled a = do
  filled ← inspect target_filled
  if filled
      then (do at_now (λ now. complete now "TARGET_QUANTITY_FILLED"); pure true)
      else pure false

-- `if record.status.is_terminal: return`, the refresh, and the test above. Answers whether the
-- round is over.
unfoldable pub refresh_after_cancel : (a : ExchangeAdapter) → Action a Bool
refresh_after_cancel a = do
  ended ← inspect (λ r. is_terminal r.status)
  if ended then pure true else (do refresh_order_states_exact a; complete_if_filled a)

-- The way out at a deadline: cancel, refresh, and end with a reason if nothing is reserved.
unfoldable pub wind_down : (a : ExchangeAdapter) → String → Action a (Unit {0})
wind_down a reason = do
  cancelled ← cancel_active_children a
  over ← refresh_after_cancel a
  if over then pure tt else at_now (λ now. terminalize_deadline now reason)

-- `except NoFreshMarketData`
unfoldable pub market_data_stale : (a : ExchangeAdapter) → Action a (Unit {0})
market_data_stale a = do
  edit (set_reason "MARKET_DATA_STALE_RECONCILED")
  refresh_order_states_exact a
  now ← read_clock
  late ← inspect (deadline_reached now)
  if late then wind_down a "MARKET_DATA_STALE_RECONCILED" else pure tt

-- `try: ... except NoFreshMarketData: ...`; `none` if it was raised.
unfoldable pub unless_stale : {A : Type 0} (a : ExchangeAdapter) → Action a A → Action a (Option A)
unless_stale a m s =
    let (x, s') = m s in
    elim x [
      | ok v ↦ (ok (some v), s')
      | raised Exception.no_fresh_market_data ↦ (do market_data_stale a; pure none) s'
      | raised e ↦ (raised e, s')
    ]

abbrev pub has_reserved : ExecutionRecord → Bool
has_reserved r = ltb_ℤ (pos 0) (reserved r)

-- `if record.exposure.reserved_exposure > 0: return`, else the demand.
unfoldable pub demand_if_clear : (a : ExchangeAdapter) → Action a (Option Demand)
demand_if_clear a = do busy ← inspect has_reserved; if busy then pure none else build_child_demand a

abbrev pub is_chase : Algorithm → Bool
is_chase Algorithm.chase = true
is_chase Algorithm.twap = false

-- The body of the first `try`.
unfoldable pub next_demand : (a : ExchangeAdapter) → Action a (Option Demand)
next_demand a = do
  busy ← inspect has_reserved
  chasing ← inspect (λ r. is_chase r.request.algorithm)
  if busy && chasing
      then (do
        repriced ← maybe_reprice_chase a
        if repriced then refresh_order_states_exact a else pure tt
        demand_if_clear a)
      else demand_if_clear a

-- The second `try` and the last lines of the round.
unfoldable pub submit_demand : (a : ExchangeAdapter) → Demand → Action a (Unit {0})
submit_demand a d =
    if leb_ℤ d.quantity (pos 0) then (do filled ← complete_if_filled a; pure tt) else (do
      submitted ←
          unless_stale a (submit_child a d.quantity d.price d.post_only d.market_bid d.market_ask)
      if is_some submitted then (do filled ← complete_if_filled a; pure tt) else pure tt)

unfoldable pub run_demand : (a : ExchangeAdapter) → Action a (Unit {0})
run_demand a = do
  wanted ← unless_stale a (next_demand a)
  elim wanted [ none ↦ pure tt | some none ↦ pure tt | some (some d) ↦ submit_demand a d ]

-- `_should_terminalize_aggressive_deadline`
unfoldable pub aggressive_deadline_over : Decimal → ExecutionRecord → Bool
aggressive_deadline_over now r =
    deadline_reached now r
    && is_aggressive_policy r.request.deadline_policy
    && not (length r.aggressive_child_client_order_ids == 0)
    && eq_ℤ (reserved r) (pos 0)

-- `_cancel_remainder_deadline_reached`
unfoldable pub cancel_remainder_deadline : Decimal → ExecutionRecord → Bool
cancel_remainder_deadline now r =
    deadline_reached now r && not (is_aggressive_policy r.request.deadline_policy)

abbrev pub has_children : ExecutionRecord → Bool
has_children r = not (length r.child_orders == 0)

-- `_should_terminalize_cancel_remainder_deadline` and `..._without_demand`
unfoldable pub cancel_remainder_due : Decimal → ExecutionRecord → Bool
unfolding cancel_remainder_deadline
cancel_remainder_due now r = cancel_remainder_deadline now r && (has_reserved r || has_children r)

unfoldable pub cancel_remainder_without_demand : Decimal → ExecutionRecord → Bool
unfolding cancel_remainder_deadline
cancel_remainder_without_demand now r =
    cancel_remainder_deadline now r && eq_ℤ (reserved r) (pos 0) && not (has_children r)

-- `_deadline_without_demand_reason`
unfoldable pub without_demand_reason : ExecutionRecord → String
without_demand_reason r =
    if reason_is r.final_reason "WAITING_FOR_PRICE_RANGE"
    then "PRICE_OUTSIDE_RANGE"
    else if reason_is r.final_reason "ORDER_SHAPE_TEMPORARILY_UNTRADEABLE"
    then "ORDER_SHAPE_TEMPORARILY_UNTRADEABLE"
    else "DEADLINE_CANCEL_REMAINDER"

-- `_should_cancel_for_aggressive_deadline`
unfoldable pub aggressive_cancel_due : Decimal → ExecutionRecord → Bool
aggressive_cancel_due now r =
    use_aggressive_deadline_price now r && any (needs_aggressive_deadline_cancel r) r.child_orders

-- The cancel of timed out children. Answers whether the round is over.
unfoldable pub cancel_timed_out : (a : ExchangeAdapter) → Action a Bool
cancel_timed_out a = do
  cancelled_any ← cancel_timed_out_children a
  if not cancelled_any then pure false else (do
    over ← refresh_after_cancel a
    now ← read_clock
    due ← inspect (aggressive_deadline_over now)
    if over
        then pure true
        else if not due
        then pure false
        else (do on_record (terminalize_deadline now "DEADLINE_AGGRESSIVE_ATTEMPTED"); pure true))

-- The cancel of passive children at an aggressive deadline. Answers whether the round is over.
unfoldable pub cancel_for_aggressive : (a : ExchangeAdapter) → Action a Bool
cancel_for_aggressive a = do
  now ← read_clock
  due ← inspect (aggressive_cancel_due now)
  if not due then pure false else (do cancelled ← cancel_passive_children a; refresh_after_cancel a)

unfoldable pub run_open : (a : ExchangeAdapter) → Action a (Unit {0})
run_open a = do
  over ← cancel_for_aggressive a
  if over then pure tt else (do over' ← cancel_timed_out a; if over' then pure tt else run_demand a)

-- The round of a running execution whose target is not filled.
unfoldable pub run_live : (a : ExchangeAdapter) → Action a (Unit {0})
run_live a = do
  stream_healthy ← ask a.health_check_streams
  now ← read_clock
  r ← inspect (λ r. r)
  if deadline_reached now r && not stream_healthy
      then (do
        edit (set_reason "STREAM_HEALTH_DEGRADED_RECONCILED")
        wind_down a "STREAM_HEALTH_DEGRADED_RECONCILED")
      else if not stream_healthy
      then edit (set_reason "STREAM_HEALTH_DEGRADED_RECONCILED")
      else if aggressive_deadline_over now r
      then on_record (terminalize_deadline now "DEADLINE_AGGRESSIVE_ATTEMPTED")
      else if cancel_remainder_due now r
      then wind_down a "DEADLINE_CANCEL_REMAINDER"
      else if cancel_remainder_without_demand now r
      then on_record (terminalize_deadline now (without_demand_reason r))
      else run_open a

abbrev pub has_unknown : ExecutionRecord → Bool
has_unknown r = ltb_ℤ (pos 0) (exposure r).unknown_order_quantity

-- The round while an order's creation is uncertain.
unfoldable pub run_unknown : (a : ExchangeAdapter) → Action a (Unit {0})
run_unknown a = do
  refresh_order_states_exact a
  now ← read_clock
  stuck ← inspect (λ r. has_unknown r && deadline_reached now r)
  if stuck then edit (set_reason "CREATE_TIMEOUT_PENDING_RECONCILIATION") else pure tt

unfoldable pub run_unblocked : (a : ExchangeAdapter) → Action a (Unit {0})
run_unblocked a = do
  r ← inspect (λ r. r)
  if status_is r.status ExecutionStatus.cancelling
      then (do refresh_order_states_exact a; at_now terminalize_manual_cancel)
      else if has_unknown r
      then run_unknown a
      else (do
        refresh_order_states_exact a
        filled ← complete_if_filled a
        if filled then pure tt else run_live a)

-- `run_once`
unfoldable pub run_once : (a : ExchangeAdapter) → Action a (Unit {0})
run_once a = do
  ended ← inspect (λ r. is_terminal r.status)
  if ended
      then pure tt
      else (do blocked ← at_now is_blocked; if blocked then pure tt else run_unblocked a)
