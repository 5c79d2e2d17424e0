-- ===== src/Engine/Submit.antt =====
-- src/execution/engine.py: `_submit_child_locked`, in three parts: what is written before the order
-- goes out, what an exception of the adapter leads to, and what a returned order leads to.
pub mod Sent
pub mod Outcomes
pub mod Uncertain
use interview_assignment.Base.{
  ℕ, ◌+◌, String, Bool, true, false, ◌||◌, not, none, some, [], ◌∷◌, ◌++◌, if◌then◌else◌, pos,
  Decimal, length, remove_at, Text, Exception, ok, raised, pure, raise, lift, gets, modify, ◌>>=◌,
  ◌>>◌,
}
use interview_assignment.Base.Dict.{insert, remove, add, discard}
use interview_assignment.Execution.Models.{TimeInForce, ChildOrderStatus, child_is, child_is_live}
use interview_assignment.Execution.Orders.{OrderRequest, ChildOrder, remaining_quantity}
use interview_assignment.Exchanges.{ExchangeAdapter}
use interview_assignment.Engine.Exposure.{
  check_can_submit, reserve_live_open, reserve_pending_submit, release_pending_submit,
  reserve_unknown_create,
}
use interview_assignment.Engine.Record.{
  ExecutionRecord, Update, Metric, increment_metric, record_max_reserved_exposure,
  assert_exposure_invariant, on_tracker, read_child,
}
use interview_assignment.Engine.Terminal.{fail, terminalize_reject_limit}
use interview_assignment.Engine.Gates.{
  record_rate_limit_backoff, record_retryable_order_reject, reset_retryable_order_reject_gate,
}
use interview_assignment.Execution.Ids
use Prim.Native.String.{◌++◌ as str_append}
use interview_assignment.Engine.Session.{
  Action, on_record, attempt, read_clock, inspect, set_status_at, set_reason_at, copy_at,
  fill_from_order,
}

abbrev pub new_child : ExecutionRecord → Text → Decimal → Decimal → ChildOrder
new_child r client_order_id quantity price = record {
  child_order_id = Ids.child_order_id r.last_child_sequence;
  client_order_id = client_order_id;
  symbol = r.request.symbol;
  side = r.side;
  submitted_quantity = quantity;
  price = price;
  status = ChildOrderStatus.pending_submit;
  confirmed_filled_quantity = pos 0;
  exchange_order_id = none;
  raw_status = none;
  terminal_reason = none;
}

-- Appends a child that is about to be submitted.
unfoldable pub append_child : Decimal → Bool → ChildOrder → ExecutionRecord → ExecutionRecord
append_child submitted_at post_only child r = record r {
  child_orders = r.child_orders ++ child ∷ [];
  child_submitted_monotonic = insert child.client_order_id submitted_at r.child_submitted_monotonic;
  aggressive_child_client_order_ids =
      if post_only
      then r.aggressive_child_client_order_ids
      else add child.client_order_id r.aggressive_child_client_order_ids;
}

-- Up to the call of the adapter. Returns the child's place and the child.
unfoldable pub prepare_submit : Decimal → Decimal → Decimal → Bool → Update (ℕ × ChildOrder)
prepare_submit now quantity price post_only = do
  on_tracker (check_can_submit quantity)
  modify (λ r. record r { last_child_sequence = r.last_child_sequence + 1 })
  r ← gets (λ r. r)
  id ← lift (Ids.make_client_order_id r.execution_id r.last_child_sequence)
  modify (append_child now post_only (new_child r id quantity price))
  on_tracker (reserve_pending_submit quantity)
  modify (increment_metric Metric.orders_submitted)
  modify record_max_reserved_exposure
  pure (length r.child_orders, new_child r id quantity price)

abbrev pub order_request : ExecutionRecord → ChildOrder → Bool → OrderRequest
order_request r child post_only = record {
  execution_id = r.execution_id;
  child_order_id = child.child_order_id;
  client_order_id = child.client_order_id;
  symbol = r.request.symbol;
  side = r.side;
  quantity = child.submitted_quantity;
  price = child.price;
  post_only = post_only;
  reduce_only = false;
  time_in_force = some (if post_only then TimeInForce.gtx else TimeInForce.ioc);
}

-- `record.child_orders.remove(child)` and the two lines below it: the order is forgotten. No other
-- child has its client order id, so the child that `remove` finds is the one at the place.
unfoldable pub forget_child : ℕ → Text → ExecutionRecord → ExecutionRecord
forget_child i id r = record r {
  child_orders = remove_at r.child_orders i;
  child_submitted_monotonic = remove id r.child_submitted_monotonic;
  aggressive_child_client_order_ids = discard id r.aggressive_child_client_order_ids;
}

-- The order that goes out: its place, the child, and the market at the time of the decision.
pub record Submission : Type 0 where
  pub place : ℕ
  pub child : ChildOrder
  pub post_only : Bool
  pub market_bid : Decimal
  pub market_ask : Decimal

-- `except VenueBanHardStop`
unfoldable pub submit_banned : Decimal → Submission → String → Update (Unit {0})
submit_banned now s reason = do
  on_tracker (release_pending_submit s.child.submitted_quantity)
  set_status_at s.place ChildOrderStatus.rejected
  set_reason_at s.place (some reason)
  fail now reason
  assert_exposure_invariant

-- `except OrderCreateTimeout`
unfoldable pub submit_timed_out : Submission → Update (Unit {0})
submit_timed_out s = do
  on_tracker (release_pending_submit s.child.submitted_quantity)
  set_status_at s.place ChildOrderStatus.unknown
  set_reason_at s.place (some "CREATE_TIMEOUT_PENDING_RECONCILIATION")
  on_tracker (reserve_unknown_create s.child.submitted_quantity)
  modify record_max_reserved_exposure
  modify (λ r. record r { final_reason = some "CREATE_TIMEOUT_PENDING_RECONCILIATION" })
  assert_exposure_invariant

-- f"{TERMINAL_ORDER_REJECTED}: {exc}"
abbrev pub terminal_text : String → String
terminal_text reason = str_append "TERMINAL_ORDER_REJECTED: " reason

-- `except OrderRejected`; `terminal` tells a TerminalOrderRejected.
unfoldable pub submit_rejected : Decimal → Submission → Bool → String → Update (Unit {0})
submit_rejected now s terminal reason = do
  on_tracker (release_pending_submit s.child.submitted_quantity)
  set_status_at s.place ChildOrderStatus.rejected
  set_reason_at s.place (some reason)
  modify (increment_metric Metric.rejections)
  if terminal || not s.post_only
      then fail now (terminal_text reason)
      else modify (record_retryable_order_reject now s.child.price s.market_bid s.market_ask reason)
        >> terminalize_reject_limit now
  assert_exposure_invariant

-- `is_exchange_rate_limited(exc)`
unfoldable pub submit_rate_limited : Decimal → Submission → String → Update (Unit {0})
submit_rate_limited now s reason = do
  on_tracker (release_pending_submit s.child.submitted_quantity)
  modify (forget_child s.place s.child.client_order_id)
  modify (record_rate_limit_backoff now)
  assert_exposure_invariant

-- Any other exception goes on to the caller.
unfoldable pub submit_broken : Submission → Exception → Update (Unit {0})
submit_broken s e = do
  on_tracker (release_pending_submit s.child.submitted_quantity)
  modify (forget_child s.place s.child.client_order_id)
  raise e

unfoldable pub submit_failed : Decimal → Submission → Exception → Update (Unit {0})
submit_failed now s (Exception.venue_ban_hard_stop m) = submit_banned now s m
submit_failed now s (Exception.order_create_timeout m) = submit_timed_out s
submit_failed now s (Exception.terminal_order_rejected m) = submit_rejected now s true m
submit_failed now s (Exception.order_rejected m) = submit_rejected now s false m
submit_failed now s (Exception.exchange_rate_limited m) = submit_rate_limited now s m
submit_failed now s e = submit_broken s e

-- The reservation of a submitted child, by the status that it now has.
unfoldable pub reserve_submitted : ChildOrder → Update (Unit {0})
reserve_submitted c =
    if child_is_live c.status
    then on_tracker (reserve_live_open (remaining_quantity c))
    else if child_is c.status ChildOrderStatus.unknown
    then on_tracker (reserve_unknown_create (remaining_quantity c))
    else pure tt

unfoldable pub submit_returned : Submission → ChildOrder → Update (Unit {0})
submit_returned s submitted = do
  on_tracker (release_pending_submit s.child.submitted_quantity)
  copy_at s.place submitted false
  set_status_at s.place submitted.status
  fill_from_order s.place submitted.confirmed_filled_quantity
  c ← read_child s.place
  reserve_submitted c
  if child_is c.status ChildOrderStatus.unknown || child_is c.status ChildOrderStatus.rejected
      then pure tt
      else modify reset_retryable_order_reject_gate
  modify record_max_reserved_exposure
  assert_exposure_invariant

-- `_submit_child_locked`
unfoldable pub submit_child :
    (a : ExchangeAdapter) → Decimal → Decimal → Bool → Decimal → Decimal → Action a (Unit {0})
submit_child a quantity price post_only market_bid market_ask = do
  now ← read_clock
  prepared ← on_record (prepare_submit now quantity price post_only)
  request ← inspect (λ r. order_request r prepared.1 post_only)
  result ← attempt (a.submit_limit_order request)
  later ← read_clock
  let s = submission prepared.0 prepared.1
  elim result [
    | ok submitted ↦ on_record (submit_returned s submitted)
    | raised e ↦ on_record (submit_failed later s e)
  ]
  where
    submission : ℕ → ChildOrder → Submission
    submission i child = record {
      place = i;
      child = child;
      post_only = post_only;
      market_bid = market_bid;
      market_ask = market_ask;
    }
