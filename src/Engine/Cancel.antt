-- ===== src/Engine/Cancel.antt =====
-- src/execution/engine.py: `_cancel_child_locked` and the loops that call it.
use interview_assignment.Base.{
  ℕ, ◌+◌, Bool, true, false, ◌&&◌, ◌||◌, not, some, List, [], ◌∷◌, if◌then◌else◌, or_default, pos,
  Decimal, ◌-ℤ◌, leb_ℤ, Exception, exception_text, ok, raised, pure, modify, ◌>>=◌, ◌>>◌,
}
use interview_assignment.Base.Dict.{lookup, contains}
use interview_assignment.Execution.Models.{ChildOrderStatus, child_is, is_terminal, child_is_live}
use interview_assignment.Execution.Orders.{ChildOrder, remaining_quantity}
use interview_assignment.Exchanges.{ExchangeAdapter}
use interview_assignment.Engine.Exposure.{
  reserve_live_open, mark_pending_cancel, release_pending_cancel,
}
use interview_assignment.Engine.Record.{
  ExecutionRecord, Update, Metric, seconds, increment_metric, record_max_reserved_exposure,
  assert_exposure_invariant, require_exposure_tracker, on_tracker, read_child,
}
use interview_assignment.Engine.Terminal.{fail}
use interview_assignment.Engine.Gates.{record_rate_limit_backoff, rate_limit_backoff_blocks}
use interview_assignment.Engine.Session.{
  Action, on_record, at_now, attempt, read_clock, inspect, set_status_at, set_reason_at, copy_at,
  fill_from_order,
}

-- Up to the call of the adapter; `remaining` is the quantity left before the cancel.
unfoldable pub prepare_cancel : ℕ → Decimal → Update (Unit {0})
prepare_cancel i remaining = do
  on_tracker (mark_pending_cancel remaining)
  modify (increment_metric Metric.cancels_requested)
  modify record_max_reserved_exposure
  set_status_at i ChildOrderStatus.pending_cancel

-- The two calls by which an exception takes the cancel back.
unfoldable pub restore_live : Decimal → Update (Unit {0})
restore_live remaining = do
  on_tracker (release_pending_cancel remaining)
  on_tracker (reserve_live_open remaining)

-- The exceptions of `cancel_order`; `before` is the child's status before the cancel. The result is
-- what `_cancel_child_locked` returns.
unfoldable pub cancel_failed : Decimal → ℕ → Decimal → ChildOrderStatus → Exception → Update Bool
cancel_failed now i remaining before (Exception.venue_ban_hard_stop m) = do
  restore_live remaining
  set_status_at i before
  set_reason_at i (some m)
  modify record_max_reserved_exposure
  fail now m
  assert_exposure_invariant
  pure true
cancel_failed now i remaining before (Exception.order_cancel_timeout m) = do
  set_reason_at i (some m)
  assert_exposure_invariant
  pure true
cancel_failed now i remaining before (Exception.exchange_rate_limited m) = do
  restore_live remaining
  modify record_max_reserved_exposure
  set_reason_at i (some m)
  set_status_at i before
  modify (record_rate_limit_backoff now)
  assert_exposure_invariant
  pure true
cancel_failed now i remaining before e = do
  restore_live remaining
  modify record_max_reserved_exposure
  set_reason_at i (some (exception_text e))
  set_status_at i before
  assert_exposure_invariant
  pure false

-- The reservation after a cancel that returned, by the child's new status.
unfoldable pub settle_cancelled : Decimal → ChildOrder → Update (Unit {0})
settle_cancelled remaining c =
    if child_is c.status ChildOrderStatus.cancelled || child_is c.status ChildOrderStatus.filled
    then on_tracker (release_pending_cancel remaining)
    else if child_is_live c.status
    then (do
      on_tracker (release_pending_cancel remaining)
      on_tracker (reserve_live_open (remaining_quantity c)))
    else pure tt

unfoldable pub cancel_returned : ℕ → Decimal → ChildOrder → Update Bool
cancel_returned i remaining cancelled = do
  copy_at i cancelled false
  set_status_at i cancelled.status
  fill_from_order i cancelled.confirmed_filled_quantity
  c ← read_child i
  settle_cancelled remaining c
  modify record_max_reserved_exposure
  assert_exposure_invariant
  pure true

unfoldable pub is_blocked : Decimal → Update Bool
is_blocked now r = let (blocked, r') = rate_limit_backoff_blocks now r in (ok blocked, r')

-- The part of `_cancel_child_locked` below its guards.
unfoldable pub request_cancel : (a : ExchangeAdapter) → ℕ → ChildOrder → Action a Bool
request_cancel a i child = do
  on_record (prepare_cancel i (remaining_quantity child))
  symbol ← inspect (λ r. r.request.symbol)
  result ← attempt (a.cancel_order symbol child.client_order_id)
  later ← read_clock
  elim result [
    | ok cancelled ↦ on_record (cancel_returned i (remaining_quantity child) cancelled)
    | raised e ↦ on_record (cancel_failed later i (remaining_quantity child) child.status e)
  ]

-- `_cancel_child_locked` for the child at place `i`.
unfoldable pub cancel_child : (a : ExchangeAdapter) → ℕ → Action a Bool
cancel_child a i = do
  t ← on_record require_exposure_tracker
  child ← on_record (read_child i)
  if not (child_is_live child.status) || leb_ℤ (remaining_quantity child) (pos 0)
      then pure false
      else (do
        blocked ← at_now is_blocked
        if blocked then pure false else request_cancel a i child)

-- `list(record.child_orders)`, as places.
abbrev pub places_from : ℕ → List ChildOrder → List ℕ
places_from n [] = []
places_from n (c ∷ cs) = n ∷ places_from (n + 1) cs

abbrev pub places : ExecutionRecord → List ℕ
places r = places_from 0 r.child_orders

-- Which children a loop passes to `_cancel_child_locked`, by the clock.
abbrev pub Selection : Type 0
Selection = Decimal → ExecutionRecord → ChildOrder → Bool

-- The loop of the three methods: it stops when the execution has ended.
unfoldable pub cancel_each : (a : ExchangeAdapter) → Selection → List ℕ → Bool → Action a Bool
cancel_each a select [] cancelled_any = pure cancelled_any
cancel_each a select (i ∷ rest) cancelled_any = do
  child ← on_record (read_child i)
  now ← read_clock
  chosen ← inspect (λ r. select now r child)
  if not chosen then cancel_each a select rest cancelled_any else (do
    done ← cancel_child a i
    ended ← inspect (λ r. is_terminal r.status)
    if ended
        then pure (done || cancelled_any)
        else cancel_each a select rest (done || cancelled_any))

unfoldable pub cancel_selected : (a : ExchangeAdapter) → Selection → Action a Bool
unfolding cancel_each
cancel_selected a select = do all ← inspect places; cancel_each a select all false

-- `_cancel_active_children_locked`
unfoldable pub cancel_active_children : (a : ExchangeAdapter) → Action a Bool
cancel_active_children a = cancel_selected a (λ now r c. true)

-- `_needs_aggressive_deadline_cancel`
unfoldable pub needs_aggressive_deadline_cancel : ExecutionRecord → ChildOrder → Bool
needs_aggressive_deadline_cancel r c =
    child_is_live c.status && not (contains c.client_order_id r.aggressive_child_client_order_ids)

-- `_cancel_passive_children_for_aggressive_deadline_locked`
unfoldable pub cancel_passive_children : (a : ExchangeAdapter) → Action a Bool
cancel_passive_children a = cancel_selected a (λ now r c. needs_aggressive_deadline_cancel r c)

-- `_child_order_timed_out`
unfoldable pub child_order_timed_out : Decimal → ExecutionRecord → ChildOrder → Bool
child_order_timed_out now r c =
    child_is_live c.status
    && leb_ℤ (seconds r.request.parameters.child_order_timeout_seconds) (
        now
        -ℤ or_default (lookup c.client_order_id r.child_submitted_monotonic) r.started_monotonic)

-- `_cancel_timed_out_children_locked`
unfoldable pub cancel_timed_out_children : (a : ExchangeAdapter) → Action a Bool
cancel_timed_out_children a = cancel_selected a child_order_timed_out
