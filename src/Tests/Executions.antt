-- ===== src/Tests/Executions.antt =====
-- The theorems on whole executions: starting, submitting, ending, waiting
-- (src/execution/engine.py).
use interview_assignment.Base.{
  ◌++◌, ◌≡◌, refl, ◌≢◌, true, false, ◌&&◌, ◌||◌, none, some, [], ◌∷◌, arith, if◌then◌else◌, pos,
  raised, Exception, ◌+ℤ◌, ◌-ℤ◌, ◌*ℤ◌, ◌≤ℤ◌, ◌<ℤ◌, ltb_ℤ, eq_ℤ, Text, ok, returns,
}
use interview_assignment.Execution.Models.{Side, ExecutionStatus, is_no_action, is_buy}
use interview_assignment.Execution.Ids.{
  make_client_order_id, make_client_order_prefix, decimal_digits, all_id_chars,
}
use interview_assignment.Engine.Exposure.{available_to_submit}
use interview_assignment.Execution.Orders.{reserved_exposure}
use interview_assignment.Engine.Record.{confirmed, ExecutionRecord, reserved, target_filled}
use interview_assignment.Engine.Terminal.{terminalize_manual_cancel, terminalize_deadline}
use interview_assignment.Engine.Terminal.Outcomes.{
  Ending, run_ending, EndsLegally, cancel_outcome, deadline_outcome, run_ending-EndsLegally,
  cancel_and_deadline_outcomes,
}
use interview_assignment.Engine.Gates.{
  backoff_seconds, record_rate_limit_backoff, rate_limit_backoff_blocks,
  record_retryable_order_reject, retryable_gate_blocks, reset_retryable_order_reject_gate,
}
use interview_assignment.Engine.Gates.Backoff.{rate_limit_window, reject_gate_exact}
use interview_assignment.Engine.Demand.{target_cannot_meet}
use interview_assignment.Engine.Submit.{submit_child}
use interview_assignment.Engine.Submit.Outcomes.{
  IsForgotten, oversized_order_stays, rate_limited_order-IsForgotten, broken_order-IsForgotten,
}
use interview_assignment.Risk.DecimalMath.{floor_to_step, round_price, round_to, to_integral}
use interview_assignment.Engine.Submit.Uncertain.{uncertain_child, timed_out_order_stays_reserved}
use interview_assignment.Engine.Submit.Sent.{sent_child}
use interview_assignment.Engine.Demand.{
  build_child_demand, demanded_quantity, rounded_price, use_aggressive_deadline_price, note_arrival,
  Demand, admit_order, validate_demand,
}
use interview_assignment.Risk.Validation.{
  validate_child_order_safety, validate_price_bounds, validate_order_shape, divides,
  validate_quantity,
}
use interview_assignment.Engine.Demand.Offers.{IsSafeNow, build_child_demand-IsSafeNow}
use interview_assignment.Algorithms.Chase.{chase_desired_price}
use interview_assignment.Exchanges.{ExchangeAdapter}
use interview_assignment.Engine.Run.{run_once}
use interview_assignment.Engine.Lifecycle.{new_record, reconcile_execution}
use interview_assignment.Engine.Lifecycle.Starts.{
  IsRunning, IsDone, fresh, validating, started, start_outcome,
}
use interview_assignment.Engine.Lifecycle.Idle.{IsUntouched, blocked_execution_waits}
use interview_assignment.Tests.Samples.{
  silent, request, rules, flat, running, tracker, refusing, failing, session,
}
use interview_assignment.Engine.Session.{Session}
use interview_assignment.Engine.Record.{require_exposure_tracker}
use interview_assignment.Tests.Tracker.{tracker-IsWithin}

ten_is_met :
    target_cannot_meet
      (validating (pos 0) (some rules) (97 ∷ []) request Side.buy (pos 10) (pos 10) (pos 0) flat)
      (some rules)
    ≡ ok false
unfolding target_cannot_meet new_record round_price round_to to_integral ◌*ℤ◌
ten_is_met = refl

start_outcome_example :
    let x =
      started (pos 5) (some rules) (97 ∷ []) request Side.buy (pos 10) (pos 10) (pos 0) flat in
    let idle = is_no_action Side.buy || eq_ℤ (pos 10) (pos 0) || false in
    (x.0 ≡ ok tt)
    × (idle ≡ true → IsDone (pos 5) x.1)
    × (idle ≡ false → IsRunning (pos 10) (fresh (pos 10)) x.1)
start_outcome_example =
    start_outcome (pos 5) (some rules) (97 ∷ []) request Side.buy (pos 10) (pos 10) (pos 0) flat
      false (omega arith) ten_is_met

six_too_many : available_to_submit tracker +ℤ pos 0 <ℤ pos 6
unfolding available_to_submit reserved_exposure ◌+ℤ◌ ◌-ℤ◌
six_too_many = omega arith

oversized_order_stays_example :
    let (x, s') =
      submit_child refusing (pos 6) (pos 95) true (pos 95) (pos 100) (session running) in
    (returns x ≡ false) × (s'.world ≡ pos 50) × (s'.execution.child_orders ≡ running.child_orders)
oversized_order_stays_example =
    oversized_order_stays refusing (pos 6) (pos 95) (pos 95) (pos 100) true tracker
      (session running) refl six_too_many

-- "ce_a_2"
abbrev second_id : Text
second_id = 99 ∷ 101 ∷ 95 ∷ 97 ∷ 95 ∷ 50 ∷ []

second_id_made : make_client_order_id (97 ∷ []) 2 ≡ ok second_id
unfolding make_client_order_id make_client_order_prefix decimal_digits all_id_chars
second_id_made = refl

three_fit : pos 3 ≤ℤ available_to_submit tracker
unfolding available_to_submit reserved_exposure ◌+ℤ◌ ◌-ℤ◌
three_fit = omega arith

rate_limited_order-IsForgotten_example :
    let (x, s') =
      submit_child refusing (pos 3) (pos 95) true (pos 95) (pos 100) (session running) in
    (x ≡ ok tt) × (s'.world ≡ pos 50) × IsForgotten tracker running s'.execution
rate_limited_order-IsForgotten_example =
    rate_limited_order-IsForgotten refusing (pos 3) (pos 95) (pos 95) (pos 100) true second_id
      tracker (session running) (pos 50) refl tracker-IsWithin refl (omega arith) three_fit
      second_id_made "busy" refl

timed_out_order_stays_reserved_example :
    let (x, s') =
      submit_child silent
        (pos 3)
        (pos 95)
        true
        (pos 95)
        (pos 100)
        (record { world = pos 50; execution = running }) in
    (x ≡ ok tt)
    × (s'.world ≡ pos 50)
    × (s'.execution.child_orders
        ≡ running.child_orders
          ++ uncertain_child (sent_child running second_id (pos 3) (pos 95)) ∷ [])
    × (reserved s'.execution ≡ reserved_exposure tracker.exposure +ℤ pos 3)
    × (confirmed s'.execution ≡ pos 4)
    × (s'.execution.final_reason ≡ some "CREATE_TIMEOUT_PENDING_RECONCILIATION")
timed_out_order_stays_reserved_example =
    timed_out_order_stays_reserved silent (pos 3) (pos 95) (pos 95) (pos 100) true second_id tracker
      (record { world = pos 50; execution = running }) (pos 50) refl tracker-IsWithin refl
      (omega arith) three_fit second_id_made "late" refl

broken_order-IsForgotten_example :
    let (x, s') =
      submit_child failing
        (pos 3)
        (pos 95)
        true
        (pos 95)
        (pos 100)
        (record { world = pos 50; execution = running }) in
    (x ≡ raised (Exception.other_exception "down"))
    × (s'.world ≡ pos 50)
    × IsForgotten tracker running s'.execution
broken_order-IsForgotten_example =
    broken_order-IsForgotten failing (pos 3) (pos 95) (pos 95) (pos 100) true second_id tracker
      (record { world = pos 50; execution = running }) (pos 50) refl tracker-IsWithin refl
      (omega arith) three_fit second_id_made "down" refl

run_ending-EndsLegally_example :
    EndsLegally
      (Ending.deadline "DEADLINE_CANCEL_REMAINDER")
      (pos 70)
      running
      (run_ending (Ending.deadline "DEADLINE_CANCEL_REMAINDER") (pos 70) running).0
      (run_ending (Ending.deadline "DEADLINE_CANCEL_REMAINDER") (pos 70) running).1
run_ending-EndsLegally_example =
    run_ending-EndsLegally (Ending.deadline "DEADLINE_CANCEL_REMAINDER") (pos 70) running

cancel_and_deadline_outcomes_example :
    let cancelled = (terminalize_manual_cancel (pos 70) running).1 in
    let late = (terminalize_deadline (pos 70) "DEADLINE_CANCEL_REMAINDER" running).1 in
    (running.status ≡ ExecutionStatus.cancelling → cancelled.status ≡ cancel_outcome running)
    × (running.status ≢ ExecutionStatus.cancelling → cancelled ≡ running)
    × (running.status ≡ ExecutionStatus.running → late.status ≡ deadline_outcome running)
    × (running.status ≢ ExecutionStatus.running → late ≡ running)
    × (pos 0 <ℤ reserved running
        → target_filled running ≡ false
        → (cancelled ≡ running) × (late ≡ running))
cancel_and_deadline_outcomes_example =
    cancel_and_deadline_outcomes (pos 70) "DEADLINE_CANCEL_REMAINDER" running

rate_limit_window_example :
    let limited = record_rate_limit_backoff (pos 50) running in
    let (blocked, r') = rate_limit_backoff_blocks (pos 51) limited in
    (blocked ≡ ltb_ℤ (pos 51) (pos 50 +ℤ backoff_seconds))
    × (blocked ≡ true
        → (r'.rate_limited_until_monotonic ≡ limited.rate_limited_until_monotonic)
          × (r'.final_reason ≡ some "RATE_LIMIT_BACKOFF"))
    × (blocked ≡ false → (r'.rate_limited_until_monotonic ≡ none) × (r'.final_reason ≡ none))
    × (r'.status ≡ ExecutionStatus.running)
rate_limit_window_example = rate_limit_window (pos 50) (pos 51) running

reject_gate_exact_example :
    let rejected =
      record_retryable_order_reject (pos 50) (pos 95) (pos 95) (pos 100) "crosses" running in
    ((retryable_gate_blocks (pos 51) (pos 95) (pos 95) (pos 100) rejected).0 ≡ (
      ltb_ℤ (pos 51 -ℤ pos 50) backoff_seconds
      || (eq_ℤ (pos 95) (pos 95)
          && (if is_buy Side.buy then eq_ℤ (pos 100) (pos 100) else eq_ℤ (pos 95) (pos 95)))))
    × ((retryable_gate_blocks
          (pos 51)
          (pos 95)
          (pos 95)
          (pos 100)
          (reset_retryable_order_reject_gate rejected)).0
        ≡ false)
reject_gate_exact_example =
    reject_gate_exact (pos 50) (pos 51) (pos 95) (pos 95) (pos 100) (pos 95) (pos 95) (pos 100)
      "crosses" running (omega arith)

abbrev limited : ExecutionRecord
limited = record running { rate_limited_until_monotonic = some (pos 60) }

blocked_execution_waits_example :
    let (x, s') = run_once refusing (session limited) in
    let (y, s'') = reconcile_execution refusing none none (session limited) in
    (x ≡ ok tt)
    × (s'.world ≡ pos 50)
    × IsUntouched limited s'.execution
    × (y ≡ ok tt)
    × (s''.world ≡ pos 50)
    × IsUntouched limited s''.execution
blocked_execution_waits_example =
    blocked_execution_waits refusing (session limited) (pos 60) none none refl refl (omega arith)

abbrev two_more : Demand
two_more = record {
  quantity = pos 2;
  price = pos 95;
  post_only = true;
  market_bid = pos 95;
  market_ask = pos 100;
}

-- The exchange quotes 95 and 100.
abbrev quoting : ExchangeAdapter
quoting = record refusing {
  get_symbol_rules = λ s t. (ok rules, t);
  get_best_bid_ask = λ s t. (
    ok (record {
      symbol = s;
      bid = pos 95;
      ask = pos 100;
      last_market_event_time_exchange = none;
      last_market_event_time_local_monotonic = t;
    }),
    t,
  );
}

abbrev quoted_session : Session quoting
quoted_session = record { world = pos 50; execution = running }

two_demanded : (build_child_demand quoting quoted_session).0 ≡ ok (some two_more)
unfolding build_child_demand require_exposure_tracker demanded_quantity available_to_submit
    reserved_exposure floor_to_step rounded_price chase_desired_price round_price round_to
    to_integral use_aggressive_deadline_price note_arrival validate_demand
    validate_child_order_safety validate_price_bounds validate_order_shape divides validate_quantity
    ◌*ℤ◌ ◌+ℤ◌ ◌-ℤ◌ admit_order retryable_gate_blocks
two_demanded = refl

build_child_demand-IsSafeNow_example :
    IsSafeNow quoting (pos 50) running.side running.request two_more
build_child_demand-IsSafeNow_example =
    build_child_demand-IsSafeNow quoting two_more quoted_session two_demanded
