-- ===== src/Engine/Lifecycle/Idle.antt =====
-- When the public methods of src/execution/engine.py leave the exchange alone.
use interview_assignment.Base.{◌≡◌, refl, true, false, Option, some, arith, ℤ, Decimal, ◌<ℤ◌, ok}
use interview_assignment.Execution.Models.{is_terminal}
use interview_assignment.Exchanges.{ExchangeAdapter}
use interview_assignment.Engine.Record.{ExecutionRecord, increment_metric}
use interview_assignment.Engine.Gates.{rate_limit_backoff_blocks}
use interview_assignment.Engine.Session.{Session}
use interview_assignment.Engine.Cancel.{is_blocked}
use interview_assignment.Engine.Run.{run_once}
use interview_assignment.Engine.Lifecycle.{reconcile_execution}

-- The parts of the record that say what was ordered and what was done.
pub record IsUntouched (r r' : ExecutionRecord) : Type 0 where
  pub status : r'.status ≡ r.status
  pub children : r'.child_orders ≡ r.child_orders
  pub tracker : r'.exposure_tracker ≡ r.exposure_tracker
  pub summary : r'.summary ≡ r.summary

blocked_lem :
    (now until : Decimal) (r : ExecutionRecord)
    → r.rate_limited_until_monotonic ≡ some until
    → now <ℤ until
    → ((rate_limit_backoff_blocks now r).0 ≡ true)
      × IsUntouched r (rate_limit_backoff_blocks now r).1
unfolding rate_limit_backoff_blocks increment_metric
blocked_lem now until r e h = (
  ground arith,
  record {
    status = ground arith;
    children = ground arith;
    tracker = ground arith;
    summary = ground arith;
  },
)

-- For an execution that has not ended, before the end of a rate limit's backoff `run_once` and
-- `reconcile_execution` do not call the adapter and return with the status, the children, the
-- tracker and the summary as they were.
pub blocked_execution_waits :
    (a : ExchangeAdapter) (s : Session a) (until : Decimal) (from to : Option ℤ)
    → is_terminal s.execution.status ≡ false
    → s.execution.rate_limited_until_monotonic ≡ some until
    → a.monotonic s.world <ℤ until
    → let (x, s') = run_once a s in
      let (y, s'') = reconcile_execution a from to s in
      (x ≡ ok tt)
      × (s'.world ≡ s.world)
      × IsUntouched s.execution s'.execution
      × (y ≡ ok tt)
      × (s''.world ≡ s.world)
      × IsUntouched s.execution s''.execution
unfolding run_once reconcile_execution is_blocked
blocked_execution_waits a s until from to running e h =
    let (b, u) = blocked_lem (a.monotonic s.world) until s.execution e h in
    rw (running, b) (refl, refl, u, refl, refl, u)
