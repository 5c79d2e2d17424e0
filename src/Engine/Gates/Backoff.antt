-- ===== src/Engine/Gates/Backoff.antt =====
-- How long the gates of src/execution/engine.py stay closed.
use interview_assignment.Base.{
  String, ◌≡◌, true, false, ◌&&◌, ◌||◌, none, some, arith, if◌then◌else◌, pos, Decimal, ◌+ℤ◌, ◌-ℤ◌,
  ◌≤ℤ◌, ltb_ℤ, eq_ℤ, +ℤ_parts,
}
use interview_assignment.Execution.Models.{is_buy}
use interview_assignment.Engine.Record.{ExecutionRecord}
use interview_assignment.Engine.Gates.{
  backoff_seconds, record_rate_limit_backoff, rate_limit_backoff_blocks,
  record_retryable_order_reject, reset_retryable_order_reject_gate, retryable_gate_blocks,
}

-- After a rate limit at `now` the execution is blocked at a later reading of the clock exactly
-- while less than the backoff has passed. A blocked call keeps the limit; the first one that is let
-- through clears it and the reason. The status changes in neither case.
pub rate_limit_window :
    (now later : Decimal) (r : ExecutionRecord)
    → let limited = record_rate_limit_backoff now r in
      let (blocked, r') = rate_limit_backoff_blocks later limited in
      (blocked ≡ ltb_ℤ later (now +ℤ backoff_seconds))
      × (blocked ≡ true
          → (r'.rate_limited_until_monotonic ≡ limited.rate_limited_until_monotonic)
            × (r'.final_reason ≡ some "RATE_LIMIT_BACKOFF"))
      × (blocked ≡ false → (r'.rate_limited_until_monotonic ≡ none) × (r'.final_reason ≡ none))
      × (r'.status ≡ r.status)
unfolding record_rate_limit_backoff rate_limit_backoff_blocks
rate_limit_window now later r = (ground arith, λ h. ground arith, λ h. ground arith, ground arith)

-- After a post-only rejection the next order of a buy is held back exactly while the backoff lasts
-- or while both its price and the ask are those of the rejection; of a sell, the price and the bid.
-- After a reset nothing is held back. The count of rejections before is taken not to be negative.
pub reject_gate_exact :
    (now later price bid ask price' bid' ask' : Decimal) (reason : String) (r : ExecutionRecord)
    → pos 0 ≤ℤ r.consecutive_retryable_order_rejects
    → let rejected = record_retryable_order_reject now price bid ask reason r in
      let quote = if is_buy r.side then eq_ℤ ask' ask else eq_ℤ bid' bid in
      ((retryable_gate_blocks later price' bid' ask' rejected).0
        ≡ (ltb_ℤ (later -ℤ now) backoff_seconds || (eq_ℤ price' price && quote)))
      × ((retryable_gate_blocks later price' bid' ask'
            (reset_retryable_order_reject_gate rejected)).0
          ≡ false)
unfolding record_retryable_order_reject retryable_gate_blocks reset_retryable_order_reject_gate
reject_gate_exact now later price bid ask price' bid' ask' reason r h =
    (ground (arith, +ℤ_parts r.consecutive_retryable_order_rejects (pos 1)), ground arith)
