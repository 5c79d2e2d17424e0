-- ===== src/Engine/Run/Ending.antt =====
-- How a cancelled execution comes to its end in src/execution/engine.py.
use interview_assignment.Base.{
  ◌≡◌, refl, sym, ap, ◌∙◌, inl, inr, true, false, some, [], arith, if◌then◌else◌, Option-cases,
  is_some, pos, Decimal, ◌+ℤ◌, ◌≤ℤ◌, ltb_ℤ, leb_ℤ, ok, pure, ◌>>=◌, after_call,
}
use interview_assignment.Execution.Models.{ExecutionStatus, is_terminal}
use interview_assignment.Execution.Orders.{reserved_exposure}
use interview_assignment.Exchanges.{ExchangeAdapter}
use interview_assignment.Engine.Exposure.{ExposureTracker}
use interview_assignment.Engine.Record.{
  ExecutionRecord, exposure, confirmed, reserved, record_max_reserved_exposure, target_filled,
}
use interview_assignment.Engine.Terminal.{terminalize_manual_cancel}
use interview_assignment.Engine.Gates.{rate_limit_backoff_blocks}
use interview_assignment.Engine.Session.{Session, at_now}
use interview_assignment.Engine.Exposure.Limits.{IsWithin}
use interview_assignment.Engine.Cancel.{is_blocked, places}
use interview_assignment.Engine.Refresh.{
  clear_pending_reasons, renew_summary, refresh_each, refresh_order_states_exact,
}
use interview_assignment.Engine.Run.{run_unblocked, run_once}
use interview_assignment.Engine.Terminal.Outcomes.{
  cancel_outcome, cancel_and_deadline_outcomes, run_ending, run_ending-EndsLegally, Ending,
}
use interview_assignment.Engine.Run.Settled.{
  AllEnded, ended_places, skips, only_filled, Same, rebuilt, finish_lem, rests,
}

-- The record once the backoff test has let the round through.
unblocked_lem :
    (now : Decimal) (r : ExecutionRecord)
    → ((until : Decimal) → r.rate_limited_until_monotonic ≡ some until → until ≤ℤ now)
    → ((is_blocked now r).0 ≡ ok false)
      × ((is_blocked now r).1.child_orders ≡ r.child_orders)
      × Same r (is_blocked now r).1
unfolding is_blocked rate_limit_backoff_blocks
unblocked_lem now r over = elim (Option-cases r.rate_limited_until_monotonic) [
  | inl never ↦ (
    ground arith,
    ground arith,
    record { status = ground arith; required = ground arith; tracked = ground arith },
  )
  | inr (until, e) ↦
      let past = over until e in
      (
        ground arith,
        ground arith,
        record { status = ground arith; required = ground arith; tracked = ground arith },
      )
]

-- What a manual cancel comes to when nothing is reserved.
abbrev pub ended_as : Decimal → Decimal → ExecutionStatus
ended_as required filled =
    if leb_ℤ required filled
    then ExecutionStatus.completed
    else if ltb_ℤ (pos 0) filled
    then ExecutionStatus.partially_completed
    else ExecutionStatus.cancelled

ended_as-is_terminal : (required filled : Decimal) → is_terminal (ended_as required filled) ≡ true
ended_as-is_terminal required filled = ground arith

exposure_lem :
    (t : ExposureTracker) (r : ExecutionRecord)
    → r.exposure_tracker ≡ some (record t { exposure = only_filled t })
    → exposure r ≡ only_filled t
unfolding exposure
exposure_lem t r e = rw e refl

nothing_reserved : (t : ExposureTracker) → reserved_exposure (only_filled t) ≡ pos 0
unfolding reserved_exposure ◌+ℤ◌
nothing_reserved t = refl

outcome_lem :
    (t : ExposureTracker) (r : ExecutionRecord)
    → r.exposure_tracker ≡ some (record t { exposure = only_filled t })
    → cancel_outcome r ≡ ended_as r.required_quantity t.confirmed_filled_quantity
unfolding target_filled
outcome_lem t r e =
    let same = exposure_lem t r e in
    let none_reserved : reserved r ≡ pos 0 = ap reserved_exposure same ∙ nothing_reserved t in
    let filled : confirmed r ≡ t.confirmed_filled_quantity =
      ap (λ x. x.confirmed_filled_quantity) same in
    rw (none_reserved, filled) refl

refreshes_each :
    (a : ExchangeAdapter) (t : ExposureTracker) (s : Session a)
    → s.execution.exposure_tracker ≡ some t
    → refresh_order_states_exact a s ≡ refresh_each a (places s.execution) s
unfolding refresh_order_states_exact
refreshes_each a t s e =
    ap (λ b. (if b then refresh_each a (places s.execution) else pure tt) s) (ap is_some e)

-- The two tests before the work of the round.
passes :
    (a : ExchangeAdapter) (s : Session a)
    → s.execution.status ≡ ExecutionStatus.cancelling
    → (is_blocked (a.monotonic s.world) s.execution).0 ≡ ok false
    → run_once a s
      ≡ run_unblocked a (record s { execution = (is_blocked (a.monotonic s.world) s.execution).1 })
unfolding run_once
passes a s e free =
    let s1 = record s { execution = (is_blocked (a.monotonic s.world) s.execution).1 } in
    ap
      (λ b.
        (if is_terminal b
            then pure tt
            else (do blocked ← at_now is_blocked; if blocked then pure tt else run_unblocked a))
          s)
      e
    ∙ after_call (at_now is_blocked) (λ blocked. if blocked then pure tt else run_unblocked a) s s1
        false (ap (λ x. (x, s1)) free)

cancelling_round :
    (a : ExchangeAdapter) (s s' : Session a)
    → s.execution.status ≡ ExecutionStatus.cancelling
    → refresh_order_states_exact a s ≡ (ok tt, s')
    → run_unblocked a s ≡ at_now terminalize_manual_cancel s'
unfolding run_unblocked
cancelling_round a s s' e h =
    simp e
      (after_call (refresh_order_states_exact a) (λ _. at_now terminalize_manual_cancel) s s' tt h)

module _ (a : ExchangeAdapter) (t : ExposureTracker) (s : Session a)
    (cancelling : s.execution.status ≡ ExecutionStatus.cancelling)
    (over : (until : Decimal)
      → s.execution.rate_limited_until_monotonic ≡ some until
      → until ≤ℤ a.monotonic s.world)
    (tracked : s.execution.exposure_tracker ≡ some t) (within : IsWithin t)
    (target : t.target_quantity ≡ s.execution.required_quantity)
    (ended : AllEnded s.execution.child_orders) where
  abbrev unblocked : ExecutionRecord
  unblocked = (is_blocked (a.monotonic s.world) s.execution).1

  same : Same s.execution unblocked
  same = (unblocked_lem (a.monotonic s.world) s.execution over).2

  abbrev refreshed : ExecutionRecord
  refreshed = renew_summary (
      clear_pending_reasons (
        record_max_reserved_exposure (
          rebuilt t unblocked (same.tracked ∙ tracked) within (target ∙ sym same.required)
            (rw (unblocked_lem (a.monotonic s.world) s.execution over).1 ended))))

  refreshes :
      refresh_order_states_exact a (record s { execution = unblocked })
      ≡ (ok tt, record s { execution = refreshed })
  refreshes =
      let s1 = record s { execution = unblocked } in
      let kept = (unblocked_lem (a.monotonic s.world) s.execution over).1 in
      let still : AllEnded unblocked.child_orders = rw kept ended in
      refreshes_each a t s1 (same.tracked ∙ tracked)
      ∙ skips a (places unblocked) s1 (ended_places unblocked [] unblocked.child_orders refl still)
      ∙ ap (λ x. (x.0, record s { execution = x.1 }))
          (finish_lem t unblocked (same.tracked ∙ tracked) within (target ∙ sym same.required)
            still)

  -- A cancelled execution whose orders have all ended, with a tracker within its limits whose
  -- target is the required quantity, ends in its next round when no rate limit holds it back. The
  -- round returns and asks the exchange nothing; the status is then terminal: completed if the
  -- required quantity has been filled, else partially completed if anything has, else cancelled.
  pub cancelled_execution_ends :
      ((run_once a s).0 ≡ ok tt)
      × ((run_once a s).1.world ≡ s.world)
      × ((run_once a s).1.execution.status
          ≡ ended_as s.execution.required_quantity t.confirmed_filled_quantity)
      × (is_terminal (run_once a s).1.execution.status ≡ true)
  unfolding run_ending
  cancelled_execution_ends =
      let now = a.monotonic s.world in
      let (free, kept, same') = unblocked_lem now s.execution over in
      let after =
        rests t unblocked (same.tracked ∙ tracked) within (target ∙ sym same.required)
          (rw kept ended) in
      let still = after.status ∙ same.status ∙ cancelling in
      let round : run_once a s ≡ (
        (terminalize_manual_cancel now refreshed).0,
        record s { execution = (terminalize_manual_cancel now refreshed).1 },
      ) =
        passes a s cancelling free
        ∙ cancelling_round a (record s { execution = unblocked })
            (record s { execution = refreshed }) (same.status ∙ cancelling) refreshes in
      let status =
        (cancel_and_deadline_outcomes now "" refreshed).0 still
        ∙ outcome_lem t refreshed after.tracked
        ∙ ap (λ q. ended_as q t.confirmed_filled_quantity) (after.required ∙ same.required) in
      rw round (
        (run_ending-EndsLegally Ending.manual_cancel now refreshed).leaves.1,
        refl,
        status,
        ap is_terminal status
            ∙ ended_as-is_terminal s.execution.required_quantity t.confirmed_filled_quantity,
      )
