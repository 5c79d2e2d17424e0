-- ===== src/Tests/Tracker.antt =====
-- The theorems on the tracker and on fills (src/execution/engine.py).
use interview_assignment.Base.{
  List, inr, raised, Exception, ValidationKind, ◌≡◌, refl, false, not, none, some, [], ◌∷◌, ◌++◌,
  arith, pos, ◌+ℤ◌, ◌-ℤ◌, ◌≤ℤ◌, ◌<ℤ◌, max_ℤ, ok, returns,
}
use interview_assignment.Base.Dict.{contains}
use interview_assignment.Execution.Models.{
  ChildOrderStatus, child_is, child_is_live, child_is_terminal,
}
use interview_assignment.Execution.Orders.{reserved_exposure}
use interview_assignment.Engine.Exposure.{available_to_submit, reserve_pending_submit, apply_fill}
use interview_assignment.Engine.Exposure.Limits.{
  IsWithin, Reservation, run_reservations, run_reservations-IsWithin, reserve_pending_submit_exact,
  cancel_taken_back, apply_fill_once,
}
use interview_assignment.Engine.Exposure.Invariant.{reservations_assert}
use interview_assignment.Engine.Record.{
  ExecutionRecord, assert_exposure_invariant, exposure, confirmed, reserved,
}
use interview_assignment.Engine.Intervals.{
  fill_interval_overlaps, fill_interval_is_valid, covered_interval_quantity, accepted_interval,
}
use interview_assignment.Engine.Intervals.Coverage.{
  IsDisjoint, total_length, accepted_interval-IsDisjoint, covered-eq-total_length,
}
use interview_assignment.Engine.Fills.{refresh_reserved_exposure, update_child_cumulative_fill}
use interview_assignment.Engine.Fills.Balance.{IsAccounted, Accounts}
use interview_assignment.Engine.Fills.Accounting.{update-Accounts}
use interview_assignment.Engine.Fills.Reserved.{total_remaining, refresh_reserved_exact}
use interview_assignment.Tests.Samples.{tracker, running, open_child, trade}

pub tracker-IsWithin : IsWithin tracker
unfolding reserved_exposure ◌+ℤ◌
tracker-IsWithin = record {
  tolerance = omega arith;
  confirmed = omega arith;
  live = omega arith;
  submitting = omega arith;
  cancelling = omega arith;
  uncertain = omega arith;
  limit = omega arith;
}

running-IsAccounted : IsAccounted tracker running
unfolding ◌+ℤ◌
running-IsAccounted = record {
  tracked = refl;
  balanced = refl;
  non_negative = (omega arith, tt);
  known = λ j h. ground arith;
}

update-Accounts_example : Accounts (update_child_cumulative_fill 0 trade running)
update-Accounts_example =
    update-Accounts 0 open_child trade tracker running running-IsAccounted refl (λ h. ground arith)

run_reservations-IsWithin_example : IsWithin (
    run_reservations
      (Reservation.pending_submit (pos 3)
        ∷ Reservation.live_open (pos 9)
        ∷ Reservation.start_cancel (pos 1)
        ∷ [])
      tracker)
run_reservations-IsWithin_example =
    run_reservations-IsWithin
      (Reservation.pending_submit (pos 3)
        ∷ Reservation.live_open (pos 9)
        ∷ Reservation.start_cancel (pos 1)
        ∷ [])
      tracker tracker-IsWithin

abbrev busy : List Reservation
busy = Reservation.pending_submit (pos 3) ∷ Reservation.start_cancel (pos 1) ∷ []

reservations_assert_example :
    let u = run_reservations busy tracker in
    let r : ExecutionRecord = record running { exposure_tracker = some u } in
    (assert_exposure_invariant r ≡ (ok tt, r))
    × (u.confirmed_filled_quantity +ℤ u.live_open_quantity +ℤ u.pending_submit_quantity
          +ℤ u.pending_cancel_quantity +ℤ u.unknown_order_quantity
        ≤ℤ pos 10 +ℤ u.permitted_tolerance)
reservations_assert_example =
    reservations_assert busy tracker
      (record running { exposure_tracker = some (run_reservations busy tracker) }) tracker-IsWithin
      refl refl

cancel_taken_back_example :
    run_reservations
      (Reservation.start_cancel (pos 2)
        ∷ Reservation.release_cancel (pos 2)
        ∷ Reservation.live_open (pos 2)
        ∷ [])
      tracker
    ≡ tracker
cancel_taken_back_example =
    cancel_taken_back (pos 2) tracker tracker-IsWithin (omega arith) (omega arith)

reserve_pending_submit_exact_example :
    let (r, t') = reserve_pending_submit (pos 3) tracker in
    (pos 0 ≤ℤ pos 3
      → pos 3 ≤ℤ available_to_submit tracker
      → (r ≡ ok tt)
        × ((reserved_exposure t'.exposure ≡ reserved_exposure tracker.exposure +ℤ pos 3)
            × (t'.confirmed_filled_quantity ≡ tracker.confirmed_filled_quantity)
            × (available_to_submit t' ≡ available_to_submit tracker -ℤ pos 3)))
    × (available_to_submit tracker +ℤ tracker.permitted_tolerance <ℤ pos 3
        → (returns r ≡ false) × (t' ≡ tracker))
    × (pos 3 <ℤ pos 0 → (returns r ≡ false) × (t' ≡ tracker))
reserve_pending_submit_exact_example = reserve_pending_submit_exact (pos 3) tracker tracker-IsWithin

apply_fill_once_example :
    let (r, t') = apply_fill (some (55 ∷ [])) (pos 6) tracker in
    (t'.confirmed_filled_quantity ≡ max_ℤ (pos 4) (pos 6))
    × (r ≡ ok (t'.confirmed_filled_quantity -ℤ pos 4))
    × (reserved_exposure t'.exposure ≡ reserved_exposure tracker.exposure)
    × (pos 0 ≤ℤ pos 9 → apply_fill (some (55 ∷ [])) (pos 9) t' ≡ (ok (pos 0), t'))
    × (pos 9 <ℤ pos 0
        → apply_fill (some (55 ∷ [])) (pos 9) t'
          ≡ (raised (Exception.validation_error ValidationKind.negative_quantity), t'))
unfolding contains
apply_fill_once_example = apply_fill_once (55 ∷ []) (pos 6) (pos 9) tracker (omega arith) refl

refresh_reserved_exact_example :
    let (x, r') = refresh_reserved_exposure running in
    (x ≡ ok tt)
    × (r'.child_orders ≡ running.child_orders)
    × (confirmed r' ≡ pos 4)
    × ((exposure r').live_open_quantity ≡ total_remaining child_is_live running.child_orders)
    × ((exposure r').pending_submit_quantity
        ≡ total_remaining (λ s. child_is s ChildOrderStatus.pending_submit) running.child_orders)
    × ((exposure r').pending_cancel_quantity
        ≡ total_remaining (λ s. child_is s ChildOrderStatus.pending_cancel) running.child_orders)
    × ((exposure r').unknown_order_quantity
        ≡ total_remaining (λ s. child_is s ChildOrderStatus.unknown) running.child_orders)
    × (reserved r' ≡ total_remaining (λ s. not (child_is_terminal s)) running.child_orders)
refresh_reserved_exact_example = refresh_reserved_exact tracker running refl

first_part-IsDisjoint : IsDisjoint ((pos 0, pos 4) ∷ [])
first_part-IsDisjoint = (omega arith, omega arith, tt, tt)

both_parts-IsDisjoint : IsDisjoint ((pos 4, pos 6) ∷ (pos 0, pos 3) ∷ [])
both_parts-IsDisjoint =
    (omega arith, omega arith, (inr (omega arith), tt), (omega arith, omega arith, tt, tt))

next_part :
    accepted_interval (pos 6) (pos 2) (pos 7) ((pos 0, pos 4) ∷ []) none ≡ some (pos 4, pos 6)
unfolding accepted_interval fill_interval_is_valid fill_interval_overlaps ◌+ℤ◌ ◌-ℤ◌
next_part = refl

accepted_interval-IsDisjoint_example :
    IsDisjoint (((pos 0, pos 4) ∷ []) ++ (pos 4, pos 6) ∷ [])
    × (pos 6 -ℤ pos 4 ≡ pos 2)
    × (pos 0 ≤ℤ pos 4)
    × (pos 4 <ℤ pos 6)
    × (pos 6 ≤ℤ pos 7)
accepted_interval-IsDisjoint_example =
    accepted_interval-IsDisjoint (pos 6) (pos 2) (pos 7) (pos 4) (pos 6) ((pos 0, pos 4) ∷ []) none
      first_part-IsDisjoint next_part

covered-eq-total_length_example :
    covered_interval_quantity ((pos 4, pos 6) ∷ (pos 0, pos 3) ∷ []) (pos 7)
    ≡ total_length ((pos 4, pos 6) ∷ (pos 0, pos 3) ∷ [])
covered-eq-total_length_example =
    covered-eq-total_length ((pos 4, pos 6) ∷ (pos 0, pos 3) ∷ []) (pos 7) both_parts-IsDisjoint
      (omega arith, (omega arith, tt))
