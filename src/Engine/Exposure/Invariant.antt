-- ===== src/Engine/Exposure/Invariant.antt =====
-- `_assert_exposure_invariant_locked` of src/execution/engine.py over the reservations of the
-- tracker.
use interview_assignment.Base.{
  sym, ◌∙◌, ◌≡◌, refl, none, some, List, [], ◌∷◌, arith, ◌+ℤ◌, ◌≤ℤ◌, int_laws, ok,
}
use interview_assignment.Execution.Orders.{reserved_exposure}
use interview_assignment.Risk.Validation.{check_exposure_invariant}
use interview_assignment.Engine.Record.{ExecutionRecord, exposure, assert_exposure_invariant}
use interview_assignment.Engine.Exposure.{
  ExposureTracker, require_non_negative, clear_unknown_create, subtract_floor_zero,
}
use interview_assignment.Engine.Exposure.Changes.{
  Reserves-SameBut, reserve_live_open-Reserves, reserve_pending_submit-Reserves,
  release_pending_submit-Reserves, reserve_unknown_create-Reserves, mark_pending_cancel-Reserves,
  release_pending_cancel-Reserves,
}
use interview_assignment.Engine.Exposure.Limits.{
  IsWithin, Reservation, live_open, pending_submit, release_submit, unknown_create, clear_unknown,
  start_cancel, release_cancel, run_reservation, run_reservations, run_reservations-IsWithin,
}

step_target :
    (op : Reservation) (t : ExposureTracker)
    → (run_reservation op t).1.target_quantity ≡ t.target_quantity
unfolding run_reservation clear_unknown_create require_non_negative subtract_floor_zero
step_target (live_open q) t = (Reserves-SameBut t _ (reserve_live_open-Reserves q t)).target
step_target (pending_submit q) t =
    (Reserves-SameBut t _ (reserve_pending_submit-Reserves q t)).target
step_target (release_submit q) t =
    (Reserves-SameBut t _ (release_pending_submit-Reserves q t)).target
step_target (unknown_create q) t =
    (Reserves-SameBut t _ (reserve_unknown_create-Reserves q t)).target
step_target (clear_unknown none) t = ground arith
step_target (clear_unknown (some q)) t = ground arith
step_target (start_cancel q) t = (Reserves-SameBut t _ (mark_pending_cancel-Reserves q t)).target
step_target (release_cancel q) t =
    (Reserves-SameBut t _ (release_pending_cancel-Reserves q t)).target

target_stays :
    (ops : List Reservation) (t : ExposureTracker)
    → (run_reservations ops t).target_quantity ≡ t.target_quantity
unfolding run_reservations
target_stays [] t = refl
target_stays (op ∷ ops) t = target_stays ops (run_reservation op t).1 ∙ step_target op t

-- The assertion passes on a tracker within its limits.
asserts :
    (t : ExposureTracker) (r : ExecutionRecord)
    → IsWithin t
    → r.exposure_tracker ≡ some t
    → r.required_quantity ≡ t.target_quantity
    → assert_exposure_invariant r ≡ (ok tt, r)
unfolding assert_exposure_invariant exposure check_exposure_invariant
asserts t r h tracked required = rw (tracked, required) (grind (int_laws, h.tolerance, h.limit))

spelled :
    (t : ExposureTracker)
    → IsWithin t
    → t.confirmed_filled_quantity +ℤ t.live_open_quantity +ℤ t.pending_submit_quantity
        +ℤ t.pending_cancel_quantity +ℤ t.unknown_order_quantity
      ≤ℤ t.target_quantity +ℤ t.permitted_tolerance
unfolding reserved_exposure
spelled t h = grind (int_laws, h.limit)

-- Whatever reservations, releases and cancels a tracker goes through that was within its limits,
-- and whichever of them raise, the assertion of the engine passes on a record that has the tracker
-- and its target as the required quantity, and leaves the record as it is; what is filled, live,
-- being submitted, being cancelled and unknown is together at most the required quantity plus the
-- tolerance.
pub reservations_assert :
    (ops : List Reservation) (t : ExposureTracker) (r : ExecutionRecord)
    → IsWithin t
    → let u = run_reservations ops t in
      r.exposure_tracker ≡ some u
      → r.required_quantity ≡ t.target_quantity
      → (assert_exposure_invariant r ≡ (ok tt, r))
        × (u.confirmed_filled_quantity +ℤ u.live_open_quantity +ℤ u.pending_submit_quantity
              +ℤ u.pending_cancel_quantity +ℤ u.unknown_order_quantity
            ≤ℤ r.required_quantity +ℤ u.permitted_tolerance)
reservations_assert ops t r h tracked required =
    let u = run_reservations ops t in
    let within = run_reservations-IsWithin ops t h in
    let same = target_stays ops t in
    let sum = spelled u within in
    (asserts u r within tracked (required ∙ sym same), grind (int_laws, sum, required, same))
