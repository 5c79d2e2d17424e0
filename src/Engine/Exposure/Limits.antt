-- ===== src/Engine/Exposure/Limits.antt =====
-- The accounting of `ExposureTracker` (src/execution/engine.py): no sequence of reservations,
-- releases and cancels takes the exposure past the target, and fills are counted once.
use interview_assignment.Base.{
  ap, ◌∙◌, ◌≡◌, refl, false, Option, none, some, List, [], ◌∷◌, arith, pos, Decimal, ◌+ℤ◌, ◌-ℤ◌,
  ◌≤ℤ◌, ◌<ℤ◌, int_laws, min_ℤ, max_ℤ, Text, ok, raised, Exception, ValidationKind, Exec, returns,
}
use interview_assignment.Base.Dict.{contains, contains-add_self}
use interview_assignment.Execution.Orders.{reserved_exposure}
use interview_assignment.Risk.Validation.{check_exposure_invariant}
use interview_assignment.Execution.Orders.{floor_zero}
use interview_assignment.Engine.Exposure.{
  ExposureTracker, require_non_negative, subtract_floor_zero, available_to_submit, check_can_submit,
  reserve_live_open, reserve_pending_submit, release_pending_submit, reserve_unknown_create,
  clear_unknown_create, mark_pending_cancel, release_pending_cancel, raise_confirmed, apply_fill,
}

-- No bucket is negative, and fills and reservations together stay within what is permitted.
pub record IsWithin (t : ExposureTracker) : Type 0 where
  pub tolerance : pos 0 ≤ℤ t.permitted_tolerance
  pub confirmed : pos 0 ≤ℤ t.confirmed_filled_quantity
  pub live : pos 0 ≤ℤ t.live_open_quantity
  pub submitting : pos 0 ≤ℤ t.pending_submit_quantity
  pub cancelling : pos 0 ≤ℤ t.pending_cancel_quantity
  pub uncertain : pos 0 ≤ℤ t.unknown_order_quantity
  pub limit :
      t.confirmed_filled_quantity +ℤ reserved_exposure t.exposure
      ≤ℤ t.target_quantity +ℤ t.permitted_tolerance

-- The calls that change the reserved buckets.
pub data Reservation : Type 0 where
  live_open pending_submit release_submit unknown_create : Decimal → Reservation
  clear_unknown : Option Decimal → Reservation
  start_cancel release_cancel : Decimal → Reservation

unfoldable pub run_reservation : Reservation → Exec ExposureTracker (Unit {0})
run_reservation (live_open q) = reserve_live_open q
run_reservation (pending_submit q) = reserve_pending_submit q
run_reservation (release_submit q) = release_pending_submit q
run_reservation (unknown_create q) = reserve_unknown_create q
run_reservation (clear_unknown q) = clear_unknown_create q
run_reservation (start_cancel q) = mark_pending_cancel q
run_reservation (release_cancel q) = release_pending_cancel q

-- Runs them in order; one that raises is skipped, with whatever it wrote.
unfoldable pub run_reservations : List Reservation → ExposureTracker → ExposureTracker
run_reservations [] t = t
run_reservations (op ∷ ops) t = run_reservations ops (run_reservation op t).1

step-IsWithin :
    (op : Reservation) (t : ExposureTracker) → IsWithin t → IsWithin (run_reservation op t).1
unfolding run_reservation reserve_live_open reserve_pending_submit release_pending_submit
    reserve_unknown_create clear_unknown_create mark_pending_cancel release_pending_cancel
    check_can_submit check_exposure_invariant require_non_negative subtract_floor_zero min_ℤ
    reserved_exposure
step-IsWithin (live_open q) t h = grind int_laws
step-IsWithin (pending_submit q) t h = grind int_laws
step-IsWithin (release_submit q) t h = grind int_laws
step-IsWithin (unknown_create q) t h = grind int_laws
step-IsWithin (clear_unknown none) t h = grind int_laws
step-IsWithin (clear_unknown (some q)) t h = grind int_laws
step-IsWithin (start_cancel q) t h = grind int_laws
step-IsWithin (release_cancel q) t h = grind int_laws

-- From a tracker whose buckets are non-negative and within target plus tolerance, however
-- reservations, releases and cancels follow one another, and whichever of them raise, the buckets
-- stay non-negative and fills plus reservations stay within target plus tolerance.
pub run_reservations-IsWithin :
    (ops : List Reservation) (t : ExposureTracker) → IsWithin t → IsWithin (run_reservations ops t)
unfolding run_reservations
run_reservations-IsWithin [] t h = h
run_reservations-IsWithin (op ∷ ops) t h =
    run_reservations-IsWithin ops (run_reservation op t).1 (step-IsWithin op t h)

pub can_submit :
    (q : Decimal) (t : ExposureTracker)
    → IsWithin t
    → pos 0 ≤ℤ q
    → q ≤ℤ available_to_submit t
    → check_can_submit q t ≡ (ok tt, t)
unfolding check_can_submit check_exposure_invariant require_non_negative available_to_submit
    reserved_exposure
can_submit q t h p fits = (grind int_laws)

unfoldable pub with_pending : ExposureTracker → Decimal → ExposureTracker
with_pending t q = record t {
  exposure = record t.exposure { pending_submit_quantity = t.pending_submit_quantity +ℤ q };
}

pub reserves :
    (q : Decimal) (t : ExposureTracker)
    → check_can_submit q t ≡ (ok tt, t)
    → reserve_pending_submit q t ≡ (ok tt, with_pending t q)
unfolding reserve_pending_submit with_pending
reserves q t e = ground arith

pub with_pending_lem :
    (q : Decimal) (t : ExposureTracker)
    → IsWithin t
    → pos 0 ≤ℤ q
    → q ≤ℤ available_to_submit t
    → (reserved_exposure (with_pending t q).exposure ≡ reserved_exposure t.exposure +ℤ q)
      × ((with_pending t q).confirmed_filled_quantity ≡ t.confirmed_filled_quantity)
      × (available_to_submit (with_pending t q) ≡ available_to_submit t -ℤ q)
unfolding with_pending available_to_submit reserved_exposure
with_pending_lem q t h p fits = (grind int_laws, grind int_laws, grind int_laws)

-- On a tracker within its limits a new child of up to the available quantity is always accepted:
-- the reservation grows by exactly its quantity and the available quantity shrinks by it. A larger
-- one is accepted only as far as the tolerance goes; beyond that, and for a negative one, the call
-- raises and changes nothing.
pub reserve_pending_submit_exact :
    (q : Decimal) (t : ExposureTracker)
    → IsWithin t
    → let (r, t') = reserve_pending_submit q t in
      (pos 0 ≤ℤ q
        → q ≤ℤ available_to_submit t
        → (r ≡ ok tt)
          × ((reserved_exposure t'.exposure ≡ reserved_exposure t.exposure +ℤ q)
              × (t'.confirmed_filled_quantity ≡ t.confirmed_filled_quantity)
              × (available_to_submit t' ≡ available_to_submit t -ℤ q)))
      × (available_to_submit t +ℤ t.permitted_tolerance <ℤ q → (returns r ≡ false) × (t' ≡ t))
      × (q <ℤ pos 0 → (returns r ≡ false) × (t' ≡ t))
unfolding reserve_pending_submit check_can_submit check_exposure_invariant require_non_negative
    available_to_submit reserved_exposure
reserve_pending_submit_exact q t h = (
  λ p fits. rw (reserves q t (can_submit q t h p fits)) (refl, with_pending_lem q t h p fits),
  λ p. (grind int_laws, grind int_laws),
  λ p. (grind int_laws, grind int_laws),
)

-- Cancelling a non-negative quantity moves exposure from live to pending cancel and changes neither
-- the reservation nor the fills; it moves the quantity asked for, or what is live if that is less.
pub mark_pending_cancel_conserves :
    (q : Decimal) (t : ExposureTracker)
    → pos 0 ≤ℤ q
    → let (r, t') = mark_pending_cancel q t in
      (r ≡ ok tt)
      × (reserved_exposure t'.exposure ≡ reserved_exposure t.exposure)
      × (t'.confirmed_filled_quantity ≡ t.confirmed_filled_quantity)
      × (t'.pending_cancel_quantity ≡ t.pending_cancel_quantity +ℤ min_ℤ q t.live_open_quantity)
unfolding mark_pending_cancel require_non_negative min_ℤ reserved_exposure
mark_pending_cancel_conserves q t p = grind int_laws

-- A fill reported, with a non-negative quantity, for a trade that was not seen raises the confirmed
-- quantity to the cumulative quantity if that is higher, never lowers it, returns the increase and
-- touches no reservation. A second report of the same trade changes nothing: with a non-negative
-- quantity it returns zero, with a negative one it raises.
pub apply_fill_once :
    (id : Text) (cumulative again : Decimal) (t : ExposureTracker)
    → pos 0 ≤ℤ cumulative
    → contains id t.seen_trade_ids ≡ false
    → let (r, t') = apply_fill (some id) cumulative t in
      (t'.confirmed_filled_quantity ≡ max_ℤ t.confirmed_filled_quantity cumulative)
      × (r ≡ ok (t'.confirmed_filled_quantity -ℤ t.confirmed_filled_quantity))
      × (reserved_exposure t'.exposure ≡ reserved_exposure t.exposure)
      × (pos 0 ≤ℤ again → apply_fill (some id) again t' ≡ (ok (pos 0), t'))
      × (again <ℤ pos 0
          → apply_fill (some id) again t'
            ≡ (raised (Exception.validation_error ValidationKind.negative_quantity), t'))
unfolding apply_fill raise_confirmed require_non_negative max_ℤ reserved_exposure
apply_fill_once id c again t p new = (
  grind int_laws,
  grind int_laws,
  grind int_laws,
  λ q. grind (int_laws, contains-add_self),
  λ q. grind int_laws,
)

lowered : ExposureTracker → Decimal → ExposureTracker
lowered t q = record t {
  exposure = record t.exposure { live_open_quantity = t.live_open_quantity -ℤ q };
}

no_more : (p q : Decimal) → pos 0 ≤ℤ p → pos 0 ≤ℤ q → floor_zero (p +ℤ q -ℤ q) ≡ p
no_more p q hp hq = grind int_laws

min_first : (q live : Decimal) → q ≤ℤ live → min_ℤ q live ≡ q
unfolding min_ℤ
min_first q live h = grind int_laws

regained : (q live : Decimal) → live -ℤ q +ℤ q ≡ live
regained q live = grind int_laws

marks_and_releases :
    (q : Decimal) (t : ExposureTracker)
    → IsWithin t
    → pos 0 ≤ℤ q
    → q ≤ℤ t.live_open_quantity
    → run_reservations (start_cancel q ∷ release_cancel q ∷ []) t ≡ lowered t q
unfolding run_reservations run_reservation mark_pending_cancel release_pending_cancel
    require_non_negative subtract_floor_zero lowered
marks_and_releases q t h p fits = ground (
  arith,
  no_more t.pending_cancel_quantity q h.cancelling p,
  min_first q t.live_open_quantity fits,
)

lowered_can :
    (q : Decimal) (t : ExposureTracker)
    → IsWithin t
    → pos 0 ≤ℤ q
    → check_can_submit q (lowered t q) ≡ (ok tt, lowered t q)
unfolding check_can_submit check_exposure_invariant require_non_negative lowered reserved_exposure
lowered_can q t h p = grind int_laws

puts_back :
    (q : Decimal) (t : ExposureTracker)
    → check_can_submit q (lowered t q) ≡ (ok tt, lowered t q)
    → run_reservations (live_open q ∷ []) (lowered t q) ≡ t
unfolding run_reservations run_reservation reserve_live_open lowered
puts_back q t e = ground (arith, regained q t.live_open_quantity)

-- On a tracker within its limits, a cancel of a non-negative quantity that is live can be taken
-- back: marking it as pending cancel, releasing it and reserving it as live again restores the
-- tracker.
pub cancel_taken_back :
    (q : Decimal) (t : ExposureTracker)
    → IsWithin t
    → pos 0 ≤ℤ q
    → q ≤ℤ t.live_open_quantity
    → run_reservations (start_cancel q ∷ release_cancel q ∷ live_open q ∷ []) t ≡ t
unfolding run_reservations run_reservation
cancel_taken_back q t h p fits =
    ap (λ x. run_reservations (live_open q ∷ []) x) (marks_and_releases q t h p fits)
    ∙ puts_back q t (lowered_can q t h p)
