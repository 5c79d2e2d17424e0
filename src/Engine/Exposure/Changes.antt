-- ===== src/Engine/Exposure/Changes.antt =====
-- What the methods of `ExposureTracker` (src/execution/engine.py) may do to what is reserved, said
-- without them.
use interview_assignment.Base.{
  ◌≡◌, refl, sym, subst, arith, pos, Decimal, ◌+ℤ◌, ◌-ℤ◌, ◌≤ℤ◌, min_ℤ, Result, ok, raised, ◌>>◌,
  modify,
}
use interview_assignment.Execution.Orders.{floor_zero, reserved_exposure}
use interview_assignment.Risk.Validation.{check_exposure_invariant}
use interview_assignment.Engine.Exposure.{
  ExposureTracker, require_non_negative, subtract_floor_zero, check_can_submit, reserve_live_open,
  reserve_pending_submit, release_pending_submit, reserve_unknown_create, mark_pending_cancel,
  release_pending_cancel,
}

-- An order of this quantity leaves what is filled and what is reserved within target and tolerance.
pub record Fits (q : Decimal) (t : ExposureTracker) : Type 0 where
  pub non_negative : pos 0 ≤ℤ q
  pub within :
      t.confirmed_filled_quantity
        +ℤ (t.live_open_quantity +ℤ t.pending_submit_quantity +ℤ t.pending_cancel_quantity
            +ℤ t.unknown_order_quantity)
        +ℤ q
      ≤ℤ t.target_quantity +ℤ t.permitted_tolerance

abbrev pub with_live : ExposureTracker → Decimal → ExposureTracker
with_live t q = record t { exposure = record t.exposure { live_open_quantity = q } }

abbrev pub with_submit : ExposureTracker → Decimal → ExposureTracker
with_submit t q = record t { exposure = record t.exposure { pending_submit_quantity = q } }

abbrev pub with_cancel : ExposureTracker → Decimal → ExposureTracker
with_cancel t q = record t { exposure = record t.exposure { pending_cancel_quantity = q } }

abbrev pub with_unknown : ExposureTracker → Decimal → ExposureTracker
with_unknown t q = record t { exposure = record t.exposure { unknown_order_quantity = q } }

-- One bucket takes a quantity that fits, gives one back, or hands one on.
pub data Reserves (t u : ExposureTracker) : Type 0 where
  keeps : u ≡ t → Reserves t u
  takes_live : (q : Decimal) → Fits q t → u ≡ with_live t (t.live_open_quantity +ℤ q) → Reserves t u
  takes_submit :
      (q : Decimal) → Fits q t → u ≡ with_submit t (t.pending_submit_quantity +ℤ q) → Reserves t u
  takes_unknown :
      (q : Decimal) → Fits q t → u ≡ with_unknown t (t.unknown_order_quantity +ℤ q) → Reserves t u
  gives_submit :
      (q : Decimal)
      → pos 0 ≤ℤ q
      → u ≡ with_submit t (floor_zero (t.pending_submit_quantity -ℤ q))
      → Reserves t u
  gives_cancel :
      (q : Decimal)
      → pos 0 ≤ℤ q
      → u ≡ with_cancel t (floor_zero (t.pending_cancel_quantity -ℤ q))
      → Reserves t u
  hands_on :
      (q : Decimal)
      → pos 0 ≤ℤ q
      → u
        ≡ with_cancel
            (with_live t (t.live_open_quantity -ℤ min_ℤ q t.live_open_quantity))
            (t.pending_cancel_quantity +ℤ min_ℤ q t.live_open_quantity)
      → Reserves t u

-- Nothing but the buckets changes.
pub record SameBut (t u : ExposureTracker) : Type 0 where
  pub target : u.target_quantity ≡ t.target_quantity
  pub tolerance : u.permitted_tolerance ≡ t.permitted_tolerance
  pub confirmed : u.confirmed_filled_quantity ≡ t.confirmed_filled_quantity
  pub seen : u.seen_trade_ids ≡ t.seen_trade_ids

pub Reserves-SameBut : (t u : ExposureTracker) → Reserves t u → SameBut t u
Reserves-SameBut t u (keeps e) =
    rw e (record { target = refl; tolerance = refl; confirmed = refl; seen = refl })
Reserves-SameBut t u (takes_live q f e) =
    rw e (record { target = refl; tolerance = refl; confirmed = refl; seen = refl })
Reserves-SameBut t u (takes_submit q f e) =
    rw e (record { target = refl; tolerance = refl; confirmed = refl; seen = refl })
Reserves-SameBut t u (takes_unknown q f e) =
    rw e (record { target = refl; tolerance = refl; confirmed = refl; seen = refl })
Reserves-SameBut t u (gives_submit q p e) =
    rw e (record { target = refl; tolerance = refl; confirmed = refl; seen = refl })
Reserves-SameBut t u (gives_cancel q p e) =
    rw e (record { target = refl; tolerance = refl; confirmed = refl; seen = refl })
Reserves-SameBut t u (hands_on q p e) =
    rw e (record { target = refl; tolerance = refl; confirmed = refl; seen = refl })

module _ (q : Decimal) (t : ExposureTracker) where
  pub can_submit-Fits : (check_can_submit q t).0 ≡ ok tt → Fits q t
  unfolding check_can_submit check_exposure_invariant require_non_negative reserved_exposure
  can_submit-Fits e = record { non_negative = ground (arith, e); within = ground (arith, e) }

  pub can_submit_tolerance : (check_can_submit q t).0 ≡ ok tt → pos 0 ≤ℤ t.permitted_tolerance
  unfolding check_can_submit check_exposure_invariant require_non_negative
  can_submit_tolerance e = ground (arith, e)

  pub check_can_submit-same : (check_can_submit q t).1 ≡ t
  unfolding check_can_submit
  check_can_submit-same = ground arith

-- A method that checks its quantity and then writes.
checked :
    (x : Result (Unit {0})) (f : ExposureTracker → ExposureTracker) (t : ExposureTracker)
    → (x ≡ ok tt → Reserves t (f t))
    → Reserves t
        (elim x as (λ _. Result (Unit {0}) × ExposureTracker) [
          | ok _ ↦ (ok tt, f t)
          | raised e ↦ (raised e, t)
        ]).1
checked (ok tt) f t h = h refl
checked (raised e) f t h = keeps refl

not_negative : (q : Decimal) → require_non_negative q ≡ ok tt → pos 0 ≤ℤ q
unfolding require_non_negative
not_negative q e = ground (arith, e)

module _ (q : Decimal) (t : ExposureTracker) where
  pub check_can_submit-Reserves : Reserves t (check_can_submit q t).1
  check_can_submit-Reserves = keeps (check_can_submit-same q t)

  guarded :
      (f : ExposureTracker → ExposureTracker)
      → (Fits q t → Reserves t (f t))
      → Reserves t ((check_can_submit q >> modify f) t).1
  guarded f h =
      subst
        (λ x.
          Reserves t
            (elim (check_can_submit q t).0 as (λ _. Result (Unit {0}) × ExposureTracker) [
              | ok _ ↦ (ok tt, f x)
              | raised e ↦ (raised e, x)
            ]).1)
        (sym (check_can_submit-same q t))
        (checked (check_can_submit q t).0 f t (λ e. h (can_submit-Fits q t e)))

  pub reserve_live_open-Reserves : Reserves t (reserve_live_open q t).1
  unfolding reserve_live_open
  reserve_live_open-Reserves =
      guarded (λ t. with_live t (t.live_open_quantity +ℤ q)) (λ f. takes_live q f refl)

  pub reserve_pending_submit-Reserves : Reserves t (reserve_pending_submit q t).1
  unfolding reserve_pending_submit
  reserve_pending_submit-Reserves =
      guarded (λ t. with_submit t (t.pending_submit_quantity +ℤ q)) (λ f. takes_submit q f refl)

  pub reserve_unknown_create-Reserves : Reserves t (reserve_unknown_create q t).1
  unfolding reserve_unknown_create
  reserve_unknown_create-Reserves =
      guarded (λ t. with_unknown t (t.unknown_order_quantity +ℤ q)) (λ f. takes_unknown q f refl)

  pub release_pending_submit-Reserves : Reserves t (release_pending_submit q t).1
  unfolding release_pending_submit subtract_floor_zero
  release_pending_submit-Reserves =
      checked (require_non_negative q)
        (λ t. with_submit t (floor_zero (t.pending_submit_quantity -ℤ q))) t
        (λ e. gives_submit q (not_negative q e) refl)

  pub release_pending_cancel-Reserves : Reserves t (release_pending_cancel q t).1
  unfolding release_pending_cancel subtract_floor_zero
  release_pending_cancel-Reserves =
      checked (require_non_negative q)
        (λ t. with_cancel t (floor_zero (t.pending_cancel_quantity -ℤ q))) t
        (λ e. gives_cancel q (not_negative q e) refl)

  pub mark_pending_cancel-Reserves : Reserves t (mark_pending_cancel q t).1
  unfolding mark_pending_cancel
  mark_pending_cancel-Reserves =
      checked (require_non_negative q)
        (λ t.
          let moved = min_ℤ q t.live_open_quantity in
          with_cancel (with_live t (t.live_open_quantity -ℤ moved))
            (t.pending_cancel_quantity +ℤ moved))
        t (λ e. hands_on q (not_negative q e) refl)

  -- Where the quantity fits, the reservation of a new child is the whole effect.
  pub reserve_pending_submit-Fits :
      Fits q t
      → pos 0 ≤ℤ t.permitted_tolerance
      → reserve_pending_submit q t ≡ (ok tt, with_submit t (t.pending_submit_quantity +ℤ q))
  unfolding reserve_pending_submit check_can_submit check_exposure_invariant require_non_negative
      reserved_exposure
  reserve_pending_submit-Fits f p = ground (arith, f.non_negative, f.within)
