-- ===== src/Engine/Exposure.antt =====
-- src/execution/engine.py: `ExposureTracker`, method by method. A method takes the tracker and
-- returns it beside its result; a raise leaves what was written before it.
pub mod Limits
pub mod Changes
pub mod Invariant
use interview_assignment.Base.{
  ℕ, zero, suc, ◌+◌, ◌-◌, ◌*◌, ◌/◌, ◌%◌, ◌≤◌, ◌<◌, String, ◌≡◌, refl, sym, ap, ◌∙◌, ◌≢◌, ◌↔◌, ◌⊎◌,
  inl, inr, Bool, true, false, ◌&&◌, ◌||◌, not, Option, none, some, List, [], ◌∷◌, ◌++◌, map, arith,
  ltb, leb, ◌==◌, if◌then◌else◌, ltb→lt, leb→le, ==_iff, Bool-cases, Option-cases, is_some,
  or_default, ℤ, pos, negsuc, Decimal, pos_part, neg_part, ◌+ℤ◌, ◌-ℤ◌, ◌*ℤ◌, ◌≤ℤ◌, ◌<ℤ◌, ltb_ℤ,
  leb_ℤ, eq_ℤ, int_laws, min_ℤ, max_ℤ, abs_ℤ, neg_ℤ, length, get_elem?, set, remove_at, any, All,
  Text, text_eq, text_eq_iff, text_eq_refl, Exception, ValidationKind, Result, ok, raised, Exec,
  pure, raise, lift, gets, modify, raise_if, ◌>>=◌, ◌>>◌, returns,
}
use interview_assignment.Base.Dict.{IdSet, contains, add}
use interview_assignment.Execution.Orders.{Exposure, empty_exposure, reserved_exposure, floor_zero}
use interview_assignment.Risk.Validation.{check_exposure_invariant}

pub record ExposureTracker : Type 0 where
  pub target_quantity : Decimal
  pub permitted_tolerance : Decimal
  pub exposure : Exposure
  pub open exposure use *
  pub seen_trade_ids : IdSet

unfoldable pub require_non_negative : Decimal → Result (Unit {0})
require_non_negative quantity =
    if ltb_ℤ quantity (pos 0)
    then raised (Exception.validation_error ValidationKind.negative_quantity)
    else ok tt

-- `ExposureTracker(target_quantity)`, with `__post_init__`.
unfoldable pub new_tracker : Decimal → Result ExposureTracker
unfolding require_non_negative
new_tracker target = elim (require_non_negative target) [
  | raised e ↦ raised e
  | ok _ ↦ ok (record {
    target_quantity = target;
    permitted_tolerance = pos 0;
    exposure = empty_exposure;
    seen_trade_ids = [];
  })
]

unfoldable pub subtract_floor_zero : Decimal → Decimal → Decimal
subtract_floor_zero current quantity = floor_zero (current -ℤ quantity)

unfoldable pub available_to_submit : ExposureTracker → Decimal
available_to_submit t =
    floor_zero (t.target_quantity -ℤ t.confirmed_filled_quantity -ℤ reserved_exposure t.exposure)

unfoldable pub check_can_submit : Decimal → Exec ExposureTracker (Unit {0})
unfolding require_non_negative
check_can_submit quantity t = elim (require_non_negative quantity) [
  | raised e ↦ (raised e, t)
  | ok _ ↦ (check_exposure_invariant t.exposure quantity t.target_quantity t.permitted_tolerance, t)
]

unfoldable pub reserve_live_open : Decimal → Exec ExposureTracker (Unit {0})
reserve_live_open quantity = do
  check_can_submit quantity
  modify (λ t. record t {
    exposure = record t.exposure { live_open_quantity = t.live_open_quantity +ℤ quantity };
  })

unfoldable pub reserve_pending_submit : Decimal → Exec ExposureTracker (Unit {0})
reserve_pending_submit quantity = do
  check_can_submit quantity
  modify (λ t. record t {
    exposure = record t.exposure {
      pending_submit_quantity = t.pending_submit_quantity +ℤ quantity;
    };
  })

unfoldable pub release_pending_submit : Decimal → Exec ExposureTracker (Unit {0})
unfolding require_non_negative
release_pending_submit quantity = do
  lift (require_non_negative quantity)
  modify (λ t. record t {
    exposure = record t.exposure {
      pending_submit_quantity = subtract_floor_zero t.pending_submit_quantity quantity;
    };
  })

unfoldable pub reserve_unknown_create : Decimal → Exec ExposureTracker (Unit {0})
reserve_unknown_create quantity = do
  check_can_submit quantity
  modify (λ t. record t {
    exposure = record t.exposure { unknown_order_quantity = t.unknown_order_quantity +ℤ quantity };
  })

-- `clear_unknown_create()` and `clear_unknown_create(quantity)`
unfoldable pub clear_unknown_create : Option Decimal → Exec ExposureTracker (Unit {0})
unfolding require_non_negative
clear_unknown_create none =
    modify (λ t. record t { exposure = record t.exposure { unknown_order_quantity = pos 0 } })
clear_unknown_create (some quantity) = do
  lift (require_non_negative quantity)
  modify (λ t. record t {
    exposure = record t.exposure {
      unknown_order_quantity = subtract_floor_zero t.unknown_order_quantity quantity;
    };
  })

unfoldable pub mark_pending_cancel : Decimal → Exec ExposureTracker (Unit {0})
unfolding require_non_negative
mark_pending_cancel quantity = do
  lift (require_non_negative quantity)
  modify (λ t.
      let moved = min_ℤ quantity t.live_open_quantity in
      record t {
        exposure = record t.exposure {
          live_open_quantity = t.live_open_quantity -ℤ moved;
          pending_cancel_quantity = t.pending_cancel_quantity +ℤ moved;
        };
      })

unfoldable pub release_pending_cancel : Decimal → Exec ExposureTracker (Unit {0})
unfolding require_non_negative
release_pending_cancel quantity = do
  lift (require_non_negative quantity)
  modify (λ t. record t {
    exposure = record t.exposure {
      pending_cancel_quantity = subtract_floor_zero t.pending_cancel_quantity quantity;
    };
  })

unfoldable pub set_live_open : Decimal → Exec ExposureTracker (Unit {0})
unfolding require_non_negative
set_live_open quantity = do
  lift (require_non_negative quantity)
  modify (λ t. record t { exposure = record t.exposure { live_open_quantity = quantity } })

-- The part of `apply_fill` below the duplicate check.
unfoldable pub raise_confirmed : Decimal → ExposureTracker → Decimal × ExposureTracker
raise_confirmed cumulative t =
    if leb_ℤ cumulative t.confirmed_filled_quantity then (pos 0, t) else (
      cumulative -ℤ t.confirmed_filled_quantity,
      record t { exposure = record t.exposure { confirmed_filled_quantity = cumulative } },
    )

unfoldable pub apply_fill : Option Text → Decimal → Exec ExposureTracker Decimal
unfolding require_non_negative raise_confirmed
apply_fill trade_id cumulative t = elim (require_non_negative cumulative) [
  | raised e ↦ (raised e, t)
  | ok _ ↦ elim trade_id [
    | none ↦ let (delta, t') = raise_confirmed cumulative t in (ok delta, t')
    | some id ↦
        if contains id t.seen_trade_ids
        then (ok (pos 0), t)
        else let (delta, t') =
            raise_confirmed cumulative (record t { seen_trade_ids = add id t.seen_trade_ids }) in
          (ok delta, t')
  ]
]
