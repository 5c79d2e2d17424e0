-- ===== src/Risk/Validation.antt =====
-- src/risk/validation.py: the checks of an order before it is sent, and of the exposure that it
-- would create.
pub mod Safety
use text.Mathlib.Text.{◌==◌ as str_eq}
use interview_assignment.Base.{
  ℕ, zero, suc, ◌+◌, ◌-◌, ◌*◌, ◌/◌, ◌%◌, ◌≤◌, ◌<◌, String, ◌≡◌, refl, sym, ap, ◌∙◌, ◌≢◌, ◌↔◌, ◌⊎◌,
  inl, inr, Bool, true, false, ◌&&◌, ◌||◌, not, Option, none, some, List, [], ◌∷◌, ◌++◌, map, arith,
  ltb, leb, ◌==◌, if◌then◌else◌, ltb→lt, leb→le, ==_iff, Bool-cases, Option-cases, is_some,
  or_default, ℤ, pos, negsuc, Decimal, pos_part, neg_part, ◌+ℤ◌, ◌-ℤ◌, ◌*ℤ◌, ◌≤ℤ◌, ◌<ℤ◌, ltb_ℤ,
  leb_ℤ, eq_ℤ, int_laws, min_ℤ, max_ℤ, abs_ℤ, neg_ℤ, length, get_elem?, set, remove_at, any, All,
  Text, text_eq, text_eq_iff, text_eq_refl, Exception, ValidationKind, Result, ok, raised, Exec,
  pure, raise, lift, gets, modify, raise_if, ◌>>=◌, ◌>>◌, returns,
}
use interview_assignment.Execution.Models.{Side, is_buy, is_sell, SymbolRules, supports_gtx}
use interview_assignment.Execution.Orders.{Exposure, reserved_exposure}

-- `raise ValidationError(...)` under a test.
abbrev pub reject_if : Bool → ValidationKind → Result (Unit {0}) → Result (Unit {0})
reject_if true kind rest = raised (Exception.validation_error kind)
reject_if false kind rest = rest

unfoldable pub validate_quantity : Decimal → Decimal → SymbolRules → Result (Unit {0})
validate_quantity quantity price rules =
    reject_if (ltb_ℤ quantity rules.min_quantity) ValidationKind.below_min_quantity (
      reject_if (ltb_ℤ (quantity *ℤ price) rules.min_notional) ValidationKind.below_min_notional
        (ok tt))

unfoldable pub validate_price_bounds : Side → Decimal → Decimal → Decimal → Result (Unit {0})
validate_price_bounds side price lower upper =
    reject_if (ltb_ℤ upper lower) ValidationKind.bounds_crossed (
      reject_if (is_buy side && ltb_ℤ upper price) ValidationKind.exceeds_upper_bound
        (reject_if (is_sell side && ltb_ℤ price lower) ValidationKind.below_lower_bound (ok tt)))

-- `value % step == 0` for a positive step.
unfoldable pub divides : Decimal → Decimal → Bool
divides step value = (pos_part value + neg_part value) % pos_part step == 0

-- `_is_multiple`, and the ValidationError of its caller where it answers False.
unfoldable pub require_multiple :
    Decimal → Decimal → ValidationKind → Result (Unit {0}) → Result (Unit {0})
require_multiple value step kind rest =
    reject_if (leb_ℤ step (pos 0)) ValidationKind.step_not_positive
      (reject_if (not (divides step value)) kind rest)

unfoldable pub validate_order_shape :
    Decimal → Decimal → Side → SymbolRules → Decimal → Decimal → Bool → Result (Unit {0})
unfolding require_multiple
validate_order_shape quantity price side rules best_bid best_ask post_only =
    reject_if (not (str_eq rules.status "TRADING")) ValidationKind.not_trading (
      reject_if (leb_ℤ rules.quantity_step (pos 0)) ValidationKind.quantity_step_not_positive (
        reject_if (leb_ℤ rules.tick_size (pos 0)) ValidationKind.tick_size_not_positive (
          reject_if (post_only && not (supports_gtx rules)) ValidationKind.post_only_unsupported (
            require_multiple quantity rules.quantity_step ValidationKind.quantity_step_violation (
              require_multiple price rules.tick_size ValidationKind.tick_size_violation (
                reject_if (post_only && is_buy side && leb_ℤ best_ask price)
                  ValidationKind.post_only_buy_crosses
                  (reject_if (post_only && is_sell side && leb_ℤ price best_bid)
                    ValidationKind.post_only_sell_crosses
                    (validate_quantity quantity price rules))))))))

unfoldable pub validate_child_order_safety :
    Decimal
    → Decimal
    → Side
    → SymbolRules
    → Decimal
    → Decimal
    → Bool
    → Decimal
    → Decimal
    → Result (Unit {0})
validate_child_order_safety quantity price side rules best_bid best_ask post_only lower upper =
    elim (validate_price_bounds side price lower upper) [
      | ok _ ↦ validate_order_shape quantity price side rules best_bid best_ask post_only
      | raised e ↦ raised e
    ]

unfoldable pub check_exposure_invariant : Exposure → Decimal → Decimal → Decimal → Result (Unit {0})
check_exposure_invariant exposure new_child_quantity target permitted_tolerance =
    reject_if (ltb_ℤ permitted_tolerance (pos 0)) ValidationKind.negative_tolerance (
      reject_if
        (ltb_ℤ (target +ℤ permitted_tolerance)
          (exposure.confirmed_filled_quantity +ℤ reserved_exposure exposure +ℤ new_child_quantity))
        ValidationKind.exceeds_target (ok tt))
