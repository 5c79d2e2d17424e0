-- ===== src/Algorithms/Chase.antt =====
-- src/algorithms/chase.py: the price that Chase wants, and when it replaces its order.
pub mod Decisions
use interview_assignment.Base.{
  ℕ, zero, suc, ◌+◌, ◌-◌, ◌*◌, ◌/◌, ◌%◌, ◌≤◌, ◌<◌, String, ◌≡◌, refl, sym, ap, ◌∙◌, ◌≢◌, ◌↔◌, ◌⊎◌,
  inl, inr, Bool, true, false, ◌&&◌, ◌||◌, not, Option, none, some, List, [], ◌∷◌, ◌++◌, map, arith,
  ltb, leb, ◌==◌, if◌then◌else◌, ltb→lt, leb→le, ==_iff, Bool-cases, Option-cases, is_some,
  or_default, ℤ, pos, negsuc, Decimal, pos_part, neg_part, ◌+ℤ◌, ◌-ℤ◌, ◌*ℤ◌, ◌≤ℤ◌, ◌<ℤ◌, ltb_ℤ,
  leb_ℤ, eq_ℤ, int_laws, min_ℤ, max_ℤ, abs_ℤ, neg_ℤ, length, get_elem?, set, remove_at, any, All,
  Text, text_eq, text_eq_iff, text_eq_refl, Exception, ValidationKind, Result, ok, raised, Exec,
  pure, raise, lift, gets, modify, raise_if, ◌>>=◌, ◌>>◌, returns,
}
use interview_assignment.Execution.Models.{Side, is_no_action, RepricingMode}

pub data ChaseDecision : Type 0 where
  wait reprice : ChaseDecision

unfoldable pub chase_desired_price : Side → Decimal → Decimal → Bool → Result Decimal
chase_desired_price Side.no_action best_bid best_ask passive = raised Exception.value_error
chase_desired_price Side.buy best_bid best_ask passive = ok (if passive then best_bid else best_ask)
chase_desired_price Side.sell best_bid best_ask passive =
    ok (if passive then best_ask else best_bid)

-- A basis-point value is a whole number of these parts of a basis point.
abbrev pub quanta_per_bps : ℕ
quanta_per_bps = 100_000_000

-- `reprice_difference_bps(desired, active) < threshold`, multiplied out for a positive active
-- price: |desired - active| / active * 10000 < threshold.
unfoldable pub difference_below : Decimal → Decimal → Decimal → Bool
difference_below desired active threshold_bps =
    ltb_ℤ (abs_ℤ (desired -ℤ active) *ℤ pos (10000 * quanta_per_bps)) (threshold_bps *ℤ active)

unfoldable pub should_reprice :
    Side → Decimal → Decimal → Decimal → ℤ → ℤ → RepricingMode → ChaseDecision
should_reprice side active desired threshold_bps min_interval_ms elapsed_ms mode =
    if is_no_action side || ltb_ℤ elapsed_ms min_interval_ms
    then ChaseDecision.wait
    else if leb_ℤ active (pos 0)
    then ChaseDecision.wait
    else if difference_below desired active threshold_bps
    then ChaseDecision.wait
    else elim mode [
      | RepricingMode.two_sided ↦ ChaseDecision.reprice
      | RepricingMode.adverse_only ↦ elim side [
        | Side.buy ↦ if ltb_ℤ active desired then ChaseDecision.reprice else ChaseDecision.wait
        | Side.sell ↦ if ltb_ℤ desired active then ChaseDecision.reprice else ChaseDecision.wait
        | Side.no_action ↦ ChaseDecision.wait
      ]
    ]
