-- ===== src/Algorithms/Chase/Decisions.antt =====
-- When Chase replaces its order (src/algorithms/chase.py).
use interview_assignment.Base.{
  ◌*◌, ◌≡◌, refl, ◌≢◌, ◌↔◌, arith, ℤ, pos, Decimal, ◌-ℤ◌, ◌*ℤ◌, ◌≤ℤ◌, ◌<ℤ◌, abs_ℤ,
}
use interview_assignment.Execution.Models.{Side, RepricingMode}
use interview_assignment.Algorithms.Chase.{
  ChaseDecision, quanta_per_bps, difference_below, should_reprice,
}

-- The price moved against the order: up for a buy, down for a sell.
abbrev pub IsAdverse : Side → Decimal → Decimal → Type 0
IsAdverse Side.buy active desired = active <ℤ desired
IsAdverse Side.sell active desired = desired <ℤ active
IsAdverse Side.no_action active desired = ⊥

-- Why an active order is replaced.
pub record Replaces (side : Side) (active desired threshold_bps : Decimal)
    (min_interval_ms elapsed_ms : ℤ) (mode : RepricingMode) : Type 0 where
  pub tradable : side ≢ Side.no_action
  pub waited : min_interval_ms ≤ℤ elapsed_ms
  pub priced : pos 0 <ℤ active
  pub moved : threshold_bps *ℤ active ≤ℤ abs_ℤ (desired -ℤ active) *ℤ pos (10000 * quanta_per_bps)
  pub direction : mode ≡ RepricingMode.adverse_only → IsAdverse side active desired

replaces :
    (side : Side) (active desired threshold_bps : Decimal) (min_ms elapsed_ms : ℤ)
    (mode : RepricingMode)
    → should_reprice side active desired threshold_bps min_ms elapsed_ms mode
      ≡ ChaseDecision.reprice
    → Replaces side active desired threshold_bps min_ms elapsed_ms mode
unfolding should_reprice difference_below
replaces Side.buy a d t m e RepricingMode.adverse_only h = ground arith
replaces Side.sell a d t m e RepricingMode.adverse_only h = ground arith
replaces Side.no_action a d t m e RepricingMode.adverse_only h = ground arith
replaces _ a d t m e _ h = ground arith

replaced :
    (side : Side) (active desired threshold_bps : Decimal) (min_ms elapsed_ms : ℤ)
    (mode : RepricingMode)
    → Replaces side active desired threshold_bps min_ms elapsed_ms mode
    → should_reprice side active desired threshold_bps min_ms elapsed_ms mode
      ≡ ChaseDecision.reprice
unfolding should_reprice difference_below
replaced Side.no_action a d t m e _ h = absurd (h.tradable refl)
replaced Side.buy a d t m e RepricingMode.adverse_only h = ground (arith, h.direction refl)
replaced Side.sell a d t m e RepricingMode.adverse_only h = ground (arith, h.direction refl)
replaced _ a d t m e _ h = ground arith

-- Chase replaces an order exactly when there is a side to trade, the minimum interval is over, the
-- order has a positive price, the price has moved by the threshold at least, and, in adverse-only
-- mode, it has moved against the order.
pub should_reprice_exact :
    (side : Side) (active desired threshold_bps : Decimal) (min_ms elapsed_ms : ℤ)
    (mode : RepricingMode)
    → (should_reprice side active desired threshold_bps min_ms elapsed_ms mode
        ≡ ChaseDecision.reprice)
      ↔ Replaces side active desired threshold_bps min_ms elapsed_ms mode
should_reprice_exact s a d t m e mode = (replaces s a d t m e mode, replaced s a d t m e mode)
