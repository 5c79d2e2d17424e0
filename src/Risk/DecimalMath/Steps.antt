-- ===== src/Risk/DecimalMath/Steps.antt =====
-- What src/risk/decimal_math.py promises: the result is on the grid, on the right side of the value
-- and less than a step away.
use interview_assignment.Base.{
  ℕ, suc, ◌/◌, ◌≡◌, refl, Bool, true, false, not, arith, ℤ, pos, negsuc, Decimal, ◌+ℤ◌, ◌*ℤ◌, ◌≤ℤ◌,
  ◌<ℤ◌, neg_ℤ, Exception, ok, raised,
}
use interview_assignment.Execution.Models.{Side, is_buy}
use interview_assignment.Risk.DecimalMath.{
  Rounding, to_integral, round_to, floor_to_step, round_price, floor_div, ceil_div,
}

-- The result of rounding `a` to multiples of `suc k`: `m` steps from zero, on the side of `a` that
-- the mode asks for, and less than one step from it.
pub record IsRounded (mode : Rounding) (a : ℤ) (k : ℕ) (r : ℤ) : Type 0 where
  pub steps : ℤ
  pub on_grid : r ≡ steps *ℤ pos (suc k)
  pub below : mode ≡ Rounding.round_floor → (r ≤ℤ a) × (a <ℤ r +ℤ pos (suc k))
  pub above : mode ≡ Rounding.round_ceiling → (a ≤ℤ r) × (r <ℤ a +ℤ pos (suc k))

floor_below :
    (a : ℤ) (k : ℕ)
    → (floor_div a (suc k) *ℤ pos (suc k) ≤ℤ a)
      × (a <ℤ floor_div a (suc k) *ℤ pos (suc k) +ℤ pos (suc k))
unfolding ◌*ℤ◌ ◌+ℤ◌ neg_ℤ
floor_below (pos n) k = ground arith
floor_below (negsuc n) k = ground arith

ceil_above :
    (a : ℤ) (k : ℕ)
    → (a ≤ℤ ceil_div a (suc k) *ℤ pos (suc k))
      × (ceil_div a (suc k) *ℤ pos (suc k) <ℤ a +ℤ pos (suc k))
unfolding ◌*ℤ◌ ◌+ℤ◌ neg_ℤ
ceil_above (pos n) k = ground arith
ceil_above (negsuc n) k = ground arith

pub floored :
    (a : ℤ) (k : ℕ)
    → (r : ℤ) × (round_to Rounding.round_floor a (pos (suc k)) ≡ ok r)
      × IsRounded Rounding.round_floor a k r
unfolding round_to to_integral
floored a k = (
  floor_div a (suc k) *ℤ pos (suc k),
  refl,
  record {
    steps = floor_div a (suc k);
    on_grid = refl;
    below = λ _. floor_below a k;
    above = λ h. cc;
  },
)

pub ceiled :
    (a : ℤ) (k : ℕ)
    → (r : ℤ) × (round_to Rounding.round_ceiling a (pos (suc k)) ≡ ok r)
      × IsRounded Rounding.round_ceiling a k r
unfolding round_to to_integral
ceiled a k = (
  ceil_div a (suc k) *ℤ pos (suc k),
  refl,
  record {
    steps = ceil_div a (suc k);
    on_grid = refl;
    below = λ h. cc;
    above = λ _. ceil_above a k;
  },
)

-- Rounding a price to a positive tick always returns a whole number of ticks less than one tick
-- away. A passive buy and an aggressive sell are never rounded up, a passive sell and an aggressive
-- buy never down.
pub round_price_directed :
    (price : Decimal) (k : ℕ) (side : Side) (passive : Bool)
    → (r : ℤ) × (round_price price (pos (suc k)) side passive ≡ ok r)
      × ((m : ℤ) × (r ≡ m *ℤ pos (suc k)))
      × (is_buy side ≡ passive → (r ≤ℤ price) × (price <ℤ r +ℤ pos (suc k)))
      × (is_buy side ≡ not passive → (price ≤ℤ r) × (r <ℤ price +ℤ pos (suc k)))
unfolding round_price
round_price_directed price k Side.buy true =
    let (r, e, h) = floored price k in (r, e, (h.steps, h.on_grid), λ _. h.below refl, λ x. cc)
round_price_directed price k Side.buy false =
    let (r, e, h) = ceiled price k in (r, e, (h.steps, h.on_grid), λ x. cc, λ _. h.above refl)
round_price_directed price k _ true =
    let (r, e, h) = ceiled price k in (r, e, (h.steps, h.on_grid), λ x. cc, λ _. h.above refl)
round_price_directed price k _ false =
    let (r, e, h) = floored price k in (r, e, (h.steps, h.on_grid), λ _. h.below refl, λ x. cc)

-- Flooring to a positive step refuses a negative value. Any other value is floored to the largest
-- multiple of the step that is not above it, which is never negative.
pub floor_to_step_greatest :
    (value : Decimal) (k : ℕ)
    → (value <ℤ pos 0 → floor_to_step value (pos (suc k)) ≡ raised Exception.value_error)
      × (pos 0 ≤ℤ value
          → (r m : ℤ) × (floor_to_step value (pos (suc k)) ≡ ok r)
            × (r ≡ m *ℤ pos (suc k))
            × (pos 0 ≤ℤ r)
            × (r ≤ℤ value)
            × (value <ℤ r +ℤ pos (suc k)))
unfolding floor_to_step round_to to_integral ◌*ℤ◌
floor_to_step_greatest (pos n) k =
    let (below, near) = floor_below (pos n) k in
    (
      λ h. absurd (omega arith),
      λ h. (
        pos (n / suc k) *ℤ pos (suc k),
        pos (n / suc k),
        ground arith,
        refl,
        ground arith,
        below,
        near,
      ),
    )
floor_to_step_greatest (negsuc n) k = (λ h. ground arith, λ h. absurd (omega arith))
