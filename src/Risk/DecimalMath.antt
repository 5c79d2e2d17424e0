-- ===== src/Risk/DecimalMath.antt =====
-- src/risk/decimal_math.py: rounding to steps and ticks. A quotient `value / step` of two values
-- below 10^14 quanta differs from every integer by at least 10^-14 or not at all, so the 28 digits
-- of the decimal context never move it across an integer: its floor and ceiling are exact.
pub mod Steps
use interview_assignment.Base.{
  ℕ, zero, suc, ◌+◌, ◌-◌, ◌*◌, ◌/◌, ◌%◌, ◌≤◌, ◌<◌, String, ◌≡◌, refl, sym, ap, ◌∙◌, ◌≢◌, ◌↔◌, ◌⊎◌,
  inl, inr, Bool, true, false, ◌&&◌, ◌||◌, not, Option, none, some, List, [], ◌∷◌, ◌++◌, map, arith,
  ltb, leb, ◌==◌, if◌then◌else◌, ltb→lt, leb→le, ==_iff, Bool-cases, Option-cases, is_some,
  or_default, ℤ, pos, negsuc, Decimal, pos_part, neg_part, ◌+ℤ◌, ◌-ℤ◌, ◌*ℤ◌, ◌≤ℤ◌, ◌<ℤ◌, ltb_ℤ,
  leb_ℤ, eq_ℤ, int_laws, min_ℤ, max_ℤ, abs_ℤ, neg_ℤ, length, get_elem?, set, remove_at, any, All,
  Text, text_eq, text_eq_iff, text_eq_refl, Exception, ValidationKind, Result, ok, raised, Exec,
  pure, raise, lift, gets, modify, raise_if, ◌>>=◌, ◌>>◌, returns,
}
use interview_assignment.Execution.Models.{Side, is_buy}

-- Floor and ceiling of `a / b` for a positive divisor.
abbrev floor_div : ℤ → ℕ → ℤ
floor_div (pos n) b = pos (n / b)
floor_div (negsuc n) b = negsuc (n / b)

abbrev ceil_div : ℤ → ℕ → ℤ
ceil_div (pos n) b = pos ((n + (b - 1)) / b)
ceil_div (negsuc n) b = neg_ℤ (pos (suc n / b))

pub data Rounding : Type 0 where
  round_floor round_ceiling : Rounding

-- `(a / b).to_integral_value(rounding=mode)`. Decimal raises on a zero divisor.
unfoldable pub to_integral : Rounding → ℤ → ℤ → Result ℤ
to_integral mode a (pos zero) = raised Exception.division_by_zero
to_integral Rounding.round_floor a (pos (suc k)) = ok (floor_div a (suc k))
to_integral Rounding.round_ceiling a (pos (suc k)) = ok (ceil_div a (suc k))
to_integral Rounding.round_floor a (negsuc k) = ok (floor_div (neg_ℤ a) (suc k))
to_integral Rounding.round_ceiling a (negsuc k) = ok (ceil_div (neg_ℤ a) (suc k))

-- `(a / b).to_integral_value(rounding=mode) * b`
unfoldable pub round_to : Rounding → ℤ → ℤ → Result ℤ
round_to mode a b = elim (to_integral mode a b) [ ok n ↦ ok (n *ℤ b) | raised e ↦ raised e ]

unfoldable pub floor_to_step : Decimal → Decimal → Result Decimal
floor_to_step value step =
    if ltb_ℤ value (pos 0)
    then raised Exception.value_error
    else round_to Rounding.round_floor value step

unfoldable pub ceil_to_step : Decimal → Decimal → Result Decimal
ceil_to_step value step =
    if ltb_ℤ value (pos 0)
    then raised Exception.value_error
    else round_to Rounding.round_ceiling value step

-- The rounding that `round_price` picks.
abbrev pub price_rounding : Side → Bool → Rounding
price_rounding side passive =
    if passive
    then if is_buy side then Rounding.round_floor else Rounding.round_ceiling
    else if is_buy side
    then Rounding.round_ceiling
    else Rounding.round_floor

unfoldable pub round_price : Decimal → Decimal → Side → Bool → Result Decimal
round_price price tick_size side passive = round_to (price_rounding side passive) price tick_size
