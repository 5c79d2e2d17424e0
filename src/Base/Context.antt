-- ===== src/Base/Context.antt =====
-- Python's decimal context of 28 significant digits, rounding half to even, for values that are not
-- negative. Quotients and products of the TWAP schedule are rounded by it.
use Prim.Native.Nat.{ℕ, zero, suc, ◌+◌, ◌-◌, ◌*◌, ◌/◌, ◌%◌, ◌^◌}
use mathlib.Core.Path.{◌≡◌, refl}
use mathlib.Core.Bool.{Bool, true, false, ◌&&◌, ◌||◌}
use interview_assignment.Base.Tests.{ltb, leb, ◌==◌, if◌then◌else◌}
use interview_assignment.Base.Int.{ℤ, pos_part, neg_part}

-- coefficient / 10 ^ exponent
pub record Rounded : Type 0 where
  pub coefficient : ℕ
  pub exponent : ℕ

digits_within : ℕ → ℕ → ℕ
digits_within zero n = 1
digits_within (suc fuel) n = elim (ltb n 10) [
  | true ↦ 1
  | false ↦ suc (digits_within fuel (n / 10))
]

-- The number of decimal digits; a number is fuel enough for its own.
unfoldable pub digit_count : ℕ → ℕ
unfolding digits_within
digit_count n = digits_within n n

-- The part of the rounding that knows how many digits to drop: `scaled / den` has 28 + drop digits.
round_digits : ℕ → ℕ → ℕ → ℕ → Rounded
round_digits scaled den shift drop =
    let unit = den * 10 ^ drop in
    let quotient = scaled / unit in
    let twice = 2 * (scaled % unit) in
    let up = ltb unit twice || (unit == twice && quotient % 2 == 1) in
    let digits = if up then quotient + 1 else quotient in
    if leb drop shift
    then record { coefficient = digits; exponent = shift - drop }
    else record { coefficient = digits * 10 ^ (drop - shift); exponent = 0 }

-- `num / den`, rounded to 28 significant digits, half to even.
unfoldable pub round_quotient : ℕ → ℕ → Rounded
unfolding round_digits digit_count
round_quotient num den =
    let shift = 28 + digit_count den in
    let scaled = num * 10 ^ shift in
    if num == 0
    then record { coefficient = 0; exponent = 0 }
    else round_digits scaled den shift (digit_count (scaled / den) - 28)

-- A non-negative integer number of quanta of 10 ^ -exponent.
abbrev pub dec_of : ℕ → ℕ → Rounded
dec_of exponent n = record { coefficient = n; exponent = exponent }

unfoldable pub dec_mul : Rounded → Rounded → Rounded
unfolding round_quotient
dec_mul x y = round_quotient (x.coefficient * y.coefficient) (10 ^ (x.exponent + y.exponent))

-- The divisor is not zero.
unfoldable pub dec_div : Rounded → Rounded → Rounded
unfolding round_quotient
dec_div x y = round_quotient (x.coefficient * 10 ^ y.exponent) (y.coefficient * 10 ^ x.exponent)

-- `max(x - q, 0)` for a number `q` of quanta of 10 ^ -exponent.
unfoldable pub dec_minus : Rounded → ℕ → ℤ → Rounded
unfolding round_quotient
dec_minus x exponent q =
    round_quotient
      (x.coefficient * 10 ^ exponent + neg_part q * 10 ^ x.exponent - pos_part q * 10 ^ x.exponent)
      (10 ^ (x.exponent + exponent))

unfoldable pub dec_leb : Rounded → Rounded → Bool
dec_leb x y = leb (x.coefficient * 10 ^ y.exponent) (y.coefficient * 10 ^ x.exponent)

-- `int(x)`, and the next integer up.
unfoldable pub dec_floor : Rounded → ℕ
dec_floor x = x.coefficient / 10 ^ x.exponent

unfoldable pub dec_ceil : Rounded → ℕ
dec_ceil x = (x.coefficient + (10 ^ x.exponent - 1)) / 10 ^ x.exponent

one_third : dec_div (dec_of 0 1) (dec_of 0 3) ≡ dec_of 28 3_333_333_333_333_333_333_333_333_333
unfolding dec_div
one_third = refl

two_thirds : dec_div (dec_of 0 2) (dec_of 0 3) ≡ dec_of 28 6_666_666_666_666_666_666_666_666_667
unfolding dec_div
two_thirds = refl
