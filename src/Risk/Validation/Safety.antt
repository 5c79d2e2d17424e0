-- ===== src/Risk/Validation/Safety.antt =====
-- Exactly which orders the checks of src/risk/validation.py let through.
use native.Mathlib.Nat.{mul-mod_left}
use text.Mathlib.Text.{◌==◌ as str_eq}
use interview_assignment.Base.{
  String, List, [], ◌∷◌, any, ◌⊎◌, inl, inr, Bool-cases, ℕ, zero, suc, ◌/◌, ◌%◌, ◌*◌, ℤ, negsuc,
  neg_ℤ, ◌≡◌, refl, ◌↔◌, Bool, true, arith, pos, Decimal, ◌*ℤ◌, ◌≤ℤ◌, ◌<ℤ◌, ok,
}
use interview_assignment.Execution.Models.{Side, SymbolRules, supports_gtx}
use interview_assignment.Risk.Validation.{
  validate_quantity, validate_price_bounds, divides, validate_order_shape,
  validate_child_order_safety,
}

-- A whole number of steps.
abbrev IsMultiple : Decimal → Decimal → Type 0
IsMultiple step value = (k : ℤ) × (value ≡ k *ℤ step)

-- One of the strings of a list.
abbrev IsListed : String → List String → Type 0
IsListed s [] = ⊥
IsListed s (t ∷ ts) = (str_eq s t ≡ true) ⊎ IsListed s ts

any-IsListed : (s : String) (ts : List String) → any (str_eq s) ts ≡ true → IsListed s ts
any-IsListed s [] h = ground arith
any-IsListed s (t ∷ ts) h = elim (Bool-cases (str_eq s t)) [
  | inl here ↦ inl here
  | inr later ↦ inr (any-IsListed s ts (ground (arith, h, later)))
]

IsListed-any : (s : String) (ts : List String) → IsListed s ts → any (str_eq s) ts ≡ true
IsListed-any s [] h = absurd h
IsListed-any s (t ∷ ts) (inl here) = ground (arith, here)
IsListed-any s (t ∷ ts) (inr later) = ground (arith, IsListed-any s ts later)

-- An order that may be sent: not past the price band on the side that hurts, on the grids, not
-- crossing if it is post-only, and not below the exchange's minimums.
pub record IsSafeOrder (quantity price : Decimal) (side : Side) (rules : SymbolRules)
    (best_bid best_ask : Decimal) (post_only : Bool) (lower upper : Decimal) : Type 0 where
  pub band : lower ≤ℤ upper
  pub not_above : side ≡ Side.buy → price ≤ℤ upper
  pub not_below : side ≡ Side.sell → lower ≤ℤ price
  pub trading : str_eq rules.status "TRADING" ≡ true
  pub step_positive : pos 0 <ℤ rules.quantity_step
  pub tick_positive : pos 0 <ℤ rules.tick_size
  pub post_only_supported : post_only ≡ true → IsListed "GTX" rules.supported_time_in_force
  pub on_step : IsMultiple rules.quantity_step quantity
  pub on_tick : IsMultiple rules.tick_size price
  pub buy_rests : post_only ≡ true → side ≡ Side.buy → price <ℤ best_ask
  pub sell_rests : post_only ≡ true → side ≡ Side.sell → best_bid <ℤ price
  pub enough : rules.min_quantity ≤ℤ quantity
  pub notional : rules.min_notional ≤ℤ quantity *ℤ price

exact_division : (n k : ℕ) → n % suc k ≡ 0 → n ≡ n / suc k * suc k
exact_division n k h = ground arith

divides-IsMultiple :
    (step value : Decimal) → pos 0 <ℤ step → divides step value ≡ true → IsMultiple step value
unfolding divides ◌*ℤ◌ neg_ℤ
divides-IsMultiple (pos zero) value p h = absurd (ground arith)
divides-IsMultiple (pos (suc k)) (pos n) p h = (pos (n / suc k), ground (arith, exact_division n k))
divides-IsMultiple (pos (suc k)) (negsuc n) p h =
    (neg_ℤ (pos (suc n / suc k)), ground (arith, exact_division (suc n) k))
divides-IsMultiple (negsuc k) value p h = absurd (ground arith)

multiple_mod : (m k : ℕ) → (m * suc k) % suc k ≡ 0
multiple_mod m k = mul-mod_left m (suc k)

IsMultiple-divides :
    (step value : Decimal) → pos 0 <ℤ step → IsMultiple step value → divides step value ≡ true
unfolding divides ◌*ℤ◌ neg_ℤ
IsMultiple-divides (pos zero) value p (m, e) = absurd (ground arith)
IsMultiple-divides (pos (suc k)) value p (pos m, e) = rw e (ground (arith, multiple_mod m k))
IsMultiple-divides (pos (suc k)) value p (negsuc m, e) =
    rw e (ground (arith, multiple_mod (suc m) k))
IsMultiple-divides (negsuc k) value p h = absurd (ground arith)

-- The tests of the validation, with the grid as the code tests it.
record Passes (quantity price : Decimal) (side : Side) (rules : SymbolRules)
    (best_bid best_ask : Decimal) (post_only : Bool) (lower upper : Decimal) : Type 0 where
  band : lower ≤ℤ upper
  not_above : side ≡ Side.buy → price ≤ℤ upper
  not_below : side ≡ Side.sell → lower ≤ℤ price
  trading : str_eq rules.status "TRADING" ≡ true
  step_positive : pos 0 <ℤ rules.quantity_step
  tick_positive : pos 0 <ℤ rules.tick_size
  post_only_supported : post_only ≡ true → supports_gtx rules ≡ true
  on_step : divides rules.quantity_step quantity ≡ true
  on_tick : divides rules.tick_size price ≡ true
  buy_rests : post_only ≡ true → side ≡ Side.buy → price <ℤ best_ask
  sell_rests : post_only ≡ true → side ≡ Side.sell → best_bid <ℤ price
  enough : rules.min_quantity ≤ℤ quantity
  notional : rules.min_notional ≤ℤ quantity *ℤ price

module _ (quantity price : Decimal) (side : Side) (rules : SymbolRules) (bid ask : Decimal)
    (post_only : Bool) (lower upper : Decimal) where
  from_tests :
      Passes quantity price side rules bid ask post_only lower upper
      → IsSafeOrder quantity price side rules bid ask post_only lower upper
  from_tests h = record {
    band = h.band;
    not_above = h.not_above;
    not_below = h.not_below;
    trading = h.trading;
    step_positive = h.step_positive;
    tick_positive = h.tick_positive;
    post_only_supported =
        λ p. any-IsListed "GTX" rules.supported_time_in_force (h.post_only_supported p);
    on_step = divides-IsMultiple rules.quantity_step quantity h.step_positive h.on_step;
    on_tick = divides-IsMultiple rules.tick_size price h.tick_positive h.on_tick;
    buy_rests = h.buy_rests;
    sell_rests = h.sell_rests;
    enough = h.enough;
    notional = h.notional;
  }

  to_tests :
      IsSafeOrder quantity price side rules bid ask post_only lower upper
      → Passes quantity price side rules bid ask post_only lower upper
  to_tests h = record {
    band = h.band;
    not_above = h.not_above;
    not_below = h.not_below;
    trading = h.trading;
    step_positive = h.step_positive;
    tick_positive = h.tick_positive;
    post_only_supported =
        λ p. IsListed-any "GTX" rules.supported_time_in_force (h.post_only_supported p);
    on_step = IsMultiple-divides rules.quantity_step quantity h.step_positive h.on_step;
    on_tick = IsMultiple-divides rules.tick_size price h.tick_positive h.on_tick;
    buy_rests = h.buy_rests;
    sell_rests = h.sell_rests;
    enough = h.enough;
    notional = h.notional;
  }

accepted :
    (quantity price : Decimal) (side : Side) (rules : SymbolRules) (bid ask : Decimal)
    (post_only : Bool) (lower upper : Decimal)
    → validate_child_order_safety quantity price side rules bid ask post_only lower upper ≡ ok tt
    → Passes quantity price side rules bid ask post_only lower upper
unfolding validate_child_order_safety validate_price_bounds validate_order_shape validate_quantity
accepted quantity price Side.buy rules bid ask post_only lower upper h = ground arith
accepted quantity price _ rules bid ask post_only lower upper h = ground arith

accepts :
    (quantity price : Decimal) (side : Side) (rules : SymbolRules) (bid ask : Decimal)
    (post_only : Bool) (lower upper : Decimal)
    → Passes quantity price side rules bid ask post_only lower upper
    → validate_child_order_safety quantity price side rules bid ask post_only lower upper ≡ ok tt
unfolding validate_child_order_safety validate_price_bounds validate_order_shape validate_quantity
accepts quantity price Side.buy rules bid ask post_only lower upper h =
    ground (arith, h.not_above refl)
accepts quantity price Side.sell rules bid ask post_only lower upper h =
    ground (arith, h.not_below refl)
accepts quantity price Side.no_action rules bid ask post_only lower upper h = ground arith

-- A child order passes validation exactly when it lies in the price band on the side that hurts,
-- the symbol trades, quantity and price are multiples of positive steps, a post-only order is
-- supported and does not cross the book, and minimum quantity and notional are met.
pub validation_exact :
    (quantity price : Decimal) (side : Side) (rules : SymbolRules) (bid ask : Decimal)
    (post_only : Bool) (lower upper : Decimal)
    → (validate_child_order_safety quantity price side rules bid ask post_only lower upper ≡ ok tt)
      ↔ IsSafeOrder quantity price side rules bid ask post_only lower upper
validation_exact q p side rules bid ask po lo up = (
  λ h. from_tests q p side rules bid ask po lo up (accepted q p side rules bid ask po lo up h),
  λ h. accepts q p side rules bid ask po lo up (to_tests q p side rules bid ask po lo up h),
)
