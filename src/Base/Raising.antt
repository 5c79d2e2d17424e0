-- ===== src/Base/Raising.antt =====
-- Methods that change an object and may raise. What was written before a raise stays written, so
-- the state comes back beside the exception.
use mathlib.Core.Path.{◌≡◌, refl, ap}
use Prim.Native.String.{String}
use mathlib.Core.Bool.{Bool, true, false}

-- The reasons for which risk/validation.py and the tracker raise ValidationError. The engine reads
-- them back from the exception's text; each constructor stands for one text.
pub data ValidationKind : Type 0 where
  below_min_quantity below_min_notional : ValidationKind
  bounds_crossed exceeds_upper_bound below_lower_bound : ValidationKind
  step_not_positive not_trading quantity_step_not_positive tick_size_not_positive : ValidationKind
  post_only_unsupported quantity_step_violation tick_size_violation : ValidationKind
  post_only_buy_crosses post_only_sell_crosses : ValidationKind
  negative_tolerance exceeds_target negative_quantity : ValidationKind

-- The exceptions of the program, with the text that `str(exc)` gives.
pub data Exception : Type 0 where
  venue_ban_hard_stop : String → Exception
  order_create_timeout : String → Exception
  order_cancel_timeout : String → Exception
  order_rejected : String → Exception
  terminal_order_rejected : String → Exception
  exchange_rate_limited : String → Exception
  no_fresh_market_data : Exception
  validation_error : ValidationKind → Exception
  invalid_state_transition : Exception
  unknown_execution : Exception
  value_error : Exception
  division_by_zero : Exception
  other_exception : String → Exception

pub data Result {ℓ} (A : Type ℓ) : Type ℓ where
  ok : A → Result A
  raised : Exception → Result A

abbrev pub Exec {ℓ κ} : Type ℓ → Type κ → Type (ℓ ⊔ κ)
Exec S A = S → Result A × S

module _ {ℓ κ} {S : Type ℓ} {A : Type κ} where
  abbrev pub pure : A → Exec S A
  pure a s = (ok a, s)

  abbrev pub raise : Exception → Exec S A
  raise e s = (raised e, s)

  abbrev pub lift : Result A → Exec S A
  lift r s = (r, s)

  abbrev pub gets : (S → A) → Exec S A
  gets f s = (ok (f s), s)

abbrev pub modify {ℓ} : {S : Type ℓ} → (S → S) → Exec S (Unit {0})
modify f s = (ok tt, f s)

abbrev pub raise_if {ℓ} : {S : Type ℓ} → Bool → Exception → Exec S (Unit {0})
raise_if true e s = (raised e, s)
raise_if false e s = (ok tt, s)

infixl 5 ◌>>=◌ ◌>>◌
abbrev pub ◌>>=◌ {ℓ κ ρ} :
    {S : Type ℓ} {A : Type κ} {B : Type ρ} → Exec S A → (A → Exec S B) → Exec S B
◌>>=◌ m f s = let (r, s') = m s in elim r [ ok a ↦ f a s' | raised e ↦ (raised e, s') ]

abbrev pub ◌>>◌ {ℓ κ} : {S : Type ℓ} {B : Type κ} → Exec S (Unit {0}) → Exec S B → Exec S B
m >> k = m >>= λ _. k

-- What follows a call that returned, and what a returned result says of the parts.
module _ {S : Type 0} {A : Type 0} {B : Type 0} (m : Exec S A) (f : A → Exec S B) where
  pub after_call : (s s' : S) (x : A) → m s ≡ (ok x, s') → (m >>= f) s ≡ f x s'
  after_call s s' x e = ap (λ y. elim y.0 [ ok a ↦ f a y.1 | raised e ↦ (raised e, y.1) ]) e

  pub after_ok :
      (s : S) {b : B}
      → ((m >>= f) s).0 ≡ ok b
      → (a : A) × ((m s).0 ≡ ok a) × ((m >>= f) s ≡ f a (m s).1)
  after_ok s {b} h = by_value (m s).0 refl
    where
      branch : Result A → Result B × S
      branch x = elim x [ ok a ↦ f a (m s).1 | raised e ↦ (raised e, (m s).1) ]

      by_value :
          (x : Result A) → (m s).0 ≡ x → (a : A) × ((m s).0 ≡ ok a) × ((m >>= f) s ≡ f a (m s).1)
      by_value (ok a) e = (a, e, ap branch e)
      by_value (raised x) e = absurd (impossible (ap (λ y. (branch y).0) e))
        where
          impossible : ((m >>= f) s).0 ≡ raised x → ⊥
          impossible k = cc (h, k)

-- Whether a call returned.
abbrev pub returns {ℓ} : {A : Type ℓ} → Result A → Bool
returns (ok _) = true
returns (raised _) = false

-- `str(exc)`, where the engine keeps it; a ValidationError's text is read back by its kind.
abbrev pub exception_text : Exception → String
exception_text (Exception.venue_ban_hard_stop m) = m
exception_text (Exception.order_create_timeout m) = m
exception_text (Exception.order_cancel_timeout m) = m
exception_text (Exception.order_rejected m) = m
exception_text (Exception.terminal_order_rejected m) = m
exception_text (Exception.exchange_rate_limited m) = m
exception_text (Exception.other_exception m) = m
exception_text _ = ""
