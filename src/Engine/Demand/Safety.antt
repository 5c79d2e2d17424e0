-- ===== src/Engine/Demand/Safety.antt =====
-- What the validation in `_build_child_demand_locked` of src/execution/engine.py lets out.
use interview_assignment.Base.{
  ◌≡◌, refl, sym, ap, ◌∙◌, inl, inr, Option, none, some, arith, if◌then◌else◌, Bool-cases, Decimal,
  Exception, Result, ok, raised, pure, ◌>>◌,
}
use interview_assignment.Execution.Models.{SymbolRules}
use interview_assignment.Engine.Record.{ExecutionRecord, Update}
use interview_assignment.Risk.Validation.{validate_child_order_safety, validate_order_shape}
use interview_assignment.Risk.Validation.Safety.{IsSafeOrder, validation_exact}
use interview_assignment.Engine.Demand.{
  Demand, price_outside_range, shape_refused, is_price_outside_range, admit_order, validate_demand,
}

-- A method that answers "no demand" answers no demand.
never_some :
    (m : Update (Unit {0})) (d : Demand) (r : ExecutionRecord)
    → ((m >> pure none) r).0 ≡ ok (some d)
    → ⊥
never_some m d r h = by_result (m r).0 (m r).1 h
  where
    by_result :
        (x : Result (Unit {0})) (r' : ExecutionRecord)
        → (elim x as (λ _. Result (Option Demand) × ExecutionRecord) [
          | ok _ ↦ (ok none, r')
          | raised e ↦ (raised e, r')
        ]).0
          ≡ ok (some d)
        → ⊥
    by_result (ok _) r' k = ground arith
    by_result (raised e) r' k = ground arith

-- What follows the validation, for its verdict and that of the order's shape alone.
abbrev decided :
    Result (Unit {0}) → Result (Unit {0}) → Decimal → SymbolRules → Demand → Update (Option Demand)
decided safety shape now rules d r = elim safety [
  | ok _ ↦ admit_order now d r
  | raised (Exception.validation_error kind) ↦
      if is_price_outside_range kind
      then (do price_outside_range now rules kind shape; pure none) r
      else (do shape_refused now rules kind; pure none) r
  | raised e ↦ (raised e, r)
]

only_passed :
    (safety shape : Result (Unit {0})) (now : Decimal) (rules : SymbolRules) (d d' : Demand)
    (r : ExecutionRecord)
    → (decided safety shape now rules d r).0 ≡ ok (some d')
    → (safety ≡ ok tt) × ((admit_order now d r).0 ≡ ok (some d'))
only_passed (ok tt) shape now rules d d' r h = (refl, h)
only_passed (raised (Exception.validation_error kind)) shape now rules d d' r h =
    absurd (elim (Bool-cases (is_price_outside_range kind)) [
      | inl outside ↦ never_some (price_outside_range now rules kind shape) d' r (
          sym (
            ap
              (λ b.
                (if b
                  then (do price_outside_range now rules kind shape; pure none) r
                  else (do shape_refused now rules kind; pure none) r).0)
              outside)
          ∙ h)
      | inr inside ↦ never_some (shape_refused now rules kind) d' r (
          sym (
            ap
              (λ b.
                (if b
                  then (do price_outside_range now rules kind shape; pure none) r
                  else (do shape_refused now rules kind; pure none) r).0)
              inside)
          ∙ h)
    ])
only_passed (raised _) shape now rules d d' r h = ground arith

admitted :
    (now : Decimal) (d d' : Demand) (r : ExecutionRecord)
    → (admit_order now d r).0 ≡ ok (some d')
    → d' ≡ d
unfolding admit_order
admitted now d d' r h = ground arith

pub validate_demand-IsSafeOrder :
    (now : Decimal) (rules : SymbolRules) (d d' : Demand) (r : ExecutionRecord)
    → (validate_demand now rules d r).0 ≡ ok (some d')
    → (d' ≡ d)
      × IsSafeOrder d.quantity d.price r.side rules d.market_bid d.market_ask d.post_only
          r.request.target_price_lower r.request.target_price_upper
unfolding validate_demand
validate_demand-IsSafeOrder now rules d d' r h =
    let lower = r.request.target_price_lower in
    let upper = r.request.target_price_upper in
    let (passed, out) =
      only_passed
        (validate_child_order_safety d.quantity d.price r.side rules d.market_bid d.market_ask
          d.post_only lower upper)
        (validate_order_shape d.quantity d.price r.side rules d.market_bid d.market_ask d.post_only)
        now rules d d' r h in
    (
      admitted now d d' r out,
      (validation_exact d.quantity d.price r.side rules d.market_bid d.market_ask d.post_only lower
            upper).0
          passed,
    )
