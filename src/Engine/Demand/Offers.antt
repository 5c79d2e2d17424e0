-- ===== src/Engine/Demand/Offers.antt =====
-- What `_build_child_demand_locked` of src/execution/engine.py lets out.
use interview_assignment.Base.{
  Bool, true, false, ◌≡◌, refl, sym, ap, ◌∙◌, inl, inr, Option, none, some, arith, if◌then◌else◌,
  Bool-cases, Decimal, ok, pure, ◌>>◌, ◌>>=◌, lift, after_ok, subst, not, pos, leb_ℤ, ◌<ℤ◌,
}
use interview_assignment.Execution.Models.{Side, ExecutionRequest, SymbolRules, MarketSnapshot}
use interview_assignment.Exchanges.{ExchangeAdapter}
use interview_assignment.Engine.Exposure.{ExposureTracker}
use interview_assignment.Engine.Session.{Session, Action, on_record, ask, edit, read_clock, inspect}
use interview_assignment.Engine.Record.{ExecutionRecord, require_exposure_tracker}
use interview_assignment.Risk.Validation.Safety.{IsSafeOrder}
use interview_assignment.Engine.Demand.Safety.{validate_demand-IsSafeOrder}
use interview_assignment.Engine.Demand.{
  build_child_demand, note_arrival, demanded_quantity, rounded_price, use_aggressive_deadline_price,
  Demand, validate_demand,
}

-- The pieces of `_build_child_demand_locked` after each of its calls.
module _ (a : ExchangeAdapter) where
  abbrev demanded :
      Decimal → SymbolRules → MarketSnapshot → ExecutionRecord → Decimal → Decimal → Demand
  demanded now rules market r quantity price = record {
    quantity = quantity;
    price = price;
    post_only = not (use_aggressive_deadline_price now r);
    market_bid = market.bid;
    market_ask = market.ask;
  }

  abbrev price_rest :
      Decimal
      → SymbolRules
      → MarketSnapshot
      → ExecutionRecord
      → Decimal
      → Decimal
      → Action a (Option Demand)
  price_rest now rules market r quantity price =
      on_record (validate_demand now rules (demanded now rules market r quantity price))

  abbrev quantity_rest :
      Decimal → SymbolRules → MarketSnapshot → ExecutionRecord → Decimal → Action a (Option Demand)
  quantity_rest now rules market r quantity = if leb_ℤ quantity (pos 0) then pure none else (do
    price ← lift (rounded_price r.side market rules (not (use_aggressive_deadline_price now r)))
    price_rest now rules market r quantity price)

  abbrev rules_rest :
      ExposureTracker → MarketSnapshot → ExecutionRecord → SymbolRules → Action a (Option Demand)
  rules_rest t market r rules = do
    now ← read_clock
    quantity ← lift (demanded_quantity now r t rules)
    quantity_rest now rules market r quantity

  abbrev market_rest : ExposureTracker → ExecutionRecord → MarketSnapshot → Action a (Option Demand)
  market_rest t r market = do
    edit (note_arrival market)
    rules ← ask (a.get_symbol_rules r.request.symbol)
    rules_rest t market r rules

  abbrev tracker_rest : ExposureTracker → Action a (Option Demand)
  tracker_rest t = do
    r ← inspect (λ r. r)
    market ← ask (a.get_best_bid_ask r.request.symbol)
    market_rest t r market

-- A demand whose order is safe against this quote and these rules.
pub record IsSafeDemand (side : Side) (request : ExecutionRequest) (market : MarketSnapshot)
    (rules : SymbolRules) (d : Demand) : Type 0 where
  pub bid : d.market_bid ≡ market.bid
  pub best_ask : d.market_ask ≡ market.ask
  pub positive : pos 0 <ℤ d.quantity
  pub safe :
      IsSafeOrder d.quantity d.price side rules market.bid market.ask d.post_only
        request.target_price_lower request.target_price_upper

-- The same, against what the exchange answers in this world.
pub record IsSafeNow (a : ExchangeAdapter) (world : a.World) (side : Side)
    (request : ExecutionRequest) (d : Demand) : Type 0 where
  pub market : MarketSnapshot
  pub rules : SymbolRules
  pub quoted : (a.get_best_bid_ask request.symbol world).0 ≡ ok market
  pub ruled :
      (a.get_symbol_rules request.symbol (a.get_best_bid_ask request.symbol world).1).0 ≡ ok rules
  pub safe_demand : IsSafeDemand side request market rules d

move_to :
    (P : Side → ExecutionRequest → Type 0) (r r' : ExecutionRecord)
    → r'.side ≡ r.side
    → r'.request ≡ r.request
    → P r'.side r'.request
    → P r.side r.request
move_to P r r' side request h = subst (λ x. P r.side x) request (subst (λ x. P x r'.request) side h)

kept_by_arrival :
    (market : MarketSnapshot) (r : ExecutionRecord)
    → ((note_arrival market r).side ≡ r.side) × ((note_arrival market r).request ≡ r.request)
unfolding note_arrival
kept_by_arrival market r = (ground arith, ground arith)

kept_by_tracker :
    (r : ExecutionRecord)
    → ((require_exposure_tracker r).1.side ≡ r.side)
      × ((require_exposure_tracker r).1.request ≡ r.request)
unfolding require_exposure_tracker
kept_by_tracker r = (ground arith, ground arith)

no_demand : {a : ExchangeAdapter} (s : Session a) (d : Demand) → (pure none s).0 ≡ ok (some d) → ⊥
no_demand s d h = ground arith

not_empty : (q : Decimal) → leb_ℤ q (pos 0) ≡ false → pos 0 <ℤ q
not_empty q h = ground arith

module _ (a : ExchangeAdapter) (d : Demand) (r : ExecutionRecord) (market : MarketSnapshot)
    (rules : SymbolRules) where
  from_price :
      (now quantity price : Decimal) (s : Session a)
      → pos 0 <ℤ quantity
      → (price_rest a now rules market r quantity price s).0 ≡ ok (some d)
      → IsSafeDemand s.execution.side s.execution.request market rules d
  from_price now quantity price s p h =
      let e = demanded a now rules market r quantity price in
      let (same, safe) = validate_demand-IsSafeOrder now rules e d s.execution h in
      subst (λ (x : Demand). IsSafeDemand s.execution.side s.execution.request market rules x)
        (sym same) (record { bid = refl; best_ask = refl; positive = p; safe = safe })

  from_quantity :
      (now quantity : Decimal) (s : Session a)
      → (quantity_rest a now rules market r quantity s).0 ≡ ok (some d)
      → IsSafeDemand s.execution.side s.execution.request market rules d
  from_quantity now quantity s h =
      let price = rounded_price r.side market rules (not (use_aggressive_deadline_price now r)) in
      let last = lift price >>= price_rest a now rules market r quantity in
      let chosen : (b : Bool)
          → leb_ℤ quantity (pos 0) ≡ b
          → (quantity_rest a now rules market r quantity s).0
            ≡ ((if b then pure none else last) s).0 =
        λ b e. ap (λ (b : Bool). ((if b then pure none else last) s).0) e in
      elim (Bool-cases (leb_ℤ quantity (pos 0))) [
        | inl empty ↦ absurd (no_demand s d (sym (chosen true empty) ∙ h))
        | inr more ↦
            let out = sym (chosen false more) ∙ h in
            let (p, e, same) =
              after_ok (lift price) (price_rest a now rules market r quantity) s out in
            from_price now quantity p s (not_empty quantity more) (ap (λ x. x.0) (sym same) ∙ out)
      ]

  from_rules :
      (t : ExposureTracker) (s : Session a)
      → (rules_rest a t market r rules s).0 ≡ ok (some d)
      → IsSafeDemand s.execution.side s.execution.request market rules d
  from_rules t s h =
      let now = a.monotonic s.world in
      let (quantity, e, same) =
        after_ok (lift (demanded_quantity now r t rules)) (quantity_rest a now rules market r) s
          h in
      from_quantity now quantity s (ap (λ x. x.0) (sym same) ∙ h)

module _ (a : ExchangeAdapter) (d : Demand) where
  from_market :
      (t : ExposureTracker) (r : ExecutionRecord) (market : MarketSnapshot) (s : Session a)
      → (market_rest a t r market s).0 ≡ ok (some d)
      → (rules : SymbolRules) × ((a.get_symbol_rules r.request.symbol s.world).0 ≡ ok rules)
        × IsSafeDemand s.execution.side s.execution.request market rules d
  from_market t r market s h =
      let s' : Session a = record s { execution = note_arrival market s.execution } in
      let (rules, e, same) =
        after_ok (ask (a.get_symbol_rules r.request.symbol)) (rules_rest a t market r) s' h in
      let out =
        from_rules a d r market rules t (ask (a.get_symbol_rules r.request.symbol) s').1
          (ap (λ x. x.0) (sym same) ∙ h) in
      let (side, request) = kept_by_arrival market s.execution in
      (
        rules,
        e,
        move_to (λ x y. IsSafeDemand x y market rules d) s.execution
            (note_arrival market s.execution) side request out,
      )

  from_tracker :
      (t : ExposureTracker) (s : Session a)
      → (tracker_rest a t s).0 ≡ ok (some d)
      → IsSafeNow a s.world s.execution.side s.execution.request d
  from_tracker t s h =
      let call = ask (a.get_best_bid_ask s.execution.request.symbol) in
      let (market, e, same) = after_ok call (market_rest a t s.execution) s h in
      let (rules, e', safe) =
        from_market t s.execution market (call s).1 (ap (λ x. x.0) (sym same) ∙ h) in
      record { market = market; rules = rules; quoted = e; ruled = e'; safe_demand = safe }

  -- A demand that `_build_child_demand_locked` gives out is safe against the quote and the rules
  -- that the exchange answers with in that call: its quantity is positive, the request's price band
  -- is not empty and the price is not above it for a buy and not below it for a sell, the symbol
  -- trades, quantity and price are whole numbers of positive steps, a post-only order is supported
  -- and does not cross that quote, and the exchange's minimum quantity and notional are met. The
  -- demand carries that quote's bid and ask.
  pub build_child_demand-IsSafeNow :
      (s : Session a)
      → (build_child_demand a s).0 ≡ ok (some d)
      → IsSafeNow a s.world s.execution.side s.execution.request d
  unfolding build_child_demand
  build_child_demand-IsSafeNow s h =
      let (t, e, same) = after_ok (on_record require_exposure_tracker) (tracker_rest a) s h in
      let s' = (on_record require_exposure_tracker s).1 in
      let (side, request) = kept_by_tracker s.execution in
      move_to (λ x y. IsSafeNow a s.world x y d) s.execution s'.execution side request
        (from_tracker t s' (ap (λ x. x.0) (sym same) ∙ h))
