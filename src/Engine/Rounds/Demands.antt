-- ===== src/Engine/Rounds/Demands.antt =====
-- `_maybe_reprice_chase_locked` and `_build_child_demand_locked` of src/execution/engine.py are
-- sequences of steps.
use interview_assignment.Base.{
  String, ◌≡◌, inl, inr, true, false, Option, none, some, arith, if◌then◌else◌, Bool-cases, is_some,
  Decimal, Exception, ValidationKind, Result, ok, raised, pure, raise, lift, modify, ◌>>=◌, ◌>>◌,
}
use interview_assignment.Execution.Models.{SymbolRules, MarketSnapshot}
use interview_assignment.Execution.Orders.{ChildOrder}
use interview_assignment.Exchanges.{ExchangeAdapter}
use interview_assignment.Engine.Record.{ExecutionRecord, Update, Metric, increment_metric}
use interview_assignment.Engine.Terminal.{expire_for_validation}
use interview_assignment.Engine.Gates.{retryable_gate_blocks}
use interview_assignment.Engine.Session.{ask, edit, read_clock}
use interview_assignment.Engine.Cancel.{cancel_active_children}
use interview_assignment.Engine.Rounds.{View, view, Steps, here, IsBalanced}
use interview_assignment.Engine.Rounds.Calculus.{
  IsSound, own, of_session, chain, lifted, gets-IsSound, raise-IsSound, session_rules,
  inspect-IsSound, read_clock-IsSound, ask-IsSound,
}
use interview_assignment.Engine.Rounds.Tracker.{require_exposure_tracker-IsSound}
use interview_assignment.Engine.Rounds.Ends.{
  tested, terminalize_deadline-IsSound, expire_for_validation-IsSound, increment_metric-IsSound,
}
use interview_assignment.Engine.Rounds.Answers.{record_rules}
use interview_assignment.Engine.Rounds.Cancels.{cancel_active_children-IsSound}
use interview_assignment.Engine.Demand.{
  maybe_reprice_chase, first_active_child, reprice_decision, set_reason, wait_for_range,
  price_outside_range, shape_refused, admit_order, Demand, validate_demand, note_arrival,
  build_child_demand, is_price_outside_range, is_temporary_shape_error, rounded_price,
}
use interview_assignment.Engine.Gates.{retryable_gate_blocks}
use interview_assignment.Algorithms.Chase.{ChaseDecision}

pub set_reason-IsSound : (reason : String) → IsSound own (modify (set_reason reason))
unfolding IsSound view
set_reason-IsSound reason r b = here

wait_for_range-IsSound :
    (now : Decimal) (kind : ValidationKind) → IsSound own (wait_for_range now kind)
unfolding wait_for_range
wait_for_range-IsSound now kind = search (tested, expire_for_validation-IsSound, set_reason-IsSound)

by_shape :
    (now : Decimal) (rules : SymbolRules) (kind : ValidationKind) (r : ExecutionRecord)
    (shape : Result (Unit {0}))
    → IsSound own (elim shape [
      | ok _ ↦ wait_for_range now kind
      | raised (Exception.validation_error shape_kind) ↦ (do
        temporary ← lift (is_temporary_shape_error r shape_kind rules)
        if temporary then wait_for_range now kind else expire_for_validation now shape_kind)
      | raised e ↦ raise e
    ])
by_shape now rules kind r (ok u) = wait_for_range-IsSound now kind
by_shape now rules kind r (raised (Exception.validation_error k)) =
    search (record_rules, wait_for_range-IsSound, expire_for_validation-IsSound) depth 14
by_shape now rules kind r (raised Exception.no_fresh_market_data) = raise-IsSound _
by_shape now rules kind r (raised e) = raise-IsSound _

price_outside_range-IsSound :
    (now : Decimal) (rules : SymbolRules) (kind : ValidationKind) (shape : Result (Unit {0}))
    → IsSound own (price_outside_range now rules kind shape)
unfolding price_outside_range
price_outside_range-IsSound now rules kind shape =
    chain own _ _ (increment_metric-IsSound Metric.price_bound_violations)
      (λ _. chain own _ _ (gets-IsSound (λ r. r)) (λ r. by_shape now rules kind r shape))

shape_refused-IsSound :
    (now : Decimal) (rules : SymbolRules) (kind : ValidationKind)
    → IsSound own (shape_refused now rules kind)
unfolding shape_refused
shape_refused-IsSound now rules kind =
    search
      (
        record_rules, gets-IsSound, expire_for_validation-IsSound, terminalize_deadline-IsSound,
        set_reason-IsSound,
      )
      depth 14

admit_order-IsSound : (now : Decimal) (d : Demand) → IsSound own (admit_order now d)
unfolding IsSound admit_order retryable_gate_blocks view
admit_order-IsSound now d r b = same_view (ground arith)
  where
    same_view : {v w : View} → w ≡ v → Steps v w
    same_view e = rw e here

then_none :
    (m : Update (Unit {0})) → IsSound own m → IsSound own (m >>= λ _. pure {A = Option Demand} none)
then_none m h = chain own _ _ h (λ _. lifted own (ok none))

by_safety :
    (now : Decimal) (rules : SymbolRules) (d : Demand) (shape : Result (Unit {0}))
    (safety : Result (Unit {0})) (r : ExecutionRecord)
    → IsBalanced (view r)
    → Steps (view r) (
        view
          (elim safety as (λ _. Result (Option Demand) × ExecutionRecord) [
            | ok _ ↦ admit_order now d r
            | raised (Exception.validation_error kind) ↦
                if is_price_outside_range kind
                then (do price_outside_range now rules kind shape; pure none) r
                else (do shape_refused now rules kind; pure none) r
            | raised e ↦ (raised e, r)
          ]).1)
unfolding IsSound
by_safety now rules d shape (ok u) r b = admit_order-IsSound now d r b
by_safety now rules d shape (raised (Exception.validation_error kind)) r b =
    elim (Bool-cases (is_price_outside_range kind)) [
      | inl outside ↦ rw outside (
          then_none (price_outside_range now rules kind shape)
            (price_outside_range-IsSound now rules kind shape) r b)
      | inr refused ↦
          rw refused
            (then_none (shape_refused now rules kind) (shape_refused-IsSound now rules kind) r b)
    ]
by_safety now rules d shape (raised Exception.no_fresh_market_data) r b = here
by_safety now rules d shape (raised e) r b = here

validate_demand-IsSound :
    (now : Decimal) (rules : SymbolRules) (d : Demand) → IsSound own (validate_demand now rules d)
unfolding IsSound validate_demand
validate_demand-IsSound now rules d r b = by_safety now rules d _ _ r b

note_arrival-IsSound : (m : MarketSnapshot) → IsSound own (modify (note_arrival m))
unfolding IsSound note_arrival view
note_arrival-IsSound m r b = elim (Bool-cases (is_some r.arrival_bid)) [
  | inl known ↦ rw known here
  | inr new ↦ rw new here
]

module _ (a : ExchangeAdapter) where
  pub build_child_demand-IsSound : IsSound (of_session a) (build_child_demand a)
  unfolding build_child_demand
  build_child_demand-IsSound =
      search
        (
          session_rules, require_exposure_tracker-IsSound, note_arrival-IsSound,
          validate_demand-IsSound,
        )
        depth 14

  note_reprice-IsSound :
      (now : Decimal)
      → IsSound own (
          modify (λ r'.
            increment_metric Metric.reprices (record r' { last_reprice_monotonic = some now })))
  unfolding IsSound increment_metric view
  note_reprice-IsSound now r b = here

  decided :
      (now : Decimal) (d : ChaseDecision)
      → IsSound (of_session a) (elim d [
        | ChaseDecision.wait ↦ pure false
        | ChaseDecision.reprice ↦ (do
          edit (λ r'.
              increment_metric Metric.reprices (record r' { last_reprice_monotonic = some now }))
          cancelled ← cancel_active_children a
          pure true)
      ])
  decided now ChaseDecision.wait = search session_rules
  decided now ChaseDecision.reprice =
      search (session_rules, note_reprice-IsSound, cancel_active_children-IsSound) depth 14

  by_active :
      (r : ExecutionRecord) (o : Option ChildOrder)
      → IsSound (of_session a) (elim o [
        | none ↦ pure false
        | some active ↦ (do
          market ← ask (a.get_best_bid_ask r.request.symbol)
          rules ← ask (a.get_symbol_rules r.request.symbol)
          desired ← lift (rounded_price r.side market rules true)
          now ← read_clock
          elim (reprice_decision now r active desired) [
            | ChaseDecision.wait ↦ pure false
            | ChaseDecision.reprice ↦ (do
              edit (λ r'.
                  increment_metric Metric.reprices
                    (record r' { last_reprice_monotonic = some now }))
              cancelled ← cancel_active_children a
              pure true)
          ])
      ])
  by_active r none = search session_rules
  by_active r (some active) =
      chain (of_session a) _ _ (ask-IsSound a (a.get_best_bid_ask r.request.symbol)) (λ market.
        chain (of_session a) _ _ (ask-IsSound a (a.get_symbol_rules r.request.symbol)) (λ rules.
          chain (of_session a) _ _ (lifted (of_session a) (rounded_price r.side market rules true))
            (λ desired.
              chain (of_session a) _ _ (read_clock-IsSound a)
                (λ now. decided now (reprice_decision now r active desired)))))

  pub maybe_reprice_chase-IsSound : IsSound (of_session a) (maybe_reprice_chase a)
  unfolding maybe_reprice_chase
  maybe_reprice_chase-IsSound =
      chain (of_session a) _ _ (inspect-IsSound a (λ r. r))
        (λ r. by_active r (first_active_child r.child_orders))
