-- ===== src/Exchanges/Simulator/Adapter.antt =====
-- src/exchanges/simulator.py: cancels, reconciliation and the scripts of the simulator, and the
-- simulator as an exchange of the engine.

use interview_assignment.Base.{
  ℕ, zero, suc, Bool, true, false, ◌&&◌, ◌||◌, not, Option, none, some, List, [], ◌∷◌, ◌++◌, ◌==◌,
  if◌then◌else◌, ℤ, pos, Decimal, ltb_ℤ, leb_ℤ, any, Text, text_eq, Exception, Result, ok, raised,
  pure, lift, gets, modify, raise_if, ◌>>=◌, ◌>>◌,
}
use interview_assignment.Execution.Models.{ChildOrderStatus, child_is_terminal}
use interview_assignment.Execution.Orders.{ChildOrder, Fill, ReconciliationResult}
use interview_assignment.Execution.Ids.{starts_with, between}
use interview_assignment.Exchanges.{ExchangeAdapter}
use interview_assignment.Execution.StateMachine.{transition_child}
use interview_assignment.Exchanges.Simulator.{
  EventKind, OrderKey, Orders, key_eq, Simulator, Simulation, rules_of, get_best_bid_ask, matched,
  consume_fill_during_cancel,
}
use interview_assignment.Exchanges.Simulator.Trading.{
  order_at, write_order, emit, unknown_order, order_by_client_order_id, open_status_for, move_order,
  pop_reconcile_open, submit_limit_order, push_fill,
}

-- The order at a key, which must be there.
unfoldable pub read_order : OrderKey → Simulation ChildOrder
read_order k s = elim (order_at k s.orders) [
  | some o ↦ (ok o, s)
  | none ↦ (raised unknown_order, s)
]

-- `if order.status != target: order.status = transition_child(...)` on the order at a key.
unfoldable pub move_at : OrderKey → ChildOrderStatus → Simulation (Unit {0})
move_at k target = do
  o ← read_order k
  moved ← lift (move_order o target)
  modify (write_order k moved)

-- `_consume_fill_during_cancel`
unfoldable pub pop_fill_script : Text → Simulation (Option Decimal)
pop_fill_script id s =
    let (q, rest) = consume_fill_during_cancel s.fill_during_cancel_scripts id in
    (ok q, record s { fill_during_cancel_scripts = rest })

-- The scripted race of a fill with the cancel.
unfoldable pub fill_during_cancel : OrderKey → Decimal → Simulation (Unit {0})
fill_during_cancel k price = do
  script ← pop_fill_script k.1
  elim script [ none ↦ pure tt | some q ↦ (do f ← push_fill k.1 q price; pure tt) ]

-- The part of `cancel_order` after the race.
unfoldable pub finish_cancel : OrderKey → Simulation ChildOrder
finish_cancel k = do
  o ← read_order k
  if child_is_terminal o.status then pure o else (do
    reopened ← pop_reconcile_open k.1
    if matched reopened then (do move_at k (open_status_for o); read_order k) else (do
      move_at k ChildOrderStatus.pending_cancel
      move_at k ChildOrderStatus.cancelled
      modify (emit EventKind.order_cancelled k none)
      read_order k))

-- `cancel_order`
unfoldable pub cancel_order : Text → Text → Simulation ChildOrder
cancel_order symbol id = do
  o ← read_order (symbol, id)
  if child_is_terminal o.status then pure o else (do
    pending ← lift (transition_child o.status ChildOrderStatus.pending_cancel)
    modify (write_order (symbol, id) (record o { status = pending }))
    fill_during_cancel (symbol, id) o.price
    finish_cancel (symbol, id))

-- `get_order_by_client_order_id`
unfoldable pub get_order_by_client_order_id : Text → Text → Simulation (Option ChildOrder)
get_order_by_client_order_id symbol id s = (ok (order_at (symbol, id) s.orders), s)

-- `inject_reconciliation_fill`
unfoldable pub inject_reconciliation_fill : Fill → Simulation Fill
inject_reconciliation_fill f = do
  raise_if (leb_ℤ f.last_filled_quantity (pos 0))
      (Exception.other_exception "fill quantity must be positive")
  s ← gets (λ s. s)
  found ← lift (order_by_client_order_id f.client_order_id s)
  modify (λ s. record s { fills = s.fills ++ f ∷ [] })
  pure f

-- `EXECUTION_CLIENT_ORDER_PREFIX_RE.fullmatch`: "ce_", twelve lowercase hexadecimal digits, "_".
abbrev pub is_hex : ℕ → Bool
is_hex c = between b'0' b'9' c || between b'a' b'f' c

unfoldable pub hex_digits_then_end : ℕ → Text → Bool
hex_digits_then_end zero (c ∷ []) = c == b'_'
hex_digits_then_end zero s = false
hex_digits_then_end (suc n) [] = false
hex_digits_then_end (suc n) (c ∷ s) = is_hex c && hex_digits_then_end n s

unfoldable pub is_execution_prefix : Text → Bool
unfolding hex_digits_then_end
is_execution_prefix (a ∷ b ∷ c ∷ s) =
    a == b'c' && b == b'e' && c == b'_' && hex_digits_then_end 12 s
is_execution_prefix _ = false

-- `_reject_broad_client_order_prefix`
unfoldable pub reject_broad_prefix : Option Text → Result (Unit {0})
reject_broad_prefix none =
    raised (Exception.other_exception "client_order_prefix must be execution-scoped")
reject_broad_prefix (some p) =
    if is_execution_prefix p
    then ok tt
    else raised (Exception.other_exception "client_order_prefix must be execution-scoped")

-- `_client_order_id_matches` and `_fill_in_time_window`
unfoldable pub id_matches : Text → Option Text → Bool
id_matches id none = true
id_matches id (some p) = starts_with p id

abbrev pub before_start : ℤ → Option ℤ → Bool
before_start t none = false
before_start t (some a) = ltb_ℤ t a

abbrev pub after_end : ℤ → Option ℤ → Bool
after_end t none = false
after_end t (some b) = ltb_ℤ b t

unfoldable pub in_time_window : Fill → Option ℤ → Option ℤ → Bool
in_time_window f from to = elim f.event_time_ms [
  | none ↦ true
  | some t ↦ not (before_start t from) && not (after_end t to)
]

-- The orders of a symbol that match, and the fills; a fill whose order is not found raises.
unfoldable pub matching_orders : Text → Option Text → Orders → List ChildOrder
unfolding id_matches
matching_orders symbol p [] = []
matching_orders symbol p ((k, o) ∷ l) =
    let rest = matching_orders symbol p l in
    if text_eq k.0 symbol && id_matches k.1 p then o ∷ rest else rest

unfoldable pub matching_fills :
    Text → Option Text → Option ℤ → Option ℤ → Simulator → List Fill → Result (List Fill)
unfolding id_matches in_time_window
matching_fills symbol p from to s [] = ok []
matching_fills symbol p from to s (f ∷ l) =
    let rest = matching_fills symbol p from to s l in
    if not (id_matches f.client_order_id p)
    then rest
    else elim (order_by_client_order_id f.client_order_id s) [
      | raised e ↦ raised e
      | ok found ↦
          if text_eq found.1.symbol symbol && in_time_window f from to
          then elim rest [ ok fs ↦ ok (f ∷ fs) | raised e ↦ raised e ]
          else rest
    ]

-- `(symbol, client_order_prefix) in self._create_timeout_not_found_warnings`
unfoldable pub warned : Text → Option Text → Simulator → Bool
warned symbol none s = false
warned symbol (some p) s = any (key_eq (symbol, p)) s.create_timeout_not_found_warnings

-- `reconcile_orders_and_fills`
unfoldable pub reconcile_orders_and_fills :
    Text → Option Text → Option ℤ → Option ℤ → Simulation ReconciliationResult
unfolding matching_orders matching_fills
reconcile_orders_and_fills symbol p from to = do
  lift (reject_broad_prefix p)
  s ← gets (λ s. s)
  fills ← lift (matching_fills symbol p from to s s.fills)
  pure (record {
    orders = matching_orders symbol p s.orders;
    fills = fills;
    warnings = if warned symbol p s then "CREATE_TIMEOUT_ORDER_NOT_FOUND" ∷ [] else [];
  })

-- The scripts.
unfoldable pub script_fill_during_cancel : Text → Decimal → Simulation (Unit {0})
script_fill_during_cancel p q = do
  lift (reject_broad_prefix (some p))
  modify
      (λ s. record s { fill_during_cancel_scripts = s.fill_during_cancel_scripts ++ (p, q) ∷ [] })

unfoldable pub script_create_timeout : Text → Simulation (Unit {0})
script_create_timeout p = do
  lift (reject_broad_prefix (some p))
  modify (λ s. record s { create_timeout_prefixes = s.create_timeout_prefixes ++ p ∷ [] })

unfoldable pub script_create_timeout_not_found : Text → Simulation (Unit {0})
script_create_timeout_not_found p = do
  lift (reject_broad_prefix (some p))
  modify (λ s. record s {
    create_timeout_not_found_prefixes = s.create_timeout_not_found_prefixes ++ p ∷ [];
  })

unfoldable pub script_cancel_reconcile_open : Text → Simulation (Unit {0})
script_cancel_reconcile_open p = do
  lift (reject_broad_prefix (some p))
  modify (λ s. record s {
    cancel_reconcile_open_prefixes = s.cancel_reconcile_open_prefixes ++ p ∷ [];
  })

-- `set_stream_health`
unfoldable pub set_stream_health : Bool → Simulator → Simulator
set_stream_health healthy s = record s { user_stream_healthy = healthy }

-- The simulator as the exchange of an engine; the engine always gives a prefix.
abbrev pub simulator_adapter : ExchangeAdapter
simulator_adapter = record {
  World = Simulator;
  monotonic = λ s. s.current;
  get_symbol_rules = λ symbol s. (ok (rules_of symbol s), s);
  get_position = λ symbol s.
      (ok (record { symbol = symbol; position = s.position; update_time_ms = none }), s);
  get_best_bid_ask = get_best_bid_ask;
  submit_limit_order = submit_limit_order;
  cancel_order = cancel_order;
  get_order_by_client_order_id = get_order_by_client_order_id;
  reconcile_orders_and_fills =
      λ symbol p from to. reconcile_orders_and_fills symbol (some p) from to;
  health_check_streams = λ s. (ok s.user_stream_healthy, s);
}
