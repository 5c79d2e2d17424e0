-- ===== src/Exchanges/Simulator/Trading.antt =====
-- src/exchanges/simulator.py: orders, cancels and fills of the simulator.

use interview_assignment.Base.{
  ℕ, ◌+◌, ◌-◌, Option, none, some, List, [], ◌∷◌, ◌++◌, if◌then◌else◌, pos, Decimal, ◌+ℤ◌, ltb_ℤ,
  leb_ℤ, eq_ℤ, neg_ℤ, length, any, Text, text_eq, Exception, Result, ok, raised, pure, raise, lift,
  gets, modify, raise_if, ◌>>=◌, ◌>>◌,
}
use interview_assignment.Execution.Models.{Side, ChildOrderStatus, child_is, child_is_terminal}
use interview_assignment.Execution.Orders.{OrderRequest, ChildOrder, remaining_quantity, Fill}
use interview_assignment.Execution.Ids.{decimal_digits, pad_zeros}
use interview_assignment.Execution.StateMachine.{transition_child}
use interview_assignment.Exchanges.Simulator.{
  EventKind, OrderKey, Orders, key_eq, Simulator, Simulation, clock_time_ms, get_best_bid_ask,
  validate_order_time_in_force, pop_matching_prefix, matched,
}

-- `self._orders.get(key)` and `self._orders[key] = order`
unfoldable pub order_at : OrderKey → Orders → Option ChildOrder
order_at k [] = none
order_at k ((j, o) ∷ l) = if key_eq k j then some o else order_at k l

unfoldable pub put_order : OrderKey → ChildOrder → Orders → Orders
put_order k o [] = (k, o) ∷ []
put_order k o ((j, p) ∷ l) = if key_eq k j then (j, o) ∷ l else (j, p) ∷ put_order k o l

-- The order objects are shared: a write to the order at a key.
unfoldable pub write_order : OrderKey → ChildOrder → Simulator → Simulator
write_order k o s = record s { orders = put_order k o s.orders }

unfoldable pub emit : EventKind → OrderKey → Option Fill → Simulator → Simulator
emit kind k event_fill s = record s {
  user_event_queue =
      s.user_event_queue
      ++ record { kind = kind; symbol = k.0; client_order_id = k.1; event_fill = event_fill } ∷ [];
}

abbrev pub unknown_order : Exception
unknown_order = Exception.other_exception "unknown simulator order"

-- `_order_by_client_order_id`: the one order with the id, at whatever symbol, and its key.
unfoldable pub with_client_order_id : Text → Orders → Orders
with_client_order_id id [] = []
with_client_order_id id ((k, o) ∷ l) =
    let rest = with_client_order_id id l in if text_eq k.1 id then (k, o) ∷ rest else rest

-- `if len(matches) != 1: raise KeyError(...)`
unfoldable pub only_match : Orders → Result (OrderKey × ChildOrder)
only_match (x ∷ []) = ok x
only_match _ = raised unknown_order

unfoldable pub order_by_client_order_id : Text → Simulator → Result (OrderKey × ChildOrder)
unfolding with_client_order_id only_match
order_by_client_order_id id s = only_match (with_client_order_id id s.orders)

-- f"sim_order_{n:06d}" and f"sim_trade_{n:06d}"
unfoldable pub six_digits : ℕ → Text
six_digits n = let digits = decimal_digits n in pad_zeros (6 - length digits) digits

abbrev pub order_name : ℕ → Text
order_name n = b's' ∷ b'i' ∷ b'm' ∷ b'_' ∷ b'o' ∷ b'r' ∷ b'd' ∷ b'e' ∷ b'r' ∷ b'_' ∷ six_digits n

abbrev pub trade_name : ℕ → Text
trade_name n = b's' ∷ b'i' ∷ b'm' ∷ b'_' ∷ b't' ∷ b'r' ∷ b'a' ∷ b'd' ∷ b'e' ∷ b'_' ∷ six_digits n

-- `_open_status_for`
unfoldable pub open_status_for : ChildOrder → ChildOrderStatus
open_status_for o =
    if eq_ℤ (remaining_quantity o) (pos 0)
    then ChildOrderStatus.filled
    else if ltb_ℤ (pos 0) o.confirmed_filled_quantity
    then ChildOrderStatus.partially_filled
    else ChildOrderStatus.open_order

-- `if order.status != target: order.status = transition_child(order.status, target)`
unfoldable pub move_order : ChildOrder → ChildOrderStatus → Result ChildOrder
move_order o target =
    if child_is o.status target then ok o else elim (transition_child o.status target) [
      | ok t ↦ ok (record o { status = t })
      | raised e ↦ raised e
    ]

-- `_create_open_order`
unfoldable pub opened_order : OrderRequest → ℕ → ChildOrder
opened_order q sequence = record {
  child_order_id = q.child_order_id;
  client_order_id = q.client_order_id;
  symbol = q.symbol;
  side = q.side;
  submitted_quantity = q.quantity;
  price = q.price;
  status = ChildOrderStatus.pending_submit;
  confirmed_filled_quantity = pos 0;
  exchange_order_id = some (order_name sequence);
  raw_status = none;
  terminal_reason = none;
}

unfoldable pub create_open_order : OrderRequest → Simulation ChildOrder
create_open_order q = do
  modify (λ s. record s { exchange_order_sequence = s.exchange_order_sequence + 1 })
  s ← gets (λ s. s)
  order ← lift (move_order (opened_order q s.exchange_order_sequence) ChildOrderStatus.open_order)
  modify (write_order (q.symbol, q.client_order_id) order)
  pure order

-- The `if self._pop_matching_prefix(...)` of each list.
unfoldable pub pop_not_found : Text → Simulation (Option Text)
pop_not_found id s =
    let (p, rest) = pop_matching_prefix s.create_timeout_not_found_prefixes id in
    (ok p, record s { create_timeout_not_found_prefixes = rest })

unfoldable pub pop_timeout : Text → Simulation (Option Text)
pop_timeout id s =
    let (p, rest) = pop_matching_prefix s.create_timeout_prefixes id in
    (ok p, record s { create_timeout_prefixes = rest })

unfoldable pub pop_reconcile_open : Text → Simulation (Option Text)
pop_reconcile_open id s =
    let (p, rest) = pop_matching_prefix s.cancel_reconcile_open_prefixes id in
    (ok p, record s { cancel_reconcile_open_prefixes = rest })

-- `self._create_timeout_not_found_warnings.add(key)`
unfoldable pub add_warning : OrderKey → List OrderKey → List OrderKey
add_warning k l = if any (key_eq k) l then l else k ∷ l

unfoldable pub warn_not_found : Text → Option Text → Simulator → Simulator
warn_not_found symbol none s = s
warn_not_found symbol (some p) s = record s {
  create_timeout_not_found_warnings = add_warning (symbol, p) s.create_timeout_not_found_warnings;
}

abbrev pub create_timed_out : Exception
create_timed_out = Exception.order_create_timeout "create timed out"

-- `submit_limit_order`
unfoldable pub submit_limit_order : OrderRequest → Simulation ChildOrder
submit_limit_order q = do
  snapshot ← get_best_bid_ask q.symbol
  s ← gets (λ s. s)
  lift (validate_order_time_in_force q snapshot s)
  lost ← pop_not_found q.client_order_id
  if matched lost then (do modify (warn_not_found q.symbol lost); raise create_timed_out) else (do
    order ← create_open_order q
    modify (emit EventKind.order_opened (q.symbol, q.client_order_id) none)
    late ← pop_timeout q.client_order_id
    if matched late then raise create_timed_out else pure order)

-- The change of position by a fill of an order.
unfoldable pub signed_quantity : Side → Decimal → Decimal
signed_quantity Side.buy q = q
signed_quantity Side.sell q = neg_ℤ q
signed_quantity Side.no_action q = pos 0

-- `Fill(...)` for the next trade.
unfoldable pub new_fill : OrderKey → ChildOrder → Decimal → Decimal → Simulator → Fill
new_fill k o quantity price s =
    let t = clock_time_ms s in
    record {
      client_order_id = k.1;
      trade_id = some (trade_name (s.trade_sequence + 1));
      cumulative_filled_quantity = o.confirmed_filled_quantity;
      last_filled_quantity = quantity;
      last_fill_price = price;
      event_time_ms = some t;
      transaction_time_ms = some t;
      is_maker = none;
    }

unfoldable pub record_fill : OrderKey → ChildOrder → Decimal → Decimal → Simulation Fill
unfolding new_fill
record_fill k o quantity price s =
    let f = new_fill k o quantity price s in
    (
      ok f,
      emit EventKind.fill k (some f)
          (record s { trade_sequence = s.trade_sequence + 1; fills = s.fills ++ f ∷ [] }),
    )

-- `push_fill`
unfoldable pub push_fill : Text → Decimal → Decimal → Simulation Fill
push_fill id quantity price = do
  raise_if (leb_ℤ quantity (pos 0)) (Exception.other_exception "fill quantity must be positive")
  s ← gets (λ s. s)
  found ← lift (order_by_client_order_id id s)
  raise_if (child_is_terminal found.1.status)
      (Exception.order_rejected "cannot fill terminal order")
  raise_if (ltb_ℤ (remaining_quantity found.1) quantity)
      (Exception.order_rejected "fill exceeds remaining quantity")
  let o = record found.1 {
    confirmed_filled_quantity = found.1.confirmed_filled_quantity +ℤ quantity;
  }
  modify (write_order found.0 o)
  moved ← lift (move_order o (open_status_for o))
  modify (write_order found.0 moved)
  modify (λ s. record s { position = s.position +ℤ signed_quantity o.side quantity })
  record_fill found.0 moved quantity price
