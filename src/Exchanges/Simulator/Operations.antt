-- ===== src/Exchanges/Simulator/Operations.antt =====
-- Any sequence of operations on the simulator of src/exchanges/simulator.py.

use interview_assignment.Base.{
  ◌≡◌, refl, Bool, Option, none, List, [], ◌∷◌, arith, ℤ, Decimal, Text,
}
use interview_assignment.Execution.Models.{SymbolRules}
use interview_assignment.Execution.Orders.{OrderRequest, Fill}
use interview_assignment.Exchanges.Simulator.{
  Simulator, advance, set_symbol_rules, push_market_data,
}
use interview_assignment.Exchanges.Simulator.Trading.{order_at, push_fill, submit_limit_order}
use interview_assignment.Exchanges.Simulator.Adapter.{
  cancel_order, inject_reconciliation_fill, script_fill_during_cancel, script_create_timeout,
  script_create_timeout_not_found, script_cancel_reconcile_open, set_stream_health,
}
use interview_assignment.Exchanges.Simulator.Books.{IsHonest}
use interview_assignment.Exchanges.Simulator.Honest.{IsKept, same_books, push_fill-IsKept}
use interview_assignment.Exchanges.Simulator.Uses.{
  IsKeptNew, cancel_order-IsKept, submit_limit_order-IsKept,
}

-- What a test or a demonstration may do with the simulator.
pub data Operation : Type 0 where
  submit : OrderRequest → Operation
  cancel : Text → Text → Operation
  push : Text → Decimal → Decimal → Operation
  inject : Fill → Operation
  quote : Text → Decimal → Decimal → Option ℤ → Operation
  set_rules : SymbolRules → Operation
  wait : Decimal → Operation
  fill_on_cancel : Text → Decimal → Operation
  time_out lose reopen : Text → Operation
  set_health : Bool → Operation

unfoldable pub run_operation : Operation → Simulator → Simulator
run_operation (submit q) s = (submit_limit_order q s).1
run_operation (cancel symbol id) s = (cancel_order symbol id s).1
run_operation (push id q price) s = (push_fill id q price s).1
run_operation (inject f) s = (inject_reconciliation_fill f s).1
run_operation (quote symbol bid ask t) s = push_market_data symbol bid ask t s
run_operation (set_rules rules) s = set_symbol_rules rules s
run_operation (wait t) s = (advance t s).1
run_operation (fill_on_cancel p q) s = (script_fill_during_cancel p q s).1
run_operation (time_out p) s = (script_create_timeout p s).1
run_operation (lose p) s = (script_create_timeout_not_found p s).1
run_operation (reopen p) s = (script_cancel_reconcile_open p s).1
run_operation (set_health b) s = set_stream_health b s

-- No order stands yet at the key of an order that is submitted.
abbrev pub IsNewKey : Operation → Simulator → Type 0
IsNewKey (submit q) s = order_at (q.symbol, q.client_order_id) s.orders ≡ none
IsNewKey _ s = Unit

unfoldable pub run_operations : List Operation → Simulator → Simulator
run_operations [] s = s
run_operations (op ∷ ops) s = run_operations ops (run_operation op s)

abbrev pub AllNewKeys : List Operation → Simulator → Type 0
AllNewKeys [] s = Unit
AllNewKeys (op ∷ ops) s = IsNewKey op s × AllNewKeys ops (run_operation op s)

run_operation-IsHonest :
    (start : Decimal) (op : Operation) (s : Simulator)
    → IsHonest start s
    → IsNewKey op s
    → IsHonest start (run_operation op s)
unfolding run_operation IsKept IsKeptNew push_market_data set_symbol_rules advance set_stream_health
    inject_reconciliation_fill script_fill_during_cancel script_create_timeout
    script_create_timeout_not_found script_cancel_reconcile_open
run_operation-IsHonest start (submit q) s h new = submit_limit_order-IsKept start q s h new
run_operation-IsHonest start (cancel symbol id) s h new = cancel_order-IsKept start symbol id s h
run_operation-IsHonest start (push id q price) s h new = push_fill-IsKept start id q price s h
run_operation-IsHonest start (inject f) s h new =
    same_books start s _ (ground arith) (ground arith) h
run_operation-IsHonest start (quote symbol bid ask t) s h new = same_books start s _ refl refl h
run_operation-IsHonest start (set_rules rules) s h new = same_books start s _ refl refl h
run_operation-IsHonest start (wait t) s h new = same_books start s _ (ground arith) (ground arith) h
run_operation-IsHonest start (fill_on_cancel p q) s h new =
    same_books start s _ (ground arith) (ground arith) h
run_operation-IsHonest start (time_out p) s h new =
    same_books start s _ (ground arith) (ground arith) h
run_operation-IsHonest start (lose p) s h new = same_books start s _ (ground arith) (ground arith) h
run_operation-IsHonest start (reopen p) s h new =
    same_books start s _ (ground arith) (ground arith) h
run_operation-IsHonest start (set_health b) s h new = same_books start s _ refl refl h

-- Whatever is done with the simulator, fills that race a cancel, time-outs and refused calls
-- included, its position stays the one at the start plus what its orders have filled, buys counted
-- up and sells down, and no order ever has more than was submitted or less than nothing. It starts
-- from such a simulator, and no order is submitted under a key that an order has already.
pub run_operations-IsHonest :
    (start : Decimal) (ops : List Operation) (s : Simulator)
    → IsHonest start s
    → AllNewKeys ops s
    → IsHonest start (run_operations ops s)
unfolding run_operations
run_operations-IsHonest start [] s h new = h
run_operations-IsHonest start (op ∷ ops) s h new =
    run_operations-IsHonest start ops (run_operation op s)
      (run_operation-IsHonest start op s h new.0) new.1
