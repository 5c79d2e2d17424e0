-- ===== src/Exchanges.antt =====
-- src/exchanges/base.py: the contract of an exchange adapter, as the engine calls it. The
-- exceptions of that module are constructors of `Exception` (Base/Raising.antt).
pub mod Simulator
use interview_assignment.Base.{Bool, Option, ℤ, Decimal, Text, Result}
use interview_assignment.Execution.Models.{SymbolRules, MarketSnapshot, PositionSnapshot}
use interview_assignment.Execution.Orders.{OrderRequest, ChildOrder, ReconciliationResult}

-- `ExchangeAdapter` with the clock of the engine. `World` is all that lies outside the engine; a
-- call returns or raises and leaves a new world. The clock is read off the world: time passes in
-- the calls.
pub record ExchangeAdapter : Type 1 where
  pub World : Type 0
  pub monotonic : World → Decimal
  pub get_symbol_rules : Text → World → Result SymbolRules × World
  pub get_position : Text → World → Result PositionSnapshot × World
  pub get_best_bid_ask : Text → World → Result MarketSnapshot × World
  pub submit_limit_order : OrderRequest → World → Result ChildOrder × World
  pub cancel_order : Text → Text → World → Result ChildOrder × World
  pub get_order_by_client_order_id : Text → Text → World → Result (Option ChildOrder) × World
  pub reconcile_orders_and_fills :
      Text → Text → Option ℤ → Option ℤ → World → Result ReconciliationResult × World
  pub health_check_streams : World → Result Bool × World
