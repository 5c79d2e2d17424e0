-- ===== src/Lib.antt =====
-- A model of the execution engine: it takes a target position, works out what to trade, and trades it
-- by child orders on an exchange, under the Chase or the TWAP algorithm, within a price band and a
-- deadline, and never past the target.
--
-- The parts and how they interact. An ExecutionRecord (src/execution/engine.py) holds one execution;
-- its ExposureTracker holds what is filled and what is reserved by open orders. `run_once` is one
-- round: it refreshes the children from the exchange, ends the execution if the target is filled or
-- the deadline has come, cancels or reprices, asks the algorithm (src/algorithms/) for a quantity,
-- validates the order (src/risk/) and submits it through the adapter (src/exchanges/base.py).
-- Reports of the exchange reach the record by `_update_child_cumulative_fill_locked`, which counts
-- them in the child and in the tracker. Statuses move by the tables of src/execution/state_machine.py.
-- The service (src/execution/service.py) finds the active executions in the table of records, and the
-- runtime (src/api/runtime.py) refuses a request for a symbol that has one.
--
-- The files:
--   Base, Base/*         integers, lists, dictionaries, the decimal context, and methods that raise
--   Execution/Models,    src/execution/models.py
--   Execution/Orders
--   Execution/StateMachine   src/execution/state_machine.py; StateMachine/Lifecycle: the order it gives
--   Execution/Ids        src/execution/ids.py; Ids/Unique: uniqueness of client order ids
--   Risk/DecimalMath     src/risk/decimal_math.py; DecimalMath/Steps: rounding
--   Risk/Validation      src/risk/validation.py; Validation/Safety: what passes
--   Algorithms/Chase     src/algorithms/chase.py; Chase/Decisions: when it replaces an order
--   Algorithms/Twap      src/algorithms/twap.py
--   Exchanges            src/exchanges/base.py, as a record of calls on a world
--   Exchanges/Simulator  src/exchanges/simulator.py, with the ManualClock of src/execution/clock.py:
--                        quotes, rules and scripts; Simulator/Trading: orders and fills;
--                        Simulator/Adapter: cancels, reconciliation, the adapter; Simulator/Books,
--                        Filling, Fills, Honest, Uses, Operations: its position
--                        and fills
--   Engine/Exposure      ExposureTracker; Exposure/Limits: its accounting; Exposure/Changes: what its
--                        methods may reserve; Exposure/Invariant: the engine's assertion over it
--   Engine/Record        ExecutionRecord and the methods that read it or count in it
--   Engine/ChildStatus   _set_child_status
--   Engine/Terminal      the methods that end an execution; Terminal/Outcomes: how they end it
--   Engine/Gates         rate limits and post-only rejects; Gates/Backoff: how long they block
--   Engine/Intervals     the intervals of trades; Intervals/Coverage: disjointness and coverage
--   Engine/Fills         _update_child_cumulative_fill_locked, _refresh_reserved_exposure_locked;
--                        Fills/Balance, Deltas, Accounting, Reserved: the sums they keep
--   Engine/Session       how a method reaches the record, the adapter and the clock
--   Engine/Submit        _submit_child_locked; Submit/Sent, Outcomes, Uncertain: orders that
--                        fail
--   Engine/Cancel        _cancel_child_locked and the loops over it
--   Engine/Refresh       _refresh_order_states_exact_locked
--   Engine/Reconcile     _reconcile_locked, _apply_reconciliation_result_locked
--   Engine/Demand        _build_child_demand_locked, _maybe_reprice_chase_locked;
--                        Demand/Safety: what its validation lets out; Demand/Offers: what goes out
--   Engine/Run           run_once; Run/Settled, Ending: the round that ends a cancelled execution
--   Engine/Rounds        an execution seen from outside, the steps that may change it, and balanced
--                        books; Rounds/Books: the steps keep them; Rounds/Calculus: how methods that
--                        take steps compose; Rounds/Children, Tracker, Ends, Answers, Submits,
--                        Cancels, Refreshes, Demands, Runs: the methods of a round, one part of the
--                        engine after another; Rounds/Refinement, Orders: what follows for a round
--   Engine/Summary       _summary_metrics and src/observability/summary.py: price inputs, late orders;
--                        Summary/Ledger: _twap_slice_ledger; Summary/Metrics: the table;
--                        Summary/Totals, Weights: what the ledger and the prices account for
--   Execution/Service    src/execution/service.py: the active executions; Service/Active: the one of
--                        a symbol
--   Api/Runtime          src/api/runtime.py: create_execution, returned records; Runtime/Exclusive,
--                        Events: one active execution for a symbol
--   Engine/Lifecycle     create_execution, cancel_execution, reconcile_execution,
--                        apply_reconciliation_result; Lifecycle/Starts, Idle, Requests: where they
--                        begin and wait
--   Tests/*              the theorems at concrete inputs
--
-- State and operations. A method that changes an object takes the object and gives a result (`ok` or
-- `raised`) beside the changed object: what was written before a raise stays written (Base/Raising).
-- A method on the record is an `Update`; one that also calls the adapter is an `Action` on a Session,
-- the record with the adapter's world. Children are named by their place in child_orders, which stands
-- for the sharing of the child objects. Sets are lists without order, dictionaries are association
-- lists; `append`, `add` and `remove` are as in the source.
--
-- Numbers. A Decimal is a whole number of quanta, each field with a quantum of its own (quantities and
-- prices of 10^-8, the clock of 10^-9 seconds, a product in the product of the quanta, basis points of
-- 10^-8). Sums, differences, products and comparisons of such numbers are exact, as they are in the
-- source up to 28 digits. Quotients are floored or ceiled where the source rounds to a step. The
-- comparison of a price move in basis points with the threshold is multiplied out. The TWAP schedule
-- divides in the decimal context of 28 digits, and so does the model (Base/Context). The one fuel is
-- that of counting or writing the digits of a number: it is the number itself, which has fewer digits.
--
-- Simplifications. Ids are lists of character codes, reasons are strings. The texts of ValidationError
-- are constructors, since the engine searches them; the symbol's own name is not searched. The actor's
-- lock makes a method one step. Time passes in the calls of the adapter. An adapter that returns an
-- object without a status is not modelled.
--
-- Rounds. The steps of Engine/Rounds say nothing of the order in which a round takes them. A round that
-- adopts orders of a reconciliation is not among them: `_apply_reconciliation_result_locked` may adopt
-- an order with fills that the tracker does not count.
--
-- The simulator. Its orders are an association list by symbol and client order id, which stands for the
-- shared order objects; the texts of its exceptions leave out ids and symbols. Its queues are lists,
-- and the iterators that read them are not modelled.
--
-- Summaries. The metrics are a function of the record and the clock, not a field of the summary that an
-- execution ends with. The ledger is that of a duration that is not negative, slippage and average that
-- of prices that are not negative.
--
-- The runtime. It is what one of its environments sees, with the service of that environment there. The
-- ids that uuid4 makes are arguments.
--
-- Not modelled: the deep copies that are handed out, the Binance adapter, the HTTP API, the background
-- loops, streams and shutdown of the runtime, configuration, logs and artifacts, and the scripts: they
-- are I/O around the engine or reports about it.
pub mod Base
pub mod Execution
pub mod Engine
pub mod Risk
pub mod Algorithms
pub mod Exchanges
pub mod Api
pub mod Tests
