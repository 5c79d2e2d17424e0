-- ===== src/Engine/Reconcile.antt =====
-- src/execution/engine.py: `_apply_reconciliation_result_locked` and the methods around it.
use text.Mathlib.Text.{◌==◌ as str_eq}
use interview_assignment.Base.{
  ℕ, ◌+◌, Bool, true, false, ◌&&◌, not, Option, none, some, List, [], ◌∷◌, ◌++◌, map, if◌then◌else◌,
  is_some, or_default, ℤ, pos, Decimal, ltb_ℤ, max_ℤ, any, Text, text_eq, ok, raised, pure, gets,
  ◌>>=◌, ◌>>◌,
}
use interview_assignment.Base.Dict.{Dict, IdSet, lookup, insert, contains}
use interview_assignment.Execution.Models.{ChildOrderStatus, child_is}
use interview_assignment.Execution.Orders.{ChildOrder, Fill, ReconciliationResult}
use interview_assignment.Exchanges.{ExchangeAdapter}
use interview_assignment.Engine.Exposure.{clear_unknown_create}
use interview_assignment.Engine.Record.{ExecutionRecord, Update, on_tracker, read_child}
use interview_assignment.Engine.Fills.{
  FillReport, snapshot_report, key_leb, update_child_cumulative_fill,
}
use interview_assignment.Engine.Session.{
  Action, on_record, attempt, read_clock, inspect, set_status_at, copy_at, fill_from_order,
}
use interview_assignment.Execution.Ids
use interview_assignment.Engine.Cancel.{places}
use interview_assignment.Engine.Refresh.{
  reject_not_found, count_reconciled, lookup_failed, finish_reconciliation_refresh,
}

-- `children_by_client_id.get(client_order_id)`: of two children with one id the dict keeps the
-- last.
unfoldable pub place_from : ℕ → Text → List ChildOrder → Option ℕ
place_from n id [] = none
place_from n id (c ∷ cs) = elim (place_from (n + 1) id cs) [
  | some i ↦ some i
  | none ↦ if text_eq id c.client_order_id then some n else none
]

abbrev pub place_of : Text → ExecutionRecord → Option ℕ
place_of id r = place_from 0 id r.child_orders

-- `order_snapshot_confirmed_by_client_id`: the largest confirmed quantity per client order id.
unfoldable pub snapshot_confirmed : List ChildOrder → Dict Decimal → Dict Decimal
snapshot_confirmed [] d = d
snapshot_confirmed (x ∷ xs) d = snapshot_confirmed xs (elim (lookup x.client_order_id d) [
  | none ↦ insert x.client_order_id x.confirmed_filled_quantity d
  | some current ↦
      if ltb_ℤ current x.confirmed_filled_quantity
      then insert x.client_order_id x.confirmed_filled_quantity d
      else d
])

-- One round of the first loop: an order that the record does not know is taken over, without its
-- fills if they are reported one by one.
unfoldable pub adopt_order : IdSet → ChildOrder → Update (Unit {0})
adopt_order fill_client_ids x r = elim (place_of x.client_order_id r) [
  | some i ↦ copy_at i x false r
  | none ↦ (
    ok tt,
    record r {
      child_orders =
          r.child_orders
          ++ (if contains x.client_order_id fill_client_ids
              then record x { confirmed_filled_quantity = pos 0 }
              else x)
            ∷ [];
    },
  )
]

unfoldable pub adopt_orders : IdSet → List ChildOrder → Update (Unit {0})
unfolding adopt_order
adopt_orders ids [] = pure tt
adopt_orders ids (x ∷ xs) = do adopt_order ids x; adopt_orders ids xs

-- `sorted(result.fills, key=...)`
abbrev pub fill_key : Fill → ℤ × ℤ × Text
fill_key f = (
  or_default f.event_time_ms (pos 0),
  or_default f.transaction_time_ms (pos 0),
  or_default f.trade_id [],
)

unfoldable pub insert_fill : Fill → List Fill → List Fill
insert_fill x [] = x ∷ []
insert_fill x (y ∷ l) = if key_leb (fill_key x) (fill_key y) then x ∷ y ∷ l else y ∷ insert_fill x l

unfoldable pub sort_fills : List Fill → List Fill
sort_fills [] = []
sort_fills (x ∷ l) = insert_fill x (sort_fills l)

abbrev pub fill_report : Dict Decimal → ChildOrder → Fill → FillReport
fill_report snapshots child f = record {
  incoming_cumulative = f.cumulative_filled_quantity;
  trade_id = f.trade_id;
  fill_price = f.last_fill_price;
  is_maker = f.is_maker;
  authoritative_trade = true;
  fill_quantity_delta = some f.last_filled_quantity;
  event_time_ms = f.event_time_ms;
  transaction_time_ms = f.transaction_time_ms;
  authoritative_confirmed_limit = some (
      max_ℤ
        (max_ℤ child.confirmed_filled_quantity
          (or_default (lookup f.client_order_id snapshots) (pos 0)))
        f.cumulative_filled_quantity);
}

-- One round of the second loop: a fill of an unknown order is skipped.
unfoldable pub apply_fill_event : Dict Decimal → Fill → Update (Unit {0})
apply_fill_event snapshots f r = elim (place_of f.client_order_id r) [
  | none ↦ (ok tt, r)
  | some i ↦
      (do child ← read_child i; update_child_cumulative_fill i (fill_report snapshots child f)) r
]

unfoldable pub apply_fill_events : Dict Decimal → List Fill → Update (Unit {0})
unfolding apply_fill_event
apply_fill_events snapshots [] = pure tt
apply_fill_events snapshots (f ∷ fs) = do
  apply_fill_event snapshots f
  apply_fill_events snapshots fs

-- One round of the third loop.
unfoldable pub settle_order_at : ℕ → ChildOrder → Update (Unit {0})
settle_order_at i x = do
  before ← read_child i
  update_child_cumulative_fill i (snapshot_report x.confirmed_filled_quantity before.price)
  copy_at i x true
  set_status_at i x.status
  c ← read_child i
  if child_is before.status ChildOrderStatus.unknown
        && not (child_is c.status ChildOrderStatus.unknown)
      then count_reconciled c
      else pure tt

unfoldable pub settle_orders : List ChildOrder → Update (Unit {0})
unfolding settle_order_at
settle_orders [] = pure tt
settle_orders (x ∷ xs) = do
  i ← gets (place_of x.client_order_id)
  elim i [ none ↦ pure tt | some i ↦ settle_order_at i x ]
  settle_orders xs

-- One child of `_reconcile_unknown_children_exact_locked`, for what the exchange answered.
unfoldable pub reconcile_unknown_child : ℕ → Option ChildOrder → Update (Unit {0})
reconcile_unknown_child i none = reject_not_found i
reconcile_unknown_child i (some x) = do
  copy_at i x false
  set_status_at i x.status
  fill_from_order i x.confirmed_filled_quantity
  c ← read_child i
  count_reconciled c

-- The loop of `_reconcile_unknown_children_exact_locked`.
unfoldable pub reconcile_unknown_each : (a : ExchangeAdapter) → List ℕ → Action a (Unit {0})
unfolding reconcile_unknown_child lookup_failed
reconcile_unknown_each a [] = pure tt
reconcile_unknown_each a (i ∷ rest) = do
  child ← on_record (read_child i)
  if not (child_is child.status ChildOrderStatus.unknown)
      then reconcile_unknown_each a rest
      else (do
        symbol ← inspect (λ r. r.request.symbol)
        answer ← attempt (a.get_order_by_client_order_id symbol child.client_order_id)
        now ← read_clock
        elim answer [
          | ok found ↦ on_record (reconcile_unknown_child i found) >> reconcile_unknown_each a rest
          | raised e ↦ on_record (lookup_failed now (pure tt) e)
        ])

-- `CREATE_TIMEOUT_ORDER_NOT_FOUND in result.warnings`: unknown children that the exchange did not
-- list are rejected.
unfoldable pub reject_unlisted : IdSet → List ℕ → Update (Unit {0})
reject_unlisted exchange_client_ids [] = pure tt
reject_unlisted exchange_client_ids (i ∷ rest) = do
  c ← read_child i
  if child_is c.status ChildOrderStatus.unknown
        && not (contains c.client_order_id exchange_client_ids)
      then reject_not_found i
      else pure tt
  reject_unlisted exchange_client_ids rest

-- `tracker.clear_unknown_create()`
unfoldable pub heed_warnings : ReconciliationResult → Update (Unit {0})
unfolding reject_unlisted
heed_warnings result =
    if any (str_eq "CREATE_TIMEOUT_ORDER_NOT_FOUND") result.warnings
    then (do
      all ← gets places
      reject_unlisted (map (λ x. x.client_order_id) result.orders) all
      on_tracker (clear_unknown_create none))
    else pure tt

-- The three loops over the orders and fills.
unfoldable pub apply_orders_and_fills : ReconciliationResult → Update (Unit {0})
apply_orders_and_fills result = do
  adopt_orders (map (λ f. f.client_order_id) result.fills) result.orders
  apply_fill_events (snapshot_confirmed result.orders []) (sort_fills result.fills)
  settle_orders result.orders

-- `_apply_reconciliation_result_locked`
unfoldable pub apply_result :
    (a : ExchangeAdapter) → ReconciliationResult → Bool → Action a (Unit {0})
apply_result a result exact_unknown_lookup = do
  started ← inspect (λ r. is_some r.exposure_tracker)
  if not started then pure tt else (do
    on_record (apply_orders_and_fills result)
    all ← inspect places
    if exact_unknown_lookup then reconcile_unknown_each a all else pure tt
    on_record (heed_warnings result)
    on_record finish_reconciliation_refresh)

-- `_reconcile_locked`
unfoldable pub reconcile : (a : ExchangeAdapter) → Option ℤ → Option ℤ → Bool → Action a (Unit {0})
reconcile a start_time_ms end_time_ms exact_unknown_lookup = do
  r ← inspect (λ r. r)
  if not (is_some r.exposure_tracker) then pure tt else (do
    answer ← attempt (
        a.reconcile_orders_and_fills r.request.symbol (Ids.make_client_order_prefix r.execution_id)
          start_time_ms end_time_ms)
    now ← read_clock
    elim answer [
      | ok result ↦ apply_result a result exact_unknown_lookup
      | raised e ↦ on_record (lookup_failed now (pure tt) e)
    ])
