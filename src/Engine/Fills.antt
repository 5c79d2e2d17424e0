-- ===== src/Engine/Fills.antt =====
-- src/execution/engine.py: what a reported fill does to a child, the tracker and the price inputs,
-- and the recount of the reserved exposure.
pub mod Reserved
pub mod Balance
pub mod Deltas
pub mod Accounting
use interview_assignment.Base.{
  ℕ, zero, suc, ◌+◌, ◌-◌, ◌*◌, ◌/◌, ◌%◌, ◌≤◌, ◌<◌, String, ◌≡◌, refl, sym, ap, ◌∙◌, ◌≢◌, ◌↔◌, ◌⊎◌,
  inl, inr, Bool, true, false, ◌&&◌, ◌||◌, not, Option, none, some, List, [], ◌∷◌, ◌++◌, map, arith,
  ltb, leb, ◌==◌, if◌then◌else◌, ltb→lt, leb→le, ==_iff, Bool-cases, Option-cases, is_some,
  or_default, ℤ, pos, negsuc, Decimal, pos_part, neg_part, ◌+ℤ◌, ◌-ℤ◌, ◌*ℤ◌, ◌≤ℤ◌, ◌<ℤ◌, ltb_ℤ,
  leb_ℤ, eq_ℤ, int_laws, min_ℤ, max_ℤ, abs_ℤ, neg_ℤ, length, get_elem?, set, remove_at, any, All,
  Text, text_eq, text_eq_iff, text_eq_refl, Exception, ValidationKind, Result, ok, raised, Exec,
  pure, raise, lift, gets, modify, raise_if, ◌>>=◌, ◌>>◌, returns,
}
use interview_assignment.Base.Dict
use interview_assignment.Base.Dict.{Dict, IdSet, lookup, insert, remove, contains, add, discard}
use interview_assignment.Execution.Models.{
  Environment, Algorithm, DeadlinePolicy, RepricingMode, Side, TimeInForce, ExecutionStatus,
  ChildOrderStatus, is_buy, is_sell, is_no_action, status_is, child_is, is_terminal,
  child_is_terminal, child_is_live, ExecutionParameters, ExecutionRequest, SymbolRules,
  MarketSnapshot, PositionSnapshot,
}
use interview_assignment.Execution.Orders.{
  OrderRequest, ChildOrder, floor_zero, remaining_quantity, Fill, ReconciliationResult, Exposure,
  empty_exposure, reserved_exposure, ExecutionSummary, required_trade,
}
use interview_assignment.Execution.StateMachine.{transition_execution, transition_child}
use interview_assignment.Risk.Validation.{check_exposure_invariant}
use interview_assignment.Engine.Exposure.{ExposureTracker, apply_fill}
use interview_assignment.Engine.Record.{
  ExecutionRecord, Update, Metric, PriceQuantity, Interval, increment_metric,
  require_exposure_tracker, on_tracker, read_child, write_child,
}
use interview_assignment.Engine.Intervals.{accepted_interval}

-- The arguments of `_update_child_cumulative_fill_locked`.
pub record FillReport : Type 0 where
  pub incoming_cumulative : Decimal
  pub trade_id : Option Text
  pub fill_price : Decimal
  pub is_maker : Option Bool
  pub authoritative_trade : Bool
  pub fill_quantity_delta : Option Decimal
  pub event_time_ms : Option ℤ
  pub transaction_time_ms : Option ℤ
  pub authoritative_confirmed_limit : Option Decimal

-- The report of a cumulative quantity that comes with no trade.
abbrev pub snapshot_report : Decimal → Decimal → FillReport
snapshot_report cumulative price = record {
  incoming_cumulative = cumulative;
  trade_id = none;
  fill_price = price;
  is_maker = none;
  authoritative_trade = false;
  fill_quantity_delta = none;
  event_time_ms = none;
  transaction_time_ms = none;
  authoritative_confirmed_limit = none;
}

-- `_record_ignored_fill_trade_id_locked`
unfoldable pub record_ignored_fill_trade_id : Text → ExecutionRecord → ExecutionRecord
record_ignored_fill_trade_id id r =
    if contains id r.ignored_fill_trade_ids
    then r
    else increment_metric Metric.duplicate_events_ignored
        (record r { ignored_fill_trade_ids = add id r.ignored_fill_trade_ids })

-- `record.seen_fill_trade_ids.add(trade_id)` and the call above, if there is a trade id.
unfoldable pub ignore_fill : Option Text → ExecutionRecord → ExecutionRecord
ignore_fill none r = r
ignore_fill (some id) r =
    record_ignored_fill_trade_id id
      (record r { seen_fill_trade_ids = add id r.seen_fill_trade_ids })

-- Comparison of strings by code points, and of the sort keys of trades.
unfoldable pub text_leb : Text → Text → Bool
text_leb [] y = true
text_leb (a ∷ x) [] = false
text_leb (a ∷ x) (b ∷ y) = ltb a b || (a == b && text_leb x y)

abbrev pub SortKey : Type 0
SortKey = ℤ × ℤ × Text

unfoldable pub key_leb : SortKey → SortKey → Bool
key_leb (a, b, c) (x, y, z) = ltb_ℤ a x || (eq_ℤ a x && (ltb_ℤ b y || (eq_ℤ b y && text_leb c z)))

unfoldable pub sort_key : ExecutionRecord → Text → SortKey
sort_key r id = or_default (lookup id r.trade_fill_sort_keys) (pos 0, pos 0, id)

unfoldable pub insert_trade :
    ExecutionRecord → Text × PriceQuantity → Dict PriceQuantity → Dict PriceQuantity
insert_trade r x [] = x ∷ []
insert_trade r x (y ∷ l) =
    if key_leb (sort_key r x.0) (sort_key r y.0) then x ∷ y ∷ l else y ∷ insert_trade r x l

unfoldable pub sort_trades : ExecutionRecord → Dict PriceQuantity → Dict PriceQuantity
sort_trades r [] = []
sort_trades r (x ∷ l) = insert_trade r x (sort_trades r l)

-- `_rebuild_trade_fill_vwap_inputs_locked`
unfoldable pub rebuild_vwap_inputs : ExecutionRecord → ExecutionRecord
rebuild_vwap_inputs r = record r {
  fill_vwap_inputs =
      map (λ x. x.1) (sort_trades r r.trade_fill_vwap_inputs) ++ r.anonymous_fill_vwap_inputs;
}

-- `incoming_cumulative - previous_child_cumulative`, or zero if that is not positive.
unfoldable pub child_delta : ChildOrder → FillReport → Decimal
child_delta c f =
    if ltb_ℤ c.confirmed_filled_quantity f.incoming_cumulative
    then f.incoming_cumulative -ℤ c.confirmed_filled_quantity
    else pos 0

unfoldable pub trade_delta : ChildOrder → FillReport → Decimal
trade_delta c f = or_default f.fill_quantity_delta (child_delta c f)

unfoldable pub interval_limit : ChildOrder → FillReport → Decimal
interval_limit c f =
    max_ℤ (max_ℤ c.confirmed_filled_quantity f.incoming_cumulative)
      (or_default f.authoritative_confirmed_limit (pos 0))

unfoldable pub intervals_of : Text → ExecutionRecord → List Interval
intervals_of id r = or_default (lookup id r.child_authoritative_fill_intervals) []

unfoldable pub set_intervals : Text → List Interval → ExecutionRecord → ExecutionRecord
set_intervals id l r = record r {
  child_authoritative_fill_intervals = insert id l r.child_authoritative_fill_intervals;
}

-- `if child_delta > 0: ...`: the child first, then the tracker with the raised total.
unfoldable pub apply_child_delta : ℕ → ChildOrder → FillReport → Update (Unit {0})
apply_child_delta i c f =
    if ltb_ℤ (pos 0) (child_delta c f)
    then (do
      modify (write_child i (record c { confirmed_filled_quantity = f.incoming_cumulative }))
      t ← require_exposure_tracker
      applied ← on_tracker (apply_fill f.trade_id (t.confirmed_filled_quantity +ℤ child_delta c f))
      pure tt)
    else pure tt

-- The price input of an accepted trade.
unfoldable pub add_vwap_input : FillReport → Decimal → Update (Unit {0})
add_vwap_input f delta = elim f.trade_id [
  | some id ↦ (do
    modify (λ r. record r { seen_fill_trade_ids = add id r.seen_fill_trade_ids })
    t ← require_exposure_tracker
    modify (λ r. record r {
      exposure_tracker = some (record t { seen_trade_ids = add id t.seen_trade_ids });
      trade_fill_vwap_inputs = insert id (f.fill_price, delta) r.trade_fill_vwap_inputs;
      trade_fill_sort_keys =
          insert id
            (or_default f.event_time_ms (pos 0), or_default f.transaction_time_ms (pos 0), id)
            r.trade_fill_sort_keys;
    })
    modify rebuild_vwap_inputs)
  | none ↦ modify (λ r. record r {
    anonymous_fill_vwap_inputs = r.anonymous_fill_vwap_inputs ++ (f.fill_price, delta) ∷ [];
    fill_vwap_inputs = r.fill_vwap_inputs ++ (f.fill_price, delta) ∷ [];
  })
]

unfoldable pub count_liquidity : FillReport → Decimal → ExecutionRecord → ExecutionRecord
count_liquidity f delta r = elim f.is_maker [
  | none ↦ r
  | some true ↦
      increment_metric Metric.maker_fills
        (record r { maker_filled_quantity = r.maker_filled_quantity +ℤ delta })
  | some false ↦
      increment_metric Metric.taker_fills
        (record r { taker_filled_quantity = r.taker_filled_quantity +ℤ delta })
]

-- An authoritative trade whose interval was accepted.
unfoldable pub accept_trade : ℕ → ChildOrder → FillReport → Decimal → Interval → Update (Unit {0})
accept_trade i c f delta interval = do
  apply_child_delta i c f
  modify
      (λ r. set_intervals c.client_order_id (intervals_of c.client_order_id r ++ interval ∷ []) r)
  add_vwap_input f delta
  modify (count_liquidity f delta)

unfoldable pub apply_trade : ℕ → ChildOrder → FillReport → Update (Unit {0})
apply_trade i c f r =
    if leb_ℤ (trade_delta c f) (pos 0)
    then (ok tt, ignore_fill f.trade_id r)
    else let intervals = intervals_of c.client_order_id r in
      let r' = set_intervals c.client_order_id intervals r in
      elim (accepted_interval f.incoming_cumulative (trade_delta c f) (interval_limit c f) intervals
        f.trade_id) [
          | none ↦ (ok tt, ignore_fill f.trade_id r')
          | some interval ↦ accept_trade i c f (trade_delta c f) interval r'
        ]

-- `trade_id is not None and trade_id in record.seen_fill_trade_ids`
unfoldable pub is_seen : Option Text → ExecutionRecord → Bool
is_seen none r = false
is_seen (some id) r = contains id r.seen_fill_trade_ids

unfoldable pub ignore_seen : Option Text → ExecutionRecord → ExecutionRecord
ignore_seen none r = r
ignore_seen (some id) r = record_ignored_fill_trade_id id r

-- `_update_child_cumulative_fill_locked` for the child at place `i`.
unfoldable pub update_child_cumulative_fill : ℕ → FillReport → Update (Unit {0})
update_child_cumulative_fill i f = do
  t ← require_exposure_tracker
  c ← read_child i
  λ r.
      if is_seen f.trade_id r
      then (ok tt, ignore_seen f.trade_id r)
      else if f.authoritative_trade
      then apply_trade i c f r
      else apply_child_delta i c f r

-- `_copy_exchange_child`
unfoldable pub copy_exchange_child : ChildOrder → ChildOrder → Bool → ChildOrder
copy_exchange_child c x include_filled = record c {
  exchange_order_id = x.exchange_order_id;
  raw_status = x.raw_status;
  confirmed_filled_quantity =
      if include_filled && ltb_ℤ c.confirmed_filled_quantity x.confirmed_filled_quantity
      then x.confirmed_filled_quantity
      else c.confirmed_filled_quantity;
}

-- One round of the loop of `_refresh_reserved_exposure_locked`.
unfoldable pub add_child_exposure : Exposure → ChildOrder → Exposure
add_child_exposure e c = elim c.status [
  | ChildOrderStatus.open_order ↦ record e {
    live_open_quantity = e.live_open_quantity +ℤ remaining_quantity c;
  }
  | ChildOrderStatus.partially_filled ↦ record e {
    live_open_quantity = e.live_open_quantity +ℤ remaining_quantity c;
  }
  | ChildOrderStatus.pending_submit ↦ record e {
    pending_submit_quantity = e.pending_submit_quantity +ℤ remaining_quantity c;
  }
  | ChildOrderStatus.pending_cancel ↦ record e {
    pending_cancel_quantity = e.pending_cancel_quantity +ℤ remaining_quantity c;
  }
  | ChildOrderStatus.unknown ↦ record e {
    unknown_order_quantity = e.unknown_order_quantity +ℤ remaining_quantity c;
  }
  | _ ↦ e
]

unfoldable pub add_children_exposure : Exposure → List ChildOrder → Exposure
add_children_exposure e [] = e
add_children_exposure e (c ∷ cs) = add_children_exposure (add_child_exposure e c) cs

-- `_refresh_reserved_exposure_locked`
unfoldable pub refresh_reserved_exposure : Update (Unit {0})
refresh_reserved_exposure = do
  t ← require_exposure_tracker
  modify (λ r. record r {
    exposure_tracker = some (record t {
      exposure =
          add_children_exposure
            (record empty_exposure { confirmed_filled_quantity = t.confirmed_filled_quantity })
            r.child_orders;
    });
  })
