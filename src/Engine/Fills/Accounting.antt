-- ===== src/Engine/Fills/Accounting.antt =====
-- Fills are counted once (src/execution/engine.py): whatever the exchange reports, the tracker's
-- confirmed quantity stays the sum of the children's.
use interview_assignment.Base.{
  ℕ, ◌≡◌, refl, sym, ap, ◌∙◌, ◌⊎◌, inl, inr, true, false, Option, none, some, List, [], ◌∷◌, ◌++◌,
  arith, if◌then◌else◌, Bool-cases, Option-cases, pos, Decimal, leb_ℤ, get_elem?, Text, text_eq_iff,
  ok,
}
use interview_assignment.Base.Dict.{contains, add}
use interview_assignment.Execution.Orders.{ChildOrder}
use interview_assignment.Base.Dict.{contains-add}
use interview_assignment.Engine.Exposure.{ExposureTracker}
use interview_assignment.Engine.Record.{
  Interval, ExecutionRecord, increment_metric, require_exposure_tracker, read_child,
}
use interview_assignment.Engine.Fills.{
  FillReport, ignore_fill, rebuild_vwap_inputs, trade_delta, interval_limit, intervals_of,
  set_intervals, apply_child_delta, add_vwap_input, count_liquidity, accept_trade, apply_trade,
  is_seen, ignore_seen, update_child_cumulative_fill,
}
use interview_assignment.Engine.Intervals.{accepted_interval}
use interview_assignment.Engine.Fills.Balance.{
  total_confirmed, IsAccounted, Accounts, keep, ignore_seen-IsAccounted, ignore_fill-IsAccounted,
  total_confirmed_nonneg,
}
use interview_assignment.Engine.Fills.Deltas.{
  is_new, tracker_after, record_after, apply_child_delta_lem, tracker_after-balanced,
  record_after-AllNonNegative, tracker_after-known,
}

add_vwap_input_lem :
    (f : FillReport) (delta : Decimal) (t : ExposureTracker) (r : ExecutionRecord)
    → r.exposure_tracker ≡ some t
    → (t' : ExposureTracker) × ((add_vwap_input f delta r).0 ≡ ok tt)
      × ((add_vwap_input f delta r).1.exposure_tracker ≡ some t')
      × (t'.confirmed_filled_quantity ≡ t.confirmed_filled_quantity)
      × ((add_vwap_input f delta r).1.child_orders ≡ r.child_orders)
      × ((j : Text)
          → contains j t'.seen_trade_ids ≡ true
          → ((j' : Text)
              → contains j' t.seen_trade_ids ≡ true
              → (contains j' r.seen_fill_trade_ids ≡ true) ⊎ (f.trade_id ≡ some j'))
          → contains j (add_vwap_input f delta r).1.seen_fill_trade_ids ≡ true)
unfolding add_vwap_input require_exposure_tracker rebuild_vwap_inputs
add_vwap_input_lem f delta t r e = elim (Option-cases f.trade_id) [
  | inl none_given ↦
      (t, ground arith, ground arith, refl, ground arith, λ j h known. ground (arith, known j))
  | inr (id, given) ↦ (
    record t { seen_trade_ids = add id t.seen_trade_ids },
    ground arith,
    ground arith,
    refl,
    ground arith,
    λ j h known. ground (
      arith,
      known j,
      contains-add j id t.seen_trade_ids,
      contains-add j id r.seen_fill_trade_ids,
      text_eq_iff j id,
    ),
  )
]

unseen-is_new :
    (id : Option Text) (t : ExposureTracker) (r : ExecutionRecord)
    → IsAccounted t r
    → is_seen id r ≡ false
    → is_new id t.seen_trade_ids ≡ true
unfolding is_seen is_new
unseen-is_new none t r h s = refl
unseen-is_new (some id) t r h s = ground (arith, h.known id)

module _ (i : ℕ) (c : ChildOrder) (f : FillReport) (t : ExposureTracker) (r : ExecutionRecord)
    (h : IsAccounted t r) (e : get_elem? r.child_orders i ≡ some c)
    (new : is_new f.trade_id t.seen_trade_ids ≡ true) where
  delta_returns : apply_child_delta i c f r ≡ (ok tt, record_after i c f t r)
  delta_returns =
      apply_child_delta_lem i c f t r h.tracked
        (rw h.balanced (total_confirmed_nonneg r.child_orders h.non_negative)) new

  record_after-tracked : (record_after i c f t r).exposure_tracker ≡ some (tracker_after c f t)
  unfolding record_after tracker_after
  record_after-tracked = ground (arith, h.tracked)

  record_after-seen : (record_after i c f t r).seen_fill_trade_ids ≡ r.seen_fill_trade_ids
  unfolding record_after
  record_after-seen = ground arith

  snapshot-Accounts : f.trade_id ≡ none → Accounts (apply_child_delta i c f r)
  snapshot-Accounts anonymous = rw delta_returns (
    refl,
    (
      tracker_after c f t,
      record {
        tracked = record_after-tracked;
        balanced = tracker_after-balanced i c f t r h.balanced e;
        non_negative = record_after-AllNonNegative i c f t r h.non_negative e;
        known = λ j k. rw record_after-seen (known_before j (tracker_after-known j c f t k));
      },
    ),
  )
    where
      known_before :
          (j : Text)
          → (contains j t.seen_trade_ids ≡ true) ⊎ (f.trade_id ≡ some j)
          → contains j r.seen_fill_trade_ids ≡ true
      known_before j (inl k) = h.known j k
      known_before j (inr k) = cc anonymous

  -- The record when the price input is added, and when it has been.
  with_interval : Interval → ExecutionRecord
  with_interval interval =
      set_intervals c.client_order_id
        (intervals_of c.client_order_id (record_after i c f t r) ++ interval ∷ [])
        (record_after i c f t r)

  with_input : Decimal → Interval → ExecutionRecord
  with_input delta interval = (add_vwap_input f delta (with_interval interval)).1

  accept_trade_lem :
      (delta : Decimal) (interval : Interval)
      → (add_vwap_input f delta (with_interval interval)).0 ≡ ok tt
      → accept_trade i c f delta interval r
        ≡ (ok tt, count_liquidity f delta (with_input delta interval))
  unfolding accept_trade with_interval with_input
  accept_trade_lem delta interval ret = ground (arith, delta_returns)

  with_interval-same :
      (interval : Interval)
      → ((with_interval interval).exposure_tracker ≡ some (tracker_after c f t))
        × ((with_interval interval).child_orders ≡ (record_after i c f t r).child_orders)
        × ((with_interval interval).seen_fill_trade_ids ≡ r.seen_fill_trade_ids)
  unfolding with_interval set_intervals
  with_interval-same interval = (record_after-tracked, refl, record_after-seen)

count_liquidity-IsAccounted :
    (f : FillReport) (delta : Decimal) (t : ExposureTracker) (r : ExecutionRecord)
    → IsAccounted t r
    → IsAccounted t (count_liquidity f delta r)
unfolding count_liquidity increment_metric
count_liquidity-IsAccounted f delta t r h =
    keep t r (count_liquidity f delta r) h (ground arith) (ground arith) (λ j k. ground arith)

module _ (i : ℕ) (c : ChildOrder) (f : FillReport) (t : ExposureTracker) (r : ExecutionRecord)
    (h : IsAccounted t r) (e : get_elem? r.child_orders i ≡ some c)
    (new : is_new f.trade_id t.seen_trade_ids ≡ true) where
  accept_trade-Accounts :
      (delta : Decimal) (interval : Interval) → Accounts (accept_trade i c f delta interval r)
  unfolding with_input
  accept_trade-Accounts delta interval =
      let mid = with_interval i c f t r h e new interval in
      let (tracked, children, seen) = with_interval-same i c f t r h e new interval in
      let (t', ret, tracked', same, children', known) =
        add_vwap_input_lem f delta (tracker_after c f t) mid tracked in
      rw (accept_trade_lem i c f t r h e new delta interval ret) (
        refl,
        (
          t',
          count_liquidity-IsAccounted f delta t' (with_input i c f t r h e new delta interval)
              (record {
                tracked = tracked';
                balanced =
                    same
                    ∙ tracker_after-balanced i c f t r h.balanced e
                    ∙ ap total_confirmed (sym (children' ∙ children));
                non_negative =
                    rw (children' ∙ children)
                      (record_after-AllNonNegative i c f t r h.non_negative e);
                known =
                    λ j k. known j k (λ l m. rw seen (before l (tracker_after-known l c f t m)));
              }),
        ),
      )
    where
      before :
          (l : Text)
          → (contains l t.seen_trade_ids ≡ true) ⊎ (f.trade_id ≡ some l)
          → (contains l r.seen_fill_trade_ids ≡ true) ⊎ (f.trade_id ≡ some l)
      before l (inl m) = inl (h.known l m)
      before l (inr m) = inr m

set_intervals-IsAccounted :
    (id : Text) (l : List Interval) (t : ExposureTracker) (r : ExecutionRecord)
    → IsAccounted t r
    → IsAccounted t (set_intervals id l r)
unfolding set_intervals
set_intervals-IsAccounted id l t r h = keep t r (set_intervals id l r) h refl refl (λ j k. k)

apply_trade-Accounts :
    (i : ℕ) (c : ChildOrder) (f : FillReport) (t : ExposureTracker) (r : ExecutionRecord)
    → IsAccounted t r
    → get_elem? r.child_orders i ≡ some c
    → is_new f.trade_id t.seen_trade_ids ≡ true
    → Accounts (apply_trade i c f r)
unfolding apply_trade
apply_trade-Accounts i c f t r h e new = elim (Bool-cases (leb_ℤ (trade_delta c f) (pos 0))) [
  | inl nothing ↦ rw nothing (refl, (t, ignore_fill-IsAccounted f.trade_id t r h))
  | inr trade ↦ rw trade (by_interval (Option-cases _))
]
  where
    l : List Interval
    l = intervals_of c.client_order_id r

    r' : ExecutionRecord
    r' = set_intervals c.client_order_id l r

    h' : IsAccounted t r'
    h' = set_intervals-IsAccounted c.client_order_id l t r h

    chosen : Option Interval
    chosen =
        accepted_interval f.incoming_cumulative (trade_delta c f) (interval_limit c f) l f.trade_id

    by_interval :
        (chosen ≡ none) ⊎ ((x : Interval) × (chosen ≡ some x))
        → Accounts (elim chosen [
          | none ↦ (ok tt, ignore_fill f.trade_id r')
          | some interval ↦ accept_trade i c f (trade_delta c f) interval r'
        ])
    by_interval (inl refused) = rw refused (refl, (t, ignore_fill-IsAccounted f.trade_id t r' h'))
    by_interval (inr (x, taken)) =
        rw taken
          (accept_trade-Accounts i c f t r' h' (unfold set_intervals in e) new (trade_delta c f) x)

update_lem :
    (i : ℕ) (c : ChildOrder) (f : FillReport) (t : ExposureTracker) (r : ExecutionRecord)
    → r.exposure_tracker ≡ some t
    → get_elem? r.child_orders i ≡ some c
    → update_child_cumulative_fill i f r ≡ (
        if is_seen f.trade_id r
        then (ok tt, ignore_seen f.trade_id r)
        else if f.authoritative_trade
        then apply_trade i c f r
        else apply_child_delta i c f r)
unfolding update_child_cumulative_fill require_exposure_tracker read_child
update_lem i c f t r tracked e = ground arith

-- In a record whose tracker accounts for its children, whatever the exchange reports about a known
-- child (a trade or a snapshot without one, new or repeated, with any quantities), the call
-- returns, and the tracker's confirmed quantity is still the sum of what the children have, none of
-- it negative.
pub update-Accounts :
    (i : ℕ) (c : ChildOrder) (f : FillReport) (t : ExposureTracker) (r : ExecutionRecord)
    → IsAccounted t r
    → get_elem? r.child_orders i ≡ some c
    → (f.authoritative_trade ≡ false → f.trade_id ≡ none)
    → Accounts (update_child_cumulative_fill i f r)
update-Accounts i c f t r h e anonymous =
    rw (update_lem i c f t r h.tracked e) (elim (Bool-cases (is_seen f.trade_id r)) [
      | inl old ↦ rw old (refl, (t, ignore_seen-IsAccounted f.trade_id t r h))
      | inr unseen ↦
          let new = unseen-is_new f.trade_id t r h unseen in
          rw unseen (elim (Bool-cases f.authoritative_trade) [
            | inl trade ↦ simp trade (apply_trade-Accounts i c f t r h e new)
            | inr snapshot ↦
                simp snapshot (snapshot-Accounts i c f t r h e new (anonymous snapshot))
          ])
    ])
