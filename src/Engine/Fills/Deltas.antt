-- ===== src/Engine/Fills/Deltas.antt =====
-- The first part of a fill report (src/execution/engine.py, `apply_child_delta`): the child and the
-- tracker rise together.
use interview_assignment.Base.{
  ℕ, ◌≡◌, refl, ◌⊎◌, inl, inr, Bool, true, not, Option, none, some, arith, if◌then◌else◌, ltb→lt,
  Bool-cases, Option-cases, pos, Decimal, ◌+ℤ◌, ◌-ℤ◌, ◌≤ℤ◌, ◌<ℤ◌, ltb_ℤ, int_laws, get_elem?, set,
  Text, text_eq_iff, ok,
}
use interview_assignment.Base.Dict.{IdSet, contains, add}
use interview_assignment.Execution.Orders.{ChildOrder}
use interview_assignment.Base.Dict.{contains-add}
use interview_assignment.Engine.Exposure.{
  ExposureTracker, require_non_negative, raise_confirmed, apply_fill,
}
use interview_assignment.Engine.Record.{
  ExecutionRecord, require_exposure_tracker, on_tracker, write_child,
}
use interview_assignment.Engine.Fills.{FillReport, child_delta, apply_child_delta}
use interview_assignment.Engine.Fills.Balance.{
  total_confirmed, AllNonNegative, total_confirmed-set, AllNonNegative-get, AllNonNegative-set,
}

-- The tracker after an unseen fill that raises its total by a positive amount.
unfoldable pub raised_tracker : Option Text → Decimal → ExposureTracker → ExposureTracker
raised_tracker none total t = record t {
  exposure = record t.exposure { confirmed_filled_quantity = total };
}
raised_tracker (some id) total t = record t {
  exposure = record t.exposure { confirmed_filled_quantity = total };
  seen_trade_ids = add id t.seen_trade_ids;
}

unfoldable pub is_new : Option Text → IdSet → Bool
is_new none s = true
is_new (some id) s = not (contains id s)

pub apply_fill_raises :
    (id : Option Text) (total : Decimal) (t : ExposureTracker)
    → is_new id t.seen_trade_ids ≡ true
    → pos 0 ≤ℤ total
    → t.confirmed_filled_quantity <ℤ total
    → apply_fill id total t ≡ (ok (total -ℤ t.confirmed_filled_quantity), raised_tracker id total t)
unfolding is_new apply_fill raise_confirmed require_non_negative raised_tracker
apply_fill_raises none total t n p q = ground arith
apply_fill_raises (some id) total t n p q = ground arith

-- What `apply_child_delta` comes to: the tracker, and the record with it.
unfoldable pub tracker_after : ChildOrder → FillReport → ExposureTracker → ExposureTracker
tracker_after c f t =
    if ltb_ℤ (pos 0) (child_delta c f)
    then raised_tracker f.trade_id (t.confirmed_filled_quantity +ℤ child_delta c f) t
    else t

unfoldable pub record_after :
    ℕ → ChildOrder → FillReport → ExposureTracker → ExecutionRecord → ExecutionRecord
record_after i c f t r =
    if ltb_ℤ (pos 0) (child_delta c f)
    then record r {
      child_orders =
          set r.child_orders i (record c { confirmed_filled_quantity = f.incoming_cumulative });
      exposure_tracker = some (tracker_after c f t);
    }
    else r

pub apply_child_delta_lem :
    (i : ℕ) (c : ChildOrder) (f : FillReport) (t : ExposureTracker) (r : ExecutionRecord)
    → r.exposure_tracker ≡ some t
    → pos 0 ≤ℤ t.confirmed_filled_quantity
    → is_new f.trade_id t.seen_trade_ids ≡ true
    → apply_child_delta i c f r ≡ (ok tt, record_after i c f t r)
unfolding apply_child_delta on_tracker require_exposure_tracker write_child record_after
    tracker_after
apply_child_delta_lem i c f t r e p n = elim (Bool-cases (ltb_ℤ (pos 0) (child_delta c f))) [
  | inl positive ↦
      let total = t.confirmed_filled_quantity +ℤ child_delta c f in
      let above : t.confirmed_filled_quantity <ℤ total = omega (int_laws, ltb→lt _ _ positive) in
      let a = apply_fill_raises f.trade_id total t n (omega arith) above in ground (arith, a)
  | inr none_new ↦ rw none_new
]

pub raised_tracker-confirmed :
    (id : Option Text) (total : Decimal) (t : ExposureTracker)
    → (raised_tracker id total t).confirmed_filled_quantity ≡ total
unfolding raised_tracker
raised_tracker-confirmed none total t = refl
raised_tracker-confirmed (some id) total t = refl

pub child_delta_positive :
    (c : ChildOrder) (f : FillReport)
    → ltb_ℤ (pos 0) (child_delta c f) ≡ true
    → (child_delta c f ≡ f.incoming_cumulative -ℤ c.confirmed_filled_quantity)
      × (c.confirmed_filled_quantity <ℤ f.incoming_cumulative)
unfolding child_delta
child_delta_positive c f h = ground arith

-- The first part of a report: the child and the tracker rise by the same amount.
module _ (i : ℕ) (c : ChildOrder) (f : FillReport) (t : ExposureTracker) (r : ExecutionRecord) where
  pub tracker_after-balanced :
      t.confirmed_filled_quantity ≡ total_confirmed r.child_orders
      → get_elem? r.child_orders i ≡ some c
      → (tracker_after c f t).confirmed_filled_quantity
        ≡ total_confirmed (record_after i c f t r).child_orders
  unfolding tracker_after record_after
  tracker_after-balanced b e = elim (Bool-cases (ltb_ℤ (pos 0) (child_delta c f))) [
    | inl positive ↦
        let d = record c { confirmed_filled_quantity = f.incoming_cumulative } in
        rw (positive, raised_tracker-confirmed, (child_delta_positive c f positive).0, b)
          (grind (int_laws, total_confirmed-set r.child_orders i c d e))
    | inr unchanged ↦ rw unchanged b
  ]

  pub record_after-AllNonNegative :
      AllNonNegative r.child_orders
      → get_elem? r.child_orders i ≡ some c
      → AllNonNegative (record_after i c f t r).child_orders
  unfolding record_after
  record_after-AllNonNegative h e = elim (Bool-cases (ltb_ℤ (pos 0) (child_delta c f))) [
    | inl positive ↦
        let d = record c { confirmed_filled_quantity = f.incoming_cumulative } in
        let above = (child_delta_positive c f positive).1 in
        rw positive (
          AllNonNegative-set r.child_orders i d h
            (omega (arith, AllNonNegative-get r.child_orders i c h e, above)))
    | inr unchanged ↦ rw unchanged h
  ]

-- A trade that the tracker knows afterwards is the reported one or was known before.
pub tracker_after-known :
    (j : Text) (c : ChildOrder) (f : FillReport) (t : ExposureTracker)
    → contains j (tracker_after c f t).seen_trade_ids ≡ true
    → (contains j t.seen_trade_ids ≡ true) ⊎ (f.trade_id ≡ some j)
unfolding tracker_after raised_tracker
tracker_after-known j c f t h = elim (Option-cases f.trade_id) [
  | inl e ↦ ground arith
  | inr (id, e) ↦ ground (arith, contains-add j id t.seen_trade_ids, text_eq_iff j id)
]
