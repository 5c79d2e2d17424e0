-- ===== src/Engine/Submit/Sent.antt =====
-- `_submit_child_locked` of src/execution/engine.py up to the answer of the exchange: the record
-- with the order out, and what an exception meets.
use interview_assignment.Base.{
  ◌+◌, ◌≡◌, refl, ap, Bool, some, List, [], ◌∷◌, ◌++◌, arith, pos, Decimal, ◌+ℤ◌, ◌-ℤ◌, ◌≤ℤ◌,
  int_laws, length, remove_at, Text, Exception, ok, raised,
}
use interview_assignment.Execution.Orders.{ChildOrder, floor_zero, reserved_exposure}
use interview_assignment.Risk.Validation.{check_exposure_invariant}
use interview_assignment.Exchanges.{ExchangeAdapter}
use interview_assignment.Engine.Exposure.{
  ExposureTracker, available_to_submit, release_pending_submit,
}
use interview_assignment.Engine.Record.{
  ExecutionRecord, Metric, increment_metric, record_max_reserved_exposure, require_exposure_tracker,
  on_tracker,
}
use interview_assignment.Execution.Ids
use interview_assignment.Engine.Exposure.{require_non_negative, subtract_floor_zero}
use interview_assignment.Engine.Session.{Session}
use interview_assignment.Engine.Exposure.Limits.{IsWithin, can_submit, reserves, with_pending}
use interview_assignment.Execution.Orders.{OrderRequest}
use interview_assignment.Engine.Submit.{
  new_child, append_child, prepare_submit, order_request, Submission, submit_failed, submit_child,
}

-- The record when the order goes out.
unfoldable pub submitted_record :
    Decimal → Decimal → Decimal → Bool → Text → ExposureTracker → ExecutionRecord → ExecutionRecord
submitted_record now q price post_only id t r =
    let counted = record r { last_child_sequence = r.last_child_sequence + 1 } in
    let appended = append_child now post_only (new_child counted id q price) counted in
    record_max_reserved_exposure (
      increment_metric Metric.orders_submitted
        (record appended { exposure_tracker = some (with_pending t q) }))

abbrev pub sent_child : ExecutionRecord → Text → Decimal → Decimal → ChildOrder
sent_child r id q price =
    new_child (record r { last_child_sequence = r.last_child_sequence + 1 }) id q price

module _ (now q price : Decimal) (post_only : Bool) (id : Text) (t : ExposureTracker)
    (r : ExecutionRecord) (tracked : r.exposure_tracker ≡ some t) (within : IsWithin t)
    (positive : pos 0 ≤ℤ q) (fits : q ≤ℤ available_to_submit t)
    (named : Ids.make_client_order_id r.execution_id (r.last_child_sequence + 1) ≡ ok id) where
  pub prepare_lem : prepare_submit now q price post_only r ≡ (
    ok (length r.child_orders, sent_child r id q price),
    submitted_record now q price post_only id t r,
  )
  unfolding prepare_submit submitted_record on_tracker require_exposure_tracker append_child
  prepare_lem =
      let can = can_submit q t within positive fits in
      let booked = reserves q t can in ground (arith, can, booked)

restored : {p : Decimal} (q : Decimal) → pos 0 ≤ℤ p → floor_zero (p +ℤ q -ℤ q) ≡ p
restored q h = grind int_laws

-- Taking back a reservation gives back the tracker.
pub release_lem :
    (q : Decimal) (t : ExposureTracker)
    → IsWithin t
    → pos 0 ≤ℤ q
    → release_pending_submit q (with_pending t q) ≡ (ok tt, t)
unfolding release_pending_submit with_pending require_non_negative subtract_floor_zero
release_lem q t h p = ground (arith, restored q h.submitting)

pub remove_at-append : {A : Type 0} (l : List A) (x : A) → remove_at (l ++ x ∷ []) (length l) ≡ l
remove_at-append [] x = refl
remove_at-append (y ∷ l) x = ap (λ k. y ∷ k) (remove_at-append l x)

pub still_within :
    (t : ExposureTracker)
    → IsWithin t
    → check_exposure_invariant t.exposure (pos 0) t.target_quantity t.permitted_tolerance ≡ ok tt
unfolding check_exposure_invariant reserved_exposure
still_within t h = grind int_laws

-- An order that is out: the reservation, and the child at the end of the children.
pub record IsOut (q : Decimal) (l : List ChildOrder) (t : ExposureTracker) (c : ChildOrder)
    (r : ExecutionRecord) : Type 0 where
  pub reserved_for : r.exposure_tracker ≡ some (with_pending t q)
  pub appended : r.child_orders ≡ l ++ c ∷ []
  pub target : t.target_quantity ≡ r.required_quantity

pub submitted_record-IsOut :
    (now q price : Decimal) (post_only : Bool) (id : Text) (t : ExposureTracker)
    (r : ExecutionRecord)
    → t.target_quantity ≡ r.required_quantity
    → IsOut q r.child_orders t
        (sent_child r id q price)
        (submitted_record now q price post_only id t r)
unfolding submitted_record append_child increment_metric record_max_reserved_exposure
submitted_record-IsOut now q price post_only id t r h = record {
  reserved_for = ground arith;
  appended = ground arith;
  target = ground arith;
}

abbrev pub sent : Decimal → Decimal → Decimal → Decimal → Bool → Text → ExecutionRecord → Submission
sent q price bid ask post_only id r = record {
  place = length r.child_orders;
  child = sent_child r id q price;
  post_only = post_only;
  market_bid = bid;
  market_ask = ask;
}

pub same_request :
    (now q price : Decimal) (post_only : Bool) (id : Text) (t : ExposureTracker)
    (r : ExecutionRecord)
    → order_request
        (submitted_record now q price post_only id t r)
        (sent_child r id q price)
        post_only
      ≡ order_request r (sent_child r id q price) post_only
unfolding submitted_record append_child increment_metric record_max_reserved_exposure
same_request now q price post_only id t r = ground arith

module _ (a : ExchangeAdapter) (q price bid ask : Decimal) (post_only : Bool) (id : Text)
    (t : ExposureTracker) (s : Session a) (w : a.World)
    (tracked : s.execution.exposure_tracker ≡ some t) (within : IsWithin t)
    (target : t.target_quantity ≡ s.execution.required_quantity) (positive : pos 0 ≤ℤ q)
    (fits : q ≤ℤ available_to_submit t)
    (named : Ids.make_client_order_id s.execution.execution_id (s.execution.last_child_sequence + 1)
      ≡ ok id) where
  abbrev pub request_sent : OrderRequest
  request_sent = order_request s.execution (sent_child s.execution id q price) post_only

  abbrev pub later_record : ExecutionRecord
  later_record = submitted_record (a.monotonic s.world) q price post_only id t s.execution

  abbrev pub submission : Submission
  submission = sent q price bid ask post_only id s.execution

  pub submit_raises :
      (e : Exception)
      → a.submit_limit_order request_sent s.world ≡ (raised e, w)
      → submit_child a q price post_only bid ask s ≡ (
        (submit_failed (a.monotonic w) submission e later_record).0,
        record {
          world = w;
          execution = (submit_failed (a.monotonic w) submission e later_record).1;
        },
      )
  unfolding submit_child
  submit_raises e refused =
      let p =
        prepare_lem (a.monotonic s.world) q price post_only id t s.execution tracked within positive
          fits named in
      let same = same_request (a.monotonic s.world) q price post_only id t s.execution in
      ground (arith, p, same, refused)

  pub out : IsOut q s.execution.child_orders t (sent_child s.execution id q price) later_record
  out = submitted_record-IsOut (a.monotonic s.world) q price post_only id t s.execution target
