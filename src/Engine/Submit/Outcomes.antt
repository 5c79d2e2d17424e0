-- ===== src/Engine/Submit/Outcomes.antt =====
-- What `_submit_child_locked` of src/execution/engine.py leaves behind when the order is refused.
use interview_assignment.Base.{
  ◌+◌, String, ◌≡◌, refl, Bool, false, some, List, arith, pos, Decimal, ◌+ℤ◌, ◌≤ℤ◌, ◌<ℤ◌, int_laws,
  length, Text, Exception, Result, ok, raised, returns,
}
use interview_assignment.Execution.Orders.{ChildOrder, reserved_exposure}
use interview_assignment.Risk.Validation.{check_exposure_invariant}
use interview_assignment.Exchanges.{ExchangeAdapter}
use interview_assignment.Engine.Exposure.{ExposureTracker, available_to_submit, check_can_submit}
use interview_assignment.Engine.Record.{
  ExecutionRecord, exposure, increment_metric, assert_exposure_invariant, require_exposure_tracker,
  on_tracker,
}
use interview_assignment.Engine.Gates.{record_rate_limit_backoff}
use interview_assignment.Execution.Ids
use interview_assignment.Engine.Exposure.{require_non_negative}
use interview_assignment.Engine.Session.{Session}
use interview_assignment.Engine.Exposure.Limits.{IsWithin}
use interview_assignment.Engine.Submit.{
  prepare_submit, order_request, forget_child, Submission, submit_rate_limited, submit_broken,
  submit_failed, submit_child,
}
use interview_assignment.Engine.Submit.Sent.{
  submitted_record, sent_child, release_lem, remove_at-append, still_within, IsOut,
  submitted_record-IsOut, sent, submit_raises,
}

raises : {A : Type 0} (x : Result A) → returns x ≡ false → (e : Exception) × (x ≡ raised e)
raises (ok _) h = absurd (cc)
raises (raised e) h = (e, refl)

no_room :
    (q : Decimal) (t : ExposureTracker)
    → available_to_submit t +ℤ t.permitted_tolerance <ℤ q
    → returns (check_can_submit q t).0 ≡ false
unfolding check_can_submit check_exposure_invariant require_non_negative available_to_submit
    reserved_exposure
no_room q t h = grind int_laws

-- An order that is larger than what is available, tolerance included, never leaves: the call raises
-- before the adapter is called, and neither the world nor the list of children has changed.
pub oversized_order_stays :
    (a : ExchangeAdapter) (q price bid ask : Decimal) (post_only : Bool) (t : ExposureTracker)
    (s : Session a)
    → s.execution.exposure_tracker ≡ some t
    → available_to_submit t +ℤ t.permitted_tolerance <ℤ q
    → (returns (submit_child a q price post_only bid ask s).0 ≡ false)
      × ((submit_child a q price post_only bid ask s).1.world ≡ s.world)
      × ((submit_child a q price post_only bid ask s).1.execution.child_orders
          ≡ s.execution.child_orders)
unfolding submit_child prepare_submit on_tracker require_exposure_tracker
oversized_order_stays a q price bid ask post_only t s e h =
    let (x, raised_x) = raises (check_can_submit q t).0 (no_room q t h) in
    simp (e, raised_x) (refl, refl, refl)

-- The children and the tracker are those of before.
abbrev pub IsForgotten : ExposureTracker → ExecutionRecord → ExecutionRecord → Type 0
IsForgotten t r r' = (r'.child_orders ≡ r.child_orders) × (r'.exposure_tracker ≡ some t)

module _ (q : Decimal) (l : List ChildOrder) (t : ExposureTracker) (s : Submission)
    (r : ExecutionRecord) (out : IsOut q l t s.child r) (here : s.place ≡ length l)
    (whole : s.child.submitted_quantity ≡ q) (within : IsWithin t) (positive : pos 0 ≤ℤ q) where
  rate_limited_returns :
      (later : Decimal) (m : String) → (submit_rate_limited later s m r).0 ≡ ok tt
  unfolding submit_rate_limited on_tracker require_exposure_tracker forget_child
      assert_exposure_invariant record_rate_limit_backoff increment_metric exposure
  rate_limited_returns later m =
      ground (
        arith,
        out.reserved_for,
        out.target,
        release_lem q t within positive,
        still_within t within,
      )

  rate_limited_children :
      (later : Decimal) (m : String) → (submit_rate_limited later s m r).1.child_orders ≡ l
  unfolding submit_rate_limited on_tracker require_exposure_tracker forget_child
      assert_exposure_invariant record_rate_limit_backoff increment_metric
  rate_limited_children later m = ground (
    arith,
    out.reserved_for,
    out.appended,
    release_lem q t within positive,
    remove_at-append l s.child,
  )

  rate_limited_tracker :
      (later : Decimal) (m : String) → (submit_rate_limited later s m r).1.exposure_tracker ≡ some t
  unfolding submit_rate_limited on_tracker require_exposure_tracker forget_child
      assert_exposure_invariant record_rate_limit_backoff increment_metric
  rate_limited_tracker later m = ground (arith, out.reserved_for, release_lem q t within positive)

  broken_parts :
      (e : Exception)
      → ((submit_broken s e r).0 ≡ raised e)
        × ((submit_broken s e r).1.child_orders ≡ l)
        × ((submit_broken s e r).1.exposure_tracker ≡ some t)
  unfolding submit_broken on_tracker require_exposure_tracker forget_child
  broken_parts e =
      let back = release_lem q t within positive in
      (
        ground (arith, out.reserved_for, back),
        ground (arith, out.reserved_for, out.appended, back, remove_at-append l s.child),
        ground (arith, out.reserved_for, back),
      )

module _ (a : ExchangeAdapter) (q price bid ask : Decimal) (post_only : Bool) (id : Text)
    (t : ExposureTracker) (s : Session a) (w : a.World)
    (tracked : s.execution.exposure_tracker ≡ some t) (within : IsWithin t)
    (target : t.target_quantity ≡ s.execution.required_quantity) (positive : pos 0 ≤ℤ q)
    (fits : q ≤ℤ available_to_submit t)
    (named : Ids.make_client_order_id s.execution.execution_id (s.execution.last_child_sequence + 1)
      ≡ ok id) where
  abbrev submission : Submission
  submission = sent q price bid ask post_only id s.execution

  abbrev later_record : ExecutionRecord
  later_record = submitted_record (a.monotonic s.world) q price post_only id t s.execution

  out : IsOut q s.execution.child_orders t (sent_child s.execution id q price) later_record
  out = submitted_record-IsOut (a.monotonic s.world) q price post_only id t s.execution target

  abbrev submitted : Result (Unit {0}) × Session a
  submitted = submit_child a q price post_only bid ask s

  -- When the exchange answers an order of at most the available quantity with a rate limit, the
  -- call returns, and the order is forgotten: the children and the tracker are what they were.
  -- The record's tracker is within
  -- its limits and has the required quantity as its target, and the next client order id is valid.
  pub rate_limited_order-IsForgotten :
      (m : String)
      → a.submit_limit_order
          (order_request s.execution (sent_child s.execution id q price) post_only)
          s.world
        ≡ (raised (Exception.exchange_rate_limited m), w)
      → (submitted.0 ≡ ok tt)
        × (submitted.1.world ≡ w)
        × IsForgotten t s.execution submitted.1.execution
  unfolding submit_failed
  rate_limited_order-IsForgotten m refused =
      let l = s.execution.child_orders in
      let later = a.monotonic w in
      rw
        (submit_raises a q price bid ask post_only id t s w tracked within target positive fits
          named (Exception.exchange_rate_limited m) refused)
        (
          rate_limited_returns q l t submission later_record out refl refl within positive later m,
          refl,
          (
            rate_limited_children q l t submission later_record out refl refl within positive later
                m,
            rate_limited_tracker q l t submission later_record out refl refl within positive later
                m,
          ),
        )

  -- When the exchange fails on an order of at most the available quantity in a way that the engine
  -- does not know, that very exception goes on to the caller, and the order is forgotten: the
  -- children and the tracker are what they were. The record's tracker is within its limits and has
  -- the required quantity as its target, and the next client order id is valid.
  pub broken_order-IsForgotten :
      (m : String)
      → a.submit_limit_order
          (order_request s.execution (sent_child s.execution id q price) post_only)
          s.world
        ≡ (raised (Exception.other_exception m), w)
      → (submitted.0 ≡ raised (Exception.other_exception m))
        × (submitted.1.world ≡ w)
        × IsForgotten t s.execution submitted.1.execution
  unfolding submit_failed
  broken_order-IsForgotten m refused =
      let (x, children, same) =
        broken_parts q s.execution.child_orders t submission later_record out refl refl within
          positive (Exception.other_exception m) in
      rw
        (submit_raises a q price bid ask post_only id t s w tracked within target positive fits
          named (Exception.other_exception m) refused)
        (x, refl, (children, same))
