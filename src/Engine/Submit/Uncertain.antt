-- ===== src/Engine/Submit/Uncertain.antt =====
-- `_submit_child_locked` of src/execution/engine.py when the exchange does not answer in time: the
-- order may or may not exist.
use interview_assignment.Base.{
  after_call, ◌+◌, String, ◌≡◌, refl, ap, ◌∙◌, Bool, Option, some, List, [], ◌∷◌, ◌++◌, arith, pos,
  Decimal, ◌+ℤ◌, ◌≤ℤ◌, int_laws, length, get_elem?, set, Text, Exception, Result, ok, raised, Exec,
  modify, ◌>>◌,
}
use interview_assignment.Execution.Models.{ChildOrderStatus}
use interview_assignment.Execution.Orders.{ChildOrder, reserved_exposure}
use interview_assignment.Execution.StateMachine.{transition_child}
use interview_assignment.Risk.Validation.{check_exposure_invariant}
use interview_assignment.Exchanges.{ExchangeAdapter}
use interview_assignment.Engine.ChildStatus.{set_status, set_child_status}
use interview_assignment.Engine.Exposure.{
  ExposureTracker, available_to_submit, check_can_submit, release_pending_submit,
  reserve_unknown_create,
}
use interview_assignment.Engine.Record.{
  ExecutionRecord, Update, exposure, confirmed, reserved, record_max_reserved_exposure,
  assert_exposure_invariant, require_exposure_tracker, on_tracker, read_child, write_child,
}
use interview_assignment.Execution.Ids
use interview_assignment.Engine.Session.{Session, set_status_at, set_reason_at}
use interview_assignment.Engine.Exposure.Limits.{IsWithin, can_submit, with_pending}
use interview_assignment.Engine.Submit.{
  order_request, Submission, submit_timed_out, submit_failed, submit_child,
}
use interview_assignment.Engine.Submit.Sent.{
  submitted_record, sent_child, release_lem, IsOut, submitted_record-IsOut, sent, submit_raises,
}

get_elem?-append : {A : Type 0} (l : List A) (x : A) → get_elem? (l ++ x ∷ []) (length l) ≡ some x
get_elem?-append [] x = refl
get_elem?-append (y ∷ l) x = get_elem?-append l x

set-append : {A : Type 0} (l : List A) (x z : A) → set (l ++ x ∷ []) (length l) z ≡ l ++ z ∷ []
set-append [] x z = refl
set-append (y ∷ l) x z = ap (λ k. y ∷ k) (set-append l x z)

-- A write to the last child, and a call of the tracker.
module _ (l : List ChildOrder) (c : ChildOrder) (r : ExecutionRecord)
    (last : r.child_orders ≡ l ++ c ∷ []) where
  status_last :
      (c' : ChildOrder) (target : ChildOrderStatus)
      → set_child_status c target ≡ ok c'
      → set_status_at (length l) target r ≡ (ok tt, record r { child_orders = l ++ c' ∷ [] })
  unfolding set_status_at read_child write_child
  status_last c' target moved = ground (arith, get_elem?-append l c, set-append l c c')

  reason_last :
      (reason : Option String)
      → set_reason_at (length l) reason r
        ≡ (ok tt, record r { child_orders = l ++ record c { terminal_reason = reason } ∷ [] })
  unfolding set_reason_at read_child write_child
  reason_last reason =
      ground (arith, get_elem?-append l c, set-append l c (record c { terminal_reason = reason }))

tracker_call :
    (m : Exec ExposureTracker (Unit {0})) (t t' : ExposureTracker) (r : ExecutionRecord)
    → r.exposure_tracker ≡ some t
    → m t ≡ (ok tt, t')
    → on_tracker m r ≡ (ok tt, record r { exposure_tracker = some t' })
unfolding on_tracker require_exposure_tracker
tracker_call m t t' r e h = ground (arith, h)

unfoldable pub with_uncertain : ExposureTracker → Decimal → ExposureTracker
with_uncertain t q = record t {
  exposure = record t.exposure { unknown_order_quantity = t.unknown_order_quantity +ℤ q };
}

reserve_uncertain :
    (q : Decimal) (t : ExposureTracker)
    → check_can_submit q t ≡ (ok tt, t)
    → reserve_unknown_create q t ≡ (ok tt, with_uncertain t q)
unfolding reserve_unknown_create with_uncertain
reserve_uncertain q t e = ground arith

with_uncertain_lem :
    (q : Decimal) (t : ExposureTracker)
    → IsWithin t
    → pos 0 ≤ℤ q
    → q ≤ℤ available_to_submit t
    → (reserved_exposure (with_uncertain t q).exposure ≡ reserved_exposure t.exposure +ℤ q)
      × (check_exposure_invariant
            (with_uncertain t q).exposure
            (pos 0)
            t.target_quantity
            t.permitted_tolerance
          ≡ ok tt)
unfolding with_uncertain check_exposure_invariant reserved_exposure available_to_submit
with_uncertain_lem q t h p fits = (grind int_laws, grind int_laws)

-- The child whose creation is uncertain.
abbrev pub uncertain_child : ChildOrder → ChildOrder
uncertain_child c = record c {
  status = ChildOrderStatus.unknown;
  terminal_reason = some "CREATE_TIMEOUT_PENDING_RECONCILIATION";
}

becomes_unknown :
    (c : ChildOrder)
    → c.status ≡ ChildOrderStatus.pending_submit
    → set_child_status c ChildOrderStatus.unknown
      ≡ ok (record c { status = ChildOrderStatus.unknown })
unfolding set_child_status set_status transition_child
becomes_unknown c h = ground arith

asserts :
    (t : ExposureTracker) (r : ExecutionRecord)
    → r.exposure_tracker ≡ some t
    → t.target_quantity ≡ r.required_quantity
    → check_exposure_invariant t.exposure (pos 0) t.target_quantity t.permitted_tolerance ≡ ok tt
    → (assert_exposure_invariant r).0 ≡ ok tt
unfolding assert_exposure_invariant exposure
asserts t r tracked target safe = rw tracked (rw⁻¹ target safe)

reads :
    (t : ExposureTracker) (r : ExecutionRecord)
    → r.exposure_tracker ≡ some t
    → (reserved r ≡ reserved_exposure t.exposure) × (confirmed r ≡ t.confirmed_filled_quantity)
unfolding exposure
reads t r tracked = rw tracked (refl, refl)

module _ (l : List ChildOrder) (t : ExposureTracker) (s : Submission) (r : ExecutionRecord)
    (out : IsOut s.child.submitted_quantity l t s.child r) (here : s.place ≡ length l)
    (pending : s.child.status ≡ ChildOrderStatus.pending_submit) (within : IsWithin t)
    (positive : pos 0 ≤ℤ s.child.submitted_quantity)
    (fits : s.child.submitted_quantity ≤ℤ available_to_submit t) where
  abbrev final : ExecutionRecord
  final =
      record (record_max_reserved_exposure (record r {
        exposure_tracker = some (with_uncertain t s.child.submitted_quantity);
        child_orders = l ++ uncertain_child s.child ∷ [];
      })) { final_reason = some "CREATE_TIMEOUT_PENDING_RECONCILIATION" }

  -- The rest of the handler after each of its steps.
  abbrev noted : Update (Unit {0})
  noted = do
    modify record_max_reserved_exposure
    modify (λ r. record r { final_reason = some "CREATE_TIMEOUT_PENDING_RECONCILIATION" })
    assert_exposure_invariant

  abbrev reserved_again : Update (Unit {0})
  reserved_again = on_tracker (reserve_unknown_create s.child.submitted_quantity) >> noted

  abbrev explained : Update (Unit {0})
  explained =
      set_reason_at (length l) (some "CREATE_TIMEOUT_PENDING_RECONCILIATION") >> reserved_again

  abbrev marked : Update (Unit {0})
  marked = set_status_at (length l) ChildOrderStatus.unknown >> explained

  timed_out_lem : submit_timed_out s r ≡ (assert_exposure_invariant final)
  unfolding submit_timed_out
  timed_out_lem =
      let r1 = record r { exposure_tracker = some t } in
      let c1 = record s.child { status = ChildOrderStatus.unknown } in
      let r2 = record r1 { child_orders = l ++ c1 ∷ [] } in
      let r3 = record r2 { child_orders = l ++ uncertain_child s.child ∷ [] } in
      let can = can_submit s.child.submitted_quantity t within positive fits in
      rw here (
        after_call (on_tracker (release_pending_submit s.child.submitted_quantity)) (λ _. marked) r
          r1 tt
          (tracker_call (release_pending_submit s.child.submitted_quantity)
            (with_pending t s.child.submitted_quantity) t r out.reserved_for
            (release_lem s.child.submitted_quantity t within positive))
        ∙ after_call (set_status_at (length l) ChildOrderStatus.unknown) (λ _. explained) r1 r2 tt
            (status_last l s.child r1 out.appended c1 ChildOrderStatus.unknown
              (becomes_unknown s.child pending))
        ∙ after_call (set_reason_at (length l) (some "CREATE_TIMEOUT_PENDING_RECONCILIATION"))
            (λ _. reserved_again) r2 r3 tt
            (reason_last l c1 r2 refl (some "CREATE_TIMEOUT_PENDING_RECONCILIATION"))
        ∙ after_call (on_tracker (reserve_unknown_create s.child.submitted_quantity)) (λ _. noted)
            r3 (record r3 { exposure_tracker = some (with_uncertain t s.child.submitted_quantity) })
            tt
            (tracker_call (reserve_unknown_create s.child.submitted_quantity) t
              (with_uncertain t s.child.submitted_quantity) r3 refl
              (reserve_uncertain s.child.submitted_quantity t can)))

  final_parts :
      (final.child_orders ≡ l ++ uncertain_child s.child ∷ [])
      × (final.exposure_tracker ≡ some (with_uncertain t s.child.submitted_quantity))
      × (t.target_quantity ≡ final.required_quantity)
  unfolding record_max_reserved_exposure
  final_parts = (ground arith, ground arith, ground (arith, out.target))

module _ (a : ExchangeAdapter) (q price bid ask : Decimal) (post_only : Bool) (id : Text)
    (t : ExposureTracker) (s : Session a) (w : a.World)
    (tracked : s.execution.exposure_tracker ≡ some t) (within : IsWithin t)
    (target : t.target_quantity ≡ s.execution.required_quantity) (positive : pos 0 ≤ℤ q)
    (fits : q ≤ℤ available_to_submit t)
    (named : Ids.make_client_order_id s.execution.execution_id (s.execution.last_child_sequence + 1)
      ≡ ok id) where
  abbrev submitted : Result (Unit {0}) × Session a
  submitted = submit_child a q price post_only bid ask s

  -- When the exchange does not answer an order of at most the available quantity in time, the call
  -- returns and keeps the order as an unknown child: its whole quantity stays reserved, nothing
  -- counts as filled, and the reason says that reconciliation is pending. The record's tracker is
  -- within its limits and has the required quantity as its target, and the next client order id is
  -- valid.
  pub timed_out_order_stays_reserved :
      (m : String)
      → a.submit_limit_order
          (order_request s.execution (sent_child s.execution id q price) post_only)
          s.world
        ≡ (raised (Exception.order_create_timeout m), w)
      → (submitted.0 ≡ ok tt)
        × (submitted.1.world ≡ w)
        × (submitted.1.execution.child_orders
            ≡ s.execution.child_orders ++ uncertain_child (sent_child s.execution id q price) ∷ [])
        × (reserved submitted.1.execution ≡ reserved_exposure t.exposure +ℤ q)
        × (confirmed submitted.1.execution ≡ t.confirmed_filled_quantity)
        × (submitted.1.execution.final_reason ≡ some "CREATE_TIMEOUT_PENDING_RECONCILIATION")
  unfolding submit_failed assert_exposure_invariant with_uncertain
  timed_out_order_stays_reserved m refused =
      let l = s.execution.child_orders in
      let sub = sent q price bid ask post_only id s.execution in
      let r = submitted_record (a.monotonic s.world) q price post_only id t s.execution in
      let out =
        submitted_record-IsOut (a.monotonic s.world) q price post_only id t s.execution target in
      let e = timed_out_lem l t sub r out refl refl within positive fits in
      let (children, tracker, whole) = final_parts l t sub r out refl refl within positive fits in
      let (more, safe) = with_uncertain_lem q t within positive fits in
      let f = final l t sub r out refl refl within positive fits in
      let (total, filled) = reads (with_uncertain t q) f tracker in
      rw
        (submit_raises a q price bid ask post_only id t s w tracked within target positive fits
          named (Exception.order_create_timeout m) refused)
        (rw e (
          asserts (with_uncertain t q) f tracker whole safe,
          refl,
          children,
          total ∙ more,
          filled,
          refl,
        ))
