-- ===== src/Engine/Rounds/Children.antt =====
-- Methods of src/execution/engine.py that change one child, the tracker or only counts and
-- reasons: each is a sequence of steps.
use interview_assignment.Base.{
  ℕ, String, ◌≡◌, refl, ap, inl, inr, false, Option, none, some, arith, if◌then◌else◌, Bool-cases,
  pos, Decimal, ◌+ℤ◌, ◌≤ℤ◌, ltb_ℤ, get_elem?, set, Exception, Result, ok, raised, pure, lift,
  modify, ◌>>=◌,
}
use interview_assignment.Execution.Models.{ChildOrderStatus}
use interview_assignment.Execution.Orders.{ChildOrder}
use interview_assignment.Engine.ChildStatus.{set_child_status}
use interview_assignment.Engine.Exposure.{ExposureTracker}
use interview_assignment.Engine.Record.{
  ExecutionRecord, Update, require_exposure_tracker, read_child, write_child,
}
use interview_assignment.Engine.Fills.{
  snapshot_report, update_child_cumulative_fill, copy_exchange_child,
}
use interview_assignment.Engine.Session.{set_status_at, set_reason_at, copy_at, fill_from_order}
use interview_assignment.Engine.ChildStatus.{stay, set_status_lem}
use interview_assignment.Engine.Fills.{child_delta, is_seen}
use interview_assignment.Engine.Fills.Balance.{total_confirmed_nonneg}
use interview_assignment.Engine.Fills.Deltas.{
  is_new, record_after, tracker_after, raised_tracker, apply_child_delta_lem, child_delta_positive,
}
use interview_assignment.Engine.Rounds.{
  View, view, Step, Steps, here, next, marks, fills, IsSameOrder, IsBalanced,
}
use interview_assignment.Engine.Rounds.Calculus.{IsSound, own, chain_read}

one-Step : {v w : View} → Step v w → Steps v w
one-Step s = next here s

by_option :
    {A B : Type 0} (o : Option A) (f : A → Result B × ExecutionRecord) (e : Exception)
    (r : ExecutionRecord)
    → ((a : A) → o ≡ some a → Steps (view r) (view (f a).1))
    → Steps (view r) (
        view
          (elim o as (λ _. Result B × ExecutionRecord) [ some a ↦ f a | none ↦ (raised e, r) ]).1)
by_option none f e r h = here
by_option (some a) f e r h = h a refl

pub read_child-IsSound : (i : ℕ) → IsSound own (read_child i)
unfolding IsSound read_child
read_child-IsSound i r b =
    by_option (get_elem? r.child_orders i) (λ c. (ok c, r))
      (Exception.other_exception "no such child") r (λ c e. here)

-- A method that reads the child at a place and writes one with the same fills back.
rewrite_child : ℕ → (ChildOrder → Result ChildOrder) → Update (Unit {0})
rewrite_child i f = do c ← read_child i; c' ← lift (f c); modify (write_child i c')

by_child :
    (x : Result ChildOrder) (i : ℕ) (c : ChildOrder) (r : ExecutionRecord)
    → get_elem? r.child_orders i ≡ some c
    → ((d : ChildOrder) → x ≡ ok d → IsSameOrder c d)
    → Steps (view r) (view ((lift x >>= λ d. modify (write_child i d)) r).1)
unfolding view write_child
by_child (ok d) i c r e h = one-Step (marks i c d e (h d refl) refl)
by_child (raised x) i c r e h = here

pub read_child-same : (i : ℕ) (r : ExecutionRecord) → (read_child i r).1 ≡ r
unfolding read_child
read_child-same i r = ground arith

pub read_child-found :
    (i : ℕ) (r : ExecutionRecord) (c : ChildOrder)
    → (read_child i r).0 ≡ ok c
    → get_elem? r.child_orders i ≡ some c
unfolding read_child
read_child-found i r c e = ground arith

rewrite_child-IsSound :
    (i : ℕ) (f : ChildOrder → Result ChildOrder)
    → ((c d : ChildOrder) → f c ≡ ok d → IsSameOrder c d)
    → IsSound own (rewrite_child i f)
unfolding rewrite_child
rewrite_child-IsSound i f h =
    chain_read own (read_child i) (λ c. lift (f c) >>= λ c'. modify (write_child i c'))
      (read_child-same i) (λ c r b e. by_child (f c) i c r (read_child-found i r c e) (h c))

same_order :
    (c d : ChildOrder) (t : ChildOrderStatus) → set_child_status c t ≡ ok d → IsSameOrder c d
unfolding set_child_status
same_order c d t e =
    let s = set_status_lem c.status t in
    let reached : d ≡ record c { status = s.status } = ground (arith, s.result) in
    rw reached (record { order = refl; quantity = refl; filled = refl; moves = s.path })

pub set_status_at-IsSound : (i : ℕ) (t : ChildOrderStatus) → IsSound own (set_status_at i t)
unfolding set_status_at rewrite_child
set_status_at-IsSound i t =
    rewrite_child-IsSound i (λ c. set_child_status c t) (λ c d e. same_order c d t e)

ok_inj : {A : Type 0} {x y : A} → ok x ≡ ok y → x ≡ y
ok_inj e = cc

kept_order :
    (c d : ChildOrder)
    → d.client_order_id ≡ c.client_order_id
    → d.submitted_quantity ≡ c.submitted_quantity
    → d.confirmed_filled_quantity ≡ c.confirmed_filled_quantity
    → d.status ≡ c.status
    → IsSameOrder c d
kept_order c d o q f s = record {
  order = o;
  quantity = q;
  filled = f;
  moves = rw s (stay c.status);
}

pub set_reason_at-IsSound : (i : ℕ) (reason : Option String) → IsSound own (set_reason_at i reason)
unfolding set_reason_at rewrite_child
set_reason_at-IsSound i reason =
    rewrite_child-IsSound i (λ c. ok (record c { terminal_reason = reason }))
      (λ c d e.
        rw⁻¹ (ok_inj e) (kept_order c (record c { terminal_reason = reason }) refl refl refl refl))

pub copy_at-IsSound : (i : ℕ) (x : ChildOrder) → IsSound own (copy_at i x false)
unfolding copy_at rewrite_child copy_exchange_child
copy_at-IsSound i x =
    rewrite_child-IsSound i (λ c. ok (copy_exchange_child c x false))
      (λ c d e. rw⁻¹ (ok_inj e) (kept_order c (copy_exchange_child c x false) refl refl refl refl))

confirmed_nonneg : {v : View} (b : IsBalanced v) → pos 0 ≤ℤ b.tracker.confirmed_filled_quantity
confirmed_nonneg {v} b = rw b.balanced (total_confirmed_nonneg v.children b.non_negative)

-- The record that has a report applied differs by a fill, if it differs.
record_after-Steps :
    (i : ℕ) (c : ChildOrder) (filled price : Decimal) (t : ExposureTracker) (r : ExecutionRecord)
    → r.exposure_tracker ≡ some t
    → get_elem? r.child_orders i ≡ some c
    → Steps (view r) (view (record_after i c (snapshot_report filled price) t r))
unfolding record_after view tracker_after raised_tracker
record_after-Steps i c filled price t r tracked e =
    elim (Bool-cases (ltb_ℤ (pos 0) (child_delta c (snapshot_report filled price)))) [
      | inl positive ↦
          let (delta, above) = child_delta_positive c (snapshot_report filled price) positive in
          rw positive (
            one-Step (
              fills i c t filled e tracked above (
                ap
                  (λ d. record (view r) {
                    children =
                        set r.child_orders i (record c { confirmed_filled_quantity = filled });
                    tracker = some (record t {
                      exposure = record t.exposure {
                        confirmed_filled_quantity = t.confirmed_filled_quantity +ℤ d;
                      };
                    });
                  })
                  delta)))
      | inr nothing ↦ rw nothing here
    ]

fill_lem :
    (i : ℕ) (c : ChildOrder) (filled price : Decimal) (t : ExposureTracker) (r : ExecutionRecord)
    → r.exposure_tracker ≡ some t
    → get_elem? r.child_orders i ≡ some c
    → pos 0 ≤ℤ t.confirmed_filled_quantity
    → update_child_cumulative_fill i (snapshot_report filled price) r
      ≡ (ok tt, record_after i c (snapshot_report filled price) t r)
unfolding update_child_cumulative_fill require_exposure_tracker read_child is_seen is_new
fill_lem i c filled price t r tracked e p =
    ground (arith, apply_child_delta_lem i c (snapshot_report filled price) t r tracked p refl)

pub fill_from_order-IsSound : (i : ℕ) (filled : Decimal) → IsSound own (fill_from_order i filled)
unfolding fill_from_order
fill_from_order-IsSound i filled =
    chain_read own (read_child i)
      (λ c.
        if ltb_ℤ (pos 0) filled
        then update_child_cumulative_fill i (snapshot_report filled c.price)
        else pure tt)
      (read_child-same i)
      (λ c r b e. elim (Bool-cases (ltb_ℤ (pos 0) filled)) [
        | inl positive ↦
            let found = read_child-found i r c e in
            rw
              (
                positive,
                fill_lem i c filled c.price b.tracker r (unfold view in b.tracked) found
                    (confirmed_nonneg b),
              )
              (record_after-Steps i c filled c.price b.tracker r (unfold view in b.tracked) found)
        | inr nothing ↦ rw nothing here
      ])
