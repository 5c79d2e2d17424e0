-- ===== src/Engine/Rounds/Submits.antt =====
-- `_submit_child_locked` of src/execution/engine.py is a sequence of steps, whatever the exchange
-- answers.
use interview_assignment.Base.{
  ℕ, ◌+◌, ◌≡◌, refl, sym, ap, subst, ◌∙◌, Bool, some, List, [], ◌∷◌, ◌++◌, arith, Decimal, length,
  get_elem?, Text, Result, ok, raised, pure, lift, gets, modify, ◌>>=◌, ◌>>◌, after_ok, after_call,
  ◌+ℤ◌,
}
use interview_assignment.Execution.Orders.{ChildOrder}
use interview_assignment.Exchanges.{ExchangeAdapter}
use interview_assignment.Engine.Exposure.{ExposureTracker, check_can_submit, reserve_pending_submit}
use interview_assignment.Engine.Record.{
  ExecutionRecord, Update, Metric, increment_metric, record_max_reserved_exposure,
  require_exposure_tracker, on_tracker,
}
use interview_assignment.Execution.Ids
use interview_assignment.Engine.Session.{Session, Action, on_record, attempt, inspect, read_clock}
use interview_assignment.Engine.Submit.{
  new_child, append_child, prepare_submit, order_request, Submission, submit_failed,
  submit_returned, submit_child,
}
use interview_assignment.Engine.Rounds.{view, Step, Steps, here, next, joined, sends, IsBalanced}
use interview_assignment.Engine.Rounds.Books.{Step-IsBalanced, Steps-IsBalanced}
use interview_assignment.Engine.Rounds.Calculus.{
  IsSound, own, of_session, by_result, chain_given, in_session,
}
use interview_assignment.Engine.Rounds.Tracker.{on_tracker-IsSound}
use interview_assignment.Engine.Exposure.Changes.{
  Fits, with_submit, can_submit-Fits, can_submit_tolerance, check_can_submit-same,
  check_can_submit-Reserves, reserve_pending_submit-Fits,
}
use interview_assignment.Engine.Rounds.Answers.{
  record_rules, IsNew, IsSoundFrom, on_tracker-children, submit_failed-IsSound,
  submit_returned-IsSound,
}

get_elem?-append : {A : Type 0} (l : List A) (x : A) → get_elem? (l ++ x ∷ []) (length l) ≡ some x
get_elem?-append [] x = refl
get_elem?-append (y ∷ l) x = get_elem?-append l x

ok_inj : {A : Type 0} {x y : A} → ok x ≡ ok y → x ≡ y
ok_inj e = cc

-- `prepare_submit` after its first call, and after the child is appended.
module _ (now q price : Decimal) (post_only : Bool) where
  abbrev reserved_rest : ℕ → ChildOrder → Update (ℕ × ChildOrder)
  reserved_rest i c = do
    modify (increment_metric Metric.orders_submitted)
    modify record_max_reserved_exposure
    pure (i, c)

  abbrev appended_rest : ExecutionRecord → Text → Update (ℕ × ChildOrder)
  appended_rest r id = do
    modify (append_child now post_only (new_child r id q price))
    on_tracker (reserve_pending_submit q)
    reserved_rest (length r.child_orders) (new_child r id q price)

  abbrev checked_rest : Update (ℕ × ChildOrder)
  checked_rest = do
    modify (λ r. record r { last_child_sequence = r.last_child_sequence + 1 })
    r ← gets (λ r. r)
    id ← lift (Ids.make_client_order_id r.execution_id r.last_child_sequence)
    appended_rest r id

  -- The check that the first call makes.
  checked :
      (r : ExecutionRecord) (t : ExposureTracker) (u : Unit {0})
      → r.exposure_tracker ≡ some t
      → (on_tracker (check_can_submit q) r).0 ≡ ok u
      → ((on_tracker (check_can_submit q) r).1 ≡ r) × ((check_can_submit q t).0 ≡ ok tt)
  unfolding on_tracker require_exposure_tracker
  checked r t u e h = (ground (arith, e, h, check_can_submit-same q t), ground (arith, e, h))

  -- The record with the child appended and its quantity reserved.
  reserved_child : ExecutionRecord → Text → ExposureTracker → ExecutionRecord
  reserved_child r id t = record (append_child now post_only (new_child r id q price) r) {
    exposure_tracker = some (with_submit t (t.pending_submit_quantity +ℤ q));
  }

  reserves_child :
      (r : ExecutionRecord) (id : Text) (t : ExposureTracker)
      → r.exposure_tracker ≡ some t
      → (check_can_submit q t).0 ≡ ok tt
      → on_tracker
          (reserve_pending_submit q)
          (append_child now post_only (new_child r id q price) r)
        ≡ (ok tt, reserved_child r id t)
  unfolding on_tracker require_exposure_tracker append_child reserved_child
  reserves_child r id t e c = ground (
    arith,
    e,
    reserve_pending_submit-Fits q t (can_submit-Fits q t c) (can_submit_tolerance q t c),
  )

  append-Step :
      (r : ExecutionRecord) (t : ExposureTracker) (id : Text)
      → r.exposure_tracker ≡ some t
      → Fits q t
      → Step (view r) (view (reserved_child r id t))
  unfolding append_child view reserved_child
  append-Step r t id e fits = sends (new_child r id q price) t e fits refl refl refl

  reserved_children :
      (i : ℕ) (c : ChildOrder) (r : ExecutionRecord)
      → (reserved_rest i c r).1.child_orders ≡ r.child_orders
  unfolding increment_metric record_max_reserved_exposure
  reserved_children i c r = ground arith

  checked_rest-Steps :
      (r : ExecutionRecord) (t : ExposureTracker)
      → IsBalanced (view r)
      → r.exposure_tracker ≡ some t
      → (check_can_submit q t).0 ≡ ok tt
      → Steps (view r) (view (checked_rest r).1)
  unfolding IsSound view
  checked_rest-Steps r t b e c =
      let r2 = record r { last_child_sequence = r.last_child_sequence + 1 } in
      by_result own (Ids.make_client_order_id r2.execution_id r2.last_child_sequence)
        (appended_rest r2) r2 (view r) here
        (λ id named.
          let step = append-Step r2 t id e (can_submit-Fits q t c) in
          let rest : IsSound own
              (reserved_rest (length r2.child_orders) (new_child r2 id q price)) =
            search record_rules depth 14 in
          let same =
            after_call (on_tracker (reserve_pending_submit q))
              (λ _. reserved_rest (length r2.child_orders) (new_child r2 id q price))
              (append_child now post_only (new_child r2 id q price) r2) (reserved_child r2 id t) tt
              (reserves_child r2 id t e c) in
          subst (λ (x : Result (ℕ × ChildOrder) × ExecutionRecord). Steps (view r) (view x.1))
            (sym same)
            (joined (next here step) (rest (reserved_child r2 id t) (Step-IsBalanced step b))))

  prepare_submit-IsSound : IsSound own (prepare_submit now q price post_only)
  unfolding prepare_submit IsSound view
  prepare_submit-IsSound r b =
      by_result own (on_tracker (check_can_submit q) r).0 (λ _. checked_rest)
        (on_tracker (check_can_submit q) r).1 (view r)
        (on_tracker-IsSound (check_can_submit q) (check_can_submit-Reserves q) r b)
        (λ u e.
          let (same, fits) = checked r b.tracker u b.tracked e in
          subst (λ (x : ExecutionRecord). Steps (view x) (view (checked_rest x).1)) (sym same)
            (checked_rest-Steps r b.tracker b b.tracked fits))

  -- A child that is prepared stands at its place, and nothing of it is filled.
  prepared-IsNew :
      (r : ExecutionRecord) (p : ℕ × ChildOrder)
      → (prepare_submit now q price post_only r).0 ≡ ok p
      → IsNew p.0 (prepare_submit now q price post_only r).1
  unfolding prepare_submit IsNew append_child
  prepared-IsNew r p h =
      let (u, e, same) = after_ok (on_tracker (check_can_submit q)) (λ _. checked_rest) r h in
      let r1 = (on_tracker (check_can_submit q) r).1 in
      let r2 = record r1 { last_child_sequence = r1.last_child_sequence + 1 } in
      let (id, e', same') =
        after_ok (lift (Ids.make_client_order_id r2.execution_id r2.last_child_sequence))
          (appended_rest r2) r2 (ap (λ x. x.0) (sym same) ∙ h) in
      let c = new_child r2 id q price in
      let r3 = append_child now post_only c r2 in
      let (v, e'', same'') =
        after_ok (on_tracker (reserve_pending_submit q))
          (λ _. reserved_rest (length r2.child_orders) c) r3
          (ap (λ x. x.0) (sym same' ∙ sym same) ∙ h) in
      let i = length r2.child_orders in
      let whole = same ∙ same' ∙ same'' in
      let kept =
        reserved_children i c (on_tracker (reserve_pending_submit q) r3).1
        ∙ on_tracker-children (reserve_pending_submit q) r3 in
      let found : get_elem? (prepare_submit now q price post_only r).1.child_orders i ≡ some c =
        ap (λ x. get_elem? x.1.child_orders i) whole
        ∙ ap (λ l. get_elem? l i) kept
        ∙ get_elem?-append r2.child_orders c in
      subst (λ (x : ℕ × ChildOrder). IsNew x.0 (prepare_submit now q price post_only r).1)
        (ok_inj (ap (λ x. x.0) (sym whole) ∙ h)) (c, found, refl)

place_child : (i j : ℕ) (r : ExecutionRecord) → j ≡ i → IsNew i r → IsNew j r
place_child i j r e n = rw e n

-- Whatever the exchange answers to the order.
module _ (a : ExchangeAdapter) (s : Submission) where
  answered :
      (result : Result ChildOrder)
      → (later : Decimal) (x : Session a) → IsBalanced (view x.execution)
      → IsNew s.place x.execution
      → Steps (view x.execution) (
          view
            ((elim result as (λ _. Action a (Unit {0})) [
              | ok submitted ↦ on_record (submit_returned s submitted)
              | raised e ↦ on_record (submit_failed later s e)
            ])
              x).1.execution)
  unfolding IsSoundFrom IsSound
  answered (ok submitted) later x b n = submit_returned-IsSound s submitted x.execution b
  answered (raised e) later x b n = submit_failed-IsSound later s e x.execution b n

-- `submit_child` after its first part.
module _ (a : ExchangeAdapter) (q price : Decimal) (post_only : Bool) (bid ask : Decimal) where
  abbrev submission : ℕ × ChildOrder → Submission
  submission p = record {
    place = p.0;
    child = p.1;
    post_only = post_only;
    market_bid = bid;
    market_ask = ask;
  }

  abbrev send_rest : ℕ × ChildOrder → Action a (Unit {0})
  send_rest p = do
    request ← inspect (λ r. order_request r p.1 post_only)
    result ← attempt (a.submit_limit_order request)
    later ← read_clock
    elim result [
      | ok submitted ↦ on_record (submit_returned (submission p) submitted)
      | raised e ↦ on_record (submit_failed later (submission p) e)
    ]

  -- Submitting a child is a sequence of steps.
  pub submit_child-IsSound : IsSound (of_session a) (submit_child a q price post_only bid ask)
  unfolding IsSound submit_child
  submit_child-IsSound s b =
      chain_given (of_session a)
        (on_record (prepare_submit (a.monotonic s.world) q price post_only)) send_rest
        (in_session a (prepare_submit (a.monotonic s.world) q price post_only)
          (prepare_submit-IsSound (a.monotonic s.world) q price post_only))
        (λ p x b' e.
          let r' = (prepare_submit (a.monotonic s.world) q price post_only x.execution).1 in
          let answer = a.submit_limit_order (order_request r' p.1 post_only) x.world in
          answered a (submission p) answer.0 (a.monotonic answer.1)
            (record { world = answer.1; execution = r' })
            (Steps-IsBalanced
              (prepare_submit-IsSound (a.monotonic s.world) q price post_only x.execution b') b')
            (prepared-IsNew (a.monotonic s.world) q price post_only x.execution p e))
        s b
