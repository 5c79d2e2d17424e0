-- ===== src/Engine/Rounds/Answers.antt =====
-- What `_submit_child_locked` of src/execution/engine.py does with the answer of the exchange is a
-- sequence of steps: an order that it does not take is forgotten before anything of it was filled.
use interview_assignment.Base.{
  ℕ, String, ◌≡◌, refl, Bool, true, false, some, arith, pos, Decimal, get_elem?, Text, Exception,
  Exec, raise, modify, ◌>>◌,
}
use interview_assignment.Execution.Orders.{ChildOrder}
use interview_assignment.Engine.Exposure.{ExposureTracker, release_pending_submit}
use interview_assignment.Engine.Record.{
  ExecutionRecord, Update, assert_exposure_invariant, require_exposure_tracker, on_tracker,
}
use interview_assignment.Engine.Gates.{record_rate_limit_backoff}
use interview_assignment.Engine.Submit.{
  forget_child, Submission, submit_banned, submit_timed_out, submit_rejected, submit_rate_limited,
  submit_broken, submit_failed, reserve_submitted, submit_returned,
}
use interview_assignment.Engine.Rounds.{view, Step, Steps, here, next, joined, forgets, IsBalanced}
use interview_assignment.Engine.Rounds.Books.{Step-IsBalanced, Steps-IsBalanced}
use interview_assignment.Engine.Rounds.Calculus.{
  IsSound, own, of_session, by_result, chain_given, chain, chain_read, choose, quiet, lifted,
  gets-IsSound, raise-IsSound, in_session,
}
use interview_assignment.Engine.Rounds.Children.{
  read_child-IsSound, set_status_at-IsSound, set_reason_at-IsSound, copy_at-IsSound,
  fill_from_order-IsSound,
}
use interview_assignment.Engine.Rounds.Tracker.{tracker_rules}
use interview_assignment.Engine.Rounds.Ends.{
  increment_metric-IsSound, record_max-IsSound, assert-IsSound, record_rate_limit-IsSound,
  record_reject-IsSound, reset_gate-IsSound, note_reason-IsSound, fail-IsSound,
  terminalize_reject_limit-IsSound,
}

pub ruleset record_rules = (
  chain, choose, lifted, read_child-IsSound, set_status_at-IsSound, set_reason_at-IsSound,
  copy_at-IsSound, fill_from_order-IsSound, tracker_rules, increment_metric-IsSound,
  record_max-IsSound, assert-IsSound, record_rate_limit-IsSound, record_reject-IsSound,
  reset_gate-IsSound, note_reason-IsSound, fail-IsSound, terminalize_reject_limit-IsSound,
)

submit_banned-IsSound :
    (now : Decimal) (s : Submission) (reason : String) → IsSound own (submit_banned now s reason)
unfolding submit_banned
submit_banned-IsSound now s reason = search record_rules depth 14

submit_timed_out-IsSound : (s : Submission) → IsSound own (submit_timed_out s)
unfolding submit_timed_out
submit_timed_out-IsSound s = search record_rules depth 14

submit_rejected-IsSound :
    (now : Decimal) (s : Submission) (terminal : Bool) (reason : String)
    → IsSound own (submit_rejected now s terminal reason)
unfolding submit_rejected
submit_rejected-IsSound now s terminal reason = search record_rules depth 14

reserve_submitted-IsSound : (c : ChildOrder) → IsSound own (reserve_submitted c)
unfolding reserve_submitted
reserve_submitted-IsSound c = search record_rules depth 14

pub submit_returned-IsSound : (s : Submission) (x : ChildOrder) → IsSound own (submit_returned s x)
unfolding submit_returned
submit_returned-IsSound s x = search (record_rules, reserve_submitted-IsSound) depth 14

-- The child that goes out: it has its place, and nothing of it is filled.
unfoldable pub IsNew : ℕ → ExecutionRecord → Type 0
IsNew i r =
    (c : ChildOrder) × (get_elem? r.child_orders i ≡ some c) × (c.confirmed_filled_quantity ≡ pos 0)

-- Sound where the child that goes out is new.
unfoldable pub IsSoundFrom : {A : Type 0} → ℕ → Update A → Type 0
IsSoundFrom i u =
    (r : ExecutionRecord) → IsBalanced (view r) → IsNew i r → Steps (view r) (view (u r).1)

from_any : {A : Type 0} (i : ℕ) (u : Update A) → IsSound own u → IsSoundFrom i u
unfolding IsSound IsSoundFrom
from_any i u h r b n = h r b

pub on_tracker-children :
    {A : Type 0} (m : Exec ExposureTracker A) (r : ExecutionRecord)
    → (on_tracker m r).1.child_orders ≡ r.child_orders
unfolding on_tracker require_exposure_tracker
on_tracker-children m r = ground arith

forget-IsSoundFrom :
    (i : ℕ) (id : Text) (rest : Update (Unit {0}))
    → IsSound own rest
    → IsSoundFrom i (modify (forget_child i id) >> rest)
unfolding IsSound IsSoundFrom IsNew
forget-IsSoundFrom i id rest h r b (c, e, z) =
    let first : Step (view r) (view (forget_child i id r)) = forgotten in
    joined (next here first) (h (forget_child i id r) (Step-IsBalanced first b))
  where
    forgotten : Step (view r) (view (forget_child i id r))
    forgotten = forgets i c (unfold view in e) z (unfold view in (unfold forget_child in refl))

release_then :
    (i : ℕ) (m : Exec ExposureTracker (Unit {0})) (rest : Update (Unit {0}))
    → IsSound own (on_tracker m)
    → IsSoundFrom i rest
    → IsSoundFrom i (on_tracker m >> rest)
unfolding IsSound IsSoundFrom IsNew
release_then i m rest h k r b (c, e, z) =
    by_result own (on_tracker m r).0 (λ _. rest) (on_tracker m r).1 (view r) (h r b)
      (λ _ _.
        k (on_tracker m r).1 (Steps-IsBalanced (h r b) b) (c, rw (on_tracker-children m r) e, z))

submit_rate_limited-IsSound :
    (now : Decimal) (s : Submission) (reason : String)
    → IsSoundFrom s.place (submit_rate_limited now s reason)
unfolding submit_rate_limited
submit_rate_limited-IsSound now s reason =
    release_then s.place (release_pending_submit s.child.submitted_quantity)
      (modify (forget_child s.place s.child.client_order_id)
        >> (modify (record_rate_limit_backoff now) >> assert_exposure_invariant))
      (search tracker_rules)
      (forget-IsSoundFrom s.place s.child.client_order_id
        (modify (record_rate_limit_backoff now) >> assert_exposure_invariant) (search record_rules))

submit_broken-IsSound : (s : Submission) (e : Exception) → IsSoundFrom s.place (submit_broken s e)
unfolding submit_broken
submit_broken-IsSound s e =
    release_then s.place (release_pending_submit s.child.submitted_quantity)
      (modify (forget_child s.place s.child.client_order_id) >> raise e) (search tracker_rules)
      (forget-IsSoundFrom s.place s.child.client_order_id (raise e) (raise-IsSound e))

pub submit_failed-IsSound :
    (now : Decimal) (s : Submission) (e : Exception) → IsSoundFrom s.place (submit_failed now s e)
unfolding submit_failed
submit_failed-IsSound now s (Exception.venue_ban_hard_stop m) =
    from_any s.place (submit_banned now s m) (submit_banned-IsSound now s m)
submit_failed-IsSound now s (Exception.order_create_timeout m) =
    from_any s.place (submit_timed_out s) (submit_timed_out-IsSound s)
submit_failed-IsSound now s (Exception.terminal_order_rejected m) =
    from_any s.place (submit_rejected now s true m) (submit_rejected-IsSound now s true m)
submit_failed-IsSound now s (Exception.order_rejected m) =
    from_any s.place (submit_rejected now s false m) (submit_rejected-IsSound now s false m)
submit_failed-IsSound now s (Exception.exchange_rate_limited m) =
    submit_rate_limited-IsSound now s m
submit_failed-IsSound now s Exception.no_fresh_market_data =
    submit_broken-IsSound s Exception.no_fresh_market_data
submit_failed-IsSound now s e = submit_broken-IsSound s e
