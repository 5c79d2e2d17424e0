-- ===== src/Engine/Rounds/Refreshes.antt =====
-- `_refresh_order_states_exact_locked` of src/execution/engine.py is a sequence of steps, whatever
-- the exchange answers.
use interview_assignment.Base.{
  ℕ, ◌≡◌, refl, Option, none, some, List, [], ◌∷◌, arith, Decimal, Exception, Result, ok, raised,
  ◌>>◌,
}
use interview_assignment.Execution.Orders.{ChildOrder}
use interview_assignment.Exchanges.{ExchangeAdapter}
use interview_assignment.Engine.Exposure.{ExposureTracker}
use interview_assignment.Engine.Record.{ExecutionRecord, Update, require_exposure_tracker}
use interview_assignment.Engine.Fills.{refresh_reserved_exposure}
use interview_assignment.Engine.Session.{Action, on_record}
use interview_assignment.Engine.Refresh.{
  finish_reconciliation_refresh, reject_not_found, count_reconciled, refresh_child, lookup_failed,
  refresh_each, refresh_order_states_exact,
}
use interview_assignment.Engine.Rounds.{view, here, next, rebuilds}
use interview_assignment.Engine.Fills.Reserved.{refreshed_tracker, refreshed-IsRebuilt}
use interview_assignment.Engine.Rounds.Calculus.{
  IsSound, own, of_session, chain, choose, raise-IsSound, in_session, session_rules,
  inspect-IsSound, attempt-IsSound, read_clock-IsSound,
}
use interview_assignment.Engine.Rounds.Children.{read_child-IsSound}
use interview_assignment.Engine.Rounds.Ends.{
  fail_for_venue_ban-IsSound, clear_pending_reasons-IsSound, renew_summary-IsSound,
}
use interview_assignment.Engine.Rounds.Answers.{record_rules}

refresh_reserved_lem :
    (t : ExposureTracker) (r : ExecutionRecord)
    → r.exposure_tracker ≡ some t
    → refresh_reserved_exposure r
      ≡ (ok tt, record r { exposure_tracker = some (refreshed_tracker t r.child_orders) })
unfolding refresh_reserved_exposure require_exposure_tracker refreshed_tracker
refresh_reserved_lem t r e = ground arith

refresh_reserved_exposure-IsSound : IsSound own refresh_reserved_exposure
unfolding IsSound view
refresh_reserved_exposure-IsSound r b = rw (refresh_reserved_lem b.tracker r b.tracked) (
    next here (
      rebuilds b.tracker (refreshed_tracker b.tracker r.child_orders) b.tracked
        (refreshed-IsRebuilt b.tracker r.child_orders) refl))

finish_refresh-IsSound : IsSound own finish_reconciliation_refresh
unfolding finish_reconciliation_refresh
finish_refresh-IsSound =
    search
      (
        record_rules, refresh_reserved_exposure-IsSound, clear_pending_reasons-IsSound,
        renew_summary-IsSound,
      )
      depth 14

reject_not_found-IsSound : (i : ℕ) → IsSound own (reject_not_found i)
unfolding reject_not_found
reject_not_found-IsSound i = search record_rules depth 14

count_reconciled-IsSound : (c : ChildOrder) → IsSound own (count_reconciled c)
unfolding count_reconciled
count_reconciled-IsSound c = search record_rules depth 14

refresh_child-IsSound :
    (i : ℕ) (c : ChildOrder) (x : Option ChildOrder) → IsSound own (refresh_child i c x)
unfolding refresh_child
refresh_child-IsSound i c none = search (record_rules, reject_not_found-IsSound) depth 14
refresh_child-IsSound i c (some x) = search (record_rules, count_reconciled-IsSound) depth 14

lookup_failed-IsSound :
    (now : Decimal) (u : Update (Unit {0})) (e : Exception)
    → IsSound own u
    → IsSound own (lookup_failed now u e)
unfolding lookup_failed
lookup_failed-IsSound now u (Exception.venue_ban_hard_stop m) h = fail_for_venue_ban-IsSound now m
lookup_failed-IsSound now u (Exception.exchange_rate_limited m) h = search (record_rules, h)
lookup_failed-IsSound now u Exception.no_fresh_market_data h = raise-IsSound _
lookup_failed-IsSound now u e h = raise-IsSound e

module _ (a : ExchangeAdapter) where
  answered :
      (i : ℕ) (c : ChildOrder) (rest : Action a (Unit {0})) (answer : Result (Option ChildOrder))
      (now : Decimal)
      → IsSound (of_session a) rest
      → IsSound (of_session a) (elim answer [
        | ok found ↦ on_record (refresh_child i c found) >> rest
        | raised e ↦ on_record (lookup_failed now finish_reconciliation_refresh e)
      ])
  answered i c rest (ok x) now h =
      chain (of_session a) _ _ (in_session a _ (refresh_child-IsSound i c x)) (λ _. h)
  answered i c rest (raised e) now h =
      in_session a _
        (lookup_failed-IsSound now finish_reconciliation_refresh e finish_refresh-IsSound)

  refresh_each-IsSound : (l : List ℕ) → IsSound (of_session a) (refresh_each a l)
  unfolding refresh_each
  refresh_each-IsSound [] = in_session a _ finish_refresh-IsSound
  refresh_each-IsSound (i ∷ l) =
      let rest = refresh_each-IsSound l in
      chain (of_session a) _ _ (in_session a _ (read_child-IsSound i)) (λ c.
        choose (of_session a) _ _ _ rest (
          chain (of_session a) _ _ (inspect-IsSound a (λ r. r.request.symbol)) (λ symbol.
            chain (of_session a) _ _
              (attempt-IsSound a (a.get_order_by_client_order_id symbol c.client_order_id))
              (λ answer.
                chain (of_session a) _ _ (read_clock-IsSound a)
                  (λ now. answered i c (refresh_each a l) answer now rest)))))

  pub refresh-IsSound : IsSound (of_session a) (refresh_order_states_exact a)
  unfolding refresh_order_states_exact
  refresh-IsSound = search (session_rules, refresh_each-IsSound) depth 14
