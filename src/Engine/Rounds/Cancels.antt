-- ===== src/Engine/Rounds/Cancels.antt =====
-- `_cancel_child_locked` of src/execution/engine.py and the loops that call it are sequences of
-- steps, whatever the exchange answers.
use interview_assignment.Base.{ℕ, Bool, List, [], ◌∷◌, Decimal, any, Exception, Result, ok, raised}
use interview_assignment.Execution.Models.{ChildOrderStatus}
use interview_assignment.Execution.Orders.{ChildOrder, remaining_quantity}
use interview_assignment.Exchanges.{ExchangeAdapter}
use interview_assignment.Engine.Session.{on_record}
use interview_assignment.Engine.Cancel.{
  prepare_cancel, restore_live, cancel_failed, settle_cancelled, cancel_returned, request_cancel,
  cancel_child, Selection, cancel_each, cancel_selected, cancel_active_children,
  cancel_passive_children, cancel_timed_out_children,
}
use interview_assignment.Engine.Rounds.Calculus.{
  IsSound, own, of_session, chain, in_session, session_rules, inspect-IsSound, attempt-IsSound,
  read_clock-IsSound,
}
use interview_assignment.Engine.Rounds.Children.{read_child-IsSound}
use interview_assignment.Engine.Rounds.Tracker.{require_exposure_tracker-IsSound}
use interview_assignment.Engine.Rounds.Ends.{is_blocked-IsSound}
use interview_assignment.Engine.Rounds.Answers.{record_rules}

prepare_cancel-IsSound : (i : ℕ) (q : Decimal) → IsSound own (prepare_cancel i q)
unfolding prepare_cancel
prepare_cancel-IsSound i q = search record_rules depth 14

restore_live-IsSound : (q : Decimal) → IsSound own (restore_live q)
unfolding restore_live
restore_live-IsSound q = search record_rules depth 14

cancel_failed-IsSound :
    (now : Decimal) (i : ℕ) (q : Decimal) (before : ChildOrderStatus) (e : Exception)
    → IsSound own (cancel_failed now i q before e)
unfolding cancel_failed
cancel_failed-IsSound now i q before (Exception.venue_ban_hard_stop m) =
    search (record_rules, restore_live-IsSound) depth 14
cancel_failed-IsSound now i q before (Exception.order_cancel_timeout m) =
    search (record_rules, restore_live-IsSound) depth 14
cancel_failed-IsSound now i q before (Exception.exchange_rate_limited m) =
    search (record_rules, restore_live-IsSound) depth 14
cancel_failed-IsSound now i q before Exception.no_fresh_market_data =
    search (record_rules, restore_live-IsSound) depth 14
cancel_failed-IsSound now i q before e = search (record_rules, restore_live-IsSound) depth 14

settle_cancelled-IsSound : (q : Decimal) (c : ChildOrder) → IsSound own (settle_cancelled q c)
unfolding settle_cancelled
settle_cancelled-IsSound q c = search record_rules depth 14

cancel_returned-IsSound :
    (i : ℕ) (q : Decimal) (x : ChildOrder) → IsSound own (cancel_returned i q x)
unfolding cancel_returned
cancel_returned-IsSound i q x = search (record_rules, settle_cancelled-IsSound) depth 14

module _ (a : ExchangeAdapter) where
  answered :
      (i : ℕ) (c : ChildOrder) (result : Result ChildOrder) (later : Decimal)
      → IsSound (of_session a) (elim result [
        | ok cancelled ↦ on_record (cancel_returned i (remaining_quantity c) cancelled)
        | raised e ↦ on_record (cancel_failed later i (remaining_quantity c) c.status e)
      ])
  answered i c (ok x) later = in_session a _ (cancel_returned-IsSound i (remaining_quantity c) x)
  answered i c (raised e) later =
      in_session a _ (cancel_failed-IsSound later i (remaining_quantity c) c.status e)

  request_cancel-IsSound : (i : ℕ) (c : ChildOrder) → IsSound (of_session a) (request_cancel a i c)
  unfolding request_cancel
  request_cancel-IsSound i c =
      chain (of_session a) _ _ (in_session a _ (prepare_cancel-IsSound i (remaining_quantity c)))
        (λ _. chain (of_session a) _ _ (inspect-IsSound a (λ r. r.request.symbol)) (λ symbol.
          chain (of_session a) _ _ (attempt-IsSound a (a.cancel_order symbol c.client_order_id))
            (λ result. chain (of_session a) _ _ (read_clock-IsSound a) (answered i c result))))

  cancel_child-IsSound : (i : ℕ) → IsSound (of_session a) (cancel_child a i)
  unfolding cancel_child
  cancel_child-IsSound i =
      search
        (
          session_rules, require_exposure_tracker-IsSound, read_child-IsSound, is_blocked-IsSound,
          request_cancel-IsSound,
        )
        depth 14

  cancel_each-IsSound :
      (select : Selection) (l : List ℕ) (any : Bool)
      → IsSound (of_session a) (cancel_each a select l any)
  unfolding cancel_each
  cancel_each-IsSound select [] any = search session_rules
  cancel_each-IsSound select (i ∷ l) any =
      let rest = cancel_each-IsSound select l in
      search (session_rules, read_child-IsSound, cancel_child-IsSound, rest) depth 14

  cancel_selected-IsSound : (select : Selection) → IsSound (of_session a) (cancel_selected a select)
  unfolding cancel_selected
  cancel_selected-IsSound select = search (session_rules, cancel_each-IsSound) depth 14

  pub cancel_active_children-IsSound : IsSound (of_session a) (cancel_active_children a)
  unfolding cancel_active_children
  cancel_active_children-IsSound = cancel_selected-IsSound _

  pub cancel_passive_children-IsSound : IsSound (of_session a) (cancel_passive_children a)
  unfolding cancel_passive_children
  cancel_passive_children-IsSound = cancel_selected-IsSound _

  pub cancel_timed_out_children-IsSound : IsSound (of_session a) (cancel_timed_out_children a)
  unfolding cancel_timed_out_children
  cancel_timed_out_children-IsSound = cancel_selected-IsSound _
