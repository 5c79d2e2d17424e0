-- ===== src/Engine/Rounds/Runs.antt =====
-- `run_once` of src/execution/engine.py, one round of the engine, is a sequence of steps.
use interview_assignment.Base.{
  String, Option, none, some, Exception, Result, ok, raised, pure, ◌>>◌,
}
use interview_assignment.Exchanges.{ExchangeAdapter}
use interview_assignment.Engine.Session.{Session, Action}
use interview_assignment.Engine.Rounds.{View, view, Steps, joined, IsBalanced}
use interview_assignment.Engine.Rounds.Books.{Steps-IsBalanced}
use interview_assignment.Engine.Rounds.Calculus.{IsSound, of_session, chain, lifted, session_rules}
use interview_assignment.Engine.Rounds.Ends.{
  complete-IsSound, terminalize_deadline-IsSound, terminalize_manual_cancel-IsSound,
  is_blocked-IsSound,
}
use interview_assignment.Engine.Rounds.Submits.{submit_child-IsSound}
use interview_assignment.Engine.Rounds.Cancels.{
  cancel_active_children-IsSound, cancel_passive_children-IsSound,
  cancel_timed_out_children-IsSound,
}
use interview_assignment.Engine.Rounds.Refreshes.{refresh-IsSound}
use interview_assignment.Engine.Demand.{Demand}
use interview_assignment.Engine.Run.{
  complete_if_filled, refresh_after_cancel, wind_down, market_data_stale, unless_stale,
  demand_if_clear, next_demand, submit_demand, run_demand, cancel_timed_out, cancel_for_aggressive,
  run_open, run_live, run_unknown, run_unblocked, run_once,
}
use interview_assignment.Engine.Rounds.Demands.{
  build_child_demand-IsSound, maybe_reprice_chase-IsSound, set_reason-IsSound,
}

module _ (a : ExchangeAdapter) where
  complete_if_filled-IsSound : IsSound (of_session a) (complete_if_filled a)
  unfolding complete_if_filled
  complete_if_filled-IsSound = search (session_rules, complete-IsSound) depth 14

  refresh_after_cancel-IsSound : IsSound (of_session a) (refresh_after_cancel a)
  unfolding refresh_after_cancel
  refresh_after_cancel-IsSound =
      search (session_rules, refresh-IsSound, complete_if_filled-IsSound) depth 14

  wind_down-IsSound : (reason : String) → IsSound (of_session a) (wind_down a reason)
  unfolding wind_down
  wind_down-IsSound reason =
      search
        (
          session_rules, cancel_active_children-IsSound, refresh_after_cancel-IsSound,
          terminalize_deadline-IsSound,
        )
        depth 14

  market_data_stale-IsSound : IsSound (of_session a) (market_data_stale a)
  unfolding market_data_stale
  market_data_stale-IsSound =
      search (session_rules, set_reason-IsSound, refresh-IsSound, wind_down-IsSound) depth 14

  demand_if_clear-IsSound : IsSound (of_session a) (demand_if_clear a)
  unfolding demand_if_clear
  demand_if_clear-IsSound = search (session_rules, build_child_demand-IsSound) depth 14

  next_demand-IsSound : IsSound (of_session a) (next_demand a)
  unfolding next_demand
  next_demand-IsSound =
      search (session_rules, maybe_reprice_chase-IsSound, refresh-IsSound, demand_if_clear-IsSound)
        depth 14

  cancel_timed_out-IsSound : IsSound (of_session a) (cancel_timed_out a)
  unfolding cancel_timed_out
  cancel_timed_out-IsSound =
      search
        (
          session_rules, cancel_timed_out_children-IsSound, refresh_after_cancel-IsSound,
          terminalize_deadline-IsSound,
        )
        depth 14

  cancel_for_aggressive-IsSound : IsSound (of_session a) (cancel_for_aggressive a)
  unfolding cancel_for_aggressive
  cancel_for_aggressive-IsSound =
      search (session_rules, cancel_passive_children-IsSound, refresh_after_cancel-IsSound) depth 14

  run_unknown-IsSound : IsSound (of_session a) (run_unknown a)
  unfolding run_unknown
  run_unknown-IsSound = search (session_rules, refresh-IsSound, set_reason-IsSound) depth 14

-- A method under `try: ... except NoFreshMarketData: ...`.
module _ {A : Type 0} (a : ExchangeAdapter) where
  by_exception :
      (x : Result A) (s : Session a) (v : View)
      → Steps v (view s.execution)
      → IsBalanced (view s.execution)
      → Steps v (
          view
            (elim x as (λ _. Result (Option A) × Session a) [
              | ok v ↦ (ok (some v), s)
              | raised Exception.no_fresh_market_data ↦ (do market_data_stale a; pure none) s
              | raised e ↦ (raised e, s)
            ]).1.execution)
  unfolding IsSound
  by_exception (ok x) s v h b = h
  by_exception (raised Exception.no_fresh_market_data) s v h b = joined h (
      chain (of_session a) (market_data_stale a) (λ _. pure {A = Option A} none)
        (market_data_stale-IsSound a) (λ _. lifted {B = Option A} (of_session a) (ok none)) s b)
  by_exception (raised e) s v h b = h

  unless_stale-IsSound :
      (m : Action a A) → IsSound (of_session a) m → IsSound (of_session a) (unless_stale a m)
  unfolding IsSound unless_stale
  unless_stale-IsSound m h s b =
      by_exception (m s).0 (m s).1 (view s.execution) (h s b) (Steps-IsBalanced (h s b) b)

module _ (a : ExchangeAdapter) where
  submit_demand-IsSound : (d : Demand) → IsSound (of_session a) (submit_demand a d)
  unfolding submit_demand
  submit_demand-IsSound d =
      search (session_rules, complete_if_filled-IsSound, unless_stale-IsSound, submit_child-IsSound)
        depth 14

  by_wanted :
      (w : Option (Option Demand))
      → IsSound
          (of_session a)
          (elim w [ none ↦ pure tt | some none ↦ pure tt | some (some d) ↦ submit_demand a d ])
  by_wanted none = search session_rules
  by_wanted (some none) = search session_rules
  by_wanted (some (some d)) = submit_demand-IsSound d

  run_demand-IsSound : IsSound (of_session a) (run_demand a)
  unfolding run_demand
  run_demand-IsSound =
      chain (of_session a) _ _ (unless_stale-IsSound a (next_demand a) (next_demand-IsSound a))
        (λ w. by_wanted w)

  run_open-IsSound : IsSound (of_session a) (run_open a)
  unfolding run_open
  run_open-IsSound =
      search
        (session_rules, cancel_for_aggressive-IsSound, cancel_timed_out-IsSound, run_demand-IsSound)
        depth 14

  run_live-IsSound : IsSound (of_session a) (run_live a)
  unfolding run_live
  run_live-IsSound =
      search
        (
          session_rules, set_reason-IsSound, wind_down-IsSound, terminalize_deadline-IsSound,
          run_open-IsSound,
        )
        depth 20

  run_unblocked-IsSound : IsSound (of_session a) (run_unblocked a)
  unfolding run_unblocked
  run_unblocked-IsSound =
      search
        (
          session_rules, refresh-IsSound, terminalize_manual_cancel-IsSound, run_unknown-IsSound,
          complete_if_filled-IsSound, run_live-IsSound,
        )
        depth 20

  pub run_once-IsSound : IsSound (of_session a) (run_once a)
  unfolding run_once
  run_once-IsSound = search (session_rules, is_blocked-IsSound, run_unblocked-IsSound) depth 14
