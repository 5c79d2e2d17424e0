-- ===== src/Engine/Rounds/Tracker.antt =====
-- Calls of the tracker in src/execution/engine.py change what is reserved; counts, reasons and
-- gates change nothing of an execution that is seen from outside.
use interview_assignment.Base.{◌≡◌, refl, some, arith, Decimal, Exec, ◌>>◌}
use interview_assignment.Engine.Exposure.{ExposureTracker, check_can_submit, release_pending_cancel}
use interview_assignment.Engine.Exposure.Changes.{
  Reserves, check_can_submit-Reserves, reserve_live_open-Reserves, reserve_pending_submit-Reserves,
  release_pending_submit-Reserves, reserve_unknown_create-Reserves, mark_pending_cancel-Reserves,
  release_pending_cancel-Reserves,
}
use interview_assignment.Engine.Record.{ExecutionRecord, require_exposure_tracker, on_tracker}
use interview_assignment.Engine.Rounds.{view, here, next, reserves}
use interview_assignment.Engine.Rounds.Calculus.{IsSound, own, chain}

-- A method of the tracker that reserves, gives back or hands on at most.
abbrev pub OnlyReserves : {A : Type 0} → Exec ExposureTracker A → Type 0
OnlyReserves m = (t : ExposureTracker) → Reserves t (m t).1

on_tracker-call :
    {A : Type 0} (m : Exec ExposureTracker A) (t : ExposureTracker) (r : ExecutionRecord)
    → r.exposure_tracker ≡ some t
    → on_tracker m r ≡ ((m t).0, record r { exposure_tracker = some (m t).1 })
unfolding on_tracker require_exposure_tracker
on_tracker-call m t r e = ground arith

pub on_tracker-IsSound :
    {A : Type 0} (m : Exec ExposureTracker A) → OnlyReserves m → IsSound own (on_tracker m)
unfolding IsSound view
on_tracker-IsSound m only r b =
    rw (on_tracker-call m b.tracker r b.tracked)
      (next here (reserves b.tracker (m b.tracker).1 b.tracked (only b.tracker) refl))

pub ruleset tracker_rules = (
  on_tracker-IsSound, check_can_submit-Reserves, reserve_live_open-Reserves,
  reserve_pending_submit-Reserves, release_pending_submit-Reserves, reserve_unknown_create-Reserves,
  mark_pending_cancel-Reserves, release_pending_cancel-Reserves,
)

pub require_exposure_tracker-IsSound : IsSound own require_exposure_tracker
unfolding IsSound require_exposure_tracker view
require_exposure_tracker-IsSound r b = rw (b.tracked) here

test_rules :
    (q : Decimal)
    → IsSound own (on_tracker (check_can_submit q) >> on_tracker (release_pending_cancel q))
test_rules q = search (chain, tracker_rules)
