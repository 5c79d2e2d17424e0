-- ===== src/Engine/Rounds.antt =====
-- What a round of src/execution/engine.py does to an execution, seen from outside: its status, its
-- children, its tracker and the trades it has seen, and the steps that may change them.
pub mod Books
pub mod Calculus
pub mod Children
pub mod Tracker
pub mod Ends
pub mod Answers
pub mod Submits
pub mod Cancels
pub mod Refreshes
pub mod Demands
pub mod Runs
pub mod Refinement
pub mod Orders
use interview_assignment.Base.{
  ℕ, ◌+◌, ◌-◌, ◌<◌, ◌≡◌, true, Option, some, List, [], ◌∷◌, ◌++◌, pos, Decimal, ◌+ℤ◌, ◌-ℤ◌, ◌<ℤ◌,
  get_elem?, set, remove_at, Text, ok,
}
use interview_assignment.Base.Dict.{IdSet, contains}
use interview_assignment.Execution.Models.{ExecutionStatus, ChildOrderStatus}
use interview_assignment.Execution.Orders.{ChildOrder}
use interview_assignment.Execution.StateMachine.{transition_execution}
use interview_assignment.Engine.Exposure.{ExposureTracker}
use interview_assignment.Engine.Record.{ExecutionRecord, exposure}
use interview_assignment.Engine.ChildStatus.{ChildMoves}
use interview_assignment.Engine.Exposure.Changes.{Fits, Reserves, with_submit}
use interview_assignment.Engine.Fills.Reserved.{IsRebuilt}
use interview_assignment.Engine.Fills.Balance.{total_confirmed, AllNonNegative}

pub record View : Type 0 where
  pub status : ExecutionStatus
  pub children : List ChildOrder
  pub tracker : Option ExposureTracker
  pub seen : IdSet

unfoldable pub view : ExecutionRecord → View
view r = record {
  status = r.status;
  children = r.child_orders;
  tracker = r.exposure_tracker;
  seen = r.seen_fill_trade_ids;
}

-- The same order with the same fills, in a status that it may legally have reached.
pub record IsSameOrder (c d : ChildOrder) : Type 0 where
  pub order : d.client_order_id ≡ c.client_order_id
  pub quantity : d.submitted_quantity ≡ c.submitted_quantity
  pub filled : d.confirmed_filled_quantity ≡ c.confirmed_filled_quantity
  pub moves : ChildMoves c.status d.status

-- The same orders, which may carry other reasons.
abbrev pub SameButReasons : List ChildOrder → List ChildOrder → Type 0
SameButReasons [] [] = Unit
SameButReasons (c ∷ cs) (d ∷ ds) =
    (d ≡ record c { terminal_reason = d.terminal_reason }) × SameButReasons cs ds
SameButReasons _ _ = ⊥

-- One step of an execution.
pub data Step (v w : View) : Type 0 where
  moves :
      (s : ExecutionStatus)
      → transition_execution v.status s ≡ ok s
      → w ≡ record v { status = s }
      → Step v w
  reserves :
      (t u : ExposureTracker)
      → v.tracker ≡ some t
      → Reserves t u
      → w ≡ record v { tracker = some u }
      → Step v w
  rebuilds :
      (t u : ExposureTracker)
      → v.tracker ≡ some t
      → IsRebuilt t v.children u
      → w ≡ record v { tracker = some u }
      → Step v w
  sends :
      (c : ChildOrder) (t : ExposureTracker)
      → v.tracker ≡ some t
      → Fits c.submitted_quantity t
      → c.status ≡ ChildOrderStatus.pending_submit
      → c.confirmed_filled_quantity ≡ pos 0
      → w ≡ record v {
        children = v.children ++ c ∷ [];
        tracker = some (with_submit t (t.pending_submit_quantity +ℤ c.submitted_quantity));
      }
      → Step v w
  forgets :
      (i : ℕ) (c : ChildOrder)
      → get_elem? v.children i ≡ some c
      → c.confirmed_filled_quantity ≡ pos 0
      → w ≡ record v { children = remove_at v.children i }
      → Step v w
  marks :
      (i : ℕ) (c d : ChildOrder)
      → get_elem? v.children i ≡ some c
      → IsSameOrder c d
      → w ≡ record v { children = set v.children i d }
      → Step v w
  explains :
      (cs : List ChildOrder)
      → SameButReasons v.children cs
      → w ≡ record v { children = cs }
      → Step v w
  fills :
      (i : ℕ) (c : ChildOrder) (t : ExposureTracker) (total : Decimal)
      → get_elem? v.children i ≡ some c
      → v.tracker ≡ some t
      → c.confirmed_filled_quantity <ℤ total
      → w ≡ record v {
        children = set v.children i (record c { confirmed_filled_quantity = total });
        tracker = some (record t {
          exposure = record t.exposure {
            confirmed_filled_quantity =
                t.confirmed_filled_quantity +ℤ (total -ℤ c.confirmed_filled_quantity);
          };
        });
      }
      → Step v w

pub data Steps : View → View → Type 0 where
  here : {v : View} → Steps v v
  next : {v w x : View} → Steps v w → Step w x → Steps v x

pub joined : {v w x : View} → Steps v w → Steps w x → Steps v x
joined a here = a
joined a (next b s) = next (joined a b) s

-- The tracker's total is that of the children, and it has seen no trade that the record has not.
pub record IsBalanced (v : View) : Type 0 where
  pub tracker : ExposureTracker
  pub tracked : v.tracker ≡ some tracker
  pub balanced : tracker.confirmed_filled_quantity ≡ total_confirmed v.children
  pub non_negative : AllNonNegative v.children
  pub known : (id : Text) → contains id tracker.seen_trade_ids ≡ true → contains id v.seen ≡ true
