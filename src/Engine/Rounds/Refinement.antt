-- ===== src/Engine/Rounds/Refinement.antt =====
-- A round of src/execution/engine.py against any exchange, seen from outside.
use interview_assignment.Base.{
  ℕ, zero, suc, ◌≡◌, none, some, arith, ℤ, pos, Decimal, ◌+ℤ◌, ◌-ℤ◌, ◌≤ℤ◌, ◌<ℤ◌, int_laws, ok,
}
use interview_assignment.Execution.Models.{ExecutionStatus}
use interview_assignment.Execution.StateMachine.{transition_execution}
use interview_assignment.Exchanges.{ExchangeAdapter}
use interview_assignment.Engine.Exposure.Changes.{Reserves-SameBut}
use interview_assignment.Engine.Run.{run_once}
use interview_assignment.Engine.Session.{Session}
use interview_assignment.Engine.Rounds.{
  View, view, Step, Steps, here, next, joined, moves, reserves, rebuilds, sends, forgets, marks,
  explains, fills, IsBalanced,
}
use interview_assignment.Engine.Rounds.Books.{Steps-IsBalanced}
use interview_assignment.Engine.Rounds.Calculus.{IsSound}
use interview_assignment.Engine.Rounds.Runs.{run_once-IsSound}

-- For any exchange and clock, from a record whose tracker accounts for its children: whether the
-- round returns or raises, it does to the execution a sequence of steps, each of which is one of
-- these, none of which changes the tracker's target or tolerance. The status takes a legal
-- transition; one bucket of the tracker takes a quantity that fits or gives a quantity back, or a
-- quantity, at most what is live, passes from what is live to what is being cancelled; the buckets
-- become what is left of the children, each in the bucket of its status; an unfilled order that,
-- with what is filled and reserved at that moment, stays within target and tolerance is appended
-- and its whole quantity reserved; an unfilled order is forgotten; a child takes legal transitions
-- and keeps its fills; reasons of children change; or a child's fills rise and the tracker's total
-- with them by the same amount.
pub run_once-Steps :
    (a : ExchangeAdapter) (s : Session a)
    → IsBalanced (view s.execution)
    → Steps (view s.execution) (view (run_once a s).1.execution)
unfolding IsSound
run_once-Steps a s b = run_once-IsSound a s b

-- Legal transitions of an execution, one after another.
pub data StatusMoves : ExecutionStatus → ExecutionStatus → Type 0 where
  stays : (s : ExecutionStatus) → StatusMoves s s
  goes :
      {s t u : ExecutionStatus}
      → StatusMoves s t
      → transition_execution t u ≡ ok u
      → StatusMoves s u

pub joined_moves : {s t u : ExecutionStatus} → StatusMoves s t → StatusMoves t u → StatusMoves s u
joined_moves a (stays t) = a
joined_moves a (goes b h) = goes (joined_moves a b) h

Step-StatusMoves : {v w : View} → Step v w → StatusMoves v.status w.status
Step-StatusMoves {v} (moves s h e) = rw e (goes (stays v.status) h)
Step-StatusMoves {v} (reserves t u e p w) = rw w (stays v.status)
Step-StatusMoves {v} (rebuilds t u e p w) = rw w (stays v.status)
Step-StatusMoves {v} (sends c t e f p q w) = rw w (stays v.status)
Step-StatusMoves {v} (forgets i c e p w) = rw w (stays v.status)
Step-StatusMoves {v} (marks i c d e p w) = rw w (stays v.status)
Step-StatusMoves {v} (explains cs p w) = rw w (stays v.status)
Step-StatusMoves {v} (fills i c t n e tr p w) = rw w (stays v.status)

-- What the tracker counts as filled.
unfoldable pub tracked : View → Decimal
tracked v = elim v.tracker [ none ↦ pos 0 | some t ↦ t.confirmed_filled_quantity ]

no_loss : (q f n : Decimal) → f <ℤ n → q ≤ℤ q +ℤ (n -ℤ f)
no_loss q f n h = grind (int_laws, h)

Step-tracked : {v w : View} → Step v w → tracked v ≤ℤ tracked w
unfolding tracked
Step-tracked {v} (moves s h e) = rw e (omega arith)
Step-tracked {v} (reserves t u e p w) = rw (w, e, (Reserves-SameBut t u p).confirmed) (omega arith)
Step-tracked {v} (rebuilds t u e p w) = rw (w, e, p.confirmed) (omega arith)
Step-tracked {v} (sends c t e f p q w) = rw (w, e) (omega arith)
Step-tracked {v} (forgets i c e p w) = rw w (omega arith)
Step-tracked {v} (marks i c d e p w) = rw w (omega arith)
Step-tracked {v} (explains cs p w) = rw w (omega arith)
Step-tracked {v} (fills i c t n e tr p w) =
    rw (w, tr) (no_loss t.confirmed_filled_quantity c.confirmed_filled_quantity n p)

Steps-StatusMoves : {v w : View} → Steps v w → StatusMoves v.status w.status
Steps-StatusMoves {v} here = stays v.status
Steps-StatusMoves (next a s) = joined_moves (Steps-StatusMoves a) (Step-StatusMoves s)

Steps-tracked : {v w : View} → Steps v w → tracked v ≤ℤ tracked w
Steps-tracked here = omega arith
Steps-tracked {v} {w} (next {w = x} a s) =
    ℤ-trans (tracked v) (tracked x) (tracked w) (Steps-tracked a) (Step-tracked s)
  where
    ℤ-trans : (a b c : ℤ) → a ≤ℤ b → b ≤ℤ c → a ≤ℤ c
    ℤ-trans a b c h k = omega arith

-- Rounds one after another, whether they return or raise.
pub run_rounds : (a : ExchangeAdapter) → ℕ → Session a → Session a
run_rounds a zero s = s
run_rounds a (suc n) s = run_rounds a n (run_once a s).1

pub run_rounds-Steps :
    (a : ExchangeAdapter) (n : ℕ) (s : Session a)
    → IsBalanced (view s.execution)
    → Steps (view s.execution) (view (run_rounds a n s).execution)
unfolding run_rounds
run_rounds-Steps a zero s b = here
run_rounds-Steps a (suc n) s b =
    let first = run_once-Steps a s b in
    joined first (run_rounds-Steps a n (run_once a s).1 (Steps-IsBalanced first b))

-- For any exchange and clock, from a record whose tracker accounts for its children, after any
-- number of rounds: the tracker still accounts for the children, so that its total is the sum of
-- theirs; the total has not become less; and the status has been reached by legal transitions.
pub run_rounds-IsBalanced :
    (a : ExchangeAdapter) (n : ℕ) (s : Session a)
    → IsBalanced (view s.execution)
    → IsBalanced (view (run_rounds a n s).execution)
      × (tracked (view s.execution) ≤ℤ tracked (view (run_rounds a n s).execution))
      × StatusMoves (view s.execution).status (view (run_rounds a n s).execution).status
run_rounds-IsBalanced a n s b =
    let steps = run_rounds-Steps a n s b in
    (Steps-IsBalanced steps b, Steps-tracked steps, Steps-StatusMoves steps)
