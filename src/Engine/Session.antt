-- ===== src/Engine/Session.antt =====
-- src/execution/engine.py: what a method of the engine works on, and how it reaches the adapter and
-- the clock.
use interview_assignment.Base.{
  ℕ, String, Bool, Option, if◌then◌else◌, pos, Decimal, ltb_ℤ, Result, ok, Exec, pure, lift, modify,
  ◌>>=◌,
}
use interview_assignment.Execution.Models.{ChildOrderStatus}
use interview_assignment.Execution.Orders.{ChildOrder}
use interview_assignment.Exchanges.{ExchangeAdapter}
use interview_assignment.Engine.ChildStatus.{set_child_status}
use interview_assignment.Engine.Record.{ExecutionRecord, Update, read_child, write_child}
use interview_assignment.Engine.Fills.{
  snapshot_report, update_child_cumulative_fill, copy_exchange_child,
}

-- The world outside and the record of the execution whose actor runs the method.
pub record Session (a : ExchangeAdapter) : Type 0 where
  pub world : a.World
  pub execution : ExecutionRecord

abbrev pub Action : ExchangeAdapter → Type 0 → Type 0
Action a A = Exec (Session a) A

module _ {a : ExchangeAdapter} {A : Type 0} where
  -- A step on the record alone.
  abbrev pub on_record : Update A → Action a A
  on_record u s = let (x, r) = u s.execution in (x, record s { execution = r })

  -- The same with the value of `_now_decimal()`.
  abbrev pub at_now : (Decimal → Update A) → Action a A
  at_now u s = on_record (u (a.monotonic s.world)) s

  -- A call of the adapter under `try`, and one whose exceptions go on to the caller.
  abbrev pub attempt : (a.World → Result A × a.World) → Action a (Result A)
  attempt call s = let (x, w) = call s.world in (ok x, record s { world = w })

  abbrev pub ask : (a.World → Result A × a.World) → Action a A
  ask call s = let (x, w) = call s.world in (x, record s { world = w })

-- An assignment to fields of the record.
abbrev pub edit : {a : ExchangeAdapter} → (ExecutionRecord → ExecutionRecord) → Action a (Unit {0})
edit f s = (ok tt, record s { execution = f s.execution })

-- Reads the record.
abbrev pub inspect : {a : ExchangeAdapter} {A : Type 0} → (ExecutionRecord → A) → Action a A
inspect f s = (ok (f s.execution), s)

abbrev pub read_clock : {a : ExchangeAdapter} → Action a Decimal
read_clock {a} s = (ok (a.monotonic s.world), s)

-- `self._set_child_status(child, status)`
unfoldable pub set_status_at : ℕ → ChildOrderStatus → Update (Unit {0})
set_status_at i target = do
  c ← read_child i
  c' ← lift (set_child_status c target)
  modify (write_child i c')

-- `child.terminal_reason = reason`
unfoldable pub set_reason_at : ℕ → Option String → Update (Unit {0})
set_reason_at i reason = do
  c ← read_child i
  modify (write_child i (record c { terminal_reason = reason }))

-- `self._copy_exchange_child(child, exchange_child, include_filled=...)`
unfoldable pub copy_at : ℕ → ChildOrder → Bool → Update (Unit {0})
copy_at i x include_filled = do
  c ← read_child i
  modify (write_child i (copy_exchange_child c x include_filled))

-- The update that follows every reported order: `if filled > 0: self._update_child_...`.
unfoldable pub fill_from_order : ℕ → Decimal → Update (Unit {0})
fill_from_order i filled = do
  c ← read_child i
  if ltb_ℤ (pos 0) filled
      then update_child_cumulative_fill i (snapshot_report filled c.price)
      else pure tt
