-- ===== src/Api/Runtime.antt =====
-- src/api/runtime.py: `ExecutionRuntime` as one of its environments sees it, whose service stands
-- already. The lock makes a method one step.
pub mod Exclusive
pub mod Events
use text.Mathlib.Text.{◌==◌ as str_eq}
use interview_assignment.Base.{
  or_default, String, Bool, true, false, ◌||◌, not, Option, none, some, List, [], ◌∷◌,
  if◌then◌else◌, Text, Exception, Result, ok, raised,
}
use interview_assignment.Base.Dict.{Dict, IdSet, insert, contains, add, discard}
use interview_assignment.Execution.Models.{Environment, is_terminal, ExecutionRequest}
use interview_assignment.Exchanges.{ExchangeAdapter}
use interview_assignment.Engine.Record.{ExecutionRecord, reason_is}
use interview_assignment.Engine.Lifecycle.{create_execution}
use interview_assignment.Execution.Service.{Executions, keep_execution, active_execution_for}

pub record Runtime (a : ExchangeAdapter) : Type 0 where
  pub world : a.World
  pub records : Executions
  pub execution_environments : Dict Environment
  pub execution_tasks : IdSet
  pub unavailable : Option String
  pub is_started : Bool
  pub is_stopping : Bool

-- The exceptions of the runtime, and those of the engine that it lets through.
pub data Refusal : Type 0 where
  runtime_configuration_error : String → Refusal
  runtime_unavailable : String → Refusal
  active_execution_conflict : Text → Refusal
  passed_on : Exception → Refusal

pub data Answer : Type 0 where
  returned : ExecutionRecord → Answer
  refused : Refusal → Answer

module _ {a : ExchangeAdapter} where
  -- `_remember_execution`
  unfoldable pub remember_execution : ExecutionRecord → Runtime a → Runtime a
  remember_execution r x = record x {
    execution_environments = insert r.execution_id r.request.environment x.execution_environments;
  }

  -- `_schedule_background_loop`; the task is its execution's id.
  unfoldable pub schedule_background_loop : ExecutionRecord → Runtime a → Runtime a
  schedule_background_loop r x =
      if not x.is_started || is_terminal r.status || contains r.execution_id x.execution_tasks
      then x
      else record x { execution_tasks = add r.execution_id x.execution_tasks }

  -- The `except` clauses of `create_execution`.
  unfoldable pub creation_failed : Exception → Runtime a → Answer × Runtime a
  creation_failed (Exception.venue_ban_hard_stop reason) x =
      (Answer.refused (Refusal.runtime_unavailable reason), record x { unavailable = some reason })
  creation_failed (Exception.exchange_rate_limited reason) x =
      (Answer.refused (Refusal.runtime_unavailable reason), x)
  creation_failed e x = (Answer.refused (Refusal.passed_on e), x)

  -- `service.create_execution` and what follows it; the id is what `ids.execution_id()` makes.
  unfoldable pub create_admitted : Text → ExecutionRequest → Runtime a → Answer × Runtime a
  create_admitted execution_id request x =
      let (result, records, world) = create_execution a execution_id request x.records x.world in
      let x' = record x { records = records; world = world } in
      elim result [
        | ok r ↦ (Answer.returned r, schedule_background_loop r (remember_execution r x'))
        | raised e ↦ creation_failed e x'
      ]

  -- The check for an active execution.
  unfoldable pub create_available : Text → ExecutionRequest → Runtime a → Answer × Runtime a
  create_available execution_id request x =
      let admitted = create_admitted execution_id request x in
      elim (active_execution_for request.environment request.symbol x.records) [
        | none ↦ (Answer.refused (Refusal.passed_on Exception.unknown_execution), x)
        | some active ↦ elim active [
          | none ↦ admitted
          | some r ↦ (Answer.refused (Refusal.active_execution_conflict r.execution_id), x)
        ]
      ]

  -- `create_execution`; an empty reason is false to Python.
  unfoldable pub create : Text → ExecutionRequest → Runtime a → Answer × Runtime a
  create execution_id request x =
      let available = create_available execution_id request x in
      if x.is_stopping
      then (Answer.refused (Refusal.runtime_configuration_error "runtime is stopping"), x)
      else elim x.unavailable [
        | none ↦ available
        | some reason ↦
            if str_eq reason ""
            then available
            else (Answer.refused (Refusal.runtime_unavailable reason), x)
      ]

  -- `_cancel_background_loop_if_terminal`, with the callback that discards the cancelled task; a
  -- loop that calls it itself ends by its own.
  unfoldable pub cancel_background_loop_if_terminal : ExecutionRecord → Runtime a → Runtime a
  cancel_background_loop_if_terminal r x =
      if is_terminal r.status
      then record x { execution_tasks = discard r.execution_id x.execution_tasks }
      else x

  -- `_record_returned_unavailable_record`, for a reason that is in
  -- UNAVAILABLE_RECONCILIATION_FINAL_REASONS.
  unfoldable pub record_returned_unavailable : ExecutionRecord → Runtime a → Runtime a
  record_returned_unavailable r x =
      let x' = cancel_background_loop_if_terminal r (remember_execution r x) in
      if reason_is r.final_reason "VENUE_BAN_HARD_STOP"
      then record x' { unavailable = r.final_reason }
      else x'

  -- `cancel_execution`, `run_once` and `reconcile_execution`, once the engine has changed its
  -- record and handed it out.
  unfoldable pub take_returned : ExecutionRecord → Runtime a → Answer × Runtime a
  take_returned r x =
      let x' = record x { records = keep_execution r x.records } in
      if reason_is r.final_reason "RATE_LIMIT_BACKOFF"
        || reason_is r.final_reason "VENUE_BAN_HARD_STOP"
      then (
        Answer.refused (Refusal.runtime_unavailable (or_default r.final_reason "")),
        record_returned_unavailable r x',
      )
      else (Answer.returned r, cancel_background_loop_if_terminal r (remember_execution r x'))
