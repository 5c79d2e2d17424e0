-- ===== src/Execution/Service.antt =====
-- src/execution/service.py and the table of executions that src/execution/engine.py keeps for it.
pub mod Active
use mathlib.Core.Option
use interview_assignment.Base.{
  Bool, true, false, ◌&&◌, not, Option, none, some, List, [], ◌∷◌, ◌==◌, if◌then◌else◌, ℕ, Text,
  text_eq, Exec, pure, raise, Exception, modify, ◌>>=◌, ◌>>◌,
}
use interview_assignment.Base.Dict.{Dict, lookup, insert}
use interview_assignment.Execution.Models.{Environment, is_terminal}
use interview_assignment.Engine.Record.{ExecutionRecord}

-- `_records`
abbrev pub Executions : Type 0
Executions = Dict ExecutionRecord

-- `get_execution`; `none` stands for the raised UnknownExecution.
unfoldable pub get_execution : Executions → Text → Option ExecutionRecord
get_execution records execution_id = lookup execution_id records

-- `self._records[execution_id] = record`
unfoldable pub keep_execution : ExecutionRecord → Executions → Executions
keep_execution r records = insert r.execution_id r records

-- `list(self._engine._records)`
unfoldable pub execution_ids : Executions → List Text
execution_ids [] = []
execution_ids ((k, r) ∷ records) = k ∷ execution_ids records

unfoldable pub add_active : ExecutionRecord → List ExecutionRecord → List ExecutionRecord
add_active r active = if not (is_terminal r.status) then r ∷ active else active

-- The loop of `active_executions`.
unfoldable pub collect_active : Executions → List Text → Option (List ExecutionRecord)
collect_active records [] = some []
collect_active records (k ∷ ks) =
    let rest = collect_active records ks in
    elim (get_execution records k) [ none ↦ none | some r ↦ Option.map (add_active r) rest ]

unfoldable pub active_executions : Executions → Option (List ExecutionRecord)
active_executions records = collect_active records (execution_ids records)

abbrev pub environment_code : Environment → ℕ
environment_code Environment.simulation = 0
environment_code Environment.testnet = 1
environment_code Environment.mainnet = 2

-- The test of `active_execution_for`.
unfoldable pub trades_on : Environment → Text → ExecutionRecord → Bool
trades_on environment symbol r =
    environment_code r.request.environment == environment_code environment
    && text_eq r.request.symbol symbol

unfoldable pub first_on : Environment → Text → List ExecutionRecord → Option ExecutionRecord
first_on environment symbol [] = none
first_on environment symbol (r ∷ rs) =
    let rest = first_on environment symbol rs in
    if trades_on environment symbol r then some r else rest

-- `active_execution_for`; the outer `none` stands for a raise.
unfoldable pub active_execution_for :
    Environment → Text → Executions → Option (Option ExecutionRecord)
active_execution_for environment symbol records =
    Option.map (first_on environment symbol) (active_executions records)
