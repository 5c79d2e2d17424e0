-- ===== src/Tests/Runtimes.antt =====
-- The theorem on the runtime (src/api/runtime.py) for two requests on one symbol.
use interview_assignment.Base.{
  ◌≡◌, refl, true, false, none, some, [], ◌∷◌, pos, Text, arith, ok, text_eq,
}
use interview_assignment.Base.Dict.{lookup}
use interview_assignment.Engine.Record.{ExecutionRecord}
use interview_assignment.Execution.Service.{
  active_execution_for, active_executions, collect_active, execution_ids, first_on, get_execution,
  add_active, trades_on,
}
use interview_assignment.Api.Runtime.{Runtime, Refusal, Answer, create, create_available}
use interview_assignment.Api.Runtime.Exclusive.{IsExclusive}
use interview_assignment.Api.Runtime.Events.{Event, run_events, run_events-IsExclusive}
use interview_assignment.Tests.Samples.{request, refusing, rules, flat, running}
use interview_assignment.Exchanges.{ExchangeAdapter}

-- An exchange that tells its rules and the position.
abbrev telling : ExchangeAdapter
telling = record refusing {
  get_symbol_rules = λ s t. (ok rules, t);
  get_position = λ s t. (ok flat, t);
}

abbrev idle : Runtime telling
idle = record {
  world = pos 50;
  records = [];
  execution_environments = [];
  execution_tasks = [];
  unavailable = none;
  is_started = true;
  is_stopping = false;
}

abbrev first : Text
first = 97 ∷ []

abbrev second : Text
second = 98 ∷ []

nothing_kept : {r : ExecutionRecord} → none ≡ some r → ⊥
nothing_kept e = grind (arith, e)

empty-IsExclusive : IsExclusive []
unfolding IsExclusive lookup
empty-IsExclusive environment symbol j k r s a b = absurd (nothing_kept a.kept)

-- The sample execution is running on the symbol.
second_refused :
    (create second request (record idle { records = (first, running) ∷ [] })).0
    ≡ Answer.refused (Refusal.active_execution_conflict first)
unfolding create create_available active_execution_for active_executions collect_active
    execution_ids first_on get_execution lookup text_eq add_active trades_on
second_refused = refl

run_events-IsExclusive_example :
    IsExclusive
      (run_events (Event.creates first request ∷ Event.creates second request ∷ []) idle).records
run_events-IsExclusive_example =
    run_events-IsExclusive telling (Event.creates first request ∷ Event.creates second request ∷ [])
      idle empty-IsExclusive (tt, (tt, tt))
