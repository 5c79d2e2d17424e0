-- ===== src/Api/Runtime/Events.antt =====
-- The tables that `create_execution` of src/api/runtime.py leaves, whatever else happens between
-- its calls.
use text.Mathlib.Text.{◌==◌ as str_eq}
use interview_assignment.Base.{
  arith, String, ◌≡◌, refl, sym, subst, Bool, true, false, if◌then◌else◌, Option, none, some, List,
  [], ◌∷◌, Text, Exception, Result, ok, raised,
}
use interview_assignment.Base.Dict.{insert}
use interview_assignment.Execution.Models.{ExecutionRequest}
use interview_assignment.Exchanges.{ExchangeAdapter}
use interview_assignment.Engine.Record.{ExecutionRecord}
use interview_assignment.Engine.Lifecycle.{create_execution}
use interview_assignment.Engine.Lifecycle.Requests.{IsTabled, create_execution-IsTabled}
use interview_assignment.Execution.Service.{Executions, keep_execution, active_execution_for}
use interview_assignment.Api.Runtime.{
  Runtime, Refusal, Answer, remember_execution, schedule_background_loop, creation_failed,
  create_admitted, create_available, create, take_returned, cancel_background_loop_if_terminal,
  record_returned_unavailable,
}
use interview_assignment.Api.Runtime.Exclusive.{
  IsExclusive, insert-IsExclusive, new-IsAlone, IsLater, later-IsAlone,
}

tabled-IsExclusive :
    (id : Text) (request : ExecutionRequest) (records records' : Executions)
    → IsExclusive records
    → active_execution_for request.environment request.symbol records ≡ some none
    → IsTabled id request records records'
    → IsExclusive records'
tabled-IsExclusive id request records records' h e (IsTabled.untouched same) =
    subst IsExclusive (sym same) h
tabled-IsExclusive id request records records' h e (IsTabled.added r asked added) =
    subst IsExclusive (sym added)
      (insert-IsExclusive records id r h (new-IsAlone records id request r e asked))

module _ {a : ExchangeAdapter} where
  failed_records : (e : Exception) (x : Runtime a) → (creation_failed e x).1.records ≡ x.records
  unfolding creation_failed
  failed_records e x = ground arith

  answered_records :
      (y : Result ExecutionRecord) (x : Runtime a)
      → (elim y as (λ _. Answer × Runtime a) [
        | ok r ↦ (Answer.returned r, schedule_background_loop r (remember_execution r x))
        | raised e ↦ creation_failed e x
      ]).1.records
        ≡ x.records
  unfolding schedule_background_loop remember_execution
  answered_records (ok r) x = ground arith
  answered_records (raised e) x = failed_records e x

  admitted-IsExclusive :
      (id : Text) (request : ExecutionRequest) (x : Runtime a)
      → IsExclusive x.records
      → active_execution_for request.environment request.symbol x.records ≡ some none
      → IsExclusive (create_admitted id request x).1.records
  unfolding create_admitted
  admitted-IsExclusive id request x h e =
      let y = create_execution a id request x.records x.world in
      subst IsExclusive (sym (answered_records y.0 (record x { records = y.1; world = y.2 }))) (
        tabled-IsExclusive id request x.records y.1 h e
          (create_execution-IsTabled a id request x.records x.world))

  looked_up :
      (x : Runtime a) (admitted : Answer × Runtime a) (y : Option (Option ExecutionRecord))
      → IsExclusive x.records
      → (y ≡ some none → IsExclusive admitted.1.records)
      → IsExclusive
          (elim y as (λ _. Answer × Runtime a) [
            | none ↦ (Answer.refused (Refusal.passed_on Exception.unknown_execution), x)
            | some active ↦ elim active [
              | none ↦ admitted
              | some r ↦ (Answer.refused (Refusal.active_execution_conflict r.execution_id), x)
            ]
          ]).1.records
  looked_up x admitted none h k = h
  looked_up x admitted (some none) h k = k refl
  looked_up x admitted (some (some r)) h k = h

  available-IsExclusive :
      (id : Text) (request : ExecutionRequest) (x : Runtime a)
      → IsExclusive x.records
      → IsExclusive (create_available id request x).1.records
  unfolding create_available
  available-IsExclusive id request x h =
      looked_up x (create_admitted id request x)
        (active_execution_for request.environment request.symbol x.records) h
        (λ e. admitted-IsExclusive id request x h e)

  either-IsExclusive :
      (c : Bool) (y z : Answer × Runtime a)
      → IsExclusive y.1.records
      → IsExclusive z.1.records
      → IsExclusive (if c then y else z).1.records
  either-IsExclusive true y z h k = h
  either-IsExclusive false y z h k = k

  gated :
      (stopping : Bool) (unavailable : Option String) (x : Runtime a)
      (available : Answer × Runtime a)
      → IsExclusive x.records
      → IsExclusive available.1.records
      → IsExclusive
          (if stopping
            then (Answer.refused (Refusal.runtime_configuration_error "runtime is stopping"), x)
            else elim unavailable as (λ _. Answer × Runtime a) [
              | none ↦ available
              | some reason ↦
                  if str_eq reason ""
                  then available
                  else (Answer.refused (Refusal.runtime_unavailable reason), x)
            ]).1.records
  gated true u x available h k = h
  gated false none x available h k = k
  gated false (some reason) x available h k = either-IsExclusive (str_eq reason "") available _ k h

  create-IsExclusive :
      (id : Text) (request : ExecutionRequest) (x : Runtime a)
      → IsExclusive x.records
      → IsExclusive (create id request x).1.records
  unfolding create
  create-IsExclusive id request x h =
      gated x.is_stopping x.unavailable x (create_available id request x) h
        (available-IsExclusive id request x h)

-- What happens to the table: an execution is asked for, or the engine hands back a
-- record that it has changed.
pub data Event : Type 0 where
  creates : Text → ExecutionRequest → Event
  hands_back : ExecutionRecord → Event

unfoldable pub run_event : {a : ExchangeAdapter} → Event → Runtime a → Runtime a
run_event (Event.creates id request) x = (create id request x).1
run_event (Event.hands_back r) x = (take_returned r x).1

unfoldable pub run_events : {a : ExchangeAdapter} → List Event → Runtime a → Runtime a
run_events [] x = x
run_events (event ∷ events) x = run_events events (run_event event x)

abbrev pub IsOrderly : {a : ExchangeAdapter} → Event → Runtime a → Type 0
IsOrderly (Event.creates id request) x = Unit
IsOrderly (Event.hands_back r) x = IsLater r x.records

abbrev pub AllOrderly : {a : ExchangeAdapter} → List Event → Runtime a → Type 0
AllOrderly [] x = Unit
AllOrderly (event ∷ events) x = IsOrderly event x × AllOrderly events (run_event event x)

taken_records :
    {a : ExchangeAdapter} (r : ExecutionRecord) (x : Runtime a)
    → (take_returned r x).1.records ≡ insert r.execution_id r x.records
unfolding take_returned keep_execution record_returned_unavailable
    cancel_background_loop_if_terminal remember_execution
taken_records r x = ground arith

event-IsExclusive :
    (a : ExchangeAdapter) (event : Event) (x : Runtime a)
    → IsExclusive x.records
    → IsOrderly event x
    → IsExclusive (run_event event x).records
unfolding run_event
event-IsExclusive a (Event.creates id request) x h o = create-IsExclusive id request x h
event-IsExclusive a (Event.hands_back r) x h o =
    subst IsExclusive (sym (taken_records r x))
      (insert-IsExclusive x.records r.execution_id r h (later-IsAlone r x.records h o))

-- Whatever executions are asked for, in any order, with any answers of the exchange, and whether
-- they are created, refused, or fail to start: no two executions of the table are ever active on
-- the same symbol in the same environment. It starts from such a table, and a record that the
-- engine hands back between keeps its request and is not one that had ended and is active again.
pub run_events-IsExclusive :
    (a : ExchangeAdapter) (events : List Event) (x : Runtime a)
    → IsExclusive x.records
    → AllOrderly events x
    → IsExclusive (run_events events x).records
unfolding run_events
run_events-IsExclusive a [] x h o = h
run_events-IsExclusive a (event ∷ events) x h o =
    run_events-IsExclusive a events (run_event event x) (event-IsExclusive a event x h o.0) o.1
