-- ===== src/Engine/Lifecycle/Requests.antt =====
-- `create_execution` of src/execution/engine.py keeps the request, whatever becomes of the start.
use interview_assignment.Base.{
  arith, ◌≡◌, refl, ◌∙◌, true, false, Bool, Option, if◌then◌else◌, ◌||◌, eq_ℤ, pos, Text, Result,
  ok, raised, Decimal, lift, gets, ◌>>=◌,
}
use interview_assignment.Execution.Models.{
  ExecutionStatus, ExecutionRequest, SymbolRules, is_no_action,
}
use interview_assignment.Exchanges.{ExchangeAdapter}
use interview_assignment.Engine.Record.{ExecutionRecord, Update}
use interview_assignment.Engine.Demand.{target_cannot_meet}
use interview_assignment.Engine.Lifecycle.{
  new_record, move_to, complete_at_once, start_running, start_execution, plan_execution,
  begin_execution, create_execution,
}
use interview_assignment.Base.Dict.{Dict, insert}
use interview_assignment.Execution.StateMachine.{transition_execution}

-- The method leaves the request alone.
KeepsRequest : {A : Type 0} → Update A → Type 0
KeepsRequest m = (r : ExecutionRecord) → (m r).1.request ≡ r.request

module _ {A : Type 0} {B : Type 0} where
  kept_on :
      (x : Result A) (f : A → Update B) (q : ExecutionRequest) (r : ExecutionRecord)
      → r.request ≡ q
      → ((a : A) → KeepsRequest (f a))
      → (elim x as (λ _. Result B × ExecutionRecord) [
        | ok a ↦ f a r
        | raised e ↦ (raised e, r)
      ]).1.request
        ≡ q
  unfolding KeepsRequest
  kept_on (ok a) f q r e k = k a r ∙ e
  kept_on (raised x) f q r e k = e

  KeepsRequest-chain :
      (m : Update A) (f : A → Update B)
      → KeepsRequest m
      → ((a : A) → KeepsRequest (f a))
      → KeepsRequest (m >>= f)
  unfolding KeepsRequest
  KeepsRequest-chain m f h k r = kept_on (m r).0 f r.request (m r).1 (h r) k

KeepsRequest-choose :
    (c : Bool) (m n : Update (Unit {0}))
    → KeepsRequest m
    → KeepsRequest n
    → KeepsRequest (if c then m else n)
KeepsRequest-choose true m n h k = h
KeepsRequest-choose false m n h k = k

moved :
    (x : Result ExecutionStatus) (r : ExecutionRecord)
    → (elim x as (λ _. Result (Unit {0}) × ExecutionRecord) [
      | ok s ↦ (ok tt, record r { status = s })
      | raised e ↦ (raised e, r)
    ]).1.request
      ≡ r.request
moved (ok s) r = refl
moved (raised e) r = refl

move_to_request : (target : ExecutionStatus) → KeepsRequest (move_to target)
unfolding KeepsRequest
move_to_request target r = moved (transition_execution r.status target) r

KeepsRequest-gets : {A : Type 0} (f : ExecutionRecord → A) → KeepsRequest (gets f)
unfolding KeepsRequest
KeepsRequest-gets f r = refl

KeepsRequest-lift : {A : Type 0} (x : Result A) → KeepsRequest (lift x)
unfolding KeepsRequest
KeepsRequest-lift x r = refl

KeepsRequest-quiet :
    (m : Update (Unit {0})) → ((r : ExecutionRecord) → (m r).1.request ≡ r.request) → KeepsRequest m
unfolding KeepsRequest
KeepsRequest-quiet m h = h

complete_request : (now : Decimal) → KeepsRequest (complete_at_once now)
unfolding complete_at_once KeepsRequest
complete_request now r = ground arith

running_request : (now : Decimal) → KeepsRequest (start_running now)
unfolding start_running KeepsRequest
running_request now r = ground arith

start_request :
    (now : Decimal) (rules : Option SymbolRules) → KeepsRequest (start_execution now rules)
unfolding start_execution
start_request now rules = KeepsRequest-chain _ _ (move_to_request ExecutionStatus.validating) (λ _.
    KeepsRequest-chain _ _ (KeepsRequest-gets (λ r. r)) (λ r.
      KeepsRequest-choose (is_no_action r.side || eq_ℤ r.required_quantity (pos 0)) _ _
        (complete_request now)
        (KeepsRequest-chain _ _ (KeepsRequest-lift (target_cannot_meet r rules)) (λ untradeable.
          KeepsRequest-choose untradeable _ _ (complete_request now) (running_request now)))))

new_request :
    (a : ExchangeAdapter) (id : Text) (request : ExecutionRequest) (w : a.World)
    (p : ExecutionRecord × Option SymbolRules)
    → (plan_execution a id request w).0 ≡ ok p
    → p.0.request ≡ request
unfolding plan_execution new_record
new_request a id request w p e = ground (arith, e)

-- What an attempt to create an execution leaves in the table.
pub data IsTabled (id : Text) (request : ExecutionRequest) (records records' : Dict ExecutionRecord)
    : Type 0 where
  untouched : records' ≡ records → IsTabled id request records records'
  added :
      (r : ExecutionRecord)
      → r.request ≡ request
      → records' ≡ insert id r records
      → IsTabled id request records records'

begun :
    (a : ExchangeAdapter) (id : Text) (request : ExecutionRequest) (records : Dict ExecutionRecord)
    (x : Result (ExecutionRecord × Option SymbolRules)) (w : a.World)
    → ((p : ExecutionRecord × Option SymbolRules) → x ≡ ok p → p.0.request ≡ request)
    → IsTabled id request records (begin_execution a id records x w).1
unfolding begin_execution KeepsRequest
begun a id request records (raised e) w h = IsTabled.untouched refl
begun a id request records (ok p) w h =
    IsTabled.added _ (start_request (a.monotonic w) p.1 p.0 ∙ h p refl) refl

pub create_execution-IsTabled :
    (a : ExchangeAdapter) (id : Text) (request : ExecutionRequest) (records : Dict ExecutionRecord)
    (w : a.World)
    → IsTabled id request records (create_execution a id request records w).1
unfolding create_execution
create_execution-IsTabled a id request records w =
    begun a id request records _ _ (new_request a id request w)
