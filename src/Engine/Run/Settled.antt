-- ===== src/Engine/Run/Settled.antt =====
-- The refresh of src/execution/engine.py when all orders have ended: it asks nothing, and nothing
-- is reserved afterwards.
use interview_assignment.Base.{
  ℕ, ◌+◌, ◌≡◌, refl, sym, ap, subst, ◌∙◌, true, some, List, [], ◌∷◌, ◌++◌, arith, if◌then◌else◌,
  pos, int_laws, length, get_elem?, ok, raised, ◌>>=◌, ◌>>◌, after_call,
}
use interview_assignment.Execution.Models.{child_is_terminal}
use interview_assignment.Execution.Orders.{ChildOrder, Exposure, empty_exposure, reserved_exposure}
use interview_assignment.Risk.Validation.{check_exposure_invariant}
use interview_assignment.Exchanges.{ExchangeAdapter}
use interview_assignment.Engine.Exposure.{ExposureTracker}
use interview_assignment.Engine.Record.{
  ExecutionRecord, exposure, record_max_reserved_exposure, assert_exposure_invariant,
  require_exposure_tracker, read_child,
}
use interview_assignment.Engine.Fills.{refresh_reserved_exposure}
use interview_assignment.Engine.Session.{Session, Action, on_record, attempt, inspect, read_clock}
use interview_assignment.Engine.Exposure.Limits.{IsWithin}
use interview_assignment.Engine.Fills.{add_children_exposure, add_child_exposure}
use interview_assignment.Engine.Cancel.{places_from}
use interview_assignment.Engine.Refresh.{
  clear_pending_reasons, renew_summary, finish_reconciliation_refresh, refresh_each, refresh_child,
  lookup_failed,
}

-- The orders at these places have all ended.
abbrev pub HaveEnded : ExecutionRecord → List ℕ → Type 0
HaveEnded r [] = Unit
HaveEnded r (i ∷ l) =
    ((c : ChildOrder) × (get_elem? r.child_orders i ≡ some c) × (child_is_terminal c.status ≡ true))
    × HaveEnded r l

abbrev pub AllEnded : List ChildOrder → Type 0
AllEnded [] = Unit
AllEnded (c ∷ cs) = (child_is_terminal c.status ≡ true) × AllEnded cs

get_elem?-rest :
    (k : List ChildOrder) (c : ChildOrder) (l : List ChildOrder)
    → get_elem? (k ++ c ∷ l) (length k) ≡ some c
get_elem?-rest [] c l = refl
get_elem?-rest (b ∷ k) c l = get_elem?-rest k c l

append_assoc :
    (k : List ChildOrder) (c : ChildOrder) (l : List ChildOrder) → (k ++ c ∷ []) ++ l ≡ k ++ c ∷ l
append_assoc [] c l = refl
append_assoc (b ∷ k) c l = ap (λ x. b ∷ x) (append_assoc k c l)

length-last : (k : List ChildOrder) (c : ChildOrder) → length (k ++ c ∷ []) ≡ length k + 1
length-last [] c = omega arith
length-last (b ∷ k) c = omega (arith, length-last k c)

pub ended_places :
    (r : ExecutionRecord) (k l : List ChildOrder)
    → r.child_orders ≡ k ++ l
    → AllEnded l
    → HaveEnded r (places_from (length k) l)
ended_places r k [] e h = tt
ended_places r k (c ∷ l) e h = (
  (c, rw e (get_elem?-rest k c l), h.0),
  subst (λ (n : ℕ). HaveEnded r (places_from n l)) (length-last k c)
      (ended_places r (k ++ c ∷ []) l (e ∙ sym (append_assoc k c l)) h.1),
)

pub reads :
    (a : ExchangeAdapter) (i : ℕ) (c : ChildOrder) (s : Session a)
    → get_elem? s.execution.child_orders i ≡ some c
    → on_record (read_child i) s ≡ (ok c, s)
unfolding read_child
reads a i c s e = ground arith

-- A round of the refresh for one child.
abbrev visit : (a : ExchangeAdapter) → ℕ → Action a (Unit {0}) → ChildOrder → Action a (Unit {0})
visit a i rest child = if child_is_terminal child.status then rest else (do
  symbol ← inspect (λ r. r.request.symbol)
  answer ← attempt (a.get_order_by_client_order_id symbol child.client_order_id)
  now ← read_clock
  elim answer [
    | ok found ↦ on_record (refresh_child i child found) >> rest
    | raised e ↦ on_record (lookup_failed now finish_reconciliation_refresh e)
  ])

visit_ended :
    (a : ExchangeAdapter) (i : ℕ) (rest : Action a (Unit {0})) (c : ChildOrder) (s : Session a)
    → child_is_terminal c.status ≡ true
    → visit a i rest c s ≡ rest s
visit_ended a i rest c s e = rw e refl

-- The lookup of an order that has ended is left out.
pub skips :
    (a : ExchangeAdapter) (l : List ℕ) (s : Session a)
    → HaveEnded s.execution l
    → refresh_each a l s ≡ on_record finish_reconciliation_refresh s
unfolding refresh_each
skips a [] s h = refl
skips a (i ∷ l) s ((c, e, ended), h) =
    after_call (on_record (read_child i)) (visit a i (refresh_each a l)) s s c (reads a i c s e)
    ∙ visit_ended a i (refresh_each a l) c s ended
    ∙ skips a l s h

pub add_nothing :
    (cs : List ChildOrder) (e : Exposure) → AllEnded cs → add_children_exposure e cs ≡ e
unfolding add_children_exposure add_child_exposure
add_nothing [] e h = refl
add_nothing (c ∷ cs) e h =
    let same : add_child_exposure e c ≡ e = ground (arith, h.0) in
    ap (λ x. add_children_exposure x cs) same ∙ add_nothing cs e h.1

-- The exposure of orders that have all ended.
abbrev pub only_filled : ExposureTracker → Exposure
only_filled t = record empty_exposure { confirmed_filled_quantity = t.confirmed_filled_quantity }

pub safe_exposure :
    (t : ExposureTracker)
    → IsWithin t
    → check_exposure_invariant (only_filled t) (pos 0) t.target_quantity t.permitted_tolerance
      ≡ ok tt
unfolding check_exposure_invariant reserved_exposure
safe_exposure t h = grind int_laws

-- The last calls of the refresh leave these as they were.
pub record Same (r r' : ExecutionRecord) : Type 0 where
  pub status : r'.status ≡ r.status
  pub required : r'.required_quantity ≡ r.required_quantity
  pub tracked : r'.exposure_tracker ≡ r.exposure_tracker

pub joined_Same : {r r' r'' : ExecutionRecord} → Same r r' → Same r' r'' → Same r r''
joined_Same a b = record {
  status = b.status ∙ a.status;
  required = b.required ∙ a.required;
  tracked = b.tracked ∙ a.tracked;
}

pub record_max-Same : (r : ExecutionRecord) → Same r (record_max_reserved_exposure r)
unfolding record_max_reserved_exposure
record_max-Same r = record {
  status = ground arith;
  required = ground arith;
  tracked = ground arith;
}

clear-Same : (r : ExecutionRecord) → Same r (clear_pending_reasons r)
unfolding clear_pending_reasons
clear-Same r = record { status = ground arith; required = ground arith; tracked = ground arith }

renew-Same : (r : ExecutionRecord) → Same r (renew_summary r)
unfolding renew_summary
renew-Same r = record { status = ground arith; required = ground arith; tracked = ground arith }

module _ (t : ExposureTracker) (r : ExecutionRecord) (e : r.exposure_tracker ≡ some t)
    (within : IsWithin t) (target : t.target_quantity ≡ r.required_quantity)
    (ended : AllEnded r.child_orders) where
  abbrev pub rebuilt : ExecutionRecord
  rebuilt = record r { exposure_tracker = some (record t { exposure = only_filled t }) }

  refresh_lem : refresh_reserved_exposure r ≡ (ok tt, rebuilt)
  unfolding refresh_reserved_exposure require_exposure_tracker
  refresh_lem = ground (arith, add_nothing r.child_orders (only_filled t) ended)

  abbrev pub noted : ExecutionRecord
  noted = record_max_reserved_exposure rebuilt

  asserted : assert_exposure_invariant noted ≡ (ok tt, noted)
  unfolding assert_exposure_invariant exposure
  asserted =
      let same = record_max-Same rebuilt in
      ground (arith, same.tracked, same.required, safe_exposure t within, target)

  pub finish_lem :
      finish_reconciliation_refresh r ≡ (ok tt, renew_summary (clear_pending_reasons noted))
  unfolding finish_reconciliation_refresh
  finish_lem = ground (arith, refresh_lem, asserted)

  pub rests : Same rebuilt (renew_summary (clear_pending_reasons noted))
  rests =
      joined_Same (record_max-Same rebuilt)
        (joined_Same (clear-Same noted) (renew-Same (clear_pending_reasons noted)))
