-- ===== src/Api/Runtime/Exclusive.antt =====
-- src/api/runtime.py: a table of executions with one active for a symbol in an environment, and the
-- records that may be put into it.
use interview_assignment.Base.{
  arith, ◌||◌, ◌≡◌, sym, subst, ◌∙◌, ◌⊎◌, inl, inr, true, false, not, if◌then◌else◌, Bool-cases,
  none, some, Text, text_eq, text_eq_iff,
}
use interview_assignment.Base.Dict.{lookup, insert, lookup-insert}
use interview_assignment.Execution.Models.{Environment, is_terminal, ExecutionRequest}
use interview_assignment.Engine.Record.{ExecutionRecord}
use interview_assignment.Execution.Service.{Executions, active_execution_for, trades_on}
use interview_assignment.Execution.Service.Active.{
  IsActiveOn, active_on, IsActiveOn-trades, active_execution_for_exact,
}

-- No two executions of the table are active on the same symbol in the same environment.
unfoldable pub IsExclusive : Executions → Type 0
IsExclusive records =
    (environment : Environment) (symbol : Text) (j k : Text) (r s : ExecutionRecord)
    → IsActiveOn environment symbol records j r
    → IsActiveOn environment symbol records k s
    → j ≡ k

-- Whatever is active where the record would be stands under its key.
unfoldable pub IsAlone : Executions → Text → ExecutionRecord → Type 0
IsAlone records id r =
    (environment : Environment) (symbol : Text) (k : Text) (s : ExecutionRecord)
    → is_terminal r.status ≡ false
    → trades_on environment symbol r ≡ true
    → IsActiveOn environment symbol records k s
    → k ≡ id

-- An active execution of the changed table is the new record or was there before.
module _ (environment : Environment) (symbol : Text) (records : Executions) (id : Text)
    (r : ExecutionRecord) where
  placed :
      (k : Text) (s : ExecutionRecord)
      → text_eq k id ≡ true
      → (if text_eq k id then some r else lookup k records) ≡ some s
      → is_terminal s.status ≡ false
      → trades_on environment symbol s ≡ true
      → (k ≡ id) × (is_terminal r.status ≡ false) × (trades_on environment symbol r ≡ true)
  placed k s same at live trades =
      ((text_eq_iff k id).0 same, grind (arith, same, at, live), grind (arith, same, at, trades))

  kept :
      (k : Text) (s : ExecutionRecord)
      → text_eq k id ≡ false
      → (if text_eq k id then some r else lookup k records) ≡ some s
      → lookup k records ≡ some s
  kept k s other at = ground (arith, other, at)

  active_after :
      (k : Text) (s : ExecutionRecord)
      → IsActiveOn environment symbol (insert id r records) k s
      → ((k ≡ id) × (is_terminal r.status ≡ false) × (trades_on environment symbol r ≡ true))
        ⊎ IsActiveOn environment symbol records k s
  active_after k s h =
      let at = sym (lookup-insert k id r records) ∙ h.kept in
      elim (Bool-cases (text_eq k id)) [
        | inl same ↦ inl (placed k s same at h.live (IsActiveOn-trades h))
        | inr other ↦ inr (
            active_on environment symbol records k s (kept k s other at) h.live
              (IsActiveOn-trades h))
      ]

pub insert-IsExclusive :
    (records : Executions) (id : Text) (r : ExecutionRecord)
    → IsExclusive records
    → IsAlone records id r
    → IsExclusive (insert id r records)
unfolding IsExclusive IsAlone
insert-IsExclusive records id r h alone environment symbol j k s t a b =
    elim (active_after environment symbol records id r j s a) [
      | inl here ↦ elim (active_after environment symbol records id r k t b) [
        | inl there ↦ here.0 ∙ sym there.0
        | inr old ↦ here.0 ∙ sym (alone environment symbol k t here.1 here.2 old)
      ]
      | inr older ↦ elim (active_after environment symbol records id r k t b) [
        | inl there ↦ alone environment symbol j s there.1 there.2 older ∙ sym there.0
        | inr old ↦ h environment symbol j k s t older old
      ]
    ]

trades_alike :
    (environment : Environment) (symbol : Text) (r s : ExecutionRecord)
    → trades_on environment symbol r ≡ true
    → trades_on environment symbol s ≡ true
    → trades_on r.request.environment r.request.symbol s ≡ true
unfolding trades_on
trades_alike environment symbol r s h k = grind (
  arith,
  h,
  k,
  text_eq_iff r.request.symbol symbol,
  text_eq_iff s.request.symbol symbol,
  text_eq_iff s.request.symbol r.request.symbol,
)

found_none : (r : ExecutionRecord) → some (some r) ≡ some none → ⊥
found_none r e = grind (arith, e)

none_active :
    (environment : Environment) (symbol : Text) (records : Executions)
    → active_execution_for environment symbol records ≡ some none
    → (k : Text) (s : ExecutionRecord) → ¬ IsActiveOn environment symbol records k s
none_active environment symbol records e k s h =
    elim (active_execution_for_exact environment symbol records) [
      | inl (j, r, a, found) ↦ absurd (found_none r (sym found ∙ e))
      | inr (missing, others) ↦ others (k, s, h)
    ]

pub new-IsAlone :
    (records : Executions) (id : Text) (request : ExecutionRequest) (r : ExecutionRecord)
    → active_execution_for request.environment request.symbol records ≡ some none
    → r.request ≡ request
    → IsAlone records id r
unfolding IsAlone
new-IsAlone records id request r e same environment symbol k s live trades h = absurd (
    none_active r.request.environment r.request.symbol records
      (subst (λ q. active_execution_for q.environment q.symbol records ≡ some none) (sym same) e) k
      s
      (active_on r.request.environment r.request.symbol records k s h.kept h.live
        (trades_alike environment symbol r s trades (IsActiveOn-trades h))))

-- A record that takes the place of one with the same request; an execution that has ended stays so.
pub record IsLater (r : ExecutionRecord) (records : Executions) : Type 0 where
  pub old : ExecutionRecord
  pub stands : lookup r.execution_id records ≡ some old
  pub same_request : r.request ≡ old.request
  pub stays_ended : (is_terminal r.status || not (is_terminal old.status)) ≡ true

still_live :
    (r old : ExecutionRecord)
    → is_terminal r.status ≡ false
    → (is_terminal r.status || not (is_terminal old.status)) ≡ true
    → is_terminal old.status ≡ false
still_live r old live stays = ground (arith, live, stays)

traded :
    (environment : Environment) (symbol : Text) (r old : ExecutionRecord)
    → r.request ≡ old.request
    → trades_on environment symbol r ≡ true
    → trades_on environment symbol old ≡ true
unfolding trades_on
traded environment symbol r old same trades = grind (arith, same, trades)

pub later-IsAlone :
    (r : ExecutionRecord) (records : Executions)
    → IsExclusive records
    → IsLater r records
    → IsAlone records r.execution_id r
unfolding IsAlone IsExclusive
later-IsAlone r records h later environment symbol k s live trades a =
    h environment symbol k r.execution_id s later.old a (
      active_on environment symbol records r.execution_id later.old later.stands
        (still_live r later.old live later.stays_ended)
        (traded environment symbol r later.old later.same_request trades))
