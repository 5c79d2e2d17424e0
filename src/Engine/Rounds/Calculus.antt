-- ===== src/Engine/Rounds/Calculus.antt =====
-- Methods of src/execution/engine.py whose effect on an execution is a sequence of steps: how they
-- compose.
use interview_assignment.Base.{
  ◌≡◌, refl, sym, subst, Bool, true, false, Option, none, some, if◌then◌else◌, Decimal, Exception,
  Result, ok, raised, Exec, raise, lift, gets, modify, ◌>>=◌,
}
use interview_assignment.Exchanges.{ExchangeAdapter}
use interview_assignment.Engine.Record.{ExecutionRecord, Update}
use interview_assignment.Engine.Session.{
  Session, on_record, at_now, attempt, ask, edit, inspect, read_clock,
}
use interview_assignment.Engine.Rounds.{View, view, Steps, here, joined, IsBalanced}
use interview_assignment.Engine.Rounds.Books.{Steps-IsBalanced}

-- From balanced books the method takes steps only.
unfoldable pub IsSound : {S : Type 0} {A : Type 0} → (S → ExecutionRecord) → Exec S A → Type 0
IsSound {S = S} rec m =
    (s : S) → IsBalanced (view (rec s)) → Steps (view (rec s)) (view (rec (m s).1))

-- The record itself, and the record of a session.
abbrev pub own : ExecutionRecord → ExecutionRecord
own r = r

abbrev pub of_session : (a : ExchangeAdapter) → Session a → ExecutionRecord
of_session a s = s.execution

module _ {S : Type 0} {A : Type 0} {B : Type 0} (rec : S → ExecutionRecord) where
  pub by_result :
      (x : Result A) (f : A → Exec S B) (s : S) (v : View)
      → Steps v (view (rec s))
      → ((a : A) → x ≡ ok a → Steps (view (rec s)) (view (rec (f a s).1)))
      → Steps v
          (view (rec (elim x as (λ _. Result B × S) [ ok a ↦ f a s | raised e ↦ (raised e, s) ]).1))
  by_result (ok a) f s v h k = joined h (k a refl)
  by_result (raised e) f s v h k = h

  -- What follows may use what the first method returned.
  pub chain_given :
      (m : Exec S A) (f : A → Exec S B)
      → IsSound rec m
      → ((a : A) (s : S)
          → IsBalanced (view (rec s))
          → (m s).0 ≡ ok a
          → Steps (view (rec (m s).1)) (view (rec (f a (m s).1).1)))
      → IsSound rec (m >>= f)
  unfolding IsSound
  chain_given m f h k s b = by_result (m s).0 f (m s).1 (view (rec s)) (h s b) (λ a e. k a s b e)

  pub chain :
      (m : Exec S A) (f : A → Exec S B)
      → IsSound rec m
      → ((a : A) → IsSound rec (f a))
      → IsSound rec (m >>= f)
  unfolding IsSound
  chain m f h k = chain_given m f h (λ a s b e. k a (m s).1 (Steps-IsBalanced (h s b) b))

  -- The first method only reads.
  pub chain_read :
      (m : Exec S A) (f : A → Exec S B)
      → ((s : S) → (m s).1 ≡ s)
      → ((a : A) (s : S)
          → IsBalanced (view (rec s))
          → (m s).0 ≡ ok a
          → Steps (view (rec s)) (view (rec (f a s).1)))
      → IsSound rec (m >>= f)
  unfolding IsSound
  chain_read m f same k =
      chain_given m f (λ s b. subst (λ x. Steps (view (rec s)) (view (rec x))) (sym (same s)) here)
        (λ a s b e.
          subst (λ x. Steps (view (rec x)) (view (rec (f a x).1))) (sym (same s)) (k a s b e))

module _ {S : Type 0} {B : Type 0} (rec : S → ExecutionRecord) where
  pub choose :
      (c : Bool) (m n : Exec S B) → IsSound rec m → IsSound rec n → IsSound rec (if c then m else n)
  unfolding IsSound
  choose true m n h k = h
  choose false m n h k = k

  pub quiet : (m : Exec S B) → ((s : S) → view (rec (m s).1) ≡ view (rec s)) → IsSound rec m
  unfolding IsSound
  quiet m e s b = rw (e s) here

  -- A method that only reads, or whose answer is lifted.
  pub lifted : (x : Result B) → IsSound rec (lift x)
  unfolding IsSound
  lifted x s b = here

-- A method of the record, run in a session.
pub in_session :
    {A : Type 0} (a : ExchangeAdapter) (u : Update A)
    → IsSound own u
    → IsSound (of_session a) (on_record u)
unfolding IsSound
in_session a u h s b = h s.execution b

pub gets-IsSound : {A : Type 0} (f : ExecutionRecord → A) → IsSound own (gets f)
unfolding IsSound
gets-IsSound f r b = here

pub raise-IsSound : (e : Exception) → IsSound own (raise {A = Unit {0}} e)
unfolding IsSound
raise-IsSound e r b = here

-- What a method of a session may ask and read.
module _ (a : ExchangeAdapter) {A : Type 0} where
  pub at_now-IsSound :
      (u : Decimal → Update A)
      → ((now : Decimal) → IsSound own (u now))
      → IsSound (of_session a) (at_now u)
  unfolding IsSound
  at_now-IsSound u h s b = h (a.monotonic s.world) s.execution b

  pub attempt-IsSound :
      (call : a.World → Result A × a.World) → IsSound (of_session a) (attempt call)
  unfolding IsSound
  attempt-IsSound call s b = here

  pub ask-IsSound : (call : a.World → Result A × a.World) → IsSound (of_session a) (ask call)
  unfolding IsSound
  ask-IsSound call s b = here

  pub inspect-IsSound : (f : ExecutionRecord → A) → IsSound (of_session a) (inspect f)
  unfolding IsSound
  inspect-IsSound f s b = here

pub read_clock-IsSound : (a : ExchangeAdapter) → IsSound (of_session a) read_clock
unfolding IsSound
read_clock-IsSound a s b = here

pub edit-IsSound :
    (a : ExchangeAdapter) (f : ExecutionRecord → ExecutionRecord)
    → IsSound own (modify f)
    → IsSound (of_session a) (edit f)
unfolding IsSound
edit-IsSound a f h s b = h s.execution b

-- A method that goes on by cases of an answer.
module _ {S : Type 0} {A : Type 0} {B : Type 0} (rec : S → ExecutionRecord) where
  pub by_answer :
      (x : Result A) (f : A → Exec S B) (g : Exception → Exec S B)
      → ((v : A) → IsSound rec (f v))
      → ((e : Exception) → IsSound rec (g e))
      → IsSound rec (elim x [ ok v ↦ f v | raised e ↦ g e ])
  by_answer (ok v) f g h k = h v
  by_answer (raised e) f g h k = k e

  pub by_option :
      (x : Option A) (f : A → Exec S B) (g : Exec S B)
      → ((v : A) → IsSound rec (f v))
      → IsSound rec g
      → IsSound rec (elim x [ none ↦ g | some v ↦ f v ])
  by_option none f g h k = k
  by_option (some v) f g h k = h v

pub ruleset session_rules = (
  chain, choose, lifted, in_session, at_now-IsSound, attempt-IsSound, ask-IsSound, inspect-IsSound,
  read_clock-IsSound, edit-IsSound, by_answer, by_option,
)
