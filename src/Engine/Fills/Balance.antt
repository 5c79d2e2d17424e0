-- ===== src/Engine/Fills/Balance.antt =====
-- What it means that fills are accounted for (src/execution/engine.py): the tracker's confirmed
-- quantity is the sum of the children's, and the marks of repeated trades change neither.
use interview_assignment.Base.{
  ℕ, zero, suc, ◌≡◌, ◌∙◌, true, Option, none, some, List, [], ◌∷◌, arith, pos, Decimal, ◌+ℤ◌, ◌≤ℤ◌,
  int_laws, get_elem?, set, Text, Result, ok,
}
use interview_assignment.Base.Dict.{contains}
use interview_assignment.Execution.Orders.{ChildOrder}
use interview_assignment.Base.Dict.{contains-add}
use interview_assignment.Engine.Exposure.{ExposureTracker}
use interview_assignment.Engine.Record.{ExecutionRecord, increment_metric}
use interview_assignment.Engine.Fills.{record_ignored_fill_trade_id, ignore_fill, ignore_seen}

abbrev pub total_confirmed : List ChildOrder → Decimal
total_confirmed [] = pos 0
total_confirmed (c ∷ cs) = c.confirmed_filled_quantity +ℤ total_confirmed cs

abbrev pub AllNonNegative : List ChildOrder → Type 0
AllNonNegative [] = Unit
AllNonNegative (c ∷ cs) = (pos 0 ≤ℤ c.confirmed_filled_quantity) × AllNonNegative cs

-- The tracker's total is that of the children, and it has seen no trade that the record has not.
pub record IsAccounted (t : ExposureTracker) (r : ExecutionRecord) : Type 0 where
  pub tracked : r.exposure_tracker ≡ some t
  pub balanced : t.confirmed_filled_quantity ≡ total_confirmed r.child_orders
  pub non_negative : AllNonNegative r.child_orders
  pub known :
      (id : Text) → contains id t.seen_trade_ids ≡ true → contains id r.seen_fill_trade_ids ≡ true

pub total_confirmed_nonneg :
    (cs : List ChildOrder) → AllNonNegative cs → pos 0 ≤ℤ total_confirmed cs
total_confirmed_nonneg [] h = omega arith
total_confirmed_nonneg (c ∷ cs) h = omega (int_laws, total_confirmed_nonneg cs h.1)

pub total_confirmed-set :
    (cs : List ChildOrder) (i : ℕ) (c d : ChildOrder)
    → get_elem? cs i ≡ some c
    → total_confirmed (set cs i d) +ℤ c.confirmed_filled_quantity
      ≡ total_confirmed cs +ℤ d.confirmed_filled_quantity
total_confirmed-set [] i c d h = cc
total_confirmed-set (b ∷ cs) zero c d h = grind int_laws
total_confirmed-set (b ∷ cs) (suc i) c d h = grind (int_laws, total_confirmed-set cs i c d h)

pub AllNonNegative-get :
    (cs : List ChildOrder) (i : ℕ) (c : ChildOrder)
    → AllNonNegative cs
    → get_elem? cs i ≡ some c
    → pos 0 ≤ℤ c.confirmed_filled_quantity
AllNonNegative-get [] i c h e = cc
AllNonNegative-get (b ∷ cs) zero c h e = ground arith
AllNonNegative-get (b ∷ cs) (suc i) c h e = AllNonNegative-get cs i c h.1 e

pub AllNonNegative-set :
    (cs : List ChildOrder) (i : ℕ) (d : ChildOrder)
    → AllNonNegative cs
    → pos 0 ≤ℤ d.confirmed_filled_quantity
    → AllNonNegative (set cs i d)
AllNonNegative-set [] i d h p = tt
AllNonNegative-set (b ∷ cs) zero d h p = (p, h.1)
AllNonNegative-set (b ∷ cs) (suc i) d h p = (h.0, AllNonNegative-set cs i d h.1 p)

-- A call that returned and left the fills accounted for.
abbrev pub Accounts : Result (Unit {0}) × ExecutionRecord → Type 0
Accounts (x, r) = (x ≡ ok tt) × ((t : ExposureTracker) × IsAccounted t r)

pub keep :
    (t : ExposureTracker) (r r' : ExecutionRecord)
    → IsAccounted t r
    → r'.exposure_tracker ≡ r.exposure_tracker
    → r'.child_orders ≡ r.child_orders
    → ((id : Text)
        → contains id r.seen_fill_trade_ids ≡ true
        → contains id r'.seen_fill_trade_ids ≡ true)
    → IsAccounted t r'
keep t r r' h same children seen = record {
  tracked = same ∙ h.tracked;
  balanced = rw children h.balanced;
  non_negative = rw children h.non_negative;
  known = λ id k. seen id (h.known id k);
}

pub ignore_seen-IsAccounted :
    (id : Option Text) (t : ExposureTracker) (r : ExecutionRecord)
    → IsAccounted t r
    → IsAccounted t (ignore_seen id r)
unfolding ignore_seen record_ignored_fill_trade_id increment_metric
ignore_seen-IsAccounted none t r h = h
ignore_seen-IsAccounted (some id) t r h =
    keep t r (ignore_seen (some id) r) h (ground arith) (ground arith) (λ j k. ground arith)

pub ignore_fill-IsAccounted :
    (id : Option Text) (t : ExposureTracker) (r : ExecutionRecord)
    → IsAccounted t r
    → IsAccounted t (ignore_fill id r)
unfolding ignore_fill record_ignored_fill_trade_id increment_metric
ignore_fill-IsAccounted none t r h = h
ignore_fill-IsAccounted (some id) t r h =
    keep t r (ignore_fill (some id) r) h (ground arith) (ground arith)
      (λ j k. ground (arith, contains-add j id r.seen_fill_trade_ids))
