-- ===== src/Engine/Rounds/Books.antt =====
-- Each step of an execution (src/execution/engine.py) keeps the books balanced: the tracker's total
-- stays the sum of what the children have.
use interview_assignment.Base.{
  ℕ, zero, suc, ◌≡◌, refl, sym, ap, ◌∙◌, some, List, [], ◌∷◌, ◌++◌, arith, pos, Decimal, ◌+ℤ◌, ◌-ℤ◌,
  ◌≤ℤ◌, int_laws, get_elem?, set, remove_at,
}
use interview_assignment.Execution.Orders.{ChildOrder}
use interview_assignment.Engine.Exposure.{ExposureTracker}
use interview_assignment.Engine.Exposure.Changes.{Reserves-SameBut, with_submit}
use interview_assignment.Engine.Fills.Balance.{
  total_confirmed, AllNonNegative, total_confirmed-set, AllNonNegative-get, AllNonNegative-set,
}
use interview_assignment.Engine.Rounds.{
  View, Step, Steps, here, next, moves, reserves, rebuilds, sends, forgets, marks, explains, fills,
  SameButReasons, IsBalanced,
}

total_confirmed-append :
    (l : List ChildOrder) (c : ChildOrder)
    → c.confirmed_filled_quantity ≡ pos 0
    → total_confirmed (l ++ c ∷ []) ≡ total_confirmed l
total_confirmed-append [] c h = grind (int_laws, h)
total_confirmed-append (b ∷ l) c h =
    ap (λ n. b.confirmed_filled_quantity +ℤ n) (total_confirmed-append l c h)

AllNonNegative-append :
    (l : List ChildOrder) (c : ChildOrder)
    → AllNonNegative l
    → pos 0 ≤ℤ c.confirmed_filled_quantity
    → AllNonNegative (l ++ c ∷ [])
AllNonNegative-append [] c h p = (p, tt)
AllNonNegative-append (b ∷ l) c h p = (h.0, AllNonNegative-append l c h.1 p)

total_confirmed-remove :
    (l : List ChildOrder) (i : ℕ) (c : ChildOrder)
    → get_elem? l i ≡ some c
    → c.confirmed_filled_quantity ≡ pos 0
    → total_confirmed (remove_at l i) ≡ total_confirmed l
total_confirmed-remove [] i c e h = cc
total_confirmed-remove (b ∷ l) zero c e h = grind (int_laws, h)
total_confirmed-remove (b ∷ l) (suc i) c e h =
    ap (λ n. b.confirmed_filled_quantity +ℤ n) (total_confirmed-remove l i c e h)

AllNonNegative-remove :
    (l : List ChildOrder) (i : ℕ) → AllNonNegative l → AllNonNegative (remove_at l i)
AllNonNegative-remove [] i h = tt
AllNonNegative-remove (b ∷ l) zero h = h.1
AllNonNegative-remove (b ∷ l) (suc i) h = (h.0, AllNonNegative-remove l i h.1)

-- A write that keeps a child's fills keeps the total.
total_confirmed-same :
    (l : List ChildOrder) (i : ℕ) (c d : ChildOrder)
    → get_elem? l i ≡ some c
    → d.confirmed_filled_quantity ≡ c.confirmed_filled_quantity
    → total_confirmed (set l i d) ≡ total_confirmed l
total_confirmed-same l i c d e h = grind (int_laws, total_confirmed-set l i c d e, h)

total_confirmed-explained :
    (l k : List ChildOrder) → SameButReasons l k → total_confirmed k ≡ total_confirmed l
total_confirmed-explained [] [] h = refl
total_confirmed-explained [] (d ∷ k) h = absurd h
total_confirmed-explained (c ∷ l) [] h = absurd h
total_confirmed-explained (c ∷ l) (d ∷ k) h =
    ground (arith, ap (λ x. x.confirmed_filled_quantity) h.0, total_confirmed-explained l k h.1)

AllNonNegative-explained :
    (l k : List ChildOrder) → SameButReasons l k → AllNonNegative l → AllNonNegative k
AllNonNegative-explained [] [] h n = tt
AllNonNegative-explained [] (d ∷ k) h n = absurd h
AllNonNegative-explained (c ∷ l) [] h n = absurd h
AllNonNegative-explained (c ∷ l) (d ∷ k) h n =
    (rw (ap (λ x. x.confirmed_filled_quantity) h.0) n.0, AllNonNegative-explained l k h.1 n.1)

one_tracker :
    {v : View} (t : ExposureTracker) (b : IsBalanced v) → v.tracker ≡ some t → t ≡ b.tracker
one_tracker t b e = unwrap (sym e ∙ b.tracked)
  where
    unwrap : {x y : ExposureTracker} → some x ≡ some y → x ≡ y
    unwrap h = cc

raised_balance :
    (p q f tot tot' total : Decimal)
    → p ≡ q +ℤ (total -ℤ f)
    → q ≡ tot
    → tot' +ℤ f ≡ tot +ℤ total
    → p ≡ tot'
raised_balance p q f tot tot' total h k l = grind (int_laws, h, k, l)

-- Another tracker with the same fills and trades.
retracked :
    {v : View} (b : IsBalanced v) (t u : ExposureTracker)
    → v.tracker ≡ some t
    → u.confirmed_filled_quantity ≡ t.confirmed_filled_quantity
    → u.seen_trade_ids ≡ t.seen_trade_ids
    → IsBalanced (record v { tracker = some u })
retracked {v} b t u e same seen = record {
  tracker = u;
  tracked = refl;
  balanced = same ∙ ap (λ x. x.confirmed_filled_quantity) (one_tracker t b e) ∙ b.balanced;
  non_negative = b.non_negative;
  known = λ id k. b.known id (rw⁻¹ (one_tracker t b e) (rw⁻¹ seen k));
}

-- Every step keeps the books balanced.
pub Step-IsBalanced : {v w : View} → Step v w → IsBalanced v → IsBalanced w
Step-IsBalanced {v} (moves s h e) b = rw e (record {
  tracker = b.tracker;
  tracked = b.tracked;
  balanced = b.balanced;
  non_negative = b.non_negative;
  known = b.known;
})
Step-IsBalanced {v} (reserves t u e r w) b =
    let s = Reserves-SameBut t u r in rw w (retracked b t u e s.confirmed s.seen)
Step-IsBalanced {v} (rebuilds t u e r w) b = rw w (retracked b t u e r.confirmed r.seen)
Step-IsBalanced {v} (sends c t e fits p z w) b = rw w (record {
  tracker = with_submit t (t.pending_submit_quantity +ℤ c.submitted_quantity);
  tracked = refl;
  balanced =
      ap (λ x. x.confirmed_filled_quantity) (one_tracker t b e)
      ∙ b.balanced
      ∙ sym (total_confirmed-append v.children c z);
  non_negative = AllNonNegative-append v.children c b.non_negative (rw z (omega arith));
  known = λ id k. b.known id (rw⁻¹ (one_tracker t b e) k);
})
Step-IsBalanced {v} (forgets i c e z w) b = rw w (record {
  tracker = b.tracker;
  tracked = b.tracked;
  balanced = b.balanced ∙ sym (total_confirmed-remove v.children i c e z);
  non_negative = AllNonNegative-remove v.children i b.non_negative;
  known = b.known;
})
Step-IsBalanced {v} (marks i c d e same w) b = rw w (record {
  tracker = b.tracker;
  tracked = b.tracked;
  balanced = b.balanced ∙ sym (total_confirmed-same v.children i c d e same.filled);
  non_negative =
      AllNonNegative-set v.children i d b.non_negative
        (rw same.filled (AllNonNegative-get v.children i c b.non_negative e));
  known = b.known;
})
Step-IsBalanced {v} (explains cs same w) b = rw w (record {
  tracker = b.tracker;
  tracked = b.tracked;
  balanced = b.balanced ∙ sym (total_confirmed-explained v.children cs same);
  non_negative = AllNonNegative-explained v.children cs same b.non_negative;
  known = b.known;
})
Step-IsBalanced {v} (fills i c t total e tracked less w) b = rw w (record {
  tracker = record t {
    exposure = record t.exposure {
      confirmed_filled_quantity =
          t.confirmed_filled_quantity +ℤ (total -ℤ c.confirmed_filled_quantity);
    };
  };
  tracked = refl;
  balanced =
      raised_balance _ _ c.confirmed_filled_quantity _ _ total refl
        (ap (λ x. x.confirmed_filled_quantity) (one_tracker t b tracked) ∙ b.balanced)
        (total_confirmed-set v.children i c (record c { confirmed_filled_quantity = total }) e);
  non_negative =
      AllNonNegative-set v.children i (record c { confirmed_filled_quantity = total })
        b.non_negative (omega (int_laws, AllNonNegative-get v.children i c b.non_negative e, less));
  known = λ id k. b.known id (rw⁻¹ (one_tracker t b tracked) k);
})

pub Steps-IsBalanced : {v w : View} → Steps v w → IsBalanced v → IsBalanced w
Steps-IsBalanced here b = b
Steps-IsBalanced (next a s) b = Step-IsBalanced s (Steps-IsBalanced a b)
