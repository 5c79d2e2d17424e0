-- ===== src/Engine/Rounds/Orders.antt =====
-- What becomes of a single order in the rounds of src/execution/engine.py.
use interview_assignment.Base.{
  ℕ, zero, suc, ◌≡◌, refl, ◌∙◌, ◌⊎◌, inl, inr, some, List, [], ◌∷◌, ◌++◌, arith, ℤ, pos, Decimal,
  ◌≤ℤ◌, ◌<ℤ◌, int_laws, get_elem?, set, remove_at,
}
use interview_assignment.Execution.Models.{ChildOrderStatus}
use interview_assignment.Execution.Orders.{ChildOrder}
use interview_assignment.Exchanges.{ExchangeAdapter}
use interview_assignment.Engine.ChildStatus.{ChildMoves, stay, move}
use interview_assignment.Engine.Session.{Session}
use interview_assignment.Engine.Rounds.{
  View, view, Step, Steps, here, next, moves, reserves, rebuilds, sends, forgets, marks, explains,
  fills, IsSameOrder, SameButReasons, IsBalanced,
}
use interview_assignment.Engine.Rounds.Refinement.{run_rounds, run_rounds-Steps}

-- Some order of the list satisfies the predicate.
abbrev pub Any : (ChildOrder → Type 0) → List ChildOrder → Type 0
Any P [] = ⊥
Any P (c ∷ cs) = P c ⊎ Any P cs

some_inj : {x y : ChildOrder} → some x ≡ some y → x ≡ y
some_inj h = cc

module _ (P : ChildOrder → Type 0) where
  Any-get : (l : List ChildOrder) (i : ℕ) (c : ChildOrder) → get_elem? l i ≡ some c → P c → Any P l
  Any-get [] i c e p = cc
  Any-get (d ∷ l) zero c e p = inl (rw (some_inj e) p)
  Any-get (d ∷ l) (suc i) c e p = inr (Any-get l i c e p)

  Any-append : (l k : List ChildOrder) → Any P l → Any P (l ++ k)
  Any-append [] k h = absurd h
  Any-append (c ∷ l) k (inl p) = inl p
  Any-append (c ∷ l) k (inr h) = inr (Any-append l k h)

  Any-remove :
      (l : List ChildOrder) (i : ℕ) (c : ChildOrder)
      → get_elem? l i ≡ some c
      → (P c → ⊥)
      → Any P l
      → Any P (remove_at l i)
  Any-remove [] i c e n h = absurd h
  Any-remove (d ∷ l) zero c e n (inl p) = absurd (n (rw⁻¹ (some_inj e) p))
  Any-remove (d ∷ l) zero c e n (inr h) = h
  Any-remove (d ∷ l) (suc i) c e n (inl p) = inl p
  Any-remove (d ∷ l) (suc i) c e n (inr h) = inr (Any-remove l i c e n h)

  Any-set :
      (l : List ChildOrder) (i : ℕ) (c d : ChildOrder)
      → get_elem? l i ≡ some c
      → (P c → P d)
      → Any P l
      → Any P (set l i d)
  Any-set [] i c d e k h = absurd h
  Any-set (b ∷ l) zero c d e k (inl p) = inl (k (rw⁻¹ (some_inj e) p))
  Any-set (b ∷ l) zero c d e k (inr h) = inr h
  Any-set (b ∷ l) (suc i) c d e k (inl p) = inl p
  Any-set (b ∷ l) (suc i) c d e k (inr h) = inr (Any-set l i c d e k h)

  Any-explained :
      ((c d : ChildOrder) → d ≡ record c { terminal_reason = d.terminal_reason } → P c → P d)
      → (l k : List ChildOrder) → SameButReasons l k
      → Any P l
      → Any P k
  Any-explained f [] k s h = absurd h
  Any-explained f (c ∷ l) [] s h = absurd s
  Any-explained f (c ∷ l) (d ∷ k) s (inl p) = inl (f c d s.0 p)
  Any-explained f (c ∷ l) (d ∷ k) s (inr h) = inr (Any-explained f l k s.1 h)

-- The same order later: its fills are at least those it had, and its status has been reached by
-- legal transitions.
pub record Continues (c d : ChildOrder) : Type 0 where
  pub order : d.client_order_id ≡ c.client_order_id
  pub quantity : d.submitted_quantity ≡ c.submitted_quantity
  pub filled : c.confirmed_filled_quantity ≤ℤ d.confirmed_filled_quantity
  pub moves : ChildMoves c.status d.status

joined_ChildMoves : {s t u : ChildOrderStatus} → ChildMoves s t → ChildMoves t u → ChildMoves s u
joined_ChildMoves (stay s) b = b
joined_ChildMoves (move h a) b = move h (joined_ChildMoves a b)

module _ (o : ChildOrder) (filled : pos 0 <ℤ o.confirmed_filled_quantity) where
  continued_same : (c d : ChildOrder) → IsSameOrder c d → Continues o c → Continues o d
  continued_same c d same k = record {
    order = same.order ∙ k.order;
    quantity = same.quantity ∙ k.quantity;
    filled = rw same.filled k.filled;
    moves = joined_ChildMoves k.moves same.moves;
  }

  continued_reason :
      (c d : ChildOrder)
      → d ≡ record c { terminal_reason = d.terminal_reason }
      → Continues o c
      → Continues o d
  continued_reason c d e k =
      rw e (record { order = k.order; quantity = k.quantity; filled = k.filled; moves = k.moves })

  continued_more :
      (c : ChildOrder) (total : Decimal)
      → c.confirmed_filled_quantity <ℤ total
      → Continues o c
      → Continues o (record c { confirmed_filled_quantity = total })
  continued_more c total h k = record {
    order = k.order;
    quantity = k.quantity;
    filled = omega (arith, k.filled);
    moves = k.moves;
  }

  not_empty : (c : ChildOrder) → c.confirmed_filled_quantity ≡ pos 0 → Continues o c → ⊥
  not_empty c z k = absurd (too_small c.confirmed_filled_quantity z k.filled)
    where
      too_small : (n : ℤ) → n ≡ pos 0 → o.confirmed_filled_quantity ≤ℤ n → ⊥
      too_small n z h = grind (int_laws, z, h, filled)

  Step-Any : {v w : View} → Step v w → Any (Continues o) v.children → Any (Continues o) w.children
  Step-Any {v} (moves s h e) k = rw e k
  Step-Any {v} (reserves t u e p w) k = rw w k
  Step-Any {v} (rebuilds t u e p w) k = rw w k
  Step-Any {v} (sends c t e f p q w) k = rw w (Any-append (Continues o) v.children (c ∷ []) k)
  Step-Any {v} (forgets i c e z w) k =
      rw w (Any-remove (Continues o) v.children i c e (not_empty c z) k)
  Step-Any {v} (marks i c d e same w) k =
      rw w (Any-set (Continues o) v.children i c d e (continued_same c d same) k)
  Step-Any {v} (explains cs same w) k =
      rw w (Any-explained (Continues o) continued_reason v.children cs same k)
  Step-Any {v} (fills i c t n e tr less w) k = rw w (
      Any-set (Continues o) v.children i c (record c { confirmed_filled_quantity = n }) e
        (continued_more c n less) k)

  Steps-Any : {v w : View} → Steps v w → Any (Continues o) v.children → Any (Continues o) w.children
  Steps-Any here k = k
  Steps-Any (next a s) k = Step-Any s (Steps-Any a k)

-- For any exchange and clock, from a record whose tracker accounts for its children, an order that
-- has fills is never lost: after any number of rounds it is still among the children, with the same
-- client order id and submitted quantity, at least the fills that it had, and a status reached by
-- legal transitions of a child.
pub filled_order-Continues :
    (a : ExchangeAdapter) (n : ℕ) (s : Session a) (i : ℕ) (c : ChildOrder)
    → IsBalanced (view s.execution)
    → get_elem? s.execution.child_orders i ≡ some c
    → pos 0 <ℤ c.confirmed_filled_quantity
    → Any (Continues c) (run_rounds a n s).execution.child_orders
unfolding view
filled_order-Continues a n s i c b e filled = Steps-Any c filled (run_rounds-Steps a n s b) (
    Any-get (Continues c) s.execution.child_orders i c e
      (record { order = refl; quantity = refl; filled = omega arith; moves = stay c.status }))
