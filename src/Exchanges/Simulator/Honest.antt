-- ===== src/Exchanges/Simulator/Honest.antt =====
-- What the operations of src/exchanges/simulator.py do to its books.

use interview_assignment.Base.{
  ◌≡◌, refl, sym, ap, subst, ◌∙◌, ◌⊎◌, inl, inr, Bool, true, false, Option, none, some, arith,
  if◌then◌else◌, Bool-cases, Decimal, ◌+ℤ◌, int_laws, Text, Result, ok, raised, pure, lift, modify,
  ◌>>=◌,
}
use interview_assignment.Execution.Models.{ChildOrderStatus, child_is}
use interview_assignment.Execution.Orders.{ChildOrder, Fill}
use interview_assignment.Execution.StateMachine.{transition_child}
use interview_assignment.Exchanges.Simulator.{EventKind, OrderKey, Simulator, Simulation}
use interview_assignment.Exchanges.Simulator.Trading.{
  order_at, write_order, emit, order_by_client_order_id, open_status_for, move_order, push_fill,
  pop_reconcile_open,
}
use interview_assignment.Exchanges.Simulator.Adapter.{
  read_order, move_at, pop_fill_script, fill_during_cancel, finish_cancel,
}
use interview_assignment.Exchanges.Simulator.Books.{
  total_signed, IsHonest, AllBooked-at, AllBooked-put, total_signed-put,
}
use interview_assignment.Exchanges.Simulator.Fills.{takes, push_fill_exact}

-- The call keeps the books, whether it returns or raises.
unfoldable pub IsKept : {A : Type 0} → Decimal → Simulation A → Type 0
IsKept start m = (s : Simulator) → IsHonest start s → IsHonest start (m s).1

module _ (start : Decimal) where
  pub same_books :
      (s s' : Simulator)
      → s'.orders ≡ s.orders
      → s'.position ≡ s.position
      → IsHonest start s
      → IsHonest start s'
  same_books s s' o p h = record {
    position = p ∙ h.position ∙ ap (λ l. start +ℤ total_signed l) (sym o);
    booked = rw o h.booked;
  }

  module _ {A : Type 0} {B : Type 0} where
    pub kept_result :
        (x : Result A) (f : A → Simulation B) (s : Simulator)
        → IsHonest start s
        → ((a : A) → x ≡ ok a → IsHonest start (f a s).1)
        → IsHonest start
            (elim x as (λ _. Result B × Simulator) [ ok a ↦ f a s | raised e ↦ (raised e, s) ]).1
    kept_result (ok a) f s h k = k a refl
    kept_result (raised e) f s h k = h

    pub IsKept-chain :
        (m : Simulation A) (f : A → Simulation B)
        → IsKept start m
        → ((a : A) → IsKept start (f a))
        → IsKept start (m >>= f)
    unfolding IsKept
    IsKept-chain m f h k s b = kept_result (m s).0 f (m s).1 (h s b) (λ a _. k a (m s).1 (h s b))

  pub IsKept-choose :
      {A : Type 0} (c : Bool) (m n : Simulation A)
      → IsKept start m
      → IsKept start n
      → IsKept start (if c then m else n)
  IsKept-choose true m n h k = h
  IsKept-choose false m n h k = k

  -- A call that leaves orders and position alone.
  pub IsKept-quiet :
      {A : Type 0} (m : Simulation A)
      → ((s : Simulator) → ((m s).1.orders ≡ s.orders) × ((m s).1.position ≡ s.position))
      → IsKept start m
  unfolding IsKept
  IsKept-quiet m q s h = same_books s (m s).1 (q s).0 (q s).1 h

  pub lift-IsKept : {A : Type 0} (x : Result A) → IsKept start (lift x)
  unfolding IsKept
  lift-IsKept x s h = h

  pub push_fill-IsKept : (id : Text) (q price : Decimal) → IsKept start (push_fill id q price)
  unfolding IsKept
  push_fill-IsKept id q price s h = elim (Bool-cases (takes q (order_by_client_order_id id s))) [
    | inl made ↦ ((push_fill_exact start q price id s h).0 made).honest
    | inr not_made ↦ let (e, same) = (push_fill_exact start q price id s h).1 not_made in rw same h
  ]

  pub read_order-IsKept : (k : OrderKey) → IsKept start (read_order k)
  unfolding read_order
  read_order-IsKept k = IsKept-quiet (read_order k) (λ s. (ground arith, ground arith))

  -- A new status for an order.
  pub restatus :
      (k : OrderKey) (o : ChildOrder) (t : ChildOrderStatus) (s : Simulator)
      → order_at k s.orders ≡ some o
      → child_is t ChildOrderStatus.pending_submit ≡ false
      → IsHonest start s
      → IsHonest start (write_order k (record o { status = t }) s)
  unfolding write_order
  restatus k o t s e opened h =
      let b = AllBooked-at k o s.orders h.booked e in
      let same = total_signed-put k o (record o { status = t }) s.orders e in
      record {
        position = grind (int_laws, h.position, same);
        booked =
            AllBooked-put k (record o { status = t }) s.orders h.booked
              (record { non_negative = b.non_negative; within = b.within; opened = opened });
      }

  pub IsKept-read :
      {A : Type 0} {B : Type 0} (m : Simulation A) (f : A → Simulation B)
      → ((s : Simulator) → (m s).1 ≡ s)
      → ((a : A) (s : Simulator) → IsHonest start s → (m s).0 ≡ ok a → IsHonest start (f a s).1)
      → IsKept start (m >>= f)
  unfolding IsKept
  IsKept-read m f same k s h =
      kept_result (m s).0 f (m s).1 (subst (IsHonest start) (sym (same s)) h)
        (λ a e. subst (λ (x : Simulator). IsHonest start (f a x).1) (sym (same s)) (k a s h e))

  pub read_order-same : (k : OrderKey) (s : Simulator) → (read_order k s).1 ≡ s
  unfolding read_order
  read_order-same k s = ground arith

  pub read_order-at :
      (k : OrderKey) (s : Simulator) (o : ChildOrder)
      → (read_order k s).0 ≡ ok o
      → order_at k s.orders ≡ some o
  unfolding read_order
  read_order-at k s o e = ground arith

  -- What `move_order` may write.
  move_order_lem :
      (o d : ChildOrder) (t : ChildOrderStatus)
      → move_order o t ≡ ok d
      → (d ≡ o) ⊎ (d ≡ record o { status = t })
  unfolding move_order transition_child
  move_order_lem o d t e = ground arith

  write_same :
      (k : OrderKey) (o : ChildOrder) (s : Simulator)
      → order_at k s.orders ≡ some o
      → IsHonest start s
      → IsHonest start (write_order k o s)
  unfolding write_order
  write_same k o s e h = record {
    position = grind (int_laws, h.position, total_signed-put k o o s.orders e);
    booked = AllBooked-put k o s.orders h.booked (AllBooked-at k o s.orders h.booked e);
  }

  moves_order :
      (k : OrderKey) (t : ChildOrderStatus) (o : ChildOrder) (s : Simulator) (x : Result ChildOrder)
      → child_is t ChildOrderStatus.pending_submit ≡ false
      → IsHonest start s
      → order_at k s.orders ≡ some o
      → move_order o t ≡ x
      → IsHonest start ((lift x >>= λ moved. modify (write_order k moved)) s).1
  moves_order k t o s (raised e) opened h here m = h
  moves_order k t o s (ok d) opened h here m = elim (move_order_lem o d t m) [
    | inl same ↦ rw same (write_same k o s here h)
    | inr new ↦ rw new (restatus k o t s here opened h)
  ]

  move_at-IsKept :
      (k : OrderKey) (t : ChildOrderStatus)
      → child_is t ChildOrderStatus.pending_submit ≡ false
      → IsKept start (move_at k t)
  unfolding move_at
  move_at-IsKept k t opened =
      IsKept-read (read_order k)
        (λ o. lift (move_order o t) >>= λ moved. modify (write_order k moved)) (read_order-same k)
        (λ o s h e. moves_order k t o s (move_order o t) opened h (read_order-at k s o e) refl)

  open_status-opened :
      (o : ChildOrder) → child_is (open_status_for o) ChildOrderStatus.pending_submit ≡ false
  unfolding open_status_for
  open_status-opened o = ground arith

  pub modify-IsKept :
      (f : Simulator → Simulator)
      → ((s : Simulator) → ((f s).orders ≡ s.orders) × ((f s).position ≡ s.position))
      → IsKept start (modify f)
  modify-IsKept f q = IsKept-quiet (modify f) q

  pub emit-IsKept :
      (kind : EventKind) (k : OrderKey) (f : Option Fill) → IsKept start (modify (emit kind k f))
  unfolding emit
  emit-IsKept kind k f = modify-IsKept (emit kind k f) (λ s. (refl, refl))

  pop_reconcile_open-IsKept : (id : Text) → IsKept start (pop_reconcile_open id)
  unfolding pop_reconcile_open
  pop_reconcile_open-IsKept id = IsKept-quiet (pop_reconcile_open id) (λ s. (refl, refl))

  pub finish_cancel-IsKept : (k : OrderKey) → IsKept start (finish_cancel k)
  unfolding finish_cancel
  finish_cancel-IsKept k =
      search
        (
          IsKept-chain, IsKept-choose, lift-IsKept, read_order-IsKept, pop_reconcile_open-IsKept,
          move_at-IsKept, open_status-opened, refl, emit-IsKept,
        )
        depth 14

  pop_fill_script-IsKept : (id : Text) → IsKept start (pop_fill_script id)
  unfolding pop_fill_script
  pop_fill_script-IsKept id = IsKept-quiet (pop_fill_script id) (λ s. (refl, refl))

  scripted :
      (k : OrderKey) (price : Decimal) (x : Option Decimal)
      → IsKept start (elim x [ none ↦ pure tt | some q ↦ (do f ← push_fill k.1 q price; pure tt) ])
  scripted k price none = lift-IsKept (ok tt)
  scripted k price (some q) =
      IsKept-chain _ _ (push_fill-IsKept k.1 q price) (λ _. lift-IsKept (ok tt))

  pub fill_during_cancel-IsKept :
      (k : OrderKey) (price : Decimal) → IsKept start (fill_during_cancel k price)
  unfolding fill_during_cancel
  fill_during_cancel-IsKept k price =
      IsKept-chain _ _ (pop_fill_script-IsKept k.1) (scripted k price)
