-- ===== src/Exchanges/Simulator/Uses.antt =====
-- src/exchanges/simulator.py: a cancel, and an order under a new key, keep the simulator's books.

use interview_assignment.Base.{
  ℕ, ◌+◌, ◌≡◌, refl, inl, inr, Bool, true, false, Option, none, some, arith, if◌then◌else◌,
  Bool-cases, pos, Decimal, int_laws, neg_ℤ, Text, Exception, Result, ok, pure, raise, lift, gets,
  modify, ◌>>=◌, ◌>>◌,
}
use interview_assignment.Execution.Models.{Side, ChildOrderStatus, child_is, child_is_terminal}
use interview_assignment.Execution.Orders.{OrderRequest, ChildOrder, signed}
use interview_assignment.Execution.StateMachine.{transition_child}
use interview_assignment.Exchanges.Simulator.{
  EventKind, OrderKey, Simulator, Simulation, get_best_bid_ask, validate_order_time_in_force,
  matched,
}
use interview_assignment.Exchanges.Simulator.Trading.{
  order_at, put_order, write_order, move_order, opened_order, create_open_order, pop_not_found,
  pop_timeout, warn_not_found, submit_limit_order, create_timed_out,
}
use interview_assignment.Exchanges.Simulator.Adapter.{
  read_order, fill_during_cancel, finish_cancel, cancel_order,
}
use interview_assignment.Exchanges.Simulator.Books.{IsHonest, AllBooked-put, total_signed-put_new}
use interview_assignment.Exchanges.Simulator.Honest.{
  IsKept, same_books, restatus, IsKept-read, kept_result, IsKept-chain, IsKept-choose, IsKept-quiet,
  lift-IsKept, read_order-same, read_order-at, finish_cancel-IsKept, fill_during_cancel-IsKept,
  modify-IsKept, emit-IsKept,
}

module _ (start : Decimal) where
  pending_target :
      (c p : ChildOrderStatus)
      → transition_child c ChildOrderStatus.pending_cancel ≡ ok p
      → child_is p ChildOrderStatus.pending_submit ≡ false
  unfolding transition_child
  pending_target c p e = ground arith

  module _ (k : OrderKey) where
    -- `cancel_order` after the order is found.
    abbrev cancel_rest : ChildOrder → ChildOrderStatus → Simulation ChildOrder
    cancel_rest o pending = do
      modify (write_order k (record o { status = pending }))
      fill_during_cancel k o.price
      finish_cancel k

    abbrev cancel_live : ChildOrder → Simulation ChildOrder
    cancel_live o = if child_is_terminal o.status then pure o else (do
      pending ← lift (transition_child o.status ChildOrderStatus.pending_cancel)
      cancel_rest o pending)

    raced : (price : Decimal) → IsKept start (fill_during_cancel k price >> finish_cancel k)
    raced price =
        IsKept-chain start _ _ (fill_during_cancel-IsKept start k price)
          (λ _. finish_cancel-IsKept start k)

    cancels :
        (o : ChildOrder) (s : Simulator)
        → IsHonest start s
        → order_at k s.orders ≡ some o
        → IsHonest start (cancel_live o s).1
    unfolding IsKept
    cancels o s h e = elim (Bool-cases (child_is_terminal o.status)) [
      | inl ended ↦ rw ended h
      | inr live ↦ rw live (
          kept_result start (transition_child o.status ChildOrderStatus.pending_cancel)
            (cancel_rest o) s h
            (λ p moved.
              raced o.price (write_order k (record o { status = p }) s)
                (restatus start k o p s e (pending_target o.status p moved) h)))
    ]

  pub cancel_order-IsKept : (symbol id : Text) → IsKept start (cancel_order symbol id)
  unfolding cancel_order
  cancel_order-IsKept symbol id =
      IsKept-read start (read_order (symbol, id)) (cancel_live (symbol, id))
        (read_order-same start (symbol, id))
        (λ o s h e. cancels (symbol, id) o s h (read_order-at start (symbol, id) s o e))

  -- The call leaves orders and position alone.
  IsQuiet : {A : Type 0} → Simulation A → Type 0
  IsQuiet m = (s : Simulator) → ((m s).1.orders ≡ s.orders) × ((m s).1.position ≡ s.position)

  gets-IsQuiet : {A : Type 0} (f : Simulator → A) → IsQuiet (gets f)
  unfolding IsQuiet
  gets-IsQuiet f s = (refl, refl)

  lift-IsQuiet : {A : Type 0} (x : Result A) → IsQuiet (lift x)
  unfolding IsQuiet
  lift-IsQuiet x s = (refl, refl)

  -- The call keeps the books where no order stands at the key.
  unfoldable pub IsKeptNew : {A : Type 0} → OrderKey → Simulation A → Type 0
  IsKeptNew k m =
      (s : Simulator) → IsHonest start s → order_at k s.orders ≡ none → IsHonest start (m s).1

  module _ {A : Type 0} {B : Type 0} (k : OrderKey) (m : Simulation A) (f : A → Simulation B) where
    new_after : IsQuiet m → ((a : A) → IsKeptNew k (f a)) → IsKeptNew k (m >>= f)
    unfolding IsKeptNew IsQuiet
    new_after quiet rest s h new =
        let (o, p) = quiet s in
        let h' = same_books start s (m s).1 o p h in
        kept_result start (m s).0 f (m s).1 h' (λ a _. rest a (m s).1 h' (rw o new))

    new_then : IsKeptNew k m → ((a : A) → IsKept start (f a)) → IsKeptNew k (m >>= f)
    unfolding IsKeptNew IsKept
    new_then first rest s h new =
        kept_result start (m s).0 f (m s).1 (first s h new) (λ a _. rest a (m s).1 (first s h new))

  new_choose :
      {A : Type 0} (k : OrderKey) (c : Bool) (m n : Simulation A)
      → IsKeptNew k m
      → IsKeptNew k n
      → IsKeptNew k (if c then m else n)
  new_choose k true m n h j = h
  new_choose k false m n h j = j

  new_any : {A : Type 0} (k : OrderKey) (m : Simulation A) → IsKept start m → IsKeptNew k m
  unfolding IsKeptNew IsKept
  new_any k m h s b new = h s b

  signed_nothing : (side : Side) → signed (side, pos 0) ≡ pos 0
  unfolding neg_ℤ
  signed_nothing Side.buy = refl
  signed_nothing Side.sell = refl
  signed_nothing Side.no_action = refl

  opens :
      (q : OrderRequest) (n : ℕ)
      → move_order (opened_order q n) ChildOrderStatus.open_order
        ≡ ok (record (opened_order q n) { status = ChildOrderStatus.open_order })
  unfolding move_order opened_order transition_child
  opens q n = refl

  opened-IsHonest :
      (q : OrderRequest) (n : ℕ) (s : Simulator)
      → IsHonest start s
      → order_at (q.symbol, q.client_order_id) s.orders ≡ none
      → IsHonest start (record s {
        exchange_order_sequence = n;
        orders =
            put_order
              (q.symbol, q.client_order_id)
              (record (opened_order q n) { status = ChildOrderStatus.open_order })
              s.orders;
      })
  unfolding opened_order
  opened-IsHonest q n s h new =
      let o = record (opened_order q n) { status = ChildOrderStatus.open_order } in
      let k : OrderKey = (q.symbol, q.client_order_id) in
      record {
        position =
            grind
              (int_laws, h.position, total_signed-put_new k o s.orders new, signed_nothing q.side);
        booked = AllBooked-put k o s.orders h.booked (record {
          non_negative = omega arith;
          within = λ p. absurd (omega arith);
          opened = refl;
        });
      }

  create_open_order-IsKept :
      (q : OrderRequest) → IsKeptNew (q.symbol, q.client_order_id) (create_open_order q)
  unfolding IsKeptNew create_open_order write_order
  create_open_order-IsKept q s h new =
      rw (opens q (s.exchange_order_sequence + 1))
        (opened-IsHonest q (s.exchange_order_sequence + 1) s h new)

  get_best_bid_ask-IsQuiet : (symbol : Text) → IsQuiet (get_best_bid_ask symbol)
  unfolding get_best_bid_ask IsQuiet
  get_best_bid_ask-IsQuiet symbol s = (ground arith, ground arith)

  pop_timeout-IsKept : (id : Text) → IsKept start (pop_timeout id)
  unfolding pop_timeout
  pop_timeout-IsKept id = IsKept-quiet start (pop_timeout id) (λ s. (refl, refl))

  pop_not_found-IsQuiet : (id : Text) → IsQuiet (pop_not_found id)
  unfolding pop_not_found IsQuiet
  pop_not_found-IsQuiet id s = (refl, refl)

  warn-IsKept : (symbol : Text) (p : Option Text) → IsKept start (modify (warn_not_found symbol p))
  unfolding warn_not_found
  warn-IsKept symbol none = modify-IsKept start _ (λ s. (refl, refl))
  warn-IsKept symbol (some p) = modify-IsKept start _ (λ s. (refl, refl))

  raise-IsKept : (e : Exception) → IsKept start (raise {A = ChildOrder} e)
  unfolding IsKept
  raise-IsKept e s h = h

  -- `submit_limit_order` of an order whose key is new.
  pub submit_limit_order-IsKept :
      (q : OrderRequest) → IsKeptNew (q.symbol, q.client_order_id) (submit_limit_order q)
  unfolding submit_limit_order
  submit_limit_order-IsKept q =
      let k : OrderKey = (q.symbol, q.client_order_id) in
      new_after k _ _ (get_best_bid_ask-IsQuiet q.symbol) (λ snapshot.
        new_after k _ _ (gets-IsQuiet (λ s. s)) (λ s.
          new_after k _ _ (lift-IsQuiet (validate_order_time_in_force q snapshot s)) (λ _.
            new_after k _ _ (pop_not_found-IsQuiet q.client_order_id) (λ lost.
              new_choose k (matched lost) _ _
                (new_any k _ (
                  IsKept-chain start _ _ (warn-IsKept q.symbol lost)
                    (λ _. raise-IsKept create_timed_out)))
                (new_then k _ _ (create_open_order-IsKept q) (λ order.
                  IsKept-chain start _ _ (emit-IsKept start EventKind.order_opened k none) (λ _.
                    IsKept-chain start _ _ (pop_timeout-IsKept q.client_order_id) (λ late.
                      IsKept-choose start (matched late) _ _ (raise-IsKept create_timed_out)
                        (lift-IsKept start (ok order))))))))))
