-- ===== src/Exchanges/Simulator/Fills.antt =====
-- When `push_fill` of src/exchanges/simulator.py fills an order, and what it then does.

use interview_assignment.Base.{
  ◌≡◌, refl, ap, inl, inr, Bool, true, false, ◌&&◌, not, some, [], ◌∷◌, ◌++◌, arith, Bool-cases,
  pos, Decimal, ◌+ℤ◌, ◌≤ℤ◌, ◌<ℤ◌, ltb_ℤ, leb_ℤ, Text, Exception, Result, ok, raised,
}
use interview_assignment.Execution.Models.{Side, child_is_terminal}
use interview_assignment.Execution.Orders.{ChildOrder, remaining_quantity, Fill, signed}
use interview_assignment.Exchanges.Simulator.{OrderKey, Simulator}
use interview_assignment.Exchanges.Simulator.Trading.{
  order_at, put_order, write_order, emit, order_by_client_order_id, signed_quantity, new_fill,
  record_fill, push_fill,
}
use interview_assignment.Exchanges.Simulator.Books.{IsHonest, AllBooked-at, order_at-put}
use interview_assignment.Exchanges.Simulator.Filling.{
  found_order, filled_order, filled_simulator, move_filled, filled_within,
  filled_simulator-IsHonest,
}

-- Whether an order can take a fill.
abbrev pub takes : Decimal → Result (OrderKey × ChildOrder) → Bool
takes q (raised e) = false
takes q (ok (k, o)) =
    ltb_ℤ (pos 0) q && not (child_is_terminal o.status) && leb_ℤ q (remaining_quantity o)

-- A fill that was made.
pub record IsFilled (start q price : Decimal) (id : Text) (s : Simulator)
    (x : Result Fill × Simulator) : Type 0 where
  pub key : OrderKey
  pub order : ChildOrder
  pub fill : Fill
  pub found : order_by_client_order_id id s ≡ ok (key, order)
  pub returned : x.0 ≡ ok fill
  pub reported :
      (fill.cumulative_filled_quantity ≡ order.confirmed_filled_quantity +ℤ q)
      × (fill.last_filled_quantity ≡ q)
      × (fill.last_fill_price ≡ price)
  pub listed : x.1.fills ≡ s.fills ++ fill ∷ []
  pub updated : order_at key x.1.orders ≡ some (filled_order order q)
  pub within : order.confirmed_filled_quantity +ℤ q ≤ℤ order.submitted_quantity
  pub moved : x.1.position ≡ s.position +ℤ signed (order.side, q)
  pub honest : IsHonest start x.1

signed_quantity-signed : (side : Side) (q : Decimal) → signed_quantity side q ≡ signed (side, q)
unfolding signed_quantity
signed_quantity-signed Side.buy q = refl
signed_quantity-signed Side.sell q = refl
signed_quantity-signed Side.no_action q = refl

module _ (start q price : Decimal) (id : Text) (s : Simulator) (h : IsHonest start s) where
  not_positive :
      leb_ℤ q (pos 0) ≡ true
      → push_fill id q price s
        ≡ (raised (Exception.other_exception "fill quantity must be positive"), s)
  unfolding push_fill
  not_positive e = rw e refl

  refuses :
      (found : Result (OrderKey × ChildOrder))
      → order_by_client_order_id id s ≡ found
      → takes q found ≡ false
      → (e : Exception) × (push_fill id q price s ≡ (raised e, s))
  unfolding push_fill
  refuses (raised x) e t = elim (Bool-cases (leb_ℤ q (pos 0))) [
    | inl nothing ↦
        (Exception.other_exception "fill quantity must be positive", not_positive nothing)
    | inr positive ↦ (x, ground (arith, e))
  ]
  refuses (ok (k, o)) e t = elim (Bool-cases (leb_ℤ q (pos 0))) [
    | inl nothing ↦
        (Exception.other_exception "fill quantity must be positive", not_positive nothing)
    | inr positive ↦ elim (Bool-cases (child_is_terminal o.status)) [
      | inl ended ↦ (Exception.order_rejected "cannot fill terminal order", ground (arith, e))
      | inr live ↦ (Exception.order_rejected "fill exceeds remaining quantity", ground (arith, e))
    ]
  ]

  push_lem :
      (k : OrderKey) (o : ChildOrder)
      → order_by_client_order_id id s ≡ ok (k, o)
      → takes q (ok (k, o)) ≡ true
      → push_fill id q price s ≡ record_fill k (filled_order o q) q price (filled_simulator k o q s)
  unfolding push_fill filled_simulator write_order
  push_lem k o e t =
      let b = AllBooked-at k o s.orders h.booked (found_order id k o s e).0 in
      ground (arith, e, move_filled o q (ground arith) b.non_negative (ground arith) b.opened)

  made :
      (k : OrderKey) (o : ChildOrder)
      → order_by_client_order_id id s ≡ ok (k, o)
      → order_at k s.orders ≡ some o
      → (pos 0 <ℤ q) × (child_is_terminal o.status ≡ false) × (q ≤ℤ remaining_quantity o)
      → IsFilled start q price id s
          (record_fill k (filled_order o q) q price (filled_simulator k o q s))
  unfolding record_fill emit filled_simulator filled_order new_fill
  made k o e here (positive, live, small) =
      let honest = filled_simulator-IsHonest start q k o s h positive here live small in
      record {
        key = k;
        order = o;
        fill = new_fill k (filled_order o q) q price (filled_simulator k o q s);
        found = e;
        returned = refl;
        reported = (refl, refl, refl);
        listed = refl;
        updated = order_at-put k (filled_order o q) (
            put_order k (record o { confirmed_filled_quantity = o.confirmed_filled_quantity +ℤ q })
              s.orders);
        within = (filled_within start q k o s h positive here live small).1;
        moved = ap (λ n. s.position +ℤ n) (signed_quantity-signed o.side q);
        honest = record { position = honest.position; booked = honest.booked };
      }

  fills_order :
      (k : OrderKey) (o : ChildOrder)
      → order_by_client_order_id id s ≡ ok (k, o)
      → takes q (ok (k, o)) ≡ true
      → IsFilled start q price id s (push_fill id q price s)
  fills_order k o e t =
      let here = (found_order id k o s e).0 in
      let fits : (pos 0 <ℤ q) × (child_is_terminal o.status ≡ false) × (q ≤ℤ remaining_quantity o) =
        ground arith in
      rw (push_lem k o e t) (made k o e here fits)

  pub push_fill_exact :
      (takes q (order_by_client_order_id id s) ≡ true
        → IsFilled start q price id s (push_fill id q price s))
      × (takes q (order_by_client_order_id id s) ≡ false
          → (e : Exception) × (push_fill id q price s ≡ (raised e, s)))
  push_fill_exact = (
    λ t. by_found (order_by_client_order_id id s) refl t,
    λ t. refuses (order_by_client_order_id id s) refl t,
  )
    where
      by_found :
          (found : Result (OrderKey × ChildOrder))
          → order_by_client_order_id id s ≡ found
          → takes q found ≡ true
          → IsFilled start q price id s (push_fill id q price s)
      by_found (ok (k, o)) e t = fills_order k o e t
      by_found (raised x) e t = cc
