-- ===== src/Exchanges/Simulator/Filling.antt =====
-- `push_fill` of src/exchanges/simulator.py.

use interview_assignment.Base.{
  ◌≡◌, refl, sym, ap, ◌∙◌, inl, inr, true, false, some, [], ◌∷◌, arith, Bool-cases, ℤ, pos, Decimal,
  ◌+ℤ◌, ◌≤ℤ◌, ◌<ℤ◌, int_laws, neg_ℤ, Text, text_eq, ok,
}
use interview_assignment.Execution.Models.{Side, ChildOrderStatus, child_is, child_is_terminal}
use interview_assignment.Execution.Orders.{ChildOrder, remaining_quantity, signed}
use interview_assignment.Execution.StateMachine.{transition_child}
use interview_assignment.Exchanges.Simulator.{OrderKey, Orders, key_eq, Simulator}
use interview_assignment.Exchanges.Simulator.Trading.{
  order_at, put_order, emit, with_client_order_id, only_match, order_by_client_order_id,
  open_status_for, move_order, signed_quantity, record_fill,
}
use interview_assignment.Exchanges.Simulator.Books.{
  total_signed, IsBooked, IsHonest, key_eq_iff, signed_fills, total_signed-put, AllBooked-put,
  AllBooked-at, order_at-put,
}

-- An order that is found by its id has that id, and stands at its key.
found_id :
    (id : Text) (k : OrderKey) (o : ChildOrder) (l : Orders)
    → with_client_order_id id l ≡ (k, o) ∷ []
    → text_eq k.1 id ≡ true
unfolding with_client_order_id
found_id id k o [] e = cc
found_id id k o ((j, p) ∷ l) e = elim (Bool-cases (text_eq j.1 id)) [
  | inl same ↦ ground (arith, same, e)
  | inr other ↦ found_id id k o l (sym (skip other) ∙ e)
]
  where
    skip : text_eq j.1 id ≡ false → with_client_order_id id ((j, p) ∷ l) ≡ with_client_order_id id l
    skip other = rw other refl

found_at :
    (id : Text) (k : OrderKey) (o : ChildOrder) (l : Orders)
    → with_client_order_id id l ≡ (k, o) ∷ []
    → order_at k l ≡ some o
unfolding with_client_order_id order_at
found_at id k o [] e = cc
found_at id k o ((j, p) ∷ l) e = elim (Bool-cases (text_eq j.1 id)) [
  | inl same ↦ ground (arith, same, e, key_eq_iff k j)
  | inr other ↦ rw (elsewhere other) (found_at id k o l (sym (skip other) ∙ e))
]
  where
    skip : text_eq j.1 id ≡ false → with_client_order_id id ((j, p) ∷ l) ≡ with_client_order_id id l
    skip other = rw other refl

    elsewhere : text_eq j.1 id ≡ false → key_eq k j ≡ false
    elsewhere other =
        ground (arith, other, key_eq_iff k j, found_id id k o l (sym (skip other) ∙ e))

only_match_lem : (m : Orders) (x : OrderKey × ChildOrder) → only_match m ≡ ok x → m ≡ x ∷ []
unfolding only_match
only_match_lem [] x h = cc
only_match_lem (y ∷ []) x h = ap (λ z. z ∷ []) (ok_inj h)
  where
    ok_inj : {x y : OrderKey × ChildOrder} → ok x ≡ ok y → x ≡ y
    ok_inj h = cc
only_match_lem (y ∷ z ∷ m) x h = cc

pub found_order :
    (id : Text) (k : OrderKey) (o : ChildOrder) (s : Simulator)
    → order_by_client_order_id id s ≡ ok (k, o)
    → (order_at k s.orders ≡ some o) × (text_eq k.1 id ≡ true)
unfolding order_by_client_order_id
found_order id k o s e =
    let one = only_match_lem (with_client_order_id id s.orders) (k, o) e in
    (found_at id k o s.orders one, found_id id k o s.orders one)

-- The order after a fill.
unfoldable pub filled_order : ChildOrder → Decimal → ChildOrder
filled_order o q =
    let raised_order = record o { confirmed_filled_quantity = o.confirmed_filled_quantity +ℤ q } in
    record raised_order { status = open_status_for raised_order }

-- The simulator after a fill of the order at a key, before it is recorded.
unfoldable pub filled_simulator : OrderKey → ChildOrder → Decimal → Simulator → Simulator
filled_simulator k o q s = record s {
  orders = put_order k (filled_order o q) (
      put_order k (record o { confirmed_filled_quantity = o.confirmed_filled_quantity +ℤ q })
        s.orders);
  position = s.position +ℤ signed_quantity o.side q;
}

-- A fill moves an order that has been opened and has not ended to its next status.
pub move_filled :
    (o : ChildOrder) (q : Decimal)
    → pos 0 <ℤ q
    → pos 0 ≤ℤ o.confirmed_filled_quantity
    → child_is_terminal o.status ≡ false
    → child_is o.status ChildOrderStatus.pending_submit ≡ false
    → let o' = record o { confirmed_filled_quantity = o.confirmed_filled_quantity +ℤ q } in
      move_order o' (open_status_for o') ≡ ok (filled_order o q)
unfolding move_order open_status_for filled_order transition_child
move_filled o q p n live opened =
    let above : pos 0 <ℤ o.confirmed_filled_quantity +ℤ q = omega int_laws in ground (arith, above)

signed-add :
    (side : Side) (a b : Decimal)
    → signed (side, a +ℤ b) ≡ signed (side, a) +ℤ signed_quantity side b
unfolding signed_quantity neg_ℤ
signed-add Side.buy a b = refl
signed-add Side.sell a b = grind int_laws
signed-add Side.no_action a b = grind int_laws

moved_total :
    (new mid old sf so sq position start : ℤ)
    → new +ℤ sf ≡ mid +ℤ sf
    → mid +ℤ so ≡ old +ℤ sf
    → sf ≡ so +ℤ sq
    → position ≡ start +ℤ old
    → position +ℤ sq ≡ start +ℤ new
moved_total new mid old sf so sq position start a b c d = grind (int_laws, a, b, c, d)

module _ (start q : Decimal) (k : OrderKey) (o : ChildOrder) (s : Simulator)
    (honest : IsHonest start s) (positive : pos 0 <ℤ q) (here : order_at k s.orders ≡ some o)
    (live : child_is_terminal o.status ≡ false) (fits : q ≤ℤ remaining_quantity o) where
  pub booked : IsBooked o
  booked = AllBooked-at k o s.orders honest.booked here

  pub filled_within :
      (pos 0 ≤ℤ o.confirmed_filled_quantity +ℤ q)
      × (o.confirmed_filled_quantity +ℤ q ≤ℤ o.submitted_quantity)
  unfolding remaining_quantity
  filled_within = (
    grind (int_laws, booked.non_negative, positive),
    grind (int_laws, booked.non_negative, positive, fits),
  )

  filled-IsBooked : IsBooked (filled_order o q)
  unfolding filled_order open_status_for
  filled-IsBooked = record {
    non_negative = filled_within.0;
    within = λ h. filled_within.1;
    opened = ground arith;
  }

  raised-IsBooked :
      IsBooked (record o { confirmed_filled_quantity = o.confirmed_filled_quantity +ℤ q })
  raised-IsBooked = record {
    non_negative = filled_within.0;
    within = λ h. filled_within.1;
    opened = booked.opened;
  }

  pub filled_simulator-IsHonest : IsHonest start (filled_simulator k o q s)
  unfolding filled_simulator
  filled_simulator-IsHonest =
      let raised_order = record o {
        confirmed_filled_quantity = o.confirmed_filled_quantity +ℤ q;
      } in
      let l = put_order k raised_order s.orders in
      record {
        position =
            moved_total (total_signed (put_order k (filled_order o q) l)) (total_signed l)
              (total_signed s.orders) (signed_fills raised_order) (signed_fills o)
              (signed_quantity o.side q) s.position start
              (unfold filled_order in
                total_signed-put k raised_order (filled_order o q) l
                  (order_at-put k raised_order s.orders))
              (total_signed-put k o raised_order s.orders here)
              (signed-add o.side o.confirmed_filled_quantity q) honest.position;
        booked =
            AllBooked-put k (filled_order o q) l
              (AllBooked-put k raised_order s.orders honest.booked raised-IsBooked) filled-IsBooked;
      }

pub recorded :
    (k : OrderKey) (o : ChildOrder) (q price : Decimal) (s : Simulator)
    → ((record_fill k o q price s).1.orders ≡ s.orders)
      × ((record_fill k o q price s).1.position ≡ s.position)
unfolding record_fill emit
recorded k o q price s = (refl, refl)
