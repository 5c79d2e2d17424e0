-- ===== src/Exchanges/Simulator/Books.antt =====
-- The books of the simulator of src/exchanges/simulator.py: the position is what the orders filled.

use interview_assignment.Base.{
  ◌≡◌, refl, sym, ap, ◌∙◌, ◌≢◌, ◌↔◌, inl, inr, true, false, none, some, [], ◌∷◌, arith, Bool-cases,
  pos, Decimal, ◌+ℤ◌, ◌≤ℤ◌, ◌<ℤ◌, int_laws, text_eq_iff,
}
use interview_assignment.Execution.Models.{ChildOrderStatus, child_is}
use interview_assignment.Execution.Orders.{ChildOrder, signed}
use interview_assignment.Exchanges.Simulator.{OrderKey, Orders, key_eq, Simulator}
use interview_assignment.Exchanges.Simulator.Trading.{order_at, put_order}

-- What an order, and what the orders, have added to the position.
abbrev pub signed_fills : ChildOrder → Decimal
signed_fills o = signed (o.side, o.confirmed_filled_quantity)

abbrev pub total_signed : Orders → Decimal
total_signed [] = pos 0
total_signed ((k, o) ∷ l) = signed_fills o +ℤ total_signed l

-- An order has at most what was submitted, and it has been opened.
pub record IsBooked (o : ChildOrder) : Type 0 where
  pub non_negative : pos 0 ≤ℤ o.confirmed_filled_quantity
  pub within :
      pos 0 <ℤ o.confirmed_filled_quantity → o.confirmed_filled_quantity ≤ℤ o.submitted_quantity
  pub opened : child_is o.status ChildOrderStatus.pending_submit ≡ false

abbrev pub AllBooked : Orders → Type 0
AllBooked [] = Unit
AllBooked ((k, o) ∷ l) = IsBooked o × AllBooked l

-- The position is the one at the start and what the orders filled since.
pub record IsHonest (start : Decimal) (s : Simulator) : Type 0 where
  pub position : s.position ≡ start +ℤ total_signed s.orders
  pub booked : AllBooked s.orders

pub key_eq_iff : (k j : OrderKey) → (key_eq k j ≡ true) ↔ (k ≡ j)
key_eq_iff (a, b) (c, d) = (
  λ h. ground (arith, text_eq_iff a c, text_eq_iff b d, h),
  λ h. ground (arith, text_eq_iff a c, text_eq_iff b d, h),
)

module _ (k j : OrderKey) (p : ChildOrder) (l : Orders) where
  order_at-same : {o : ChildOrder} → key_eq k j ≡ true → order_at k ((j, p) ∷ l) ≡ some o → p ≡ o
  unfolding order_at
  order_at-same same e = ground (arith, same, e)

  order_at-other : key_eq k j ≡ false → order_at k ((j, p) ∷ l) ≡ order_at k l
  unfolding order_at
  order_at-other other = rw other refl

  order_at-ne-none : key_eq k j ≡ true → order_at k ((j, p) ∷ l) ≢ none
  unfolding order_at
  order_at-ne-none same e = ground (arith, same, e)

-- A write at a key that is there, and at a new one.
pub total_signed-put :
    (k : OrderKey) (o p : ChildOrder) (l : Orders)
    → order_at k l ≡ some o
    → total_signed (put_order k p l) +ℤ signed_fills o ≡ total_signed l +ℤ signed_fills p
unfolding order_at put_order
total_signed-put k o p [] e = cc
total_signed-put k o p ((j, b) ∷ l) e = elim (Bool-cases (key_eq k j)) [
  | inl here ↦ rw here (grind (int_laws, ap signed_fills (order_at-same k j b l here e)))
  | inr there ↦
      rw there (grind (int_laws, total_signed-put k o p l (sym (order_at-other k j b l there) ∙ e)))
]

pub total_signed-put_new :
    (k : OrderKey) (p : ChildOrder) (l : Orders)
    → order_at k l ≡ none
    → total_signed (put_order k p l) ≡ total_signed l +ℤ signed_fills p
unfolding order_at put_order
total_signed-put_new k p [] e = grind int_laws
total_signed-put_new k p ((j, b) ∷ l) e = elim (Bool-cases (key_eq k j)) [
  | inl here ↦ absurd (order_at-ne-none k j b l here e)
  | inr there ↦
      rw there
        (grind (int_laws, total_signed-put_new k p l (sym (order_at-other k j b l there) ∙ e)))
]

pub AllBooked-put :
    (k : OrderKey) (p : ChildOrder) (l : Orders)
    → AllBooked l
    → IsBooked p
    → AllBooked (put_order k p l)
unfolding put_order
AllBooked-put k p [] h b = (b, tt)
AllBooked-put k p ((j, o) ∷ l) h b = elim (Bool-cases (key_eq k j)) [
  | inl here ↦ rw here (b, h.1)
  | inr there ↦ rw there (h.0, AllBooked-put k p l h.1 b)
]

pub AllBooked-at :
    (k : OrderKey) (o : ChildOrder) (l : Orders) → AllBooked l → order_at k l ≡ some o → IsBooked o
unfolding order_at
AllBooked-at k o [] h e = cc
AllBooked-at k o ((j, p) ∷ l) h e = elim (Bool-cases (key_eq k j)) [
  | inl here ↦ rw⁻¹ (order_at-same k j p l here e) h.0
  | inr there ↦ AllBooked-at k o l h.1 (sym (order_at-other k j p l there) ∙ e)
]

pub order_at-put :
    (k : OrderKey) (p : ChildOrder) (l : Orders) → order_at k (put_order k p l) ≡ some p
unfolding order_at put_order
order_at-put k p [] = ground (arith, key_eq_iff k k)
order_at-put k p ((j, o) ∷ l) = ground (arith, key_eq_iff k j, order_at-put k p l)
