-- ===== src/Execution/Ids/Unique.antt =====
-- Client order ids are unique within an execution (src/execution/ids.py).
use interview_assignment.Base.{
  ℕ, zero, suc, ◌+◌, ◌-◌, ◌*◌, ◌/◌, ◌%◌, ◌≤◌, ◌<◌, ◌≡◌, refl, sym, ap, ◌∙◌, inl, inr, true, [], ◌∷◌,
  ◌++◌, arith, ltb, Bool-cases, length, Text, ok,
}
use interview_assignment.Execution.Ids.{
  digits_from, decimal_digits, make_client_order_prefix, make_client_order_id, all_id_chars,
}

-- The number that a text of decimal digits stands for.
value_from : ℕ → Text → ℕ
value_from acc [] = acc
value_from acc (c ∷ s) = value_from (acc * 10 + (c - b'0')) s

value_from-append :
    (acc c : ℕ) (s : Text) → value_from acc (s ++ c ∷ []) ≡ value_from acc s * 10 + (c - b'0')
unfolding value_from
value_from-append acc c [] = refl
value_from-append acc c (d ∷ s) = value_from-append (acc * 10 + (d - b'0')) c s

value-digits_from : (fuel n : ℕ) → n < fuel → value_from 0 (digits_from fuel n) ≡ n
unfolding digits_from
value-digits_from zero n h = elim h [ ]
value-digits_from (suc fuel) n h = elim (Bool-cases (ltb n 10)) [
  | inl small ↦ rw small (unfold value_from in omega arith)
  | inr big ↦
      rw (big, value_from-append 0 (b'0' + n % 10) (digits_from fuel (n / 10)))
        (omega (arith, value-digits_from fuel (n / 10) (ground arith)))
]

decimal_digits-injective : (m n : ℕ) → decimal_digits m ≡ decimal_digits n → m ≡ n
unfolding decimal_digits
decimal_digits-injective m n e =
    sym (value-digits_from (suc m) m (omega arith))
    ∙ ap (value_from 0) e
    ∙ value-digits_from (suc n) n (omega arith)

append_cancel : (p x y : Text) → p ++ x ≡ p ++ y → x ≡ y
append_cancel [] x y e = e
append_cancel (c ∷ p) x y e = append_cancel p x y (ground arith)

-- What a returned id is.
returned :
    (execution_id : Text) (n : ℕ) (value : Text)
    → make_client_order_id execution_id n ≡ ok value
    → (value ≡ make_client_order_prefix execution_id ++ decimal_digits n)
      × (length value ≤ 36)
      × (all_id_chars value ≡ true)
unfolding make_client_order_id
returned id n value h = (ground arith, ground arith, ground arith)

-- Two child orders of one execution never share a client order id: from an id that was made the
-- sequence number can be read back. Every id that is made has at most 36 characters, all of them
-- allowed by the exchange.
pub make_client_order_id_unique :
    (execution_id : Text) (m n : ℕ) (value : Text)
    → make_client_order_id execution_id m ≡ ok value
    → make_client_order_id execution_id n ≡ ok value
    → (m ≡ n) × (length value ≤ 36) × (all_id_chars value ≡ true)
make_client_order_id_unique id m n value h k =
    let (e, short, allowed) = returned id m value h in
    let (e', short', allowed') = returned id n value k in
    (
      decimal_digits-injective m n (append_cancel (make_client_order_prefix id) _ _ (sym e ∙ e')),
      short,
      allowed,
    )
