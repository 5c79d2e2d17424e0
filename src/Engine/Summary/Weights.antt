-- ===== src/Engine/Summary/Weights.antt =====
-- The inputs of the volume-weighted price (`_summary_vwap_inputs` of src/execution/engine.py) weigh
-- as much as what is filled.
use interview_assignment.Base.{
  ◌*ℤ◌, ◌-ℤ◌, neg_ℤ, negsuc, ap, sym, ◌∙◌, false, ◌≡◌, refl, inl, inr, List, [], ◌∷◌, ◌++◌, arith,
  Bool-cases, pos, Decimal, ◌+ℤ◌, ◌≤ℤ◌, ltb_ℤ, int_laws, min_ℤ, max_ℤ,
}
use interview_assignment.Base.Dict.{Dict}
use interview_assignment.Execution.Orders.{ChildOrder}
use interview_assignment.Engine.Record.{ExecutionRecord}
use interview_assignment.Engine.Record.{PriceQuantity, Interval}
use interview_assignment.Engine.Intervals.{
  cover, cover_all, sort_intervals, covered_interval_quantity,
}
use interview_assignment.Engine.Intervals.Coverage.{
  IsDisjoint, EndsBy, total_length, covered-eq-total_length,
}
use interview_assignment.Engine.Summary.{
  notional, total_quantity, provisional_fill_vwap_inputs, intervals_of, uncovered_quantity,
  uncovered_vwap_inputs, summary_vwap_inputs,
}
use interview_assignment.Engine.Summary.Totals.{total}

total_quantity-append :
    (is js : List PriceQuantity)
    → total_quantity (is ++ js) ≡ total_quantity is +ℤ total_quantity js
unfolding total_quantity
total_quantity-append [] js = omega int_laws
total_quantity-append ((p, q) ∷ is) js = grind (int_laws, total_quantity-append is js)

-- A child whose accounted intervals do not overlap and lie within its fill.
pub record IsCovered (d : Dict (List Interval)) (c : ChildOrder) : Type 0 where
  pub non_negative : pos 0 ≤ℤ c.confirmed_filled_quantity
  pub disjoint : IsDisjoint (intervals_of d c)
  pub ends : EndsBy c.confirmed_filled_quantity (intervals_of d c)

abbrev pub AllCovered : Dict (List Interval) → List ChildOrder → Type 0
AllCovered d [] = Unit
AllCovered d (c ∷ cs) = IsCovered d c × AllCovered d cs

cover-within :
    (c : Decimal) (i : Interval) (covered until : Decimal)
    → covered ≤ℤ until
    → until ≤ℤ c
    → let (covered', until', stop) = cover c i covered until in (covered' ≤ℤ until') × (until' ≤ℤ c)
unfolding cover max_ℤ min_ℤ
cover-within c (s, e) covered until h k = (grind int_laws, grind int_laws)

-- The sweep never counts past the quantity that it is clipped to.
cover_all-within :
    (c : Decimal) (l : List Interval) (covered until : Decimal)
    → covered ≤ℤ until
    → until ≤ℤ c
    → cover_all c l covered until ≤ℤ c
unfolding cover_all
cover_all-within c [] covered until h k = omega arith
cover_all-within c ((s, e) ∷ l) covered until h k =
    let (within, ends) = cover-within c (s, e) covered until h k in
    elim (Bool-cases (cover c (s, e) covered until).2) [
      | inl stop ↦ rw stop (omega arith)
      | inr more ↦ rw more (cover_all-within c l _ _ within ends)
    ]

uncovered_nonneg :
    (d : Dict (List Interval)) (c : ChildOrder) → IsCovered d c → pos 0 ≤ℤ uncovered_quantity d c
unfolding uncovered_quantity covered_interval_quantity
uncovered_nonneg d c h =
    let within =
      cover_all-within c.confirmed_filled_quantity (sort_intervals (intervals_of d c)) (pos 0)
        (pos 0) (omega arith) h.non_negative in
    omega (int_laws, within)

uncovered_length :
    (d : Dict (List Interval)) (c : ChildOrder)
    → IsCovered d c
    → uncovered_quantity d c +ℤ total_length (intervals_of d c) ≡ c.confirmed_filled_quantity
unfolding uncovered_quantity
uncovered_length d c h =
    rw (covered-eq-total_length (intervals_of d c) c.confirmed_filled_quantity h.disjoint h.ends)
      (omega int_laws)

uncovered_weight :
    (d : Dict (List Interval)) (cs : List ChildOrder)
    → AllCovered d cs
    → total_quantity (uncovered_vwap_inputs d cs) +ℤ total (λ c. total_length (intervals_of d c)) cs
      ≡ total (λ c. c.confirmed_filled_quantity) cs
unfolding uncovered_vwap_inputs total_quantity
uncovered_weight d [] h = omega int_laws
uncovered_weight d (c ∷ cs) h =
    let rest = uncovered_weight d cs h.1 in
    let own = uncovered_nonneg d c h.0 in
    let sum = uncovered_length d c h.0 in
    elim (Bool-cases (ltb_ℤ (pos 0) (uncovered_quantity d c))) [
      | inl more ↦ rw more (grind (int_laws, rest, sum))
      | inr less ↦ rw less (grind (int_laws, rest, sum, own, less))
    ]

provisional_weight :
    (d : Dict (List Interval)) (cs : List ChildOrder)
    → AllCovered d cs
    → total_quantity (provisional_fill_vwap_inputs cs) ≡ total (λ c. c.confirmed_filled_quantity) cs
unfolding provisional_fill_vwap_inputs total_quantity
provisional_weight d [] h = refl
provisional_weight d (c ∷ cs) h =
    let rest = provisional_weight d cs h.1 in
    let own = h.0.non_negative in
    elim (Bool-cases (ltb_ℤ (pos 0) c.confirmed_filled_quantity)) [
      | inl more ↦ rw more (grind (int_laws, rest))
      | inr less ↦ rw less (grind (int_laws, rest, own, less))
    ]

times_zero : (p : Decimal) → p *ℤ pos 0 ≡ pos 0
unfolding ◌*ℤ◌ neg_ℤ
times_zero (pos n) = ground arith
times_zero (negsuc n) = ground arith

-- What an uncovered fill costs at the price of its order.
abbrev pub uncovered_cost : Dict (List Interval) → ChildOrder → Decimal
uncovered_cost d c = c.price *ℤ (c.confirmed_filled_quantity -ℤ total_length (intervals_of d c))

uncovered_cost_lem :
    (d : Dict (List Interval)) (c : ChildOrder)
    → IsCovered d c
    → c.price *ℤ uncovered_quantity d c ≡ uncovered_cost d c
uncovered_cost_lem d c h =
    let sum = uncovered_length d c h in ap (λ q. c.price *ℤ q) (grind (int_laws, sum))

nothing_uncovered :
    (d : Dict (List Interval)) (c : ChildOrder)
    → IsCovered d c
    → ltb_ℤ (pos 0) (uncovered_quantity d c) ≡ false
    → uncovered_cost d c ≡ pos 0
nothing_uncovered d c h less =
    let own = uncovered_nonneg d c h in
    sym (uncovered_cost_lem d c h)
    ∙ ap (λ q. c.price *ℤ q) (grind (int_laws, own, less))
    ∙ times_zero c.price

uncovered_notional :
    (d : Dict (List Interval)) (cs : List ChildOrder)
    → AllCovered d cs
    → notional (uncovered_vwap_inputs d cs) ≡ total (uncovered_cost d) cs
unfolding uncovered_vwap_inputs notional
uncovered_notional d [] h = refl
uncovered_notional d (c ∷ cs) h =
    let rest = uncovered_notional d cs h.1 in
    elim (Bool-cases (ltb_ℤ (pos 0) (uncovered_quantity d c))) [
      | inl more ↦ rw (more, rest, uncovered_cost_lem d c h.0) refl
      | inr less ↦ rw (less, rest, nothing_uncovered d c h.0 less) (omega int_laws)
    ]

total_length-nonneg : (l : List Interval) → IsDisjoint l → pos 0 ≤ℤ total_length l
total_length-nonneg [] h = omega arith
total_length-nonneg ((s, e) ∷ l) h =
    let rest = total_length-nonneg l h.3 in let own = h.1 in grind (int_laws, rest, own)

lengths-nonneg :
    (d : Dict (List Interval)) (cs : List ChildOrder)
    → AllCovered d cs
    → pos 0 ≤ℤ total (λ c. total_length (intervals_of d c)) cs
lengths-nonneg d [] h = omega arith
lengths-nonneg d (c ∷ cs) h =
    let own = total_length-nonneg (intervals_of d c) h.0.disjoint in
    let rest = lengths-nonneg d cs h.1 in omega (int_laws, own, rest)

nothing_filled : (q : Decimal) → pos 0 ≤ℤ q → ltb_ℤ (pos 0) q ≡ false → q ≡ pos 0
nothing_filled q h less = grind (int_laws, h, less)

-- Without a trade every fill is uncovered.
provisional_notional :
    (d : Dict (List Interval)) (cs : List ChildOrder)
    → AllCovered d cs
    → total (λ c. total_length (intervals_of d c)) cs ≡ pos 0
    → notional (provisional_fill_vwap_inputs cs) ≡ total (uncovered_cost d) cs
unfolding provisional_fill_vwap_inputs notional
provisional_notional d [] h none_covered = refl
provisional_notional d (c ∷ cs) h none_covered =
    let own = total_length-nonneg (intervals_of d c) h.0.disjoint in
    let others = lengths-nonneg d cs h.1 in
    let here : c.confirmed_filled_quantity
        ≡ c.confirmed_filled_quantity -ℤ total_length (intervals_of d c) =
      grind (int_laws, own, others, none_covered) in
    let rest = provisional_notional d cs h.1 (grind (int_laws, own, others, none_covered)) in
    let cost = ap (λ q. c.price *ℤ q) here in
    let filled = h.0.non_negative in
    elim (Bool-cases (ltb_ℤ (pos 0) c.confirmed_filled_quantity)) [
      | inl more ↦ rw more (grind (int_laws, rest, cost))
      | inr less ↦
          let nothing =
            ap (λ q. c.price *ℤ q) (nothing_filled c.confirmed_filled_quantity filled less)
            ∙ times_zero c.price in
          rw less (grind (int_laws, rest, cost, nothing))
    ]

notional-append : (is js : List PriceQuantity) → notional (is ++ js) ≡ notional is +ℤ notional js
unfolding notional
notional-append [] js = omega int_laws
notional-append ((p, q) ∷ is) js = grind (int_laws, notional-append is js)

chosen_notional :
    (d : Dict (List Interval)) (cs : List ChildOrder)
    → AllCovered d cs
    → (is : List PriceQuantity)
    → total_quantity is ≡ total (λ c. total_length (intervals_of d c)) cs
    → notional (elim is [
      | [] ↦ provisional_fill_vwap_inputs cs
      | i ∷ js ↦ (i ∷ js) ++ uncovered_vwap_inputs d cs
    ])
      ≡ notional is +ℤ total (uncovered_cost d) cs
unfolding total_quantity notional
chosen_notional d cs h [] k =
    let costs = provisional_notional d cs h (sym k) in grind (int_laws, costs)
chosen_notional d cs h (i ∷ js) k =
    notional-append (i ∷ js) (uncovered_vwap_inputs d cs)
    ∙ ap (λ x. notional (i ∷ js) +ℤ x) (uncovered_notional d cs h)

chosen_weight :
    (d : Dict (List Interval)) (cs : List ChildOrder)
    → AllCovered d cs
    → (is : List PriceQuantity)
    → total_quantity is ≡ total (λ c. total_length (intervals_of d c)) cs
    → total_quantity (elim is [
      | [] ↦ provisional_fill_vwap_inputs cs
      | i ∷ js ↦ (i ∷ js) ++ uncovered_vwap_inputs d cs
    ])
      ≡ total (λ c. c.confirmed_filled_quantity) cs
chosen_weight d cs h [] k = provisional_weight d cs h
chosen_weight d cs h (i ∷ js) k =
    let sum = total_quantity-append (i ∷ js) (uncovered_vwap_inputs d cs) in
    grind (int_laws, sum, k, uncovered_weight d cs h)

-- Where no child has a negative fill, no child's accounted intervals overlap or go past its fill,
-- and the recorded price inputs weigh as much as those intervals, the inputs of the summary's
-- average price weigh exactly what the children have filled, and they cost what the recorded inputs
-- cost and, for the part of each fill that no trade accounts for, its quantity at its order's
-- price.
pub summary_vwap_inputs_weight :
    (r : ExecutionRecord)
    → let d = r.child_authoritative_fill_intervals in
      AllCovered d r.child_orders
      → total_quantity r.fill_vwap_inputs
        ≡ total (λ c. total_length (intervals_of d c)) r.child_orders
      → (total_quantity (summary_vwap_inputs r)
          ≡ total (λ c. c.confirmed_filled_quantity) r.child_orders)
        × (notional (summary_vwap_inputs r)
            ≡ notional r.fill_vwap_inputs
              +ℤ total
                  (λ c. c.price *ℤ (c.confirmed_filled_quantity -ℤ total_length (intervals_of d c)))
                  r.child_orders)
unfolding summary_vwap_inputs
summary_vwap_inputs_weight r h k =
    let d = r.child_authoritative_fill_intervals in
    (
      chosen_weight d r.child_orders h r.fill_vwap_inputs k,
      chosen_notional d r.child_orders h r.fill_vwap_inputs k,
    )
