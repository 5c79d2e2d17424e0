-- ===== src/Engine/Intervals/Coverage.antt =====
-- Fill intervals (src/execution/engine.py): no two accepted intervals overlap, so the quantity that
-- they cover is the sum of their lengths.
use interview_assignment.Base.{
  ◌≡◌, refl, ap, ◌∙◌, ◌⊎◌, inl, inr, true, false, ◌&&◌, ◌||◌, Option, some, List, [], ◌∷◌, ◌++◌,
  arith, leb→le, Bool-cases, pos, Decimal, ◌+ℤ◌, ◌-ℤ◌, ◌≤ℤ◌, ◌<ℤ◌, ltb_ℤ, leb_ℤ, int_laws, min_ℤ,
  max_ℤ, Text,
}
use interview_assignment.Engine.Record.{Interval}
use interview_assignment.Engine.Intervals.{
  fill_interval_is_valid, fill_interval_overlaps, insert_interval, sort_intervals,
  window_local_fill_interval, accepted_interval, cover, cover_all, covered_interval_quantity,
}

-- Every interval of the list ends before this one begins, or begins after it ends.
abbrev pub IsApart : Decimal → Decimal → List Interval → Type 0
IsApart s e [] = Unit
IsApart s e ((a, b) ∷ l) = ((e ≤ℤ a) ⊎ (b ≤ℤ s)) × IsApart s e l

-- Non-empty intervals from zero on, no two of which overlap.
abbrev pub IsDisjoint : List Interval → Type 0
IsDisjoint [] = Unit
IsDisjoint ((s, e) ∷ l) = (pos 0 ≤ℤ s) × (s <ℤ e) × IsApart s e l × IsDisjoint l

abbrev pub total_length : List Interval → Decimal
total_length [] = pos 0
total_length ((s, e) ∷ l) = (e -ℤ s) +ℤ total_length l

-- Every interval ends at or before a limit.
abbrev pub EndsBy : Decimal → List Interval → Type 0
EndsBy limit [] = Unit
EndsBy limit ((s, e) ∷ l) = (e ≤ℤ limit) × EndsBy limit l

-- The test of the code finds no overlap exactly where there is none.
overlaps-IsApart :
    (s e : Decimal) (l : List Interval) → fill_interval_overlaps s e l ≡ false → IsApart s e l
unfolding fill_interval_overlaps
overlaps-IsApart s e [] h = tt
overlaps-IsApart s e ((a, b) ∷ l) h = (ground arith, overlaps-IsApart s e l (ground arith))

IsApart-overlaps :
    (s e : Decimal) (l : List Interval) → IsApart s e l → fill_interval_overlaps s e l ≡ false
unfolding fill_interval_overlaps
IsApart-overlaps s e [] h = refl
IsApart-overlaps s e ((a, b) ∷ l) h = ground (arith, IsApart-overlaps s e l h.1)

IsApart-append :
    (s e a b : Decimal) (l : List Interval)
    → IsApart s e l
    → (e ≤ℤ a) ⊎ (b ≤ℤ s)
    → IsApart s e (l ++ (a, b) ∷ [])
IsApart-append s e a b [] h k = (k, tt)
IsApart-append s e a b (i ∷ l) h k = (h.0, IsApart-append s e a b l h.1 k)

other_side : (e a b s : Decimal) → (e ≤ℤ a) ⊎ (b ≤ℤ s) → (b ≤ℤ s) ⊎ (e ≤ℤ a)
other_side e a b s (inl h) = inr h
other_side e a b s (inr h) = inl h

append-IsDisjoint :
    (s e : Decimal) (l : List Interval)
    → IsDisjoint l
    → pos 0 ≤ℤ s
    → s <ℤ e
    → IsApart s e l
    → IsDisjoint (l ++ (s, e) ∷ [])
append-IsDisjoint s e [] h p q o = (p, q, tt, tt)
append-IsDisjoint s e ((a, b) ∷ l) h p q o = (
  h.0,
  h.1,
  IsApart-append a b s e l h.2 (other_side e a b s o.0),
  append-IsDisjoint s e l h.3 p q o.1,
)

valid_facts :
    (s e limit : Decimal)
    → fill_interval_is_valid s e limit ≡ true
    → (pos 0 ≤ℤ s) × (s <ℤ e) × (e ≤ℤ limit)
unfolding fill_interval_is_valid
valid_facts s e limit h = ground arith

window_facts :
    (a b delta limit s e : Decimal) (l : List Interval) (id : Option Text)
    → window_local_fill_interval a b delta limit l id ≡ some (s, e)
    → (fill_interval_is_valid s e limit ≡ true)
      × (fill_interval_overlaps s e l ≡ false)
      × (e ≡ s +ℤ delta)
unfolding window_local_fill_interval
window_facts a b delta limit s e l id h = ground arith

accepted_facts :
    (interval_end delta limit s e : Decimal) (l : List Interval) (id : Option Text)
    → accepted_interval interval_end delta limit l id ≡ some (s, e)
    → (fill_interval_is_valid s e limit ≡ true)
      × (fill_interval_overlaps s e l ≡ false)
      × ((s ≡ e -ℤ delta) ⊎ (e ≡ s +ℤ delta))
unfolding accepted_interval
accepted_facts interval_end delta limit s e l id h =
    ground (arith, window_facts (interval_end -ℤ delta) interval_end delta limit s e l id)

length_of : (s e delta : Decimal) → (s ≡ e -ℤ delta) ⊎ (e ≡ s +ℤ delta) → e -ℤ s ≡ delta
length_of s e delta (inl h) = rw h (omega int_laws)
length_of s e delta (inr h) = rw h (omega int_laws)

-- The interval that is chosen for a trade lies between zero and the limit, is as long as the trade,
-- and appended to the disjoint intervals of the earlier trades keeps them disjoint.
pub accepted_interval-IsDisjoint :
    (interval_end trade_delta limit s e : Decimal) (l : List Interval) (id : Option Text)
    → IsDisjoint l
    → accepted_interval interval_end trade_delta limit l id ≡ some (s, e)
    → IsDisjoint (l ++ (s, e) ∷ [])
      × (e -ℤ s ≡ trade_delta)
      × (pos 0 ≤ℤ s)
      × (s <ℤ e)
      × (e ≤ℤ limit)
accepted_interval-IsDisjoint interval_end delta limit s e l id h eq =
    let (v, o, d) = accepted_facts interval_end delta limit s e l id eq in
    let (p, q, m) = valid_facts s e limit v in
    (append-IsDisjoint s e l h p q (overlaps-IsApart s e l o), length_of s e delta d, p, q, m)

-- Intervals in order, from a point on, none overlapping the next.
abbrev IsChain : Decimal → List Interval → Type 0
IsChain lo [] = Unit
IsChain lo ((s, e) ∷ l) = (lo ≤ℤ s) × (s <ℤ e) × IsChain e l

overlaps-insert :
    (s e a b : Decimal) (l : List Interval)
    → fill_interval_overlaps s e (insert_interval (a, b) l)
      ≡ ((ltb_ℤ s b && ltb_ℤ a e) || fill_interval_overlaps s e l)
unfolding fill_interval_overlaps insert_interval
overlaps-insert s e a b [] = ground arith
overlaps-insert s e a b ((c, d) ∷ l) = ground (arith, overlaps-insert s e a b l)

overlaps-sort :
    (s e : Decimal) (l : List Interval)
    → fill_interval_overlaps s e (sort_intervals l) ≡ fill_interval_overlaps s e l
unfolding fill_interval_overlaps sort_intervals
overlaps-sort s e [] = refl
overlaps-sort s e ((a, b) ∷ l) =
    ground (arith, overlaps-insert s e a b (sort_intervals l), overlaps-sort s e l)

insert-IsChain :
    (lo s e : Decimal) (l : List Interval)
    → IsChain lo l
    → lo ≤ℤ s
    → s <ℤ e
    → fill_interval_overlaps s e l ≡ false
    → IsChain lo (insert_interval (s, e) l)
unfolding fill_interval_overlaps insert_interval
insert-IsChain lo s e [] h p q o = (p, q, tt)
insert-IsChain lo s e ((a, b) ∷ l) h p q o = ground (arith, insert-IsChain b s e l h.2)

sort-IsChain : (l : List Interval) → IsDisjoint l → IsChain (pos 0) (sort_intervals l)
unfolding sort_intervals
sort-IsChain [] h = tt
sort-IsChain ((s, e) ∷ l) h =
    insert-IsChain (pos 0) s e (sort_intervals l) (sort-IsChain l h.3) h.0 h.1
      (overlaps-sort s e l ∙ IsApart-overlaps s e l h.2)

total_length-insert :
    (s e : Decimal) (l : List Interval)
    → total_length (insert_interval (s, e) l) ≡ (e -ℤ s) +ℤ total_length l
unfolding insert_interval
total_length-insert s e [] = refl
total_length-insert s e ((a, b) ∷ l) = grind (int_laws, total_length-insert s e l)

total_length-sort : (l : List Interval) → total_length (sort_intervals l) ≡ total_length l
unfolding sort_intervals
total_length-sort [] = refl
total_length-sort ((s, e) ∷ l) =
    total_length-insert s e (sort_intervals l) ∙ ap (λ n. (e -ℤ s) +ℤ n) (total_length-sort l)

EndsBy-insert :
    (limit s e : Decimal) (l : List Interval)
    → e ≤ℤ limit
    → EndsBy limit l
    → EndsBy limit (insert_interval (s, e) l)
unfolding insert_interval
EndsBy-insert limit s e [] p h = (p, tt)
EndsBy-insert limit s e ((a, b) ∷ l) p h = ground (arith, EndsBy-insert limit s e l p h.1)

EndsBy-sort :
    (limit : Decimal) (l : List Interval) → EndsBy limit l → EndsBy limit (sort_intervals l)
unfolding sort_intervals
EndsBy-sort limit [] h = tt
EndsBy-sort limit ((s, e) ∷ l) h =
    EndsBy-insert limit s e (sort_intervals l) h.0 (EndsBy-sort limit l h.1)

-- In a chain that ends by the limit nothing follows an interval that reaches it.
chain_full :
    (c e : Decimal) (l : List Interval) → c ≤ℤ e → IsChain e l → EndsBy c l → total_length l ≡ pos 0
chain_full c e [] full h k = refl
chain_full c e ((a, b) ∷ l) full h k = absurd (omega arith)

cover_next :
    (c covered until s e : Decimal)
    → pos 0 ≤ℤ until
    → until ≤ℤ s
    → s <ℤ e
    → e ≤ℤ c
    → cover c (s, e) covered until ≡ (covered +ℤ (e -ℤ s), e, leb_ℤ c e)
unfolding cover max_ℤ min_ℤ
cover_next c covered until s e p q r k = ground arith

cover_all-chain :
    (c covered until : Decimal) (l : List Interval)
    → pos 0 ≤ℤ until
    → IsChain until l
    → EndsBy c l
    → cover_all c l covered until ≡ covered +ℤ total_length l
unfolding cover_all
cover_all-chain c covered until [] p h k = omega int_laws
cover_all-chain c covered until ((s, e) ∷ l) p h k =
    let later = cover_all-chain c (covered +ℤ (e -ℤ s)) e l (omega arith) h.2 k.1 in
    rw (cover_next c covered until s e p h.0 h.1 k.0) (elim (Bool-cases (leb_ℤ c e)) [
      | inl full ↦ rw (full, chain_full c e l (leb→le _ _ full) h.2 k.1) (omega int_laws)
      | inr more ↦ rw (more, later) (omega int_laws)
    ])

-- Where the accounted intervals do not overlap and end by the confirmed quantity, the quantity that
-- they cover is the sum of their lengths: the sweep counts nothing twice and leaves nothing out.
pub covered-eq-total_length :
    (l : List Interval) (confirmed : Decimal)
    → IsDisjoint l
    → EndsBy confirmed l
    → covered_interval_quantity l confirmed ≡ total_length l
unfolding covered_interval_quantity
covered-eq-total_length l c h k =
    cover_all-chain c (pos 0) (pos 0) (sort_intervals l) (omega arith) (sort-IsChain l h)
      (EndsBy-sort c l k)
    ∙ rw (total_length-sort l) (omega int_laws)
