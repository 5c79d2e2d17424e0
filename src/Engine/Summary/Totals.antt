-- ===== src/Engine/Summary/Totals.antt =====
-- The ledger of a TWAP execution (`_twap_slice_ledger` of src/execution/engine.py) counts every
-- child in one row.
use interview_assignment.Base.{
  Text, ℕ, zero, suc, ◌-◌, ◌<◌, ◌≡◌, refl, ap, ◌∙◌, true, Option, none, some, List, [], ◌∷◌, ◌++◌,
  arith, pos, Decimal, pos_part, ◌+ℤ◌, int_laws, length,
}
use interview_assignment.Execution.Orders.{ChildOrder}
use interview_assignment.Engine.Record.{ExecutionRecord}
use interview_assignment.Base.Context.{Rounded, dec_of, dec_div}
use interview_assignment.Engine.Summary.Ledger.{
  LedgerRow, empty_twap_slice_ledger_row, empty_rows, slice_at, twap_child_slice_index,
  count_in_row, change_row, count_in_rows, settle_rows, has_ledger, twap_slice_ledger,
}

-- The sum of a quantity over a list.
abbrev pub total : {A : Type 0} → (A → Decimal) → List A → Decimal
total f [] = pos 0
total f (x ∷ xs) = f x +ℤ total f xs

slice_at-within :
    (elapsed : Option Decimal) (n : ℕ) (d : Rounded) → 0 < n → slice_at elapsed n d - 1 < n
unfolding slice_at
slice_at-within none n d h = omega arith
slice_at-within (some t) n d h = ground arith

slice_index-within :
    (r : ExecutionRecord) (c : ChildOrder) (n : ℕ) (d : Rounded)
    → 0 < n
    → twap_child_slice_index r c n d - 1 < n
unfolding twap_child_slice_index
slice_index-within r c n d h = slice_at-within _ n d h

length-change_row :
    (i : ℕ) (g : LedgerRow → LedgerRow) (rows : List LedgerRow)
    → length (change_row i g rows) ≡ length rows
unfolding change_row
length-change_row i g [] = refl
length-change_row zero g (row ∷ rows) = refl
length-change_row (suc i) g (row ∷ rows) = ap suc (length-change_row i g rows)

length-count_in_rows :
    (r : ExecutionRecord) (n : ℕ) (d : Rounded) (cs : List ChildOrder) (rows : List LedgerRow)
    → length (count_in_rows r n d cs rows) ≡ length rows
unfolding count_in_rows
length-count_in_rows r n d [] rows = refl
length-count_in_rows r n d (c ∷ cs) rows =
    length-count_in_rows r n d cs _ ∙ length-change_row _ (count_in_row c) rows

length-settle_rows :
    (x : Decimal) (rows : List LedgerRow) → length (settle_rows x rows) ≡ length rows
unfolding settle_rows
length-settle_rows x [] = refl
length-settle_rows x (row ∷ rows) = ap suc (length-settle_rows (x +ℤ row.filled_quantity) rows)

length-empty_rows :
    (id : Text) (q : Decimal) (d : Rounded) (n left : ℕ) → length (empty_rows id q d n left) ≡ left
unfolding empty_rows
length-empty_rows id q d n zero = refl
length-empty_rows id q d n (suc left) = ap suc (length-empty_rows id q d n left)

total-change_row :
    (f : LedgerRow → Decimal) (i : ℕ) (g : LedgerRow → LedgerRow) (v : Decimal)
    → ((row : LedgerRow) → f (g row) ≡ f row +ℤ v)
    → (rows : List LedgerRow) → i < length rows
    → total f (change_row i g rows) ≡ total f rows +ℤ v
unfolding change_row
total-change_row f i g v h [] lt = absurd (omega arith)
total-change_row f zero g v h (row ∷ rows) lt = grind (int_laws, h row)
total-change_row f (suc i) g v h (row ∷ rows) lt =
    grind (int_laws, total-change_row f i g v h rows (omega arith))

-- A column of the ledger, and what a child adds to it.
record IsColumn (f : LedgerRow → Decimal) (m : ChildOrder → Decimal) : Type 0 where
  starts :
      (id : Text) (q : Decimal) (k : ℕ) (d : Rounded) (n : ℕ)
      → f (empty_twap_slice_ledger_row id q k d n) ≡ pos 0
  counts : (c : ChildOrder) (row : LedgerRow) → f (count_in_row c row) ≡ f row +ℤ m c
  settles :
      (row : LedgerRow) (u s : Rounded)
      → f (record row { unfilled_quantity = u; schedule_deficit = s }) ≡ f row

module _ (f : LedgerRow → Decimal) (m : ChildOrder → Decimal) (column : IsColumn f m) where
  total-empty_rows :
      (id : Text) (q : Decimal) (d : Rounded) (n left : ℕ)
      → total f (empty_rows id q d n left) ≡ pos 0
  unfolding empty_rows
  total-empty_rows id q d n zero = refl
  total-empty_rows id q d n (suc left) =
      grind (int_laws, column.starts id q (n - suc left) d n, total-empty_rows id q d n left)

  total-settle_rows :
      (x : Decimal) (rows : List LedgerRow) → total f (settle_rows x rows) ≡ total f rows
  unfolding settle_rows
  total-settle_rows x [] = refl
  total-settle_rows x (row ∷ rows) =
      rw (column.settles row _ _, total-settle_rows (x +ℤ row.filled_quantity) rows) refl

  total-count_in_rows :
      (r : ExecutionRecord) (n : ℕ) (d : Rounded)
      → 0 < n
      → (cs : List ChildOrder) (rows : List LedgerRow) → length rows ≡ n
      → total f (count_in_rows r n d cs rows) ≡ total f rows +ℤ total m cs
  unfolding count_in_rows
  total-count_in_rows r n d h [] rows len = omega int_laws
  total-count_in_rows r n d h (c ∷ cs) rows len =
      let i = twap_child_slice_index r c n d - 1 in
      let rest =
        total-count_in_rows r n d h cs (change_row i (count_in_row c) rows)
          (length-change_row i (count_in_row c) rows ∙ len) in
      let here =
        total-change_row f i (count_in_row c) (m c) (column.counts c) rows
          (rw len (slice_index-within r c n d h)) in
      grind (int_laws, rest, here)

  ledger_total :
      (r : ExecutionRecord)
      → has_ledger r ≡ true
      → total f (twap_slice_ledger r) ≡ total m r.child_orders
  unfolding twap_slice_ledger has_ledger
  ledger_total r h =
      let n = pos_part r.request.parameters.number_of_slices in
      let d = dec_div (dec_of 0 (pos_part r.request.target_duration_seconds)) (dec_of 0 n) in
      let rows = empty_rows r.execution_id r.required_quantity d n n in
      let counted =
        total-count_in_rows r n d (ground arith) r.child_orders rows
          (length-empty_rows r.execution_id r.required_quantity d n n) in
      rw h (
        total-settle_rows (pos 0) (count_in_rows r n d r.child_orders rows)
        ∙ counted
        ∙ rw (total-empty_rows r.execution_id r.required_quantity d n n) (omega int_laws))

filled : IsColumn (λ row. row.filled_quantity) (λ c. c.confirmed_filled_quantity)
unfolding empty_twap_slice_ledger_row count_in_row
filled = record { starts = λ id q k d n. refl; counts = λ c row. refl; settles = λ row u s. refl }

submitted : IsColumn (λ row. row.submitted_quantity) (λ c. c.submitted_quantity)
unfolding empty_twap_slice_ledger_row count_in_row
submitted = record {
  starts = λ id q k d n. refl;
  counts = λ c row. refl;
  settles = λ row u s. refl;
}

length-append_end : {A : Type 0} (xs : List A) (x : A) → length (xs ++ x ∷ []) ≡ suc (length xs)
length-append_end [] x = refl
length-append_end (y ∷ xs) x = ap suc (length-append_end xs x)

one_more : (n : ℕ) → pos (suc n) ≡ pos n +ℤ pos 1
one_more n = omega int_laws

listed : IsColumn (λ row. pos (length row.client_order_ids)) (λ c. pos 1)
unfolding empty_twap_slice_ledger_row count_in_row
listed = record {
  starts = λ id q k d n. refl;
  counts = λ c row.
      ap pos (length-append_end row.client_order_ids c.client_order_id)
      ∙ one_more (length row.client_order_ids);
  settles = λ row u s. refl;
}

-- For a TWAP execution with something to trade and slices to trade it in, the ledger has a row for
-- every slice and loses nothing: over the rows, the filled quantities sum to what the children have
-- filled, the submitted ones to what they submitted, and there are as many client order ids as
-- children.
pub twap_slice_ledger_complete :
    (r : ExecutionRecord)
    → has_ledger r ≡ true
    → let rows = twap_slice_ledger r in
      (length rows ≡ pos_part r.request.parameters.number_of_slices)
      × (total (λ row. row.filled_quantity) rows
          ≡ total (λ c. c.confirmed_filled_quantity) r.child_orders)
      × (total (λ row. row.submitted_quantity) rows
          ≡ total (λ c. c.submitted_quantity) r.child_orders)
      × (total (λ row. pos (length row.client_order_ids)) rows ≡ total (λ c. pos 1) r.child_orders)
unfolding twap_slice_ledger
twap_slice_ledger_complete r h = (
  rw h (
      length-settle_rows _ _
      ∙ length-count_in_rows r _ _ r.child_orders _
      ∙ length-empty_rows r.execution_id r.required_quantity _ _ _),
  ledger_total _ _ filled r h,
  ledger_total _ _ submitted r h,
  ledger_total _ _ listed r h,
)
