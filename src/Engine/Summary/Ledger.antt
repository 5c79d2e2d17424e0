-- ===== src/Engine/Summary/Ledger.antt =====
-- src/execution/engine.py: `_twap_slice_ledger`, one row for each slice of a TWAP execution.
use mathlib.Core.Option
use interview_assignment.Base.{
  ℕ, zero, suc, ◌+◌, ◌-◌, ◌*◌, Bool, true, false, ◌&&◌, ◌||◌, not, Option, none, some, List, [],
  ◌∷◌, ◌++◌, ltb, ◌==◌, if◌then◌else◌, pos, Decimal, pos_part, ◌+ℤ◌, ◌-ℤ◌, ltb_ℤ, leb_ℤ, Text,
}
use interview_assignment.Base.Dict.{lookup}
use interview_assignment.Execution.Models.{Algorithm, ChildOrderStatus, is_no_action, child_is}
use interview_assignment.Execution.Orders.{ChildOrder, remaining_quantity}
use interview_assignment.Engine.Record.{ExecutionRecord}
use Prim.Native.Nat.{◌^◌}
use interview_assignment.Base.Context.{
  Rounded, dec_of, dec_mul, dec_div, dec_minus, dec_ceil, round_quotient,
}
use interview_assignment.Algorithms.Twap.{quantity_decimals, time_decimals}

pub record LedgerRow : Type 0 where
  pub execution_id : Text
  pub slice_index : ℕ
  pub slice_start_seconds : Rounded
  pub slice_end_seconds : Rounded
  pub planned_cumulative_quantity : Rounded
  pub planned_slice_quantity : Rounded
  pub submitted_quantity : Decimal
  pub open_quantity : Decimal
  pub filled_quantity : Decimal
  pub cancelled_quantity : Decimal
  pub unfilled_quantity : Rounded
  pub schedule_deficit : Rounded
  pub child_order_ids : List Text
  pub client_order_ids : List Text

-- `x - y` where `y` is the smaller.
unfoldable pub dec_difference : Rounded → Rounded → Rounded
dec_difference x y =
    round_quotient (x.coefficient * 10 ^ y.exponent - y.coefficient * 10 ^ x.exponent)
      (10 ^ (x.exponent + y.exponent))

-- `record.required_quantity * Decimal(k) / Decimal(number_of_slices)`
unfoldable pub planned_quantity : Decimal → ℕ → ℕ → Rounded
planned_quantity required k number_of_slices =
    dec_div (dec_mul (dec_of quantity_decimals (pos_part required)) (dec_of 0 k))
      (dec_of 0 number_of_slices)

-- `_empty_twap_slice_ledger_row`, of the slice k + 1.
unfoldable pub empty_twap_slice_ledger_row : Text → Decimal → ℕ → Rounded → ℕ → LedgerRow
empty_twap_slice_ledger_row id required k slice_duration number_of_slices =
    let previous = planned_quantity required k number_of_slices in
    let planned = planned_quantity required (k + 1) number_of_slices in
    record {
      execution_id = id;
      slice_index = k + 1;
      slice_start_seconds = dec_mul slice_duration (dec_of 0 k);
      slice_end_seconds = dec_mul slice_duration (dec_of 0 (k + 1));
      planned_cumulative_quantity = planned;
      planned_slice_quantity = dec_difference planned previous;
      submitted_quantity = pos 0;
      open_quantity = pos 0;
      filled_quantity = pos 0;
      cancelled_quantity = pos 0;
      unfilled_quantity = dec_of 0 0;
      schedule_deficit = dec_of 0 0;
      child_order_ids = [];
      client_order_ids = [];
    }

-- The rows of the last `left` slices.
unfoldable pub empty_rows : Text → Decimal → Rounded → ℕ → ℕ → List LedgerRow
empty_rows id required slice_duration number_of_slices zero = []
empty_rows id required slice_duration number_of_slices (suc left) =
    empty_twap_slice_ledger_row id required (number_of_slices - suc left) slice_duration
      number_of_slices
    ∷ empty_rows id required slice_duration number_of_slices left

-- The slice of an order that was submitted some time after the start, if it was.
unfoldable pub slice_at : Option Decimal → ℕ → Rounded → ℕ
slice_at none number_of_slices slice_duration = number_of_slices
slice_at (some elapsed) number_of_slices slice_duration =
    let slice_index = dec_ceil (dec_div (dec_of time_decimals (pos_part elapsed)) slice_duration) in
    if slice_duration.coefficient == 0
    then number_of_slices
    else if leb_ℤ elapsed (pos 0)
    then 1
    else if ltb slice_index 1
    then 1
    else if ltb number_of_slices slice_index
    then number_of_slices
    else slice_index

-- `_twap_child_slice_index`
unfoldable pub twap_child_slice_index : ExecutionRecord → ChildOrder → ℕ → Rounded → ℕ
twap_child_slice_index r c = slice_at (
    Option.map (λ submitted_at. submitted_at -ℤ r.started_monotonic)
      (lookup c.client_order_id r.child_submitted_monotonic))

-- What the loop over the children does to the row of one.
unfoldable pub count_in_row : ChildOrder → LedgerRow → LedgerRow
count_in_row c row = record row {
  submitted_quantity = row.submitted_quantity +ℤ c.submitted_quantity;
  filled_quantity = row.filled_quantity +ℤ c.confirmed_filled_quantity;
  open_quantity =
      if child_is c.status ChildOrderStatus.open_order
        || child_is c.status ChildOrderStatus.partially_filled
      then row.open_quantity +ℤ remaining_quantity c
      else row.open_quantity;
  cancelled_quantity =
      if child_is c.status ChildOrderStatus.cancelled
      then row.cancelled_quantity +ℤ remaining_quantity c
      else row.cancelled_quantity;
  child_order_ids = row.child_order_ids ++ c.child_order_id ∷ [];
  client_order_ids = row.client_order_ids ++ c.client_order_id ∷ [];
}

-- `rows[i]` changed in place.
unfoldable pub change_row : ℕ → (LedgerRow → LedgerRow) → List LedgerRow → List LedgerRow
change_row i f [] = []
change_row zero f (row ∷ rows) = f row ∷ rows
change_row (suc i) f (row ∷ rows) = row ∷ change_row i f rows

unfoldable pub count_in_rows :
    ExecutionRecord → ℕ → Rounded → List ChildOrder → List LedgerRow → List LedgerRow
count_in_rows r number_of_slices slice_duration [] rows = rows
count_in_rows r number_of_slices slice_duration (c ∷ cs) rows =
    count_in_rows r number_of_slices slice_duration cs (
      change_row (twap_child_slice_index r c number_of_slices slice_duration - 1) (count_in_row c)
        rows)

-- The last loop, with the quantity filled in the rows before.
unfoldable pub settle_rows : Decimal → List LedgerRow → List LedgerRow
settle_rows filled_before [] = []
settle_rows filled_before (row ∷ rows) =
    let cumulative_filled = filled_before +ℤ row.filled_quantity in
    (record row {
      unfilled_quantity =
          dec_minus row.planned_slice_quantity quantity_decimals row.filled_quantity;
      schedule_deficit =
          dec_minus row.planned_cumulative_quantity quantity_decimals cumulative_filled;
    })
    ∷ settle_rows cumulative_filled rows

abbrev pub is_twap : Algorithm → Bool
is_twap Algorithm.twap = true
is_twap Algorithm.chase = false

-- The first guards of `_twap_slice_ledger`.
unfoldable pub has_ledger : ExecutionRecord → Bool
has_ledger r =
    is_twap r.request.algorithm
    && not (is_no_action r.side)
    && ltb_ℤ (pos 0) r.required_quantity
    && ltb_ℤ (pos 0) r.request.parameters.number_of_slices

-- `_twap_slice_ledger`, of an execution whose duration is not negative.
unfoldable pub twap_slice_ledger : ExecutionRecord → List LedgerRow
twap_slice_ledger r =
    let number_of_slices = pos_part r.request.parameters.number_of_slices in
    let slice_duration =
      dec_div (dec_of 0 (pos_part r.request.target_duration_seconds)) (dec_of 0 number_of_slices) in
    if has_ledger r
    then settle_rows (pos 0) (
        count_in_rows r number_of_slices slice_duration r.child_orders (
          empty_rows r.execution_id r.required_quantity slice_duration number_of_slices
            number_of_slices))
    else []
