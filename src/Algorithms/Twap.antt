-- ===== src/Algorithms/Twap.antt =====
-- src/algorithms/twap.py: the schedule of a TWAP execution, in the decimal context. Quantities are
-- whole numbers of 10^-8, clock values of 10^-9 seconds.
use interview_assignment.Base.{
  ℕ, zero, suc, ◌*◌, ◌≡◌, refl, if◌then◌else◌, ℤ, pos, negsuc, Decimal, pos_part, ltb_ℤ, leb_ℤ,
  Exception, Result, ok, raised,
}
use interview_assignment.Base.Context.{
  Rounded, dec_of, dec_mul, dec_div, dec_minus, dec_leb, dec_floor, dec_ceil,
}

abbrev pub quantity_decimals : ℕ
quantity_decimals = 8

abbrev pub time_decimals : ℕ
time_decimals = 9

-- Elapsed time is a Decimal of the schedule here: it comes from `effective_slice_elapsed`, which
-- never returns a negative one.
unfoldable pub scheduled_cumulative_quantity : Decimal → Rounded → ℤ → Result Rounded
scheduled_cumulative_quantity total_trade_quantity elapsed_time total_duration =
    if leb_ℤ total_duration (pos 0)
    then raised Exception.value_error
    else if ltb_ℤ total_trade_quantity (pos 0)
    then raised Exception.value_error
    else let duration = dec_of 0 (pos_part total_duration) in
      let clamped = if dec_leb elapsed_time duration then elapsed_time else duration in
      ok (
        dec_div (dec_mul (dec_of quantity_decimals (pos_part total_trade_quantity)) clamped)
          duration)

unfoldable pub effective_slice_elapsed : Decimal → ℤ → ℤ → Result Rounded
effective_slice_elapsed elapsed_time total_duration number_of_slices =
    if leb_ℤ total_duration (pos 0)
    then raised Exception.value_error
    else if leb_ℤ number_of_slices (pos 0)
    then raised Exception.value_error
    else if leb_ℤ elapsed_time (pos 0)
    then ok (dec_of 0 0)
    else let duration = dec_of 0 (pos_part total_duration) in
      let elapsed = dec_of time_decimals (pos_part elapsed_time) in
      if dec_leb duration elapsed
      then ok duration
      else let slice_length = dec_div duration (dec_of 0 (pos_part number_of_slices)) in
        ok (dec_mul slice_length (dec_of 0 (dec_floor (dec_div elapsed slice_length))))

unfoldable pub scheduled_deficit : Rounded → Decimal → Result Rounded
scheduled_deficit scheduled_cumulative confirmed_cumulative_filled =
    if ltb_ℤ confirmed_cumulative_filled (pos 0)
    then raised Exception.value_error
    else ok (dec_minus scheduled_cumulative quantity_decimals confirmed_cumulative_filled)

unfoldable pub safe_child_quantity : Rounded → Decimal → Rounded
safe_child_quantity deficit reserved = dec_minus deficit quantity_decimals reserved

-- `floor_to_step` on a quantity of the schedule: (quantity / step).to_integral_value(FLOOR) * step.
unfoldable pub floor_schedule_to_step : Rounded → Decimal → Result Decimal
floor_schedule_to_step quantity (pos zero) = raised Exception.division_by_zero
floor_schedule_to_step quantity (pos (suc k)) =
    ok (pos (dec_floor (dec_div quantity (dec_of quantity_decimals (suc k))) * suc k))
floor_schedule_to_step quantity (negsuc k) =
    ok (pos (dec_ceil (dec_div quantity (dec_of quantity_decimals (suc k))) * suc k))

-- Half of a schedule of two slices.
half_way :
    effective_slice_elapsed (pos 6_000_000_000) (pos 10) (pos 2)
    ≡ ok (dec_of 27 5_000_000_000_000_000_000_000_000_000)
unfolding effective_slice_elapsed dec_mul dec_div dec_leb dec_floor
half_way = refl
