-- ===== src/Engine/Intervals.antt =====
-- src/execution/engine.py: the intervals of a child's cumulative fill that trades have accounted
-- for. A trade is accepted at an interval that overlaps no earlier one.
pub mod Coverage
use interview_assignment.Base.{
  ℕ, zero, suc, ◌+◌, ◌-◌, ◌*◌, ◌/◌, ◌%◌, ◌≤◌, ◌<◌, String, ◌≡◌, refl, sym, ap, ◌∙◌, ◌≢◌, ◌↔◌, ◌⊎◌,
  inl, inr, Bool, true, false, ◌&&◌, ◌||◌, not, Option, none, some, List, [], ◌∷◌, ◌++◌, map, arith,
  ltb, leb, ◌==◌, if◌then◌else◌, ltb→lt, leb→le, ==_iff, Bool-cases, Option-cases, is_some,
  or_default, ℤ, pos, negsuc, Decimal, pos_part, neg_part, ◌+ℤ◌, ◌-ℤ◌, ◌*ℤ◌, ◌≤ℤ◌, ◌<ℤ◌, ltb_ℤ,
  leb_ℤ, eq_ℤ, int_laws, min_ℤ, max_ℤ, abs_ℤ, neg_ℤ, length, get_elem?, set, remove_at, any, All,
  Text, text_eq, text_eq_iff, text_eq_refl, Exception, ValidationKind, Result, ok, raised, Exec,
  pure, raise, lift, gets, modify, raise_if, ◌>>=◌, ◌>>◌, returns,
}
use interview_assignment.Engine.Record.{Interval}

-- `_fill_interval_is_valid`
unfoldable pub fill_interval_is_valid : Decimal → Decimal → Decimal → Bool
fill_interval_is_valid start end confirmed_limit =
    leb_ℤ (pos 0) start && ltb_ℤ start end && leb_ℤ end confirmed_limit

-- `_fill_interval_overlaps`
unfoldable pub fill_interval_overlaps : Decimal → Decimal → List Interval → Bool
fill_interval_overlaps start end [] = false
fill_interval_overlaps start end ((existing_start, existing_end) ∷ intervals) =
    (ltb_ℤ start existing_end && ltb_ℤ existing_start end)
    || fill_interval_overlaps start end intervals

-- `sorted(intervals)`: by start, then by end.
abbrev pub interval_leb : Interval → Interval → Bool
interval_leb (a, b) (c, d) = ltb_ℤ a c || (eq_ℤ a c && leb_ℤ b d)

unfoldable pub insert_interval : Interval → List Interval → List Interval
insert_interval x [] = x ∷ []
insert_interval x (y ∷ l) = if interval_leb x y then x ∷ y ∷ l else y ∷ insert_interval x l

unfoldable pub sort_intervals : List Interval → List Interval
sort_intervals [] = []
sort_intervals (x ∷ l) = insert_interval x (sort_intervals l)

-- The loop of `_window_local_fill_interval`, with its `break`.
unfoldable pub contiguous_prefix_end : Decimal → List Interval → Decimal
contiguous_prefix_end prefix_end [] = prefix_end
contiguous_prefix_end prefix_end ((start, end) ∷ intervals) =
    let rest = contiguous_prefix_end (if ltb_ℤ prefix_end end then end else prefix_end) intervals in
    if ltb_ℤ prefix_end start then prefix_end else rest

-- `_window_local_fill_interval`
unfoldable pub window_local_fill_interval :
    Decimal → Decimal → Decimal → Decimal → List Interval → Option Text → Option Interval
window_local_fill_interval absolute_start absolute_end trade_delta confirmed_limit intervals
      trade_id =
    if not (is_some trade_id)
      || not (eq_ℤ absolute_start (pos 0))
      || leb_ℤ absolute_end absolute_start
      || leb_ℤ confirmed_limit (pos 0)
    then none
    else let fallback_start = contiguous_prefix_end (pos 0) (sort_intervals intervals) in
      let fallback_end = fallback_start +ℤ trade_delta in
      if leb_ℤ fallback_start (pos 0)
      then none
      else if not (fill_interval_is_valid fallback_start fallback_end confirmed_limit)
          || fill_interval_overlaps fallback_start fallback_end intervals
      then none
      else some (fallback_start, fallback_end)

-- The choice of `_update_child_cumulative_fill_locked`: the interval that the exchange reports, or
-- the one behind the contiguous prefix, or none.
unfoldable pub accepted_interval :
    Decimal → Decimal → Decimal → List Interval → Option Text → Option Interval
accepted_interval interval_end trade_delta interval_limit intervals trade_id =
    let interval_start = interval_end -ℤ trade_delta in
    if fill_interval_is_valid interval_start interval_end interval_limit
      && not (fill_interval_overlaps interval_start interval_end intervals)
    then some (interval_start, interval_end)
    else window_local_fill_interval interval_start interval_end trade_delta interval_limit intervals
        trade_id

-- One round of `_covered_interval_quantity`: the quantity covered so far, the point up to which it
-- is covered, and whether the loop breaks.
unfoldable pub cover : Decimal → Interval → Decimal → Decimal → Decimal × Decimal × Bool
cover confirmed_quantity (start, end) covered covered_until =
    let clipped_start = max_ℤ start (pos 0) in
    let clipped_end = min_ℤ end confirmed_quantity in
    let uncovered_start =
      if ltb_ℤ clipped_start covered_until then covered_until else clipped_start in
    if leb_ℤ clipped_end clipped_start || leb_ℤ clipped_end uncovered_start
    then (covered, covered_until, false)
    else (
      covered +ℤ (clipped_end -ℤ uncovered_start),
      clipped_end,
      leb_ℤ confirmed_quantity clipped_end,
    )

unfoldable pub cover_all : Decimal → List Interval → Decimal → Decimal → Decimal
cover_all confirmed_quantity [] covered covered_until = covered
cover_all confirmed_quantity (interval ∷ intervals) covered covered_until =
    let (covered', until', stop) = cover confirmed_quantity interval covered covered_until in
    let rest = cover_all confirmed_quantity intervals covered' until' in
    if stop then covered' else rest

-- `_covered_interval_quantity`
unfoldable pub covered_interval_quantity : List Interval → Decimal → Decimal
unfolding cover cover_all
covered_interval_quantity intervals confirmed_quantity =
    cover_all confirmed_quantity (sort_intervals intervals) (pos 0) (pos 0)
