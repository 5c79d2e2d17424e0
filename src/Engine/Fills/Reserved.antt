-- ===== src/Engine/Fills/Reserved.antt =====
-- `_refresh_reserved_exposure_locked` of src/execution/engine.py: the reserved buckets are rebuilt
-- from the children.
use interview_assignment.Base.{
  ◌≡◌, refl, ◌∙◌, Bool, not, some, List, [], ◌∷◌, if◌then◌else◌, ℤ, pos, ◌+ℤ◌, ◌-ℤ◌, max_ℤ,
  int_laws, ok,
}
use interview_assignment.Execution.Models.{
  ChildOrderStatus, child_is, child_is_terminal, child_is_live,
}
use interview_assignment.Execution.Orders.{
  ChildOrder, remaining_quantity, Exposure, empty_exposure, reserved_exposure,
}
use interview_assignment.Engine.Exposure.{ExposureTracker}
use interview_assignment.Engine.Record.{
  ExecutionRecord, exposure, confirmed, reserved, require_exposure_tracker,
}
use interview_assignment.Engine.Fills.{refresh_reserved_exposure}
use interview_assignment.Engine.Fills.{add_child_exposure, add_children_exposure}

-- What is left of the children whose status satisfies the test: of each, what was submitted less
-- what is filled, and nothing if more is filled.
abbrev pub total_remaining : (ChildOrderStatus → Bool) → List ChildOrder → ℤ
total_remaining p [] = pos 0
total_remaining p (c ∷ cs) =
    (if p c.status
      then max_ℤ (pos 0) (c.submitted_quantity -ℤ c.confirmed_filled_quantity)
      else pos 0)
    +ℤ total_remaining p cs

-- Each bucket of `e'` is that of `e` with what is left of the children in the bucket's statuses.
record Adds (e : Exposure) (cs : List ChildOrder) (e' : Exposure) : Type 0 where
  confirmed : e'.confirmed_filled_quantity ≡ e.confirmed_filled_quantity
  live : e'.live_open_quantity ≡ e.live_open_quantity +ℤ total_remaining child_is_live cs
  submitting :
      e'.pending_submit_quantity
      ≡ e.pending_submit_quantity
        +ℤ total_remaining (λ s. child_is s ChildOrderStatus.pending_submit) cs
  cancelling :
      e'.pending_cancel_quantity
      ≡ e.pending_cancel_quantity
        +ℤ total_remaining (λ s. child_is s ChildOrderStatus.pending_cancel) cs
  uncertain :
      e'.unknown_order_quantity
      ≡ e.unknown_order_quantity +ℤ total_remaining (λ s. child_is s ChildOrderStatus.unknown) cs
  all :
      reserved_exposure e'
      ≡ reserved_exposure e +ℤ total_remaining (λ s. not (child_is_terminal s)) cs

add_child_lem : (e : Exposure) (c : ChildOrder) → Adds e (c ∷ []) (add_child_exposure e c)
unfolding add_child_exposure reserved_exposure remaining_quantity max_ℤ
add_child_lem e c = record {
  confirmed = grind int_laws;
  live = grind int_laws;
  submitting = grind int_laws;
  cancelling = grind int_laws;
  uncertain = grind int_laws;
  all = grind int_laws;
}

add_children_lem : (e : Exposure) (cs : List ChildOrder) → Adds e cs (add_children_exposure e cs)
unfolding add_children_exposure
add_children_lem e [] = record {
  confirmed = refl;
  live = grind int_laws;
  submitting = grind int_laws;
  cancelling = grind int_laws;
  uncertain = grind int_laws;
  all = grind int_laws;
}
add_children_lem e (c ∷ cs) =
    let h = add_child_lem e c in
    let k = add_children_lem (add_child_exposure e c) cs in
    record {
      confirmed = k.confirmed ∙ h.confirmed;
      live = grind (int_laws, h.live, k.live);
      submitting = grind (int_laws, h.submitting, k.submitting);
      cancelling = grind (int_laws, h.cancelling, k.cancelling);
      uncertain = grind (int_laws, h.uncertain, k.uncertain);
      all = grind (int_laws, h.all, k.all);
    }

from_zero : {x y : ℤ} → x ≡ pos 0 +ℤ y → x ≡ y
from_zero h = grind (int_laws, h)

-- The reserved buckets are what is left of the children, each in the bucket of its status, and the
-- rest is as it was.
pub record IsRebuilt (t : ExposureTracker) (cs : List ChildOrder) (u : ExposureTracker)
    : Type 0 where
  pub target : u.target_quantity ≡ t.target_quantity
  pub tolerance : u.permitted_tolerance ≡ t.permitted_tolerance
  pub seen : u.seen_trade_ids ≡ t.seen_trade_ids
  pub confirmed : u.confirmed_filled_quantity ≡ t.confirmed_filled_quantity
  pub live : u.live_open_quantity ≡ total_remaining child_is_live cs
  pub submitting :
      u.pending_submit_quantity
      ≡ total_remaining (λ s. child_is s ChildOrderStatus.pending_submit) cs
  pub cancelling :
      u.pending_cancel_quantity
      ≡ total_remaining (λ s. child_is s ChildOrderStatus.pending_cancel) cs
  pub uncertain :
      u.unknown_order_quantity ≡ total_remaining (λ s. child_is s ChildOrderStatus.unknown) cs

unfoldable pub refreshed_tracker : ExposureTracker → List ChildOrder → ExposureTracker
refreshed_tracker t cs = record t {
  exposure =
      add_children_exposure
        (record empty_exposure { confirmed_filled_quantity = t.confirmed_filled_quantity }) cs;
}

pub refreshed-IsRebuilt :
    (t : ExposureTracker) (cs : List ChildOrder) → IsRebuilt t cs (refreshed_tracker t cs)
unfolding refreshed_tracker
refreshed-IsRebuilt t cs =
    let h =
      add_children_lem
        (record empty_exposure { confirmed_filled_quantity = t.confirmed_filled_quantity }) cs in
    record {
      target = refl;
      tolerance = refl;
      seen = refl;
      confirmed = h.confirmed;
      live = from_zero h.live;
      submitting = from_zero h.submitting;
      cancelling = from_zero h.cancelling;
      uncertain = from_zero h.uncertain;
    }

-- For a record with a tracker the refresh returns and rebuilds the reserved buckets: together they
-- hold what is left of the children that have not ended, each child in the bucket of its status;
-- neither the confirmed quantity nor the children change, whatever the buckets held before.
pub refresh_reserved_exact :
    (t : ExposureTracker) (r : ExecutionRecord)
    → r.exposure_tracker ≡ some t
    → let (x, r') = refresh_reserved_exposure r in
      (x ≡ ok tt)
      × (r'.child_orders ≡ r.child_orders)
      × (confirmed r' ≡ t.confirmed_filled_quantity)
      × ((exposure r').live_open_quantity ≡ total_remaining child_is_live r.child_orders)
      × ((exposure r').pending_submit_quantity
          ≡ total_remaining (λ s. child_is s ChildOrderStatus.pending_submit) r.child_orders)
      × ((exposure r').pending_cancel_quantity
          ≡ total_remaining (λ s. child_is s ChildOrderStatus.pending_cancel) r.child_orders)
      × ((exposure r').unknown_order_quantity
          ≡ total_remaining (λ s. child_is s ChildOrderStatus.unknown) r.child_orders)
      × (reserved r' ≡ total_remaining (λ s. not (child_is_terminal s)) r.child_orders)
unfolding refresh_reserved_exposure require_exposure_tracker reserved_exposure exposure
    add_children_exposure ◌+ℤ◌
refresh_reserved_exact t r e =
    let h =
      add_children_lem
        (record empty_exposure { confirmed_filled_quantity = t.confirmed_filled_quantity })
        r.child_orders in
    rw e (
      refl,
      refl,
      h.confirmed,
      from_zero h.live,
      from_zero h.submitting,
      from_zero h.cancelling,
      from_zero h.uncertain,
      from_zero h.all,
    )
