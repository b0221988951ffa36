-- ===== src/Order/Transition/Dispatch.antt =====
-- What `dispatch` asks for (apps/api/src/modules/orders/postgres-order-repository.ts).
use automatizacion_wh.Common.{
  ℕ, ◌≡◌, refl, ap, subst, Bool, true, false, ◌&&◌, some, Unicode, ok, or_throw, ◌==◌, ==_iff,
  order_conflict, or_throw-eq-ok, >>=-eq-ok, select_one, select_one-Mem, arith,
}
use mathlib.Core.List.{Memᴰ}
use automatizacion_wh.Database.{Db}
use automatizacion_wh.Database.Orders.{Order, OrderStatus, confirmed}
use automatizacion_wh.Database.Guides.{
  GuideJob, GuideJobStatus, created, pending, processing, uncertain, failed,
}
use automatizacion_wh.Order.State.{dispatch, transitions, assert_transition}
use automatizacion_wh.Order.Rows.{OrderRecord, lock_order}
use automatizacion_wh.Order.Transition.Confirm.{Env, TransitionInput}
use automatizacion_wh.Order.Transition.Moves.{dispatch_order, is_created}
use automatizacion_wh.Order.Transition.{
  apply_action, apply_transition, transition_locked, transition, is_confirm, is_confirmed,
}
use automatizacion_wh.Order.Ledger.Transitions.{lock_order_found}

-- The order has a guide that the carrier has issued.
abbrev pub HasGuide : Db → ℕ → Type 0
HasGuide db order_id =
    (job : GuideJob) × Memᴰ job db.guide_jobs × (job.order_id ≡ order_id) × (job.status ≡ created)

created_only : (s : GuideJobStatus) → is_created s ≡ true → s ≡ created
created_only pending e = cc
created_only processing e = cc
created_only created e = refl
created_only uncertain e = cc
created_only failed e = cc

dispatch_order_guide :
    (db : Db) (order : Order) (next : OrderStatus) {db' : Db}
    → dispatch_order db order next ≡ ok db'
    → HasGuide db order.id
unfolding dispatch_order
dispatch_order_guide db order next e =
    let test : GuideJob → Bool = λ j. j.order_id == order.id && is_created j.status in
    let (job, e₁, r₁) =
      >>=-eq-ok
        (or_throw (select_one test db.guide_jobs) (order_conflict "shipping_guide_required")) _ e in
    let found = or_throw-eq-ok (select_one test db.guide_jobs) _ e₁ in
    let (m, sound) = select_one-Mem test db.guide_jobs found in
    let both : ((job.order_id == order.id) ≡ true) × (is_created job.status ≡ true) =
      ground (arith, sound) in
    (job, m, (==_iff job.order_id order.id).0 both.0, created_only job.status both.1)

only_confirmed :
    (s : OrderStatus) {n : OrderStatus} → transitions s dispatch ≡ some n → s ≡ confirmed
unfolding transitions
only_confirmed s e = ground arith

locked_dispatch :
    (env : Env) (u : Unicode) (db : Db) (order : Order) (input : TransitionInput) {db' : Db}
    {mapped : OrderRecord}
    → input.action ≡ dispatch
    → transition_locked env u db order input ≡ ok (db', mapped)
    → (order.status ≡ confirmed) × HasGuide db order.id
unfolding transition_locked apply_transition assert_transition apply_action
locked_dispatch env u db order input a e =
    let (db₁, e₂, r₂) = >>=-eq-ok (apply_transition env u db order input) _ e in
    let (next, e₃, r₃) = >>=-eq-ok (assert_transition order.status input.action) _ e₂ in
    let (db₂, e₄, r₄) =
      >>=-eq-ok (apply_action env u db order next input input.action order.status) _ r₃ in
    let t = or_throw-eq-ok (transitions order.status input.action) _ e₃ in
    let ran : dispatch_order db order next ≡ ok db₂ =
      subst (λ x. apply_action env u db order next input x order.status ≡ ok db₂) a e₄ in
    (
      only_confirmed order.status (subst (λ x. transitions order.status x ≡ some next) a t),
      dispatch_order_guide db order next ran,
    )

-- Only a confirmed order with an issued guide is dispatched: if `transition` succeeds with `dispatch`,
-- the row of the order was confirmed and a guide job of this order was `created`.
pub dispatch_needs_guide :
    (env : Env) (u : Unicode) (db : Db) (input : TransitionInput) {db' : Db} {mapped : OrderRecord}
    → input.action ≡ dispatch
    → transition env u db input ≡ ok (db', mapped)
    → (order : Order) × (lock_order db input.order_id ≡ ok order)
      × (order.status ≡ confirmed)
      × HasGuide db input.order_id
unfolding transition
dispatch_needs_guide env u db input {db'} {mapped} a e =
    let (order, e₁, r₁) = >>=-eq-ok (lock_order db input.order_id) _ e in
    let (same, found) = lock_order_found db input.order_id e₁ in
    let first : (is_confirm input.action && is_confirmed order.status) ≡ false =
      ap (λ x. is_confirm x && is_confirmed order.status) a in
    let (s, g) = locked_dispatch env u db order input a (rw first at r₁) in
    (order, e₁, s, subst (HasGuide db) same g)
