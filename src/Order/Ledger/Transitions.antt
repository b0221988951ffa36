-- ===== src/Order/Ledger/Transitions.antt =====
-- The books over `transition`: they stay balanced, and no unit appears or disappears.
use automatizacion_wh.Common.{
  ℕ, ◌≡◌, refl, sym, ap, subst, ◌⊎◌, inl, inr, some, Unicode, Result, ok, ◌&&◌, Bool-cases,
  >>=-eq-ok, or_throw-eq-ok, ok-injective, ==_iff, select_one, select_one_sound, arith,
}
use automatizacion_wh.Database.{Db}
use automatizacion_wh.Database.Orders.{
  Order, OrderStatus, draft, confirmed, cancelled, dispatched, delivered, returned,
}
use automatizacion_wh.Order.State.{
  OrderAction, confirm, cancel, dispatch, deliver, return, transitions, assert_transition,
}
use automatizacion_wh.Order.Rows.{OrderRecord, is_order, lock_order, require_mapped, set_status}
use automatizacion_wh.Order.Transition.Confirm.{Env, TransitionInput, confirm_order}
use automatizacion_wh.Order.Transition.Moves.{cancel_confirmed, dispatch_order, return_order}
use automatizacion_wh.Order.Transition.{
  confirm_again, apply_action, record_event, apply_transition, transition_locked, transition,
  is_confirm, is_confirmed,
}
use automatizacion_wh.Order.Ledger.{held, out, IsConsistent, units}
use automatizacion_wh.Order.Ledger.Laws.{effect-IsConsistent, effect-units}
use automatizacion_wh.Order.Ledger.Branches.{
  Writes, status_write, confirm_order-Writes, cancel_confirmed-Writes, dispatch_order-Writes,
  return_order-Writes,
}

-- The row under the lock is the one that its own id finds.
pub lock_order_found :
    (db : Db) (order_id : ℕ) {order : Order}
    → lock_order db order_id ≡ ok order
    → (order.id ≡ order_id) × (select_one (is_order order.id) db.orders ≡ some order)
unfolding lock_order
lock_order_found db order_id {order} e =
    let found = or_throw-eq-ok (select_one (is_order order_id) db.orders) _ e in
    let same =
      (==_iff order.id order_id).0 (select_one_sound (is_order order_id) db.orders found) in
    (same, subst (λ k. select_one (is_order k) db.orders ≡ some order) (sym same) found)

module _ (env : Env) (u : Unicode) (db : Db) (order : Order) (input : TransitionInput)
    (found : select_one (is_order order.id) db.orders ≡ some order) where
  status_only :
      (next : OrderStatus) {db' : Db}
      → ok (set_status db order.id next) ≡ ok db'
      → held next order.quantity ≡ held order.status order.quantity
      → out next order.quantity ≡ out order.status order.quantity
      → Writes db db' order next
  unfolding set_status
  status_only next {db'} e h o = (
    status_write order next db.orders db'.orders found (ground arith),
    inr (record { kept = ground arith; held_same = h; out_same = o }),
  )

  at_next :
      {k next : OrderStatus} {db' : Db}
      → k ≡ next
      → (f : OrderStatus → Result Db) → (f k ≡ ok db' → Writes db db' order k)
      → f next ≡ ok db'
      → Writes db db' order next
  at_next {db' = d} p f h e = subst (λ n. f n ≡ ok d → Writes db d order n) p h e

  -- The status is taken apart beside the action.
  apply_action-Writes :
      (status next : OrderStatus) (action : OrderAction) {db' : Db}
      → order.status ≡ status
      → transitions status action ≡ some next
      → apply_action env u db order next input action status ≡ ok db'
      → Writes db db' order next
  unfolding apply_action transitions
  apply_action-Writes draft next confirm s t e =
      at_next (cc) (λ n. confirm_order env u db order n input)
        (confirm_order-Writes db order found env u input s) e
  apply_action-Writes draft next cancel s t e = status_only next e (ground arith) (ground arith)
  apply_action-Writes draft next dispatch s t e = cc
  apply_action-Writes draft next deliver s t e = cc
  apply_action-Writes draft next return s t e = cc
  apply_action-Writes confirmed next confirm s t e = cc
  apply_action-Writes confirmed next cancel s t e =
      at_next (cc) (cancel_confirmed db order) (cancel_confirmed-Writes db order found s) e
  apply_action-Writes confirmed next dispatch s t e =
      at_next (cc) (dispatch_order db order) (dispatch_order-Writes db order found s) e
  apply_action-Writes confirmed next deliver s t e = cc
  apply_action-Writes confirmed next return s t e = cc
  apply_action-Writes cancelled next action s t e = cc
  apply_action-Writes dispatched next deliver s t e =
      status_only next e (ground arith) (ground arith)
  apply_action-Writes dispatched next return s t e =
      at_next (cc) (return_order db order) (return_order-Writes db order found (inl s)) e
  apply_action-Writes dispatched next confirm s t e = cc
  apply_action-Writes dispatched next cancel s t e = cc
  apply_action-Writes dispatched next dispatch s t e = cc
  apply_action-Writes delivered next return s t e =
      at_next (cc) (return_order db order) (return_order-Writes db order found (inr s)) e
  apply_action-Writes delivered next confirm s t e = cc
  apply_action-Writes delivered next cancel s t e = cc
  apply_action-Writes delivered next dispatch s t e = cc
  apply_action-Writes delivered next deliver s t e = cc
  apply_action-Writes returned next action s t e = cc

  pub apply_transition-Writes :
      {db' : Db}
      → apply_transition env u db order input ≡ ok db'
      → (next : OrderStatus) × (transitions order.status input.action ≡ some next)
        × Writes db db' order next
  unfolding apply_transition record_event assert_transition
  apply_transition-Writes e =
      let (next, e₁, r₁) = >>=-eq-ok (assert_transition order.status input.action) _ e in
      let (db₁, e₂, r₂) =
        >>=-eq-ok (apply_action env u db order next input input.action order.status) _ r₁ in
      let t = or_throw-eq-ok (transitions order.status input.action) _ e₁ in
      let w = apply_action-Writes order.status next input.action {db' = db₁} refl t e₂ in
      (next, t, subst (λ d. Writes db d order next) (ok-injective r₂) w)

-- What a transition that succeeds has done: nothing but to answer again, or a write along an entry of
-- the table of transitions.
pub record Moved (db db' : Db) (input : TransitionInput) : Type 0 where
  pub order : Order
  pub next : OrderStatus
  pub same_id : order.id ≡ input.order_id
  pub allowed : transitions order.status input.action ≡ some next
  pub writes : Writes db db' order next

confirm_again_lem :
    (db : Db) (order : Order) (input : TransitionInput) {db' : Db} {mapped : OrderRecord}
    → confirm_again db order input ≡ ok (db', mapped)
    → db' ≡ db
unfolding confirm_again
confirm_again_lem db order input e = ground arith

pub transition_cases :
    (env : Env) (u : Unicode) (db : Db) (input : TransitionInput) {db' : Db} {mapped : OrderRecord}
    → transition env u db input ≡ ok (db', mapped)
    → (db' ≡ db) ⊎ Moved db db' input
unfolding transition transition_locked
transition_cases env u db input {db'} {mapped} e =
    let (order, e₁, r₁) = >>=-eq-ok (lock_order db input.order_id) _ e in
    let (same, found) = lock_order_found db input.order_id e₁ in
    elim (Bool-cases (is_confirm input.action && is_confirmed order.status)) [
      | inl again ↦ inl (confirm_again_lem db order input (rw again at r₁))
      | inr first ↦
          let (db₁, e₂, r₂) =
            >>=-eq-ok (apply_transition env u db order input) _ (rw first at r₁) in
          let (updated, e₃, r₃) = >>=-eq-ok (lock_order db₁ order.id) _ r₂ in
          let (m, e₄, r₄) = >>=-eq-ok (require_mapped db₁ updated) _ r₃ in
          let (next, allowed, w) = apply_transition-Writes env u db order input found e₂ in
          let same_db : db₁ ≡ db' = ap (λ p. p.0) (ok-injective r₄) in
          inr (record {
            order = order;
            next = next;
            same_id = same;
            allowed = allowed;
            writes = subst (λ d. Writes db d order next) same_db w;
          })
    ]

-- A transition that succeeds keeps the books: if the keys are unique, no stock row reserves more than
-- it has, and the reserved units of each reference and size are those of the confirmed orders, then
-- all this holds of the new database too.
pub transition-IsConsistent :
    (env : Env) (u : Unicode) (db : Db) (input : TransitionInput) {db' : Db} {mapped : OrderRecord}
    → IsConsistent db
    → transition env u db input ≡ ok (db', mapped)
    → IsConsistent db'
transition-IsConsistent env u db input {db'} c e = elim (transition_cases env u db input e) [
  | inl same ↦ subst IsConsistent (sym same) c
  | inr m ↦ effect-IsConsistent db db' m.writes.0 c m.writes.1
]

-- A transition that succeeds neither makes nor loses units: for each reference and size, the physical
-- units and those of the dispatched and delivered orders have the same sum after it, if the books are
-- in order before it.
pub transition-units :
    (env : Env) (u : Unicode) (db : Db) (input : TransitionInput) {db' : Db} {mapped : OrderRecord}
    → IsConsistent db
    → transition env u db input ≡ ok (db', mapped)
    → (r z : ℕ) → units db' r z ≡ units db r z
transition-units env u db input {db'} c e r z = elim (transition_cases env u db input e) [
  | inl same ↦ ap (λ d. units d r z) same
  | inr m ↦ effect-units db db' m.writes.0 c m.writes.1 r z
]
