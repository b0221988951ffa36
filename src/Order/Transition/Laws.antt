-- ===== src/Order/Transition/Laws.antt =====
-- What single transitions promise (apps/api/src/modules/orders/postgres-order-repository.ts).
use automatizacion_wh.Common.{
  ◌≡◌, refl, sym, ap, subst, ◌∙◌, inl, inr, true, ◌&&◌, Option, none, some, List, [], ◌∷◌, Text,
  text_eq, text_eq_iff, Unicode, ok, order_not_found, or_throw-eq-ok, ok-injective, >>=-eq-ok,
  or_else, ==_iff, Bool-cases, select_one, select_one-update_where, arith,
}
use automatizacion_wh.Database.{Db}
use automatizacion_wh.Database.Orders.{Order, OrderStatus, confirmed, Summary, Confirmation}
use automatizacion_wh.Database.Guides.{ShippingQuote}
use automatizacion_wh.Database.Stock.{StockRow}
use automatizacion_wh.Order.State.{assert_transition, confirm, transitions}
use automatizacion_wh.Order.Rows.{OrderRecord, is_order, lock_order, require_mapped}
use automatizacion_wh.Order.Transition.Confirm.{
  Env, TransitionInput, has_key, record_confirmation, reserve_stock, enqueue_guide_job,
  open_confirmed_alert, set_confirmed, confirm_order,
}
use automatizacion_wh.Order.Transition.{
  confirm_again, apply_action, record_event, apply_transition, transition_locked, transition,
  is_confirm, is_confirmed, is_for_order,
}
use automatizacion_wh.Order.Ledger.Branches.{confirm_order_parts}
use automatizacion_wh.Order.Ledger.Transitions.{apply_transition-Writes, lock_order_found}

-- The row that a transition returns is the row of the new database.
transition_row :
    (env : Env) (u : Unicode) (db : Db) (order : Order) (input : TransitionInput) {db' : Db}
    {mapped : OrderRecord}
    → transition_locked env u db order input ≡ ok (db', mapped)
    → (updated : Order) × (apply_transition env u db order input ≡ ok db')
      × (lock_order db' order.id ≡ ok updated)
      × (require_mapped db' updated ≡ ok mapped)
unfolding transition_locked
transition_row env u db order input {db'} {mapped} e =
    let (db₁, e₂, r₂) = >>=-eq-ok (apply_transition env u db order input) _ e in
    let (updated, e₃, r₃) = >>=-eq-ok (lock_order db₁ order.id) _ r₂ in
    let (m, e₄, r₄) = >>=-eq-ok (require_mapped db₁ updated) _ r₃ in
    let same : db₁ ≡ db' = ap (λ p. p.0) (ok-injective r₄) in
    let same_m : m ≡ mapped = ap (λ p. p.1) (ok-injective r₄) in
    (
      updated,
      e₂ ∙ ap ok same,
      subst (λ d. lock_order d order.id ≡ ok updated) same e₃,
      subst (λ d. require_mapped d updated ≡ ok mapped) same (e₄ ∙ ap ok same_m),
    )

-- A transition by `confirm` that is not an answer again has run `confirm_order`.
confirm_applied :
    (env : Env) (u : Unicode) (db : Db) (order : Order) (input : TransitionInput) {db' : Db}
    → input.action ≡ confirm
    → apply_transition env u db order input ≡ ok db'
    → (next : OrderStatus) × (db₁ : Db) × (transitions order.status confirm ≡ some next)
      × (confirm_order env u db order next input ≡ ok db₁)
      × (db' ≡ record_event db₁ order next input.admin_user_id)
unfolding apply_transition assert_transition apply_action
confirm_applied env u db order input a e =
    let (next, e₁, r₁) = >>=-eq-ok (assert_transition order.status input.action) _ e in
    let (db₁, e₂, r₂) =
      >>=-eq-ok (apply_action env u db order next input input.action order.status) _ r₁ in
    (
      next,
      db₁,
      subst (λ x. transitions order.status x ≡ some next) a (or_throw-eq-ok _ _ e₁),
      subst (λ x. apply_action env u db order next input x order.status ≡ ok db₁) a e₂,
      sym (ok-injective r₂),
    )

-- The first confirmation under a key, the missing key read as the empty text.
abbrev by_key : Option Text → Db → Option Confirmation
by_key key db = select_one (λ c. text_eq c.idempotency_key (or_else key [])) db.confirmations

no_key : (xs : List Confirmation) → select_one (has_key none) xs ≡ none
unfolding select_one
no_key [] = refl
no_key (x ∷ xs) = no_key xs

record_confirmation_key :
    (db : Db) (order : Order) (summary : Summary) (key : Option Text) {db' : Db}
    → record_confirmation db order summary key ≡ ok db'
    → is_for_order (by_key key db') order.id ≡ true
unfolding record_confirmation select_one
record_confirmation_key db order summary none e = ground (arith, no_key db.confirmations)
record_confirmation_key db order summary (some k) e =
    ground (arith, (text_eq_iff k k).1 refl, (==_iff order.id order.id).1 refl)

kept_confirmations :
    (env : Env) (db : Db) (order : Order) (next : OrderStatus) (summary : Summary)
    (quote : ShippingQuote) (stock : StockRow)
    → (open_confirmed_alert
        (enqueue_guide_job env
          (set_confirmed (reserve_stock db order stock) order next summary)
          order
          summary
          quote)
        order).confirmations
      ≡ db.confirmations
unfolding open_confirmed_alert enqueue_guide_job set_confirmed reserve_stock
kept_confirmations env db order next summary quote stock = ground arith

-- What follows the record of the confirmation leaves the confirmations alone.
confirm_order_key :
    (env : Env) (u : Unicode) (db : Db) (order : Order) (next : OrderStatus)
    (input : TransitionInput) {db' : Db}
    → confirm_order env u db order next input ≡ ok db'
    → is_for_order (by_key input.idempotency_key db') order.id ≡ true
confirm_order_key env u db order next input {db'} e =
    let (summary, quote, stock, db₁, e₂, e₃, r) = confirm_order_parts env u db order next input e in
    let k = record_confirmation_key db order summary input.idempotency_key e₃ in
    let same : db'.confirmations ≡ db₁.confirmations =
      ap (λ d. d.confirmations) r ∙ kept_confirmations env db₁ order next summary quote stock in
    subst
      (λ cs.
        is_for_order
          (select_one (λ c. text_eq c.idempotency_key (or_else input.idempotency_key [])) cs)
          order.id
        ≡ true)
      (sym same) k

-- An order that is confirmed under the key answers again.
answers_again :
    (env : Env) (u : Unicode) (db : Db) (order : Order) (input : TransitionInput)
    {mapped : OrderRecord}
    → lock_order db input.order_id ≡ ok order
    → (is_confirm input.action && is_confirmed order.status) ≡ true
    → confirm_again db order input ≡ ok (db, mapped)
    → transition env u db input ≡ ok (db, mapped)
unfolding transition
answers_again env u db order input found t again = rw (found, t) again

only_confirmed :
    (status : OrderStatus) {next : OrderStatus}
    → transitions status confirm ≡ some next
    → next ≡ confirmed
unfolding transitions
only_confirmed s e = ground arith

confirmed_now :
    (env : Env) (u : Unicode) (db : Db) (order : Order) (input : TransitionInput) {db' : Db}
    {updated : Order}
    → select_one (is_order order.id) db.orders ≡ some order
    → input.action ≡ confirm
    → apply_transition env u db order input ≡ ok db'
    → lock_order db' order.id ≡ ok updated
    → (updated.status ≡ confirmed)
      × (updated.id ≡ order.id)
      × (is_for_order (by_key input.idempotency_key db') order.id ≡ true)
unfolding record_event lock_order
confirmed_now env u db order input {db'} {updated} found a e l =
    let (next, db₁, allowed, ran, r) = confirm_applied env u db order input a e in
    let (n, allowed₂, w) = apply_transition-Writes env u db order input found e in
    let at_new =
      select_one-update_where (is_order order.id) w.0.write db.orders {a = order}
        (λ b h. rw (w.0.same_id b) h) found in
    let there : select_one (is_order order.id) db'.orders ≡ some (w.0.write order) =
      ap (select_one (is_order order.id)) w.0.written ∙ at_new in
    let got = or_throw-eq-ok (select_one (is_order order.id) db'.orders) order_not_found l in
    let same : updated ≡ w.0.write order = cc (got, there) in
    let status_now : updated.status ≡ n = ap (λ o. o.status) same ∙ w.0.status in
    let n_confirmed : n ≡ confirmed =
      only_confirmed order.status (subst (λ x. transitions order.status x ≡ some n) a allowed₂) in
    let key_now = confirm_order_key env u db order next input ran in
    (
      status_now ∙ n_confirmed,
      ap (λ o. o.id) same ∙ w.0.same_id order,
      subst (λ d. is_for_order (by_key input.idempotency_key d) order.id ≡ true) (sym r) key_now,
    )

-- The answer of `confirm_again` when its guard passes.
again_ok :
    (db : Db) (order : Order) (input : TransitionInput) {mapped : OrderRecord}
    → is_for_order (by_key input.idempotency_key db) order.id ≡ true
    → require_mapped db order ≡ ok mapped
    → confirm_again db order input ≡ ok (db, mapped)
unfolding confirm_again
again_ok db order input g m = rw (g, m) refl

again_kept :
    (db : Db) (order : Order) (input : TransitionInput) {db' : Db} {mapped : OrderRecord}
    → confirm_again db order input ≡ ok (db', mapped)
    → db ≡ db'
unfolding confirm_again
again_kept db order input e = ground arith

repeats :
    (env env' : Env) (u : Unicode) (db : Db) (order : Order) (input : TransitionInput) {db' : Db}
    {mapped : OrderRecord}
    → input.action ≡ confirm
    → lock_order db input.order_id ≡ ok order
    → transition_locked env u db order input ≡ ok (db', mapped)
    → transition env' u db' input ≡ ok (db', mapped)
repeats env env' u db order input {db'} {mapped} a locked e =
    let (same, found) = lock_order_found db input.order_id locked in
    let (updated, applied, l, m) = transition_row env u db order input e in
    let (s, k, key) = confirmed_now env u db order input found a applied l in
    let l' : lock_order db' input.order_id ≡ ok updated =
      subst (λ n. lock_order db' n ≡ ok updated) same l in
    let key' : is_for_order (by_key input.idempotency_key db') updated.id ≡ true =
      subst (λ n. is_for_order (by_key input.idempotency_key db') n ≡ true) (sym k) key in
    answers_again env' u db' updated input l' (rw (a, s) refl) (again_ok db' updated input key' m)

-- A confirmation may be sent again: if `transition` succeeds with `confirm`, the same request in the
-- new database, at any later time and with any new keys, succeeds with the same row and writes
-- nothing.
pub confirm_idempotent :
    (env env' : Env) (u : Unicode) (db : Db) (input : TransitionInput) {db' : Db}
    {mapped : OrderRecord}
    → input.action ≡ confirm
    → transition env u db input ≡ ok (db', mapped)
    → transition env' u db' input ≡ ok (db', mapped)
unfolding transition
confirm_idempotent env env' u db input {db'} {mapped} a e =
    let (order, e₁, r₁) = >>=-eq-ok (lock_order db input.order_id) _ e in
    elim (Bool-cases (is_confirm input.action && is_confirmed order.status)) [
      | inl again ↦
          let r : confirm_again db order input ≡ ok (db', mapped) = rw again at r₁ in
          let same = again_kept db order input r in
          subst (λ d. transition env' u d input ≡ ok (db', mapped)) same
            (subst (λ d. transition env' u db input ≡ ok (d, mapped)) same
              (answers_again env' u db order input e₁ again
                (subst (λ d. confirm_again db order input ≡ ok (d, mapped)) (sym same) r)))
      | inr first ↦ repeats env env' u db order input a e₁ (rw first at r₁)
    ]
