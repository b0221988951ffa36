-- ===== src/Order/Patch/Laws.antt =====
-- An edit of a draft (`update` and `reuseDestination` of
-- apps/api/src/modules/orders/postgres-order-repository.ts).
use automatizacion_wh.Common.{
  ℕ, ◌≡◌, refl, sym, ap, subst, ◌∙◌, Bool, true, false, not, ◌&&◌, Option, none, some, Text,
  Unicode, inl, inr, ok, guard, guard-eq-ok, order_conflict, or_throw, or_throw-eq-ok, >>=-eq-ok,
  ok-injective, Bool-cases, select_one, update_where, arith,
}
use automatizacion_wh.Database.{Db}
use automatizacion_wh.Database.Orders.{Order}
use automatizacion_wh.Order.Rows.{OrderRecord, is_order, require_mapped}
use automatizacion_wh.Order.Summaries.{is_draft}
use automatizacion_wh.Order.Drafts.{SameContact, same_identity-SameContact}
use automatizacion_wh.Order.Transition.Confirm.{Env}
use automatizacion_wh.Order.Edit.{Change, keep, set_to, PatchInput}
use automatizacion_wh.Order.Edit.Laws.{resolve_customer_contact_frame}
use automatizacion_wh.Order.Patch.{
  EditValues, edit_values, editable_order, write_edit, store_edit, LocalityChange, keep_locality,
  set_locality, phone_after, is_unlinked, rename_contact, relink, patched, draft_row, update,
  ReuseInput, is_anonymized, sets_personal_data, is_reusable, reused, reuse_destination,
}
use automatizacion_wh.Order.Ledger.{IsConsistent}
use automatizacion_wh.Order.Ledger.Kept.{KeepsBooks, rewrite-IsConsistent}

rename_contact_frame :
    (env : Env) (u : Unicode) (db : Db) (phone : Option Text) (name : Change) (id : Option ℕ)
    → ((rename_contact env u db phone name id).0.orders ≡ db.orders)
      × ((rename_contact env u db phone name id).0.stock ≡ db.stock)
rename_contact_frame env u db none name id = (refl, refl)
rename_contact_frame env u db (some phone) keep id = (refl, refl)
rename_contact_frame env u db (some phone) (set_to v) none = (refl, refl)
rename_contact_frame env u db (some phone) (set_to v) (some id) =
    resolve_customer_contact_frame u env.new_customer_id db phone v

relink_frame :
    (env : Env) (u : Unicode) (db : Db) (order : Order) (input : PatchInput) (phone : Change)
    → ((relink env u db order input phone).0.orders ≡ db.orders)
      × ((relink env u db order input phone).0.stock ≡ db.stock)
unfolding relink
relink_frame env u db order input phone = elim (Bool-cases (is_unlinked order phone)) [
  | inl gone ↦ rw gone (refl, refl)
  | inr stays ↦ rw stays (
      rename_contact_frame env u db (phone_after phone order.customer_phone) input.customer_name
        order.customer_id)
]

patched-KeepsBooks :
    (input : PatchInput) (phone : Change) (l : LocalityChange) (id : Option ℕ)
    → KeepsBooks (patched input phone l id)
unfolding patched
patched-KeepsBooks input phone keep_locality id = record {
  same_id = λ o. refl;
  same_reference = λ o. refl;
  same_size = λ o. refl;
  same_quantity = λ o. refl;
  same_status = λ o. refl;
}
patched-KeepsBooks input phone (set_locality l) id = record {
  same_id = λ o. refl;
  same_reference = λ o. refl;
  same_size = λ o. refl;
  same_quantity = λ o. refl;
  same_status = λ o. refl;
}

draft_row_lem :
    (o : Option Order) {order : Order}
    → draft_row o ≡ some order
    → (o ≡ some order) × (is_draft order.status ≡ true)
draft_row_lem none e = cc
draft_row_lem (some o) e = ground arith

editable_order_lem :
    (observed db : Db) (input : PatchInput) {order : Order}
    → editable_order observed db input ≡ ok order
    → (select_one (is_order input.order_id) db.orders ≡ some order)
      × (is_draft order.status ≡ true)
      × SameContact (select_one (is_order input.order_id) observed.orders) order
      × ((is_anonymized db order.customer_id && sets_personal_data input) ≡ false)
unfolding editable_order
editable_order_lem observed db input {order} e =
    let (o, e₁, r₁) =
      >>=-eq-ok (or_throw (draft_row (select_one (is_order input.order_id) db.orders)) _) _ e in
    let (passed, e₂, r₂) = >>=-eq-ok (guard _ (order_conflict "customer_identity_mismatch")) _ r₁ in
    let same : o ≡ order = ok-injective r₂ in
    let (found, open_row) =
      draft_row_lem (select_one (is_order input.order_id) db.orders)
        (or_throw-eq-ok _ _ e₁ ∙ ap some same) in
    let (contact, personal) = contact_tests _ _ (guard-eq-ok _ _ e₂) in
    (
      found,
      open_row,
      subst (SameContact (select_one (is_order input.order_id) observed.orders)) same
          (same_identity-SameContact _ o contact),
      subst (λ x. (is_anonymized db x.customer_id && sets_personal_data input) ≡ false) same
          personal,
    )
  where
    contact_tests : (a b : Bool) → (a && not b) ≡ true → (a ≡ true) × (b ≡ false)
    contact_tests a b e = ground arith

-- What an edit that succeeds has written: the draft's row, by `patched`.
pub record Edited (observed db : Db) (input : PatchInput) (db' : Db) : Type 0 where
  pub order : Order
  pub values : EditValues
  pub customer_id : Option ℕ
  pub found : select_one (is_order input.order_id) db.orders ≡ some order
  pub is_open : is_draft order.status ≡ true
  pub same_contact : SameContact (select_one (is_order input.order_id) observed.orders) order
  pub personal : (is_anonymized db order.customer_id && sets_personal_data input) ≡ false
  pub orders :
      db'.orders
      ≡ update_where
          (λ o. is_order input.order_id o && is_draft o.status)
          (patched input values.phone values.locality customer_id)
          db.orders
  pub stock : db'.stock ≡ db.stock

store_edit_lem :
    (env : Env) (u : Unicode) (observed db : Db) (input : PatchInput) (values : EditValues)
    (order : Order) {r : Db × OrderRecord}
    → store_edit env u db input values order ≡ ok r
    → select_one (is_order input.order_id) db.orders ≡ some order
    → is_draft order.status ≡ true
    → SameContact (select_one (is_order input.order_id) observed.orders) order
    → (is_anonymized db order.customer_id && sets_personal_data input) ≡ false
    → Edited observed db input r.0
unfolding store_edit write_edit
store_edit_lem env u observed db input values order {r} e found open_row contact personal =
    let linked = relink env u db order input values.phone in
    let frame = relink_frame env u db order input values.phone in
    let (m, e₁, r₁) =
      >>=-eq-ok
        (require_mapped (write_edit linked.0 input values linked.1)
          (patched input values.phone values.locality linked.1 order))
        (λ mapped. ok (write_edit linked.0 input values linked.1, mapped)) e in
    let same : write_edit linked.0 input values linked.1 ≡ r.0 = ap (λ x. x.0) (ok-injective r₁) in
    record {
      order = order;
      values = values;
      customer_id = linked.1;
      found = found;
      is_open = open_row;
      same_contact = contact;
      personal = personal;
      orders =
          ap (λ d. d.orders) (sym same)
          ∙ ap
              (update_where (λ o. is_order input.order_id o && is_draft o.status)
                (patched input values.phone values.locality linked.1))
              frame.0;
      stock = ap (λ d. d.stock) (sym same) ∙ frame.1;
    }

pub update_lem :
    (env : Env) (u : Unicode) (observed db : Db) (input : PatchInput) {r : Db × OrderRecord}
    → update env u observed db input ≡ ok r
    → Edited observed db input r.0
unfolding update
update_lem env u observed db input {r} e =
    let (values, e₁, r₁) = >>=-eq-ok (edit_values observed input) _ e in
    let (order, e₂, r₂) = >>=-eq-ok (editable_order observed db input) _ r₁ in
    let (found, open_row, contact, personal) = editable_order_lem observed db input e₂ in
    store_edit_lem env u observed db input values order r₂ found open_row contact personal

-- An edit of a draft that `update` stores keeps the books: if the database is consistent before it, it
-- is consistent after it, whatever the database was when the edit was begun.
pub update-IsConsistent :
    (env : Env) (u : Unicode) (observed db : Db) (input : PatchInput) {r : Db × OrderRecord}
    → IsConsistent db
    → update env u observed db input ≡ ok r
    → IsConsistent r.0
update-IsConsistent env u observed db input {r} c e =
    let w = update_lem env u observed db input e in
    rewrite-IsConsistent db r.0 c w.stock (λ o. is_order input.order_id o && is_draft o.status)
      (patched input w.values.phone w.values.locality w.customer_id)
      (patched-KeepsBooks input w.values.phone w.values.locality w.customer_id) w.orders

-- The reuse of an earlier destination keeps the books: if the database is consistent before it, it is
-- consistent after it.
pub reuse_destination-IsConsistent :
    (db : Db) (input : ReuseInput) {db' : Db}
    → IsConsistent db
    → reuse_destination db input ≡ ok db'
    → IsConsistent db'
unfolding reuse_destination reused
reuse_destination-IsConsistent db input {db'} c e =
    rewrite-IsConsistent db db' c (ground arith) (is_reusable db input) (reused db input)
      (record {
        same_id = λ o. refl;
        same_reference = λ o. refl;
        same_size = λ o. refl;
        same_quantity = λ o. refl;
        same_status = λ o. refl;
      })
      (ground arith)
