-- ===== src/Order/Edit/Laws.antt =====
-- A new order keeps the books (`create` of
-- apps/api/src/modules/orders/postgres-order-repository.ts).
use automatizacion_wh.Common.{
  ℕ, ◌≡◌, refl, ap, ◌∙◌, false, not, Option, none, some, ◌∷◌, Text, Unicode, ok, guard, guard-eq-ok,
  >>=-eq-ok, exists_row, arith,
}
use automatizacion_wh.Database.{Db, Customer}
use automatizacion_wh.Database.Orders.{Order, draft}
use automatizacion_wh.Customer.Contact.{match_existing, resolve_customer_contact}
use automatizacion_wh.Order.Validation.{parse_shoe_size, validate_order_quantity}
use automatizacion_wh.Order.Rows.{OrderRecord, is_order, require_mapped}
use automatizacion_wh.Order.Transition.Confirm.{Env}
use automatizacion_wh.Order.Edit.{
  CreateInput, find_locality, normalize_optional_phone, link_customer, new_order, insert_order,
  create,
}
use automatizacion_wh.Order.Ledger.{IsConsistent}
use automatizacion_wh.Order.Ledger.Kept.{insert-IsConsistent}

match_existing_frame :
    (u : Unicode) (db : Db) (name : Option Text) (c : Customer)
    → ((match_existing u db name c).0.orders ≡ db.orders)
      × ((match_existing u db name c).0.stock ≡ db.stock)
unfolding match_existing
match_existing_frame u db none c = (refl, refl)
match_existing_frame u db (some name) c = ground arith

-- Resolving a contact writes customers only.
pub resolve_customer_contact_frame :
    (u : Unicode) (new_id : ℕ) (db : Db) (phone : Text) (name : Option Text)
    → ((resolve_customer_contact u new_id db phone name).0.orders ≡ db.orders)
      × ((resolve_customer_contact u new_id db phone name).0.stock ≡ db.stock)
unfolding resolve_customer_contact
resolve_customer_contact_frame u new_id db phone name = ground (arith, match_existing_frame u db)

link_customer_frame :
    (env : Env) (u : Unicode) (db : Db) (input : CreateInput) (phone : Option Text)
    {r : Db × Option ℕ}
    → link_customer env u db input phone ≡ ok r
    → (r.0.orders ≡ db.orders) × (r.0.stock ≡ db.stock)
unfolding link_customer
link_customer_frame env u db input none e = ground arith
link_customer_frame env u db input (some phone) e =
    ground
      (arith, resolve_customer_contact_frame u env.new_customer_id db phone input.customer_name)

-- What a `create` that succeeds has inserted.
pub create_lem :
    (env : Env) (u : Unicode) (db : Db) (input : CreateInput) {r : Db × OrderRecord}
    → create env u db input ≡ ok r
    → (order : Order) × (db₁ : Db) × (order.status ≡ draft)
      × (exists_row (is_order order.id) db₁.orders ≡ false)
      × (db₁.orders ≡ db.orders)
      × (db₁.stock ≡ db.stock)
      × (r.0 ≡ insert_order db₁ order input.admin_user_id)
unfolding create new_order
create_lem env u db input e =
    let (size, e₁, r₁) = >>=-eq-ok (parse_shoe_size input.size) _ e in
    let (q, e₂, r₂) = >>=-eq-ok (validate_order_quantity input.quantity) _ r₁ in
    let (locality, e₃, r₃) = >>=-eq-ok (find_locality db input.locality_carrier_code) _ r₂ in
    let (phone, e₄, r₄) = >>=-eq-ok (normalize_optional_phone input.customer_phone) _ r₃ in
    let (linked, e₅, r₅) = >>=-eq-ok (link_customer env u db input phone) _ r₄ in
    let order = new_order env input size q phone linked.1 locality in
    let frame = link_customer_frame env u db input phone e₅ in
    let (t, e₆, r₆) =
      >>=-eq-ok (guard (not (exists_row (is_order order.id) linked.0.orders)) _) _ r₅ in
    let fresh = guard-eq-ok (not (exists_row (is_order order.id) linked.0.orders)) _ e₆ in
    let (m, e₇, r₇) =
      >>=-eq-ok (require_mapped (insert_order linked.0 order input.admin_user_id) order) _ r₆ in
    (order, linked.0, refl, ground arith, frame.0, frame.1, ground (arith, r₇))

-- An order that `create` stores keeps the books: if the keys are unique, no stock row reserves more than
-- it has, and the reserved units of each reference and size are those of the confirmed orders, then
-- all this holds of the new database too.
pub create-IsConsistent :
    (env : Env) (u : Unicode) (db : Db) (input : CreateInput) {r : Db × OrderRecord}
    → IsConsistent db
    → create env u db input ≡ ok r
    → IsConsistent r.0
unfolding insert_order
create-IsConsistent env u db input {r} c e =
    let (order, db₁, s, fresh, orders, stock, made) = create_lem env u db input e in
    insert-IsConsistent db r.0 c (ap (λ d. d.stock) made ∙ stock) order s (rw orders at fresh)
      (ap (λ d. d.orders) made ∙ ap (λ os. order ∷ os) orders)
