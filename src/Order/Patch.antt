-- ===== src/Order/Patch.antt =====
-- `update` and `reuseDestination` of apps/api/src/modules/orders/postgres-order-repository.ts.
-- `observed` is the database as the first statement reads it, `db` as the transaction finds it
-- under its locks.
pub mod Laws
pub mod Touches
use automatizacion_wh.Common.{
  ℕ, ◌+◌, Bool, true, false, not, ◌&&◌, ◌||◌, Option, none, some, List, [], ◌∷◌, Text, text_eq,
  Unicode, Result, ok, err, guard, or_throw, order_conflict, ◌>>=◌, ◌>>◌, ◌==◌, if◌then◌else◌,
  is_some, same_text, is_number, select_one, update_where, exists_row,
}
use automatizacion_wh.Database.{Db, Customer, Locality}
use automatizacion_wh.Database.Orders.{Order}
use automatizacion_wh.Customer.Contact.{is_customer, resolve_customer_contact}
use automatizacion_wh.Order.Validation.{normalize_colombian_phone}
use automatizacion_wh.Order.Rows.{OrderRecord, is_order, require_mapped}
use automatizacion_wh.Order.Summaries.{is_draft, same_identity}
use automatizacion_wh.Order.Transition.Confirm.{Env}
use automatizacion_wh.Order.Edit.{
  Change, keep, set_to, PatchInput, nullable, find_locality, carrier_code_of, department_of,
  locality_name_of,
}

abbrev is_set : Change → Bool
is_set keep = false
is_set (set_to v) = true

-- The new value of a nullable text column.
abbrev apply_change : Change → Option Text → Option Text
apply_change keep old = old
apply_change (set_to v) old = nullable v

-- `typeof values.column === 'string'`.
abbrev sets_text : Change → Bool
sets_text keep = false
sets_text (set_to v) = is_some (nullable v)

abbrev normalize_change : Change → Result Change
normalize_change keep = ok keep
normalize_change (set_to none) = ok (set_to none)
normalize_change (set_to (some s)) = do
  phone ← normalize_colombian_phone s
  ok (set_to (some phone))

-- What is written of the locality, `keep` apart.
pub data LocalityChange : Type 0 where
  keep_locality : LocalityChange
  set_locality : Option Locality → LocalityChange

abbrev locality_change : Db → Change → Result LocalityChange
locality_change db keep = ok keep_locality
locality_change db (set_to code) = do locality ← find_locality db code; ok (set_locality locality)

abbrev lacks_phone : Option Customer → Bool
lacks_phone none = false
lacks_phone (some c) = not (is_some c.normalized_phone)

-- The profile of an anonymized customer refuses new personal data.
abbrev pub is_anonymized : Db → Option ℕ → Bool
is_anonymized db none = false
is_anonymized db (some customer_id) =
    lacks_phone (select_one (is_customer customer_id) db.customers)

abbrev pub sets_personal_data : PatchInput → Bool
sets_personal_data input =
    is_set input.customer_phone
    || sets_text input.customer_name
    || sets_text input.address
    || sets_text input.delivery_notes

abbrev phone_after : Change → Option Text → Option Text
phone_after keep old = old
phone_after (set_to v) old = v

-- The new name is given to the contact of the phone. The raw input is passed on.
abbrev rename_contact : Env → Unicode → Db → Option Text → Change → Option ℕ → Db × Option ℕ
rename_contact env u db (some phone) (set_to name) (some customer_id) =
    resolve_customer_contact u env.new_customer_id db phone name
rename_contact env u db phone name customer_id = (db, customer_id)

-- A changed phone.
abbrev pub is_unlinked : Order → Change → Bool
is_unlinked order phone =
    is_set phone && not (same_text (phone_after phone order.customer_phone) order.customer_phone)

-- The customer that the order is linked to afterwards. A changed phone unlinks it.
unfoldable pub relink : Env → Unicode → Db → Order → PatchInput → Change → Db × Option ℕ
relink env u db order input phone =
    if is_unlinked order phone
    then (db, none)
    else rename_contact env u db (phone_after phone order.customer_phone) input.customer_name
        order.customer_id

abbrev with_locality : LocalityChange → Order → Order
with_locality keep_locality o = o
with_locality (set_locality l) o = record o {
  locality_carrier_code = carrier_code_of l;
  locality_department = department_of l;
  locality_name = locality_name_of l;
}

-- The columns that the update writes.
unfoldable pub patched : PatchInput → Change → LocalityChange → Option ℕ → Order → Order
patched input phone locality customer_id o = with_locality locality (record o {
  customer_name = apply_change input.customer_name o.customer_name;
  customer_phone = phone_after phone o.customer_phone;
  customer_id = customer_id;
  address = apply_change input.address o.address;
  delivery_notes = apply_change input.delivery_notes o.delivery_notes;
  draft_version = o.draft_version + 1;
})

abbrev draft_row : Option Order → Option Order
draft_row none = none
draft_row (some o) = if is_draft o.status then some o else none

-- What the edit has computed before it locks the row.
pub record EditValues : Type 0 where
  pub locality : LocalityChange
  pub phone : Change

unfoldable pub edit_values : Db → PatchInput → Result EditValues
edit_values observed input = do
  locality ← locality_change observed input.locality_carrier_code
  phone ← normalize_change input.customer_phone
  ok (record { locality = locality; phone = phone })

-- The locked row, if it is a draft and still the contact's that was read first.
unfoldable pub editable_order : Db → Db → PatchInput → Result Order
editable_order observed db input = do
  order ←
      or_throw (draft_row (select_one (is_order input.order_id) db.orders))
        (order_conflict "order_not_editable")
  guard
      (same_identity (select_one (is_order input.order_id) observed.orders) order
        && not (is_anonymized db order.customer_id && sets_personal_data input))
      (order_conflict "customer_identity_mismatch")
  ok order

unfoldable pub write_edit : Db → PatchInput → EditValues → Option ℕ → Db
write_edit db input values customer_id = record db {
  orders =
      update_where (λ o. is_order input.order_id o && is_draft o.status)
        (patched input values.phone values.locality customer_id) db.orders;
}

-- The update, and the row that it returns, mapped after the transaction.
unfoldable pub store_edit :
    Env → Unicode → Db → PatchInput → EditValues → Order → Result (Db × OrderRecord)
store_edit env u db input values order =
    let (db₁, customer_id) = relink env u db order input values.phone in
    let db₂ = write_edit db₁ input values customer_id in
    (do
      mapped ← require_mapped db₂ (patched input values.phone values.locality customer_id order)
      ok (db₂, mapped))

unfoldable pub update : Env → Unicode → Db → Db → PatchInput → Result (Db × OrderRecord)
update env u observed db input = do
  values ← edit_values observed input
  order ← editable_order observed db input
  store_edit env u db input values order

pub record ReuseInput : Type 0 where
  pub order_id : ℕ
  pub customer_id : ℕ
  pub customer_name : Text
  pub address : Text
  pub locality_carrier_code : Text

abbrev pub is_active_locality : Text → Locality → Bool
is_active_locality code l = text_eq l.carrier_code code && l.active

abbrev pub is_trusted : ℕ → Customer → Bool
is_trusted customer_id c = c.id == customer_id && not c.needs_review && is_some c.normalized_phone

-- The `where` clause of the update, with its two `EXISTS`.
abbrev pub is_reusable : Db → ReuseInput → Order → Bool
is_reusable db input o =
    o.id == input.order_id
    && is_number o.customer_id input.customer_id
    && is_draft o.status
    && exists_row (is_trusted input.customer_id) db.customers
    && exists_row (is_active_locality input.locality_carrier_code) db.localities

unfoldable pub reused : Db → ReuseInput → Order → Order
reused db input o =
    let l = select_one (is_active_locality input.locality_carrier_code) db.localities in
    record o {
      customer_name = some input.customer_name;
      address = some input.address;
      locality_carrier_code = carrier_code_of l;
      locality_department = department_of l;
      locality_name = locality_name_of l;
      draft_version = o.draft_version + 1;
    }

unfoldable pub reuse_destination : Db → ReuseInput → Result Db
reuse_destination db input = do
  guard (exists_row (is_reusable db input) db.orders) (order_conflict "customer_identity_mismatch")
  ok (record db { orders = update_where (is_reusable db input) (reused db input) db.orders })
