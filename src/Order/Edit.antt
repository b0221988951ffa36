-- ===== src/Order/Edit.antt =====
-- `create`, `update`, `reuseDestination` and `findLocality` of
-- apps/api/src/modules/orders/postgres-order-repository.ts. A method of several statements takes the
-- database as each part reads it: `observed` before the transaction, `db` inside it.
pub mod Laws
use automatizacion_wh.Common.{
  ℕ, ◌+◌, Bool, true, false, not, ◌&&◌, ◌||◌, Option, none, some, List, [], ◌∷◌, Text, text_eq,
  trim, non_blank, Unicode, Result, ok, err, guard, or_throw, order_conflict, order_validation,
  ◌>>=◌, ◌>>◌, ◌==◌, if◌then◌else◌, is_some, same_text, same_number, is_number, select_one,
  update_where, exists_row, failure,
}
use automatizacion_wh.Database.{Db, Customer, Locality}
use automatizacion_wh.Database.Orders.{Order, OrderStatus, draft}
use automatizacion_wh.Customer.Contact.{has_phone, is_customer, resolve_customer_contact}
use automatizacion_wh.Order.Validation.{
  normalize_colombian_phone, validate_order_quantity, parse_shoe_size,
}
use automatizacion_wh.Order.Rows.{OrderRecord, is_order, require_mapped}
use automatizacion_wh.Order.Summaries.{is_draft, same_identity}
use automatizacion_wh.Order.Transition.Confirm.{Env}

-- `value: string | null | undefined` of an update: `undefined` keeps the column.
pub data Change : Type 0 where
  keep : Change
  set_to : Option Text → Change

-- The size is in hundredths, as parse_shoe_size takes it.
pub record CreateInput : Type 0 where
  pub reference_id : ℕ
  pub customer_id : Option ℕ
  pub size : Option ℕ
  pub quantity : Option ℕ
  pub customer_name : Option Text
  pub customer_phone : Option Text
  pub address : Option Text
  pub locality_carrier_code : Option Text
  pub delivery_notes : Option Text
  pub admin_user_id : Option ℕ

pub record PatchInput : Type 0 where
  pub order_id : ℕ
  pub customer_name : Change
  pub customer_phone : Change
  pub address : Change
  pub locality_carrier_code : Change
  pub delivery_notes : Change

-- nullable(value).
abbrev pub nullable : Option Text → Option Text
nullable none = none
nullable (some s) = non_blank s

abbrev is_locality : Text → Locality → Bool
is_locality code l = text_eq l.carrier_code code

abbrev locality_of : Db → Option Text → Result (Option Locality)
locality_of db none = ok none
locality_of db (some code) = do
  l ← or_throw (select_one (is_locality code) db.localities) (order_validation "unknown_locality")
  ok (some l)

-- A blank code is no locality. `create` goes on alike with `undefined` and with `null`.
unfoldable pub find_locality : Db → Option Text → Result (Option Locality)
find_locality db code = locality_of db (nullable code)

abbrev normalize_optional_phone : Option Text → Result (Option Text)
normalize_optional_phone none = ok none
normalize_optional_phone (some s) = do phone ← normalize_colombian_phone s; ok (some phone)

-- The customer of a new order, and the database once the contact is resolved.
unfoldable pub link_customer :
    Env → Unicode → Db → CreateInput → Option Text → Result (Db × Option ℕ)
link_customer env u db input none = do
  guard (not (is_some input.customer_id)) (order_conflict "customer_phone_required")
  ok (db, none)
link_customer env u db input (some phone) =
    let (db₁, customer_id) =
      resolve_customer_contact u env.new_customer_id db phone input.customer_name in
    (do
      guard (not (is_some input.customer_id) || same_number input.customer_id customer_id)
          (order_conflict "customer_identity_mismatch")
      ok (db₁, customer_id))

abbrev pub carrier_code_of : Option Locality → Option Text
carrier_code_of none = none
carrier_code_of (some l) = some l.carrier_code

abbrev pub department_of : Option Locality → Option Text
department_of none = none
department_of (some l) = some l.department

abbrev pub locality_name_of : Option Locality → Option Text
locality_name_of none = none
locality_name_of (some l) = some l.locality

unfoldable pub new_order :
    Env → CreateInput → ℕ → ℕ → Option Text → Option ℕ → Option Locality → Order
new_order env input size quantity phone customer_id locality = record {
  id = env.new_id;
  order_number = env.new_order_number;
  status = draft;
  reference_id = input.reference_id;
  size = size;
  quantity = quantity;
  customer_name = nullable input.customer_name;
  customer_phone = phone;
  customer_id = customer_id;
  address = nullable input.address;
  locality_carrier_code = carrier_code_of locality;
  locality_department = department_of locality;
  locality_name = locality_name_of locality;
  delivery_notes = nullable input.delivery_notes;
  draft_version = 1;
  latest_summary_version = 0;
  confirmed_summary_version = none;
}

-- The two inserts of `create`.
unfoldable pub insert_order : Db → Order → Option ℕ → Db
insert_order db order admin_user_id = record db {
  orders = order ∷ db.orders;
  status_events =
      record {
        order_id = order.id;
        previous_status = none;
        next_status = draft;
        admin_user_id = admin_user_id;
      }
      ∷ db.status_events;
}

-- The primary key refuses a random key that is taken. The row is mapped after the transaction; its
-- reference exists by the foreign key and its size has been parsed, so the mapping of a stored row
-- does not fail where the insert succeeds.
unfoldable pub create : Env → Unicode → Db → CreateInput → Result (Db × OrderRecord)
create env u db input = do
  size ← parse_shoe_size input.size
  quantity ← validate_order_quantity input.quantity
  locality ← find_locality db input.locality_carrier_code
  phone ← normalize_optional_phone input.customer_phone
  (db₁, customer_id) ← link_customer env u db input phone
  let order = new_order env input size quantity phone customer_id locality
  guard (not (exists_row (is_order order.id) db₁.orders)) (failure "sales_orders_pkey")
  let db₂ = insert_order db₁ order input.admin_user_id
  mapped ← require_mapped db₂ order
  ok (db₂, mapped)
