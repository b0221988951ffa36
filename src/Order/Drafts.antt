-- ===== src/Order/Drafts.antt =====
-- What the writes of a draft share (apps/api/src/modules/orders/postgres-order-repository.ts): the customer
-- must be the one that was read first, and no other order is written.
use automatizacion_wh.Common.{
  ℕ, ◌≡◌, refl, ap, Bool, true, not, ◌&&◌, Option, none, some, List, Text, text_eq_iff, same_text,
  same_number, select_all, update_where, select_all-update_where, arith,
}
use automatizacion_wh.Database.{Db}
use automatizacion_wh.Database.Orders.{Order, OrderStatus, draft}
use automatizacion_wh.Order.Rows.{is_order}
use automatizacion_wh.Order.Summaries.{is_draft, same_identity}

-- The order was read before with the same customer and phone.
abbrev pub SameContact : Option Order → Order → Type 0
SameContact seen order =
    (o : Order) × (seen ≡ some o)
    × (o.customer_id ≡ order.customer_id)
    × (o.customer_phone ≡ order.customer_phone)

-- The rows of all other orders, in their order.
abbrev pub other_orders : ℕ → Db → List Order
other_orders order_id db = select_all (λ o. not (is_order order_id o)) db.orders

same_number-eq : (m n : Option ℕ) → same_number m n ≡ true → m ≡ n
same_number-eq m n e = ground arith

same_text-eq : (s t : Option Text) → same_text s t ≡ true → s ≡ t
unfolding same_text
same_text-eq none none e = refl
same_text-eq (some s) (some t) e = ap some ((text_eq_iff s t).0 e)
same_text-eq none (some t) e = cc
same_text-eq (some s) none e = cc

both_true : (a b : Bool) → (a && b) ≡ true → (a ≡ true) × (b ≡ true)
both_true a b e = ground arith

pub same_identity-SameContact :
    (seen : Option Order) (order : Order) → same_identity seen order ≡ true → SameContact seen order
same_identity-SameContact none order e = cc
same_identity-SameContact (some o) order e =
    let (customer, phone) = both_true _ _ e in
    (o, refl, same_number-eq _ _ customer, same_text-eq _ _ phone)

pub is_draft-eq : (s : OrderStatus) → is_draft s ≡ true → s ≡ draft
is_draft-eq s e = ground arith

-- A write of the order alone, which keeps its key, leaves the others as they are.
pub update_where-other_orders :
    (order_id : ℕ) (p : Order → Bool) (g : Order → Order) (orders : List Order)
    → ((o : Order) → p o ≡ true → is_order order_id o ≡ true)
    → ((o : Order) → (g o).id ≡ o.id)
    → select_all (λ o. not (is_order order_id o)) (update_where p g orders)
      ≡ select_all (λ o. not (is_order order_id o)) orders
update_where-other_orders order_id p g orders own key =
    select_all-update_where (λ o. not (is_order order_id o)) p g orders
      λ o h. (rw (own o h) refl, rw (key o) (rw (own o h) refl))
