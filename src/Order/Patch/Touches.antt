-- ===== src/Order/Patch/Touches.antt =====
-- What an edit of a draft may touch (`update` and `reuseDestination` of
-- apps/api/src/modules/orders/postgres-order-repository.ts).
use automatizacion_wh.Common.{
  ℕ, ◌+◌, ◌≡◌, refl, sym, ap, subst, ◌∙◌, Bool, true, false, not, ◌&&◌, Option, some, Text,
  text_eq_iff, Unicode, ok, guard, guard-eq-ok, order_conflict, >>=-eq-ok, ok-injective, is_some,
  ==_iff, exists_row, select_one, select_all, update_where, select_one-update_where_and, Memᴰ,
  exists_row-select_one, select_one-Mem, Mem-update_where, arith,
}
use automatizacion_wh.Database.{Db, Customer, Locality}
use automatizacion_wh.Database.Orders.{Order, draft}
use automatizacion_wh.Order.Rows.{OrderRecord, is_order}
use automatizacion_wh.Order.Summaries.{is_draft}
use automatizacion_wh.Order.Drafts.{
  SameContact, other_orders, is_draft-eq, update_where-other_orders,
}
use automatizacion_wh.Order.Transition.Confirm.{Env}
use automatizacion_wh.Order.Edit.{PatchInput, carrier_code_of, department_of, locality_name_of}
use automatizacion_wh.Order.Patch.{
  LocalityChange, keep_locality, set_locality, Change, is_anonymized, sets_personal_data, patched,
  update, ReuseInput, is_trusted, is_active_locality, is_reusable, reused, reuse_destination,
}
use automatizacion_wh.Order.Patch.Laws.{update_lem}

-- The order that is bought, its number and its summaries stay; the draft is the next version.
abbrev pub NextVersion : Order → Order → Type 0
NextVersion o o' =
    (o'.id ≡ o.id)
    × (o'.order_number ≡ o.order_number)
    × (o'.status ≡ o.status)
    × (o'.reference_id ≡ o.reference_id)
    × (o'.size ≡ o.size)
    × (o'.quantity ≡ o.quantity)
    × (o'.latest_summary_version ≡ o.latest_summary_version)
    × (o'.draft_version ≡ o.draft_version + 1)

patched-NextVersion :
    (input : PatchInput) (phone : Change) (l : LocalityChange) (id : Option ℕ) (o : Order)
    → NextVersion o (patched input phone l id o)
unfolding patched
patched-NextVersion input phone keep_locality id o =
    (refl, refl, refl, refl, refl, refl, refl, refl)
patched-NextVersion input phone (set_locality l) id o =
    (refl, refl, refl, refl, refl, refl, refl, refl)

-- An edit that succeeds is one of a draft, which has the customer and the phone that it was read with
-- before, and it gives no personal data to an anonymized customer. Afterwards the order is the next
-- version of the draft, of the same item, number and state, and every other order is as it was.
pub update_touches_draft :
    (env : Env) (u : Unicode) (observed db : Db) (input : PatchInput) {r : Db × OrderRecord}
    → update env u observed db input ≡ ok r
    → (o o' : Order) × (select_one (is_order input.order_id) db.orders ≡ some o)
      × (o.status ≡ draft)
      × SameContact (select_one (is_order input.order_id) observed.orders) o
      × ((is_anonymized db o.customer_id && sets_personal_data input) ≡ false)
      × (select_one (is_order input.order_id) r.0.orders ≡ some o')
      × NextVersion o o'
      × (other_orders input.order_id r.0 ≡ other_orders input.order_id db)
update_touches_draft env u observed db input {r} e =
    let w = update_lem env u observed db input e in
    let write = patched input w.values.phone w.values.locality w.customer_id in
    let next =
      λ (o : Order). patched-NextVersion input w.values.phone w.values.locality w.customer_id o in
    (
      w.order,
      write w.order,
      w.found,
      is_draft-eq w.order.status w.is_open,
      w.same_contact,
      w.personal,
      ap (select_one (is_order input.order_id)) w.orders
          ∙ select_one-update_where_and (is_order input.order_id) (λ o. is_draft o.status) write
              db.orders (λ o h. rw ((next o).0) h) w.found w.is_open,
      next w.order,
      ap (select_all (λ o. not (is_order input.order_id o))) w.orders
          ∙ update_where-other_orders input.order_id _ write db.orders (λ o h. own_row _ _ h)
              (λ o. (next o).0),
    )
  where
    own_row : (a b : Bool) → (a && b) ≡ true → a ≡ true
    own_row a b e = ground arith

-- The customer is one of the shop whose contact needs no review and has a phone.
abbrev pub Trusted : Db → ℕ → Type 0
Trusted db customer_id =
    (c : Customer) × Memᴰ c db.customers
    × (c.id ≡ customer_id)
    × (c.needs_review ≡ false)
    × (is_some c.normalized_phone ≡ true)

-- The destination of a customer: the locality is an active one of that code.
abbrev pub SentTo : Db → ReuseInput → Order → Type 0
SentTo db input o =
    (l : Locality) × Memᴰ l db.localities
    × (l.active ≡ true)
    × (l.carrier_code ≡ input.locality_carrier_code)
    × (o.locality_carrier_code ≡ some l.carrier_code)
    × (o.locality_department ≡ some l.department)
    × (o.locality_name ≡ some l.locality)
    × (o.address ≡ some input.address)
    × (o.customer_name ≡ some input.customer_name)

reusable_parts :
    (db : Db) (input : ReuseInput) (o : Order)
    → is_reusable db input o ≡ true
    → (o.id ≡ input.order_id)
      × (o.customer_id ≡ some input.customer_id)
      × (o.status ≡ draft)
      × (exists_row (is_trusted input.customer_id) db.customers ≡ true)
      × (exists_row (is_active_locality input.locality_carrier_code) db.localities ≡ true)
reusable_parts db input o e = ground arith

trusted_parts :
    (customer_id : ℕ) (c : Customer)
    → is_trusted customer_id c ≡ true
    → (c.id ≡ customer_id) × (c.needs_review ≡ false) × (is_some c.normalized_phone ≡ true)
trusted_parts customer_id c e = ground arith

active_parts :
    (code : Text) (l : Locality)
    → is_active_locality code l ≡ true
    → (l.active ≡ true) × (l.carrier_code ≡ code)
active_parts code l e =
    let (same, active) = both_true _ _ e in (active, (text_eq_iff l.carrier_code code).0 same)
  where
    both_true : (a b : Bool) → (a && b) ≡ true → (a ≡ true) × (b ≡ true)
    both_true a b e = ground arith

-- A reuse of an earlier destination that succeeds is one for a draft of the customer, who is trusted.
-- Afterwards the order is the next version of the draft, of the same item, number and state, with the name
-- and the address that were given and the active locality of the code; and every other order is as it
-- was.
pub reuse_touches_draft :
    (db : Db) (input : ReuseInput) {db' : Db}
    → reuse_destination db input ≡ ok db'
    → Trusted db input.customer_id
      × (o o' : Order) × Memᴰ o db.orders
      × (o.id ≡ input.order_id)
      × (o.customer_id ≡ some input.customer_id)
      × (o.status ≡ draft)
      × Memᴰ o' db'.orders
      × NextVersion o o'
      × SentTo db input o'
      × (other_orders input.order_id db' ≡ other_orders input.order_id db)
unfolding reuse_destination reused
reuse_touches_draft db input {db'} e =
    let (allowed, e₁, r₁) = >>=-eq-ok (guard _ (order_conflict "customer_identity_mismatch")) _ e in
    let orders : update_where (is_reusable db input) (reused db input) db.orders ≡ db'.orders =
      ap (λ d. d.orders) (ok-injective r₁) in
    let (o, found) = exists_row-select_one _ db.orders (guard-eq-ok _ _ e₁) in
    let (there, passes) = select_one-Mem _ db.orders found in
    let (own, of_customer, open_row, trusted, active) = reusable_parts db input o passes in
    let (c, found_c) = exists_row-select_one _ db.customers trusted in
    let (there_c, passes_c) = select_one-Mem _ db.customers found_c in
    let (l, found_l) = exists_row-select_one _ db.localities active in
    let (there_l, passes_l) = select_one-Mem _ db.localities found_l in
    let (on, code) = active_parts input.locality_carrier_code l passes_l in
    let (same_c, unreviewed, phone) = trusted_parts input.customer_id c passes_c in
    (
      (c, there_c, same_c, unreviewed, phone),
      o,
      reused db input o,
      there,
      own,
      of_customer,
      open_row,
      subst (Memᴰ (reused db input o)) orders
          (Mem-update_where (is_reusable db input) (reused db input) db.orders there passes),
      (refl, refl, refl, refl, refl, refl, refl, refl),
      (
        l,
        there_l,
        on,
        code,
        ap carrier_code_of found_l,
        ap department_of found_l,
        ap locality_name_of found_l,
        refl,
        refl,
      ),
      ap (select_all (λ o. not (is_order input.order_id o))) (sym orders)
          ∙ update_where-other_orders input.order_id (is_reusable db input) (reused db input)
              db.orders (λ o h. own_key o h) (λ o. refl),
    )
  where
    own_key : (o : Order) → is_reusable db input o ≡ true → is_order input.order_id o ≡ true
    own_key o h = (==_iff o.id input.order_id).1 (reusable_parts db input o h).0
