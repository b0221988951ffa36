-- ===== src/Customer/Contact.antt =====
-- apps/api/src/modules/customers/customer-contact.ts. The advisory locks only order transactions
-- that run at one time; a transaction is one step of the model.
use automatizacion_wh.Common.{
  ℕ, Bool, true, false, not, Option, none, some, ◌∷◌, Text, text_eq, trim, non_blank,
  collapse_spaces, Unicode, if◌then◌else◌, ◌==◌, same_text, select_one, update_where,
}
use automatizacion_wh.Database.{Db, Customer}

unfoldable pub normalized_name : Unicode → Text → Text
normalized_name u name = u.to_lower_case (collapse_spaces (trim (u.nfkc name)))

abbrev pub has_phone : Text → Customer → Bool
has_phone phone c = same_text c.normalized_phone (some phone)

abbrev pub is_customer : ℕ → Customer → Bool
is_customer customer_id c = c.id == customer_id

-- `input.displayName?.trim() || null`.
abbrev display_name_of : Option Text → Option Text
display_name_of none = none
display_name_of (some name) = non_blank name

set_customer : Db → ℕ → (Customer → Customer) → Db
set_customer db customer_id f = record db {
  customers = update_where (is_customer customer_id) f db.customers;
}

-- The row that has the phone already. A name is filled in where there is none; another name than the
-- one on the row asks for a review, and no customer is returned.
unfoldable pub match_existing : Unicode → Db → Option Text → Customer → Db × Option ℕ
unfolding set_customer
match_existing u db none existing = (db, some existing.id)
match_existing u db (some name) existing = elim existing.display_name [
  | none ↦
      (set_customer db existing.id (λ c. record c { display_name = some name }), some existing.id)
  | some current ↦
      if not (text_eq (normalized_name u name) (normalized_name u current))
      then (set_customer db existing.id (λ c. record c { needs_review = true }), none)
      else (db, some existing.id)
]

-- The insert does nothing where the phone is taken.
unfoldable pub resolve_customer_contact : Unicode → ℕ → Db → Text → Option Text → Db × Option ℕ
unfolding match_existing
resolve_customer_contact u new_id db phone display_name =
    let name = display_name_of display_name in
    elim (select_one (has_phone phone) db.customers) [
      | none ↦ (
        record db {
          customers =
              record {
                id = new_id;
                display_name = name;
                normalized_phone = some phone;
                needs_review = false;
              }
              ∷ db.customers;
        },
        some new_id,
      )
      | some existing ↦
          if existing.needs_review then (db, none) else match_existing u db name existing
    ]
