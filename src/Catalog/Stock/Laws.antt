-- ===== src/Catalog/Stock/Laws.antt =====
-- `setPhysicalStock` keeps the books (apps/api/src/modules/catalog/postgres-catalog-repository.ts).
use automatizacion_wh.Common.{
  ℕ, ◌≤◌, ◌≡◌, refl, subst, true, false, ◌&&◌, Option, none, some, inl, inr, ok, ◌==◌, Bool-cases,
  >>=-eq-ok, leb, select_one, select_one-none, exists_row, sum_of, sum_of-update_where_same,
  All-update_where_one, AtMostOne-update_where, arith, or_throw,
}
use automatizacion_wh.Database.{Db}
use automatizacion_wh.Database.Stock.{StockRow}
use automatizacion_wh.Order.Rows.{is_reference, is_stock}
use automatizacion_wh.Order.Validation.{parse_shoe_size}
use automatizacion_wh.Order.Ledger.{reserved_at, IsConsistent}
use automatizacion_wh.Catalog.Stock.{
  SetStockInput, validate_quantity, insert_stock, adjust_stock, replace_stock, store_stock,
  set_physical_stock,
}

module _ (db : Db) (reference_id size q : ℕ) (c : IsConsistent db) where
  insert_stock-IsConsistent :
      select_one (is_stock reference_id size) db.stock ≡ none
      → IsConsistent (insert_stock db reference_id size q)
  unfolding insert_stock sum_of
  insert_stock-IsConsistent e = record {
    unique_orders = c.unique_orders;
    unique_stock = λ r z. (
      λ h. subst (λ k. exists_row k db.stock ≡ false) (same_test r z h) absent,
      c.unique_stock r z,
    );
    bounded = (omega arith, c.bounded);
    balanced = λ r z. ground (arith, c.balanced r z);
  }
    where
      absent : exists_row (is_stock reference_id size) db.stock ≡ false
      absent = select_one-none (is_stock reference_id size) db.stock e

      same_test :
          (r z : ℕ)
          → reference_id == r && size == z ≡ true
          → is_stock reference_id size ≡ is_stock r z
      same_test r z h =
          let a : reference_id ≡ r = ground arith in let b : size ≡ z = ground arith in rw (a, b)

  replace_stock-IsConsistent :
      (existing : StockRow) {db' : Db}
      → select_one (is_stock reference_id size) db.stock ≡ some existing
      → replace_stock db reference_id size existing q ≡ ok db'
      → IsConsistent db'
  unfolding replace_stock adjust_stock
  replace_stock-IsConsistent existing {db'} found e =
      elim (Bool-cases (leb existing.reserved_quantity q)) [
        | inr below ↦ cc (rw below at e)
        | inl fits ↦ elim (Bool-cases (q == existing.physical_quantity)) [
          | inl same ↦ subst IsConsistent (ground arith) c
          | inr differs ↦ subst IsConsistent (ground arith) (adjusted fits)
        ]
      ]
    where
      adjusted :
          leb existing.reserved_quantity q ≡ true
          → IsConsistent (adjust_stock db reference_id size existing q)
      adjusted fits = record {
        unique_orders = c.unique_orders;
        unique_stock = λ r z.
            AtMostOne-update_where (is_stock r z) (is_stock reference_id size)
              (λ s. record s { physical_quantity = q }) db.stock (λ s. refl) (c.unique_stock r z);
        bounded =
            All-update_where_one (λ s. s.reserved_quantity ≤ s.physical_quantity)
              (is_stock reference_id size) (λ s. record s { physical_quantity = q }) db.stock
              (c.unique_stock reference_id size) found (ground arith) c.bounded;
        balanced = λ r z.
            rw
              (sum_of-update_where_same (reserved_at r z) (is_stock reference_id size)
                (λ s. record s { physical_quantity = q }) db.stock (λ s h. refl))
              (c.balanced r z);
      }

-- A physical count that is stored keeps the books: if they are balanced and nothing is reserved beyond
-- the physical units before it, so they are after it.
pub set_physical_stock-IsConsistent :
    (db : Db) (input : SetStockInput) {db' : Db}
    → IsConsistent db
    → set_physical_stock db input ≡ ok db'
    → IsConsistent db'
unfolding set_physical_stock
set_physical_stock-IsConsistent db input {db'} c e =
    let (size, e₁, r₁) = >>=-eq-ok (parse_shoe_size input.size) _ e in
    let (q, e₂, r₂) = >>=-eq-ok (validate_quantity input.physical_quantity) _ r₁ in
    let (reference, e₃, r₃) =
      >>=-eq-ok (or_throw (select_one (is_reference input.reference_id) db.references) _) _ r₂ in
    stored size q (select_one (is_stock input.reference_id size) db.stock) refl r₃
  where
    stored :
        (size q : ℕ) (o : Option StockRow)
        → select_one (is_stock input.reference_id size) db.stock ≡ o
        → store_stock db input.reference_id size q o ≡ ok db'
        → IsConsistent db'
    stored size q none f r =
        subst IsConsistent (ground arith)
          (insert_stock-IsConsistent db input.reference_id size q c f)
    stored size q (some existing) f r =
        replace_stock-IsConsistent db input.reference_id size q c existing f r
