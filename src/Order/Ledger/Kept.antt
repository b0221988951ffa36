-- ===== src/Order/Ledger/Kept.antt =====
-- Writes of orders that leave the books alone: an edit, a new summary, a new draft.
use automatizacion_wh.Common.{
  ◌≡◌, subst, Bool, false, ◌∷◌, ==_iff, exists_row, update_where, sum_of, sum_of-update_where_same,
  AtMostOne-update_where, arith,
}
use automatizacion_wh.Database.{Db}
use automatizacion_wh.Database.Orders.{Order, draft}
use automatizacion_wh.Order.Rows.{is_order}
use automatizacion_wh.Order.Ledger.{held_at, IsConsistent}

-- The write keeps the key, the item and the status of every order.
pub record KeepsBooks (write : Order → Order) : Type 0 where
  pub same_id : (o : Order) → (write o).id ≡ o.id
  pub same_reference : (o : Order) → (write o).reference_id ≡ o.reference_id
  pub same_size : (o : Order) → (write o).size ≡ o.size
  pub same_quantity : (o : Order) → (write o).quantity ≡ o.quantity
  pub same_status : (o : Order) → (write o).status ≡ o.status

module _ (db db' : Db) (c : IsConsistent db) (stock : db'.stock ≡ db.stock) where
  pub rewrite-IsConsistent :
      (p : Order → Bool) (write : Order → Order)
      → KeepsBooks write
      → db'.orders ≡ update_where p write db.orders
      → IsConsistent db'
  rewrite-IsConsistent p write k e = record {
    unique_orders = λ order_id. rw e (
        AtMostOne-update_where (is_order order_id) p write db.orders (λ o. rw (k.same_id o))
          (c.unique_orders order_id));
    unique_stock = rw stock c.unique_stock;
    bounded = rw stock c.bounded;
    balanced = λ r z.
        rw (stock, e)
          (rw
            (sum_of-update_where_same (held_at r z) p write db.orders
              (λ o h. rw (k.same_reference o, k.same_size o, k.same_quantity o, k.same_status o)))
            (c.balanced r z));
  }

  pub insert-IsConsistent :
      (order : Order)
      → order.status ≡ draft
      → exists_row (is_order order.id) db.orders ≡ false
      → db'.orders ≡ order ∷ db.orders
      → IsConsistent db'
  unfolding sum_of
  insert-IsConsistent order s fresh e = record {
    unique_orders = λ order_id. rw e (
      λ h. subst (λ k. exists_row (is_order k) db.orders ≡ false) ((==_iff _ _).0 h) fresh,
      c.unique_orders order_id,
    );
    unique_stock = rw stock c.unique_stock;
    bounded = rw stock c.bounded;
    balanced = λ r z. rw (stock, e) (ground (arith, c.balanced r z));
  }
