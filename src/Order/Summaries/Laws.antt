-- ===== src/Order/Summaries/Laws.antt =====
-- A new summary (`createSummary` of apps/api/src/modules/orders/postgres-order-repository.ts).
use automatizacion_wh.Common.{ℕ, ◌≡◌, refl, Unicode, ok, >>=-eq-ok, arith}
use automatizacion_wh.Database.{Db}
use automatizacion_wh.Database.Orders.{Order, Snapshot, Summary}
use automatizacion_wh.Order.Rows.{is_order}
use automatizacion_wh.Order.Transition.Confirm.{Env}
use automatizacion_wh.Order.Summaries.{summarize, store_summary, create_summary}
use automatizacion_wh.Order.Ledger.{IsConsistent}
use automatizacion_wh.Order.Ledger.Kept.{rewrite-IsConsistent}

-- What a `createSummary` that succeeds has written.
pub create_summary_lem :
    (env : Env) (u : Unicode) (seen db : Db) (order_id : ℕ) {r : Db × Summary}
    → create_summary env u seen db order_id ≡ ok r
    → (order : Order) × (snapshot : Snapshot) × (summarize env u seen db order_id
        ≡ ok (order, snapshot))
      × (store_summary db order snapshot ≡ ok r)
unfolding create_summary
create_summary_lem env u seen db order_id e =
    let (both, e₁, r₁) = >>=-eq-ok (summarize env u seen db order_id) _ e in
    (both.0, both.1, e₁, r₁)

-- A summary that `create_summary` stores keeps the books: if the database is consistent before it, it is
-- consistent after it, whatever the order was when it was first read.
pub create_summary-IsConsistent :
    (env : Env) (u : Unicode) (seen db : Db) (order_id : ℕ) {r : Db × Summary}
    → IsConsistent db
    → create_summary env u seen db order_id ≡ ok r
    → IsConsistent r.0
unfolding store_summary
create_summary-IsConsistent env u seen db order_id {r} c e =
    let (order, snapshot, e₁, r₁) = create_summary_lem env u seen db order_id e in
    rewrite-IsConsistent db r.0 c (ground arith) (is_order order.id)
      (λ o. record o { latest_summary_version = snapshot.version })
      (record {
        same_id = λ o. refl;
        same_reference = λ o. refl;
        same_size = λ o. refl;
        same_quantity = λ o. refl;
        same_status = λ o. refl;
      })
      (ground arith)
