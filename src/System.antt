-- ===== src/System.antt =====
-- The requests that reach the orders and the stock, as steps on one database, in any order. What a
-- request has read before its transaction is part of the request, and may be any earlier database. The
-- code of the other tables (quotes, guides, customers, catalog) may write between two requests.
use automatizacion_wh.Common.{sum_of, ℕ, ◌≡◌, refl, List, [], ◌∷◌, Unicode, Result, ok, err}
use automatizacion_wh.Database.{Db, Customer, Locality}
use automatizacion_wh.Database.Stock.{Reference}
use automatizacion_wh.Order.Transition.Confirm.{Env, TransitionInput}
use automatizacion_wh.Order.Transition.{transition}
use automatizacion_wh.Order.Edit.{CreateInput, PatchInput, create}
use automatizacion_wh.Order.Patch.{ReuseInput, update, reuse_destination}
use automatizacion_wh.Order.Summaries.{create_summary}
use automatizacion_wh.Catalog.Stock.{SetStockInput, set_physical_stock}
use automatizacion_wh.Order.Ledger.{IsConsistent}
use automatizacion_wh.Order.Ledger.Transitions.{transition-IsConsistent}
use automatizacion_wh.Order.Edit.Laws.{create-IsConsistent}
use automatizacion_wh.Order.Patch.Laws.{update-IsConsistent, reuse_destination-IsConsistent}
use automatizacion_wh.Order.Summaries.Laws.{create_summary-IsConsistent}
use automatizacion_wh.Catalog.Stock.Laws.{set_physical_stock-IsConsistent}

-- `others` puts any rows into the tables but those of the orders and the stock: the quotes that a draft
-- is given and the one that is selected, the guides that the worker creates, new references and customers.
pub data Command : Type 0 where
  creates : Env → CreateInput → Command
  updates : Env → Db → PatchInput → Command
  reuses : ReuseInput → Command
  summarizes : Env → Db → ℕ → Command
  transits : Env → TransitionInput → Command
  sets_stock : SetStockInput → Command
  others : Db → Command

-- A request that fails leaves the database as it was.
abbrev pub after {ℓ} : {A : Type ℓ} → Db → Result (Db × A) → Db
after db (ok (db', a)) = db'
after db (err e) = db

abbrev pub after_write : Db → Result Db → Db
after_write db (ok db') = db'
after_write db (err e) = db

unfoldable pub step : Unicode → Db → Command → Db
step u db (creates env input) = after db (create env u db input)
step u db (updates env observed input) = after db (update env u observed db input)
step u db (reuses input) = after_write db (reuse_destination db input)
step u db (summarizes env seen order_id) = after db (create_summary env u seen db order_id)
step u db (transits env input) = after db (transition env u db input)
step u db (sets_stock input) = after_write db (set_physical_stock db input)
step u db (others rows) = record rows { orders = db.orders; stock = db.stock }

unfoldable pub run : Unicode → Db → List Command → Db
run u db [] = db
run u db (c ∷ cs) = run u (step u db c) cs

-- A shop with its references, localities and customers, and nothing stocked or ordered.
abbrev pub opening : List Reference → List Locality → List Customer → Db
opening references localities customers = record {
  customers = customers;
  localities = localities;
  orders = [];
  summaries = [];
  confirmations = [];
  status_events = [];
  references = references;
  stock = [];
  reservation_movements = [];
  inventory_movements = [];
  quotes = [];
  guide_jobs = [];
  owner_alerts = [];
}

after_keeps {ℓ κ} :
    {A : Type ℓ} (P : Db → Type κ) (db : Db) (r : Result (Db × A))
    → P db
    → ((db' : Db) (a : A) → r ≡ ok (db', a) → P db')
    → P (after db r)
after_keeps P db (ok (db', a)) p f = f db' a refl
after_keeps P db (err e) p f = p

after_write_keeps {κ} :
    (P : Db → Type κ) (db : Db) (r : Result Db)
    → P db
    → ((db' : Db) → r ≡ ok db' → P db')
    → P (after_write db r)
after_write_keeps P db (ok db') p f = f db' refl
after_write_keeps P db (err e) p f = p

step-IsConsistent :
    (u : Unicode) (db : Db) (c : Command) → IsConsistent db → IsConsistent (step u db c)
unfolding step
step-IsConsistent u db (creates env input) i =
    after_keeps IsConsistent db (create env u db input) i
      λ db' a e. create-IsConsistent env u db input i e
step-IsConsistent u db (updates env observed input) i =
    after_keeps IsConsistent db (update env u observed db input) i
      λ db' a e. update-IsConsistent env u observed db input i e
step-IsConsistent u db (reuses input) i =
    after_write_keeps IsConsistent db (reuse_destination db input) i
      λ db' e. reuse_destination-IsConsistent db input i e
step-IsConsistent u db (summarizes env seen order_id) i =
    after_keeps IsConsistent db (create_summary env u seen db order_id) i
      λ db' a e. create_summary-IsConsistent env u seen db order_id i e
step-IsConsistent u db (transits env input) i =
    after_keeps IsConsistent db (transition env u db input) i
      λ db' a e. transition-IsConsistent env u db input i e
step-IsConsistent u db (sets_stock input) i =
    after_write_keeps IsConsistent db (set_physical_stock db input) i
      λ db' e. set_physical_stock-IsConsistent db input i e
step-IsConsistent u db (others rows) i = record {
  unique_orders = i.unique_orders;
  unique_stock = i.unique_stock;
  bounded = i.bounded;
  balanced = i.balanced;
}

run-IsConsistent :
    (u : Unicode) (db : Db) (cs : List Command) → IsConsistent db → IsConsistent (run u db cs)
unfolding run
run-IsConsistent u db [] i = i
run-IsConsistent u db (c ∷ cs) i = run-IsConsistent u (step u db c) cs (step-IsConsistent u db c i)

opening-IsConsistent :
    (references : List Reference) (localities : List Locality) (customers : List Customer)
    → IsConsistent (opening references localities customers)
unfolding sum_of
opening-IsConsistent references localities customers = record {
  unique_orders = λ order_id. tt;
  unique_stock = λ r z. tt;
  bounded = tt;
  balanced = λ r z. refl;
}

-- From a shop with nothing stocked or ordered, after any list of requests, each of which succeeds or
-- fails, with any writes of the other tables between them: the keys of orders and stock are unique, no
-- stock row reserves more than its physical units, and for each reference and size the reserved units
-- are those of the confirmed orders.
pub run-opening-IsConsistent :
    (u : Unicode) (references : List Reference) (localities : List Locality)
    (customers : List Customer) (cs : List Command)
    → IsConsistent (run u (opening references localities customers) cs)
run-opening-IsConsistent u references localities customers cs =
    run-IsConsistent u (opening references localities customers) cs
      (opening-IsConsistent references localities customers)
