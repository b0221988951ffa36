-- ===== src/Tests/Shop.antt =====
-- A shop with one shoe in stock, and the order of a customer who has seen its summary: rows of
-- apps/api/src/database/schema.
use automatizacion_wh.Common.{true, false, none, some, [], ◌∷◌, codes}
use automatizacion_wh.Database.{Db, Customer, Locality}
use automatizacion_wh.Database.Orders.{Order, draft, confirmed}
use automatizacion_wh.Database.Stock.{Reference, StockRow}
use automatizacion_wh.Database.Guides.{ShippingQuote, GuideJob, created}
use automatizacion_wh.Shipping.Policy.{default_shipping_policy, no_insurance}
use automatizacion_wh.Catalog.Stock.{SetStockInput}
use automatizacion_wh.Order.Edit.{CreateInput, PatchInput, keep, set_to}
use automatizacion_wh.Order.Patch.{ReuseInput}
use automatizacion_wh.Order.State.{confirm, dispatch}
use automatizacion_wh.Order.Summaries.{build_snapshot}
use automatizacion_wh.Order.Transition.Confirm.{Env, TransitionInput}

abbrev pub shoe : Reference
shoe = record {
  id = 7;
  code = codes "R7";
  model_name = codes "Bota";
  color = codes "negro";
  price_cop = 90000;
  active = true;
}

abbrev pub shelf : StockRow
shelf = record { reference_id = 7; size = 380; physical_quantity = 5; reserved_quantity = 0 }

abbrev pub town : Locality
town = record {
  carrier_code = codes "05001";
  department = codes "Antioquia";
  locality = codes "Cali";
  active = true;
}

abbrev pub ana : Customer
ana = record {
  id = 4;
  display_name = some (codes "Ana");
  normalized_phone = some (codes "+573001112233");
  needs_review = false;
}

abbrev pub quote : ShippingQuote
quote = record {
  id = 3;
  order_id = 1;
  draft_version = 1;
  carrier = codes "inter";
  service_id = 2;
  freight_cop = 12000;
  cash_on_delivery_cop = 3000;
  surcharge_cop = 0;
  insurance_mode = no_insurance;
  insurance_cop = 0;
  policy_snapshot = some default_shipping_policy;
  estimated_days = codes "2";
  expires_at = 1000;
  selected = true;
}

abbrev pub pair_of_boots : Order
pair_of_boots = record {
  id = 1;
  order_number = 12;
  status = draft;
  reference_id = 7;
  size = 380;
  quantity = 2;
  customer_name = some (codes "Ana");
  customer_phone = some (codes "+573001112233");
  customer_id = some 4;
  address = some (codes "Calle 1");
  locality_carrier_code = some (codes "05001");
  locality_department = some (codes "Antioquia");
  locality_name = some (codes "Cali");
  delivery_notes = none;
  draft_version = 1;
  latest_summary_version = 0;
  confirmed_summary_version = none;
}

-- The order is a draft, with its quote and no summary.
abbrev pub drafted : Db
drafted = record {
  customers = ana ∷ [];
  localities = town ∷ [];
  orders = pair_of_boots ∷ [];
  summaries = [];
  confirmations = [];
  status_events = [];
  references = shoe ∷ [];
  stock = shelf ∷ [];
  reservation_movements = [];
  inventory_movements = [];
  quotes = quote ∷ [];
  guide_jobs = [];
  owner_alerts = [];
}

-- The customer has its first summary.
abbrev pub summarized : Db
summarized = record drafted {
  orders = record pair_of_boots { latest_summary_version = 1 } ∷ [];
  summaries =
      record {
        order_id = 1;
        version = 1;
        draft_version = 1;
        snapshot = build_snapshot pair_of_boots shoe 380 (some quote);
      }
      ∷ [];
}

abbrev pub morning : Env
morning = record { now = 500; new_id = 20; new_customer_id = 21; new_order_number = 13 }

abbrev pub evening : Env
evening = record { now = 5000; new_id = 30; new_customer_id = 31; new_order_number = 14 }

abbrev pub confirms : TransitionInput
confirms = record {
  order_id = 1;
  action = confirm;
  admin_user_id = none;
  summary_version = some 1;
  idempotency_key = some (codes "k1");
}

abbrev pub dispatches : TransitionInput
dispatches = record {
  order_id = 1;
  action = dispatch;
  admin_user_id = some 1;
  summary_version = none;
  idempotency_key = none;
}

abbrev pub guide : GuideJob
guide = record {
  id = 20;
  order_id = 1;
  quote_id = some 3;
  status = created;
  carrier = codes "inter";
  insurance_mode = no_insurance;
  pre_shipment_number = some (codes "G1");
  freight_cop = some 12000;
  error_code = none;
  policy_snapshot = none;
  confirmed_total_cop = some 195000;
  guide_pdf_storage_key = none;
  guide_pdf_retired = false;
  created_at = 500;
}

-- The order is confirmed, its units are reserved and its guide is issued.
abbrev pub packed : Db
packed = record drafted {
  orders = record pair_of_boots { status = confirmed } ∷ [];
  stock = record shelf { reserved_quantity = 2 } ∷ [];
  guide_jobs = guide ∷ [];
}

-- The phone's customer is new to the shop.
abbrev pub wish : CreateInput
wish = record {
  reference_id = 7;
  customer_id = none;
  size = some 3800;
  quantity = some 1;
  customer_name = some (codes "Bea");
  customer_phone = some (codes "3009998877");
  address = some (codes "Calle 2");
  locality_carrier_code = some (codes "05001");
  delivery_notes = none;
  admin_user_id = none;
}

abbrev pub move : PatchInput
move = record {
  order_id = 1;
  customer_name = keep;
  customer_phone = keep;
  address = set_to (some (codes "Calle 3"));
  locality_carrier_code = keep;
  delivery_notes = set_to none;
}

abbrev pub home : ReuseInput
home = record {
  order_id = 1;
  customer_id = 4;
  customer_name = codes "Ana";
  address = codes "Calle 9";
  locality_carrier_code = codes "05001";
}

abbrev pub counted : SetStockInput
counted = record { reference_id = 7; size = some 3800; physical_quantity = some 9 }
