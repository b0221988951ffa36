-- ===== src/Catalog/Stock.antt =====
-- `setPhysicalStock` of apps/api/src/modules/catalog/postgres-catalog-repository.ts, with
-- validateQuantity of catalog-validation.ts. The size is in hundredths, as parse_shoe_size takes it.
pub mod Laws
use automatizacion_wh.Common.{
  ℕ, Bool, true, false, ◌&&◌, Option, none, some, List, ◌∷◌, Result, ok, err, guard, or_throw,
  catalog_validation, catalog_not_found, ◌>>=◌, ◌>>◌, ltb, leb, ◌==◌, if◌then◌else◌, pos, sub_ℕ,
  select_one, update_where,
}
use automatizacion_wh.Database.{Db}
use automatizacion_wh.Database.Stock.{StockRow, initial, manual_adjustment}
use automatizacion_wh.Order.Rows.{is_reference, is_stock}
use automatizacion_wh.Order.Validation.{parse_shoe_size}

pub record SetStockInput : Type 0 where
  pub reference_id : ℕ
  pub size : Option ℕ
  pub physical_quantity : Option ℕ

-- A number that is no integer, or is negative, is `none`.
unfoldable pub validate_quantity : Option ℕ → Result ℕ
validate_quantity none = err (catalog_validation "invalid_quantity")
validate_quantity (some n) =
    if ltb 2000000000 n then err (catalog_validation "invalid_quantity") else ok n

unfoldable pub insert_stock : Db → ℕ → ℕ → ℕ → Db
insert_stock db reference_id size physical_quantity = record db {
  stock =
      record {
        reference_id = reference_id;
        size = size;
        physical_quantity = physical_quantity;
        reserved_quantity = 0;
      }
      ∷ db.stock;
  inventory_movements =
      record {
        reference_id = reference_id;
        size = size;
        previous_quantity = 0;
        new_quantity = physical_quantity;
        delta = pos physical_quantity;
        reason = initial;
      }
      ∷ db.inventory_movements;
}

unfoldable pub adjust_stock : Db → ℕ → ℕ → StockRow → ℕ → Db
adjust_stock db reference_id size existing physical_quantity = record db {
  stock =
      update_where (is_stock reference_id size)
        (λ s. record s { physical_quantity = physical_quantity }) db.stock;
  inventory_movements =
      record {
        reference_id = reference_id;
        size = size;
        previous_quantity = existing.physical_quantity;
        new_quantity = physical_quantity;
        delta = sub_ℕ physical_quantity existing.physical_quantity;
        reason = manual_adjustment;
      }
      ∷ db.inventory_movements;
}

-- What follows the insert that found the row there already.
unfoldable pub replace_stock : Db → ℕ → ℕ → StockRow → ℕ → Result Db
replace_stock db reference_id size existing physical_quantity = do
  guard (leb existing.reserved_quantity physical_quantity) (catalog_validation "below_reserved")
  if physical_quantity == existing.physical_quantity
      then ok db
      else ok (adjust_stock db reference_id size existing physical_quantity)

abbrev pub store_stock : Db → ℕ → ℕ → ℕ → Option StockRow → Result Db
store_stock db reference_id size physical_quantity none =
    ok (insert_stock db reference_id size physical_quantity)
store_stock db reference_id size physical_quantity (some existing) =
    replace_stock db reference_id size existing physical_quantity

unfoldable pub set_physical_stock : Db → SetStockInput → Result Db
set_physical_stock db input = do
  size ← parse_shoe_size input.size
  physical_quantity ← validate_quantity input.physical_quantity
  reference ←
      or_throw (select_one (is_reference input.reference_id) db.references) catalog_not_found
  store_stock db input.reference_id size physical_quantity
      (select_one (is_stock input.reference_id size) db.stock)
