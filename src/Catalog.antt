-- ===== src/Catalog.antt =====
-- The catalog: apps/api/src/modules/catalog.
pub mod Stock
